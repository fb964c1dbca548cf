-- ===== src/Tenancy/Grants/Effect.antt =====
-- What a grant and a revocation do to the roles in effect.
use open_conferences.Shared.{
  ==-refl, ℕ, ◌≤◌, max, ◌≡◌, refl, ◌∙◌, ◌⊎◌, inl, inr, Bool, true, ◌&&◌, ◌||◌, some, List, [], ◌∷◌,
  ◌++◌, map, arith, ◌==◌, Bool-cases, find, filter_by,
}
use open_conferences.Store.{Db}
use open_conferences.Store.Rows.{RoleGrant, Membership, RoleKind}
use open_conferences.Store.Tables.{update_where, insert_row}
use open_conferences.Tenancy.Grants.{
  with_grant, in_effect, roles_of, distinct_from, resolve_effective_roles,
}
use open_conferences.Tenancy.Roles.{same_role, includes, role_rank, max_role_rank}

pub same_role_sound : (a b : RoleKind) → same_role a b ≡ true → a ≡ b
unfolding same_role
same_role_sound a b h = ground arith

same_role_refl : (a : RoleKind) → same_role a a ≡ true
unfolding same_role
same_role_refl a = ground arith

pub includes-append :
    (xs ys : List RoleKind) (r : RoleKind)
    → includes (xs ++ ys) r ≡ (includes xs r || includes ys r)
unfolding includes
includes-append [] ys r = refl
includes-append (x ∷ xs) ys r = ground (arith, includes-append xs ys r)

distinct_from-includes :
    (seen rs : List RoleKind) (r : RoleKind)
    → (includes seen r || includes (distinct_from seen rs) r) ≡ (includes seen r || includes rs r)
unfolding distinct_from includes
distinct_from-includes seen [] r = refl
distinct_from-includes seen (x ∷ rs) r = ground (
  arith,
  distinct_from-includes seen rs r,
  distinct_from-includes (x ∷ seen) rs r,
  same_role_sound x r,
)

-- A role is in effect if a membership in effect has it.
pub effective_iff :
    (user conference_id organization_id : ℕ) (db : Db) (r : RoleKind)
    → includes (resolve_effective_roles user conference_id organization_id db) r
      ≡ includes
          (roles_of (filter_by (in_effect user conference_id organization_id) db.memberships))
          r
unfolding resolve_effective_roles includes
effective_iff user conference_id organization_id db r =
    distinct_from-includes []
      (roles_of (filter_by (in_effect user conference_id organization_id) db.memberships)) r

rank-append :
    (xs ys : List RoleKind) → max_role_rank (xs ++ ys) ≡ max (max_role_rank xs) (max_role_rank ys)
unfolding max_role_rank
rank-append [] ys = omega arith
rank-append (x ∷ xs) ys = omega (arith, rank-append xs ys)

-- The rank of a list of roles is bounded by a number if every role's is.
pub rank_le :
    (rs : List RoleKind) (n : ℕ)
    → ((r : RoleKind) → includes rs r ≡ true → role_rank r ≤ n)
    → max_role_rank rs ≤ n
unfolding max_role_rank includes
rank_le [] n h = omega arith
rank_le (r ∷ rs) n h =
    let here : role_rank r ≤ n = h r (ground (arith, same_role_refl r)) in
    omega (arith, here, rank_le rs n (λ q e. h q (ground arith)))

pub role_rank_le :
    (rs : List RoleKind) (r : RoleKind) → includes rs r ≡ true → role_rank r ≤ max_role_rank rs
unfolding max_role_rank includes
role_rank_le [] r h = ground arith
role_rank_le (x ∷ rs) r h = ground (arith, role_rank_le rs r, same_role_sound x r)

inserted_roles :
    (id : ℕ) (role r : RoleKind) (gs : List RoleGrant)
    → includes (map (λ g. g.role) (insert_row (record { id = id; role = role }) gs)) r
      ≡ (includes (map (λ g. g.role) gs) r || same_role role r)
unfolding includes
inserted_roles id role r [] = ground arith
inserted_roles id role r (g ∷ gs) = ground (arith, inserted_roles id role r gs)

pub roles_of-cons :
    (eff : Membership → Bool) (m : Membership) (ms : List Membership) (r : RoleKind)
    → includes (roles_of (filter_by eff (m ∷ ms))) r ≡ (
        (eff m && includes (map (λ g. g.role) m.roles) r)
        || includes (roles_of (filter_by eff ms)) r)
roles_of-cons eff m ms r = elim (Bool-cases (eff m)) [
  | inl on ↦ rw on (includes-append (map (λ g. g.role) m.roles) (roles_of (filter_by eff ms)) r)
  | inr off ↦ rw off refl
]

module _ (eff : Membership → Bool) (id k : ℕ) (role : RoleKind)
    (keep : (m : Membership) → eff (with_grant id role m) ≡ eff m) where
  -- A grant adds at most the role that is granted.
  pub granted_only :
      (ms : List Membership) (r : RoleKind)
      → includes
          (roles_of (filter_by eff (update_where (λ x. x.id == k) (with_grant id role) ms)))
          r
        ≡ true
      → (includes (roles_of (filter_by eff ms)) r ≡ true) ⊎ (role ≡ r)
  granted_only [] r h = inl h
  granted_only (m ∷ ms) r h =
      let rest = update_where (λ x. x.id == k) (with_grant id role) ms in
      ground (
        arith,
        roles_of-cons eff m ms r,
        roles_of-cons eff m rest r,
        roles_of-cons eff (with_grant id role m) rest r,
        keep m,
        inserted_roles id role r m.roles,
        same_role_sound role r,
        granted_only ms r,
      )

  -- A membership in effect that gets the grant puts the role in effect.
  pub granted_found :
      (q : Membership → Bool) (ms : List Membership) (m : Membership)
      → ((x : Membership) → q x ≡ true → eff x ≡ true)
      → find q ms ≡ some m
      → m.id ≡ k
      → includes
          (roles_of (filter_by eff (update_where (λ x. x.id == k) (with_grant id role) ms)))
          role
        ≡ true
  granted_found q [] m covers found same = cc
  granted_found q (x ∷ ms) m covers found same =
      let rest = update_where (λ x. x.id == k) (with_grant id role) ms in
      ground (
        arith,
        roles_of-cons eff x rest role,
        roles_of-cons eff (with_grant id role x) rest role,
        keep x,
        covers x,
        ==-refl k,
        inserted_roles id role role x.roles,
        same_role_refl role,
        granted_found q ms m covers,
      )

pub inserted_empty :
    (eff : Membership → Bool) (m : Membership) (ms : List Membership) (r : RoleKind)
    → m.roles ≡ []
    → includes (roles_of (filter_by eff (insert_row m ms))) r
      ≡ includes (roles_of (filter_by eff ms)) r
inserted_empty eff m [] r none_yet = roles_of-cons eff m [] r ∙ rw none_yet (ground arith)
inserted_empty eff m (x ∷ ms) r none_yet = ground (
  arith,
  roles_of-cons eff x ms r,
  roles_of-cons eff x (insert_row m ms) r,
  inserted_empty eff m ms r none_yet,
)
