-- ===== src/Tenancy/Grants/Revocations.antt =====
-- A revocation only takes away.
use open_conferences.Shared.{
  ℕ, ◌≡◌, refl, sym, ◌∙◌, ◌⊎◌, inl, inr, Bool, true, not, ◌||◌, List, [], ◌∷◌, map, arith, ltb,
  ◌==◌, Bool-cases, Option-cases, find, filter_by,
}
use open_conferences.Store.{Db}
use open_conferences.Store.Rows.{RoleGrant, Membership, RoleKind, organizer}
use open_conferences.Store.Tables.{delete_where}
use open_conferences.Tenancy.Conferences.{load_conference, is_live}
use open_conferences.Tenancy.Grants.{
  RoleInput, is_membership, in_effect, resolve_effective_roles, roles_of, without_grant,
  revoke_role,
}
use open_conferences.Tenancy.Grants.Effect.{effective_iff, roles_of-cons}
use open_conferences.Tenancy.Roles.{same_role, includes, max_role_rank, can_grant_role}

deleted_roles :
    (id : ℕ) (gs : List RoleGrant) (r : RoleKind)
    → includes (map (λ g. g.role) (delete_where (λ (g : RoleGrant). g.id == id) gs)) r ≡ true
    → includes (map (λ g. g.role) gs) r ≡ true
unfolding includes
deleted_roles id [] r h = h
deleted_roles id (g ∷ gs) r h = ground (arith, deleted_roles id gs r)

revoked_only :
    (eff : Membership → Bool) (id : ℕ) (ms : List Membership) (r : RoleKind)
    → ((m : Membership) → eff (without_grant id m) ≡ eff m)
    → includes (roles_of (filter_by eff (map (without_grant id) ms))) r ≡ true
    → includes (roles_of (filter_by eff ms)) r ≡ true
revoked_only eff id [] r keep h = h
revoked_only eff id (m ∷ ms) r keep h = ground (
  arith,
  keep m,
  roles_of-cons eff m ms r,
  roles_of-cons eff (without_grant id m) (map (without_grant id) ms) r,
  deleted_roles id m.roles r,
  revoked_only eff id ms r keep,
)

revoked :
    (actor conference_id : ℕ) (input : RoleInput) (grantor_roles : List RoleKind) (db : Db)
    → ((revoke_role actor conference_id input grantor_roles db).1.memberships ≡ db.memberships)
      ⊎ ((id : ℕ) × ((revoke_role actor conference_id input grantor_roles db).1.memberships
            ≡ map (without_grant id) db.memberships))
unfolding revoke_role load_conference
revoked actor conference_id input grantor_roles db =
    elim (Option-cases (find (is_live conference_id) db.conferences)) [
      | inl gone ↦ inl (ground arith)
      | inr (c, live) ↦
          elim (Option-cases
            (find (is_membership input c.organization_id conference_id) db.memberships)) [
              | inl missing ↦ inl (ground arith)
              | inr (m, found) ↦
                  elim (Option-cases (find (λ g. same_role g.role input.role) m.roles)) [
                    | inl ungranted ↦ inl (ground arith)
                    | inr (g, granted_before) ↦
                        elim (Bool-cases (
                          ltb (max_role_rank grantor_roles) (max_role_rank (organizer ∷ []))
                          || not (can_grant_role grantor_roles input.role))) [
                            | inl refused ↦ inl (ground arith)
                            | inr allowed ↦ inr (g.id, ground arith)
                          ]
                  ]
            ]
    ]

-- A revocation, refused or not, puts no role in effect for anybody that was not before.
pub revoke_role-only_removes :
    (actor conference_id : ℕ) (input : RoleInput) (grantor_roles : List RoleKind) (db : Db)
    (user k o : ℕ) (r : RoleKind)
    → includes
        (resolve_effective_roles user k o
          (revoke_role actor conference_id input grantor_roles db).1)
        r
      ≡ true
    → includes (resolve_effective_roles user k o db) r ≡ true
revoke_role-only_removes actor conference_id input grantor_roles db user k o r h =
    let after = (revoke_role actor conference_id input grantor_roles db).1 in
    let listed = sym (effective_iff user k o after r) ∙ h in
    effective_iff user k o db r ∙ elim (revoked actor conference_id input grantor_roles db) [
      | inl same ↦ rw (sym same) listed
      | inr (id, written) ↦
          revoked_only (in_effect user k o) id db.memberships r (λ m. refl)
            (rw (sym written) listed)
    ]
