-- ===== src/Tenancy/Grants/Outcomes.antt =====
-- A grant never raises anyone to the grantor's rank, and gives the role where its scope says.
use open_conferences.Shared.{
  ==-refl, ℕ, ◌≤◌, ◌<◌, max, ◌≡◌, refl, sym, ◌∙◌, ◌⊎◌, inl, inr, Bool, true, not, ◌&&◌, ◌||◌,
  Option, none, some, List, [], ◌∷◌, arith, ◌==◌, is_id, Option-cases, find, filter_by, ok,
  Result-cases,
}
use open_conferences.Store.{Db}
use open_conferences.Store.Rows.{Membership, RoleKind, Scope, Conference}
use open_conferences.Store.Tables.{update_where, insert_row}
use open_conferences.Tenancy.Conferences.{load_conference, is_live}
use open_conferences.Tenancy.Grants.{
  RoleInput, is_membership, in_effect, resolve_effective_roles, roles_of, is_conference_scope,
  new_membership, find_or_create_membership, with_grant, grant_role, scoped_id, same_id, same_scope,
}
use open_conferences.Tenancy.Grants.Effect.{
  effective_iff, rank_le, role_rank_le, granted_only, granted_found, inserted_empty,
}
use open_conferences.Tenancy.Roles.{includes, role_rank, max_role_rank, can_grant_role}
use open_conferences.Tenancy.Roles.Ceiling.{can_grant_role_iff}

find-insert_row :
    (p : Membership → Bool) (m : Membership) (ms : List Membership)
    → find p ms ≡ none
    → p m ≡ true
    → find p (insert_row m ms) ≡ some m
find-insert_row p m [] h e = ground arith
find-insert_row p m (x ∷ ms) h e = ground (arith, find-insert_row p m ms)

is_membership-new :
    (id : ℕ) (input : RoleInput) (organization_id conference_id : ℕ)
    → is_membership input organization_id conference_id
        (new_membership id input organization_id conference_id)
      ≡ true
is_membership-new id input organization_id conference_id =
    ground (arith, ==-refl input.user_id, ==-refl organization_id, ==-refl conference_id)

module _ (id : ℕ) (input : RoleInput) (organization_id conference_id : ℕ) (db : Db) where
  abbrev created_db : Db
  created_db = (find_or_create_membership id input organization_id conference_id db).1

  created_roles :
      (eff : Membership → Bool) (r : RoleKind)
      → includes (roles_of (filter_by eff created_db.memberships)) r
        ≡ includes (roles_of (filter_by eff db.memberships)) r
  unfolding find_or_create_membership
  created_roles eff r = ground (
    arith,
    inserted_empty eff (new_membership id input organization_id conference_id) db.memberships r,
  )

  created_found :
      (m : Membership)
      → (find_or_create_membership id input organization_id conference_id db).0 ≡ ok m
      → find (is_membership input organization_id conference_id) created_db.memberships ≡ some m
  unfolding find_or_create_membership
  created_found m h = ground (
    arith,
    find-insert_row (is_membership input organization_id conference_id)
        (new_membership id input organization_id conference_id) db.memberships,
    is_membership-new id input organization_id conference_id,
  )

scope_covers :
    (s t : Scope) (a : Option ℕ) (conference_id k : ℕ)
    → (k ≡ conference_id) ⊎ (s ≡ Scope.organization)
    → same_scope t s ≡ true
    → same_id a (scoped_id s conference_id) ≡ true
    → (is_id a k && is_conference_scope t || not (is_conference_scope t)) ≡ true
scope_covers s Scope.organization a conference_id k scoped same named = ground arith
scope_covers Scope.organization Scope.conference a conference_id k scoped same named = ground arith
scope_covers Scope.conference Scope.conference none conference_id k scoped same named = ground arith
scope_covers Scope.conference Scope.conference (some b) conference_id k scoped same named =
    ground arith

-- The membership that is granted a role is in effect where the scope of the grant says so.
covers :
    (input : RoleInput) (o conference_id k : ℕ) (x : Membership)
    → (k ≡ conference_id) ⊎ (input.scope ≡ Scope.organization)
    → is_membership input o conference_id x ≡ true
    → in_effect input.user_id k o x ≡ true
covers input o conference_id k x scoped h =
    ground (arith, scope_covers input.scope x.scope x.conference_id conference_id k scoped)

-- What a grant that returns has passed and written.
record Granted (membership_id grant_id conference_id : ℕ) (input : RoleInput)
    (grantor_roles : List RoleKind) (before after : Db) : Type 0 where
  conference : Conference
  member : Membership
  live : find (is_live conference_id) before.conferences ≡ some conference
  below : can_grant_role grantor_roles input.role ≡ true
  is_found :
      find
        (is_membership input conference.organization_id conference_id)
        (created_db membership_id input conference.organization_id conference_id before).memberships
      ≡ some member
  written :
      after.memberships
      ≡ update_where
          (λ x. x.id == member.id)
          (with_grant grant_id input.role)
          (created_db membership_id input conference.organization_id conference_id
            before).memberships

module _ (membership_id grant_id actor conference_id : ℕ) (input : RoleInput)
    (grantor_roles : List RoleKind) (db : Db) where
  granted :
      (grant_role membership_id grant_id actor conference_id input grantor_roles db).0 ≡ ok tt
      → Granted membership_id grant_id conference_id input grantor_roles db
          (grant_role membership_id grant_id actor conference_id input grantor_roles db).1
  unfolding grant_role load_conference
  granted h = elim (Option-cases (find (is_live conference_id) db.conferences)) [
    | inl gone ↦ ground arith
    | inr (c, live) ↦
        elim (Result-cases
          (find_or_create_membership membership_id input c.organization_id conference_id db).0) [
            | inl (e, failed) ↦ ground arith
            | inr (m, made) ↦ record {
              conference = c;
              member = m;
              live = live;
              below = ground arith;
              is_found =
                  created_found membership_id input c.organization_id conference_id db m made;
              written = ground arith;
            }
          ]
  ]

  at_most :
      {after : Db}
      → Granted membership_id grant_id conference_id input grantor_roles db after
      → (user k o : ℕ) (r : RoleKind) → includes (resolve_effective_roles user k o after) r ≡ true
      → role_rank r
        ≤ max (max_role_rank (resolve_effective_roles user k o db)) (role_rank input.role)
  at_most {after} g user k o r e =
      let created = created_db membership_id input g.conference.organization_id conference_id db in
      let listed : includes
            (roles_of (
              filter_by (in_effect user k o) (
                update_where (λ x. x.id == g.member.id) (with_grant grant_id input.role)
                  created.memberships)))
            r
          ≡ true =
        rw (sym g.written) (sym (effective_iff user k o after r) ∙ e) in
      elim (granted_only (in_effect user k o) grant_id g.member.id input.role (λ m. refl)
        created.memberships r listed) [
          | inl had ↦ omega (
            arith,
            role_rank_le (resolve_effective_roles user k o db) r (
                effective_iff user k o db r
                ∙ sym (
                    created_roles membership_id input g.conference.organization_id conference_id db
                      (in_effect user k o) r)
                ∙ had),
          )
          | inr new ↦ rw (sym new) (omega arith)
        ]

  -- A grant raises nobody's rank, in whatever conference and organization, to the grantor's: who
  -- is ranked higher after it is still ranked below the roles that it was made with.
  pub grant_role-ceiling :
      (user k o : ℕ)
      → (grant_role membership_id grant_id actor conference_id input grantor_roles db).0 ≡ ok tt
      → let after =
          (grant_role membership_id grant_id actor conference_id input grantor_roles db).1 in
        (max_role_rank (resolve_effective_roles user k o after)
          ≤ max_role_rank (resolve_effective_roles user k o db))
        ⊎ (max_role_rank (resolve_effective_roles user k o after) < max_role_rank grantor_roles)
  grant_role-ceiling user k o h =
      let after =
        (grant_role membership_id grant_id actor conference_id input grantor_roles db).1 in
      let g = granted h in
      let bound : max_role_rank (resolve_effective_roles user k o after)
          ≤ max (max_role_rank (resolve_effective_roles user k o db)) (role_rank input.role) =
        rank_le (resolve_effective_roles user k o after) _ (λ r e. at_most g user k o r e) in
      omega (arith, bound, (can_grant_role_iff grantor_roles input.role).0 g.below)

  -- After a grant the user has the role in effect: of the scope of the conference in that
  -- conference, and of the scope of the organization in every conference of the organization.
  pub grant_role-effective :
      (k : ℕ)
      → (k ≡ conference_id) ⊎ (input.scope ≡ Scope.organization)
      → (grant_role membership_id grant_id actor conference_id input grantor_roles db).0 ≡ ok tt
      → (c : Conference) × (find (is_live conference_id) db.conferences ≡ some c)
        × (includes
              (resolve_effective_roles input.user_id k c.organization_id
                (grant_role membership_id grant_id actor conference_id input grantor_roles db).1)
              input.role
            ≡ true)
  grant_role-effective k scoped h =
      let g = granted h in
      (
        g.conference,
        g.live,
        effective_iff input.user_id k g.conference.organization_id
              (grant_role membership_id grant_id actor conference_id input grantor_roles db).1
              input.role
            ∙ rw g.written (
                granted_found (in_effect input.user_id k g.conference.organization_id) grant_id
                  g.member.id input.role (λ m. refl)
                  (is_membership input g.conference.organization_id conference_id)
                  (created_db membership_id input g.conference.organization_id conference_id
                    db).memberships
                  g.member (λ x. covers input g.conference.organization_id conference_id k x scoped)
                  g.is_found refl),
      )
