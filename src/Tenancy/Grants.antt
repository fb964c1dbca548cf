-- ===== src/Tenancy/Grants.antt =====
-- apps/api/src/tenancy/role-grant.service.ts and membership-roles.ts. The page of members that
-- the handlers answer with is left out.
pub mod Effect
pub mod Outcomes
pub mod Revocations
use open_conferences.Shared.{
  ℕ, Bool, true, false, not, ◌&&◌, ◌||◌, Option, none, some, List, [], ◌∷◌, ◌++◌, map, ltb, ◌==◌,
  if◌then◌else◌, is_id, any, find, filter_by, Exception, forbidden, not_found, ok, Action, gets,
  or_raise, ◌>>=◌, ◌>>◌, modify, raise_if,
}
use open_conferences.Store.{Db, log_audit}
use open_conferences.Store.Rows.{Membership, RoleKind, organizer, Scope, User}
use open_conferences.Store.Tables.{update_where, delete_where, insert_row}
use open_conferences.Tenancy.Conferences.{load_conference}
use open_conferences.Tenancy.Roles.{same_role, includes, max_role_rank, can_grant_role}

-- `GrantRoleInput` and `RevokeRoleInput`
pub record RoleInput : Type 0 where
  pub user_id : ℕ
  pub role : RoleKind
  pub scope : Scope

abbrev pub is_conference_scope : Scope → Bool
is_conference_scope Scope.conference = true
is_conference_scope Scope.organization = false

abbrev pub same_scope : Scope → Scope → Bool
same_scope Scope.conference s = is_conference_scope s
same_scope Scope.organization s = not (is_conference_scope s)

-- `scope === 'CONFERENCE' ? conferenceId : null`
abbrev pub scoped_id : Scope → ℕ → Option ℕ
scoped_id Scope.conference id = some id
scoped_id Scope.organization id = none

abbrev pub same_id : Option ℕ → Option ℕ → Bool
same_id none none = true
same_id (some a) (some b) = a == b
same_id _ _ = false

abbrev pub is_membership : RoleInput → ℕ → ℕ → Membership → Bool
is_membership input organization_id conference_id m =
    m.user_id == input.user_id
    && same_scope m.scope input.scope
    && m.organization_id == organization_id
    && same_id m.conference_id (scoped_id input.scope conference_id)

abbrev pub new_membership : ℕ → RoleInput → ℕ → ℕ → Membership
new_membership id input organization_id conference_id = record {
  id = id;
  user_id = input.user_id;
  organization_id = organization_id;
  conference_id = scoped_id input.scope conference_id;
  scope = input.scope;
  roles = [];
}

unfoldable pub find_or_create_membership : ℕ → RoleInput → ℕ → ℕ → Action Db Membership
find_or_create_membership id input organization_id conference_id db =
    elim (find (is_membership input organization_id conference_id) db.memberships) [
      | some m ↦ (ok m, db)
      | none ↦
          let m = new_membership id input organization_id conference_id in
          (ok m, record db { memberships = insert_row m db.memberships })
    ]

abbrev pub with_grant : ℕ → RoleKind → Membership → Membership
with_grant id role m = record m { roles = insert_row (record { id = id; role = role }) m.roles }

abbrev pub is_live_user : ℕ → User → Bool
is_live_user id u = u.id == id && not u.deleted

-- `membership_id` and `grant_id` are the ids that are generated.
unfoldable pub grant_role : ℕ → ℕ → ℕ → ℕ → RoleInput → List RoleKind → Action Db (Unit {0})
grant_role membership_id grant_id actor conference_id input grantor_roles = do
  raise_if (ltb (max_role_rank grantor_roles) (max_role_rank (organizer ∷ [])))
      (forbidden "Insufficient permissions to grant roles")
  raise_if (not (can_grant_role grantor_roles input.role))
      (forbidden "Cannot grant a role equal to or above your own privilege level")
  c ← load_conference conference_id
  target ← gets (λ db. find (is_live_user input.user_id) db.users)
  or_raise target (not_found "User not found")
  m ← find_or_create_membership membership_id input c.organization_id conference_id
  raise_if (any (λ g. same_role g.role input.role) m.roles)
      (Exception.conflict "Role already granted")
  modify (λ db. record db {
    memberships = update_where (λ x. x.id == m.id) (with_grant grant_id input.role) db.memberships;
  })
  log_audit (some actor) "role.granted" m.id

abbrev pub without_grant : ℕ → Membership → Membership
without_grant id m = record m { roles = delete_where (λ g. g.id == id) m.roles }

unfoldable pub revoke_role : ℕ → ℕ → RoleInput → List RoleKind → Action Db (Unit {0})
revoke_role actor conference_id input grantor_roles = do
  raise_if (ltb (max_role_rank grantor_roles) (max_role_rank (organizer ∷ [])))
      (forbidden "Insufficient permissions to revoke roles")
  raise_if (not (can_grant_role grantor_roles input.role))
      (forbidden "Cannot revoke a role equal to or above your own privilege level")
  c ← load_conference conference_id
  found ← gets (λ db. find (is_membership input c.organization_id conference_id) db.memberships)
  m ← or_raise found (not_found "Membership not found")
  grant ←
      or_raise (find (λ g. same_role g.role input.role) m.roles) (not_found "Role grant not found")
  modify (λ db. record db { memberships = map (without_grant grant.id) db.memberships })
  log_audit (some actor) "role.revoked" grant.id

-- `resolveEffectiveRoles`: the memberships of the conference and of its organization.
abbrev pub in_effect : ℕ → ℕ → ℕ → Membership → Bool
in_effect user conference_id organization_id m =
    m.user_id == user
    && (is_id m.conference_id conference_id && is_conference_scope m.scope
        || m.organization_id == organization_id && not (is_conference_scope m.scope))

abbrev pub roles_of : List Membership → List RoleKind
roles_of [] = []
roles_of (m ∷ ms) = map (λ g. g.role) m.roles ++ roles_of ms

-- `[...new Set(roles)]`
unfoldable pub distinct_from : List RoleKind → List RoleKind → List RoleKind
distinct_from seen [] = []
distinct_from seen (r ∷ rs) =
    let old = distinct_from seen rs in
    let new = distinct_from (r ∷ seen) rs in if includes seen r then old else r ∷ new

unfoldable pub resolve_effective_roles : ℕ → ℕ → ℕ → Db → List RoleKind
resolve_effective_roles user conference_id organization_id db =
    distinct_from []
      (roles_of (filter_by (in_effect user conference_id organization_id) db.memberships))
