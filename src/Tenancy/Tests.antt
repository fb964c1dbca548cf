-- ===== src/Tenancy/Tests.antt =====
-- The theorems on roles, phases and transitions, applied to one conference.
use open_conferences.Samples.{call, conference_db}
use open_conferences.Shared.{
  ◌≤◌, ◌<◌, ◌≡◌, refl, ◌⊎◌, inr, true, false, none, some, List, [], ◌∷◌, find,
}
use open_conferences.Store.{Db}
use open_conferences.Store.Rows.{Scope, org_admin, organizer, chair, cfp_open, archived, Conference}
use open_conferences.Tenancy.Conferences.{load_conference, is_live}
use open_conferences.Tenancy.Grants.{
  find_or_create_membership, RoleInput, grant_role, resolve_effective_roles,
}
use open_conferences.Tenancy.Grants.Outcomes.{grant_role-ceiling, grant_role-effective}
use open_conferences.Tenancy.Lifecycle.{moved}
use open_conferences.Tenancy.Lifecycle.Archive.{Request, serve, HasStatus, serve-archived}
use open_conferences.Tenancy.Roles.{includes, can_grant_role, max_role_rank}
use open_conferences.Tenancy.Roles.Ceiling.{}

abbrev requests : List Request
requests =
    record {
      now = 50;
      actor = 9;
      conference_id = 1;
      target = cfp_open;
      roles = organizer ∷ [];
      expected = none;
    }
    ∷ record {
      now = 60;
      actor = 9;
      conference_id = 1;
      target = archived;
      roles = org_admin ∷ [];
      expected = some 5;
    }
    ∷ []

serve-archived_example :
    HasStatus 1 archived
      (serve requests (record conference_db { conferences = moved archived call ∷ [] }))
serve-archived_example =
    serve-archived requests 1 (record conference_db { conferences = moved archived call ∷ [] })
      (moved archived call, refl, refl)

abbrev grant_input : RoleInput
grant_input = record { user_id = 22; role = chair; scope = Scope.organization }

abbrev member_db : Db
member_db = record conference_db {
  users =
      record {
        id = 22;
        email = "bo@example.org";
        name = "Bo";
        two_factor_enabled = false;
        deleted = false;
      }
      ∷ [];
}

grant_role-ceiling_example :
    (max_role_rank (
        resolve_effective_roles 22 1 2
          (grant_role 90 91 9 1 grant_input (organizer ∷ []) member_db).1)
      ≤ max_role_rank (resolve_effective_roles 22 1 2 member_db))
    ⊎ (max_role_rank (
          resolve_effective_roles 22 1 2
            (grant_role 90 91 9 1 grant_input (organizer ∷ []) member_db).1)
        < max_role_rank (organizer ∷ []))
unfolding grant_role max_role_rank can_grant_role load_conference find_or_create_membership
grant_role-ceiling_example =
    grant_role-ceiling 90 91 9 1 grant_input (organizer ∷ []) member_db 22 1 2 refl

grant_role-effective_example :
    (c : Conference) × (find (is_live 1) member_db.conferences ≡ some c)
    × (includes
          (resolve_effective_roles 22 77 c.organization_id
            (grant_role 90 91 9 1 grant_input (organizer ∷ []) member_db).1)
          chair
        ≡ true)
unfolding grant_role max_role_rank can_grant_role load_conference find_or_create_membership
grant_role-effective_example =
    grant_role-effective 90 91 9 1 grant_input (organizer ∷ []) member_db 77 (inr refl) refl
