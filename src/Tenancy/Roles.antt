-- ===== src/Tenancy/Roles.antt =====
-- apps/api/src/tenancy/role-hierarchy.ts, and the reader roles of submission.mapper.ts.
pub mod Ceiling
use open_conferences.Shared.{ℕ, max, Bool, true, false, List, [], ◌∷◌, ltb, leb, if◌then◌else◌, any}
use open_conferences.Store.Rows.{
  RoleKind, platform_admin, org_admin, organizer, chair, reviewer, author,
}

-- `ROLE_RANK`
unfoldable pub role_rank : RoleKind → ℕ
role_rank platform_admin = 100
role_rank org_admin = 90
role_rank organizer = 80
role_rank chair = 70
role_rank reviewer = 50
role_rank author = 40

unfoldable pub same_role : RoleKind → RoleKind → Bool
same_role platform_admin platform_admin = true
same_role org_admin org_admin = true
same_role organizer organizer = true
same_role chair chair = true
same_role reviewer reviewer = true
same_role author author = true
same_role _ _ = false

-- `roles.includes(role)`
unfoldable pub includes : List RoleKind → RoleKind → Bool
unfolding same_role
includes roles role = any (λ r. same_role r role) roles

-- `Math.max` over the ranks, which are positive; 0 of no roles.
unfoldable pub max_role_rank : List RoleKind → ℕ
unfolding role_rank
max_role_rank [] = 0
max_role_rank (r ∷ rs) = max (role_rank r) (max_role_rank rs)

unfoldable pub can_coordinate_review : List RoleKind → Bool
unfolding max_role_rank
can_coordinate_review roles = leb (max_role_rank (chair ∷ [])) (max_role_rank roles)

unfoldable pub can_manage_conference_review : List RoleKind → Bool
unfolding max_role_rank
can_manage_conference_review roles = leb (max_role_rank (organizer ∷ [])) (max_role_rank roles)

abbrev pub seed_only_roles : List RoleKind
seed_only_roles = platform_admin ∷ []

abbrev pub mfa_required_roles : List RoleKind
mfa_required_roles = platform_admin ∷ org_admin ∷ organizer ∷ chair ∷ []

unfoldable pub can_grant_role : List RoleKind → RoleKind → Bool
unfolding max_role_rank includes
can_grant_role grantor_roles target_role =
    if includes seed_only_roles target_role
    then false
    else ltb (role_rank target_role) (max_role_rank grantor_roles)

abbrev pub privileged_reader_roles : List RoleKind
privileged_reader_roles = platform_admin ∷ org_admin ∷ organizer ∷ chair ∷ []

unfoldable pub is_privileged_reader : List RoleKind → Bool
unfolding includes
is_privileged_reader roles = any (λ role. includes roles role) privileged_reader_roles
