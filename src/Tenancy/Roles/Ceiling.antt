-- ===== src/Tenancy/Roles/Ceiling.antt =====
-- The privilege ceiling: who may coordinate reviews, and why grants never escalate.
use open_conferences.Shared.{◌<◌, ◌≡◌, refl, ◌≢◌, ◌↔◌, ◌⊎◌, true, List, [], ◌∷◌, arith, leb}
use open_conferences.Store.Rows.{
  RoleKind, platform_admin, org_admin, organizer, chair, reviewer, author,
}
use open_conferences.Tenancy.Roles.{
  role_rank, max_role_rank, can_coordinate_review, can_grant_role, is_privileged_reader,
}

-- A rank from 70 up stands for one of the four privileged roles.
coordinates_iff : (rs : List RoleKind) → leb 70 (max_role_rank rs) ≡ is_privileged_reader rs
unfolding max_role_rank is_privileged_reader
coordinates_iff [] = refl
coordinates_iff (platform_admin ∷ rs) = ground (arith, coordinates_iff rs)
coordinates_iff (org_admin ∷ rs) = ground (arith, coordinates_iff rs)
coordinates_iff (organizer ∷ rs) = ground (arith, coordinates_iff rs)
coordinates_iff (chair ∷ rs) = ground (arith, coordinates_iff rs)
coordinates_iff (reviewer ∷ rs) = ground (arith, coordinates_iff rs)
coordinates_iff (author ∷ rs) = ground (arith, coordinates_iff rs)

-- For every list of roles, the rank test by which reviews are coordinated answers as the list of
-- privileged reader roles does.
pub can_coordinate_review-eq-is_privileged_reader :
    (roles : List RoleKind) → can_coordinate_review roles ≡ is_privileged_reader roles
unfolding can_coordinate_review
can_coordinate_review-eq-is_privileged_reader roles = coordinates_iff roles

-- Grants do not escalate: if a grantor may grant a role, then whoever holds that role besides
-- others can grant no role that neither the grantor nor those others could grant.
pub can_grant_role-delegation :
    (grantor roles : List RoleKind) (granted target : RoleKind)
    → can_grant_role grantor granted ≡ true
    → can_grant_role (granted ∷ roles) target ≡ true
    → (can_grant_role grantor target ≡ true) ⊎ (can_grant_role roles target ≡ true)
unfolding can_grant_role
can_grant_role-delegation grantor roles granted target g t = ground arith

-- A role may be granted exactly by holders of a role of higher rank, and the platform
-- administrator's role by nobody.
pub can_grant_role_iff :
    (grantor : List RoleKind) (target : RoleKind)
    → (can_grant_role grantor target ≡ true)
      ↔ ((target ≢ platform_admin) × (role_rank target < max_role_rank grantor))
unfolding can_grant_role
can_grant_role_iff grantor target = (λ h. ground arith, λ h. ground arith)
