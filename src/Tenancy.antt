-- ===== src/Tenancy.antt =====
-- apps/api/src/tenancy: the roles, the phases of a conference, its status transitions and the
-- grants of roles.
pub mod Roles
pub mod Phase
pub mod Conferences
pub mod Lifecycle
pub mod Grants
mod Tests
