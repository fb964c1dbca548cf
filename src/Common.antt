-- ===== src/Common.antt =====
-- What the services share: apps/api/src/common.
pub mod Pagination
mod Tests
