-- ===== src/Review.antt =====
-- apps/api/src/review: stages, conflicts of interest, assignments and decisions.
pub mod Stage
pub mod Conflicts
pub mod Assign
pub mod Decide
pub mod Rounds
pub mod Rebuttals
pub mod Announce
pub mod Reviews
mod Tests
