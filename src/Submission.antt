-- ===== src/Submission.antt =====
-- apps/api/src/submission/papers.service.ts: the life of a paper up to its review.
pub mod Queries
pub mod Submit
pub mod Draft
pub mod Withdraw
mod Tests
