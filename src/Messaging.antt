-- ===== src/Messaging.antt =====
-- What is sent to people: apps/api/src/messaging.
pub mod Templates
mod Tests
