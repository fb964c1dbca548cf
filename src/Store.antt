-- ===== src/Store.antt =====
-- The database as the handlers see it, table by table, with the notifications published so far.
pub mod Rows
pub mod Tables
use Rows.{
  Conference, User, Membership, Track, Paper, PaperVersion, ReviewRound, Assignment, Bid,
  ConflictOfInterest, Review, Decision, Rebuttal, Registration, Payment, StudentVerification,
  AuditEntry, Mail,
}
use Tables.{insert_row}
use open_conferences.Shared.{ℕ, String, Option, List, Action, modify}

pub record Db : Type 0 where
  pub conferences : List Conference
  pub users : List User
  pub memberships : List Membership
  pub tracks : List Track
  pub papers : List Paper
  pub versions : List PaperVersion
  pub rounds : List ReviewRound
  pub assignments : List Assignment
  pub bids : List Bid
  pub conflicts : List ConflictOfInterest
  pub reviews : List Review
  pub decisions : List Decision
  pub rebuttals : List Rebuttal
  pub registrations : List Registration
  pub payments : List Payment
  pub verifications : List StudentVerification
  pub audit : List AuditEntry
  pub outbox : List Mail

-- `AuditService.log`: an entry that cannot be written is dropped, so it never fails.
abbrev pub log_audit : Option ℕ → String → ℕ → Action Db (Unit {0})
log_audit actor name entity = modify (λ db. record db {
  audit = insert_row (record { actor_user_id = actor; action = name; entity_id = entity }) db.audit;
})

-- `NotificationPublisher`: the mail is queued.
abbrev pub publish : Mail → Action Db (Unit {0})
publish mail = modify (λ db. record db { outbox = insert_row mail db.outbox })
