-- ===== src/Billing/Registrations.antt =====
-- `openRegistration` of apps/api/src/billing/registrations.service.ts.
pub mod Opening
use open_conferences.Shared.{
  ℕ, ◌+◌, Bool, true, false, not, ◌&&◌, ◌||◌, Option, none, some, ◌==◌, if◌then◌else◌, is_some,
  find, Exception, not_found, error, Result, ok, err, Action, pure, gets, or_raise, lift, ◌>>=◌,
  ◌>>◌, modify, raise_if,
}
use open_conferences.Store.{Db, log_audit}
use open_conferences.Billing.Fees.{registration_deadline}
use open_conferences.Billing.PaidState.{is_captured, is_refunded}
use open_conferences.Store.Rows.{
  Conference, FeeSchedule, Payment, Registration, RegistrationStatus, pending, cancelled, Audience,
}
use open_conferences.Store.Tables.{count_where, update_where, insert_row}

abbrev pub is_cancelled : RegistrationStatus → Bool
is_cancelled cancelled = true
is_cancelled _ = false

abbrev pub is_registration_for : ℕ → ℕ → Registration → Bool
is_registration_for conference_id paper_id r =
    r.paper_id == paper_id && r.conference_id == conference_id

-- A payment through which money has moved.
abbrev pub has_moved : ℕ → Payment → Bool
has_moved registration_id p =
    p.registration_id == registration_id && (is_captured p.status || is_refunded p.status)

-- `parseFeeSchedule`
unfoldable pub parse_fee_schedule : Conference → Result FeeSchedule
parse_fee_schedule c = elim c.fee_schedule [
  | none ↦ err (error "Conference fee schedule is not configured")
  | some schedule ↦ ok schedule
]

abbrev pub new_registration : ℕ → ℕ → ℕ → ℕ → ℕ → FeeSchedule → ℕ → Registration
new_registration id now organization_id conference_id paper_id schedule deadline = record {
  id = id;
  organization_id = organization_id;
  conference_id = conference_id;
  paper_id = paper_id;
  user_id = none;
  audience = Audience.regular;
  locked_timing = none;
  billing_country = none;
  billing_name = none;
  billing_address = none;
  billing_affiliation = none;
  is_additional_paper = false;
  regular_amount_due_minor = none;
  amount_due_minor = 0;
  currency = schedule.currency;
  status = RegistrationStatus.pending;
  version = 0;
  window_opens_at = now;
  deadline_at = deadline;
  additional_grace_until = none;
}

abbrev pub reopened : ℕ → ℕ → Registration → Registration
reopened now deadline r = record r {
  status = RegistrationStatus.pending;
  window_opens_at = now;
  deadline_at = deadline;
  version = r.version + 1;
}

-- `where: { id, status: 'CANCELLED', version }`
abbrev pub is_unchanged : Registration → Registration → Bool
is_unchanged r x = x.id == r.id && is_cancelled x.status && x.version == r.version

unfoldable pub load_registration : ℕ → ℕ → Action Db Registration
load_registration conference_id paper_id =
    gets (λ db. find (is_registration_for conference_id paper_id) db.registrations) >>= λ found.
    or_raise found (not_found "Registration not found")

-- A cancelled registration is opened again unless money has moved or its timing was locked.
unfoldable pub reopen : ℕ → ℕ → ℕ → ℕ → Registration → Action Db Registration
reopen now conference_id paper_id deadline r = do
  moved ← gets (λ db. count_where (has_moved r.id) db.payments)
  raise_if (not (moved == 0) || is_some r.locked_timing) (
      Exception.conflict
        "Cancelled checkout requires organizer reconciliation before acceptance can be released")
  modify (λ db. record db {
    registrations = update_where (is_unchanged r) (reopened now deadline) db.registrations;
  })
  load_registration conference_id paper_id

unfoldable pub open_new : ℕ → ℕ → ℕ → ℕ → ℕ → Option ℕ → FeeSchedule → ℕ → Action Db Registration
open_new id now organization_id conference_id paper_id actor schedule deadline = do
  modify (λ db. record db {
    registrations =
        insert_row
          (new_registration id now organization_id conference_id paper_id schedule deadline)
          db.registrations;
  })
  log_audit actor "registration.opened" id
  pure (new_registration id now organization_id conference_id paper_id schedule deadline)

unfoldable pub open_from :
    ℕ → ℕ → ℕ → ℕ → ℕ → Option ℕ → FeeSchedule → ℕ → Option Registration → Action Db Registration
open_from id now organization_id conference_id paper_id actor schedule deadline (some r) =
    if is_cancelled r.status then reopen now conference_id paper_id deadline r else pure r
open_from id now organization_id conference_id paper_id actor schedule deadline none =
    open_new id now organization_id conference_id paper_id actor schedule deadline

unfoldable pub open_registration : ℕ → ℕ → ℕ → ℕ → ℕ → Option ℕ → Action Db Registration
open_registration id now organization_id conference_id paper_id actor = do
  found ← gets (λ db. find (λ (c : Conference). c.id == conference_id) db.conferences)
  c ← or_raise found (not_found "Conference not found")
  schedule ← lift (parse_fee_schedule c)
  deadline ← lift (registration_deadline schedule c.registration_due_at)
  existing ← gets (λ db. find (is_registration_for conference_id paper_id) db.registrations)
  open_from id now organization_id conference_id paper_id actor schedule deadline existing
