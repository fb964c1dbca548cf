-- ===== src/Billing/Capture.antt =====
-- The transaction of `processCapture` in apps/api/src/billing/payments.service.ts: a payment that
-- the provider has captured.
pub mod Idempotence
use text.Mathlib.Text.{◌==◌ as str_eq}
use open_conferences.Shared.{
  ℕ, ◌+◌, String, Bool, true, false, not, ◌&&◌, ◌||◌, Option, none, some, List, ◌==◌, if◌then◌else◌,
  is_some, find, bad_request, not_found, error, Result, ok, err, Action,
}
use open_conferences.Store.{Db}
use open_conferences.Billing.Fees.{resolve_amount_due}
use open_conferences.Billing.PaidState.{
  is_captured, is_refunded, compute_paid_state, derive_after_capture, is_awaiting,
}
use open_conferences.Billing.RefundEvents.{is_text, or_else}
use open_conferences.Store.Rows.{
  Payment, captured, PaymentKind, initial, Registration, RegistrationStatus, cancelled, paid,
  Conference, Timing, Decision, accept, Paper, decision_made, camera_ready, ReviewRound,
  StudentVerification, approved,
}
use open_conferences.Store.Tables.{update_where, latest_by}

-- `ParsedWebhookEvent`
pub record CaptureEvent : Type 0 where
  pub order_id : String
  pub payment_id : String
  pub amount_minor : ℕ
  pub currency : String
  pub captured_at : ℕ

abbrev pub is_initial : PaymentKind → Bool
is_initial initial = true
is_initial _ = false

unfoldable pub payment_for_order : String → CaptureEvent → Db → Option Payment
payment_for_order provider event db =
    find (λ p. str_eq p.provider provider && is_text p.provider_order_id event.order_id) db.payments

unfoldable pub is_duplicate : String → CaptureEvent → Payment → Db → Bool
is_duplicate provider event payment db =
    elim (find (λ p. str_eq p.provider provider && is_text p.provider_payment_id event.payment_id)
      db.payments) [ none ↦ false | some p ↦ not (p.id == payment.id) ]

-- The timing and the amount due: an initial payment without a locked timing is priced by the
-- instant of its capture.
price : Payment → Registration → CaptureEvent → Db → Result (ℕ × Option Timing)
price payment reg event db =
    if not (is_initial payment.kind) || is_some reg.locked_timing
    then ok (reg.amount_due_minor, reg.locked_timing)
    else elim (find (λ c. c.id == reg.conference_id) db.conferences) [
      | none ↦ err (not_found "Conference not found")
      | some c ↦ elim c.fee_schedule [
        | none ↦ err (error "Conference fee schedule is not configured")
        | some schedule ↦
            elim (resolve_amount_due schedule reg.audience reg.locked_timing event.captured_at) [
              | err e ↦ err e
              | ok (amount, timing) ↦ ok (amount, some timing)
            ]
      ]
    ]

abbrev pub round_number_of : List ReviewRound → Decision → ℕ
round_number_of rounds d = elim (find (λ r. r.id == d.round_id) rounds) [
  | none ↦ 0
  | some r ↦ r.round_number
]

-- `orderBy: [{ round: { roundNumber: 'desc' } }, { createdAt: 'desc' }]`: rounds of a paper have
-- different numbers, and a round has at most one decision of the paper.
abbrev pub latest_decision : ℕ → Db → Option Decision
latest_decision paper_id db =
    latest_by (round_number_of db.rounds) (λ d. d.paper_id == paper_id) db.decisions

abbrev pub is_accepted : Option Decision → Bool
is_accepted none = false
is_accepted (some d) = elim d.outcome [ accept ↦ is_some d.notified_at | _ ↦ false ]

abbrev pub is_final_paper : Option Paper → Bool
is_final_paper none = false
is_final_paper (some p) = elim p.status [ decision_made ↦ true | camera_ready ↦ true | _ ↦ false ]

-- The paper is accepted, the acceptance was released, and the paper was not withdrawn since.
unfoldable pub is_eligible : ℕ → Db → Bool
is_eligible paper_id db =
    is_accepted (latest_decision paper_id db)
    && is_final_paper (find (λ p. p.id == paper_id) db.papers)

abbrev pub is_approved : Option StudentVerification → Bool
is_approved none = false
is_approved (some v) = elim v.status [ approved ↦ true | _ ↦ false ]

abbrev latest_verification : ℕ → Db → Option StudentVerification
latest_verification registration_id db =
    latest_by (λ v. v.created_at) (λ v. v.registration_id == registration_id) db.verifications

-- `nextStatus`
unfoldable pub next_status : Registration → Db → RegistrationStatus
next_status reg db =
    if not (is_eligible reg.paper_id db)
    then cancelled
    else let derived = derive_after_capture reg (compute_paid_state reg.id db.payments) in
      if is_awaiting derived && is_approved (latest_verification reg.id db) then paid else derived

abbrev pub captured_payment : CaptureEvent → Payment → Payment
captured_payment event p = record p {
  status = captured;
  provider_payment_id = some event.payment_id;
}

abbrev pub priced : Payment → ℕ → Option Timing → Registration → Registration
priced payment amount timing reg = record reg {
  locked_timing = or_else timing reg.locked_timing;
  amount_due_minor = if is_initial payment.kind then amount else reg.amount_due_minor;
  version = reg.version + 1;
}

abbrev pub repriced : Registration → RegistrationStatus → Registration → Registration
repriced updated next r = record r {
  locked_timing = updated.locked_timing;
  amount_due_minor = updated.amount_due_minor;
  version = r.version + 1;
  status = next;
}

-- The writes: the payment, the price of the registration, and then its status from what is paid.
abbrev pub with_captured : Payment → CaptureEvent → Db → Db
with_captured payment event db = record db {
  payments = update_where (λ p. p.id == payment.id) (captured_payment event) db.payments;
}

unfoldable pub write_capture : Payment → Registration → CaptureEvent → ℕ → Option Timing → Db → Db
write_capture payment reg event amount timing db =
    let updated = priced payment amount timing reg in
    let paid_db = with_captured payment event db in
    record paid_db {
      registrations =
          update_where (λ r. r.id == reg.id) (repriced updated (next_status updated paid_db))
            db.registrations;
    }

abbrev pub is_settled_payment : Payment → Bool
is_settled_payment p = is_captured p.status || is_refunded p.status

-- The transaction on the payment of the order; the answer says whether anything was applied.
unfoldable pub apply_capture : Payment → CaptureEvent → Action Db Bool
unfolding price
apply_capture payment event db =
    elim (find (λ r. r.id == payment.registration_id) db.registrations) [
      | none ↦ (err (not_found "Registration not found"), db)
      | some reg ↦ elim (find (λ p. p.id == payment.id) db.payments) [
        | none ↦ (err (not_found "Payment not found"), db)
        | some current ↦
            if is_settled_payment current
            then (ok false, db)
            else if not (event.amount_minor == current.amount_minor)
                || not (str_eq event.currency current.currency)
            then (
              err (bad_request "Captured payment amount or currency does not match the order"),
              db,
            )
            else elim (price payment reg event db) [
              | err e ↦ (err e, db)
              | ok (amount, timing) ↦ (ok true, write_capture payment reg event amount timing db)
            ]
      ]
    ]

-- Unknown orders and payments of another order are acknowledged and ignored.
unfoldable pub process_capture : String → CaptureEvent → Action Db Bool
process_capture provider event db = elim (payment_for_order provider event db) [
  | none ↦ (ok false, db)
  | some payment ↦
      if is_duplicate provider event payment db
      then (ok false, db)
      else apply_capture payment event db
]
