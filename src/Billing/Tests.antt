-- ===== src/Billing/Tests.antt =====
-- The theorems on fees, captures and refunds, applied to one registration.
use open_conferences.Samples.{schedule, accepted_db, paid_db, registration, captured_order}
use open_conferences.Shared.{
  ℕ, ◌+◌, ◌≤◌, ◌<◌, ◌≡◌, refl, true, false, none, some, [], ◌∷◌, ◌++◌, filter_by, sum_of, ok,
}
use open_conferences.Store.{Db}
use open_conferences.Billing.Capture.{
  apply_capture, is_duplicate, payment_for_order, CaptureEvent, process_capture,
}
use open_conferences.Billing.Capture.Idempotence.{process_capture_once}
use open_conferences.Billing.Fees.{
  registration_deadline, resolve_amount_due, PaymentQuote, quote_registration,
}
use open_conferences.Billing.Fees.Quotes.{quote_registration_bounds}
use open_conferences.Billing.PaidState.{PaidState, compute_paid_state}
use open_conferences.Billing.PaidState.Derivation.{capture_of, refund_of, compute_paid_state-sums}
use open_conferences.Billing.RefundEvents.{
  RefundEntity, EntityStatus, processed, process_refund_entity, new_refund,
}
use open_conferences.Billing.RefundEvents.Replay.{RefundWrite, process_refund_entity-RefundWrite}
use open_conferences.Billing.Refunds.{
  registration_in, allocate, allocation_for, intent_rows, RefundInput, payments_of, total_of,
  is_legacy, available, is_refundable, reserve_refund, intent_row,
}
use open_conferences.Billing.Refunds.Limits.{reserve_refund_fits}
use open_conferences.Billing.Refunds.Retry.{reserve_refund_retry}
use open_conferences.Billing.Registrations.{
  load_registration, open_from, parse_fee_schedule, reopen, open_registration, reopened,
}
use open_conferences.Billing.Registrations.Opening.{Opened, open_registration_ok}
use open_conferences.Shared.Int.{sub_ℕ}
use open_conferences.Store.Rows.{cancelled, Payment, Registration, paid, student, early}

abbrev nothing_paid : PaidState
nothing_paid = compute_paid_state 50 []

abbrev paid_registration : Registration
paid_registration = record registration { status = paid }

abbrev quote : ℕ → PaymentQuote
quote amount = record {
  amount_minor = amount;
  regular_amount_minor = amount;
  currency = "USD";
  timing = early;
  is_additional_paper = true;
}

abbrev capture_event : ℕ → CaptureEvent
capture_event amount = record {
  order_id = "order_1";
  payment_id = "pay_1";
  amount_minor = amount;
  currency = "USD";
  captured_at = 120;
}

abbrev refund_event : ℕ → EntityStatus → RefundEntity
refund_event amount status = record {
  id = "rfnd_1";
  payment_id = "pay_1";
  amount = amount;
  currency = "USD";
  status = status;
  refund_intent_id = none;
}

abbrev request : RefundInput
request = record { version = 1; amount_minor = 5000; reason = "withdrawn" }

abbrev intent : Payment
intent = intent_row 50 request 90 (record { capture = captured_order; amount = 5000 }) 130

-- The refund of the event is done.
abbrev refunded_db : Db
refunded_db = record paid_db {
  payments =
      captured_order
      ∷ new_refund 91 140 "razorpay" captured_order (refund_event 5000 processed)
      ∷ [];
}

compute_paid_state-sums_example : compute_paid_state 50 refunded_db.payments ≡ record {
  captured_minor = sum_of (capture_of 50) refunded_db.payments;
  refunded_minor = sum_of (refund_of 50) refunded_db.payments;
  net_minor =
      sub_ℕ
        (sum_of (capture_of 50) refunded_db.payments)
        (sum_of (refund_of 50) refunded_db.payments);
}
compute_paid_state-sums_example = compute_paid_state-sums 50 refunded_db.payments

quote_registration_bounds_example :
    (100 ≤ 5000) × (5000 ≤ 2147483647) × (100 ≤ 5000) × (5000 ≤ 2147483647)
unfolding quote_registration
quote_registration_bounds_example =
    quote_registration_bounds schedule student (some "US") true 100 (quote 5000) refl

reserve_refund_fits_example :
    ((reg : Registration) × (registration_in 1 50 paid_db ≡ some reg)
      × (reg.version ≡ request.version))
    × ((reserve_refund 1 50 request (λ i. i + 90) 130 paid_db).1.payments
        ≡ paid_db.payments ++ (intent ∷ []))
    × (sum_of (λ (r : Payment). r.amount_minor) (intent ∷ []) ≡ 5000)
    × (0 < 5000)
    × (5000 + total_of is_legacy (payments_of 50 paid_db)
        ≤ sum_of
            (available (payments_of 50 paid_db))
            (filter_by is_refundable (payments_of 50 paid_db)))
unfolding reserve_refund allocation_for allocate available intent_rows
reserve_refund_fits_example =
    reserve_refund_fits 1 50 request (λ i. i + 90) 130 paid_db (intent ∷ []) refl refl

reserve_refund_retry_example :
    reserve_refund 1 50 request
      (λ i. i + 95)
      200
      (reserve_refund 1 50 request (λ i. i + 90) 130 paid_db).1
    ≡ (ok (intent ∷ []), (reserve_refund 1 50 request (λ i. i + 90) 130 paid_db).1)
unfolding reserve_refund allocation_for allocate available intent_rows
reserve_refund_retry_example =
    reserve_refund_retry 1 50 request (λ i. i + 90) (λ i. i + 95) 130 200 paid_db (intent ∷ []) refl
      refl

process_refund_entity-RefundWrite_example :
    RefundWrite "razorpay"
      (refund_event 5000 processed)
      none
      paid_db.payments
      (process_refund_entity 91 140 "razorpay"
        (refund_event 5000 processed)
        none
        paid_db).1.payments
process_refund_entity-RefundWrite_example =
    process_refund_entity-RefundWrite 91 140 "razorpay" (refund_event 5000 processed) none paid_db

process_capture_once_example :
    process_capture "razorpay"
      (capture_event 1)
      (process_capture "razorpay" (capture_event 20000) accepted_db).1
    ≡ (ok false, (process_capture "razorpay" (capture_event 20000) accepted_db).1)
unfolding process_capture payment_for_order is_duplicate apply_capture resolve_amount_due
process_capture_once_example =
    process_capture_once "razorpay" (capture_event 20000) (capture_event 1) accepted_db refl refl

-- The registration was cancelled before anything was paid.
abbrev cancelled_db : Db
cancelled_db = record accepted_db {
  registrations = record registration { status = cancelled } ∷ [];
}

open_registration_ok_example :
    Opened 97 150 1 6
      (reopened 150 300 (record registration { status = cancelled }))
      cancelled_db
      (open_registration 97 150 2 1 6 (some 9) cancelled_db).1
unfolding open_registration parse_fee_schedule registration_deadline open_from reopen
    load_registration
open_registration_ok_example =
    open_registration_ok 97 150 2 1 6 (some 9) cancelled_db
      (reopened 150 300 (record registration { status = cancelled })) refl
