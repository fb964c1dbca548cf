-- ===== src/Billing/Refunds.antt =====
-- `PaymentsService.refund` and `processRefundEntity` (apps/api/src/billing/payments.service.ts).
pub mod Limits
pub mod Retry
use text.Mathlib.Text.{◌==◌ as str_eq}
use open_conferences.Shared.{
  ℕ, suc, ◌+◌, ◌-◌, min, String, Bool, true, false, not, ◌&&◌, ◌||◌, Option, none, some, List, [],
  ◌∷◌, ◌++◌, ltb, leb, ◌==◌, if◌then◌else◌, is_id, is_some, any, find, filter_by, sum_of, Exception,
  bad_request, not_found, ok, err, Action,
}
use open_conferences.Store.{Db}
use open_conferences.Billing.PaidState.{is_captured, is_refund_kind}
use open_conferences.Store.Rows.{Key, Payment, PaymentStatus, created, failed, refund, Registration}
use open_conferences.Store.Tables.{update_where}

abbrev pub is_failed : PaymentStatus → Bool
is_failed failed = true
is_failed _ = false

-- A refund that is done, pending or uncertain: it holds its amount back.
abbrev pub is_reserved : Payment → Bool
is_reserved p = is_refund_kind p.kind && not (is_failed p.status)

-- `!row.refundOfPaymentId`
abbrev pub is_legacy : Payment → Bool
is_legacy p = is_reserved p && not (is_some p.refund_of_payment_id)

abbrev pub reserves : ℕ → Payment → Bool
reserves capture_id p = is_reserved p && is_id p.refund_of_payment_id capture_id

abbrev pub total_of : (Payment → Bool) → List Payment → ℕ
total_of p rows = sum_of (λ (r : Payment). r.amount_minor) (filter_by p rows)

-- A captured payment that the provider knows.
abbrev pub is_refundable : Payment → Bool
is_refundable p =
    not (is_refund_kind p.kind) && is_captured p.status && is_some p.provider_payment_id

-- `Math.max(available, 0)` before the legacy refunds are taken off: `-` stops at 0.
unfoldable pub available : List Payment → Payment → ℕ
available rows capture = capture.amount_minor - total_of (reserves capture.id) rows

-- One part of a refund: so much of that capture.
pub record Allocation : Type 0 where
  pub capture : Payment
  pub amount : ℕ

-- What the loop has left at its end.
pub record Allocated : Type 0 where
  pub parts : List Allocation
  pub legacy : ℕ
  pub remaining : ℕ

add_part : Payment → ℕ → Allocated → Allocated
add_part capture amount rest =
    if ltb 0 amount
    then record rest { parts = record { capture = capture; amount = amount } ∷ rest.parts }
    else rest

-- The loop over the captures, oldest first. Refunds of unknown captures (`legacy`) use up the
-- oldest captures before anything is allocated.
unfoldable pub allocate : List Payment → List Payment → ℕ → ℕ → Allocated
unfolding add_part
allocate rows [] legacy remaining = record { parts = []; legacy = legacy; remaining = remaining }
allocate rows (c ∷ cs) legacy remaining =
    let share = min (available rows c) legacy in
    let amount = min (available rows c - share) remaining in
    add_part c amount (allocate rows cs (legacy - share) (remaining - amount))

-- The rows of one registration, oldest first.
abbrev pub payments_of : ℕ → Db → List Payment
payments_of registration_id db = filter_by (λ p. p.registration_id == registration_id) db.payments

abbrev pub has_key : Key → Option Key → Bool
has_key (Key.refund_request r v) (some (Key.refund_request r' v')) = r == r' && v == v'
has_key (Key.client k) (some (Key.client k')) = str_eq k k'
has_key _ _ = false

abbrev pub has_reason : String → Payment → Bool
has_reason reason p = elim p.request_reason [ none ↦ false | some r ↦ str_eq r reason ]

-- The rows that an earlier request with the same version of the registration has created.
abbrev pub request_rows : ℕ → ℕ → Db → List Payment
request_rows registration_id version db =
    filter_by
      (λ p.
        p.registration_id == registration_id
        && is_refund_kind p.kind
        && has_key (Key.refund_request registration_id version) p.idempotency_key)
      db.payments

-- A refund is asked for by a version of the registration, an amount and a reason.
pub record RefundInput : Type 0 where
  pub version : ℕ
  pub amount_minor : ℕ
  pub reason : String

-- The row that records the intent, before the provider is called.
abbrev pub intent_row : ℕ → RefundInput → ℕ → Allocation → ℕ → Payment
intent_row registration_id input id part now = record {
  id = id;
  organization_id = part.capture.organization_id;
  registration_id = registration_id;
  provider = part.capture.provider;
  provider_order_id = none;
  provider_payment_id = none;
  status = created;
  amount_minor = part.amount;
  currency = part.capture.currency;
  kind = refund;
  refund_of_payment_id = some part.capture.id;
  idempotency_key = some (Key.refund_request registration_id input.version);
  request_reason = some input.reason;
  created_at = now;
}

-- `fresh` gives the ids that are generated.
unfoldable pub intent_rows : ℕ → RefundInput → (ℕ → ℕ) → ℕ → ℕ → List Allocation → List Payment
intent_rows registration_id input fresh now i [] = []
intent_rows registration_id input fresh now i (a ∷ parts) =
    intent_row registration_id input (fresh i) a now
    ∷ intent_rows registration_id input fresh now (suc i) parts

unfoldable pub allocation_for : ℕ → RefundInput → Db → Allocated
allocation_for registration_id input db =
    let rows = payments_of registration_id db in
    allocate rows (filter_by is_refundable rows) (total_of is_legacy rows) input.amount_minor

abbrev pub registration_in : ℕ → ℕ → Db → Option Registration
registration_in conference_id registration_id db =
    find (λ r. r.id == registration_id && r.conference_id == conference_id) db.registrations

-- A first request: the version must be current and the amount available.
reserve_new : ℕ → RefundInput → (ℕ → ℕ) → ℕ → Registration → Action Db (List Payment)
reserve_new registration_id input fresh now reg db =
    let plan = allocation_for registration_id input db in
    let rows = intent_rows registration_id input fresh now 0 plan.parts in
    if not (reg.version == input.version)
    then (err (Exception.conflict "Registration was modified by another request"), db)
    else if ltb 0 plan.remaining || leb input.amount_minor 0
    then (err (bad_request "Refund amount exceeds available captured funds"), db)
    else (
      ok rows,
      record db {
        payments = db.payments ++ rows;
        registrations =
            update_where (λ r. r.id == registration_id) (λ r. record r { version = r.version + 1 })
              db.registrations;
      },
    )

-- A retry finds the rows of the first request, and must ask for the same.
reserve_again : RefundInput → List Payment → Action Db (List Payment)
reserve_again input rows db =
    if not (sum_of (λ (r : Payment). r.amount_minor) rows == input.amount_minor)
      || any (λ p. not (has_reason input.reason p)) rows
    then (err (Exception.conflict "Refund retry must use the original amount and reason"), db)
    else (ok rows, db)

-- The transaction of `refund`, under the lock of the registration.
unfoldable pub reserve_refund : ℕ → ℕ → RefundInput → (ℕ → ℕ) → ℕ → Action Db (List Payment)
unfolding reserve_new reserve_again
reserve_refund conference_id registration_id input fresh now db =
    elim (registration_in conference_id registration_id db) [
      | none ↦ (err (not_found "Registration not found"), db)
      | some reg ↦ elim (request_rows registration_id input.version db) [
        | [] ↦ reserve_new registration_id input fresh now reg db
        | r ∷ rest ↦ reserve_again input (r ∷ rest) db
      ]
    ]
