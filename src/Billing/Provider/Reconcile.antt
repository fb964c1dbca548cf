-- ===== src/Billing/Provider/Reconcile.antt =====
-- `runReconciliation` of apps/api/src/billing/payments.service.ts: the provider is asked about the
-- payments that are not settled, and captures are processed again. The updates of `updatedAt`,
-- which only orders the rows of the next run, are left out.
use text.Mathlib.Text.{◌==◌ as str_eq}
use open_conferences.Shared.{
  ℕ, suc, ◌+◌, String, Bool, true, not, ◌&&◌, ◌||◌, Option, none, some, List, [], ◌∷◌, ltb, ◌==◌,
  if◌then◌else◌, length, take, filter_by, bad_request, ok, err, Action, pure, or_raise, ◌>>=◌, ◌>>◌,
  raise_if,
}
use open_conferences.Store.{Db}
use open_conferences.Billing.Capture.{CaptureEvent, process_capture}
use open_conferences.Billing.Checkout.{is_created}
use open_conferences.Billing.PaidState.{is_captured, is_refund_kind}
use open_conferences.Billing.Provider.{
  Gateway, PaymentEntity, no_answer, matches_order, is_captured_entity, capture_if,
  execute_refund_intent,
}
use open_conferences.Billing.RefundEvents.{}
use open_conferences.Store.Rows.{Payment}

-- One payment that the provider reports for an order.
unfoldable pub settle_entity : Payment → PaymentEntity → Action Db (Unit {0})
settle_entity p e = do
  raise_if (not (matches_order p e)) (bad_request "Reconciled payment does not match the order")
  capture_if (is_captured_entity e) e

unfoldable pub settle_entities : Payment → List PaymentEntity → Action Db (Unit {0})
settle_entities p [] = pure tt
settle_entities p (e ∷ es) = settle_entity p e >> settle_entities p es

-- A row that was created and is not settled.
unfoldable pub reconcile_payment : Gateway → (ℕ → ℕ) → ℕ → Payment → Action Db (Unit {0})
reconcile_payment g ids now p =
    if is_refund_kind p.kind then execute_refund_intent g ids now p else elim p.provider_order_id [
      | none ↦ pure tt
      | some order_id ↦
          if str_eq p.provider "razorpay" && not (str_eq order_id "")
          then or_raise (g.fetch_order_payments order_id) no_answer >>= settle_entities p
          else pure tt
    ]

abbrev pub event_again : Payment → String → String → CaptureEvent
event_again p order_id payment_id = record {
  order_id = order_id;
  payment_id = payment_id;
  amount_minor = p.amount_minor;
  currency = p.currency;
  captured_at = p.created_at;
}

-- A capture that was committed is processed again, for what follows it.
unfoldable pub recover_capture : Payment → Action Db (Unit {0})
recover_capture p = elim p.provider_order_id [
  | none ↦ pure tt
  | some order_id ↦ elim p.provider_payment_id [
    | none ↦ pure tt
    | some payment_id ↦
        if str_eq order_id "" || str_eq payment_id ""
        then pure tt
        else process_capture p.provider (event_again p order_id payment_id) >> pure tt
  ]
]

-- A loop whose rounds may throw: the failures are counted and the loop goes on.
unfoldable pub each_row : (Payment → Action Db (Unit {0})) → List Payment → Db → ℕ × Db
each_row f [] db = (0, db)
each_row f (p ∷ ps) db =
    let (r, after) = f p db in
    let (n, last) = each_row f ps after in (elim r [ ok _ ↦ n | err _ ↦ suc n ], last)

abbrev pub is_selected : Option ℕ → Payment → Bool
is_selected none p = true
is_selected (some id) p = p.id == id

-- `oldest` orders rows by `updatedAt`, a column that the model does not have.
unfoldable pub stale_rows : (List Payment → List Payment) → ℕ → Option ℕ → Db → List Payment
stale_rows oldest now payment_id db = take 100 (
    oldest (
      filter_by
        (λ (p : Payment).
          is_selected payment_id p && is_created p.status && ltb (p.created_at + 1800000) now)
        db.payments))

unfoldable pub captured_rows : (List Payment → List Payment) → Option ℕ → Db → List Payment
captured_rows oldest payment_id db = take 100 (
    oldest (
      filter_by
        (λ (p : Payment).
          is_selected payment_id p && is_captured p.status && not (is_refund_kind p.kind))
        db.payments))

pub record Reconciled : Type 0 where
  pub inspected : ℕ
  pub failed : ℕ

unfoldable pub run_reconciliation :
    Gateway → (List Payment → List Payment) → (ℕ → ℕ) → ℕ → Option ℕ → Db → Reconciled × Db
run_reconciliation g oldest ids now payment_id db =
    let rows = stale_rows oldest now payment_id db in
    let (failed, mid) = each_row (reconcile_payment g ids now) rows db in
    let (lost, last) = each_row recover_capture (captured_rows oldest payment_id mid) mid in
    (record { inspected = length rows; failed = failed + lost }, last)
