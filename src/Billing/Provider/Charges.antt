-- ===== src/Billing/Provider/Charges.antt =====
-- The charges of the registrations, the payments that are no refunds, in a reconciliation.
use open_conferences.Shared.{
  ℕ, String, ◌≡◌, refl, ap, ◌∙◌, inl, inr, Bool, true, not, Option, some, List, [], ◌∷◌, map, arith,
  ◌==◌, filter_by,
}
use open_conferences.Store.{Db}
use open_conferences.Billing.Capture.{
  CaptureEvent, process_capture, captured_payment, write_capture,
}
use open_conferences.Billing.Capture.Idempotence.{
  process_capture-applied_or_unchanged, process_capture_ok,
}
use open_conferences.Billing.PaidState.{is_refund_kind}
use open_conferences.Billing.Provider.{Gateway, event_of}
use open_conferences.Billing.Provider.Reconcile.{event_again, run_reconciliation}
use open_conferences.Billing.Provider.Steps.{
  Step, captures, recovers, refunds, Steps, done, step, run_reconciliation-Steps,
}
use open_conferences.Billing.RefundEvents.{RefundEntity}
use open_conferences.Billing.RefundEvents.Replay.{
  RefundWrite, same, added, changed, process_refund_entity-RefundWrite,
}
use open_conferences.Store.Rows.{Payment}
use open_conferences.Store.Tables.{update_where, insert_row}

-- What a payment asks for: its row, its registration, its order, its amount and its currency.
pub record Charge : Type 0 where
  pub id : ℕ
  pub registration_id : ℕ
  pub provider_order_id : Option String
  pub amount_minor : ℕ
  pub currency : String

abbrev pub charge_of : Payment → Charge
charge_of p = record {
  id = p.id;
  registration_id = p.registration_id;
  provider_order_id = p.provider_order_id;
  amount_minor = p.amount_minor;
  currency = p.currency;
}

abbrev pub charges : List Payment → List Charge
charges rows = map charge_of (filter_by (λ (p : Payment). not (is_refund_kind p.kind)) rows)

-- A change that keeps the kind of a row and what it asks for.
abbrev KeepsCharge : (Payment → Payment) → Type 0
KeepsCharge f = (p : Payment) → (charge_of (f p) ≡ charge_of p) × ((f p).kind ≡ p.kind)

charges-update_where :
    (c : Payment → Bool) (f : Payment → Payment)
    → KeepsCharge f
    → (rows : List Payment) → charges (update_where c f rows) ≡ charges rows
charges-update_where c f keeps [] = refl
charges-update_where c f keeps (p ∷ ps) =
    let rest = charges-update_where c f keeps ps in
    let (asks, kind) = keeps p in ground (arith, rest, asks, kind)

charges-insert_row :
    (p : Payment) (rows : List Payment)
    → is_refund_kind p.kind ≡ true
    → charges (insert_row p rows) ≡ charges rows
charges-insert_row p [] h = ground arith
charges-insert_row p (q ∷ qs) h = let rest = charges-insert_row p qs h in ground (arith, rest)

process_capture-charges :
    (provider : String) (event : CaptureEvent) (db : Db)
    → charges (process_capture provider event db).1.payments ≡ charges db.payments
unfolding write_capture
process_capture-charges provider event db =
    elim (process_capture-applied_or_unchanged provider event db) [
      | inr unchanged ↦ ap (λ (d : Db). charges d.payments) unchanged
      | inl applied ↦
          let done = process_capture_ok provider event db applied in
          ap (λ (d : Db). charges d.payments) done.written
          ∙ charges-update_where (λ p. p.id == done.payment.id) (captured_payment event)
              (λ p. (refl, refl)) db.payments
    ]

RefundWrite-charges :
    (provider : String) (entity : RefundEntity) (intent_id : Option ℕ) (before after : List Payment)
    → RefundWrite provider entity intent_id before after
    → charges after ≡ charges before
RefundWrite-charges provider entity intent_id before after (same e) = ap charges e
RefundWrite-charges provider entity intent_id before after (added capture row c fresh is_new e) =
    ap charges e ∙ charges-insert_row row before (ap is_refund_kind is_new.is_refund)
RefundWrite-charges provider entity intent_id before after (changed capture p st c held is_st e) =
    ap charges e
    ∙ charges-update_where (λ q. q.id == p.id)
        (λ q. record q {
          provider_payment_id = some entity.id;
          refund_of_payment_id = some capture.id;
          status = st;
        })
        (λ q. (refl, refl)) before

Step-charges :
    (g : Gateway) (p : Payment) (before after : Db)
    → Step g p before after
    → charges after.payments ≡ charges before.payments
Step-charges g p before after (captures e reported right taken) =
    process_capture-charges "razorpay" (event_of e) before
Step-charges g p before after (recovers o k has_order has_payment) =
    process_capture-charges p.provider (event_again p o k) before
Step-charges g p before after (refunds new_id now k entity answer a c s) =
    RefundWrite-charges p.provider entity (some p.id) before.payments _
      (process_refund_entity-RefundWrite new_id now p.provider entity (some p.id) before)

Steps-charges :
    (g : Gateway) (rows : List Payment) (before after : Db)
    → Steps g rows before after
    → charges after.payments ≡ charges before.payments
Steps-charges g rows before after done = refl
Steps-charges g rows before after (step {mid} p m s rest) =
    Steps-charges g rows mid after rest ∙ Step-charges g p before mid s

-- A reconciliation neither makes, drops nor moves a charge: whatever the provider answers, the
-- payments that are no refunds are the same rows as before, of the same registrations and orders,
-- with the same amounts and currencies, in the same order.
pub run_reconciliation-charges :
    (g : Gateway) (oldest : List Payment → List Payment) (ids : ℕ → ℕ) (now : ℕ)
    (payment_id : Option ℕ) (db : Db)
    → charges (run_reconciliation g oldest ids now payment_id db).1.payments ≡ charges db.payments
run_reconciliation-charges g oldest ids now payment_id db =
    let (mid, first, second) = run_reconciliation-Steps g oldest ids now payment_id db in
    Steps-charges g _ mid _ second ∙ Steps-charges g _ db mid first
