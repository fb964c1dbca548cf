-- ===== src/Billing/Provider/Tests.antt =====
-- The theorems on verified checkouts and reconciliations, applied to one order.
use text.Mathlib.Text.{◌==◌ as str_eq}
use open_conferences.Samples.{accepted_db, registration}
use open_conferences.Shared.{ℕ, ◌≡◌, refl, Bool, true, false, none, some, List, [], ◌∷◌}
use open_conferences.Store.{Db}
use open_conferences.Billing.Provider.{
  matches_order, Gateway, PaymentEntity, VerifyInput, verify_payment,
}
use open_conferences.Billing.Provider.Charges.{charges, run_reconciliation-charges}
use open_conferences.Billing.Provider.Reconcile.{stale_rows, captured_rows, run_reconciliation}
use open_conferences.Billing.Provider.Steps.{Steps, run_reconciliation-Steps}
use open_conferences.Billing.Provider.Verification.{Verifies, verify_payment_ok}
use open_conferences.Billing.Registrations.{load_registration}
use open_conferences.Store.Rows.{Payment}
use open_conferences.Tenancy.Conferences.{load_conference}

abbrev payment_1 : PaymentEntity
payment_1 = record {
  id = "pay_1";
  order_id = "order_1";
  amount = 20000;
  currency = "USD";
  is_status_captured = true;
  captured = true;
  created_at = 200;
}

-- A provider that has captured the one order.
abbrev gateway : Gateway
gateway = record {
  name = "razorpay";
  is_checkout_signature = λ order_id payment_id signature. str_eq signature "signed";
  fetch_payment = λ payment_id. some payment_1;
  fetch_order_payments = λ order_id. some (payment_1 ∷ []);
  fetch_refund = λ payment_id refund_id. none;
  refund = λ payment_id amount key. none;
}

abbrev checkout : VerifyInput
checkout = record { order_id = "order_1"; payment_id = "pay_1"; signature = "signed" }

abbrev still_open : Gateway
still_open = record gateway {
  fetch_payment = λ payment_id. some (record payment_1 { captured = false });
}

verify_payment_ok_example :
    Verifies still_open 20 1 6 checkout accepted_db
      (verify_payment still_open 20 1 6 checkout accepted_db).1
      (record { captured = Bool.false; registration = registration })
unfolding verify_payment load_conference load_registration matches_order
verify_payment_ok_example =
    verify_payment_ok still_open 20 1 6 checkout accepted_db
      (record { captured = Bool.false; registration = registration }) refl

abbrev as_stored : List Payment → List Payment
as_stored rows = rows

abbrev new_ids : ℕ → ℕ
new_ids n = 90

run_reconciliation-Steps_example :
    (mid : Db) × Steps gateway (stale_rows as_stored 2000000 none accepted_db) accepted_db mid
    × Steps gateway
        (captured_rows as_stored none mid)
        mid
        (run_reconciliation gateway as_stored new_ids 2000000 none accepted_db).1
run_reconciliation-Steps_example =
    run_reconciliation-Steps gateway as_stored new_ids 2000000 none accepted_db

run_reconciliation-charges_example :
    charges (run_reconciliation gateway as_stored new_ids 2000000 none accepted_db).1.payments
    ≡ charges accepted_db.payments
run_reconciliation-charges_example =
    run_reconciliation-charges gateway as_stored new_ids 2000000 none accepted_db
