-- ===== src/Billing/Checkout/Tests.antt =====
-- The theorems on checkouts, applied to one registration.
use open_conferences.Samples.{conference_db, registration, order, captured_order}
use open_conferences.Shared.{
  ◌≤◌, String, ◌≡◌, refl, true, ◌&&◌, none, some, [], ◌∷◌, arith, ◌==◌, any,
}
use open_conferences.Store.{Db}
use open_conferences.Billing.Checkout.{
  amount_to_pay, check_payable, open_checkout, resume_or_open, Request, Reserved, reserve_checkout,
  is_open_row, new_payment,
}
use open_conferences.Billing.Checkout.Orders.{
  reserve_checkout-one_open, reserve_checkout-fails_refund,
}
use open_conferences.Billing.PaidState.{compute_paid_state, is_refund_kind}
use open_conferences.Billing.Refunds.{is_failed}
use open_conferences.Store.Rows.{
  Registration, Payment, Key, additional_payment_required, refund, created,
}
use open_conferences.Store.Tables.{count_where}

abbrev as_is : String → String
as_is s = s

abbrev billed : Registration
billed = record registration {
  billing_name = some "Ada";
  billing_address = some "Street 1";
  deadline_at = 900000;
}

abbrev billed_db : Db
billed_db = record conference_db { registrations = billed ∷ [] }

abbrev click : Request
click = record {
  now = 200000;
  user = 20;
  organization_id = 2;
  new_id = 77;
  provider = "razorpay";
  key = Key.client "k1";
  affiliation = "University";
  quote = none;
  registration_id = 50;
  version = 1;
}

abbrev reserved : Reserved
reserved = record {
  payment = new_payment 77 2 200000 "razorpay" (Key.client "k1") billed none 20000;
  is_new = true;
}

reserve_checkout-one_open_example :
    count_where (is_open_row 50) (reserve_checkout as_is click billed_db).1.payments ≤ 1
reserve_checkout-one_open_example = reserve_checkout-one_open as_is click billed_db (omega arith)

-- Another payment of ten thousand is owed, and a refund of five thousand is under way.
abbrev owing : Registration
owing = record billed { status = additional_payment_required; amount_due_minor = 30000 }

abbrev refund_under_way : Payment
refund_under_way = record order {
  id = 78;
  provider_order_id = none;
  kind = refund;
  status = created;
  amount_minor = 5000;
}

abbrev owing_db : Db
owing_db = record conference_db {
  registrations = owing ∷ [];
  payments = captured_order ∷ refund_under_way ∷ [];
}

reserve_checkout-fails_refund_example :
    any
      (λ (x : Payment). x.id == 78 && is_refund_kind x.kind && is_failed x.status)
      (reserve_checkout as_is click owing_db).1.payments
    ≡ true
unfolding reserve_checkout check_payable resume_or_open open_checkout amount_to_pay
    compute_paid_state
reserve_checkout-fails_refund_example =
    reserve_checkout-fails_refund as_is click owing_db
      (record {
        payment = new_payment 77 2 200000 "razorpay" (Key.client "k1") owing none 10000;
        is_new = true;
      })
      refund_under_way refl refl refl refl
