-- ===== src/Billing/Checkout.antt =====
-- The reservation of a checkout and the order at the provider: `initiatePayment` of
-- apps/api/src/billing/payments.service.ts, after the registration was loaded and priced.
-- `normalize` is `trim().toLowerCase()`, which is empty exactly where `trim()` is.
pub mod Reservation
pub mod Orders
mod Tests
use text.Mathlib.Text.{◌==◌ as str_eq}
use open_conferences.Shared.{
  ℕ, ◌+◌, String, Bool, true, false, not, ◌&&◌, ◌||◌, Option, none, some, [], ◌∷◌, ltb, leb, ◌==◌,
  if◌then◌else◌, is_some, find, Exception, not_found, unprocessable, error, Result, ok, err, Action,
  pure, gets, or_raise, lift, transaction, ◌>>=◌, ◌>>◌, first_error,
}
use open_conferences.Store.{Db, log_audit}
use open_conferences.Billing.Fees.{PaymentQuote}
use open_conferences.Billing.PaidState.{compute_paid_state, PaidState, is_additional, is_student}
use open_conferences.Billing.RefundEvents.{differs}
use open_conferences.Billing.Refunds.{has_key}
use open_conferences.Shared.Int.{ℤ, pos, negsuc, sub_ℕ}
use open_conferences.Store.Rows.{
  Key, Payment, PaymentStatus, created, failed, initial, additional, Registration,
  RegistrationStatus, additional_payment_required, StudentVerification, VerificationStatus,
  approved, clean,
}
use open_conferences.Store.Tables.{update_where, insert_row, latest_by}

-- `['PENDING', 'ADDITIONAL_PAYMENT_REQUIRED'].includes(status)`
abbrev pub is_payable_status : RegistrationStatus → Bool
is_payable_status RegistrationStatus.pending = true
is_payable_status additional_payment_required = true
is_payable_status _ = false

-- `!text?.trim()`
abbrev pub lacks_text : (String → String) → Option String → Bool
lacks_text normalize none = true
lacks_text normalize (some s) = str_eq (normalize s) ""

-- `additionalGraceUntil ?? deadlineAt`
abbrev pub payment_deadline : Registration → ℕ
payment_deadline r = elim r.additional_grace_until [ none ↦ r.deadline_at | some end ↦ end ]

abbrev pub is_closed_window : ℕ → Registration → Bool
is_closed_window now r = ltb (payment_deadline r) now || ltb now r.window_opens_at

abbrev pub is_good_proof : ℕ → StudentVerification → Bool
is_good_proof user v =
    elim v.status [ VerificationStatus.pending ↦ true | approved ↦ true | _ ↦ false ]
    && elim v.scan_status [ clean ↦ true | _ ↦ false ]
    && v.uploaded_by_id == user

-- The latest proof of the registration is clean, the payer's own, and not rejected.
abbrev pub has_proof : ℕ → ℕ → Db → Bool
has_proof user registration_id db =
    elim (latest_by (λ (v : StudentVerification). v.created_at)
      (λ v. v.registration_id == registration_id) db.verifications) [
        | none ↦ false
        | some v ↦ is_good_proof user v
      ]

abbrev pub is_keyed : Key → Payment → Bool
is_keyed key p = has_key key p.idempotency_key

-- The guards on the registration as it is under the lock.
unfoldable pub check_payable :
    (String → String) → ℕ → ℕ → Key → Registration → Db → Result (Unit {0})
check_payable normalize now user key r db = first_error (
    (
      not (is_payable_status r.status),
      Exception.conflict "Registration is already paid or is no longer payable",
    )
    ∷ (
      lacks_text normalize r.billing_name || lacks_text normalize r.billing_address,
      unprocessable "Enter your billing name and address before payment",
    )
    ∷ (is_closed_window now r, Exception.conflict "Registration payment window is closed")
    ∷ (
      differs r.user_id user,
      Exception.conflict "Another author has already started registration for this paper",
    )
    ∷ (
      is_student r.audience && not (is_additional r.status) && not (has_proof user r.id db),
      unprocessable "Upload a valid student verification document before payment",
    )
    ∷ (
      elim (find (is_keyed key) db.payments) [
        | none ↦ false
        | some p ↦ not (p.registration_id == r.id)
      ],
      Exception.conflict "Idempotency key belongs to another registration",
    )
    ∷ [])

abbrev pub is_created : PaymentStatus → Bool
is_created created = true
is_created _ = false

abbrev pub is_open_row : ℕ → Payment → Bool
is_open_row registration_id p = p.registration_id == registration_id && is_created p.status

-- The latest payment of the registration that was created and not settled, of any kind.
abbrev pub pending_payment : ℕ → Db → Option Payment
pending_payment registration_id db =
    latest_by (λ (p : Payment). p.created_at) (is_open_row registration_id) db.payments

abbrev pub given_up : Payment → Payment
given_up p = record p { status = failed }

-- What is asked for: what is left of an additional payment, else the price that was quoted, or the
-- one that is stored.
unfoldable pub amount_to_pay : Registration → Option PaymentQuote → PaidState → ℤ
amount_to_pay r quote s =
    if is_additional r.status
    then sub_ℕ (r.amount_due_minor + s.refunded_minor) s.captured_minor
    else elim quote [ none ↦ pos r.amount_due_minor | some q ↦ pos q.amount_minor ]

-- `Number.isSafeInteger(amountMinor) && amountMinor >= 100`
abbrev pub payable_amount : ℤ → Option ℕ
payable_amount (negsuc n) = none
payable_amount (pos n) = if leb 100 n && ltb n 9007199254740992 then some n else none

-- What the payer and the quote set in the registration.
unfoldable pub claimed : ℕ → String → Option PaymentQuote → Registration → Registration
claimed user affiliation none r = record r {
  user_id = some user;
  billing_affiliation = some affiliation;
  version = r.version + 1;
}
claimed user affiliation (some q) r = record r {
  user_id = some user;
  billing_affiliation = some affiliation;
  amount_due_minor = q.amount_minor;
  regular_amount_due_minor = some q.regular_amount_minor;
  currency = q.currency;
  locked_timing = some q.timing;
  is_additional_paper = q.is_additional_paper;
  version = r.version + 1;
}

unfoldable pub new_payment :
    ℕ → ℕ → ℕ → String → Key → Registration → Option PaymentQuote → ℕ → Payment
new_payment id organization_id now provider key r quote amount = record {
  id = id;
  organization_id = organization_id;
  registration_id = r.id;
  provider = provider;
  provider_order_id = none;
  provider_payment_id = none;
  status = created;
  amount_minor = amount;
  currency = elim quote [ none ↦ r.currency | some q ↦ q.currency ];
  kind = if is_additional r.status then additional else initial;
  refund_of_payment_id = none;
  idempotency_key = some key;
  request_reason = none;
  created_at = now;
}

-- What is known of a request: the payer, the provider's name, the key of the client, the ids that
-- are generated and what was loaded and priced before the transaction.
pub record Request : Type 0 where
  pub now : ℕ
  pub user : ℕ
  pub organization_id : ℕ
  pub new_id : ℕ
  pub provider : String
  pub key : Key
  pub affiliation : String
  pub quote : Option PaymentQuote
  pub registration_id : ℕ
  pub version : ℕ

-- The payment of the checkout, and whether it is a new one.
pub record Reserved : Type 0 where
  pub payment : Payment
  pub is_new : Bool

-- The last part of the transaction: the claim on the registration and the new payment.
unfoldable pub open_checkout : Request → Registration → Action Db Reserved
open_checkout q r db =
    if is_some (find (is_keyed q.key) db.payments)
    then (err (Exception.conflict "Use a new idempotency key to retry this payment"), db)
    else if not (r.version == q.version)
    then (
      err (Exception.conflict "Registration details changed. Please refresh and try again."),
      db,
    )
    else elim (payable_amount (amount_to_pay r q.quote (compute_paid_state r.id db.payments))) [
      | none ↦ (err (Exception.conflict "No payable amount is due"), db)
      | some amount ↦
          let payment =
            new_payment q.new_id q.organization_id q.now q.provider q.key r q.quote amount in
          (
            ok (record { payment = payment; is_new = true }),
            record db {
              registrations =
                  update_where (λ (x : Registration). x.id == r.id)
                    (claimed q.user q.affiliation q.quote) db.registrations;
              payments = insert_row payment db.payments;
            },
          )
    ]

abbrev pub is_resumable : Request → Payment → Bool
is_resumable q p = is_some p.provider_order_id && str_eq p.provider q.provider

-- `createdAt > Date.now() - 60000`
abbrev pub is_recent : Request → Payment → Bool
is_recent q p = str_eq p.provider q.provider && ltb q.now (p.created_at + 60000)

-- An order that is open is taken up again; one that is being prepared is waited for; any other row
-- that is created is given up.
unfoldable pub resume_or_open : Request → Registration → Action Db Reserved
resume_or_open q r db = elim (pending_payment r.id db) [
  | none ↦ open_checkout q r db
  | some p ↦
      if is_resumable q p
      then (ok (record { payment = p; is_new = false }), db)
      else if is_recent q p
      then (err (Exception.conflict "Checkout is being prepared. Please try again shortly."), db)
      else open_checkout q r (record db {
        payments = update_where (λ (x : Payment). x.id == p.id) given_up db.payments;
      })
]

-- The transaction of `initiatePayment`, under the lock of the registration.
unfoldable pub reserve_checkout : (String → String) → Request → Action Db Reserved
reserve_checkout normalize q = transaction (do
  found ← gets (λ db. find (λ (x : Registration). x.id == q.registration_id) db.registrations)
  r ← or_raise found (not_found "Registration not found")
  checked ← gets (check_payable normalize q.now q.user q.key r)
  lift checked
  resume_or_open q r)

abbrev pub set_payment : ℕ → (Payment → Payment) → Db → Db
set_payment id f db = record db {
  payments = update_where (λ (x : Payment). x.id == id) f db.payments;
}

abbrev pub ordered : String → Payment → Payment
ordered order_id p = record p { provider_order_id = some order_id }

-- The order at the provider, outside of any transaction. `create_order` stands for the provider's
-- answer to an amount, a currency and a receipt, `none` where the call fails.
unfoldable pub initiate_checkout :
    (String → String) → (ℕ → String → ℕ → Option String) → Request → Action Db Payment
initiate_checkout normalize create_order q = do
  reserved ← reserve_checkout normalize q
  if reserved.is_new
      then (λ db.
          elim (create_order reserved.payment.amount_minor reserved.payment.currency
            reserved.payment.id) [
              | none ↦ (
                err (error "The order could not be created"),
                set_payment reserved.payment.id given_up db,
              )
              | some order_id ↦ (
                ok (ordered order_id reserved.payment),
                (log_audit (some q.user) "payment.initiated" reserved.payment.id
                    (set_payment reserved.payment.id (ordered order_id) db)).1,
              )
            ])
      else pure reserved.payment
