-- ===== src/Billing/Provider.antt =====
-- The calls of the payment provider around the transactions: `verifyPayment`, `handleWebhook`,
-- `refund` and `executeRefundIntent` of apps/api/src/billing/payments.service.ts, and
-- `parseWebhook` of razorpay.provider.ts.
pub mod Reconcile
pub mod Steps
pub mod Charges
pub mod Verification
mod Tests
use text.Mathlib.Text.{◌==◌ as str_eq}
use open_conferences.Shared.{
  ℕ, ◌*◌, String, Bool, not, ◌&&◌, ◌||◌, Option, none, some, List, [], ◌∷◌, ◌==◌, if◌then◌else◌,
  is_id, find, Exception, bad_request, forbidden, not_found, error, Result, ok, err, Action, pure,
  raise, gets, or_raise, lift, ◌>>=◌, ◌>>◌, raise_if, when,
}
use open_conferences.Store.{Db, log_audit}
use open_conferences.Billing.Capture.{CaptureEvent, process_capture}
use open_conferences.Billing.Checkout.{is_created}
use open_conferences.Billing.RefundEvents.{
  RefundEntity, EntityStatus, is_text, is_unknown, process_refund_entity,
}
use open_conferences.Billing.Refunds.{RefundInput, reserve_refund}
use open_conferences.Billing.Registrations.{load_registration}
use open_conferences.Store.Rows.{Payment, Registration, RoleKind}
use open_conferences.Tenancy.Conferences.{load_conference}
use open_conferences.Tenancy.Roles.{can_coordinate_review}

-- A payment as the provider reports it; `status` stands for `status === 'captured'`.
pub record PaymentEntity : Type 0 where
  pub id : String
  pub order_id : String
  pub amount : ℕ
  pub currency : String
  pub is_status_captured : Bool
  pub captured : Bool
  pub created_at : ℕ

-- The answer to a refund.
pub record RefundResult : Type 0 where
  pub refund_id : String
  pub amount_minor : ℕ
  pub status : EntityStatus

-- What the provider answers, `none` where a call throws. A refund is asked for by a payment, an
-- amount and the idempotency key, which is the id of the intent.
pub record Gateway : Type 0 where
  pub name : String
  pub is_checkout_signature : String → String → String → Bool
  pub fetch_payment : String → Option PaymentEntity
  pub fetch_order_payments : String → Option (List PaymentEntity)
  pub fetch_refund : String → String → Option RefundEntity
  pub refund : String → ℕ → ℕ → Option RefundResult

abbrev pub no_answer : Exception
no_answer = error "The payment provider did not answer"

-- The event of a captured payment; the provider counts seconds.
abbrev pub event_of : PaymentEntity → CaptureEvent
event_of e = record {
  order_id = e.order_id;
  payment_id = e.id;
  amount_minor = e.amount;
  currency = e.currency;
  captured_at = e.created_at * 1000;
}

-- The order, the amount and the currency are those of the row.
unfoldable pub matches_order : Payment → PaymentEntity → Bool
matches_order p e =
    is_text p.provider_order_id e.order_id
    && e.amount == p.amount_minor
    && str_eq e.currency p.currency

abbrev pub is_captured_entity : PaymentEntity → Bool
is_captured_entity e = e.is_status_captured && e.captured

abbrev pub capture_if : Bool → PaymentEntity → Action Db (Unit {0})
capture_if c e = when c (process_capture "razorpay" (event_of e) >> pure tt)

pub record VerifyInput : Type 0 where
  pub order_id : String
  pub payment_id : String
  pub signature : String

pub record Verified : Type 0 where
  pub captured : Bool
  pub registration : Registration

-- The stored payment of the order, of this registration.
abbrev pub ordered_payment : ℕ → String → Db → Option Payment
ordered_payment registration_id order_id db =
    find
      (λ (p : Payment).
        p.registration_id == registration_id
        && str_eq p.provider "razorpay"
        && is_text p.provider_order_id order_id)
      db.payments

unfoldable pub verify_payment : Gateway → ℕ → ℕ → ℕ → VerifyInput → Action Db Verified
verify_payment g user conference_id paper_id input = do
  load_conference conference_id
  r ← load_registration conference_id paper_id
  raise_if (not (is_id r.user_id user)) (forbidden "Only the registering author can verify payment")
  found ← gets (ordered_payment r.id input.order_id)
  payment ← or_raise found (not_found "Payment order not found")
  raise_if (str_eq input.order_id "") (not_found "Payment order not found")
  raise_if (not (g.is_checkout_signature input.order_id input.payment_id input.signature))
      (bad_request "Invalid payment signature")
  entity ← or_raise (g.fetch_payment input.payment_id) no_answer
  raise_if (not (str_eq entity.id input.payment_id) || not (matches_order payment entity))
      (bad_request "Payment does not match the registration order")
  capture_if (is_captured_entity entity) entity
  updated ← load_registration conference_id paper_id
  pure (record { captured = is_captured_entity entity; registration = updated })

-- The object of a webhook, as far as it is read.
pub record Payload : Type 0 where
  pub event : String
  pub payment : Option PaymentEntity
  pub refund : Option RefundEntity

-- `RazorpayProvider.parseWebhook`
unfoldable pub parse_webhook : Payload → Option CaptureEvent
parse_webhook w = if not (str_eq w.event "payment.captured") then none else elim w.payment [
  | none ↦ none
  | some e ↦
      if str_eq e.id "" || str_eq e.order_id "" || not e.is_status_captured
      then none
      else some (event_of e)
]

abbrev pub is_refund_event : String → Bool
is_refund_event e =
    str_eq e "refund.created" || str_eq e "refund.processed" || str_eq e "refund.failed"

-- A webhook of Razorpay, whose signature was checked and whose text was parsed: `none` where it is
-- no object.
unfoldable pub handle_webhook : ℕ → ℕ → Bool → Option Payload → Action Db (Unit {0})
handle_webhook new_id now is_signed payload = do
  raise_if (not is_signed) (forbidden "Invalid webhook signature")
  w ← or_raise payload (bad_request "Invalid webhook payload")
  if is_refund_event w.event
      then (do
        entity ← or_raise w.refund (bad_request "Missing refund entity")
        process_refund_entity new_id now "razorpay" entity none)
      else (λ db. elim (parse_webhook w) [
        | none ↦ (ok tt, db)
        | some event ↦ (process_capture "razorpay" event >> pure tt) db
      ])

-- The provider's id of the payment that an intent refunds.
abbrev pub refunded_payment : Payment → Db → Result String
refunded_payment intent db = elim intent.refund_of_payment_id [
  | none ↦ err (error "A refund without a payment is no valid query")
  | some id ↦ elim (find (λ (p : Payment). p.id == id) db.payments) [
    | none ↦ err (bad_request "Original captured payment not found")
    | some capture ↦ elim capture.provider_payment_id [
      | none ↦ err (bad_request "Original captured payment not found")
      | some payment_id ↦ ok payment_id
    ]
  ]
]

abbrev pub entity_of : Payment → String → RefundResult → RefundEntity
entity_of intent payment_id r = record {
  id = r.refund_id;
  payment_id = payment_id;
  amount = r.amount_minor;
  currency = intent.currency;
  status = r.status;
  refund_intent_id = none;
}

abbrev pub requested_refund : Gateway → Payment → String → Option RefundEntity
requested_refund g intent payment_id = elim (g.refund payment_id intent.amount_minor intent.id) [
  | none ↦ none
  | some r ↦ some (entity_of intent payment_id r)
]

-- A refund that the provider knows is asked about, any other is asked for.
unfoldable pub ask_refund : Gateway → Payment → String → Option RefundEntity
ask_refund g intent payment_id = elim intent.provider_payment_id [
  | none ↦ requested_refund g intent payment_id
  | some refund_id ↦
      if str_eq intent.provider "razorpay"
      then g.fetch_refund payment_id refund_id
      else requested_refund g intent payment_id
]

unfoldable pub is_reserved_refund : Payment → String → RefundEntity → Bool
is_reserved_refund intent payment_id entity =
    entity.amount == intent.amount_minor
    && str_eq entity.payment_id payment_id
    && str_eq entity.currency intent.currency
    && not (is_unknown entity.status)

-- `ids` gives the id that is generated should the provider report a refund without a row.
unfoldable pub execute_refund_intent : Gateway → (ℕ → ℕ) → ℕ → Payment → Action Db (Unit {0})
execute_refund_intent g ids now intent = do
  asked ← gets (refunded_payment intent)
  payment_id ← lift asked
  entity ← or_raise (ask_refund g intent payment_id) no_answer
  raise_if (not (is_reserved_refund intent payment_id entity))
      (bad_request "Refund does not match the reserved request")
  process_refund_entity (ids intent.id) now intent.provider entity (some intent.id)

-- The loop over the intents of one request.
unfoldable pub execute_intents : Gateway → (ℕ → ℕ) → ℕ → List Payment → Action Db (Unit {0})
execute_intents g ids now [] = pure tt
execute_intents g ids now (p ∷ ps) =
    (if not (is_created p.status)
      then pure tt
      else if not (str_eq p.provider g.name)
      then raise (Exception.conflict "Refund provider is not available")
      else execute_refund_intent g ids now p)
    >> execute_intents g ids now ps

-- `PaymentsService.refund`: the intents are committed before the provider is called.
unfoldable pub request_refund :
    Gateway
    → List RoleKind
    → ℕ
    → ℕ
    → ℕ
    → RefundInput
    → (ℕ → ℕ)
    → (ℕ → ℕ)
    → ℕ
    → Action Db Registration
request_refund g roles user conference_id registration_id input fresh ids now = do
  raise_if (not (can_coordinate_review roles)) (forbidden "Insufficient permissions to refund")
  load_conference conference_id
  intents ← reserve_refund conference_id registration_id input fresh now
  execute_intents g ids now intents
  found ← gets (λ db. find (λ (r : Registration). r.id == registration_id) db.registrations)
  r ← or_raise found (error "No Registration found")
  log_audit (some user) "payment.refund_requested" registration_id
  pure r
