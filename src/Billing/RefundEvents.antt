-- ===== src/Billing/RefundEvents.antt =====
-- `processRefundEntity` of apps/api/src/billing/payments.service.ts: what the provider reports of
-- a refund, in a webhook, in a response, or when it is asked again.
pub mod Replay
use text.Mathlib.Text.{◌==◌ as str_eq}
use open_conferences.Shared.{
  ℕ, ◌+◌, String, Bool, true, false, not, ◌&&◌, ◌||◌, Option, none, some, ltb, leb, ◌==◌,
  if◌then◌else◌, find, bad_request, not_found, ok, err, Action,
}
use open_conferences.Store.{Db}
use open_conferences.Billing.PaidState.{
  is_captured, is_refund_kind, compute_paid_state, derive_after_refund,
}
use open_conferences.Billing.Refunds.{is_failed}
use open_conferences.Store.Rows.{Payment, PaymentStatus, created, failed, refund, Registration}
use open_conferences.Store.Tables.{update_where, insert_row}

-- `entity.status`
pub data EntityStatus : Type 0 where
  pending processed failed_entity unknown : EntityStatus

pub record RefundEntity : Type 0 where
  pub id : String
  pub payment_id : String
  pub amount : ℕ
  pub currency : String
  pub status : EntityStatus
  pub refund_intent_id : Option ℕ

abbrev pub is_text : Option String → String → Bool
is_text none _ = false
is_text (some s) t = str_eq s t

abbrev pub is_unknown : EntityStatus → Bool
is_unknown unknown = true
is_unknown _ = false

abbrev pub is_pending_entity : EntityStatus → Bool
is_pending_entity pending = true
is_pending_entity _ = false

abbrev pub is_done : PaymentStatus → Bool
is_done PaymentStatus.refunded = true
is_done _ = false

-- The captured payment that the entity refunds.
unfoldable pub capture_for : String → RefundEntity → Db → Option Payment
capture_for provider entity db =
    find
      (λ p.
        str_eq p.provider provider
        && is_text p.provider_payment_id entity.payment_id
        && not (is_refund_kind p.kind)
        && is_captured p.status)
      db.payments

-- `!entity.id || entity.amount <= 0 || entity.amount > capture.amountMinor || ...`
unfoldable pub is_invalid_entity : Payment → RefundEntity → Bool
is_invalid_entity capture entity =
    str_eq entity.id ""
    || leb entity.amount 0
    || ltb capture.amount_minor entity.amount
    || not (str_eq entity.currency capture.currency)
    || is_unknown entity.status

-- `??`
abbrev pub or_else {ℓ} : {A : Type ℓ} → Option A → Option A → Option A
or_else none o = o
or_else (some a) _ = some a

-- The row of this refund: by the provider's id, or else by the id of the intent.
unfoldable pub existing_refund : String → RefundEntity → Option ℕ → Db → Option Payment
existing_refund provider entity intent_id db =
    or_else
      (find (λ p. str_eq p.provider provider && is_text p.provider_payment_id entity.id)
        db.payments)
      (elim (or_else intent_id entity.refund_intent_id) [
        | none ↦ none
        | some id ↦ find (λ p. p.id == id) db.payments
      ])

abbrev pub differs : Option ℕ → ℕ → Bool
differs none _ = false
differs (some a) b = not (a == b)

abbrev pub differs_text : Option String → String → Bool
differs_text none _ = false
differs_text (some s) t = not (str_eq s t)

-- `Refund identity mismatch`
unfoldable pub is_mismatch : Payment → ℕ → Payment → RefundEntity → Bool
is_mismatch capture registration_id p entity =
    not (is_refund_kind p.kind)
    || not (p.registration_id == registration_id)
    || differs p.refund_of_payment_id capture.id
    || not (p.amount_minor == entity.amount)
    || differs_text p.provider_payment_id entity.id

abbrev pub status_of : EntityStatus → PaymentStatus
status_of processed = PaymentStatus.refunded
status_of failed_entity = failed
status_of _ = created

-- Processed is terminal, and an older pending event does not undo a failure.
abbrev pub is_settled : Payment → RefundEntity → Bool
is_settled p entity = is_done p.status || is_failed p.status && is_pending_entity entity.status

abbrev pub recorded : Payment → RefundEntity → Payment → Payment
recorded capture entity p = record p {
  provider_payment_id = some entity.id;
  refund_of_payment_id = some capture.id;
  status = status_of entity.status;
}

abbrev pub new_refund : ℕ → ℕ → String → Payment → RefundEntity → Payment
new_refund id now provider capture entity = record {
  id = id;
  organization_id = capture.organization_id;
  registration_id = capture.registration_id;
  provider = provider;
  provider_order_id = none;
  provider_payment_id = some entity.id;
  status = status_of entity.status;
  amount_minor = entity.amount;
  currency = entity.currency;
  kind = refund;
  refund_of_payment_id = some capture.id;
  idempotency_key = none;
  request_reason = none;
  created_at = now;
}

-- Once the money is back, the registration's status is derived anew.
unfoldable pub settle_registration : ℕ → Registration → Db → Db
settle_registration registration_id reg db = record db {
  registrations =
      update_where (λ r. r.id == registration_id)
        (λ r. record r {
          status = derive_after_refund reg (compute_paid_state registration_id db.payments);
          version = r.version + 1;
        })
        db.registrations;
}

abbrev pub settle_if_done : EntityStatus → ℕ → Registration → Db → Db
settle_if_done processed registration_id reg db = settle_registration registration_id reg db
settle_if_done _ registration_id reg db = db

-- The write, for the row that was found or for a new one.
unfoldable pub record_refund :
    ℕ → ℕ → String → Payment → RefundEntity → Registration → Option Payment → Action Db (Unit {0})
record_refund new_id now provider capture entity reg none db = (
  ok tt,
  settle_if_done entity.status reg.id reg (record db {
    payments = insert_row (new_refund new_id now provider capture entity) db.payments;
  }),
)
record_refund new_id now provider capture entity reg (some p) db =
    if is_mismatch capture reg.id p entity
    then (err (bad_request "Refund identity mismatch"), db)
    else if is_settled p entity
    then (ok tt, db)
    else (
      ok tt,
      settle_if_done entity.status reg.id reg (record db {
        payments = update_where (λ q. q.id == p.id) (recorded capture entity) db.payments;
      }),
    )

-- An entity of an unknown capture is acknowledged and ignored.
unfoldable pub process_refund_entity :
    ℕ → ℕ → String → RefundEntity → Option ℕ → Action Db (Unit {0})
process_refund_entity new_id now provider entity intent_id db =
    elim (capture_for provider entity db) [
      | none ↦ (ok tt, db)
      | some capture ↦
          if is_invalid_entity capture entity
          then (err (bad_request "Invalid refund entity"), db)
          else elim (find (λ r. r.id == capture.registration_id) db.registrations) [
            | none ↦ (err (not_found "Registration not found"), db)
            | some reg ↦
                record_refund new_id now provider capture entity reg
                  (existing_refund provider entity intent_id db) db
          ]
    ]
