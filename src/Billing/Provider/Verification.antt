-- ===== src/Billing/Provider/Verification.antt =====
-- What a payment that is verified has passed.
use text.Mathlib.Text.{◌==◌ as str_eq}
use open_conferences.Shared.{
  ℕ, ◌≡◌, inl, inr, true, some, arith, if◌then◌else◌, is_id, Option-cases, find, ok,
}
use open_conferences.Store.{Db}
use open_conferences.Billing.Capture.{process_capture}
use open_conferences.Billing.Provider.{
  Gateway, PaymentEntity, event_of, matches_order, is_captured_entity, VerifyInput, Verified,
  ordered_payment, verify_payment,
}
use open_conferences.Billing.Registrations.{load_registration, is_registration_for}
use open_conferences.Store.Rows.{Payment, Registration}
use open_conferences.Tenancy.Conferences.{load_conference}

-- A request whose payment was verified, with the registration, its payment of the order, and what
-- the provider reports.
pub record Verifies (g : Gateway) (user conference_id paper_id : ℕ) (input : VerifyInput)
    (db after : Db) (v : Verified) : Type 0 where
  pub registration : Registration
  pub payment : Payment
  pub entity : PaymentEntity
  pub is_found :
      find (is_registration_for conference_id paper_id) db.registrations ≡ some registration
  pub is_payer : is_id registration.user_id user ≡ true
  pub is_stored : ordered_payment registration.id input.order_id db ≡ some payment
  pub signed : g.is_checkout_signature input.order_id input.payment_id input.signature ≡ true
  pub reported : g.fetch_payment input.payment_id ≡ some entity
  pub is_same_payment : str_eq entity.id input.payment_id ≡ true
  pub is_same_order : matches_order payment entity ≡ true
  pub is_captured : v.captured ≡ is_captured_entity entity
  pub written :
      after ≡ (if v.captured then (process_capture "razorpay" (event_of entity) db).1 else db)

-- A checkout that is verified is of the caller's own registration and of an order that is stored
-- for it, its signature is right, and the provider, when it is asked, reports the payment with the
-- order, the amount and the currency of the stored row. If the provider has captured it, the
-- capture is processed; if not, nothing is written. The signature alone pays for nothing.
pub verify_payment_ok :
    (g : Gateway) (user conference_id paper_id : ℕ) (input : VerifyInput) (db : Db) (v : Verified)
    → (verify_payment g user conference_id paper_id input db).0 ≡ ok v
    → Verifies g user conference_id paper_id input db
        (verify_payment g user conference_id paper_id input db).1
        v
unfolding verify_payment load_registration load_conference
verify_payment_ok g user conference_id paper_id input db v h =
    elim (Option-cases (find (is_registration_for conference_id paper_id) db.registrations)) [
      | inl gone ↦ absurd (ground arith)
      | inr (r, found) ↦ elim (Option-cases (ordered_payment r.id input.order_id db)) [
        | inl no_order ↦ absurd (ground arith)
        | inr (p, stored) ↦ elim (Option-cases (g.fetch_payment input.payment_id)) [
          | inl silent ↦ absurd (ground arith)
          | inr (e, answer) ↦ record {
            registration = r;
            payment = p;
            entity = e;
            is_found = found;
            is_payer = ground arith;
            is_stored = stored;
            signed = ground arith;
            reported = answer;
            is_same_payment = ground arith;
            is_same_order = ground arith;
            is_captured = ground arith;
            written = ground arith;
          }
        ]
      ]
    ]
