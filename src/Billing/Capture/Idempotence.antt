-- ===== src/Billing/Capture/Idempotence.antt =====
-- What a captured payment does, and that a repeated event does nothing.
use mathlib.Core.Path.{subst}
use text.Mathlib.Text.{◌==◌ as str_eq}
use open_conferences.Shared.{
  ==-refl, ℕ, String, ◌≡◌, refl, sym, ◌∙◌, ◌⊎◌, inl, inr, true, false, ◌&&◌, Option, some, arith,
  ◌==◌, Option-cases, find, find_sound, Exception, ok, err, Result-cases,
}
use open_conferences.Store.{Db}
use open_conferences.Billing.Capture.{
  is_eligible, repriced, priced, with_captured, next_status, captured_payment, write_capture,
  is_settled_payment, price, payment_for_order, CaptureEvent, apply_capture, process_capture,
}
use open_conferences.Billing.PaidState.{compute_paid_state, derive_after_capture}
use open_conferences.Billing.RefundEvents.{is_text}
use open_conferences.Shared.Int.{pos, leb_ℤ}
use open_conferences.Store.Rows.{Payment, Registration, Timing, awaiting_verification, paid}
use open_conferences.Store.Tables.Laws.{find-update_where, found-update_where}

error_unchanged :
    (provider : String) (event : CaptureEvent) (db : Db) {e : Exception}
    → (process_capture provider event db).0 ≡ err e
    → (process_capture provider event db).1 ≡ db
unfolding process_capture apply_capture
error_unchanged provider event db h = ground arith

ignored_unchanged :
    (provider : String) (event : CaptureEvent) (db : Db)
    → (process_capture provider event db).0 ≡ ok false
    → (process_capture provider event db).1 ≡ db
unfolding process_capture apply_capture
ignored_unchanged provider event db h = ground arith

-- An event either is applied or changes nothing, be it refused or only acknowledged.
pub process_capture-applied_or_unchanged :
    (provider : String) (event : CaptureEvent) (db : Db)
    → ((process_capture provider event db).0 ≡ ok true)
      ⊎ ((process_capture provider event db).1 ≡ db)
process_capture-applied_or_unchanged provider event db =
    elim (Result-cases (process_capture provider event db).0) [
      | inl (e, refused) ↦ inr (error_unchanged provider event db refused)
      | inr (true, applied) ↦ inl applied
      | inr (false, ignored) ↦ inr (ignored_unchanged provider event db ignored)
    ]

-- What an applied event found, and what it wrote.
pub record Applied (provider : String) (event : CaptureEvent) (before after : Db) : Type 0 where
  pub payment : Payment
  reg : Registration
  current : Payment
  amount : ℕ
  timing : Option Timing
  ordered : payment_for_order provider event before ≡ some payment
  registered : find (λ r. r.id == payment.registration_id) before.registrations ≡ some reg
  stored : find (λ p. p.id == payment.id) before.payments ≡ some current
  unsettled : is_settled_payment current ≡ false
  matching :
      (event.amount_minor ≡ current.amount_minor) × (str_eq event.currency current.currency ≡ true)
  pub written : after ≡ write_capture payment reg event amount timing before

apply_capture_ok :
    (provider : String) (payment : Payment) (event : CaptureEvent) (db : Db)
    → payment_for_order provider event db ≡ some payment
    → (apply_capture payment event db).0 ≡ ok true
    → Applied provider event db (apply_capture payment event db).1
unfolding apply_capture
apply_capture_ok provider payment event db ordered h =
    elim (Option-cases (find (λ r. r.id == payment.registration_id) db.registrations)) [
      | inl gone ↦ ground arith
      | inr (reg, r) ↦ elim (Option-cases (find (λ p. p.id == payment.id) db.payments)) [
        | inl lost ↦ ground arith
        | inr (current, c) ↦ elim (Result-cases (price payment reg event db)) [
          | inl (e, unpriced) ↦ ground arith
          | inr ((amount, timing), priced_at) ↦ record {
            payment = payment;
            reg = reg;
            current = current;
            amount = amount;
            timing = timing;
            ordered = ordered;
            registered = r;
            stored = c;
            unsettled = ground arith;
            matching = (ground arith, ground arith);
            written = ground arith;
          }
        ]
      ]
    ]

module _ (provider : String) (event : CaptureEvent) (payment current : Payment) (reg : Registration)
    (amount : ℕ) (timing : Option Timing) (db : Db) where
  written_db : Db
  written_db = write_capture payment reg event amount timing db

  -- Any row that was found is still found, and is captured if it is the payment's.
  ordered_after :
      (event' : CaptureEvent)
      → event'.order_id ≡ event.order_id
      → payment_for_order provider event db ≡ some payment
      → payment_for_order provider event' written_db ≡ some (captured_payment event payment)
  unfolding written_db write_capture payment_for_order
  ordered_after event' same ordered = rw same (
      find-update_where (λ p. p.id == payment.id) (captured_payment event)
        (λ p. str_eq p.provider provider && is_text p.provider_order_id event.order_id) db.payments
        (λ x. refl)
      ∙ rw (ordered, ==-refl payment.id))

  stored_after :
      find (λ p. p.id == payment.id) db.payments ≡ some current
      → find (λ p. p.id == payment.id) written_db.payments ≡ some (captured_payment event current)
  unfolding written_db write_capture
  stored_after stored =
      find-update_where (λ p. p.id == payment.id) (captured_payment event) (λ p. p.id == payment.id)
        db.payments (λ x. refl)
      ∙ rw (stored, find_sound (λ (p : Payment). p.id == payment.id) db.payments current stored)

  registered_after :
      find (λ r. r.id == payment.registration_id) db.registrations ≡ some reg
      → (reg' : Registration) × (find
            (λ r. r.id == payment.registration_id)
            written_db.registrations
          ≡ some reg')
  unfolding written_db write_capture
  registered_after registered =
      found-update_where (λ r. r.id == reg.id)
        (repriced (priced payment amount timing reg)
          (next_status (priced payment amount timing reg) (with_captured payment event db)))
        (λ r. r.id == payment.registration_id) db.registrations reg (λ x. refl) registered

  apply_after :
      (event' : CaptureEvent) (reg' : Registration)
      → find (λ r. r.id == payment.registration_id) written_db.registrations ≡ some reg'
      → find (λ p. p.id == payment.id) written_db.payments ≡ some (captured_payment event current)
      → apply_capture (captured_payment event payment) event' written_db ≡ (ok false, written_db)
  unfolding apply_capture
  apply_after event' reg' r c = ground arith

  ignored_after :
      (event' : CaptureEvent)
      → event'.order_id ≡ event.order_id
      → payment_for_order provider event db ≡ some payment
      → find (λ r. r.id == payment.registration_id) db.registrations ≡ some reg
      → find (λ p. p.id == payment.id) db.payments ≡ some current
      → process_capture provider event' written_db ≡ (ok false, written_db)
  unfolding process_capture
  ignored_after event' same ordered registered stored =
      let (reg', r) = registered_after registered in
      ground
        (arith, ordered_after event' same ordered, apply_after event' reg' r (stored_after stored))

pub process_capture_ok :
    (provider : String) (event : CaptureEvent) (db : Db)
    → (process_capture provider event db).0 ≡ ok true
    → Applied provider event db (process_capture provider event db).1
unfolding process_capture
process_capture_ok provider event db h = elim (Option-cases (payment_for_order provider event db)) [
  | inl unordered ↦ ground arith
  | inr (payment, ordered) ↦
      let runs : process_capture provider event db ≡ apply_capture payment event db =
        ground arith in
      subst (λ r. Applied provider event db r.1) (sym runs)
        (apply_capture_ok provider payment event db ordered (ground arith))
]

-- An order is captured at most once: after an event was applied, every further event of the
-- same order is acknowledged and changes nothing, whatever payment, amount or time it states.
pub process_capture_once :
    (provider : String) (event event' : CaptureEvent) (db : Db)
    → (process_capture provider event db).0 ≡ ok true
    → event'.order_id ≡ event.order_id
    → process_capture provider event' (process_capture provider event db).1
      ≡ (ok false, (process_capture provider event db).1)
unfolding written_db
process_capture_once provider event event' db h same =
    let a = process_capture_ok provider event db h in
    rw a.written (
      ignored_after provider event a.payment a.current a.reg a.amount a.timing db event' same
        a.ordered a.registered a.stored)

-- A registration is paid, or awaits the check of a student, after a capture only if its paper is
-- accepted, released and active, and only if that was its status before or the captures less the
-- refunds cover the amount due.
pub next_status-covered :
    (reg : Registration) (db : Db)
    → (next_status reg db ≡ paid) ⊎ (next_status reg db ≡ awaiting_verification)
    → (is_eligible reg.paper_id db ≡ true)
      × ((reg.status ≡ paid)
          ⊎ (reg.status ≡ awaiting_verification)
          ⊎ (leb_ℤ (pos reg.amount_due_minor) (compute_paid_state reg.id db.payments).net_minor
              ≡ true))
unfolding next_status derive_after_capture
next_status-covered reg db h = (ground arith, ground arith)
