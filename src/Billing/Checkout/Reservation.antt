-- ===== src/Billing/Checkout/Reservation.antt =====
-- What a checkout that is reserved has passed, and what it writes.
use mathlib.Core.Path.{subst}
use open_conferences.Shared.{
  ℕ, ◌≤◌, String, ◌≡◌, sym, ap, ◌∙◌, inl, inr, true, false, not, ◌&&◌, none, some, arith, ◌==◌,
  Bool-cases, Option-cases, find, ok,
}
use open_conferences.Store.{Db}
use open_conferences.Billing.Checkout.{
  is_payable_status, is_closed_window, has_proof, check_payable, pending_payment, given_up,
  amount_to_pay, payable_amount, claimed, new_payment, Request, Reserved, open_checkout,
  is_resumable, is_recent, resume_or_open, reserve_checkout,
}
use open_conferences.Billing.PaidState.{compute_paid_state, is_additional, is_student}
use open_conferences.Billing.RefundEvents.{differs}
use open_conferences.Shared.Int.{ℤ, pos, negsuc}
use open_conferences.Store.Rows.{Payment, Registration}
use open_conferences.Store.Tables.{update_where, insert_row}

payable_amount_ok : (z : ℤ) (n : ℕ) → payable_amount z ≡ some n → (z ≡ pos n) × (100 ≤ n)
payable_amount_ok (negsuc k) n h = absurd (ground arith)
payable_amount_ok (pos k) n h = (ground arith, ground arith)

-- The registration after a new payment was reserved, and the payment.
pub record Opens (q : Request) (r : Registration) (db after : Db) (payment : Payment) : Type 0 where
  pub amount : ℕ
  pub is_current : r.version ≡ q.version
  pub asked_for : amount_to_pay r q.quote (compute_paid_state r.id db.payments) ≡ pos amount
  pub enough : 100 ≤ amount
  pub is_payment :
      payment ≡ new_payment q.new_id q.organization_id q.now q.provider q.key r q.quote amount
  pub registrations_after :
      after.registrations
      ≡ update_where
          (λ (x : Registration). x.id == r.id)
          (claimed q.user q.affiliation q.quote)
          db.registrations
  pub payments_after : after.payments ≡ insert_row payment db.payments

open_checkout_ok :
    (q : Request) (r : Registration) (db : Db) (res : Reserved)
    → (open_checkout q r db).0 ≡ ok res
    → (res.is_new ≡ true) × Opens q r db (open_checkout q r db).1 res.payment
unfolding open_checkout
open_checkout_ok q r db res h =
    elim (Option-cases
      (payable_amount (amount_to_pay r q.quote (compute_paid_state r.id db.payments)))) [
        | inl nothing ↦ absurd (ground arith)
        | inr (amount, due) ↦
            let (same, enough) =
              payable_amount_ok (amount_to_pay r q.quote (compute_paid_state r.id db.payments))
                amount due in
            (
              ground arith,
              record {
                amount = amount;
                is_current = ground arith;
                asked_for = same;
                enough = enough;
                is_payment = ground arith;
                registrations_after = ground arith;
                payments_after = ground arith;
              },
            )
      ]

-- The rows without the one that is given up.
abbrev pub without : Payment → Db → Db
without p db = record db {
  payments = update_where (λ (x : Payment). x.id == p.id) given_up db.payments;
}

-- The three ways in which a checkout is reserved.
pub data Outcome (q : Request) (r : Registration) (db after : Db) (res : Reserved) : Type 0 where
  resumed :
      pending_payment r.id db ≡ some res.payment
      → is_resumable q res.payment ≡ true
      → res.is_new ≡ false
      → after ≡ db
      → Outcome q r db after res
  opened :
      pending_payment r.id db ≡ none
      → res.is_new ≡ true
      → Opens q r db after res.payment
      → Outcome q r db after res
  replaced :
      (p : Payment)
      → pending_payment r.id db ≡ some p
      → is_recent q p ≡ false
      → res.is_new ≡ true
      → Opens q r (without p db) after res.payment
      → Outcome q r db after res

resume_or_open_ok :
    (q : Request) (r : Registration) (db : Db) (res : Reserved)
    → (resume_or_open q r db).0 ≡ ok res
    → Outcome q r db (resume_or_open q r db).1 res
unfolding resume_or_open
resume_or_open_ok q r db res h = elim (Option-cases (pending_payment r.id db)) [
  | inl no_row ↦
      let run : (open_checkout q r db).0 ≡ ok res = ground arith in
      let same : (resume_or_open q r db).1 ≡ (open_checkout q r db).1 = ground arith in
      let (new, opens) = open_checkout_ok q r db res run in
      subst (λ d. Outcome q r db d res) (sym same) (opened no_row new opens)
  | inr (p, row) ↦ elim (Bool-cases (is_resumable q p)) [
    | inl again ↦
        let same : res.payment ≡ p = ground arith in
        resumed (row ∙ ap some (sym same)) (ap (is_resumable q) same ∙ again) (ground arith)
          (ground arith)
    | inr not_again ↦
        let old : is_recent q p ≡ false = ground arith in
        let run : (open_checkout q r (without p db)).0 ≡ ok res = ground arith in
        let same : (resume_or_open q r db).1 ≡ (open_checkout q r (without p db)).1 =
          ground arith in
        let (new, opens) = open_checkout_ok q r (without p db) res run in
        subst (λ d. Outcome q r db d res) (sym same) (replaced p row old new opens)
  ]
]

-- A checkout that is reserved.
pub record Reserves (normalize : String → String) (q : Request) (db after : Db) (res : Reserved)
    : Type 0 where
  pub registration : Registration
  pub is_found :
      find (λ (x : Registration). x.id == q.registration_id) db.registrations ≡ some registration
  pub payable : is_payable_status registration.status ≡ true
  pub in_window : is_closed_window q.now registration ≡ false
  pub one_payer : differs registration.user_id q.user ≡ false
  pub proved :
      (is_student registration.audience
        && not (is_additional registration.status)
        && not (has_proof q.user registration.id db))
      ≡ false
  pub outcome : Outcome q registration db after res

pub reserve_checkout_ok :
    (normalize : String → String) (q : Request) (db : Db) (res : Reserved)
    → (reserve_checkout normalize q db).0 ≡ ok res
    → Reserves normalize q db (reserve_checkout normalize q db).1 res
unfolding reserve_checkout check_payable
reserve_checkout_ok normalize q db res h =
    elim (Option-cases (find (λ (x : Registration). x.id == q.registration_id) db.registrations)) [
      | inl gone ↦ absurd (ground arith)
      | inr (r, found) ↦
          let run : (resume_or_open q r db).0 ≡ ok res = ground arith in
          let same : (reserve_checkout normalize q db).1 ≡ (resume_or_open q r db).1 =
            ground arith in
          record {
            registration = r;
            is_found = found;
            payable = ground arith;
            in_window = ground arith;
            one_payer = ground arith;
            proved = ground arith;
            outcome =
                subst (λ d. Outcome q r db d res) (sym same) (resume_or_open_ok q r db res run);
          }
    ]
