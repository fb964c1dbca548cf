-- ===== src/Billing/Checkout/Orders.antt =====
-- The rows of a registration that are created and not settled, when a checkout is reserved.
use mathlib.Core.Path.{subst}
use open_conferences.Shared.{
  ==-refl, ==-sound, ℕ, ◌≤◌, String, ◌≡◌, refl, sym, ap, ◌∙◌, inl, inr, Bool, true, false, ◌&&◌,
  none, some, List, [], ◌∷◌, arith, ◌==◌, Bool-cases, any, find_sound, Exception, ok, err,
  Result-cases,
}
use open_conferences.Store.{Db}
use open_conferences.Billing.Checkout.{
  is_open_row, pending_payment, given_up, Request, Reserved, reserve_checkout,
}
use open_conferences.Billing.Checkout.Reservation.{
  Outcome, resumed, opened, replaced, without, reserve_checkout_ok,
}
use open_conferences.Billing.PaidState.{is_refund_kind}
use open_conferences.Billing.Refunds.{is_failed}
use open_conferences.Store.Rows.{Payment, Registration}
use open_conferences.Store.Tables.{update_where, insert_row, count_where}
use open_conferences.Store.Tables.Laws.{latest_by_sound, latest_by-none, count_where-insert_row}

abbrev give_up : Payment → List Payment → List Payment
give_up p rows = update_where (λ (x : Payment). x.id == p.id) given_up rows

abbrev open_with_id : ℕ → Payment → Payment → Bool
open_with_id k p x = x.id == p.id && is_open_row k x

give_up_zero :
    (k : ℕ) (p : Payment) (rows : List Payment)
    → count_where (is_open_row k) rows ≡ 0
    → count_where (is_open_row k) (give_up p rows) ≡ 0
give_up_zero k p [] h = refl
give_up_zero k p (x ∷ xs) h = ground (arith, give_up_zero k p xs)

zero_any :
    (k : ℕ) (p : Payment) (rows : List Payment)
    → count_where (is_open_row k) rows ≡ 0
    → any (open_with_id k p) rows ≡ false
zero_any k p [] h = refl
zero_any k p (x ∷ xs) h = ground (arith, zero_any k p xs)

-- Of at most one open row, none is left when it is given up.
give_up_last :
    (k : ℕ) (p : Payment) (rows : List Payment)
    → count_where (is_open_row k) rows ≤ 1
    → any (open_with_id k p) rows ≡ true
    → count_where (is_open_row k) (give_up p rows) ≡ 0
give_up_last k p [] few h = absurd (ground arith)
give_up_last k p (x ∷ xs) few h = elim (Bool-cases (is_open_row k x)) [
  | inr closed ↦
      let rest = give_up_last k p xs (ground arith) (ground arith) in ground (arith, rest)
  | inl open_row ↦
      let rest : count_where (is_open_row k) xs ≡ 0 = ground arith in
      ground (arith, give_up_zero k p xs rest, zero_any k p xs rest)
]

insert_open :
    (k : ℕ) (x : Payment) (rows : List Payment)
    → count_where (is_open_row k) rows ≡ 0
    → count_where (is_open_row k) (insert_row x rows) ≤ 1
insert_open k x rows h = ground (arith, count_where-insert_row (is_open_row k) x rows)

reserve_checkout-undone :
    (normalize : String → String) (q : Request) (db : Db) (e : Exception)
    → (reserve_checkout normalize q db).0 ≡ err e
    → (reserve_checkout normalize q db).1 ≡ db
unfolding reserve_checkout
reserve_checkout-undone normalize q db e h = ground arith

outcome_few :
    (q : Request) (r : Registration) (db after : Db) (res : Reserved)
    → Outcome q r db after res
    → count_where (is_open_row r.id) db.payments ≤ 1
    → count_where (is_open_row r.id) after.payments ≤ 1
outcome_few q r db after res (resumed row again old same) few =
    subst (λ d. count_where (is_open_row r.id) d.payments ≤ 1) (sym same) few
outcome_few q r db after res (opened no_row new opens) few =
    subst (λ rows. count_where (is_open_row r.id) rows ≤ 1) (sym opens.payments_after)
      (insert_open r.id res.payment db.payments
        (latest_by-none (λ (p : Payment). p.created_at) (is_open_row r.id) db.payments no_row))
outcome_few q r db after res (replaced p row old new opens) few =
    let (is_open, among) =
      latest_by_sound (λ (x : Payment). x.created_at) (is_open_row r.id) db.payments p row in
    let there = among (open_with_id r.id p) (ground (arith, ==-refl p.id)) in
    subst (λ rows. count_where (is_open_row r.id) rows ≤ 1) (sym opens.payments_after)
      (insert_open r.id res.payment (without p db).payments
        (give_up_last r.id p db.payments few there))

-- A registration has at most one payment that is created and not settled, if it had no more before
-- a checkout was reserved, whatever the outcome: a new one is only opened when the old is given up.
pub reserve_checkout-one_open :
    (normalize : String → String) (q : Request) (db : Db)
    → count_where (is_open_row q.registration_id) db.payments ≤ 1
    → count_where (is_open_row q.registration_id) (reserve_checkout normalize q db).1.payments ≤ 1
reserve_checkout-one_open normalize q db few =
    elim (Result-cases (reserve_checkout normalize q db).0) [
      | inl (e, refused) ↦
          subst (λ d. count_where (is_open_row q.registration_id) d.payments ≤ 1)
            (sym (reserve_checkout-undone normalize q db e refused)) few
      | inr (res, returned) ↦
          let done = reserve_checkout_ok normalize q db res returned in
          let named : done.registration.id ≡ q.registration_id =
            ==-sound done.registration.id q.registration_id (
              find_sound (λ (x : Registration). x.id == q.registration_id) db.registrations
                done.registration done.is_found) in
          subst (λ k. count_where (is_open_row k) (reserve_checkout normalize q db).1.payments ≤ 1)
            named
            (outcome_few q done.registration db (reserve_checkout normalize q db).1 res done.outcome
              (subst (λ k. count_where (is_open_row k) db.payments ≤ 1) (sym named) few))
    ]

failed_refund_after :
    (p : Payment) (rows : List Payment)
    → is_refund_kind p.kind ≡ true
    → any (λ (x : Payment). x.id == p.id && is_refund_kind x.kind) rows ≡ true
    → any
        (λ (x : Payment). x.id == p.id && is_refund_kind x.kind && is_failed x.status)
        (give_up p rows)
      ≡ true
failed_refund_after p [] kind h = absurd (ground arith)
failed_refund_after p (x ∷ xs) kind h = ground (arith, failed_refund_after p xs kind)

any_insert :
    (f : Payment → Bool) (x : Payment) (rows : List Payment)
    → any f rows ≡ true
    → any f (insert_row x rows) ≡ true
any_insert f x [] h = absurd (ground arith)
any_insert f x (y ∷ ys) h = ground (arith, any_insert f x ys)

-- A refund that was asked for and is not done yet stands in the way of a checkout like an order: if
-- the latest row that is created is such a refund, without an order and not of the last minute,
-- then a checkout that is reserved marks the refund as failed, which no provider has reported.
pub reserve_checkout-fails_refund :
    (normalize : String → String) (q : Request) (db : Db) (res : Reserved) (p : Payment)
    → pending_payment q.registration_id db ≡ some p
    → is_refund_kind p.kind ≡ true
    → p.provider_order_id ≡ none
    → (reserve_checkout normalize q db).0 ≡ ok res
    → any
        (λ (x : Payment). x.id == p.id && is_refund_kind x.kind && is_failed x.status)
        (reserve_checkout normalize q db).1.payments
      ≡ true
reserve_checkout-fails_refund normalize q db res p row kind no_order returned =
    let done = reserve_checkout_ok normalize q db res returned in
    let r = done.registration in
    let named : r.id ≡ q.registration_id = ==-sound r.id q.registration_id (
      find_sound (λ (x : Registration). x.id == q.registration_id) db.registrations r
        done.is_found) in
    let row' : pending_payment r.id db ≡ some p = ap (λ k. pending_payment k db) named ∙ row in
    elim done.outcome [
      | resumed again resumable old same ↦ absurd (ground arith)
      | opened no_row new opens ↦ absurd (ground arith)
      | replaced p' row'' old new opens ↦
          let same : p' ≡ p = ground arith in
          let (is_open, among) =
            latest_by_sound (λ (x : Payment). x.created_at) (is_open_row r.id) db.payments p row' in
          let there =
            among (λ x. x.id == p.id && is_refund_kind x.kind) (ground (arith, ==-refl p.id)) in
          let rows : (reserve_checkout normalize q db).1.payments
              ≡ insert_row res.payment (give_up p db.payments) =
            opens.payments_after ∙ ap (λ z. insert_row res.payment (without z db).payments) same in
          subst
            (λ l.
              any (λ (x : Payment). x.id == p.id && is_refund_kind x.kind && is_failed x.status) l
              ≡ true)
            (sym rows)
            (any_insert
              (λ (x : Payment). x.id == p.id && is_refund_kind x.kind && is_failed x.status)
              res.payment (give_up p db.payments) (failed_refund_after p db.payments kind there))
    ]
