-- ===== src/Billing/Provider/Steps.antt =====
-- What a reconciliation does to the database: one event that the provider has reported after
-- another, each about a row that was looked up.
use mathlib.Core.Path.{subst}
use text.Mathlib.Text.{◌==◌ as str_eq}
use open_conferences.Shared.{
  ℕ, String, ◌≡◌, sym, inl, inr, true, false, not, ◌&&◌, ◌||◌, Option, some, List, [], ◌∷◌, arith,
  Bool-cases, Option-cases, Action, Result-cases,
}
use open_conferences.Store.{Db}
use open_conferences.Billing.Capture.{process_capture}
use open_conferences.Billing.PaidState.{is_refund_kind}
use open_conferences.Billing.Provider.{
  Gateway, PaymentEntity, event_of, matches_order, is_captured_entity, ask_refund, refunded_payment,
  is_reserved_refund, execute_refund_intent,
}
use open_conferences.Billing.Provider.Reconcile.{
  captured_rows, event_again, stale_rows, reconcile_payment, run_reconciliation, each_row,
  recover_capture, settle_entity, settle_entities,
}
use open_conferences.Billing.RefundEvents.{RefundEntity, is_unknown, process_refund_entity}
use open_conferences.Shared.Membership.{Mem, first, later}
use open_conferences.Store.Rows.{Payment}

-- The provider, asked for the payments of the row's order, reports this one among them.
pub data Reports (g : Gateway) (p : Payment) (e : PaymentEntity) : Type 0 where
  reports :
      (order_id : String) (entities : List PaymentEntity)
      → str_eq p.provider "razorpay" ≡ true
      → p.provider_order_id ≡ some order_id
      → g.fetch_order_payments order_id ≡ some entities
      → Mem e entities
      → Reports g p e

-- What a round may do for a row: process a capture that the provider reports of its order, of its
-- amount and currency; process the capture again that the row itself has; or process the answer to
-- the refund that it asks for, of its amount and currency.
pub data Step (g : Gateway) (p : Payment) (before : Db) : Db → Type 0 where
  captures :
      (e : PaymentEntity)
      → Reports g p e
      → matches_order p e ≡ true
      → is_captured_entity e ≡ true
      → Step g p before (process_capture "razorpay" (event_of e) before).1
  recovers :
      (order_id payment_id : String)
      → p.provider_order_id ≡ some order_id
      → p.provider_payment_id ≡ some payment_id
      → Step g p before (process_capture p.provider (event_again p order_id payment_id) before).1
  refunds :
      (new_id now : ℕ) (payment_id : String) (entity : RefundEntity)
      → ask_refund g p payment_id ≡ some entity
      → entity.amount ≡ p.amount_minor
      → str_eq entity.currency p.currency ≡ true
      → is_unknown entity.status ≡ false
      → Step g p before (process_refund_entity new_id now p.provider entity (some p.id) before).1

-- Any number of steps, each for one of the rows.
pub data Steps (g : Gateway) (rows : List Payment) : Db → Db → Type 0 where
  done : {db : Db} → Steps g rows db db
  step :
      {db mid last : Db} (p : Payment)
      → Mem p rows
      → Step g p db mid
      → Steps g rows mid last
      → Steps g rows db last

module _ {g : Gateway} {rows : List Payment} where
  join : {a b c : Db} → Steps g rows a b → Steps g rows b c → Steps g rows a c
  join done k = k
  join (step p m s rest) k = step p m s (join rest k)

  none_of : {a b : Db} → b ≡ a → Steps g rows a b
  none_of {a} e = subst (λ b. Steps g rows a b) (sym e) done

  one_of : {a b c : Db} (p : Payment) → Mem p rows → Step g p a c → b ≡ c → Steps g rows a b
  one_of {a} p m s e = subst (λ b. Steps g rows a b) (sym e) (step p m s done)

  settle_entity-Steps :
      (p : Payment) (e : PaymentEntity) (db : Db)
      → Mem p rows
      → Reports g p e
      → Steps g rows db (settle_entity p e db).1
  unfolding settle_entity
  settle_entity-Steps p e db m reported = elim (Bool-cases (matches_order p e)) [
    | inr other ↦ none_of (ground arith)
    | inl right ↦ elim (Bool-cases (is_captured_entity e)) [
      | inr open_still ↦ none_of (ground arith)
      | inl taken ↦ one_of p m (captures e reported right taken) (ground arith)
    ]
  ]

  settle_entities-Steps :
      (p : Payment) (es : List PaymentEntity) (db : Db)
      → Mem p rows
      → ((e : PaymentEntity) → Mem e es → Reports g p e)
      → Steps g rows db (settle_entities p es db).1
  unfolding settle_entities
  settle_entities-Steps p [] db m all = done
  settle_entities-Steps p (e ∷ es) db m all = elim (Result-cases (settle_entity p e db).0) [
    | inl (x, refused) ↦
        let same : (settle_entities p (e ∷ es) db).1 ≡ (settle_entity p e db).1 = ground arith in
        subst (λ d. Steps g rows db d) (sym same) (settle_entity-Steps p e db m (all e first))
    | inr (u, went) ↦
        let same : (settle_entities p (e ∷ es) db).1
            ≡ (settle_entities p es (settle_entity p e db).1).1 =
          ground arith in
        subst (λ d. Steps g rows db d) (sym same)
          (join (settle_entity-Steps p e db m (all e first))
            (settle_entities-Steps p es _ m (λ x k. all x (later k))))
  ]

  execute_refund_intent-Steps :
      (ids : ℕ → ℕ) (now : ℕ) (p : Payment) (db : Db)
      → Mem p rows
      → Steps g rows db (execute_refund_intent g ids now p db).1
  unfolding execute_refund_intent is_reserved_refund
  execute_refund_intent-Steps ids now p db m = elim (Result-cases (refunded_payment p db)) [
    | inl (x, unknown_payment) ↦ none_of (ground arith)
    | inr (payment_id, known) ↦ elim (Option-cases (ask_refund g p payment_id)) [
      | inl silent ↦ none_of (ground arith)
      | inr (entity, answer) ↦ elim (Bool-cases (is_reserved_refund p payment_id entity)) [
        | inr other ↦ none_of (ground arith)
        | inl right ↦
            one_of p m
              (refunds (ids p.id) now payment_id entity answer (ground arith) (ground arith)
                (ground arith))
              (ground arith)
      ]
    ]
  ]

  reconcile_payment-Steps :
      (ids : ℕ → ℕ) (now : ℕ) (p : Payment) (db : Db)
      → Mem p rows
      → Steps g rows db (reconcile_payment g ids now p db).1
  unfolding reconcile_payment
  reconcile_payment-Steps ids now p db m = elim (Bool-cases (is_refund_kind p.kind)) [
    | inl asked ↦
        let same : (reconcile_payment g ids now p db).1 ≡ (execute_refund_intent g ids now p db).1 =
          ground arith in
        subst (λ d. Steps g rows db d) (sym same) (execute_refund_intent-Steps ids now p db m)
    | inr charge ↦ elim (Option-cases p.provider_order_id) [
      | inl no_order ↦ none_of (ground arith)
      | inr (o, has_order) ↦ elim (Bool-cases (str_eq p.provider "razorpay" && not (str_eq o ""))) [
        | inr skipped ↦ none_of (ground arith)
        | inl theirs ↦ elim (Option-cases (g.fetch_order_payments o)) [
          | inl silent ↦ none_of (ground arith)
          | inr (es, answer) ↦
              let theirs_only : str_eq p.provider "razorpay" ≡ true = ground arith in
              let same : (reconcile_payment g ids now p db).1 ≡ (settle_entities p es db).1 =
                ground arith in
              subst (λ d. Steps g rows db d) (sym same)
                (settle_entities-Steps p es db m
                  (λ e k. reports o es theirs_only has_order answer k))
        ]
      ]
    ]
  ]

  recover_capture-Steps :
      (p : Payment) (db : Db) → Mem p rows → Steps g rows db (recover_capture p db).1
  unfolding recover_capture
  recover_capture-Steps p db m = elim (Option-cases p.provider_order_id) [
    | inl no_order ↦ none_of (ground arith)
    | inr (o, has_order) ↦ elim (Option-cases p.provider_payment_id) [
      | inl no_payment ↦ none_of (ground arith)
      | inr (k, has_payment) ↦ elim (Bool-cases (str_eq o "" || str_eq k "")) [
        | inl empty ↦ none_of (ground arith)
        | inr ids ↦ one_of p m (recovers o k has_order has_payment) (ground arith)
      ]
    ]
  ]

each_row-Steps :
    {g : Gateway} {all : List Payment} (f : Payment → Action Db (Unit {0}))
    → ((p : Payment) (db : Db) → Mem p all → Steps g all db (f p db).1)
    → (rows : List Payment) → ((p : Payment) → Mem p rows → Mem p all)
    → (db : Db) → Steps g all db (each_row f rows db).1
unfolding each_row
each_row-Steps f steps [] within db = done
each_row-Steps f steps (p ∷ ps) within db =
    join (steps p db (within p first)) (each_row-Steps f steps ps (λ q m. within q (later m)) _)

-- What a reconciliation does is to process events, one after another, first for the payments that
-- were created more than half an hour ago and are not settled, then for the captures that are
-- committed by then. Each event is a capture that the provider reports of the order of one of
-- these rows, the capture that one of them already has, or the provider's answer to the refund
-- that one of them is; a reported one has the amount and the currency of its row. Nothing else is
-- written, whatever the provider answers and whichever rounds fail.
pub run_reconciliation-Steps :
    (g : Gateway) (oldest : List Payment → List Payment) (ids : ℕ → ℕ) (now : ℕ)
    (payment_id : Option ℕ) (db : Db)
    → (mid : Db) × Steps g (stale_rows oldest now payment_id db) db mid
      × Steps g
          (captured_rows oldest payment_id mid)
          mid
          (run_reconciliation g oldest ids now payment_id db).1
unfolding run_reconciliation
run_reconciliation-Steps g oldest ids now payment_id db = (
  _,
  each_row-Steps (reconcile_payment g ids now) (reconcile_payment-Steps ids now)
      (stale_rows oldest now payment_id db) (λ q m. m) db,
  each_row-Steps recover_capture recover_capture-Steps _ (λ q m. m) _,
)
