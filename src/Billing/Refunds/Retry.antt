-- ===== src/Billing/Refunds/Retry.antt =====
-- A refund request can be retried safely.
use text.Mathlib.TextPositions.{eq_refl}
use open_conferences.Shared.{
  ℕ, suc, ◌+◌, ◌<◌, ◌≡◌, refl, ap, ◌∙◌, inl, inr, Bool, false, not, ◌&&◌, some, List, [], ◌∷◌, ◌++◌,
  arith, ◌==◌, if◌then◌else◌, Option-cases, any, filter_by, sum_of, ok,
}
use open_conferences.Store.{Db}
use open_conferences.Billing.PaidState.{is_refund_kind}
use open_conferences.Billing.Refunds.{
  RefundInput, Allocation, intent_rows, allocation_for, registration_in, request_rows,
  reserve_refund, has_key, has_reason,
}
use open_conferences.Billing.Refunds.Limits.{reserve_refund_fits}
use open_conferences.Store.Rows.{Key, Payment, Registration}
use open_conferences.Store.Tables.Laws.{find-update_where}

-- The rows that belong to the request.
abbrev belongs : ℕ → ℕ → Payment → Bool
belongs registration_id version p =
    p.registration_id == registration_id
    && is_refund_kind p.kind
    && has_key (Key.refund_request registration_id version) p.idempotency_key

filter_by-append :
    (p : Payment → Bool) (xs ys : List Payment)
    → filter_by p (xs ++ ys) ≡ filter_by p xs ++ filter_by p ys
filter_by-append p [] ys = refl
filter_by-append p (x ∷ xs) ys = ground (arith, filter_by-append p xs ys)

intent_rows-belong :
    (registration_id : ℕ) (input : RefundInput) (fresh : ℕ → ℕ) (now i : ℕ)
    (parts : List Allocation)
    → filter_by
        (belongs registration_id input.version)
        (intent_rows registration_id input fresh now i parts)
      ≡ intent_rows registration_id input fresh now i parts
unfolding intent_rows
intent_rows-belong registration_id input fresh now i [] = refl
intent_rows-belong registration_id input fresh now i (a ∷ parts) =
    ground (arith, intent_rows-belong registration_id input fresh now (suc i) parts)

intent_rows-reason :
    (registration_id : ℕ) (input : RefundInput) (fresh : ℕ → ℕ) (now i : ℕ)
    (parts : List Allocation)
    → any
        (λ p. not (has_reason input.reason p))
        (intent_rows registration_id input fresh now i parts)
      ≡ false
unfolding intent_rows
intent_rows-reason registration_id input fresh now i [] = refl
intent_rows-reason registration_id input fresh now i (a ∷ parts) =
    ground (
      arith,
      eq_refl input.reason,
      intent_rows-reason registration_id input fresh now (suc i) parts,
    )

-- What a first request leaves for a second one to find.
reserved_rows :
    (conference_id registration_id : ℕ) (input : RefundInput) (fresh : ℕ → ℕ) (now : ℕ) (db : Db)
    (rows : List Payment)
    → request_rows registration_id input.version db ≡ []
    → (reserve_refund conference_id registration_id input fresh now db).0 ≡ ok rows
    → rows
      ≡ intent_rows registration_id input fresh now 0
          (allocation_for registration_id input db).parts
unfolding reserve_refund
reserved_rows conference_id registration_id input fresh now db rows first h =
    elim (Option-cases (registration_in conference_id registration_id db)) [
      | inl gone ↦ ground arith
      | inr (reg, found) ↦ ground arith
    ]

reserved_registration :
    (conference_id registration_id : ℕ) (input : RefundInput) (fresh : ℕ → ℕ) (now : ℕ) (db : Db)
    (rows : List Payment)
    → request_rows registration_id input.version db ≡ []
    → (reserve_refund conference_id registration_id input fresh now db).0 ≡ ok rows
    → (reg : Registration) × (registration_in conference_id registration_id
          (reserve_refund conference_id registration_id input fresh now db).1
        ≡ some reg)
unfolding reserve_refund
reserved_registration conference_id registration_id input fresh now db rows first h =
    elim (Option-cases (registration_in conference_id registration_id db)) [
      | inl gone ↦ ground arith
      | inr (reg, found) ↦ (
        (if reg.id == registration_id then record reg { version = reg.version + 1 } else reg),
        ground (
          arith,
          find-update_where (λ r. r.id == registration_id)
              (λ r. record r { version = r.version + 1 })
              (λ r. r.id == registration_id && r.conference_id == conference_id) db.registrations
              (λ x. refl),
        ),
      )
    ]

again :
    (conference_id registration_id : ℕ) (input : RefundInput) (fresh : ℕ → ℕ) (later : ℕ)
    (after : Db) (reg : Registration) (rows : List Payment)
    → registration_in conference_id registration_id after ≡ some reg
    → request_rows registration_id input.version after ≡ rows
    → sum_of (λ (r : Payment). r.amount_minor) rows ≡ input.amount_minor
    → 0 < input.amount_minor
    → any (λ p. not (has_reason input.reason p)) rows ≡ false
    → reserve_refund conference_id registration_id input fresh later after ≡ (ok rows, after)
unfolding reserve_refund
again conference_id registration_id input fresh later after reg [] found asked whole positive
      reasons =
    absurd (omega arith)
again conference_id registration_id input fresh later after reg (r ∷ rest) found asked whole
      positive reasons =
    ground arith

-- Asked for again with the same version, amount and reason, a reserved refund returns the same
-- intents and changes nothing, whenever that is and whatever ids are generated.
pub reserve_refund_retry :
    (conference_id registration_id : ℕ) (input : RefundInput) (fresh fresh' : ℕ → ℕ) (now later : ℕ)
    (db : Db) (rows : List Payment)
    → request_rows registration_id input.version db ≡ []
    → (reserve_refund conference_id registration_id input fresh now db).0 ≡ ok rows
    → let after = (reserve_refund conference_id registration_id input fresh now db).1 in
      reserve_refund conference_id registration_id input fresh' later after ≡ (ok rows, after)
reserve_refund_retry conference_id registration_id input fresh fresh' now later db rows first h =
    let after = (reserve_refund conference_id registration_id input fresh now db).1 in
    let parts = (allocation_for registration_id input db).parts in
    let (_, paid, whole, positive, _) =
      reserve_refund_fits conference_id registration_id input fresh now db rows first h in
    let same = reserved_rows conference_id registration_id input fresh now db rows first h in
    let (reg, found) =
      reserved_registration conference_id registration_id input fresh now db rows first h in
    let asked : request_rows registration_id input.version after ≡ rows =
      ap (filter_by (belongs registration_id input.version)) paid
      ∙ filter_by-append (belongs registration_id input.version) db.payments rows
      ∙ ap (λ xs. xs ++ filter_by (belongs registration_id input.version) rows) first
      ∙ rw same (intent_rows-belong registration_id input fresh now 0 parts) in
    again conference_id registration_id input fresh' later after reg rows found asked whole positive
      (rw same (intent_rows-reason registration_id input fresh now 0 parts))
