-- ===== src/Billing/Refunds/Limits.antt =====
-- A refund never takes more than its captures have left.
use open_conferences.Shared.{
  ltb→lt, ℕ, suc, ◌+◌, ◌-◌, ◌≤◌, ◌<◌, min, ◌≡◌, refl, ◌∙◌, ◌⊎◌, inl, inr, some, List, [], ◌∷◌, ◌++◌,
  arith, ltb, Bool-cases, Option-cases, filter_by, sum_of, ok,
}
use open_conferences.Store.{Db}
use open_conferences.Billing.Refunds.{
  is_legacy, total_of, is_refundable, available, Allocation, Allocated, add_part, allocate,
  payments_of, RefundInput, intent_rows, allocation_for, registration_in, request_rows,
  reserve_refund,
}
use open_conferences.Store.Rows.{Payment, Registration}

abbrev pub allocated : List Allocation → ℕ
allocated = sum_of (λ (a : Allocation). a.amount)

add_part-sum :
    (c : Payment) (amount : ℕ) (rest : Allocated)
    → allocated (add_part c amount rest).parts ≡ amount + allocated rest.parts
unfolding add_part
add_part-sum c amount rest = ground arith

add_part-rest :
    (c : Payment) (amount : ℕ) (rest : Allocated)
    → ((add_part c amount rest).remaining ≡ rest.remaining)
      × ((add_part c amount rest).legacy ≡ rest.legacy)
unfolding add_part
add_part-rest c amount rest = (ground arith, ground arith)

-- The parts and what remains make up the amount asked for.
allocate-sum :
    (rows cs : List Payment) (legacy remaining : ℕ)
    → allocated (allocate rows cs legacy remaining).parts
        + (allocate rows cs legacy remaining).remaining
      ≡ remaining
unfolding allocate
allocate-sum rows [] legacy remaining = omega arith
allocate-sum rows (c ∷ cs) legacy remaining =
    let share = min (available rows c) legacy in
    let amount = min (available rows c - share) remaining in
    let rest = allocate rows cs (legacy - share) (remaining - amount) in
    omega (
      arith,
      allocate-sum rows cs (legacy - share) (remaining - amount),
      add_part-sum c amount rest,
      add_part-rest c amount rest,
    )

-- The parts and the legacy refunds that were placed fit into what the captures have left.
allocate-fits :
    (rows cs : List Payment) (legacy remaining : ℕ)
    → allocated (allocate rows cs legacy remaining).parts + legacy
      ≤ sum_of (available rows) cs + (allocate rows cs legacy remaining).legacy
unfolding allocate
allocate-fits rows [] legacy remaining = omega arith
allocate-fits rows (c ∷ cs) legacy remaining =
    let share = min (available rows c) legacy in
    let amount = min (available rows c - share) remaining in
    let rest = allocate rows cs (legacy - share) (remaining - amount) in
    omega (
      arith,
      allocate-fits rows cs (legacy - share) (remaining - amount),
      add_part-sum c amount rest,
      add_part-rest c amount rest,
    )

allocate-legacy_le :
    (rows cs : List Payment) (legacy remaining : ℕ)
    → (allocate rows cs legacy remaining).legacy ≤ legacy
unfolding allocate
allocate-legacy_le rows [] legacy remaining = omega arith
allocate-legacy_le rows (c ∷ cs) legacy remaining =
    let share = min (available rows c) legacy in
    let amount = min (available rows c - share) remaining in
    omega (
      arith,
      allocate-legacy_le rows cs (legacy - share) (remaining - amount),
      add_part-rest c amount (allocate rows cs (legacy - share) (remaining - amount)),
    )

-- While legacy refunds are not all placed, nothing is allocated.
allocate-legacy_first :
    (rows cs : List Payment) (legacy remaining : ℕ)
    → 0 < (allocate rows cs legacy remaining).legacy
    → allocated (allocate rows cs legacy remaining).parts ≡ 0
unfolding allocate
allocate-legacy_first rows [] legacy remaining h = refl
allocate-legacy_first rows (c ∷ cs) legacy remaining h =
    let share = min (available rows c) legacy in
    let amount = min (available rows c - share) remaining in
    let rest = allocate rows cs (legacy - share) (remaining - amount) in
    omega (
      arith,
      allocate-legacy_first rows cs (legacy - share) (remaining - amount),
      allocate-legacy_le rows cs (legacy - share) (remaining - amount),
      add_part-sum c amount rest,
      add_part-rest c amount rest,
    )

allocate-legacy_or_none :
    (rows cs : List Payment) (legacy remaining : ℕ)
    → ((allocate rows cs legacy remaining).legacy ≡ 0)
      ⊎ (allocated (allocate rows cs legacy remaining).parts ≡ 0)
allocate-legacy_or_none rows cs legacy remaining =
    elim (Bool-cases (ltb 0 (allocate rows cs legacy remaining).legacy)) [
      | inl left ↦ inr (allocate-legacy_first rows cs legacy remaining (ltb→lt _ _ left))
      | inr spent ↦ inl (ground arith)
    ]

intent_rows-sum :
    (registration_id : ℕ) (input : RefundInput) (fresh : ℕ → ℕ) (now i : ℕ)
    (parts : List Allocation)
    → sum_of (λ (r : Payment). r.amount_minor) (intent_rows registration_id input fresh now i parts)
      ≡ allocated parts
unfolding intent_rows
intent_rows-sum registration_id input fresh now i [] = refl
intent_rows-sum registration_id input fresh now i (a ∷ parts) =
    omega (arith, intent_rows-sum registration_id input fresh now (suc i) parts)

-- The plan for a request that can be met in full: it allocates the amount, and with the legacy
-- refunds this fits into what the captures have left.
allocation_for-fits :
    (registration_id : ℕ) (input : RefundInput) (db : Db)
    → (allocation_for registration_id input db).remaining ≡ 0
    → 0 < input.amount_minor
    → let rows = payments_of registration_id db in
      (allocated (allocation_for registration_id input db).parts ≡ input.amount_minor)
      × (input.amount_minor + total_of is_legacy rows
          ≤ sum_of (available rows) (filter_by is_refundable rows))
unfolding allocation_for
allocation_for-fits registration_id input db done positive =
    let rows = payments_of registration_id db in
    let cs = filter_by is_refundable rows in
    let legacy = total_of is_legacy rows in
    (
      omega (arith, allocate-sum rows cs legacy input.amount_minor),
      omega (
        arith,
        allocate-sum rows cs legacy input.amount_minor,
        allocate-fits rows cs legacy input.amount_minor,
        allocate-legacy_or_none rows cs legacy input.amount_minor,
      ),
    )

-- A refund that is reserved for the first time was asked for at the version that the registration
-- has in the conference; its intents are appended to the payments and add up to the amount asked for; and that amount, with the
-- refunds of unknown captures, fits into what the captures have left after all refunds that are
-- done, pending or uncertain.
pub reserve_refund_fits :
    (conference_id registration_id : ℕ) (input : RefundInput) (fresh : ℕ → ℕ) (now : ℕ) (db : Db)
    (rows : List Payment)
    → request_rows registration_id input.version db ≡ []
    → (reserve_refund conference_id registration_id input fresh now db).0 ≡ ok rows
    → let before = payments_of registration_id db in
      ((reg : Registration) × (registration_in conference_id registration_id db ≡ some reg)
        × (reg.version ≡ input.version))
      × ((reserve_refund conference_id registration_id input fresh now db).1.payments
          ≡ db.payments ++ rows)
      × (sum_of (λ (r : Payment). r.amount_minor) rows ≡ input.amount_minor)
      × (0 < input.amount_minor)
      × (input.amount_minor + total_of is_legacy before
          ≤ sum_of (available before) (filter_by is_refundable before))
unfolding reserve_refund
reserve_refund_fits conference_id registration_id input fresh now db rows first h =
    elim (Option-cases (registration_in conference_id registration_id db)) [
      | inl gone ↦ ground arith
      | inr (reg, found) ↦
          let plan = allocation_for registration_id input db in
          let done : plan.remaining ≡ 0 = ground arith in
          let positive : 0 < input.amount_minor = ground arith in
          let same : rows ≡ intent_rows registration_id input fresh now 0 plan.parts =
            ground arith in
          let (whole, fits) = allocation_for-fits registration_id input db done positive in
          (
            (reg, found, ground arith),
            ground arith,
            rw same (intent_rows-sum registration_id input fresh now 0 plan.parts ∙ whole),
            positive,
            fits,
          )
    ]
