-- ===== src/Billing/PaidState/Derivation.antt =====
-- The status of a registration follows the money.
use mathlib.Core.Path.{ap₂}
use open_conferences.Shared.{
  ℕ, ◌+◌, ◌≡◌, ◌∙◌, ◌↔◌, ◌⊎◌, inl, inr, true, false, List, [], ◌∷◌, arith, ◌==◌, if◌then◌else◌,
  Bool-cases, filter_by, sum_of,
}
use open_conferences.Billing.PaidState.{
  PaidState, is_capture, is_done_refund, paid_loop, compute_paid_state, is_final, is_additional,
  is_effectively_paid, derive_after_capture, derive_after_refund, amount_if,
}
use open_conferences.Shared.Int.{pos, sub_ℕ, leb_ℤ, ltb_ℤ}
use open_conferences.Store.Rows.{
  Payment, PaymentStatus, captured, partially_refunded, initial, additional, refund, Registration,
  RegistrationStatus, awaiting_verification, paid,
}

-- What a payment brings in: its amount, if it is captured and no refund.
abbrev pub charged : Payment → ℕ
charged p = elim p.status [
  | captured ↦ elim p.kind [ initial ↦ p.amount_minor | additional ↦ p.amount_minor | refund ↦ 0 ]
  | _ ↦ 0
]

-- What it gives back: its amount, if it is a refund that went through in full or in part.
abbrev pub given_back : Payment → ℕ
given_back p = elim p.kind [
  | refund ↦ elim p.status [
    | PaymentStatus.refunded ↦ p.amount_minor
    | partially_refunded ↦ p.amount_minor
    | _ ↦ 0
  ]
  | _ ↦ 0
]

-- What a payment adds to the captured and to the refunded total of a registration.
abbrev pub capture_of : ℕ → Payment → ℕ
capture_of registration_id p = if p.registration_id == registration_id then charged p else 0

abbrev pub refund_of : ℕ → Payment → ℕ
refund_of registration_id p = if p.registration_id == registration_id then given_back p else 0

counted :
    (p : Payment)
    → (amount_if (is_capture p) p.amount_minor ≡ charged p)
      × (amount_if (is_done_refund p) p.amount_minor ≡ given_back p)
counted p = (ground arith, ground arith)

paid_loop-sums :
    (id cap ref : ℕ) (ps : List Payment)
    → paid_loop cap ref (filter_by (λ p. p.registration_id == id) ps)
      ≡ (cap + sum_of (capture_of id) ps, ref + sum_of (refund_of id) ps)
unfolding paid_loop
paid_loop-sums id cap ref [] = ground arith
paid_loop-sums id cap ref (p ∷ ps) = elim (Bool-cases (p.registration_id == id)) [
  | inl own ↦ rw own (
      paid_loop-sums id (cap + amount_if (is_capture p) p.amount_minor)
        (ref + amount_if (is_done_refund p) p.amount_minor) ps
      ∙ ap₂ (λ (a : ℕ) (b : ℕ). (a, b)) (omega (arith, counted p)) (omega (arith, counted p)))
  | inr other ↦
      rw other
        (paid_loop-sums id cap ref ps ∙ ap₂ (λ (a : ℕ) (b : ℕ). (a, b)) (omega arith) (omega arith))
]

-- What a registration has paid is its captured initial and additional payments less its refunds
-- that went through, in full or in part; payments of other registrations, failed, open or merely
-- authorised ones do not count.
pub compute_paid_state-sums :
    (id : ℕ) (ps : List Payment)
    → compute_paid_state id ps ≡ record {
      captured_minor = sum_of (capture_of id) ps;
      refunded_minor = sum_of (refund_of id) ps;
      net_minor = sub_ℕ (sum_of (capture_of id) ps) (sum_of (refund_of id) ps);
    }
unfolding compute_paid_state
compute_paid_state-sums id ps = ground (arith, paid_loop-sums id 0 0 ps)

-- After a capture an open registration counts as paid, or as awaiting the check of a student, only
-- if that was its status before or the amount due is covered.
pub derive_after_capture-covered :
    (r : Registration) (s : PaidState)
    → (derive_after_capture r s ≡ paid) ⊎ (derive_after_capture r s ≡ awaiting_verification)
    → (derive_after_capture r s ≡ r.status) ⊎ (leb_ℤ (pos r.amount_due_minor) s.net_minor ≡ true)
unfolding derive_after_capture
derive_after_capture-covered r s h = ground arith

-- After a refund a registration that was not final is paid or awaits the check exactly if a
-- positive amount due is still covered, is refunded exactly if nothing is left and no additional
-- payment was asked for, and owes an additional payment otherwise.
pub derive_after_refund_iff :
    (r : Registration) (s : PaidState)
    → is_final r.status ≡ false
    → (((derive_after_refund r s ≡ paid) ⊎ (derive_after_refund r s ≡ awaiting_verification))
        ↔ (is_effectively_paid r s ≡ true))
      × ((derive_after_refund r s ≡ RegistrationStatus.refunded) ↔ (
          (is_effectively_paid r s ≡ false)
          × (is_additional r.status ≡ false)
          × (ltb_ℤ (pos 0) s.net_minor ≡ false)))
unfolding derive_after_refund is_effectively_paid
derive_after_refund_iff r s open_status =
    ((λ h. ground arith, λ h. ground arith), (λ h. ground arith, λ h. ground arith))
