-- ===== src/Billing/PaidState.antt =====
-- apps/api/src/billing/paid-state.ts.
pub mod Derivation
use open_conferences.Shared.{
  ℕ, ◌+◌, Bool, true, false, not, ◌&&◌, List, [], ◌∷◌, ltb, ◌==◌, if◌then◌else◌, filter_by,
}
use open_conferences.Shared.Int.{ℤ, pos, sub_ℕ, leb_ℤ, ltb_ℤ}
use open_conferences.Store.Rows.{
  Payment, PaymentStatus, captured, refunded, partially_refunded, PaymentKind, refund, Registration,
  RegistrationStatus, awaiting_verification, additional_payment_required, paid, cancelled,
  discarded_nonpayment, Audience, student,
}

pub record PaidState : Type 0 where
  pub captured_minor : ℕ
  pub refunded_minor : ℕ
  pub net_minor : ℤ

abbrev pub is_captured : PaymentStatus → Bool
is_captured captured = true
is_captured _ = false

abbrev pub is_refund_kind : PaymentKind → Bool
is_refund_kind refund = true
is_refund_kind _ = false

abbrev pub is_refunded : PaymentStatus → Bool
is_refunded PaymentStatus.refunded = true
is_refunded partially_refunded = true
is_refunded _ = false

-- A captured payment, and a refund that went through.
abbrev pub is_capture : Payment → Bool
is_capture p = is_captured p.status && not (is_refund_kind p.kind)

abbrev pub is_done_refund : Payment → Bool
is_done_refund p = is_refund_kind p.kind && is_refunded p.status

abbrev pub amount_if : Bool → ℕ → ℕ
amount_if counted amount = if counted then amount else 0

-- The loop of `computePaidState`.
paid_loop : ℕ → ℕ → List Payment → ℕ × ℕ
paid_loop cap ref [] = (cap, ref)
paid_loop cap ref (p ∷ ps) =
    paid_loop (cap + amount_if (is_capture p) p.amount_minor)
      (ref + amount_if (is_done_refund p) p.amount_minor) ps

unfoldable pub compute_paid_state : ℕ → List Payment → PaidState
unfolding paid_loop
compute_paid_state registration_id payments =
    let (cap, ref) =
      paid_loop 0 0 (filter_by (λ p. p.registration_id == registration_id) payments) in
    record { captured_minor = cap; refunded_minor = ref; net_minor = sub_ℕ cap ref }

-- `['CANCELLED', 'DISCARDED_NONPAYMENT', 'REFUNDED'].includes(status)`
abbrev pub is_final : RegistrationStatus → Bool
is_final cancelled = true
is_final discarded_nonpayment = true
is_final RegistrationStatus.refunded = true
is_final _ = false

abbrev pub is_additional : RegistrationStatus → Bool
is_additional additional_payment_required = true
is_additional _ = false

abbrev pub is_awaiting : RegistrationStatus → Bool
is_awaiting awaiting_verification = true
is_awaiting _ = false

abbrev pub is_student : Audience → Bool
is_student student = true
is_student _ = false

unfoldable pub is_effectively_paid : Registration → PaidState → Bool
is_effectively_paid r s = leb_ℤ (pos r.amount_due_minor) s.net_minor && ltb 0 r.amount_due_minor

unfoldable pub derive_after_capture : Registration → PaidState → RegistrationStatus
derive_after_capture r s =
    if is_final r.status
    then r.status
    else if ltb_ℤ s.net_minor (pos r.amount_due_minor)
    then (if is_additional r.status then additional_payment_required else r.status)
    else if is_student r.audience && not (is_additional r.status)
    then awaiting_verification
    else paid

unfoldable pub derive_after_refund : Registration → PaidState → RegistrationStatus
derive_after_refund r s =
    if is_final r.status
    then r.status
    else if leb_ℤ (pos r.amount_due_minor) s.net_minor && ltb 0 r.amount_due_minor
    then (if is_student r.audience && is_awaiting r.status then awaiting_verification else paid)
    else if is_additional r.status
    then additional_payment_required
    else if ltb_ℤ (pos 0) s.net_minor
    then additional_payment_required
    else RegistrationStatus.refunded
