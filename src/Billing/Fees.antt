-- ===== src/Billing/Fees.antt =====
-- apps/api/src/billing/fee-resolver.ts, and `resolveAmountDue` of registrations.service.ts. The
-- rate of exchange is a number of millionths and the product is rounded exactly, where the code
-- rounds the product of two floating-point numbers.
pub mod Quotes
use text.Mathlib.Text.{◌==◌ as str_eq}
use open_conferences.Shared.{
  ℕ, ◌+◌, ◌*◌, ◌/◌, String, Bool, true, false, not, ◌&&◌, Option, none, some, ltb, leb,
  if◌then◌else◌, is_some, error, Result, ok, err,
}
use open_conferences.Store.Rows.{FeeSchedule, Audience, Timing, early}

-- `capturedAt < earlyBirdEndsAt ? 'EARLY' : 'REGULAR'`
unfoldable pub resolve_timing : ℕ → Option ℕ → Timing
resolve_timing captured_at none = Timing.regular
resolve_timing captured_at (some ends) = if ltb captured_at ends then early else Timing.regular

unfoldable pub resolve_matrix_amount : FeeSchedule → Audience → Timing → Result ℕ
resolve_matrix_amount schedule audience timing = elim (schedule.matrix audience timing) [
  | none ↦ err (error "Fee matrix missing timing cell")
  | some amount ↦ ok amount
]

-- `getRegistrationDeadline`
unfoldable pub registration_deadline : FeeSchedule → Option ℕ → Result ℕ
registration_deadline schedule due = elim schedule.registration_deadline_at [
  | some at ↦ ok at
  | none ↦ elim due [
    | some at ↦ ok at
    | none ↦ err (error "Registration deadline is not configured")
  ]
]

-- `lockedTiming ?? resolveTiming(...)`
unfoldable pub timing_at : FeeSchedule → Option Timing → ℕ → Timing
unfolding resolve_timing
timing_at schedule (some t) captured_at = t
timing_at schedule none captured_at = resolve_timing captured_at schedule.early_bird_ends_at

unfoldable pub resolve_amount_due : FeeSchedule → Audience → Option Timing → ℕ → Result (ℕ × Timing)
unfolding timing_at resolve_matrix_amount
resolve_amount_due schedule audience locked captured_at =
    elim (resolve_matrix_amount schedule audience (timing_at schedule locked captured_at)) [
      | ok amount ↦ ok (amount, timing_at schedule locked captured_at)
      | err e ↦ err e
    ]

pub record PaymentQuote : Type 0 where
  pub amount_minor : ℕ
  pub regular_amount_minor : ℕ
  pub currency : String
  pub timing : Timing
  pub is_additional_paper : Bool

-- `Math.round(amount * rate)`, with the rate in millionths.
abbrev pub convert : ℕ → ℕ → ℕ
convert rate amount = (2 * amount * rate + 1000000) / 2000000

abbrev pub is_payable : ℕ → Bool
is_payable amount = leb 100 amount && leb amount 2147483647

-- The amounts in the currency of the payer: a schedule in USD asks for a country, and is converted
-- for India.
localise : FeeSchedule → Option String → ℕ → ℕ → Result (ℕ × ℕ × String)
localise schedule country amount regular_amount =
    if not (str_eq schedule.currency "USD")
    then ok (amount, regular_amount, schedule.currency)
    else elim country [
      | none ↦ err (error "Save your billing country before payment.")
      | some c ↦
          if str_eq c ""
          then err (error "Save your billing country before payment.")
          else if not (str_eq c "IN")
          then ok (amount, regular_amount, schedule.currency)
          else elim schedule.domestic_inr_per_usd [
            | none ↦
                err (
                  error
                    "INR registration pricing is not configured. Please contact the organizers.")
            | some rate ↦ ok (convert rate amount, convert rate regular_amount, "INR")
          ]
    ]

finish_quote : Timing → Bool → Result (ℕ × ℕ × String) → Result PaymentQuote
finish_quote timing is_additional (err e) = err e
finish_quote timing is_additional (ok (amount, regular_amount, currency)) =
    if not (is_payable amount && is_payable regular_amount)
    then err (error "Registration pricing is invalid. Please contact the organizers.")
    else ok (record {
      amount_minor = amount;
      regular_amount_minor = regular_amount;
      currency = currency;
      timing = timing;
      is_additional_paper = is_additional;
    })

-- The price of an additional paper, where the schedule has one and a first paper is paid.
abbrev pub additional_price : FeeSchedule → Bool → Option ℕ
additional_price schedule true = schedule.additional_paper_minor
additional_price schedule false = none

base_amounts : FeeSchedule → Audience → Timing → Option ℕ → Result (ℕ × ℕ)
unfolding resolve_matrix_amount
base_amounts schedule audience timing (some price) = ok (price, price)
base_amounts schedule audience timing none = elim (resolve_matrix_amount schedule audience timing) [
  | err e ↦ err e
  | ok amount ↦ elim (resolve_matrix_amount schedule Audience.regular timing) [
    | err e ↦ err e
    | ok regular_amount ↦ ok (amount, regular_amount)
  ]
]

unfoldable pub quote_registration :
    FeeSchedule → Audience → Option String → Bool → ℕ → Result PaymentQuote
unfolding localise finish_quote base_amounts resolve_timing
quote_registration schedule audience country has_paid_base_paper now =
    let timing = resolve_timing now schedule.early_bird_ends_at in
    let price = additional_price schedule has_paid_base_paper in
    elim (base_amounts schedule audience timing price) [
      | err e ↦ err e
      | ok (amount, regular_amount) ↦
          finish_quote timing (is_some price) (localise schedule country amount regular_amount)
    ]
