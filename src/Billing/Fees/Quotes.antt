-- ===== src/Billing/Fees/Quotes.antt =====
-- What a quote promises.
use open_conferences.Shared.{ℕ, ◌≤◌, String, ◌≡◌, Bool, true, Option, some, arith, ok}
use open_conferences.Billing.Fees.{PaymentQuote, quote_registration}
use open_conferences.Store.Rows.{FeeSchedule, Audience}

-- Every quote lies between one unit of the currency and the largest amount that the database
-- stores, for the payer and for the regular audience.
pub quote_registration_bounds :
    (schedule : FeeSchedule) (audience : Audience) (country : Option String) (has_base : Bool)
    (now : ℕ) (q : PaymentQuote)
    → quote_registration schedule audience country has_base now ≡ ok q
    → (100 ≤ q.amount_minor)
      × (q.amount_minor ≤ 2147483647)
      × (100 ≤ q.regular_amount_minor)
      × (q.regular_amount_minor ≤ 2147483647)
unfolding quote_registration
quote_registration_bounds schedule audience country has_base now q h = ground arith

-- An additional paper costs the same for every audience and at every time: two quotes that are
-- given for it agree in their amounts.
pub quote_registration-additional :
    (schedule : FeeSchedule) (a b : Audience) (country : Option String) (now later price : ℕ)
    (p q : PaymentQuote)
    → schedule.additional_paper_minor ≡ some price
    → quote_registration schedule a country true now ≡ ok p
    → quote_registration schedule b country true later ≡ ok q
    → (p.amount_minor ≡ q.amount_minor)
      × (p.regular_amount_minor ≡ p.amount_minor)
      × (p.currency ≡ q.currency)
unfolding quote_registration
quote_registration-additional schedule a b country now later price p q e g h = ground arith
