-- ===== src/Tenancy/Phase/Window.antt =====
-- When the call for papers is open.
use open_conferences.Shared.{ℕ, ◌≤◌, ◌<◌, ◌≡◌, refl, ◌↔◌, true, Option, none, some, arith}
use open_conferences.Store.Rows.{Conference, cfp_open, cfp_closed}
use open_conferences.Tenancy.Phase.{effective_conference_status, is_cfp_open}

-- The published window with both of its ends.
abbrev pub InWindow : Option ℕ → Option ℕ → ℕ → Type 0
InWindow (some opens) (some closes) now = (opens ≤ now) × (now < closes)
InWindow _ _ now = ⊥

is_cfp_open_lem :
    (c : Conference) (now : ℕ) (opens closes : Option ℕ)
    → c.cfp_opens_at ≡ opens
    → c.cfp_closes_at ≡ closes
    → (is_cfp_open c now ≡ true) ↔ ((c.status ≡ cfp_open) × InWindow opens closes now)
unfolding is_cfp_open
is_cfp_open_lem c now none none p q = (λ h. ground arith, λ h. absurd h.1)
is_cfp_open_lem c now none (some y) p q = (λ h. ground arith, λ h. absurd h.1)
is_cfp_open_lem c now (some x) none p q = (λ h. ground arith, λ h. absurd h.1)
is_cfp_open_lem c now (some x) (some y) p q = (λ h. ground arith, λ h. ground arith)

-- The call for papers is open exactly when it was published and the instant lies from the opening
-- on and before the closing, which is exclusive; with a missing end it is never open.
pub is_cfp_open_iff :
    (c : Conference) (now : ℕ)
    → (is_cfp_open c now ≡ true)
      ↔ ((c.status ≡ cfp_open) × InWindow c.cfp_opens_at c.cfp_closes_at now)
is_cfp_open_iff c now = is_cfp_open_lem c now c.cfp_opens_at c.cfp_closes_at refl refl

-- Once a published call is closed it stays closed as time passes.
pub effective_conference_status-closed :
    (c : Conference) (now later : ℕ)
    → now ≤ later
    → effective_conference_status c now ≡ cfp_closed
    → effective_conference_status c later ≡ cfp_closed
unfolding effective_conference_status
effective_conference_status-closed c now later le h = ground arith
