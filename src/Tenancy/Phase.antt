-- ===== src/Tenancy/Phase.antt =====
-- packages/schemas/src/conference-phase.ts and apps/api/src/tenancy/cfp-window.ts. A window end
-- that is null or no valid date is `none` (`NaN` in the code, which no comparison accepts).
pub mod Window
use open_conferences.Shared.{
  ℕ, Bool, true, false, not, ◌||◌, Option, none, some, ltb, leb, if◌then◌else◌, Exception, Action,
  raise_if,
}
use open_conferences.Store.Rows.{Conference, ConferenceStatus, cfp_open, cfp_closed}

-- The window is open from `opens` on and before `closes`.
window_status : Option ℕ → Option ℕ → ℕ → ConferenceStatus
window_status opens none now = ConferenceStatus.draft
window_status none (some closes) now = if leb closes now then cfp_closed else ConferenceStatus.draft
window_status (some opens) (some closes) now =
    if leb closes now
    then cfp_closed
    else if leb closes opens || ltb now opens
    then ConferenceStatus.draft
    else cfp_open

abbrev pub is_cfp_open_status : ConferenceStatus → Bool
is_cfp_open_status cfp_open = true
is_cfp_open_status _ = false

status_at : ConferenceStatus → Option ℕ → Option ℕ → ℕ → ConferenceStatus
unfolding window_status
status_at cfp_open opens closes now = window_status opens closes now
status_at status _ _ _ = status

unfoldable pub effective_conference_status : Conference → ℕ → ConferenceStatus
unfolding status_at
effective_conference_status c now = status_at c.status c.cfp_opens_at c.cfp_closes_at now

unfoldable pub is_cfp_open : Conference → ℕ → Bool
unfolding effective_conference_status
is_cfp_open c now = is_cfp_open_status (effective_conference_status c now)

-- `assertCfpOpen`
unfoldable pub assert_cfp_open : {S : Type 0} → ℕ → Conference → Action S (Unit {0})
unfolding is_cfp_open
assert_cfp_open now c =
    raise_if (not (is_cfp_open c now))
      (Exception.conflict "The call for papers is closed or has not opened yet")
