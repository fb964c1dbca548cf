-- ===== src/Tenancy/Conferences.antt =====
-- How the services find a conference: `ConferenceService.loadConference`
-- (apps/api/src/tenancy/conference.service.ts) and `lockOpenCfp` (cfp-window.ts).
use open_conferences.Shared.{
  ℕ, Bool, not, ◌&&◌, ◌==◌, find, not_found, Action, pure, gets, or_raise, ◌>>=◌, ◌>>◌,
}
use open_conferences.Store.{Db}
use open_conferences.Store.Rows.{Conference}
use open_conferences.Tenancy.Phase.{assert_cfp_open}

abbrev pub is_live : ℕ → Conference → Bool
is_live id c = c.id == id && not c.deleted

unfoldable pub load_conference : ℕ → Action Db Conference
load_conference id = gets (λ db. find (is_live id) db.conferences) >>= λ found.
    or_raise found (not_found "Conference not found")

-- Serialised by the row lock, and decided at the instant `now` after the wait.
unfoldable pub lock_open_cfp : ℕ → ℕ → Action Db Conference
unfolding load_conference assert_cfp_open
lock_open_cfp now id = do c ← load_conference id; assert_cfp_open now c; pure c
