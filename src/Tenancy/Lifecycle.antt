-- ===== src/Tenancy/Lifecycle.antt =====
-- apps/api/src/tenancy/lifecycle.service.ts and the transition table of tenancy.mapper.ts.
pub mod Transitions
pub mod Archive
use open_conferences.Shared.{
  ℕ, ◌+◌, Bool, true, false, not, ◌&&◌, ◌||◌, Option, none, some, List, [], ◌∷◌, ltb, leb, ◌==◌,
  any, find, Exception, forbidden, not_found, Result, Action, pure, gets, or_raise, lift,
  transaction, ◌>>=◌, ◌>>◌, modify, raise_if, first_error,
}
use open_conferences.Store.{Db, log_audit}
use open_conferences.Store.Rows.{
  RoleKind, organizer, Conference, ConferenceStatus, draft, cfp_open, cfp_closed, reviewing,
  decisions, finalization, completed, archived,
}
use open_conferences.Store.Tables.{update_where}
use open_conferences.Tenancy.Conferences.{is_live}
use open_conferences.Tenancy.Phase.{effective_conference_status, is_cfp_open_status}
use open_conferences.Tenancy.Roles.{max_role_rank}

-- `VALID_STATUS_TRANSITIONS`
abbrev pub valid_status_transitions : ConferenceStatus → List ConferenceStatus
valid_status_transitions draft = cfp_open ∷ cfp_closed ∷ archived ∷ []
valid_status_transitions cfp_open = cfp_closed ∷ reviewing ∷ draft ∷ archived ∷ []
valid_status_transitions cfp_closed = cfp_open ∷ reviewing ∷ archived ∷ []
valid_status_transitions reviewing = decisions ∷ cfp_open ∷ archived ∷ []
valid_status_transitions decisions = finalization ∷ reviewing ∷ archived ∷ []
valid_status_transitions finalization = completed ∷ decisions ∷ archived ∷ []
valid_status_transitions completed = archived ∷ []
valid_status_transitions archived = []

abbrev pub same_status : ConferenceStatus → ConferenceStatus → Bool
same_status draft draft = true
same_status cfp_open cfp_open = true
same_status cfp_closed cfp_closed = true
same_status reviewing reviewing = true
same_status decisions decisions = true
same_status finalization finalization = true
same_status completed completed = true
same_status archived archived = true
same_status _ _ = false

-- `allowed.has(targetStatus) || conference.status === targetStatus`
unfoldable pub may_move : ConferenceStatus → ConferenceStatus → ConferenceStatus → Bool
may_move stored effective target =
    any (same_status target) (valid_status_transitions stored)
    || any (same_status target) (valid_status_transitions effective)
    || same_status stored target

-- `!conference.cfpOpensAt || !conference.cfpClosesAt || opens >= closes`
unfoldable pub lacks_window : Option ℕ → Option ℕ → Bool
lacks_window none _ = true
lacks_window (some opens) none = true
lacks_window (some opens) (some closes) = leb closes opens

-- `new Date() >= conference.cfpClosesAt`
unfoldable pub is_past : Option ℕ → ℕ → Bool
is_past none now = false
is_past (some closes) now = leb closes now

abbrev pub version_differs : Option ℕ → ℕ → Bool
version_differs none version = false
version_differs (some expected) version = not (version + 1 == expected)

-- The guards of the transaction, in their order.
unfoldable pub check_transition : ℕ → ConferenceStatus → Option ℕ → Conference → Result (Unit {0})
unfolding may_move lacks_window is_past effective_conference_status
check_transition now target expected c = first_error (
    (
      not (may_move c.status (effective_conference_status c now) target),
      Exception.conflict "Cannot transition",
    )
    ∷ (version_differs expected c.version, Exception.conflict "Conference version mismatch")
    ∷ (
      is_cfp_open_status target && lacks_window c.cfp_opens_at c.cfp_closes_at,
      Exception.conflict "Configure a valid CFP opening and closing time before publishing",
    )
    ∷ (
      is_cfp_open_status target && is_past c.cfp_closes_at now,
      Exception.conflict "Extend the CFP closing date in Settings before reopening submissions",
    )
    ∷ [])

abbrev pub moved : ConferenceStatus → Conference → Conference
moved target c = record c { status = target; version = c.version + 1 }

move : ℕ → ℕ → ConferenceStatus → Option ℕ → Action Db Conference
move now id target expected = do
  found ← gets (λ db. find (is_live id) db.conferences)
  c ← or_raise found (not_found "Conference not found")
  lift (check_transition now target expected c)
  modify (λ db. record db {
    conferences = update_where (λ r. r.id == id) (moved target) db.conferences;
  })
  pure (moved target c)

unfoldable pub transition :
    ℕ → ℕ → ℕ → ConferenceStatus → List RoleKind → Option ℕ → Action Db Conference
unfolding max_role_rank move
transition now actor id target roles expected = do
  raise_if (ltb (max_role_rank roles) (max_role_rank (organizer ∷ [])))
      (forbidden "Insufficient permissions to transition conference status")
  updated ← transaction (move now id target expected)
  log_audit (some actor) "conference.status_transition" id
  pure updated
