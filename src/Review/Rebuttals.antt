-- ===== src/Review/Rebuttals.antt =====
-- `submitRebuttal` of apps/api/src/review/rebuttals.service.ts.
pub mod Window
use open_conferences.Shared.{
  ℕ, ◌+◌, String, Bool, true, false, not, ◌&&◌, ◌||◌, Option, none, some, ltb, ◌==◌, is_id, is_some,
  any, find, Exception, forbidden, error, Action, pure, gets, or_raise, transaction, ◌>>=◌, ◌>>◌,
  modify, raise_if,
}
use open_conferences.Store.{Db, log_audit}
use open_conferences.Review.Rounds.{lock_review_round}
use open_conferences.Store.Rows.{Paper, ReviewRound, Rebuttal, Review, Decision}
use open_conferences.Store.Tables.{count_where, update_where, insert_row, latest_by}
use open_conferences.Submission.Queries.{is_closed, load_paper_for_mutation}
use open_conferences.Tenancy.Conferences.{load_conference}

-- `SubmitRebuttalInput`
pub record RebuttalInput : Type 0 where
  pub body : String
  pub version : Option ℕ

unfoldable pub is_corresponding_author : Paper → ℕ → Bool
is_corresponding_author p user =
    p.submitted_by_id == user || any (λ a. a.is_corresponding && is_id a.user_id user) p.authorships

-- `resolveRebuttalRound`: the latest round whose reviews were released and that has no decision.
unfoldable pub resolve_rebuttal_round : ℕ → ℕ → Db → Option ReviewRound
resolve_rebuttal_round conference_id paper_id db =
    latest_by (λ (r : ReviewRound). r.round_number)
      (λ r.
        r.conference_id == conference_id
        && r.paper_id == paper_id
        && is_some r.reviews_released_at
        && not (any (λ (d : Decision). d.round_id == r.id) db.decisions)
        && any (λ (v : Review). v.round_id == r.id && v.paper_id == paper_id && v.author_visible)
            db.reviews)
      db.rounds

-- `due && new Date() > due`
abbrev pub is_late : ℕ → Option ℕ → Bool
is_late now none = false
is_late now (some due) = ltb due now

abbrev pub is_rebuttal_of : ℕ → ℕ → Rebuttal → Bool
is_rebuttal_of paper_id round_id b = b.paper_id == paper_id && b.round_id == round_id

abbrev pub is_released_review : ℕ → ℕ → Review → Bool
is_released_review paper_id round_id v =
    v.paper_id == paper_id && v.round_id == round_id && v.author_visible && is_some v.submitted_at

-- `existing && input.version !== existing.version`
abbrev pub is_stale : Option Rebuttal → Option ℕ → Bool
is_stale none version = false
is_stale (some b) version = not (is_id version b.version)

-- In a `where` clause a version that is undefined matches every row.
abbrev pub has_version : Option ℕ → ℕ → Bool
has_version none n = true
has_version (some v) n = v == n

abbrev pub rewritten : ℕ → String → Rebuttal → Rebuttal
rewritten now body b = record b { body = body; submitted_at = some now; version = b.version + 1 }

abbrev pub new_rebuttal : ℕ → ℕ → ℕ → ℕ → ℕ → ℕ → String → Rebuttal
new_rebuttal id now user conference_id paper_id round_id body = record {
  id = id;
  conference_id = conference_id;
  paper_id = paper_id;
  round_id = round_id;
  authored_by_user_id = user;
  body = body;
  submitted_at = some now;
  version = 0;
}

-- `version != null && version !== 0`
abbrev pub is_later_version : Option ℕ → Bool
is_later_version none = false
is_later_version (some v) = not (v == 0)

abbrev version_conflict : Exception
version_conflict = Exception.conflict "REBUTTAL_VERSION_CONFLICT"

abbrev pub is_stored : ℕ → ℕ → ℕ → Option ℕ → Rebuttal → Rebuttal → Bool
is_stored conference_id paper_id round_id version b x =
    x.id == b.id
    && x.conference_id == conference_id
    && is_rebuttal_of paper_id round_id x
    && has_version version x.version

-- The write: the rebuttal that was found is written anew, or a first one is added unless another
-- request has added one.
unfoldable pub store_rebuttal :
    ℕ → ℕ → ℕ → ℕ → ℕ → ℕ → Option Rebuttal → RebuttalInput → Action Db Rebuttal
store_rebuttal id now user conference_id paper_id round_id (some b) input = do
  hit ←
      gets
        (λ db. count_where (is_stored conference_id paper_id round_id input.version b) db.rebuttals)
  modify (λ db. record db {
    rebuttals =
        update_where (is_stored conference_id paper_id round_id input.version b)
          (rewritten now input.body) db.rebuttals;
  })
  raise_if (not (hit == 1)) version_conflict
  found ← gets (λ db. find (λ (x : Rebuttal). x.id == b.id) db.rebuttals)
  or_raise found (error "Record not found")
store_rebuttal id now user conference_id paper_id round_id none input = do
  raise_if (is_later_version input.version) version_conflict
  taken ← gets (λ db. any (is_rebuttal_of paper_id round_id) db.rebuttals)
  raise_if taken version_conflict
  modify (λ db. record db {
    rebuttals =
        insert_row (new_rebuttal id now user conference_id paper_id round_id input.body)
          db.rebuttals;
  })
  pure (new_rebuttal id now user conference_id paper_id round_id input.body)

abbrev pub is_decided : ℕ → ℕ → Db → Bool
is_decided conference_id round_id db =
    any (λ (d : Decision). d.round_id == round_id && d.conference_id == conference_id) db.decisions

-- The transaction, under the lock of the round.
unfoldable pub write_rebuttal :
    ℕ → ℕ → ℕ → ℕ → ℕ → ℕ → Option Rebuttal → RebuttalInput → Action Db Rebuttal
write_rebuttal id now user conference_id paper_id round_id existing input = transaction (do
  r ← lock_review_round conference_id round_id
  decided ← gets (is_decided conference_id round_id)
  raise_if (not (is_some r.reviews_released_at) || decided)
      (Exception.conflict "REBUTTAL_PHASE_LOCKED")
  raise_if (is_late now r.rebuttal_due_at) (Exception.conflict "REBUTTAL_PHASE_LOCKED")
  store_rebuttal id now user conference_id paper_id round_id existing input)

-- The guards on the round that was resolved.
unfoldable pub check_window : ℕ → ℕ → ReviewRound → Action Db (Unit {0})
check_window now paper_id r = do
  found ← gets (λ db. find (λ (x : ReviewRound). x.id == r.id) db.rounds)
  raise_if (elim found [ none ↦ true | some x ↦ not (is_some x.reviews_released_at) ])
      (Exception.conflict "Rebuttal window is not open")
  raise_if (elim found [ none ↦ false | some x ↦ is_late now x.rebuttal_due_at ])
      (Exception.conflict "Rebuttal deadline has passed")
  released ← gets (λ db. count_where (is_released_review paper_id r.id) db.reviews)
  raise_if (released == 0)
      (Exception.conflict "Reviews must be released before submitting a rebuttal")

-- The paper, for its corresponding author.
unfoldable pub rebuttable_paper : ℕ → ℕ → ℕ → Action Db Paper
rebuttable_paper user conference_id paper_id = do
  load_conference conference_id
  p ← load_paper_for_mutation conference_id paper_id
  raise_if (not (is_corresponding_author p user))
      (forbidden "Only the corresponding author may submit a rebuttal")
  raise_if (is_closed p.status) (Exception.conflict "This paper has been withdrawn")
  pure p

unfoldable pub open_window : ℕ → ℕ → ℕ → Action Db ReviewRound
open_window now conference_id paper_id = do
  resolved ← gets (resolve_rebuttal_round conference_id paper_id)
  r ← or_raise resolved (Exception.conflict "No rebuttal window is open for this paper")
  check_window now paper_id r
  pure r

unfoldable pub submit_rebuttal : ℕ → ℕ → ℕ → ℕ → ℕ → RebuttalInput → Action Db Rebuttal
submit_rebuttal id now user conference_id paper_id input = do
  rebuttable_paper user conference_id paper_id
  r ← open_window now conference_id paper_id
  existing ← gets (λ db. find (is_rebuttal_of paper_id r.id) db.rebuttals)
  raise_if (is_stale existing input.version) version_conflict
  b ← write_rebuttal id now user conference_id paper_id r.id existing input
  log_audit (some user) "rebuttal.submitted" b.id
  pure b
