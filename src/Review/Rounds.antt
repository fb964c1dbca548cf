-- ===== src/Review/Rounds.antt =====
-- apps/api/src/review/rounds.service.ts: the lock of a round, its dates, the open cycle.
pub mod Cycle
use open_conferences.Shared.{
  ℕ, ◌+◌, Bool, not, ◌&&◌, Option, none, some, List, ◌==◌, if◌then◌else◌, any, find, Exception,
  forbidden, not_found, error, ok, err, Action, pure, gets, or_raise, transaction, ◌>>=◌, ◌>>◌,
  modify, raise_if,
}
use open_conferences.Store.{Db, log_audit}
use open_conferences.Store.Rows.{RoleKind, ReviewRound, Decision}
use open_conferences.Store.Tables.{count_where, update_where, insert_row, latest_by}
use open_conferences.Tenancy.Conferences.{load_conference}
use open_conferences.Tenancy.Roles.{can_coordinate_review}

-- `lockReviewRound`
unfoldable pub lock_review_round : ℕ → ℕ → Action Db ReviewRound
lock_review_round conference_id round_id =
    gets (λ db.
      find (λ (r : ReviewRound). r.id == round_id && r.conference_id == conference_id) db.rounds)
    >>= λ found. or_raise found (not_found "Review round not found")

-- `loadRound`: a round of another conference is reported as missing.
unfoldable pub load_round : ℕ → ℕ → Action Db ReviewRound
load_round conference_id round_id = do
  load_conference conference_id
  found ← gets (λ db. find (λ (r : ReviewRound). r.id == round_id) db.rounds)
  r ← or_raise found (not_found "Review round not found")
  raise_if (not (r.conference_id == conference_id)) (not_found "Resource not found")
  pure r

-- `UpdateReviewRoundInput`: a date is left out, cleared or given.
pub record RoundInput : Type 0 where
  pub review_due_at : Option (Option ℕ)
  pub rebuttal_due_at : Option (Option ℕ)
  pub revision_due_at : Option (Option ℕ)
  pub version : ℕ

abbrev pub set_date : Option (Option ℕ) → Option ℕ → Option ℕ
set_date none old = old
set_date (some new) old = new

abbrev pub rescheduled : RoundInput → ReviewRound → ReviewRound
rescheduled input r = record r {
  review_due_at = set_date input.review_due_at r.review_due_at;
  rebuttal_due_at = set_date input.rebuttal_due_at r.rebuttal_due_at;
  revision_due_at = set_date input.revision_due_at r.revision_due_at;
  version = r.version + 1;
}

abbrev pub is_round_at : ℕ → ℕ → ℕ → ReviewRound → Bool
is_round_at conference_id round_id version r =
    r.id == round_id && r.conference_id == conference_id && r.version == version

-- The transaction of `update`.
unfoldable pub write_round : ℕ → ℕ → RoundInput → Action Db ReviewRound
write_round conference_id round_id input = transaction (do
  hit ← gets (λ db. count_where (is_round_at conference_id round_id input.version) db.rounds)
  modify (λ db. record db {
    rounds =
        update_where (is_round_at conference_id round_id input.version) (rescheduled input)
          db.rounds;
  })
  raise_if (not (hit == 1)) (Exception.conflict "Review round was modified by another request")
  found ← gets (λ db. find (λ (r : ReviewRound). r.id == round_id) db.rounds)
  or_raise found (error "Record not found"))

unfoldable pub update_round : ℕ → ℕ → ℕ → RoundInput → List RoleKind → Action Db ReviewRound
update_round user conference_id round_id input roles = do
  raise_if (not (can_coordinate_review roles))
      (forbidden "Insufficient permissions to update review rounds")
  load_conference conference_id
  r ← load_round conference_id round_id
  raise_if (not (input.version == r.version))
      (Exception.conflict "Review round was modified by another request")
  updated ← write_round conference_id round_id input
  log_audit (some user) "review_round.updated" round_id
  pure updated

pub record CycleInput : Type 0 where
  pub organization_id : ℕ
  pub conference_id : ℕ
  pub paper_id : ℕ
  pub review_due_at : Option ℕ
  pub rebuttal_due_at : Option ℕ

abbrev pub first_cycle : ℕ → CycleInput → ReviewRound
first_cycle id input = record {
  id = id;
  organization_id = input.organization_id;
  conference_id = input.conference_id;
  paper_id = input.paper_id;
  round_number = 1;
  review_due_at = input.review_due_at;
  rebuttal_due_at = input.rebuttal_due_at;
  revision_due_at = none;
  reviews_released_at = none;
  version = 0;
}

abbrev pub is_cycle_of : CycleInput → ReviewRound → Bool
is_cycle_of input r = r.paper_id == input.paper_id && r.conference_id == input.conference_id

-- `ensureOpenCycle`: the latest cycle of the paper while it has no decision, or the first one.
unfoldable pub ensure_open_cycle : ℕ → CycleInput → Action Db ReviewRound
ensure_open_cycle id input db =
    elim (latest_by (λ (r : ReviewRound). r.round_number) (is_cycle_of input) db.rounds) [
      | none ↦ (
        ok (first_cycle id input),
        record db { rounds = insert_row (first_cycle id input) db.rounds },
      )
      | some r ↦
          if any (λ (d : Decision). d.round_id == r.id) db.decisions
          then (err (Exception.conflict "This paper cycle already has a decision"), db)
          else (ok r, db)
    ]
