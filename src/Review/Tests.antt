-- ===== src/Review/Tests.antt =====
-- The theorems on assignments and decisions, applied to a paper under review.
use open_conferences.Samples.{review, conference_db, round}
use open_conferences.Shared.{
  ◌≤◌, String, ◌≡◌, refl, ◌⊎◌, true, false, ◌&&◌, none, some, [], ◌∷◌, arith, ◌==◌, any, find, All,
}
use open_conferences.Store.{Db}
use open_conferences.Review.Assign.{
  create_assignment, reviewable_paper, new_assignment, try_create_assignment,
}
use open_conferences.Review.Assign.Safety.{MayReview, try_create_assignment-MayReview}
use open_conferences.Review.Conflicts.{check_conflict}
use open_conferences.Review.Decide.{
  check_decision, is_early, DecisionInput, new_decision, is_decision_of, is_accept, apply_decision,
}
use open_conferences.Review.Decide.Outcomes.{NoneActive, apply_decision-once}
use open_conferences.Review.Rebuttals.{
  check_window, open_window, rebuttable_paper, store_rebuttal, write_rebuttal, RebuttalInput,
  is_corresponding_author, resolve_rebuttal_round, is_rebuttal_of, new_rebuttal, submit_rebuttal,
}
use open_conferences.Review.Rebuttals.Window.{IsOpenRound, submit_rebuttal_ok}
use open_conferences.Review.Rounds.{
  lock_review_round, CycleInput, ensure_open_cycle, is_cycle_of, first_cycle,
}
use open_conferences.Review.Rounds.Cycle.{ensure_open_cycle_ok}
use open_conferences.Shared.Membership.{Mem}
use open_conferences.Store.Rows.{Decision, ReviewRound, Paper, reject}
use open_conferences.Store.Tables.{insert_row, count_where}
use open_conferences.Submission.Queries.{load_paper_for_mutation, is_closed}
use open_conferences.Tenancy.Conferences.{load_conference}
use open_conferences.Tenancy.Roles.{same_role}

abbrev as_written : String → String
as_written s = s

abbrev rejection : DecisionInput
rejection = record { outcome = reject; rationale = none; version = 4 }

try_create_assignment-MayReview_example :
    (p : Paper) × (reviewable_paper 1 6 conference_db ≡ some p)
    × MayReview as_written 1 22 p conference_db
    × (new_assignment 41 1 30 6 22 none ≡ new_assignment 41 1 30 p.id 22 none)
    × ((try_create_assignment as_written 41 1 30 6 22 none conference_db).1.assignments
        ≡ insert_row (new_assignment 41 1 30 6 22 none) conference_db.assignments)
unfolding try_create_assignment same_role create_assignment check_conflict
try_create_assignment-MayReview_example =
    try_create_assignment-MayReview as_written 41 1 30 6 22 none conference_db
      (new_assignment 41 1 30 6 22 none) refl

apply_decision-once_example :
    (p : Paper) × (find (λ q. q.id == 6 && q.conference_id == 1) conference_db.papers ≡ some p)
    × (count_where
          (is_decision_of p.id round.id)
          (apply_decision 81 120 9 1 6 round rejection conference_db).1.decisions
        ≡ 1)
    × ((is_accept reject ≡ true)
        ⊎ NoneActive p.id
            (apply_decision 81 120 9 1 6 round rejection conference_db).1.registrations)
unfolding apply_decision check_decision is_early
apply_decision-once_example =
    apply_decision-once 81 120 9 1 6 round rejection conference_db
      (new_decision 81 120 9 1 6 round rejection, true) refl

-- The reviews of the round are released.
abbrev released_round : ReviewRound
released_round = record round { reviews_released_at = some 140 }

abbrev released_db : Db
released_db = record conference_db {
  rounds = released_round ∷ [];
  reviews = record review { author_visible = true; submitted_at = some 130 } ∷ [];
}

abbrev answer : RebuttalInput
answer = record { body = "R"; version = none }

submit_rebuttal_ok_example :
    (p : Paper) × (r : ReviewRound) × (find
        (λ q. q.id == 6 && q.conference_id == 1)
        released_db.papers
      ≡ some p)
    × (is_corresponding_author p 20 ≡ true)
    × (is_closed p.status ≡ false)
    × (resolve_rebuttal_round 1 6 released_db ≡ some r)
    × IsOpenRound 95 150 20 1 6 answer r.id released_db
    × (count_where
          (is_rebuttal_of 6 r.id)
          (submit_rebuttal 95 150 20 1 6 answer released_db).1.rebuttals
        ≡ 1)
unfolding submit_rebuttal rebuttable_paper load_conference load_paper_for_mutation
    is_corresponding_author open_window resolve_rebuttal_round check_window write_rebuttal
    lock_review_round store_rebuttal
submit_rebuttal_ok_example =
    submit_rebuttal_ok 95 150 20 1 6 answer released_db (new_rebuttal 95 150 20 1 6 30 "R")
      (λ k. omega arith) refl

abbrev cycle : CycleInput
cycle = record {
  organization_id = 2;
  conference_id = 1;
  paper_id = 6;
  review_due_at = none;
  rebuttal_due_at = none;
}

ensure_open_cycle_ok_example :
    (is_cycle_of cycle round ≡ true)
    × (((find (is_cycle_of cycle) conference_db.rounds ≡ none)
          × (round ≡ first_cycle 96 cycle)
          × ((round.id ≡ 96) × (round.round_number ≡ 1) × (round.reviews_released_at ≡ none))
          × ((ensure_open_cycle 96 cycle conference_db).1
              ≡ record conference_db { rounds = insert_row round conference_db.rounds }))
        ⊎ (Mem round conference_db.rounds
            × (any (λ (d : Decision). d.round_id == 30) conference_db.decisions ≡ false)
            × All (λ x. (is_cycle_of cycle x ≡ false) ⊎ (x.round_number ≤ 1)) conference_db.rounds
            × ((ensure_open_cycle 96 cycle conference_db).1 ≡ conference_db)))
unfolding ensure_open_cycle
ensure_open_cycle_ok_example = ensure_open_cycle_ok 96 cycle conference_db round refl
