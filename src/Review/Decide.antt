-- ===== src/Review/Decide.antt =====
-- `applyDecisionInTransaction` and `createDecisionAndUpdatePaper` of
-- apps/api/src/review/decisions.service.ts.
pub mod Outcomes
use open_conferences.Shared.{
  ℕ, ◌+◌, String, Bool, true, false, not, ◌&&◌, Option, none, [], ◌∷◌, ◌==◌, if◌then◌else◌, is_some,
  any, find, Exception, bad_request, not_found, Result, Action, pure, gets, or_raise, lift,
  transaction, ◌>>=◌, ◌>>◌, modify, first_error,
}
use open_conferences.Store.{Db}
use open_conferences.Billing.PaidState.{is_final}
use open_conferences.Review.Stage.{is_revision, minimum_reviews_from_config, lacks_reviews}
use open_conferences.Store.Rows.{
  Decision, Outcome, accept, Paper, under_review, decision_made, ReviewRound, Registration,
  cancelled, Conference,
}
use open_conferences.Store.Tables.{update_where, insert_row, count_where}
use open_conferences.Submission.Queries.{is_closed}

pub record DecisionInput : Type 0 where
  pub outcome : Outcome
  pub rationale : Option String
  pub version : ℕ

abbrev pub decided_paper : Outcome → Paper → Paper
decided_paper outcome p = record p {
  status = if is_revision outcome then under_review else decision_made;
  version = p.version + 1;
}

abbrev pub is_accept : Outcome → Bool
is_accept accept = true
is_accept _ = false

-- A registration that is neither cancelled, refunded nor discarded.
abbrev pub is_active_registration : ℕ → Registration → Bool
is_active_registration paper_id r = r.paper_id == paper_id && not (is_final r.status)

abbrev pub cancelled_by_decision : Registration → Registration
cancelled_by_decision r = record r { status = cancelled; version = r.version + 1 }

abbrev pub new_decision : ℕ → ℕ → ℕ → ℕ → ℕ → ReviewRound → DecisionInput → Decision
new_decision id now user conference_id paper_id round input = record {
  id = id;
  conference_id = conference_id;
  paper_id = paper_id;
  round_id = round.id;
  decided_by_id = user;
  outcome = input.outcome;
  rationale = input.rationale;
  notified_at = none;
  created_at = now;
}

abbrev pub is_decision_of : ℕ → ℕ → Decision → Bool
is_decision_of paper_id round_id d = d.paper_id == paper_id && d.round_id == round_id

-- The guards, in their order; the last is the unique index on the paper and the round, whose
-- violation is reported as a conflict.
unfoldable pub check_decision : ℕ → Paper → ReviewRound → DecisionInput → Db → Result (Unit {0})
check_decision conference_id p round input db = first_error (
    (not (p.version == input.version), Exception.conflict "Paper was modified by another request")
    ∷ (is_closed p.status, Exception.conflict "Cannot decide on a withdrawn paper")
    ∷ (
      not (round.paper_id == p.id),
      Exception.conflict "Review cycle does not belong to this paper",
    )
    ∷ (
      not (
          any
            (λ a. a.paper_id == p.id && a.round_id == round.id && a.conference_id == conference_id)
            db.assignments),
      bad_request "Paper has no assignments in this review round",
    )
    ∷ (
      any (is_decision_of p.id round.id) db.decisions,
      Exception.conflict "A decision already exists for this paper in this round",
    )
    ∷ [])

unfoldable pub write_decision : ℕ → ℕ → ℕ → ℕ → Paper → ReviewRound → DecisionInput → Db → Db
write_decision id now user conference_id p round input db = record db {
  decisions = insert_row (new_decision id now user conference_id p.id round input) db.decisions;
  papers = update_where (λ q. q.id == p.id) (decided_paper input.outcome) db.papers;
  registrations =
      if is_accept input.outcome
      then db.registrations
      else update_where (is_active_registration p.id) cancelled_by_decision db.registrations;
}

-- Whether too few reviews were submitted for the decision.
unfoldable pub is_early : ℕ → ReviewRound → Conference → Db → Bool
unfolding lacks_reviews minimum_reviews_from_config
is_early conference_id round c db =
    lacks_reviews
      (count_where
        (λ r. r.round_id == round.id && r.conference_id == conference_id && is_some r.submitted_at)
        db.reviews)
      (minimum_reviews_from_config c.minimum_reviews)

-- The answer is the decision and whether it comes with a warning.
unfoldable pub apply_decision :
    ℕ → ℕ → ℕ → ℕ → ℕ → ReviewRound → DecisionInput → Action Db (Decision × Bool)
apply_decision id now user conference_id paper_id round input = transaction (do
  found ← gets (λ db. find (λ p. p.id == paper_id && p.conference_id == conference_id) db.papers)
  p ← or_raise found (not_found "Paper not found")
  checked ← gets (check_decision conference_id p round input)
  lift checked
  held ← gets (λ db. find (λ c. c.id == conference_id) db.conferences)
  c ← or_raise held (not_found "No Conference found")
  early ← gets (is_early conference_id round c)
  modify (write_decision id now user conference_id p round input)
  pure (new_decision id now user conference_id p.id round input, early))
