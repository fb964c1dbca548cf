-- ===== src/Review/Reviews.antt =====
-- apps/api/src/review/reviews.service.ts: what all operations on a review share. `normalize` is
-- `trim().toLowerCase()`.
pub mod Editing
pub mod Release
pub mod Published
pub mod Guards
pub mod Outcomes
pub mod Drafts
pub mod Saving
pub mod Scores
pub mod Listing
pub mod Visibility
mod Tests
use open_conferences.Shared.{
  ℕ, String, Bool, true, false, not, ◌&&◌, ◌||◌, Option, none, some, List, [], ◌∷◌, ◌==◌,
  if◌then◌else◌, is_some, any, find, Exception, forbidden, not_found, error, Result, Action, pure,
  gets, or_raise, ◌>>=◌, ◌>>◌, modify, raise_if, first_error,
}
use open_conferences.Store.{Db}
use open_conferences.Review.Conflicts.{check_conflict}
use open_conferences.Review.Rounds.{load_round}
use open_conferences.Store.Rows.{
  RoleKind, reviewer, AssignmentStatus, declined, replaced, Assignment, Review, ReviewContent,
  Paper, Decision, ReviewRound,
}
use open_conferences.Store.Tables.{count_where, update_where}
use open_conferences.Submission.Queries.{is_closed}
use open_conferences.Tenancy.Conferences.{load_conference}
use open_conferences.Tenancy.Roles.{includes, is_privileged_reader}

-- `reviewVisibleToOwner`: the reviewer goes on from the edit that is kept aside.
unfoldable pub visible_to_owner : Review → ReviewContent
visible_to_owner r =
    if is_some r.submitted_at
    then elim r.pending_edit [ none ↦ r.content | some pending ↦ pending ]
    else r.content

abbrev pub is_inactive : AssignmentStatus → Bool
is_inactive declined = true
is_inactive replaced = true
is_inactive _ = false

-- The assignment, with its review and its paper.
pub record Loaded : Type 0 where
  pub assignment : Assignment
  pub review : Option Review
  pub paper : Paper

abbrev pub review_of : ℕ → List Review → Option Review
review_of assignment_id reviews = find (λ r. r.assignment_id == assignment_id) reviews

-- `loadAssignmentForReviewer`
unfoldable pub load_assignment : ℕ → ℕ → ℕ → List RoleKind → Action Db Loaded
load_assignment user conference_id assignment_id roles = do
  raise_if (not (includes roles reviewer) && not (is_privileged_reader roles))
      (forbidden "Reviewer role required")
  load_conference conference_id
  found ← gets (λ db. find (λ (a : Assignment). a.id == assignment_id) db.assignments)
  a ← or_raise found (not_found "Assignment not found")
  raise_if (not (a.conference_id == conference_id)) (not_found "Resource not found")
  raise_if (not (a.reviewer_user_id == user) && not (is_privileged_reader roles))
      (not_found "Assignment not found")
  held ← gets (λ db. find (λ (p : Paper). p.id == a.paper_id) db.papers)
  p ← or_raise held (error "Record not found")
  r ← gets (λ db. review_of assignment_id db.reviews)
  pure (record { assignment = a; review = r; paper = p })

-- What `saveReview` and `submitReview` ask before their transaction.
unfoldable pub editable : Exception → ℕ → ℕ → ℕ → List RoleKind → Action Db Loaded
editable denied user conference_id assignment_id roles = do
  load_conference conference_id
  l ← load_assignment user conference_id assignment_id roles
  raise_if (is_closed l.paper.status) (Exception.conflict "This paper has been withdrawn")
  raise_if (not (l.assignment.reviewer_user_id == user) || is_inactive l.assignment.status) denied
  load_round conference_id l.assignment.round_id
  pure l

abbrev pub is_decided_cycle : ℕ → ℕ → Db → Bool
is_decided_cycle conference_id round_id db =
    any (λ (d : Decision). d.round_id == round_id && d.conference_id == conference_id) db.decisions

-- `checkReviewerPaperConflict`, which finds no conflict with a paper that it does not find.
abbrev pub has_conflict : (String → String) → ℕ → ℕ → ℕ → Db → Bool
has_conflict normalize user paper_id conference_id db =
    elim (find (λ (p : Paper). p.id == paper_id && p.conference_id == conference_id) db.papers) [
      | none ↦ false
      | some p ↦ is_some (check_conflict normalize user p conference_id db)
    ]

-- The assignment as it is under the lock of the round.
abbrev pub is_active_now : ℕ → ℕ → Db → Bool
is_active_now conference_id assignment_id db =
    elim (find (λ (a : Assignment). a.id == assignment_id && a.conference_id == conference_id)
      db.assignments) [ none ↦ false | some a ↦ not (is_inactive a.status) ]

-- What both transactions ask first, `assertCycleOpen` included.
unfoldable pub check_open : (String → String) → ℕ → ℕ → Assignment → Db → Result (Unit {0})
check_open normalize user conference_id a db = first_error (
    (
      not (
          any (λ (r : ReviewRound). r.id == a.round_id && r.conference_id == conference_id)
            db.rounds),
      not_found "Review round not found",
    )
    ∷ (
      not (is_active_now conference_id a.id db),
      forbidden "This reviewer assignment is no longer active",
    )
    ∷ (is_decided_cycle conference_id a.round_id db, Exception.conflict "REVIEW_PHASE_LOCKED")
    ∷ (
      has_conflict normalize user a.paper_id conference_id db,
      Exception.conflict "Conflict of interest prevents review submission",
    )
    ∷ [])

abbrev pub review_conflict : Exception
review_conflict = Exception.conflict "REVIEW_VERSION_CONFLICT"

abbrev pub is_review_at : ℕ → ℕ → ℕ → ℕ → Review → Bool
is_review_at id conference_id user version r =
    r.id == id
    && r.conference_id == conference_id
    && r.reviewer_user_id == user
    && r.version == version

-- `updateMany` of the one review that has the version, and what it is after that.
unfoldable pub rewrite_review : ℕ → ℕ → ℕ → ℕ → (Review → Review) → Action Db Review
rewrite_review id conference_id user version f = do
  hit ← gets (λ db. count_where (is_review_at id conference_id user version) db.reviews)
  modify (λ db. record db {
    reviews = update_where (is_review_at id conference_id user version) f db.reviews;
  })
  raise_if (not (hit == 1)) review_conflict
  found ← gets (λ db. find (λ (r : Review). r.id == id) db.reviews)
  or_raise found (error "Record not found")
