-- ===== src/Review/Reviews/Release.antt =====
-- `releaseReviews` and `listReviewsForPaper` of reviews.service.ts.
use text.Mathlib.Text.{◌==◌ as str_eq}
use open_conferences.Shared.{
  ℕ, ◌+◌, Bool, true, not, ◌&&◌, ◌||◌, Option, none, some, List, [], ◌∷◌, ltb, ◌==◌, if◌then◌else◌,
  is_some, length, any, find, filter_by, Exception, bad_request, forbidden, not_found, ok, Action,
  pure, gets, or_raise, transaction, ◌>>=◌, ◌>>◌, modify, raise_if, when,
}
use open_conferences.Store.{Db, log_audit, publish}
use open_conferences.Review.Conflicts.{is_author_of}
use open_conferences.Review.Rounds.{load_round, lock_review_round}
use open_conferences.Store.Rows.{
  Review, ReviewRound, Conference, Paper, RoleKind, chair, organizer, platform_admin,
}
use open_conferences.Store.Tables.{count_where, update_where}
use open_conferences.Tenancy.Conferences.{load_conference}
use open_conferences.Tenancy.Roles.{can_coordinate_review, includes}

-- `ReleaseReviewsInput`
pub record ReleaseInput : Type 0 where
  pub version : ℕ
  pub rebuttal_due_at : Option ℕ

-- The submitted reviews of the round that its authors do not see yet.
abbrev pub is_hidden_submitted : ℕ → ℕ → ℕ → Review → Bool
is_hidden_submitted conference_id paper_id round_id r =
    r.round_id == round_id
    && r.conference_id == conference_id
    && r.paper_id == paper_id
    && is_some r.submitted_at
    && not r.author_visible

-- The date of the input, or that of the round, or that of the conference if it is still ahead.
abbrev pub rebuttal_due : ℕ → ReleaseInput → ReviewRound → Conference → Option ℕ
rebuttal_due now input round c = elim input.rebuttal_due_at [
  | some due ↦ some due
  | none ↦ elim round.rebuttal_due_at [
    | some due ↦ some due
    | none ↦ elim c.rebuttal_due_at [
      | some due ↦ if ltb now due then some due else none
      | none ↦ none
    ]
  ]
]

unfoldable pub released_round :
    ℕ → ReleaseInput → ReviewRound → Conference → ReviewRound → ReviewRound
released_round now input round c r = record r {
  reviews_released_at = elim round.reviews_released_at [ none ↦ some now | some at ↦ some at ];
  rebuttal_due_at = elim (rebuttal_due now input round c) [
    | none ↦ r.rebuttal_due_at
    | some due ↦ some due
  ];
  version = r.version + 1;
}

abbrev pub is_round_of : ℕ → ℕ → ℕ → ℕ → ReviewRound → Bool
is_round_of conference_id paper_id round_id version r =
    r.id == round_id
    && r.conference_id == conference_id
    && r.paper_id == paper_id
    && r.version == version

-- `{ id: { in: hiddenSubmitted }, visibility: 'HIDDEN' }`
abbrev pub is_to_show : List Review → Review → Bool
is_to_show hidden r = any (λ (h : Review). h.id == r.id) hidden && not r.author_visible

abbrev pub shown_review : Review → Review
shown_review r = record r { author_visible = true }

-- The transaction; it answers with the reviews that were released.
unfoldable pub release_in_transaction :
    ℕ → ℕ → ℕ → ReleaseInput → ReviewRound → Conference → Action Db (List Review)
release_in_transaction now conference_id paper_id input round c = transaction (do
  lock_review_round conference_id round.id
  hidden ← gets (λ db. filter_by (is_hidden_submitted conference_id paper_id round.id) db.reviews)
  raise_if (length hidden == 0) (bad_request "No submitted reviews to release")
  hit ←
      gets (λ db. count_where (is_round_of conference_id paper_id round.id input.version) db.rounds)
  modify (λ db. record db {
    rounds =
        update_where (is_round_of conference_id paper_id round.id input.version)
          (released_round now input round c) db.rounds;
  })
  raise_if (not (hit == 1)) (Exception.conflict "Review round was modified by another request")
  modify (λ db. record db { reviews = update_where (is_to_show hidden) shown_review db.reviews })
  pure hidden)

-- The mail for one review, to the first corresponding author.
unfoldable pub tell_author : Review → Action Db (Unit {0})
tell_author r db = elim (find (λ (p : Paper). p.id == r.paper_id) db.papers) [
  | none ↦ (ok tt, db)
  | some p ↦ elim (find (λ a. a.is_corresponding) p.authorships) [
    | none ↦ (ok tt, db)
    | some a ↦
        when (not (str_eq a.email ""))
          (publish
            (record { template = "review.released"; recipient = a.email; subject_id = r.id }))
          db
  ]
]

abbrev pub tell_authors : List Review → Action Db (Unit {0})
tell_authors [] db = (ok tt, db)
tell_authors (r ∷ rs) db = let (done, db') = tell_author r db in tell_authors rs db'

unfoldable pub release_reviews : ℕ → ℕ → ℕ → ℕ → ℕ → ReleaseInput → List RoleKind → Action Db ℕ
release_reviews now user conference_id paper_id cycle_id input roles = do
  raise_if (not (can_coordinate_review roles))
      (forbidden "Insufficient permissions to release reviews")
  c ← load_conference conference_id
  round ← load_round conference_id cycle_id
  raise_if (not (round.paper_id == paper_id)) (not_found "Review cycle not found for this paper")
  raise_if (not (input.version == round.version))
      (Exception.conflict "Review round was modified by another request")
  released ← release_in_transaction now conference_id paper_id input round c
  log_audit (some user) "review.released" cycle_id
  tell_authors released
  pure (length released)

-- What `listReviewsForPaper` answers with: rows, and whether they name the reviewers.
pub record ReviewList : Type 0 where
  pub rows : List Review
  pub names_reviewers : Bool

abbrev pub in_round : Option ℕ → Review → Bool
in_round none r = true
in_round (some round_id) r = r.round_id == round_id

-- The rows that `findMany` selects.
abbrev pub is_listed : ℕ → ℕ → Option ℕ → Bool → Review → Bool
is_listed conference_id paper_id round_id privileged r =
    r.paper_id == paper_id
    && r.conference_id == conference_id
    && in_round round_id r
    && (privileged || r.author_visible)

-- A committee role does not count on one's own paper.
abbrev pub reads_as_committee : ℕ → List RoleKind → Paper → Bool
reads_as_committee user roles p = can_coordinate_review roles && not (is_author_of user p)

abbrev pub names_reviewers_for : List RoleKind → Bool
names_reviewers_for roles =
    includes roles chair || includes roles organizer || includes roles platform_admin

-- `listReviewsForPaper`, without the cut into pages.
unfoldable pub list_reviews_for_paper : ℕ → ℕ → ℕ → Option ℕ → List RoleKind → Action Db ReviewList
list_reviews_for_paper user conference_id paper_id round_id roles = do
  load_conference conference_id
  found ←
      gets
        (λ db. find (λ (p : Paper). p.id == paper_id && p.conference_id == conference_id) db.papers)
  p ← or_raise found (not_found "Paper not found")
  raise_if (not (reads_as_committee user roles p) && not (is_author_of user p))
      (forbidden "Insufficient permissions to view reviews")
  gets (λ db. record {
    rows =
        filter_by (is_listed conference_id paper_id round_id (reads_as_committee user roles p))
          db.reviews;
    names_reviewers = reads_as_committee user roles p && names_reviewers_for roles;
  })
