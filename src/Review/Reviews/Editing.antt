-- ===== src/Review/Reviews/Editing.antt =====
-- `saveReview` and `submitReview` of reviews.service.ts.
use text.Mathlib.Text.{◌==◌ as str_eq}
use open_conferences.Shared.{
  ℕ, ◌+◌, String, Bool, true, false, not, ◌&&◌, ◌||◌, Option, none, some, List, [], ◌∷◌, ◌==◌,
  if◌then◌else◌, is_some, any, find, bad_request, forbidden, Result, ok, err, Action, pure, gets,
  or_raise, lift, transaction, ◌>>=◌, ◌>>◌, modify, raise_if, when,
}
use open_conferences.Store.{Db, log_audit, publish}
use open_conferences.Review.Reviews.{
  visible_to_owner, editable, check_open, review_conflict, rewrite_review,
}
use open_conferences.Shared.Int.{ℤ, pos, ltb_ℤ}
use open_conferences.Store.Rows.{
  RoleKind, completed, Assignment, Review, ReviewContent, ScoreDimension, plain_name, dimension,
  ReviewConfig, User,
}
use open_conferences.Store.Tables.{update_where, insert_row}
use open_conferences.Tenancy.Conferences.{load_conference}

-- `SaveReviewInput`
pub record SaveInput : Type 0 where
  pub content : ReviewContent
  pub version : ℕ

-- A review that was submitted keeps its columns; the edit is put aside.
unfoldable pub edited_review : Bool → ReviewContent → Review → Review
edited_review true content r = record r { pending_edit = some content; version = r.version + 1 }
edited_review false content r = record r {
  content = content;
  pending_edit = none;
  version = r.version + 1;
}

unfoldable pub new_review : ℕ → ℕ → ℕ → Assignment → ReviewContent → Review
new_review id user conference_id a content = record {
  id = id;
  conference_id = conference_id;
  assignment_id = a.id;
  round_id = a.round_id;
  paper_id = a.paper_id;
  reviewer_user_id = user;
  content = content;
  author_visible = false;
  submitted_at = none;
  pending_edit = none;
  version = 1;
}

-- `createMany({ skipDuplicates })`: an assignment has one review.
unfoldable pub first_draft : ℕ → ℕ → ℕ → Assignment → ReviewContent → Action Db Review
first_draft id user conference_id a content = do
  taken ← gets (λ db. any (λ (r : Review). r.assignment_id == a.id) db.reviews)
  raise_if taken review_conflict
  modify (λ db. record db {
    reviews = insert_row (new_review id user conference_id a content) db.reviews;
  })
  pure (new_review id user conference_id a content)

unfoldable pub write_draft : ℕ → ℕ → ℕ → Assignment → Option Review → SaveInput → Action Db Review
write_draft id user conference_id a (some r) input = do
  raise_if (not (input.version == r.version)) review_conflict
  rewrite_review r.id conference_id user input.version
      (edited_review (is_some r.submitted_at) input.content)
write_draft id user conference_id a none input = do
  raise_if (not (input.version == 0)) review_conflict
  first_draft id user conference_id a input.content

-- The transaction of `saveReview`, with the review that was loaded before it.
unfoldable pub save_in_transaction :
    (String → String) → ℕ → ℕ → ℕ → Assignment → Option Review → SaveInput → Action Db Review
save_in_transaction normalize id user conference_id a existing input = transaction (do
  checked ← gets (check_open normalize user conference_id a)
  lift checked
  write_draft id user conference_id a existing input)

unfoldable pub save_review :
    (String → String) → ℕ → ℕ → ℕ → ℕ → SaveInput → List RoleKind → Action Db Review
save_review normalize id user conference_id assignment_id input roles = do
  l ←
      editable (forbidden "Only the assigned reviewer may edit this review") user conference_id
        assignment_id roles
  save_in_transaction normalize id user conference_id l.assignment l.review input

-- `scores[key]`
abbrev pub score_of : String → List (String × ℤ) → Option ℤ
score_of key [] = none
score_of key ((k, score) ∷ scores) = if str_eq k key then some score else score_of key scores

-- `dimension.key`, which as a key of a record is "undefined" where the dimension is a plain name.
abbrev pub key_of : ScoreDimension → String
key_of (plain_name name) = "undefined"
key_of (dimension key low high) = key

-- `dimension.min ?? 1` and `dimension.max ?? 5`
abbrev pub range_of : ScoreDimension → ℤ × ℤ
range_of (plain_name name) = (pos 1, pos 5)
range_of (dimension key low high) =
    (elim low [ none ↦ pos 1 | some n ↦ n ], elim high [ none ↦ pos 5 | some n ↦ n ])

abbrev pub check_score : ScoreDimension → Option ℤ → Result (Unit {0})
check_score d none = err (bad_request "Score is required")
check_score d (some score) =
    let (low, high) = range_of d in
    if ltb_ℤ score low || ltb_ℤ high score
    then err (bad_request "Score must be between its bounds")
    else ok tt

unfoldable pub check_scores : List ScoreDimension → List (String × ℤ) → Result (Unit {0})
check_scores [] scores = ok tt
check_scores (d ∷ ds) scores = elim (check_score d (score_of (key_of d) scores)) [
  | err e ↦ err e
  | ok _ ↦ check_scores ds scores
]

-- `!text?.trim()`
abbrev pub is_blank : (String → String) → Option String → Bool
is_blank normalize none = true
is_blank normalize (some s) = str_eq (normalize s) ""

-- `validateReviewForSubmit`
unfoldable pub validate_review :
    (String → String) → ReviewContent → ReviewConfig → Result (Unit {0})
validate_review normalize content config =
    if not (is_some content.recommendation)
    then err (bad_request "Recommendation is required")
    else if is_blank normalize content.comments_to_authors
    then err (bad_request "Comments to authors are required")
    else if config.require_confidence && not (is_some content.confidence)
    then err (bad_request "Confidence score is required")
    else check_scores config.score_dimensions content.scores

-- The columns become what the owner sees.
unfoldable pub published_review : ℕ → ReviewContent → Review → Review
published_review now content r = record r {
  content = content;
  pending_edit = none;
  submitted_at = some now;
  version = r.version + 1;
}

abbrev pub completed_assignment : Assignment → Assignment
completed_assignment a = record a { status = completed }

-- The transaction of `submitReview`.
unfoldable pub submit_in_transaction :
    (String → String) → ℕ → ℕ → ℕ → Assignment → Review → ℕ → Action Db Review
submit_in_transaction normalize now user conference_id a r version = transaction (do
  checked ← gets (check_open normalize user conference_id a)
  lift checked
  updated ←
      rewrite_review r.id conference_id user version (published_review now (visible_to_owner r))
  modify (λ db. record db {
    assignments =
        update_where (λ (x : Assignment). x.id == a.id) completed_assignment db.assignments;
  })
  pure updated)

-- The mail of thanks, where the reviewer has an address.
unfoldable pub thank : ℕ → ℕ → Action Db (Unit {0})
thank user review_id db = elim (find (λ (u : User). u.id == user) db.users) [
  | none ↦ (ok tt, db)
  | some u ↦
      when (not (str_eq u.email ""))
        (publish
          (record { template = "review.thank_you"; recipient = u.email; subject_id = review_id }))
        db
]

unfoldable pub submit_review :
    (String → String) → ℕ → ℕ → ℕ → ℕ → ℕ → List RoleKind → Action Db Review
submit_review normalize now user conference_id assignment_id version roles = do
  c ← load_conference conference_id
  l ←
      editable (forbidden "Only the assigned reviewer may submit this review") user conference_id
        assignment_id roles
  r ← or_raise l.review (bad_request "Save a review draft before submitting")
  raise_if (not (version == r.version)) review_conflict
  lift (validate_review normalize (visible_to_owner r) c.review_config)
  submitted ← submit_in_transaction normalize now user conference_id l.assignment r version
  log_audit (some user) "review.submitted" submitted.id
  thank user submitted.id
  pure submitted
