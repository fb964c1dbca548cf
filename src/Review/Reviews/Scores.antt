-- ===== src/Review/Reviews/Scores.antt =====
-- What the validation of a review asks of its scores.
use open_conferences.Shared.{
  ℕ, String, ◌≡◌, sym, ap, ◌∙◌, ◌≢◌, ◌⊎◌, inl, inr, Bool, true, false, none, some, List, [], ◌∷◌,
  arith, is_some, Option-cases, any, find, All, ok,
}
use open_conferences.Store.{Db}
use open_conferences.Review.Reviews.{visible_to_owner, review_of}
use open_conferences.Review.Reviews.Editing.{
  score_of, key_of, range_of, check_scores, is_blank, validate_review, submit_review,
}
use open_conferences.Review.Reviews.Outcomes.{submit_review_ok}
use open_conferences.Shared.Int.{ℤ, ltb_ℤ}
use open_conferences.Store.Rows.{
  Review, ReviewContent, ReviewConfig, ScoreDimension, plain_name, dimension, RoleKind, Conference,
}
use open_conferences.Tenancy.Conferences.{is_live}

-- The score of a dimension is given and lies in its range.
pub record InRange (scores : List (String × ℤ)) (d : ScoreDimension) : Type 0 where
  pub score : ℤ
  pub given : score_of (key_of d) scores ≡ some score
  pub not_below : ltb_ℤ score (range_of d).0 ≡ false
  pub not_above : ltb_ℤ (range_of d).1 score ≡ false

check_scores_ok :
    (ds : List ScoreDimension) (scores : List (String × ℤ))
    → check_scores ds scores ≡ ok tt
    → All (InRange scores) ds
unfolding check_scores
check_scores_ok [] scores h = tt
check_scores_ok (d ∷ ds) scores h = elim (Option-cases (score_of (key_of d) scores)) [
  | inl missing ↦ absurd (ground arith)
  | inr (score, found) ↦ (
    record { score = score; given = found; not_below = ground arith; not_above = ground arith },
    check_scores_ok ds scores (ground arith),
  )
]

-- A review passes the validation only with a recommendation, a comment to the authors that is not
-- blank, a confidence where one is required, and a score in range for every dimension.
pub validate_review_ok :
    (normalize : String → String) (content : ReviewContent) (config : ReviewConfig)
    → validate_review normalize content config ≡ ok tt
    → (is_some content.recommendation ≡ true)
      × (is_blank normalize content.comments_to_authors ≡ false)
      × ((config.require_confidence ≡ false) ⊎ (is_some content.confidence ≡ true))
      × All (InRange content.scores) config.score_dimensions
unfolding validate_review
validate_review_ok normalize content config h = (
  ground arith,
  ground arith,
  ground arith,
  check_scores_ok config.score_dimensions content.scores (ground arith),
)

abbrev pub is_plain : ScoreDimension → Bool
is_plain (plain_name name) = true
is_plain (dimension key low high) = false

no_plain-InRange :
    (ds : List ScoreDimension) (scores : List (String × ℤ))
    → score_of "undefined" scores ≡ none
    → any is_plain ds ≡ true
    → ¬ (All (InRange scores) ds)
no_plain-InRange [] scores missing h all = absurd (ground arith)
no_plain-InRange (plain_name name ∷ ds) scores missing h (here, there) =
    absurd (ground (arith, here.given))
no_plain-InRange (dimension key low high ∷ ds) scores missing h (here, there) =
    no_plain-InRange ds scores missing (ground arith) there

-- In a conference whose review configuration names a dimension by a plain text, as the schema
-- of conferences has them, no review of an assignment can be submitted by anybody, unless it has a
-- score with the key "undefined".
pub submit_review-plain_name :
    (user conference_id assignment_id : ℕ) (roles : List RoleKind) (normalize : String → String)
    (now version : ℕ) (db : Db) (c : Conference) (r submitted : Review)
    → find (is_live conference_id) db.conferences ≡ some c
    → any is_plain c.review_config.score_dimensions ≡ true
    → review_of assignment_id db.reviews ≡ some r
    → score_of "undefined" (visible_to_owner r).scores ≡ none
    → (submit_review normalize now user conference_id assignment_id version roles db).0
      ≢ ok submitted
submit_review-plain_name user conference_id assignment_id roles normalize now version db c r
      submitted live plain held missing h =
    let s =
      submit_review_ok user conference_id assignment_id roles normalize now version db submitted
        h in
    let same_conference : c ≡ s.conference = ground (arith, s.conference_found) in
    let same_review : r ≡ s.draft_review = ground (arith, s.review_found) in
    let (rec, comment, conf, scores) =
      validate_review_ok normalize (visible_to_owner s.draft_review) s.conference.review_config
        s.is_complete in
    no_plain-InRange s.conference.review_config.score_dimensions
      (visible_to_owner s.draft_review).scores
      (ap (λ x. score_of "undefined" (visible_to_owner x).scores) (sym same_review) ∙ missing)
      (ap (λ x. any is_plain x.review_config.score_dimensions) (sym same_conference) ∙ plain) scores
