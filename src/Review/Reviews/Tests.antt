-- ===== src/Review/Reviews/Tests.antt =====
-- The theorems on reviews, applied to one review of one paper.
use open_conferences.Samples.{conference_db, call, review, opinion, acceptance}
use open_conferences.Shared.{
  ℕ, ◌≤◌, String, ◌≡◌, refl, ◌≢◌, ◌⊎◌, true, false, not, ◌&&◌, none, some, [], ◌∷◌, arith, ◌==◌,
  find, All, ok,
}
use open_conferences.Store.{Db}
use open_conferences.Review.Conflicts.{check_conflict, is_author_of}
use open_conferences.Review.Reviews.{
  check_open, editable, load_assignment, rewrite_review, visible_to_owner, review_of,
}
use open_conferences.Review.Reviews.Editing.{
  save_in_transaction, write_draft, edited_review, check_scores, submit_in_transaction, thank,
  validate_review, SaveInput, save_review, submit_review, published_review,
}
use open_conferences.Review.Reviews.Listing.{IsOfPaper, list_reviews_for_paper_ok}
use open_conferences.Review.Reviews.Published.{submitted_reviews, has_id}
use open_conferences.Review.Reviews.Release.{list_reviews_for_paper}
use open_conferences.Review.Reviews.Saving.{submitted_reviews-save_review, save_then_submit}
use open_conferences.Review.Reviews.Scores.{submit_review-plain_name}
use open_conferences.Review.Rounds.{load_round}
use open_conferences.Store.Rows.{Review, Paper, reviewer, chair, author, Recommendation, plain_name}
use open_conferences.Store.Tables.{count_where}
use open_conferences.Tenancy.Conferences.{load_conference}
use open_conferences.Tenancy.Roles.{includes, can_coordinate_review}

abbrev as_is : String → String
as_is s = s

-- A draft of the review is stored.
abbrev drafting_db : Db
drafting_db = record conference_db { reviews = record review { submitted_at = none } ∷ [] }

-- The review was submitted.
abbrev reviewed_db : Db
reviewed_db = record conference_db { reviews = review ∷ [] }

abbrev decided_db : Db
decided_db = record reviewed_db { decisions = acceptance ∷ [] }

abbrev second_opinion : SaveInput
second_opinion = record {
  content = record opinion { recommendation = some Recommendation.reject };
  version = 2;
}

one_id : (k : ℕ) → count_where (has_id k) reviewed_db.reviews ≤ 1
one_id k = ground arith

submitted_reviews-save_review_example :
    submitted_reviews
      (save_review as_is 90 21 1 40 second_opinion (reviewer ∷ []) reviewed_db).1.reviews
    ≡ submitted_reviews reviewed_db.reviews
submitted_reviews-save_review_example =
    submitted_reviews-save_review as_is 90 21 1 40 second_opinion (reviewer ∷ []) reviewed_db one_id

abbrev kept_aside : Review
kept_aside = record review { pending_edit = some second_opinion.content; version = 3 }

save_then_submit_example :
    (r : Review) × (review_of 40
        (submit_review as_is 150 21 1 40 3
          (reviewer ∷ [])
          (save_review as_is 90 21 1 40 second_opinion (reviewer ∷ []) reviewed_db).1).1.reviews
      ≡ some r)
    × (r.content ≡ second_opinion.content)
    × (r.submitted_at ≡ some 150)
    × (r.pending_edit ≡ none)
unfolding save_review save_in_transaction write_draft edited_review submit_review load_conference
    editable load_assignment includes load_round validate_review visible_to_owner check_scores
    submit_in_transaction check_open check_conflict rewrite_review published_review thank
save_then_submit_example =
    save_then_submit as_is 90 21 1 40 second_opinion (reviewer ∷ []) 150 reviewed_db kept_aside
      (published_review 150 second_opinion.content kept_aside) one_id refl refl

-- The configuration that conferences get by default.
abbrev plain_db : Db
plain_db = record drafting_db {
  conferences =
      record call {
        review_config = record {
          score_dimensions = plain_name "clarity" ∷ [];
          require_confidence = false;
        };
      }
      ∷ [];
}

submit_review-plain_name_example :
    (submit_review as_is 140 21 1 40 2 (reviewer ∷ []) plain_db).0
    ≢ ok (published_review 140 opinion review)
unfolding visible_to_owner
submit_review-plain_name_example =
    submit_review-plain_name 21 1 40 (reviewer ∷ []) as_is 140 2 plain_db
      (record call {
        review_config = record {
          score_dimensions = plain_name "clarity" ∷ [];
          require_confidence = false;
        };
      })
      (record review { submitted_at = none }) (published_review 140 opinion review) refl refl refl
      refl

list_reviews_for_paper_ok_example :
    (p : Paper) × (find (λ (q : Paper). q.id == 6 && q.conference_id == 1) reviewed_db.papers
      ≡ some p)
    × All (IsOfPaper 1 6 none (not (is_author_of 20 p)) reviewed_db.reviews) []
    × (((is_author_of 20 p ≡ true) × (false ≡ false))
        ⊎ ((is_author_of 20 p ≡ false) × (can_coordinate_review (author ∷ chair ∷ []) ≡ true)))
unfolding list_reviews_for_paper load_conference can_coordinate_review
list_reviews_for_paper_ok_example =
    list_reviews_for_paper_ok 20 1 6 none (author ∷ chair ∷ []) reviewed_db
      (record { rows = []; names_reviewers = false }) refl
