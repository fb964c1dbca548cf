-- ===== src/Review/Reviews/Drafts.antt =====
-- What a write of a draft leaves: the row that is read back, and the submitted reviews.
use open_conferences.Shared.{
  ==-refl, ==-sound, ℕ, ◌≤◌, ◌≡◌, refl, sym, ap, ◌∙◌, inl, inr, Bool, true, false, none, some, List,
  [], ◌∷◌, arith, ◌==◌, is_some, Option-cases, find, All, ok,
}
use open_conferences.Store.{Db}
use open_conferences.Review.Reviews.{visible_to_owner, review_of, is_review_at, rewrite_review}
use open_conferences.Review.Reviews.Editing.{edited_review, new_review, first_draft}
use open_conferences.Review.Reviews.Guards.{rewrite_review_ok}
use open_conferences.Review.Reviews.Published.{
  submitted_reviews, has_id, OnlyRow, only_row, update-public, written_row, insert-public,
}
use open_conferences.Store.Rows.{Review, ReviewContent, Assignment}
use open_conferences.Store.Tables.{count_where, update_where, insert_row}
use open_conferences.Store.Tables.Laws.{find-update_where}

-- What a write of a draft leaves.
pub record Saved (user conference_id assignment_id : ℕ) (content : ReviewContent)
    (before after : List Review) (saved : Review) : Type 0 where
  pub submitted_kept : submitted_reviews after ≡ submitted_reviews before
  pub stored : review_of assignment_id after ≡ some saved
  pub shown_to_owner : visible_to_owner saved ≡ content
  pub in_conference : saved.conference_id ≡ conference_id
  pub by_user : saved.reviewer_user_id ≡ user

edited_shown :
    (content : ReviewContent) (r : Review)
    → visible_to_owner (edited_review (is_some r.submitted_at) content r) ≡ content
unfolding visible_to_owner edited_review
edited_shown content r = elim (Option-cases r.submitted_at) [
  | inl unsubmitted ↦ ground arith
  | inr (at, submitted) ↦ ground arith
]

edited_keeps :
    (b : Bool) (content : ReviewContent) (r : Review)
    → ((edited_review b content r).conference_id ≡ r.conference_id)
      × ((edited_review b content r).reviewer_user_id ≡ r.reviewer_user_id)
      × ((edited_review b content r).assignment_id ≡ r.assignment_id)
      × ((edited_review b content r).id ≡ r.id)
unfolding edited_review
edited_keeps true content r = (refl, refl, refl, refl)
edited_keeps false content r = (refl, refl, refl, refl)

find_insert :
    (q : Review → Bool) (new : Review) (rs : List Review)
    → find q rs ≡ none
    → q new ≡ true
    → find q (insert_row new rs) ≡ some new
find_insert q new [] gone new_fits = ground arith
find_insert q new (x ∷ xs) gone new_fits = ground (arith, find_insert q new xs)

-- The row that is read back is the one that was written.
read_back :
    (at : Review → Bool) (f : Review → Review) (r saved : Review) (rs : List Review)
    → ((x : Review) → has_id r.id (f x) ≡ has_id r.id x)
    → All (OnlyRow r) rs
    → at r ≡ true
    → find (has_id r.id) (update_where at f rs) ≡ some saved
    → saved ≡ f r
read_back at f r saved [] keep only hit h = cc
read_back at f r saved (x ∷ xs) keep (inl same, there) hit h =
    let first : find (has_id r.id) (update_where at f (x ∷ xs)) ≡ some (f r) =
      rw (same, hit, keep r, ==-refl r.id) in
    ground (arith, first)
read_back at f r saved (x ∷ xs) keep (inr other, there) hit h =
    let kept = keep x in
    let skipped : find (has_id r.id) (update_where at f xs) ≡ some saved = ground (arith, kept) in
    read_back at f r saved xs keep there hit skipped

module _ (id user conference_id : ℕ) (a : Assignment) (content : ReviewContent) where
  pub first_draft_ok :
      (db : Db) (saved : Review)
      → review_of a.id db.reviews ≡ none
      → (first_draft id user conference_id a content db).0 ≡ ok saved
      → Saved user conference_id a.id content db.reviews
          (first_draft id user conference_id a content db).1.reviews
          saved
  unfolding first_draft new_review visible_to_owner
  first_draft_ok db saved gone h =
      let new = new_review id user conference_id a content in
      let same : saved ≡ new = ground arith in
      let after : (first_draft id user conference_id a content db).1.reviews
          ≡ insert_row new db.reviews =
        ground arith in
      record {
        submitted_kept = ap submitted_reviews after ∙ insert-public new db.reviews refl;
        stored =
            ap (review_of a.id) after
            ∙ find_insert (λ r. r.assignment_id == a.id) new db.reviews gone (==-refl a.id)
            ∙ ap some (sym same);
        shown_to_owner = rw same;
        in_conference = rw same;
        by_user = rw same;
      }

  pub rewrite_draft_ok :
      (version : ℕ) (db : Db) (r saved : Review)
      → count_where (has_id r.id) db.reviews ≤ 1
      → review_of a.id db.reviews ≡ some r
      → (rewrite_review r.id conference_id user version
          (edited_review (is_some r.submitted_at) content)
          db).0
        ≡ ok saved
      → Saved user conference_id a.id content db.reviews
          (rewrite_review r.id conference_id user version
            (edited_review (is_some r.submitted_at) content)
            db).1.reviews
          saved
  rewrite_draft_ok version db r saved distinct found h =
      let at = is_review_at r.id conference_id user version in
      let f = edited_review (is_some r.submitted_at) content in
      let kept_id : (x : Review) → has_id r.id (f x) ≡ has_id r.id x =
        λ x. ap (λ n. n == r.id) (edited_keeps (is_some r.submitted_at) content x).3 in
      let kept_assignment : (x : Review)
          → ((f x).assignment_id == a.id) ≡ (x.assignment_id == a.id) =
        λ x. ap (λ n. n == a.id) (edited_keeps (is_some r.submitted_at) content x).2 in
      let (one, back, after) = rewrite_review_ok r.id conference_id user version f db saved h in
      let only = only_row (λ x. x.assignment_id == a.id) r db.reviews found distinct in
      let hit : at r ≡ true =
        written_row conference_id user version content r db.reviews only (omega (arith, one)) in
      let same : saved ≡ f r = read_back at f r saved db.reviews (λ x. kept_id x) only hit back in
      let reviews : (rewrite_review r.id conference_id user version f db).1.reviews
          ≡ update_where at f db.reviews =
        ap (λ d. d.reviews) after in
      let (conf, by, assigned, ids) = edited_keeps (is_some r.submitted_at) content r in
      record {
        submitted_kept =
            ap submitted_reviews reviews
            ∙ update-public conference_id user version content r db.reviews only;
        stored =
            ap (review_of a.id) reviews
            ∙ (find-update_where at f (λ x. x.assignment_id == a.id) db.reviews kept_assignment
                ∙ rw (found, hit) (ap some (sym same)));
        shown_to_owner = ap visible_to_owner same ∙ edited_shown content r;
        in_conference =
            ap (λ x. x.conference_id) same
            ∙ conf
            ∙ ==-sound r.conference_id conference_id (ground arith);
        by_user =
            ap (λ x. x.reviewer_user_id) same
            ∙ by
            ∙ ==-sound r.reviewer_user_id user (ground arith);
      }
