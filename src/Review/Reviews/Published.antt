-- ===== src/Review/Reviews/Published.antt =====
-- The reviews that were submitted, as their columns have them, and what a save does to them.
use mathlib.Core.Path.{subst}
use open_conferences.Shared.{
  ==-refl, ℕ, ◌≤◌, ◌<◌, ◌≡◌, refl, ◌⊎◌, inl, inr, Bool, true, false, Option, none, some, List, [],
  ◌∷◌, arith, ◌==◌, if◌then◌else◌, is_some, Bool-cases, Option-cases, find, All,
}
use open_conferences.Review.Reviews.{is_review_at}
use open_conferences.Review.Reviews.Editing.{edited_review}
use open_conferences.Review.Reviews.Guards.{}
use open_conferences.Store.Rows.{Review, ReviewContent}
use open_conferences.Store.Tables.{count_where, update_where, insert_row}

-- A review as it was submitted.
pub record SubmittedReview : Type 0 where
  pub id : ℕ
  pub round_id : ℕ
  pub paper_id : ℕ
  pub reviewer_user_id : ℕ
  pub content : ReviewContent
  pub author_visible : Bool
  pub submitted_at : Option ℕ

abbrev pub submitted_review : Review → SubmittedReview
submitted_review r = record {
  id = r.id;
  round_id = r.round_id;
  paper_id = r.paper_id;
  reviewer_user_id = r.reviewer_user_id;
  content = r.content;
  author_visible = r.author_visible;
  submitted_at = r.submitted_at;
}

-- The abstract state: the reviews that were submitted, without first drafts, which coordinators
-- may list too, and without the edits that are kept aside.
unfoldable pub submitted_reviews : List Review → List SubmittedReview
submitted_reviews [] = []
submitted_reviews (r ∷ rs) =
    let rest = submitted_reviews rs in
    if is_some r.submitted_at then submitted_review r ∷ rest else rest

abbrev pub has_id : ℕ → Review → Bool
has_id k r = r.id == k

-- The row is `r`, or has another id.
abbrev pub OnlyRow : Review → Review → Type 0
OnlyRow r x = (x ≡ r) ⊎ (has_id r.id x ≡ false)

none_has_id :
    (r : Review) (rs : List Review) → count_where (has_id r.id) rs ≡ 0 → All (OnlyRow r) rs
none_has_id r [] h = tt
none_has_id r (x ∷ xs) h = elim (Bool-cases (has_id r.id x)) [
  | inl same ↦ absurd (ground arith)
  | inr other ↦ (inr other, none_has_id r xs (ground arith))
]

found_has_id :
    (q : Review → Bool) (r : Review) (rs : List Review)
    → find q rs ≡ some r
    → 0 < count_where (has_id r.id) rs
found_has_id q r [] h = cc
found_has_id q r (x ∷ xs) h = elim (Bool-cases (q x)) [
  | inl hit ↦ let same : x ≡ r = ground arith in rw same (ground (arith, ==-refl r.id))
  | inr miss ↦ let rest = found_has_id q r xs (ground arith) in ground arith
]

pub only_row :
    (q : Review → Bool) (r : Review) (rs : List Review)
    → find q rs ≡ some r
    → count_where (has_id r.id) rs ≤ 1
    → All (OnlyRow r) rs
only_row q r [] h one = tt
only_row q r (x ∷ xs) h one = elim (Bool-cases (q x)) [
  | inl hit ↦
      let same : x ≡ r = ground arith in
      let here : has_id r.id x ≡ true = rw same (==-refl r.id) in
      (inl same, none_has_id r xs (ground arith))
  | inr miss ↦
      let found : find q xs ≡ some r = ground arith in
      let some_there = found_has_id q r xs found in
      (inr ground arith, only_row q r xs found (ground arith))
]

edited_public :
    (content : ReviewContent) (r : Review) (rest : List Review)
    → submitted_reviews (edited_review (is_some r.submitted_at) content r ∷ rest)
      ≡ submitted_reviews (r ∷ rest)
unfolding submitted_reviews edited_review
edited_public content r rest = elim (Option-cases r.submitted_at) [
  | inl unsubmitted ↦ ground arith
  | inr (at, submitted) ↦ ground arith
]

module _ (conference_id user version : ℕ) (content : ReviewContent) (r : Review) where
  abbrev written : Review → Bool
  written = is_review_at r.id conference_id user version

  abbrev edit_of : Review → Review
  edit_of = edited_review (is_some r.submitted_at) content

  pub update-public :
      (rs : List Review)
      → All (OnlyRow r) rs
      → submitted_reviews (update_where written edit_of rs) ≡ submitted_reviews rs
  unfolding submitted_reviews
  update-public [] only = refl
  update-public (x ∷ xs) (here, there) = elim (Bool-cases (written x)) [
    | inr untouched ↦ ground (arith, update-public xs there)
    | inl touched ↦ elim here [
      | inr other ↦ absurd (ground arith)
      | inl same ↦
          let tail = update-public xs there in
          let edited = edited_public content r (update_where written edit_of xs) in
          rw same (ground (arith, tail, edited))
    ]
  ]

  -- The row that was written is the one.
  pub written_row :
      (rs : List Review) → All (OnlyRow r) rs → 0 < count_where written rs → written r ≡ true
  written_row [] only h = absurd (omega arith)
  written_row (x ∷ xs) (here, there) h = elim (Bool-cases (written x)) [
    | inr untouched ↦ written_row xs there (ground arith)
    | inl touched ↦ elim here [
      | inr other ↦ absurd (ground arith)
      | inl same ↦ subst (λ y. written y ≡ true) same touched
    ]
  ]

pub insert-public :
    (new : Review) (rs : List Review)
    → new.submitted_at ≡ none
    → submitted_reviews (insert_row new rs) ≡ submitted_reviews rs
unfolding submitted_reviews
insert-public new [] h = ground arith
insert-public new (x ∷ xs) h = ground (arith, insert-public new xs h)
