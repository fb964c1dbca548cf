-- ===== src/Review/Reviews/Listing.antt =====
-- Who reads which reviews.
use mathlib.Core.Path.{subst}
use open_conferences.Shared.{
  ==-sound, ℕ, ◌≡◌, sym, ap, ◌∙◌, ◌⊎◌, inl, inr, Bool, true, false, not, ◌&&◌, Option, some, List,
  arith, ◌==◌, Bool-cases, Option-cases, find, filter_by, All, ok,
}
use open_conferences.Store.{Db}
use open_conferences.Review.Conflicts.{is_author_of}
use open_conferences.Review.Reviews.Release.{
  ReviewList, is_listed, in_round, reads_as_committee, list_reviews_for_paper,
}
use open_conferences.Shared.Membership.{Mem, filter_by-Mem, All-map}
use open_conferences.Store.Rows.{Review, Paper, RoleKind}
use open_conferences.Tenancy.Conferences.{load_conference}
use open_conferences.Tenancy.Roles.{can_coordinate_review}

-- A stored review of the paper in the conference, of the cycle where one is asked for, and one that
-- was released to the authors unless all may be read.
pub record IsOfPaper (conference_id paper_id : ℕ) (round_id : Option ℕ) (reads_all : Bool)
    (rows : List Review) (r : Review) : Type 0 where
  pub is_stored : Mem r rows
  pub of_paper : r.paper_id ≡ paper_id
  pub of_conference : r.conference_id ≡ conference_id
  pub of_round : (k : ℕ) → round_id ≡ some k → r.round_id ≡ k
  pub released : reads_all ≡ false → r.author_visible ≡ true

in_round-same :
    (round_id : Option ℕ) (r : Review) (k : ℕ)
    → in_round round_id r ≡ true
    → round_id ≡ some k
    → r.round_id ≡ k
in_round-same round_id r k h e = ==-sound r.round_id k (ground arith)

listed-IsOfPaper :
    (conference_id paper_id : ℕ) (round_id : Option ℕ) (reads_all : Bool) (rs : List Review)
    → All
        (IsOfPaper conference_id paper_id round_id reads_all rs)
        (filter_by (is_listed conference_id paper_id round_id reads_all) rs)
listed-IsOfPaper conference_id paper_id round_id reads_all rs =
    let listed = is_listed conference_id paper_id round_id reads_all in
    All-map (λ r. Mem r rs × (listed r ≡ true))
      (IsOfPaper conference_id paper_id round_id reads_all rs) (filter_by listed rs)
      (λ r (m, passes). record {
        is_stored = m;
        of_paper = ==-sound r.paper_id paper_id (ground arith);
        of_conference = ==-sound r.conference_id conference_id (ground arith);
        of_round = λ k e. in_round-same round_id r k (ground arith) e;
        released = λ not_all. ground arith;
      })
      (filter_by-Mem listed rs rs (λ x m. m))

-- Whoever is given reviews is an author of the paper or coordinates the review. The reviews are
-- stored ones of that paper in that conference, and of the cycle where one is asked for. An author
-- of the paper, whatever roles they have, is given only reviews that were released, without the
-- names of the reviewers.
pub list_reviews_for_paper_ok :
    (user conference_id paper_id : ℕ) (round_id : Option ℕ) (roles : List RoleKind) (db : Db)
    (l : ReviewList)
    → (list_reviews_for_paper user conference_id paper_id round_id roles db).0 ≡ ok l
    → (p : Paper) × (find
          (λ (q : Paper). q.id == paper_id && q.conference_id == conference_id)
          db.papers
        ≡ some p)
      × All
          (IsOfPaper conference_id paper_id round_id (not (is_author_of user p)) db.reviews)
          l.rows
      × (((is_author_of user p ≡ true) × (l.names_reviewers ≡ false))
          ⊎ ((is_author_of user p ≡ false) × (can_coordinate_review roles ≡ true)))
unfolding list_reviews_for_paper load_conference
list_reviews_for_paper_ok user conference_id paper_id round_id roles db l h =
    elim (Option-cases
      (find (λ (q : Paper). q.id == paper_id && q.conference_id == conference_id) db.papers)) [
        | inl gone ↦ absurd (ground arith)
        | inr (p, found) ↦
            let reads_all = not (is_author_of user p) in
            let own : reads_as_committee user roles p ≡ reads_all =
              elim (Bool-cases (is_author_of user p)) [
                | inl author ↦ ground arith
                | inr other ↦ ground arith
              ] in
            let rows : l.rows
                ≡ filter_by (is_listed conference_id paper_id round_id reads_all) db.reviews =
              rows_read p found
              ∙ ap (λ b. filter_by (is_listed conference_id paper_id round_id b) db.reviews) own in
            (
              p,
              found,
              subst (λ rs. All (IsOfPaper conference_id paper_id round_id reads_all db.reviews) rs)
                  (sym rows)
                  (listed-IsOfPaper conference_id paper_id round_id reads_all db.reviews),
              elim (Bool-cases (is_author_of user p)) [
                | inl author ↦ inl (author, ground arith)
                | inr other ↦ inr (other, ground arith)
              ],
            )
      ]
  where
    rows_read :
        (p : Paper)
        → find (λ (q : Paper). q.id == paper_id && q.conference_id == conference_id) db.papers
          ≡ some p
        → l.rows
          ≡ filter_by
              (is_listed conference_id paper_id round_id (reads_as_committee user roles p))
              db.reviews
    rows_read p found = ground arith
