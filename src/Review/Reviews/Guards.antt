-- ===== src/Review/Reviews/Guards.antt =====
-- What the guards of `saveReview` and `submitReview` let pass.
use mathlib.Core.Path.{subst}
use open_conferences.Shared.{
  ==-sound, ℕ, String, ◌≡◌, refl, sym, inl, inr, true, false, some, List, arith, ◌==◌, Option-cases,
  find, Exception, ok, err, Result-cases,
}
use open_conferences.Store.{Db}
use open_conferences.Review.Reviews.{
  is_inactive, Loaded, review_of, load_assignment, editable, is_decided_cycle, has_conflict,
  is_active_now, check_open, is_review_at, rewrite_review,
}
use open_conferences.Review.Reviews.Editing.{}
use open_conferences.Review.Rounds.{load_round}
use open_conferences.Store.Rows.{ReviewRound, Review, Assignment, Paper, RoleKind}
use open_conferences.Store.Tables.{count_where, update_where}
use open_conferences.Submission.Queries.{is_closed}
use open_conferences.Tenancy.Conferences.{load_conference}

pub rewrite_review_ok :
    (id conference_id user version : ℕ) (f : Review → Review) (db : Db) (r : Review)
    → (rewrite_review id conference_id user version f db).0 ≡ ok r
    → (count_where (is_review_at id conference_id user version) db.reviews ≡ 1)
      × (find
            (λ (x : Review). x.id == id)
            (update_where (is_review_at id conference_id user version) f db.reviews)
          ≡ some r)
      × ((rewrite_review id conference_id user version f db).1 ≡ record db {
        reviews = update_where (is_review_at id conference_id user version) f db.reviews;
      })
unfolding rewrite_review
rewrite_review_ok id conference_id user version f db r h =
    (ground arith, ground arith, ground arith)

-- What a write to a review has passed under the lock of the round.
pub record IsOpen (normalize : String → String) (user conference_id : ℕ) (a : Assignment) (db : Db)
    : Type 0 where
  pub active : is_active_now conference_id a.id db ≡ true
  pub undecided : is_decided_cycle conference_id a.round_id db ≡ false
  pub no_conflict : has_conflict normalize user a.paper_id conference_id db ≡ false

pub check_open_ok :
    (normalize : String → String) (user conference_id : ℕ) (a : Assignment) (db : Db)
    → check_open normalize user conference_id a db ≡ ok tt
    → IsOpen normalize user conference_id a db
unfolding check_open
check_open_ok normalize user conference_id a db h = record {
  active = ground arith;
  undecided = ground arith;
  no_conflict = ground arith;
}

pub check_open_locked :
    (normalize : String → String) (user conference_id : ℕ) (a : Assignment) (db : Db)
    → is_decided_cycle conference_id a.round_id db ≡ true
    → (e : Exception) × (check_open normalize user conference_id a db ≡ err e)
unfolding check_open
check_open_locked normalize user conference_id a db decided =
    elim (Result-cases (check_open normalize user conference_id a db)) [
      | inl refused ↦ refused
      | inr (tt, passed) ↦ absurd (
          let open_now = check_open_ok normalize user conference_id a db passed in
          ground (arith, open_now.undecided))
    ]

pub load_round-reads :
    (conference_id round_id : ℕ) (db : Db) → (load_round conference_id round_id db).1 ≡ db
unfolding load_round load_conference
load_round-reads conference_id round_id db = ground arith

-- The round that is loaded is the stored one with its id, and is of the conference.
pub load_round_ok :
    (conference_id round_id : ℕ) (db : Db) (r : ReviewRound)
    → (load_round conference_id round_id db).0 ≡ ok r
    → (find (λ (x : ReviewRound). x.id == round_id) db.rounds ≡ some r)
      × (r.conference_id ≡ conference_id)
unfolding load_round load_conference
load_round_ok conference_id round_id db r h =
    (ground arith, ==-sound r.conference_id conference_id (ground arith))

module _ (user conference_id assignment_id : ℕ) (roles : List RoleKind) where
  pub load_assignment-reads :
      (db : Db) → (load_assignment user conference_id assignment_id roles db).1 ≡ db
  unfolding load_assignment load_conference
  load_assignment-reads db = ground arith

  -- The rows of an assignment.
  pub record IsLoaded (l : Loaded) (db : Db) : Type 0 where
    pub assignment_found :
        find (λ (a : Assignment). a.id == assignment_id) db.assignments ≡ some l.assignment
    pub paper_found : find (λ (p : Paper). p.id == l.assignment.paper_id) db.papers ≡ some l.paper
    pub review_found : review_of assignment_id db.reviews ≡ l.review

  pub load_assignment_ok :
      (db : Db) (l : Loaded)
      → (load_assignment user conference_id assignment_id roles db).0 ≡ ok l
      → IsLoaded l db
  unfolding load_assignment load_conference
  load_assignment_ok db l h =
      elim (Option-cases (find (λ (a : Assignment). a.id == assignment_id) db.assignments)) [
        | inl gone ↦ absurd (ground arith)
        | inr (a, found) ↦
            elim (Option-cases (find (λ (p : Paper). p.id == a.paper_id) db.papers)) [
              | inl gone ↦ absurd (ground arith)
              | inr (p, held) ↦
                  let same : l ≡ record {
                    assignment = a;
                    review = review_of assignment_id db.reviews;
                    paper = p;
                  } =
                    ground arith in
                  subst (λ x. IsLoaded x db) (sym same)
                    (record { assignment_found = found; paper_found = held; review_found = refl })
            ]
      ]

  pub editable-reads :
      (denied : Exception) (db : Db)
      → (editable denied user conference_id assignment_id roles db).1 ≡ db
  unfolding editable load_conference
  editable-reads denied db =
      elim (Result-cases (load_assignment user conference_id assignment_id roles db).0) [
        | inl (e, refused) ↦ ground (arith, load_assignment-reads db)
        | inr (l, loaded) ↦ ground (
          arith,
          load_assignment-reads db,
          load_round-reads conference_id l.assignment.round_id db,
        )
      ]

  pub editable_ok :
      (denied : Exception) (db : Db) (l : Loaded)
      → (editable denied user conference_id assignment_id roles db).0 ≡ ok l
      → IsLoaded l db
        × (l.assignment.reviewer_user_id ≡ user)
        × (is_inactive l.assignment.status ≡ false)
        × (is_closed l.paper.status ≡ false)
  unfolding editable load_conference
  editable_ok denied db l h =
      elim (Result-cases (load_assignment user conference_id assignment_id roles db).0) [
        | inl (e, refused) ↦ absurd (ground arith)
        | inr (k, loaded) ↦
            let read = load_assignment-reads db in
            let same : l ≡ k =
              ground (arith, load_round-reads conference_id k.assignment.round_id db) in
            (
              subst (λ x. IsLoaded x db) (sym same) (load_assignment_ok db k loaded),
              ground arith,
              ground arith,
              ground arith,
            )
      ]
