-- ===== src/Review/Reviews/Outcomes.antt =====
-- What it takes to submit a review, and that a decision locks it.
use mathlib.Core.Path.{subst}
use open_conferences.Shared.{
  ℕ, String, ◌≡◌, inl, inr, true, false, Option, some, List, arith, ◌==◌, Option-cases, find,
  Exception, bad_request, forbidden, not_found, ok, err, Action, Result-cases,
}
use open_conferences.Store.{Db, log_audit}
use open_conferences.Review.Reviews.{
  visible_to_owner, review_of, editable, is_decided_cycle, check_open, is_review_at, rewrite_review,
}
use open_conferences.Review.Reviews.Editing.{
  SaveInput, save_in_transaction, save_review, validate_review, published_review,
  completed_assignment, submit_in_transaction, thank, submit_review,
}
use open_conferences.Review.Reviews.Guards.{
  rewrite_review_ok, IsOpen, check_open_ok, check_open_locked, editable-reads, editable_ok,
}
use open_conferences.Store.Rows.{Review, Assignment, Paper, RoleKind, Conference}
use open_conferences.Store.Tables.{count_where, update_where}
use open_conferences.Submission.Queries.{is_closed}
use open_conferences.Tenancy.Conferences.{load_conference, is_live}

-- The request throws and leaves the database as it is.
abbrev pub IsRefused : {A : Type 0} → Action Db A → Db → Type 0
IsRefused request db = (e : Exception) × ((request db).0 ≡ err e) × ((request db).1 ≡ db)

abbrev pub may_edit : Exception
may_edit = forbidden "Only the assigned reviewer may edit this review"

abbrev pub may_submit : Exception
may_submit = forbidden "Only the assigned reviewer may submit this review"

module _ (user conference_id assignment_id : ℕ) (roles : List RoleKind) where
  module _ (normalize : String → String) (id : ℕ) where
    save_in_transaction_locked :
        (a : Assignment) (existing : Option Review) (input : SaveInput) (db : Db)
        → is_decided_cycle conference_id a.round_id db ≡ true
        → IsRefused (save_in_transaction normalize id user conference_id a existing input) db
    unfolding save_in_transaction
    save_in_transaction_locked a existing input db decided =
        let (e, refused) = check_open_locked normalize user conference_id a db decided in
        (e, ground arith, ground arith)

    submit_in_transaction_locked :
        (a : Assignment) (r : Review) (version : ℕ) (db : Db)
        → is_decided_cycle conference_id a.round_id db ≡ true
        → IsRefused (submit_in_transaction normalize id user conference_id a r version) db
    unfolding submit_in_transaction
    submit_in_transaction_locked a r version db decided =
        let (e, refused) = check_open_locked normalize user conference_id a db decided in
        (e, ground arith, ground arith)

    save_review_locked :
        (a : Assignment) (input : SaveInput) (db : Db)
        → find (λ (x : Assignment). x.id == assignment_id) db.assignments ≡ some a
        → is_decided_cycle conference_id a.round_id db ≡ true
        → IsRefused (save_review normalize id user conference_id assignment_id input roles) db
    unfolding save_review
    save_review_locked a input db found decided =
        let read = editable-reads user conference_id assignment_id roles may_edit db in
        elim (Result-cases (editable may_edit user conference_id assignment_id roles db).0) [
          | inl (e, refused) ↦ (e, ground arith, ground arith)
          | inr (l, passed) ↦
              let (loaded, by, active, not_closed) =
                editable_ok user conference_id assignment_id roles may_edit db l passed in
              let same : a ≡ l.assignment = ground (arith, loaded.assignment_found) in
              let (e, refused, kept) =
                save_in_transaction_locked l.assignment l.review input db
                  (subst (λ x. is_decided_cycle conference_id x.round_id db ≡ true) same decided) in
              (e, ground arith, ground arith)
        ]

    submit_review_locked :
        (a : Assignment) (version : ℕ) (db : Db)
        → find (λ (x : Assignment). x.id == assignment_id) db.assignments ≡ some a
        → is_decided_cycle conference_id a.round_id db ≡ true
        → IsRefused (submit_review normalize id user conference_id assignment_id version roles) db
    unfolding submit_review load_conference
    submit_review_locked a version db found decided =
        let read = editable-reads user conference_id assignment_id roles may_submit db in
        elim (Option-cases (find (is_live conference_id) db.conferences)) [
          | inl gone ↦ (not_found "Conference not found", ground arith, ground arith)
          | inr (c, live) ↦
              elim (Result-cases
                (editable may_submit user conference_id assignment_id roles db).0) [
                  | inl (e, refused) ↦ (e, ground arith, ground arith)
                  | inr (l, passed) ↦ elim (Option-cases l.review) [
                    | inl missing ↦ (
                      bad_request "Save a review draft before submitting",
                      ground arith,
                      ground arith,
                    )
                    | inr (r, had) ↦
                        let (loaded, by, active, not_closed) =
                          editable_ok user conference_id assignment_id roles may_submit db l
                            passed in
                        let same : a ≡ l.assignment = ground (arith, loaded.assignment_found) in
                        let (e, refused, kept) =
                          submit_in_transaction_locked l.assignment r version db (
                            subst (λ x. is_decided_cycle conference_id x.round_id db ≡ true) same
                              decided) in
                        elim (Result-cases
                          (submit_review normalize id user conference_id assignment_id version roles
                            db).0) [
                              | inl (e', failed) ↦ (e', failed, ground arith)
                              | inr (x, passed') ↦ absurd (ground arith)
                            ]
                  ]
                ]
        ]

    -- Once the round of an assignment has a decision, its review can be neither saved nor
    -- submitted by anybody: both requests are refused and change nothing.
    pub review_locked :
        (a : Assignment) (input : SaveInput) (version : ℕ) (db : Db)
        → find (λ (x : Assignment). x.id == assignment_id) db.assignments ≡ some a
        → is_decided_cycle conference_id a.round_id db ≡ true
        → IsRefused (save_review normalize id user conference_id assignment_id input roles) db
          × IsRefused (submit_review normalize id user conference_id assignment_id version roles) db
    review_locked a input version db found decided = (
      save_review_locked a input db found decided,
      submit_review_locked a version db found decided,
    )

  -- A submission that is accepted.
  pub record Submits (normalize : String → String) (now version : ℕ) (db : Db) (submitted : Review)
      : Type 0 where
    pub conference : Conference
    pub assignment : Assignment
    pub draft_review : Review
    pub paper : Paper
    pub conference_found : find (is_live conference_id) db.conferences ≡ some conference
    pub assignment_found :
        find (λ (a : Assignment). a.id == assignment_id) db.assignments ≡ some assignment
    pub review_found : review_of assignment_id db.reviews ≡ some draft_review
    pub paper_found : find (λ (p : Paper). p.id == assignment.paper_id) db.papers ≡ some paper
    pub by_reviewer : assignment.reviewer_user_id ≡ user
    pub paper_open : is_closed paper.status ≡ false
    pub cycle_open : IsOpen normalize user conference_id assignment db
    pub is_current : draft_review.version ≡ version
    pub is_complete :
        validate_review normalize (visible_to_owner draft_review) conference.review_config ≡ ok tt
    pub reviews_after :
        (submit_review normalize now user conference_id assignment_id version roles db).1.reviews
        ≡ update_where
            (is_review_at draft_review.id conference_id user version)
            (published_review now (visible_to_owner draft_review))
            db.reviews
    pub assignments_after :
        (submit_review normalize now user conference_id assignment_id version roles
          db).1.assignments
        ≡ update_where
            (λ (x : Assignment). x.id == assignment.id)
            completed_assignment
            db.assignments
    pub one_written :
        count_where (is_review_at draft_review.id conference_id user version) db.reviews ≡ 1

  submit_in_transaction_ok :
      (normalize : String → String) (now : ℕ) (a : Assignment) (r : Review) (version : ℕ) (db : Db)
      (submitted : Review)
      → (submit_in_transaction normalize now user conference_id a r version db).0 ≡ ok submitted
      → IsOpen normalize user conference_id a db
        × (count_where (is_review_at r.id conference_id user version) db.reviews ≡ 1)
        × ((submit_in_transaction normalize now user conference_id a r version db).1 ≡ record db {
          reviews =
              update_where
                (is_review_at r.id conference_id user version)
                (published_review now (visible_to_owner r))
                db.reviews;
          assignments =
              update_where (λ (x : Assignment). x.id == a.id) completed_assignment db.assignments;
        })
  unfolding submit_in_transaction
  submit_in_transaction_ok normalize now a r version db submitted h =
      elim (Result-cases (check_open normalize user conference_id a db)) [
        | inl (e, refused) ↦ absurd (ground arith)
        | inr (tt, passed) ↦
            elim (Result-cases
              (rewrite_review r.id conference_id user version
                (published_review now (visible_to_owner r)) db).0) [
                  | inl (e, stale) ↦ absurd (ground arith)
                  | inr (u, wrote) ↦
                      let (one, found, after) =
                        rewrite_review_ok r.id conference_id user version
                          (published_review now (visible_to_owner r)) db u wrote in
                      (
                        check_open_ok normalize user conference_id a db passed,
                        one,
                        (ground (arith, after)),
                      )
                ]
      ]

  thank-keeps :
      (review_id : ℕ) (db : Db)
      → ((thank user review_id db).0 ≡ ok tt)
        × ((thank user review_id db).1.reviews ≡ db.reviews)
        × ((thank user review_id db).1.assignments ≡ db.assignments)
  unfolding thank
  thank-keeps review_id db = (ground arith, ground arith, ground arith)

  pub submit_review_ok :
      (normalize : String → String) (now version : ℕ) (db : Db) (submitted : Review)
      → (submit_review normalize now user conference_id assignment_id version roles db).0
        ≡ ok submitted
      → Submits normalize now version db submitted
  unfolding submit_review load_conference
  submit_review_ok normalize now version db submitted h =
      let read = editable-reads user conference_id assignment_id roles may_submit db in
      elim (Option-cases (find (is_live conference_id) db.conferences)) [
        | inl gone ↦ absurd (ground arith)
        | inr (c, live) ↦
            elim (Result-cases (editable may_submit user conference_id assignment_id roles db).0) [
              | inl (e, refused) ↦ absurd (ground arith)
              | inr (l, passed) ↦ elim (Option-cases l.review) [
                | inl missing ↦ absurd (ground arith)
                | inr (r, had) ↦
                    elim (Result-cases
                      (submit_in_transaction normalize now user conference_id l.assignment r version
                        db).0) [
                          | inl (e, refused) ↦ absurd (ground arith)
                          | inr (u, wrote) ↦
                              let (loaded, by, active, not_closed) =
                                editable_ok user conference_id assignment_id roles may_submit db l
                                  passed in
                              let (cycle, one, after) =
                                submit_in_transaction_ok normalize now l.assignment r version db u
                                  wrote in
                              let thanked =
                                thank-keeps u.id
                                  (log_audit (some user) "review.submitted" u.id
                                    (submit_in_transaction normalize now user conference_id
                                      l.assignment r version db).1).1 in
                              record {
                                conference = c;
                                assignment = l.assignment;
                                draft_review = r;
                                paper = l.paper;
                                conference_found = live;
                                assignment_found = loaded.assignment_found;
                                review_found = ground (arith, loaded.review_found);
                                paper_found = loaded.paper_found;
                                by_reviewer = by;
                                paper_open = not_closed;
                                cycle_open = cycle;
                                is_current = ground arith;
                                is_complete = ground arith;
                                reviews_after = ground (arith, thanked);
                                assignments_after = ground (arith, thanked);
                                one_written = one;
                              }
                        ]
              ]
            ]
      ]
