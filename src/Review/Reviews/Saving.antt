-- ===== src/Review/Reviews/Saving.antt =====
-- What a save does: to the reviews that were submitted, and to what the reviewer reads.
use mathlib.Core.Path.{subst}
use open_conferences.Shared.{
  ==-refl, ==-sound, ℕ, ◌≤◌, String, ◌≡◌, refl, sym, ap, ◌∙◌, inl, inr, true, Option, none, some,
  List, arith, ◌==◌, is_some, find_sound, Exception, ok, err, Result-cases,
}
use open_conferences.Store.{Db}
use open_conferences.Review.Reviews.{
  visible_to_owner, review_of, editable, is_review_at, rewrite_review,
}
use open_conferences.Review.Reviews.Drafts.{Saved, first_draft_ok, rewrite_draft_ok}
use open_conferences.Review.Reviews.Editing.{
  published_review, submit_review, SaveInput, edited_review, first_draft, write_draft,
  save_in_transaction, save_review,
}
use open_conferences.Review.Reviews.Guards.{editable-reads, editable_ok}
use open_conferences.Review.Reviews.Outcomes.{submit_review_ok, may_edit}
use open_conferences.Review.Reviews.Published.{submitted_reviews, has_id}
use open_conferences.Store.Rows.{Review, Assignment, RoleKind}
use open_conferences.Store.Tables.{count_where}
use open_conferences.Store.Tables.Laws.{find-update_where}

module _ (id user conference_id : ℕ) (input : SaveInput) where
  write_first :
      (a : Assignment) (db : Db) (saved : Review)
      → (write_draft id user conference_id a none input db).0 ≡ ok saved
      → ((first_draft id user conference_id a input.content db).0 ≡ ok saved)
        × ((write_draft id user conference_id a none input db).1.reviews
            ≡ (first_draft id user conference_id a input.content db).1.reviews)
  unfolding write_draft
  write_first a db saved h = (ground arith, ground arith)

  write_again :
      (a : Assignment) (r : Review) (db : Db) (saved : Review)
      → (write_draft id user conference_id a (some r) input db).0 ≡ ok saved
      → ((rewrite_review r.id conference_id user input.version
            (edited_review (is_some r.submitted_at) input.content)
            db).0
          ≡ ok saved)
        × ((write_draft id user conference_id a (some r) input db).1.reviews
            ≡ (rewrite_review r.id conference_id user input.version
                (edited_review (is_some r.submitted_at) input.content)
                db).1.reviews)
  unfolding write_draft
  write_again a r db saved h = (ground arith, ground arith)

written_at :
    (r : Review) (conference_id user version : ℕ)
    → r.conference_id ≡ conference_id
    → r.reviewer_user_id ≡ user
    → r.version ≡ version
    → is_review_at r.id conference_id user version r ≡ true
written_at r conference_id user version conf by current =
    ground (arith, ==-refl r.id, ==-refl conference_id, ==-refl user, ==-refl version)

module _ (normalize : String → String) (id user conference_id assignment_id : ℕ) (input : SaveInput)
    (roles : List RoleKind) where
  write_draft_ok :
      (a : Assignment) (existing : Option Review) (db : Db) (saved : Review)
      → ((k : ℕ) → count_where (has_id k) db.reviews ≤ 1)
      → review_of a.id db.reviews ≡ existing
      → (write_draft id user conference_id a existing input db).0 ≡ ok saved
      → Saved user conference_id a.id input.content db.reviews
          (write_draft id user conference_id a existing input db).1.reviews
          saved
  write_draft_ok a none db saved distinct found h =
      let (wrote, after) = write_first id user conference_id input a db saved h in
      subst (λ rs. Saved user conference_id a.id input.content db.reviews rs saved) (sym after)
        (first_draft_ok id user conference_id a input.content db saved found wrote)
  write_draft_ok a (some r) db saved distinct found h =
      let (wrote, after) = write_again id user conference_id input a r db saved h in
      subst (λ rs. Saved user conference_id a.id input.content db.reviews rs saved) (sym after)
        (rewrite_draft_ok id user conference_id a input.content input.version db r saved
          (distinct r.id) found wrote)

  save_in_transaction_wrote :
      (a : Assignment) (existing : Option Review) (db : Db) (saved : Review)
      → (save_in_transaction normalize id user conference_id a existing input db).0 ≡ ok saved
      → ((write_draft id user conference_id a existing input db).0 ≡ ok saved)
        × ((save_in_transaction normalize id user conference_id a existing input db).1
            ≡ (write_draft id user conference_id a existing input db).1)
  unfolding save_in_transaction
  save_in_transaction_wrote a existing db saved h = (ground arith, ground arith)

  -- A save that returns came to a write of the review that the assignment had.
  save_review_wrote :
      (db : Db) (saved : Review)
      → (save_review normalize id user conference_id assignment_id input roles db).0 ≡ ok saved
      → (a : Assignment) × (a.id ≡ assignment_id)
        × ((write_draft id user conference_id a (review_of a.id db.reviews) input db).0 ≡ ok saved)
        × ((save_review normalize id user conference_id assignment_id input roles db).1
            ≡ (write_draft id user conference_id a (review_of a.id db.reviews) input db).1)
  unfolding save_review
  save_review_wrote db saved h =
      let read = editable-reads user conference_id assignment_id roles may_edit db in
      elim (Result-cases (editable may_edit user conference_id assignment_id roles db).0) [
        | inl (e, refused) ↦ absurd (ground arith)
        | inr (l, passed) ↦
            let (loaded, by, active, not_closed) =
              editable_ok user conference_id assignment_id roles may_edit db l passed in
            let named : l.assignment.id ≡ assignment_id = ==-sound l.assignment.id assignment_id (
              find_sound (λ (a : Assignment). a.id == assignment_id) db.assignments l.assignment
                loaded.assignment_found) in
            let held : l.review ≡ review_of l.assignment.id db.reviews =
              sym loaded.review_found ∙ ap (λ k. review_of k db.reviews) (sym named) in
            let run : (save_in_transaction normalize id user conference_id l.assignment l.review
                  input db).0
                ≡ ok saved =
              ground arith in
            let (wrote, after) = save_in_transaction_wrote l.assignment l.review db saved run in
            let same : (save_review normalize id user conference_id assignment_id input roles db).1
                ≡ (save_in_transaction normalize id user conference_id l.assignment l.review input
                    db).1 =
              ground arith in
            (
              l.assignment,
              named,
              subst (λ r. (write_draft id user conference_id l.assignment r input db).0 ≡ ok saved)
                  held wrote,
              same
                  ∙ after
                  ∙ ap (λ r. (write_draft id user conference_id l.assignment r input db).1) held,
            )
      ]

  save_review_ok :
      (db : Db) (saved : Review)
      → ((k : ℕ) → count_where (has_id k) db.reviews ≤ 1)
      → (save_review normalize id user conference_id assignment_id input roles db).0 ≡ ok saved
      → Saved user conference_id assignment_id input.content db.reviews
          (save_review normalize id user conference_id assignment_id input roles db).1.reviews
          saved
  save_review_ok db saved distinct h =
      let (a, named, wrote, after) = save_review_wrote db saved h in
      subst
        (λ k.
          Saved user conference_id k input.content db.reviews
            (save_review normalize id user conference_id assignment_id input roles db).1.reviews
            saved)
        named
        (subst (λ d. Saved user conference_id a.id input.content db.reviews d.reviews saved)
          (sym after) (write_draft_ok a (review_of a.id db.reviews) db saved distinct refl wrote))

  save_in_transaction_undone :
      (a : Assignment) (existing : Option Review) (db : Db) (e : Exception)
      → (save_in_transaction normalize id user conference_id a existing input db).0 ≡ err e
      → (save_in_transaction normalize id user conference_id a existing input db).1 ≡ db
  unfolding save_in_transaction
  save_in_transaction_undone a existing db e h = ground arith

  save_review_undone :
      (db : Db) (e : Exception)
      → (save_review normalize id user conference_id assignment_id input roles db).0 ≡ err e
      → (save_review normalize id user conference_id assignment_id input roles db).1 ≡ db
  unfolding save_review
  save_review_undone db e h =
      let read = editable-reads user conference_id assignment_id roles may_edit db in
      elim (Result-cases (editable may_edit user conference_id assignment_id roles db).0) [
        | inl (e', refused) ↦ ground arith
        | inr (l, passed) ↦ ground (arith, save_in_transaction_undone l.assignment l.review db e)
      ]

  -- A save, whether it returns or throws, leaves the reviews that were submitted as they are: the
  -- same rows in the same order, each with its cycle, paper, reviewer, content, visibility to the
  -- authors and instant of submission, if ids are distinct.
  pub submitted_reviews-save_review :
      (db : Db)
      → ((k : ℕ) → count_where (has_id k) db.reviews ≤ 1)
      → submitted_reviews
          (save_review normalize id user conference_id assignment_id input roles db).1.reviews
        ≡ submitted_reviews db.reviews
  submitted_reviews-save_review db distinct =
      elim (Result-cases
        (save_review normalize id user conference_id assignment_id input roles db).0) [
          | inl (e, refused) ↦
              ap (λ d. submitted_reviews d.reviews) (save_review_undone db e refused)
          | inr (saved, returned) ↦ (save_review_ok db saved distinct returned).submitted_kept
        ]

  -- What is saved is what is submitted: after a save, and a submission at the version that it
  -- answered with, the review of the assignment is the saved content, submitted at that instant,
  -- with no edit kept aside, if ids are distinct.
  pub save_then_submit :
      (now : ℕ) (db : Db) (saved submitted : Review)
      → ((k : ℕ) → count_where (has_id k) db.reviews ≤ 1)
      → (save_review normalize id user conference_id assignment_id input roles db).0 ≡ ok saved
      → (submit_review normalize now user conference_id assignment_id saved.version roles
          (save_review normalize id user conference_id assignment_id input roles db).1).0
        ≡ ok submitted
      → (r : Review) × (review_of assignment_id
            (submit_review normalize now user conference_id assignment_id saved.version roles
              (save_review normalize id user conference_id assignment_id input roles
                db).1).1.reviews
          ≡ some r)
        × (r.content ≡ input.content)
        × (r.submitted_at ≡ some now)
        × (r.pending_edit ≡ none)
  unfolding published_review
  save_then_submit now db saved submitted distinct returned accepted =
      let db1 = (save_review normalize id user conference_id assignment_id input roles db).1 in
      let s = save_review_ok db saved distinct returned in
      let t =
        submit_review_ok user conference_id assignment_id roles normalize now saved.version db1
          submitted accepted in
      let same : t.draft_review ≡ saved = ground (arith, s.stored, t.review_found) in
      let d = t.draft_review in
      let publish_it = published_review now (visible_to_owner d) in
      let hit : is_review_at d.id conference_id user saved.version d ≡ true =
        written_at d conference_id user saved.version
          (ap (λ r. r.conference_id) same ∙ s.in_conference)
          (ap (λ r. r.reviewer_user_id) same ∙ s.by_user) t.is_current in
      (
        publish_it d,
        ap (review_of assignment_id) t.reviews_after
            ∙ find-update_where (is_review_at d.id conference_id user saved.version) publish_it
                (λ r. r.assignment_id == assignment_id) db1.reviews (λ r. refl)
            ∙ rw (t.review_found, hit),
        ap visible_to_owner same ∙ s.shown_to_owner,
        refl,
        refl,
      )
