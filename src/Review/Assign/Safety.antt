-- ===== src/Review/Assign/Safety.antt =====
-- Whom a paper is assigned to.
use text.Mathlib.Text.{◌==◌ as str_eq}
use open_conferences.Shared.{
  ℕ, String, ◌≡◌, inl, inr, true, false, ◌&&◌, Option, some, arith, ◌==◌, Option-cases, any, find,
}
use open_conferences.Store.{Db}
use open_conferences.Review.Assign.{
  is_reviewer_member, is_conflict_bid, made, reviewable_paper, new_assignment, create_assignment,
  try_create_assignment,
}
use open_conferences.Review.Conflicts.{is_author_of, declares, check_conflict}
use open_conferences.Store.Rows.{Assignment, Paper, User}
use open_conferences.Store.Tables.{insert_row}

-- Who may review the paper.
pub record MayReview (normalize : String → String) (conference_id reviewer_id : ℕ) (p : Paper)
    (db : Db) : Type 0 where
  pub member : any (is_reviewer_member conference_id reviewer_id) db.memberships ≡ true
  pub no_author : is_author_of reviewer_id p ≡ false
  pub no_coauthor :
      (u : User)
      → find (λ (x : User). x.id == reviewer_id) db.users ≡ some u
      → str_eq (normalize u.email) "" ≡ false
      → any (λ a. str_eq (normalize a.email) (normalize u.email)) p.authorships ≡ false
  pub undeclared : any (declares conference_id reviewer_id p) db.conflicts ≡ false
  pub willing :
      is_conflict_bid (find (λ b. b.paper_id == p.id && b.reviewer_user_id == reviewer_id) db.bids)
      ≡ false

module _ (normalize : String → String) (id conference_id round_id paper_id reviewer_id : ℕ)
    (due_at : Option ℕ) (db : Db) where
  -- An assignment is made only of a paper of the conference that is open for review, to a member
  -- with the reviewer's role who is not its author, whose address is not that of one of its authors
  -- without regard to case and spaces, who has declared no conflict with it or its authors and has
  -- not bid one; the row is appended to the assignments.
  pub try_create_assignment-MayReview :
      (a : Assignment)
      → (try_create_assignment normalize id conference_id round_id paper_id reviewer_id due_at db).0
        ≡ made a
      → (p : Paper) × (reviewable_paper conference_id paper_id db ≡ some p)
        × MayReview normalize conference_id reviewer_id p db
        × (a ≡ new_assignment id conference_id round_id p.id reviewer_id due_at)
        × ((try_create_assignment normalize id conference_id round_id paper_id reviewer_id due_at
              db).1.assignments
            ≡ insert_row a db.assignments)
  unfolding try_create_assignment create_assignment check_conflict
  try_create_assignment-MayReview a h =
      elim (Option-cases (reviewable_paper conference_id paper_id db)) [
        | inl closed ↦ ground arith
        | inr (p, found) ↦ (
          p,
          found,
          record {
            member = ground arith;
            no_author = ground arith;
            no_coauthor = λ u known has_email. ground arith;
            undeclared = ground arith;
            willing = ground arith;
          },
          ground arith,
          ground arith,
        )
      ]
