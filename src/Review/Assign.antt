-- ===== src/Review/Assign.antt =====
-- `tryCreateAssignment` and the writes of `assign` in apps/api/src/review/assignments.service.ts.
pub mod Safety
use open_conferences.Shared.{
  ℕ, String, Bool, true, false, not, ◌&&◌, Option, none, some, ◌==◌, if◌then◌else◌, is_id, any,
  find, conflict,
}
use open_conferences.Store.{Db}
use open_conferences.Review.Conflicts.{authorship, declared_coi, check_conflict}
use open_conferences.Store.Rows.{
  Assignment, assigned, Bid, BidValue, Membership, reviewer, Paper, PaperStatus, submitted,
  under_review,
}
use open_conferences.Store.Tables.{update_where, insert_row}
use open_conferences.Tenancy.Grants.{is_conference_scope}
use open_conferences.Tenancy.Roles.{same_role}

abbrev pub is_open_for_review : PaperStatus → Bool
is_open_for_review submitted = true
is_open_for_review under_review = true
is_open_for_review _ = false

abbrev pub is_assigned_to : ℕ → ℕ → ℕ → Assignment → Bool
is_assigned_to round_id paper_id reviewer_id a =
    a.round_id == round_id && a.paper_id == paper_id && a.reviewer_user_id == reviewer_id

-- A member of the conference with the role of a reviewer.
abbrev pub is_reviewer_member : ℕ → ℕ → Membership → Bool
is_reviewer_member conference_id user m =
    m.user_id == user
    && is_id m.conference_id conference_id
    && is_conference_scope m.scope
    && any (λ g. same_role g.role reviewer) m.roles

abbrev pub is_conflict_bid : Option Bid → Bool
is_conflict_bid none = false
is_conflict_bid (some b) = elim b.value [ BidValue.conflict ↦ true | _ ↦ false ]

pub data AssignOutcome : Type 0 where
  made : Assignment → AssignOutcome
  skipped failed : String → AssignOutcome

abbrev pub reviewable_paper : ℕ → ℕ → Db → Option Paper
reviewable_paper conference_id paper_id db =
    find (λ p. p.id == paper_id && p.conference_id == conference_id && is_open_for_review p.status)
      db.papers

abbrev pub new_assignment : ℕ → ℕ → ℕ → ℕ → ℕ → Option ℕ → Assignment
new_assignment id conference_id round_id paper_id reviewer_id due_at = record {
  id = id;
  conference_id = conference_id;
  round_id = round_id;
  paper_id = paper_id;
  reviewer_user_id = reviewer_id;
  status = assigned;
  due_at = due_at;
}

-- The first reviewer takes the paper under review; its version stays.
abbrev pub taken_up : Paper → Paper
taken_up p = record p { status = under_review }

abbrev is_submitted_status : PaperStatus → Bool
is_submitted_status submitted = true
is_submitted_status _ = false

-- The transaction, its conflicts reported as failures.
unfoldable pub create_assignment :
    (String → String) → ℕ → ℕ → Paper → ℕ → ℕ → Option ℕ → Db → AssignOutcome × Db
create_assignment normalize id conference_id p round_id reviewer_id due_at db =
    elim (check_conflict normalize reviewer_id p conference_id db) [
      | some authorship ↦ (failed "Reviewer is an author of this paper", db)
      | some declared_coi ↦ (failed "Reviewer has a declared conflict of interest", db)
      | none ↦
          if is_conflict_bid
            (find (λ b. b.paper_id == p.id && b.reviewer_user_id == reviewer_id) db.bids)
          then (failed "Reviewer bid CONFLICT on this paper", db)
          else let row = new_assignment id conference_id round_id p.id reviewer_id due_at in
            (
              made row,
              record db {
                assignments = insert_row row db.assignments;
                papers =
                    if is_submitted_status p.status
                    then update_where (λ q. q.id == p.id) taken_up db.papers
                    else db.papers;
              },
            )
    ]

unfoldable pub try_create_assignment :
    (String → String) → ℕ → ℕ → ℕ → ℕ → ℕ → Option ℕ → Db → AssignOutcome × Db
try_create_assignment normalize id conference_id round_id paper_id reviewer_id due_at db =
    if any (is_assigned_to round_id paper_id reviewer_id) db.assignments
    then (skipped "Already assigned in this round", db)
    else elim (reviewable_paper conference_id paper_id db) [
      | none ↦ (skipped "Paper is not open for review", db)
      | some p ↦
          if any (is_reviewer_member conference_id reviewer_id) db.memberships
          then create_assignment normalize id conference_id p round_id reviewer_id due_at db
          else (failed "Reviewer not found in this conference", db)
    ]
