-- ===== src/Submission/Tests.antt =====
-- The theorems on submission and withdrawal, applied to a draft and to a paper under review.
use text.Mathlib.Text.{◌==◌ as str_eq}
use open_conferences.Samples.{conference_db, draft_paper, reviewed_paper, call}
use open_conferences.Shared.{
  ℕ, zero, ◌≤◌, String, ◌≡◌, refl, ◌⊎◌, Bool, true, false, ◌&&◌, none, some, [], ◌∷◌, arith, ◌==◌,
  find, ok,
}
use open_conferences.Store.{Db}
use open_conferences.Store.Rows.{User, chair, author, Paper}
use open_conferences.Submission.Draft.{
  insert_draft, resolve_submission_track, CreateInput, UpdateInput, new_paper, create,
}
use open_conferences.Submission.Draft.Outcomes.{Created, create_ok}
use open_conferences.Submission.Queries.{
  assert_author_can_edit, corresponding_count, corresponds, load_paper, load_paper_for_mutation,
  max_corresponding_papers, is_paper_author,
}
use open_conferences.Submission.Submit.{
  check_submission, corresponding_of, assign_from, submit, latest_version, version_by_id, attempt,
  numbered,
}
use open_conferences.Submission.Submit.Limit.{
  submitted_for, assign_from-within_limit, assign_from_free,
}
use open_conferences.Submission.Submit.Outcome.{IsSubmittable, submit_ok}
use open_conferences.Submission.Withdraw.{
  announce, withdraw_rows, check_withdrawal, withdraw, withdrawal_recipients,
}
use open_conferences.Submission.Withdraw.Effects.{may_close, Withdrawn, withdraw_ok}
use open_conferences.Tenancy.Conferences.{load_conference, lock_open_cfp}
use open_conferences.Tenancy.Phase.{assert_cfp_open, is_cfp_open}
use open_conferences.Tenancy.Roles.{includes, is_privileged_reader, can_coordinate_review}

abbrev draw_numbers : ℕ → String
draw_numbers zero = "OC-1"
draw_numbers _ = "OC-2"

-- The first number is taken by the paper under review.
abbrev taken_db : Db
taken_db = record conference_db {
  papers = draft_paper ∷ record reviewed_paper { submission_number = some "OC-1" } ∷ [];
}

abbrev same_text : String → String → Bool
same_text a b = str_eq a b

abbrev as_written : String → String
as_written s = s

assign_from-within_limit_example :
    submitted_for same_text 50 draft_paper
      (corresponding_of 20 draft_paper)
      (assign_from same_text 50 draft_paper
        (corresponding_of 20 draft_paper)
        draw_numbers
        0
        5
        taken_db).1
    ≤ max_corresponding_papers
unfolding assign_from attempt lock_open_cfp corresponding_count corresponding_of
assign_from-within_limit_example =
    assign_from-within_limit same_text 50 draft_paper (corresponding_of 20 draft_paper) draw_numbers
      0 5 taken_db (numbered 50 "OC-2" draft_paper) refl

assign_from_free_example :
    (q : Paper) × ((assign_from same_text 50 draft_paper
        (corresponding_of 20 draft_paper)
        draw_numbers
        0
        2
        taken_db).0
      ≡ ok q)
unfolding is_cfp_open corresponds corresponding_of
assign_from_free_example =
    assign_from_free same_text 50 draft_paper (corresponding_of 20 draft_paper) draw_numbers 1 0 2
      taken_db
      (record {
        conference = call;
        is_found = refl;
        is_open = refl;
        below = omega arith;
        one_draft = refl;
      })
      refl (omega arith)

submit_ok_example :
    (p : Paper) × (find (λ r. r.id == 5) taken_db.papers ≡ some p)
    × (p.conference_id ≡ 1)
    × ((is_privileged_reader (author ∷ []) ≡ true) ⊎ (is_paper_author 20 p ≡ true))
    × IsSubmittable p (latest_version 5 taken_db) (version_by_id p.current_version_id taken_db)
    × (submitted_for same_text 50 p
          (corresponding_of 20 p)
          (submit same_text 50 20 1 5 (author ∷ []) draw_numbers taken_db).1
        ≤ max_corresponding_papers)
unfolding submit load_paper is_privileged_reader assert_author_can_edit assert_cfp_open
    check_submission assign_from attempt lock_open_cfp corresponding_count corresponding_of
submit_ok_example =
    submit_ok same_text 50 20 1 5 (author ∷ []) draw_numbers taken_db
      {q = numbered 50 "OC-2" draft_paper} refl

withdraw_ok_example :
    (p : Paper) × (find (λ r. r.id == 6 && r.conference_id == 1) conference_db.papers ≡ some p)
    × (may_close (is_paper_author 9 p) p.status ≡ true)
    × ((is_paper_author 9 p ≡ true) ⊎ (can_coordinate_review (chair ∷ []) ≡ true))
    × Withdrawn 1 6 4
        (is_paper_author 9 p)
        conference_db
        (withdraw as_written 9 1 6 4 (chair ∷ []) conference_db).1
unfolding withdraw load_conference load_paper_for_mutation check_withdrawal is_paper_author
    can_coordinate_review withdraw_rows announce withdrawal_recipients includes
withdraw_ok_example = withdraw_ok as_written 9 1 6 4 (chair ∷ []) conference_db refl

abbrev some_user : User
some_user = record {
  id = 20;
  email = "ada@example.org";
  name = "Ada";
  two_factor_enabled = false;
  deleted = false;
}

abbrev user_db : Db
user_db = record conference_db { users = some_user ∷ []; papers = draft_paper ∷ [] }

abbrev new_input : CreateInput
new_input = record {
  track_id = none;
  title = "N";
  abstract_text = "B";
  keywords = [];
  affiliation = some "";
}

abbrev created_paper : Paper
created_paper = new_paper 90 2 1 91 some_user new_input

create_ok_example :
    Created same_text 50 20 1 created_paper user_db
      (create same_text
        (record { paper = 90; track = 91 })
        50
        20
        1
        new_input
        (author ∷ [])
        user_db).1
unfolding create load_conference assert_cfp_open includes resolve_submission_track insert_draft
    lock_open_cfp corresponding_count
create_ok_example =
    create_ok same_text (record { paper = 90; track = 91 }) 50 20 1 new_input (author ∷ []) user_db
      created_paper refl

abbrev edit : UpdateInput
edit = record {
  track_id = none;
  title = some "U";
  abstract_text = none;
  keywords = none;
  version = 4;
}
