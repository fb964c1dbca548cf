-- ===== src/Submission/Draft/Edits.antt =====
-- What an edit of a draft does.
use open_conferences.Shared.{
  ℕ, ◌≡◌, refl, ◌⊎◌, inl, inr, true, some, List, arith, ◌==◌, Option-cases, find, find_sound, ok,
  Result-cases,
}
use open_conferences.Store.{Db}
use open_conferences.Store.Rows.{Paper, RoleKind}
use open_conferences.Store.Tables.{update_where}
use open_conferences.Store.Tables.Laws.{find-update_where}
use open_conferences.Submission.Draft.{update, write_update, edited, UpdateInput}
use open_conferences.Submission.Queries.{
  is_draft, load_paper, is_paper_author, assert_author_can_edit,
}
use open_conferences.Submission.Submit.Outcome.{load_paper_ok, load_paper-reads}
use open_conferences.Tenancy.Conferences.{lock_open_cfp, is_live, load_conference}
use open_conferences.Tenancy.Phase.{assert_cfp_open}
use open_conferences.Tenancy.Roles.{is_privileged_reader}

write_update_ok :
    (now conference_id paper_id : ℕ) (input : UpdateInput) (db : Db) (p q : Paper)
    → find (λ (r : Paper). r.id == paper_id) db.papers ≡ some p
    → (write_update now conference_id paper_id input db).0 ≡ ok q
    → (q ≡ edited input p)
      × ((write_update now conference_id paper_id input db).1
          ≡ record db { papers = update_where (λ r. r.id == paper_id) (edited input) db.papers })
unfolding write_update lock_open_cfp assert_cfp_open
write_update_ok now conference_id paper_id input db p q found h =
    let named = find_sound (λ (r : Paper). r.id == paper_id) db.papers p found in
    let edit =
      find-update_where (λ r. r.id == paper_id) (edited input) (λ r. r.id == paper_id) db.papers
        (λ x. refl) in
    elim (Option-cases (find (is_live conference_id) db.conferences)) [
      | inl gone ↦ ground arith
      | inr (c, live) ↦ (ground (arith, edit, named), ground arith)
    ]

-- An edit that returns was made by an author or a privileged reader, of a draft of the conference
-- at the version that was stated, and sets the given fields in the rows with its id and no other.
pub update_ok :
    (now user conference_id paper_id : ℕ) (input : UpdateInput) (roles : List RoleKind) (db : Db)
    (q : Paper)
    → (update now user conference_id paper_id input roles db).0 ≡ ok q
    → (p : Paper) × (find (λ r. r.id == paper_id) db.papers ≡ some p)
      × (p.conference_id ≡ conference_id)
      × ((is_privileged_reader roles ≡ true) ⊎ (is_paper_author user p ≡ true))
      × (is_draft p.status ≡ true)
      × (p.version ≡ input.version)
      × (q ≡ edited input p)
      × ((update now user conference_id paper_id input roles db).1
          ≡ record db { papers = update_where (λ r. r.id == paper_id) (edited input) db.papers })
unfolding update load_conference assert_author_can_edit assert_cfp_open
update_ok now user conference_id paper_id input roles db q h =
    elim (Result-cases (load_paper user conference_id paper_id roles db).0) [
      | inl (e, refused) ↦ ground arith
      | inr (p, loaded) ↦
          let (found, scoped, allowed) =
            load_paper_ok user conference_id paper_id roles db p loaded in
          let same = load_paper-reads user conference_id paper_id roles db in
          let written : (write_update now conference_id paper_id input db).0 ≡ ok q =
            ground arith in
          let (new, after) =
            write_update_ok now conference_id paper_id input db p q found written in
          (p, found, scoped, allowed, ground arith, ground arith, new, ground arith)
    ]
