-- ===== src/Submission/Submit/Outcome.antt =====
-- What a submission that went through has passed.
use open_conferences.Shared.{
  ℕ, ◌≤◌, String, ◌≡◌, ◌⊎◌, inl, inr, Bool, true, false, Option, some, List, arith, ◌==◌, any, find,
  ok, Result-cases,
}
use open_conferences.Store.{Db}
use open_conferences.Store.Rows.{RoleKind, Paper, PaperVersion, pending_scan, clean, infected}
use open_conferences.Submission.Queries.{
  max_corresponding_papers, is_draft, is_paper_author, load_paper, assert_author_can_edit,
}
use open_conferences.Submission.Submit.{
  is_blank, has_scan, is_other_version, latest_version, version_by_id, check_submission,
  corresponding_of, attempts, submit,
}
use open_conferences.Submission.Submit.Limit.{submitted_for, assign_from-within_limit}
use open_conferences.Tenancy.Conferences.{load_conference}
use open_conferences.Tenancy.Phase.{assert_cfp_open}
use open_conferences.Tenancy.Roles.{is_privileged_reader}

-- A draft that is ready: a title and an abstract, a corresponding author, and as its current
-- version its latest file, scanned and clean.
pub record IsSubmittable (p : Paper) (latest current : Option PaperVersion) : Type 0 where
  pub drafted : is_draft p.status ≡ true
  pub titled : is_blank p.title ≡ false
  pub summarised : is_blank p.abstract_text ≡ false
  pub has_contact : any (λ a. a.is_corresponding) p.authorships ≡ true
  pub scanned : (has_scan pending_scan latest ≡ false) × (has_scan infected latest ≡ false)
  pub newest : is_other_version latest p.current_version_id ≡ false
  pub is_clean : has_scan clean current ≡ true

check_submission_ok :
    (p : Paper) (latest current : Option PaperVersion)
    → check_submission p latest current ≡ ok tt
    → IsSubmittable p latest current
unfolding check_submission
check_submission_ok p latest current h = record {
  drafted = ground arith;
  titled = ground arith;
  summarised = ground arith;
  has_contact = ground arith;
  scanned = (ground arith, ground arith);
  newest = ground arith;
  is_clean = ground arith;
}

pub load_paper_ok :
    (user conference_id paper_id : ℕ) (roles : List RoleKind) (db : Db) (p : Paper)
    → (load_paper user conference_id paper_id roles db).0 ≡ ok p
    → (find (λ q. q.id == paper_id) db.papers ≡ some p)
      × (p.conference_id ≡ conference_id)
      × ((is_privileged_reader roles ≡ true) ⊎ (is_paper_author user p ≡ true))
unfolding load_paper
load_paper_ok user conference_id paper_id roles db p h = (ground arith, ground arith, ground arith)

pub load_paper-reads :
    (user conference_id paper_id : ℕ) (roles : List RoleKind) (db : Db)
    → (load_paper user conference_id paper_id roles db).1 ≡ db
unfolding load_paper
load_paper-reads user conference_id paper_id roles db = ground arith

module _ (same_email : String → String → Bool) (now user conference_id paper_id : ℕ)
    (roles : List RoleKind) (draw : ℕ → String) (db : Db) where
  -- A submission that returns was made by an author or a privileged reader, of a paper of that
  -- conference that was ready, and leaves its corresponding author within the limit.
  pub submit_ok :
      {q : Paper}
      → (submit same_email now user conference_id paper_id roles draw db).0 ≡ ok q
      → (p : Paper) × (find (λ r. r.id == paper_id) db.papers ≡ some p)
        × (p.conference_id ≡ conference_id)
        × ((is_privileged_reader roles ≡ true) ⊎ (is_paper_author user p ≡ true))
        × IsSubmittable p (latest_version paper_id db) (version_by_id p.current_version_id db)
        × (submitted_for same_email now p
              (corresponding_of user p)
              (submit same_email now user conference_id paper_id roles draw db).1
            ≤ max_corresponding_papers)
  unfolding submit assert_author_can_edit load_conference assert_cfp_open
  submit_ok {q} h = elim (Result-cases (load_paper user conference_id paper_id roles db).0) [
    | inl (e, refused) ↦ ground arith
    | inr (p, loaded) ↦
        let (found, scoped, allowed) =
          load_paper_ok user conference_id paper_id roles db p loaded in
        let same : (load_paper user conference_id paper_id roles db).1 ≡ db =
          load_paper-reads user conference_id paper_id roles db in
        (
          p,
          found,
          scoped,
          allowed,
          check_submission_ok p (latest_version paper_id db) (version_by_id p.current_version_id db)
              (ground arith),
          ground (
            arith,
            assign_from-within_limit same_email now p (corresponding_of user p) draw 0 attempts db
                q,
          ),
        )
  ]
