-- ===== src/Submission/Submit.antt =====
-- `PapersService.submit` and `assignSubmissionNumber`.
pub mod Limit
pub mod Outcome
use Prim.Native.Char.{code}
use text.Mathlib.Text.{◌==◌ as str_eq}
use open_conferences.Shared.{
  ℕ, zero, suc, ◌+◌, String, Bool, true, false, not, ◌&&◌, ◌||◌, Option, none, some, List, [], ◌∷◌,
  leb, ◌==◌, if◌then◌else◌, is_id, is_some, length, any, find, Exception, paper_limit,
  unique_violation, Result, ok, err, Action, pure, gets, or_raise, lift, transaction, ◌>>=◌, ◌>>◌,
  modify, raise_if, first_error,
}
use open_conferences.Store.{Db, log_audit, publish}
use open_conferences.Store.Rows.{
  RoleKind, Paper, Authorship, PaperVersion, draft, submitted, ScanStatus, pending_scan, clean,
  infected, VersionKind, submission, revision,
}
use open_conferences.Store.Tables.{count_where, update_where, latest_by}
use open_conferences.Submission.Queries.{
  max_corresponding_papers, is_draft, submitted_papers, corresponding_count, load_paper,
  assert_author_can_edit,
}
use open_conferences.Tenancy.Conferences.{load_conference, lock_open_cfp}
use open_conferences.Tenancy.Phase.{assert_cfp_open}

-- White space in the sense of `String.prototype.trim`.
unfoldable pub is_space : ℕ → Bool
is_space c =
    leb 9 c && leb c 13
    || c == 32
    || c == 160
    || c == 5760
    || leb 8192 c && leb c 8202
    || c == 8232
    || c == 8233
    || c == 8239
    || c == 8287
    || c == 12288
    || c == 65279

-- `!text.trim()`
unfoldable pub is_blank : String → Bool
unfolding is_space
is_blank String.[] = true
is_blank (String.◌∷◌ c s) = is_space (code c) && is_blank s

abbrev pub is_submission : VersionKind → Bool
is_submission submission = true
is_submission revision = true
is_submission _ = false

abbrev pub has_scan : ScanStatus → Option PaperVersion → Bool
has_scan pending_scan (some v) = elim v.scan_status [ pending_scan ↦ true | _ ↦ false ]
has_scan clean (some v) = elim v.scan_status [ clean ↦ true | _ ↦ false ]
has_scan infected (some v) = elim v.scan_status [ infected ↦ true | _ ↦ false ]
has_scan _ none = false

-- `latestVersion && latestVersion.id !== paper.currentVersionId`
abbrev pub is_other_version : Option PaperVersion → Option ℕ → Bool
is_other_version none current = false
is_other_version (some v) current = not (is_id current v.id)

-- `where: { paperId, kind: { in: ['SUBMISSION', 'REVISION'] } }`
abbrev pub is_submission_of : ℕ → PaperVersion → Bool
is_submission_of paper_id v = v.paper_id == paper_id && is_submission v.kind

-- `orderBy: [{ createdAt: 'desc' }, { id: 'desc' }]`: of those that were created last, the one with
-- the greatest id.
abbrev pub latest_version : ℕ → Db → Option PaperVersion
latest_version paper_id db =
    elim (latest_by (λ (v : PaperVersion). v.created_at) (is_submission_of paper_id) db.versions) [
      | none ↦ none
      | some v ↦
          latest_by (λ (w : PaperVersion). w.id)
            (λ w. is_submission_of paper_id w && w.created_at == v.created_at) db.versions
    ]

abbrev pub version_by_id : Option ℕ → Db → Option PaperVersion
version_by_id current db = find (λ v. is_id current v.id) db.versions

-- The conditions on the paper and its files, in the order in which they are tested.
unfoldable pub check_submission :
    Paper → Option PaperVersion → Option PaperVersion → Result (Unit {0})
unfolding is_blank
check_submission p latest current = first_error (
    (not (is_draft p.status), Exception.conflict "Paper has already been submitted")
    ∷ (
      is_blank p.title || is_blank p.abstract_text,
      Exception.conflict "Title and abstract are required",
    )
    ∷ (length p.authorships == 0, Exception.conflict "At least one author is required")
    ∷ (
      not (any (λ a. a.is_corresponding) p.authorships),
      Exception.conflict "A corresponding author is required",
    )
    ∷ (has_scan pending_scan latest, Exception.conflict "PDF is still being scanned")
    ∷ (has_scan infected latest, Exception.conflict "The uploaded PDF failed security scanning")
    ∷ (
      not (is_some p.current_version_id),
      Exception.conflict "A scanned PDF version is required before submission",
    )
    ∷ (
      is_other_version latest p.current_version_id,
      Exception.conflict "The latest PDF is not ready for submission",
    )
    ∷ (
      not (has_scan clean current),
      Exception.conflict "Current version must be scanned and clean before submission",
    )
    ∷ [])

-- `where: { id, status: 'DRAFT', submissionNumber: null }`
abbrev pub is_unnumbered_draft : ℕ → Paper → Bool
is_unnumbered_draft paper_id p =
    p.id == paper_id && is_draft p.status && not (is_some p.submission_number)

abbrev pub numbered : ℕ → String → Paper → Paper
numbered now number p = record p {
  status = submitted;
  submitted_at = some now;
  submission_number = some number;
  version = p.version + 1;
}

abbrev pub has_number : String → Option String → Bool
has_number number none = false
has_number number (some n) = str_eq n number

-- The unique index on the conference and the submission number.
abbrev pub number_taken : ℕ → String → List Paper → Bool
number_taken conference_id number =
    any (λ p. p.conference_id == conference_id && has_number number p.submission_number)

-- The corresponding author as the limit counts it: by the account, or by the address where the
-- author has none.
pub record Corresponding : Type 0 where
  pub user_id : ℕ
  pub email : Option String

abbrev pub has_account : Option Authorship → Bool
has_account none = false
has_account (some a) = is_some a.user_id

-- What `submit` hands to `assignSubmissionNumber`.
unfoldable pub corresponding_of : ℕ → Paper → Corresponding
corresponding_of user p = elim (find (λ a. a.is_corresponding) p.authorships) [
  | none ↦ record { user_id = user; email = none }
  | some a ↦ elim a.user_id [
    | some u ↦ record { user_id = u; email = none }
    | none ↦ record { user_id = user; email = some a.email }
  ]
]

abbrev pub attempts : ℕ
attempts = 5

-- `authorships.find(a => a.isCorresponding) ?? authorships[0]`
abbrev pub contact : List Authorship → Option Authorship
contact authors = elim (find (λ a. a.is_corresponding) authors) [
  | some a ↦ some a
  | none ↦ elim authors [ [] ↦ none | a ∷ rest ↦ some a ]
]

abbrev notify_submitted : ℕ → Option Authorship → Action Db (Unit {0})
notify_submitted paper_id none db = (ok tt, db)
notify_submitted paper_id (some a) db =
    publish (record { template = "paper_submitted"; recipient = a.email; subject_id = paper_id }) db

-- The `catch` of `submit`: the limit is reported as a conflict.
abbrev pub report_limit : {A : Type 0} → Result A × Db → Result A × Db
report_limit (ok a, db) = (ok a, db)
report_limit (err e, db) = (
  elim e [ paper_limit ↦ err (Exception.conflict "CORRESPONDING_PAPER_LIMIT") | other ↦ err other ],
  db,
)

module _ (same_email : String → String → Bool) where
  -- One attempt, a transaction: `none` where no unnumbered draft was left to update.
  unfoldable pub attempt : ℕ → Paper → Corresponding → String → Action Db (Option Paper)
  attempt now p author number = transaction (do
    cfp ← lock_open_cfp now p.conference_id
    submitted_count ←
        corresponding_count same_email p.conference_id author.user_id author.email submitted_papers
    raise_if (leb max_corresponding_papers submitted_count) paper_limit
    assert_cfp_open now cfp
    hit ← gets (λ db. count_where (is_unnumbered_draft p.id) db.papers)
    taken ← gets (λ db. number_taken p.conference_id number db.papers)
    raise_if (not (hit == 0) && taken) unique_violation
    modify (λ db. record db {
      papers = update_where (is_unnumbered_draft p.id) (numbered now number) db.papers;
    })
    found ← gets (λ db. find (λ q. q.id == p.id) db.papers)
    pure (if hit == 1 then found else none))

  -- The loop, with the attempts that are left: a number that is taken is drawn anew.
  unfoldable pub assign_from : ℕ → Paper → Corresponding → (ℕ → String) → ℕ → ℕ → Action Db Paper
  assign_from now p author draw i zero db =
      (err (Exception.conflict "Could not assign a unique submission number"), db)
  assign_from now p author draw i (suc left) db =
      let next = assign_from now p author draw (suc i) left in
      let (r, db') = attempt now p author (draw i) db in
      elim r [
        | ok assigned ↦
            or_raise assigned (Exception.conflict "Paper has already been submitted") db'
        | err e ↦ elim e [
          | unique_violation ↦ elim left [
            | zero ↦ (err (Exception.conflict "Could not assign a unique submission number"), db')
            | suc k ↦ next db'
          ]
          | other ↦ (err other, db')
        ]
      ]

  unfoldable pub submit : ℕ → ℕ → ℕ → ℕ → List RoleKind → (ℕ → String) → Action Db Paper
  submit now user conference_id paper_id roles draw = do
    p ← load_paper user conference_id paper_id roles
    assert_author_can_edit user roles p
    c ← load_conference conference_id
    assert_cfp_open now c
    latest ← gets (latest_version paper_id)
    current ← gets (version_by_id p.current_version_id)
    lift (check_submission p latest current)
    updated ← λ db. report_limit (assign_from now p (corresponding_of user p) draw 0 attempts db)
    log_audit (some user) "paper.submitted" paper_id
    notify_submitted paper_id (contact p.authorships)
    pure updated
