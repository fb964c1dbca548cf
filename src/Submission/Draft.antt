-- ===== src/Submission/Draft.antt =====
-- `PapersService.create` and `update`, with `resolveSubmissionTrackId`.
pub mod Outcomes
pub mod Edits
use open_conferences.Shared.{
  ℕ, ◌+◌, String, Bool, true, false, not, ◌&&◌, Option, none, some, List, [], ◌∷◌, leb, ◌==◌,
  is_some, find, Exception, forbidden, not_found, paper_limit, error, ok, err, Action, pure, gets,
  or_raise, transaction, ◌>>=◌, ◌>>◌, modify, raise_if,
}
use open_conferences.Store.{Db, log_audit}
use open_conferences.Store.Rows.{RoleKind, author, Paper, PaperStatus, draft, Track, User}
use open_conferences.Store.Tables.{update_where, insert_row, earliest_by}
use open_conferences.Submission.Queries.{
  max_corresponding_papers, is_draft, open_papers, corresponding_count, load_paper,
  assert_author_can_edit,
}
use open_conferences.Submission.Submit.{report_limit}
use open_conferences.Tenancy.Conferences.{load_conference, lock_open_cfp}
use open_conferences.Tenancy.Phase.{assert_cfp_open}
use open_conferences.Tenancy.Roles.{includes, is_privileged_reader}

-- `CreatePaperInput`
pub record CreateInput : Type 0 where
  pub track_id : Option ℕ
  pub title : String
  pub abstract_text : String
  pub keywords : List String
  pub affiliation : Option String

-- `UpdatePaperInput`
pub record UpdateInput : Type 0 where
  pub track_id : Option ℕ
  pub title : Option String
  pub abstract_text : Option String
  pub keywords : Option (List String)
  pub version : ℕ

-- The ids that are generated for a paper and for a track.
pub record FreshIds : Type 0 where
  pub paper : ℕ
  pub track : ℕ

abbrev pub is_live_track : ℕ → Track → Bool
is_live_track conference_id t = t.conference_id == conference_id && not t.deleted

abbrev pub find_track : ℕ → ℕ → Db → Option Track
find_track conference_id id db = find (λ t. t.id == id && is_live_track conference_id t) db.tracks

-- The track that was asked for, or the oldest one; the first paper makes the main track.
unfoldable pub resolve_submission_track : ℕ → ℕ → ℕ → Option ℕ → Action Db ℕ
resolve_submission_track new_id now conference_id (some requested) db =
    elim (find_track conference_id requested db) [
      | none ↦ (err (not_found "Track not found"), db)
      | some t ↦ (ok t.id, db)
    ]
resolve_submission_track new_id now conference_id none db =
    elim (earliest_by (λ (t : Track). t.created_at) (is_live_track conference_id) db.tracks) [
      | some t ↦ (ok t.id, db)
      | none ↦ (
        ok new_id,
        record db {
          tracks =
              insert_row
                (record {
                  id = new_id;
                  conference_id = conference_id;
                  created_at = now;
                  deleted = false;
                })
                db.tracks;
        },
      )
    ]

-- `input.correspondingAffiliation ? ... : {}`: an empty text counts as none.
abbrev pub given_text : Option String → Option String
given_text none = none
given_text (some String.[]) = none
given_text (some (String.◌∷◌ c s)) = some (String.◌∷◌ c s)

abbrev pub new_paper : ℕ → ℕ → ℕ → ℕ → User → CreateInput → Paper
new_paper id organization_id conference_id track u input = record {
  id = id;
  organization_id = organization_id;
  conference_id = conference_id;
  track_id = track;
  submitted_by_id = u.id;
  current_version_id = none;
  title = input.title;
  abstract_text = input.abstract_text;
  keywords = input.keywords;
  status = PaperStatus.draft;
  submission_number = none;
  submitted_at = none;
  version = 0;
  authorships =
      record {
        user_id = some u.id;
        is_corresponding = true;
        full_name = u.name;
        email = u.email;
        affiliation = given_text input.affiliation;
      }
      ∷ [];
}

abbrev pub set {ℓ} : {A : Type ℓ} → Option A → A → A
set none old = old
set (some new) old = new

-- A field that is not given stays as it is.
abbrev pub edited : UpdateInput → Paper → Paper
edited input p = record p {
  title = set input.title p.title;
  abstract_text = set input.abstract_text p.abstract_text;
  keywords = set input.keywords p.keywords;
  track_id = set input.track_id p.track_id;
  version = p.version + 1;
}

abbrev pub lacks_track : ℕ → Option ℕ → Db → Bool
lacks_track conference_id none db = false
lacks_track conference_id (some id) db = not (is_some (find_track conference_id id db))

-- The transaction of `update`. It looks at the call again, but not at the paper.
unfoldable pub write_update : ℕ → ℕ → ℕ → UpdateInput → Action Db Paper
write_update now conference_id paper_id input = transaction (do
  lock_open_cfp now conference_id
  modify
      (λ db. record db { papers = update_where (λ q. q.id == paper_id) (edited input) db.papers })
  found ← gets (λ db. find (λ q. q.id == paper_id) db.papers)
  or_raise found (error "Record to update not found"))

unfoldable pub update : ℕ → ℕ → ℕ → ℕ → UpdateInput → List RoleKind → Action Db Paper
update now user conference_id paper_id input roles = do
  p ← load_paper user conference_id paper_id roles
  assert_author_can_edit user roles p
  c ← load_conference conference_id
  assert_cfp_open now c
  raise_if (not (is_draft p.status)) (Exception.conflict "Only draft papers can be edited")
  raise_if (not (input.version == p.version))
      (Exception.conflict "Paper was modified by another request")
  missing ← gets (lacks_track conference_id input.track_id)
  raise_if missing (not_found "Track not found")
  write_update now conference_id paper_id input

module _ (same_email : String → String → Bool) where
  -- The transaction of `create`.
  unfoldable pub insert_draft : ℕ → ℕ → ℕ → ℕ → ℕ → User → CreateInput → Action Db Paper
  insert_draft id now organization_id conference_id track u input = transaction (do
    cfp ← lock_open_cfp now conference_id
    open_count ← corresponding_count same_email conference_id u.id none open_papers
    raise_if (leb max_corresponding_papers open_count) paper_limit
    assert_cfp_open now cfp
    modify (λ db. record db {
      papers = insert_row (new_paper id organization_id conference_id track u input) db.papers;
    })
    pure (new_paper id organization_id conference_id track u input))

  unfoldable pub create : FreshIds → ℕ → ℕ → ℕ → CreateInput → List RoleKind → Action Db Paper
  create fresh now user conference_id input roles = do
    c ← load_conference conference_id
    assert_cfp_open now c
    raise_if (not (includes roles author) && not (is_privileged_reader roles))
        (forbidden "Author role required to create submissions")
    found ← gets (λ db. find (λ (u : User). u.id == user) db.users)
    u ← or_raise found (not_found "User not found")
    track ← resolve_submission_track fresh.track now conference_id input.track_id
    p ← λ db.
        report_limit (insert_draft fresh.paper now c.organization_id conference_id track u input db)
    log_audit (some user) "paper.created" p.id
    pure p
