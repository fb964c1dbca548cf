-- ===== src/Submission/Queries.antt =====
-- The helpers of `PapersService`: loading a paper, who may touch it, and how many papers an
-- author corresponds for.
use open_conferences.Shared.{
  ℕ, String, Bool, true, false, not, ◌&&◌, ◌||◌, Option, none, some, List, ◌==◌, is_id, any, find,
  forbidden, not_found, Action, pure, gets, or_raise, ◌>>=◌, ◌>>◌, raise_if,
}
use open_conferences.Store.{Db}
use open_conferences.Store.Rows.{
  RoleKind, Paper, PaperStatus, draft, withdrawn, withdrawn_nonpayment,
}
use open_conferences.Store.Tables.{count_where}
use open_conferences.Tenancy.Roles.{is_privileged_reader}
use open_conferences.Tenancy.Conferences.{load_conference}

abbrev pub max_corresponding_papers : ℕ
max_corresponding_papers = 2

abbrev pub is_draft : PaperStatus → Bool
is_draft draft = true
is_draft _ = false

-- `WITHDRAWN` or `WITHDRAWN_NONPAYMENT`
abbrev pub is_closed : PaperStatus → Bool
is_closed withdrawn = true
is_closed withdrawn_nonpayment = true
is_closed _ = false

unfoldable pub is_paper_author : ℕ → Paper → Bool
is_paper_author user p = p.submitted_by_id == user || any (λ a. is_id a.user_id user) p.authorships

unfoldable pub load_paper_for_mutation : ℕ → ℕ → Action Db Paper
load_paper_for_mutation conference_id paper_id =
    gets (λ db. find (λ p. p.id == paper_id && p.conference_id == conference_id) db.papers)
    >>= λ found. or_raise found (not_found "Paper not found")

-- `loadPaper`: found by its id; of another conference, or of other authors for a reader without
-- privileges, it is reported as missing.
unfoldable pub load_paper : ℕ → ℕ → ℕ → List RoleKind → Action Db Paper
unfolding load_conference is_paper_author
load_paper user conference_id paper_id roles = do
  load_conference conference_id
  found ← gets (λ db. find (λ p. p.id == paper_id) db.papers)
  p ← or_raise found (not_found "Paper not found")
  raise_if (not (p.conference_id == conference_id)) (not_found "Resource not found")
  raise_if (not (is_privileged_reader roles) && not (is_paper_author user p))
      (not_found "Paper not found")
  pure p

-- `assertAuthorCanEdit`
unfoldable pub assert_author_can_edit : ℕ → List RoleKind → Paper → Action Db (Unit {0})
unfolding is_paper_author
assert_author_can_edit user roles p =
    raise_if (not (is_privileged_reader roles) && not (is_paper_author user p))
      (forbidden "Only paper authors can edit this submission")

-- Which papers a count covers: all that are not closed, or those that are submitted too.
pub data CountMode : Type 0 where
  open_papers submitted_papers : CountMode

unfoldable pub counts : CountMode → PaperStatus → Bool
counts open_papers s = not (is_closed s)
counts submitted_papers s = not (is_closed s || is_draft s)

-- `same_email` is the database's comparison in the mode `insensitive`.
module _ (same_email : String → String → Bool) where
  abbrev pub is_address : Option String → String → Bool
  is_address none _ = false
  is_address (some a) email = same_email email a

  unfoldable pub corresponds : ℕ → ℕ → Option String → CountMode → Paper → Bool
  unfolding counts
  corresponds conference_id user email mode p =
      p.conference_id == conference_id
      && counts mode p.status
      && any (λ a. a.is_corresponding && (is_id a.user_id user || is_address email a.email))
          p.authorships

  -- `lockedCorrespondingCount`; the advisory lock holds until the transaction ends.
  unfoldable pub corresponding_count : ℕ → ℕ → Option String → CountMode → Action Db ℕ
  unfolding corresponds
  corresponding_count conference_id user email mode =
      gets (λ db. count_where (corresponds conference_id user email mode) db.papers)
