-- ===== src/Review/Conflicts.antt =====
-- apps/api/src/review/coi-check.service.ts. `normalize` is `trim().toLowerCase()`.
use text.Mathlib.Text.{◌==◌ as str_eq}
use open_conferences.Shared.{
  ℕ, String, Bool, false, not, ◌&&◌, ◌||◌, Option, none, some, ◌==◌, if◌then◌else◌, is_id, any,
  find,
}
use open_conferences.Store.{Db}
use open_conferences.Store.Rows.{Paper, User, ConflictOfInterest}

pub data Reason : Type 0 where
  authorship declared_coi : Reason

abbrev pub is_author_of : ℕ → Paper → Bool
is_author_of user p = p.submitted_by_id == user || any (λ a. is_id a.user_id user) p.authorships

-- A co-author who was entered by address before there was a linked account.
abbrev pub has_address : (String → String) → Option User → Paper → Bool
has_address normalize none p = false
has_address normalize (some u) p =
    not (str_eq (normalize u.email) "")
    && any (λ a. str_eq (normalize a.email) (normalize u.email)) p.authorships

-- A conflict with the paper, or with one of its authors.
abbrev pub declares : ℕ → ℕ → Paper → ConflictOfInterest → Bool
declares conference_id reviewer p c =
    c.conference_id == conference_id
    && c.user_id == reviewer
    && (is_id c.paper_id p.id || elim c.with_user_id [ none ↦ false | some u ↦ is_author_of u p ])

unfoldable pub check_conflict : (String → String) → ℕ → Paper → ℕ → Db → Option Reason
check_conflict normalize reviewer p conference_id db =
    if is_author_of reviewer p || has_address normalize (find (λ u. u.id == reviewer) db.users) p
    then some authorship
    else if any (declares conference_id reviewer p) db.conflicts
    then some declared_coi
    else none
