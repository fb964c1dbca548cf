-- ===== src/Review/Reviews/Visibility.antt =====
-- What a release shows to the authors.
use open_conferences.Shared.{ℕ, ◌<◌, ◌≡◌, ◌⊎◌, Bool, true, false, some, List, map, ◌==◌, any, find}
use open_conferences.Store.{Db}
use open_conferences.Review.Reviews.Release.{
  ReleaseInput, is_hidden_submitted, released_round, is_round_of, shown_review,
}
use open_conferences.Store.Rows.{Review, ReviewRound, Conference}
use open_conferences.Store.Tables.{count_where, update_where}

abbrev has_row : List Review → Review → Bool
has_row hidden x = any (λ (h : Review). h.id == x.id) hidden

-- A row that passes the test is in the list.
abbrev Contains : (Review → Bool) → List Review → Review → Type 0
Contains p hidden x = (p x ≡ false) ⊎ (has_row hidden x ≡ true)

-- What a release leaves, with the round and the conference that it read.
pub record IsReleased (now conference_id paper_id cycle_id : ℕ) (input : ReleaseInput)
    (db after : Db) (n : ℕ) : Type 0 where
  pub conference : Conference
  pub round : ReviewRound
  pub round_found : find (λ (r : ReviewRound). r.id == cycle_id) db.rounds ≡ some round
  pub of_paper : round.paper_id ≡ paper_id
  pub is_current : round.version ≡ input.version
  pub counted : n ≡ count_where (is_hidden_submitted conference_id paper_id cycle_id) db.reviews
  pub not_zero : 0 < n
  pub none_left :
      count_where (is_hidden_submitted conference_id paper_id cycle_id) after.reviews ≡ 0
  pub rest_kept : map shown_review after.reviews ≡ map shown_review db.reviews
  pub rounds_after :
      after.rounds
      ≡ update_where
          (is_round_of conference_id paper_id cycle_id input.version)
          (released_round now input round conference)
          db.rounds
