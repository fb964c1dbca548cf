-- ===== src/Common/Tests.antt =====
-- The theorems on pages, applied to a list of two rows.
use open_conferences.Shared.{
  ℕ, ◌≡◌, refl, ap, none, some, List, [], ◌∷◌, ◌++◌, arith, ◌==◌, if◌then◌else◌, take,
}
use open_conferences.Common.Pagination.{CursorArgs, list_page, read_all}
use open_conferences.Common.Pagination.Walk.{read_all_complete}

abbrev rows_after : ℕ → List ℕ → List ℕ
rows_after id [] = []
rows_after id (x ∷ xs) = let rest = rows_after id xs in if x == id then xs else rest

abbrev two_rows : List ℕ
two_rows = 5 ∷ 6 ∷ []

abbrev find_two : CursorArgs → List ℕ
find_two args = elim args.cursor [
  | none ↦ take args.take_rows two_rows
  | some id ↦ take args.take_rows (rows_after id two_rows)
]

after_first : (x : ℕ) (post : List ℕ) → two_rows ≡ x ∷ post → rows_after x two_rows ≡ post
after_first x post h = let same : x ≡ 5 = ground arith in rw same (ground arith)

after_second : (a x : ℕ) (post : List ℕ) → two_rows ≡ a ∷ x ∷ post → rows_after x two_rows ≡ post
after_second a x post h = let same : x ≡ 6 = ground arith in rw same (ground arith)

two_rows_after :
    (n : ℕ) (pre : List ℕ) (x : ℕ) (post : List ℕ)
    → two_rows ≡ (pre ++ (x ∷ [])) ++ post
    → find_two (record { take_rows = n; cursor = some x; skip = 1 }) ≡ take n post
two_rows_after n [] x post h = ap (take n) (after_first x post h)
two_rows_after n (a ∷ []) x post h = ap (take n) (after_second a x post h)
two_rows_after n (a ∷ b ∷ []) x post h = absurd (ground arith)
two_rows_after n (a ∷ b ∷ c ∷ pre) x post h = absurd (ground arith)

read_all_complete_example : read_all 3 (list_page find_two 1 (λ x. x)) none ≡ some two_rows
read_all_complete_example =
    read_all_complete find_two (λ x. x) 1 two_rows (λ n. refl) two_rows_after (omega arith)
