-- ===== src/Store/Tables.antt =====
-- The queries of the Prisma client over a table: a list of rows in the order of creation.
pub mod Laws
use open_conferences.Shared.{
  ℕ, suc, Bool, Option, none, some, List, [], ◌∷◌, if◌then◌else◌, ltb, leb,
}

module _ {A : Type 0} where
  -- `count({ where })`
  abbrev pub count_where : (A → Bool) → List A → ℕ
  count_where p [] = 0
  count_where p (x ∷ xs) = let rest = count_where p xs in if p x then suc rest else rest

  -- `updateMany({ where, data })`
  abbrev pub update_where : (A → Bool) → (A → A) → List A → List A
  update_where p f [] = []
  update_where p f (x ∷ xs) = (if p x then f x else x) ∷ update_where p f xs

  -- `deleteMany({ where })`
  abbrev pub delete_where : (A → Bool) → List A → List A
  delete_where p [] = []
  delete_where p (x ∷ xs) = let rest = delete_where p xs in if p x then rest else x ∷ rest

  -- `create({ data })`
  abbrev pub insert_row : A → List A → List A
  insert_row x [] = x ∷ []
  insert_row x (y ∷ ys) = y ∷ insert_row x ys

  abbrev greater_of : (A → ℕ) → A → Option A → A
  greater_of key x none = x
  greater_of key x (some y) = if ltb (key x) (key y) then y else x

  -- `findFirst({ where, orderBy: { key: 'desc' } })`; of equal keys the first in the table.
  abbrev pub latest_by : (A → ℕ) → (A → Bool) → List A → Option A
  latest_by key p [] = none
  latest_by key p (x ∷ xs) =
      let rest = latest_by key p xs in if p x then some (greater_of key x rest) else rest

  abbrev lesser_of : (A → ℕ) → A → Option A → A
  lesser_of key x none = x
  lesser_of key x (some y) = if leb (key x) (key y) then x else y

  -- `findFirst({ where, orderBy: { key: 'asc' } })`
  abbrev pub earliest_by : (A → ℕ) → (A → Bool) → List A → Option A
  earliest_by key p [] = none
  earliest_by key p (x ∷ xs) =
      let rest = earliest_by key p xs in if p x then some (lesser_of key x rest) else rest
