-- ===== src/Common/Pagination.antt =====
-- Pages of a list: apps/api/src/common/pagination/cursor.ts.
pub mod Walk
use open_conferences.Shared.{
  ℕ, zero, suc, ◌+◌, Bool, true, false, ◌&&◌, Option, none, some, List, ◌++◌, ltb, if◌then◌else◌,
  length, take, last?, ◌>>=◌, ◌>>◌,
}

pub default_page_limit : ℕ
default_page_limit = 20

-- `resolveLimit`: the limit that was asked for, or the fallback.
unfoldable pub resolve_limit : Option ℕ → ℕ → ℕ
resolve_limit (some limit) _ = limit
resolve_limit none fallback = fallback

-- The arguments of `findMany`: how many rows at most, after which row, and how many rows to
-- leave out from that row on.
pub record CursorArgs : Type 0 where
  pub take_rows : ℕ
  pub cursor : Option ℕ
  pub skip : ℕ

-- `prismaCursorArgs`: one row more than the page holds, after the row of the cursor.
unfoldable pub prisma_cursor_args : Option ℕ → ℕ → CursorArgs
prisma_cursor_args (some id) limit = record { take_rows = limit + 1; cursor = some id; skip = 1 }
prisma_cursor_args none limit = record { take_rows = limit + 1; cursor = none; skip = 0 }

pub record PaginatedResult (A : Type 0) : Type 0 where
  pub data_rows : List A
  pub next_cursor : Option ℕ

module _ {A : Type 0} where
  -- `hasMore && last ? getId(last) : null`
  unfoldable pub next_of : Bool → Option A → (A → ℕ) → Option ℕ
  next_of true (some x) get_id = some (get_id x)
  next_of true none _ = none
  next_of false _ _ = none

  -- `paginateItems`: the page without the row that was fetched to see if there are more.
  unfoldable pub paginate_items : List A → ℕ → (A → ℕ) → PaginatedResult A
  paginate_items items limit get_id =
      let has_more = ltb limit (length items) in
      let page = if has_more then take limit items else items in
      record { data_rows = page; next_cursor = next_of has_more (last? page) get_id }

  -- A list endpoint: `findMany` with the arguments of the cursor, then the page of its rows.
  unfoldable pub list_page : (CursorArgs → List A) → ℕ → (A → ℕ) → Option ℕ → PaginatedResult A
  list_page find_many limit get_id cursor =
      paginate_items (find_many (prisma_cursor_args cursor limit)) limit get_id

  -- The loop `do { page = await list({ cursor }); all.push(...page.data); cursor =
  -- page.nextCursor } while (cursor)`, in at most so many rounds; `none` where they are too few.
  unfoldable pub read_all : ℕ → (Option ℕ → PaginatedResult A) → Option ℕ → Option (List A)
  read_all zero _ _ = none
  read_all (suc fuel) list cursor =
      let page = list cursor in
      elim page.next_cursor [
        | none ↦ some page.data_rows
        | some next ↦ elim (read_all fuel list (some next)) [
          | none ↦ none
          | some rest ↦ some (page.data_rows ++ rest)
        ]
      ]
