-- ===== src/Common/Pagination/Walk.antt =====
-- Reading a list to its end, page after page, by the cursors of cursor.ts.
use mathlib.Core.Path.{subst}
use open_conferences.Shared.{
  ℕ, zero, suc, ◌+◌, ◌≤◌, ◌<◌, ◌≡◌, refl, sym, ap, ◌∙◌, inl, inr, true, Option, none, some, List,
  [], ◌∷◌, ◌++◌, arith, ltb, Bool-cases, length, take, last?, append_assoc,
}
use open_conferences.Common.Pagination.{
  CursorArgs, prisma_cursor_args, PaginatedResult, next_of, paginate_items, list_page, read_all,
}

module _ {A : Type 0} where
  -- The first rows up to a last one, and the rest.
  record IsCut (n : ℕ) (xs : List A) : Type 0 where
    front : List A
    end : A
    rest : List A
    parts : xs ≡ (front ++ (end ∷ [])) ++ rest
    page : take n (take (suc n) xs) ≡ front ++ (end ∷ [])
    end_is_last : last? (front ++ (end ∷ [])) ≡ some end
    shorter : length rest < length xs
    overfull : ltb n (length (take (suc n) xs)) ≡ true

  last-cons :
      (x : A) (front : List A) (end : A)
      → last? (front ++ (end ∷ [])) ≡ some end
      → last? (x ∷ (front ++ (end ∷ []))) ≡ some end
  last-cons x [] end h = refl
  last-cons x (y ∷ front) end h = h

  cut : (n : ℕ) (xs : List A) → 0 < n → n < length xs → IsCut n xs
  cut zero xs positive longer = absurd (omega arith)
  cut (suc n) [] positive longer = absurd (omega arith)
  cut (suc zero) (x ∷ []) positive longer = absurd (omega arith)
  cut (suc zero) (x ∷ y ∷ xs) positive longer = record {
    front = [];
    end = x;
    rest = y ∷ xs;
    parts = refl;
    page = refl;
    end_is_last = refl;
    shorter = omega arith;
    overfull = refl;
  }
  cut (suc (suc n)) (x ∷ xs) positive longer =
      let c = cut (suc n) xs (omega arith) (omega arith) in
      record {
        front = x ∷ c.front;
        end = c.end;
        rest = c.rest;
        parts = ap (λ l. x ∷ l) c.parts;
        page = ap (λ l. x ∷ l) c.page;
        end_is_last = last-cons x c.front c.end c.end_is_last;
        shorter = omega (arith, c.shorter);
        overfull = ground (arith, c.overfull);
      }

  whole : (n : ℕ) (xs : List A) → length xs ≤ n → take (suc n) xs ≡ xs
  whole n [] h = ground arith
  whole zero (x ∷ xs) h = absurd (omega arith)
  whole (suc n) (x ∷ xs) h = ap (λ l. x ∷ l) (whole n xs (omega arith))

  -- A page of the rows that are left: all of them, or the first of a longer list.
  data IsPage (get_id : A → ℕ) (limit : ℕ) (todo : List A) (page : PaginatedResult A) : Type 0 where
    final : page.next_cursor ≡ none → page.data_rows ≡ todo → IsPage get_id limit todo page
    partial :
        (c : IsCut limit todo)
        → page.next_cursor ≡ some (get_id c.end)
        → page.data_rows ≡ c.front ++ (c.end ∷ [])
        → IsPage get_id limit todo page

  paginate_items-IsPage :
      (get_id : A → ℕ) (limit : ℕ) (todo : List A)
      → 0 < limit
      → IsPage get_id limit todo (paginate_items (take (suc limit) todo) limit get_id)
  unfolding paginate_items next_of
  paginate_items-IsPage get_id limit todo positive = elim (Bool-cases (ltb limit (length todo))) [
    | inl more ↦
        let c = cut limit todo positive (ground arith) in
        partial c (ground (arith, c.overfull, c.page, c.end_is_last))
          (ground (arith, c.overfull, c.page))
    | inr fits ↦
        let fetched = whole limit todo (ground arith) in
        final (ground (arith, fetched)) (ground (arith, fetched))
  ]

  module _ (find_many : CursorArgs → List A) (get_id : A → ℕ) (limit : ℕ) (rows : List A)
      (from_start : (n : ℕ)
        → find_many (record { take_rows = n; cursor = none; skip = 0 }) ≡ take n rows)
      (from_row : (n : ℕ) (pre : List A) (x : A) (post : List A)
        → rows ≡ (pre ++ (x ∷ [])) ++ post
        → find_many (record { take_rows = n; cursor = some (get_id x); skip = 1 }) ≡ take n post)
      (positive : 0 < limit) where
    one_more : suc limit ≡ limit + 1
    one_more = omega arith

    list_page-IsPage :
        (cursor : Option ℕ) (todo : List A)
        → find_many (prisma_cursor_args cursor limit) ≡ take (suc limit) todo
        → IsPage get_id limit todo (list_page find_many limit get_id cursor)
    unfolding list_page
    list_page-IsPage cursor todo fetched =
        subst (λ items. IsPage get_id limit todo (paginate_items items limit get_id)) (sym fetched)
          (paginate_items-IsPage get_id limit todo positive)

    -- What the client fetches after the last row of a page.
    fetched_next :
        (before todo : List A) (c : IsCut limit todo)
        → rows ≡ before ++ todo
        → (rows ≡ ((before ++ c.front) ++ (c.end ∷ [])) ++ c.rest)
          × (find_many (prisma_cursor_args (some (get_id c.end)) limit) ≡ take (suc limit) c.rest)
    unfolding prisma_cursor_args
    fetched_next before todo c split =
        let parts : rows ≡ ((before ++ c.front) ++ (c.end ∷ [])) ++ c.rest =
          split
          ∙ ap (λ l. before ++ l) (c.parts ∙ append_assoc c.front (c.end ∷ []) c.rest)
          ∙ sym (append_assoc before c.front (c.end ∷ c.rest))
          ∙ sym (append_assoc (before ++ c.front) (c.end ∷ []) c.rest) in
        (
          parts,
          subst
              (λ n.
                find_many (record { take_rows = n; cursor = some (get_id c.end); skip = 1 })
                ≡ take (suc limit) c.rest)
              one_more (from_row (suc limit) (before ++ c.front) c.end c.rest parts),
        )

    read_from :
        (fuel : ℕ) (cursor : Option ℕ) (before todo : List A)
        → length todo < fuel
        → rows ≡ before ++ todo
        → find_many (prisma_cursor_args cursor limit) ≡ take (suc limit) todo
        → read_all fuel (list_page find_many limit get_id) cursor ≡ some todo
    unfolding read_all
    read_from zero cursor before todo enough split fetched = absurd (omega arith)
    read_from (suc fuel) cursor before todo enough split fetched =
        elim (list_page-IsPage cursor todo fetched) [
          | final done all ↦ ground arith
          | partial c next page ↦
              let (split', fetched') = fetched_next before todo c split in
              let rest =
                read_from fuel (some (get_id c.end)) ((before ++ c.front) ++ (c.end ∷ [])) c.rest
                  (omega (arith, c.shorter)) split' fetched' in
              ground (arith, c.parts)
        ]

    -- Reading page after page from the start until no cursor is left ends within as many rounds as
    -- there are rows, and one, and gives every row once and in order, for every limit of at
    -- least one row, if `findMany` gives the rows after the row of the cursor.
    pub read_all_complete :
        read_all (suc (length rows)) (list_page find_many limit get_id) none ≡ some rows
    unfolding prisma_cursor_args
    read_all_complete = read_from (suc (length rows)) none [] rows (omega arith) refl (
        subst
          (λ n.
            find_many (record { take_rows = n; cursor = none; skip = 0 }) ≡ take (suc limit) rows)
          one_more (from_start (suc limit)))
