-- ===== src/Store/Tables/Laws.antt =====
-- What an update, an insertion and a deletion do to lookups and counts.
use mathlib.Core.Path.{subst}
use open_conferences.Shared.{
  ℕ, ◌+◌, ◌≤◌, ◌<◌, ◌≡◌, refl, sym, ap, ◌∙◌, inl, inr, Bool, true, not, ◌&&◌, ◌||◌, none, some,
  List, [], ◌∷◌, ◌++◌, arith, ltb, if◌then◌else◌, Bool-cases, Option-cases, length, any, find,
  sum_of,
}
use open_conferences.Shared.Membership.{Mem, first, later}
use open_conferences.Store.Tables.{latest_by, count_where, update_where, insert_row}

or_left : (a b : Bool) → a ≡ true → (a || b) ≡ true
or_left a b h = rw h

or_true : (a b : Bool) → b ≡ true → (a || b) ≡ true
or_true a b h = ground arith

module _ {A : Type 0} (p : A → Bool) (f : A → A) where
  -- An update that keeps `q` on the rows that it changes leaves the rows it does not touch.
  pub find-update_where :
      (q : A → Bool) (xs : List A)
      → ((x : A) → q (f x) ≡ q x)
      → find q (update_where p f xs)
        ≡ elim (find q xs) [ none ↦ none | some x ↦ some (if p x then f x else x) ]
  find-update_where q [] keep = refl
  find-update_where q (x ∷ xs) keep = ground (arith, keep x, find-update_where q xs keep)

  -- What was found is still found, changed or not.
  pub found-update_where :
      (q : A → Bool) (xs : List A) (x : A)
      → ((x : A) → q (f x) ≡ q x)
      → find q xs ≡ some x
      → (y : A) × (find q (update_where p f xs) ≡ some y)
  found-update_where q xs x keep h = (if p x then f x else x, find-update_where q xs keep ∙ rw h)

  pub length-update_where : (xs : List A) → length (update_where p f xs) ≡ length xs
  length-update_where [] = refl
  length-update_where (x ∷ xs) = omega (arith, length-update_where xs)

module _ {A : Type 0} where
  pub insert_row-append : (x : A) (xs : List A) → insert_row x xs ≡ xs ++ (x ∷ [])
  insert_row-append x [] = refl
  insert_row-append x (y ∷ ys) = ap (λ zs. y ∷ zs) (insert_row-append x ys)

  pub count_where-insert_row :
      (p : A → Bool) (x : A) (xs : List A)
      → count_where p (insert_row x xs) ≡ count_where p xs + (if p x then 1 else 0)
  count_where-insert_row p x [] = ground arith
  count_where-insert_row p x (y ∷ ys) = ground (arith, count_where-insert_row p x ys)

  pub sum_of-insert_row :
      (f : A → ℕ) (x : A) (xs : List A) → sum_of f (insert_row x xs) ≡ sum_of f xs + f x
  sum_of-insert_row f x [] = omega arith
  sum_of-insert_row f x (y ∷ ys) = omega (arith, sum_of-insert_row f x ys)

  -- An update makes at most as many more rows counted as it changes.
  pub count_where-update_where :
      (q p : A → Bool) (f : A → A) (xs : List A)
      → count_where q (update_where p f xs) ≤ count_where q xs + count_where p xs
  count_where-update_where q p f [] = omega arith
  count_where-update_where q p f (x ∷ xs) = ground (arith, count_where-update_where q p f xs)

  -- A counted row is found, by every test that it passes.
  pub find_of_count :
      (p q : A → Bool) (xs : List A)
      → ((x : A) → p x ≡ true → q x ≡ true)
      → 0 < count_where p xs
      → (x : A) × (find q xs ≡ some x)
  find_of_count p q [] sub h = absurd (omega arith)
  find_of_count p q (x ∷ xs) sub h = elim (Bool-cases (q x)) [
    | inl hit ↦ (x, rw hit)
    | inr miss ↦
        let (y, found) = find_of_count p q xs sub (ground (arith, sub x)) in (y, rw miss found)
  ]

  -- The latest row passes the test, and every test that it passes is passed by a row of the table.
  pub latest_by_sound :
      (key : A → ℕ) (p : A → Bool) (xs : List A) (x : A)
      → latest_by key p xs ≡ some x
      → (p x ≡ true) × ((q : A → Bool) → q x ≡ true → any q xs ≡ true)
  latest_by_sound key p [] x h = absurd (ground arith)
  latest_by_sound key p (y ∷ ys) x h = elim (Bool-cases (p y)) [
    | inr miss ↦
        let latest : latest_by key p ys ≡ some x = ground arith in
        let (passes, found) = latest_by_sound key p ys x latest in
        (passes, λ q fits. or_true (q y) (any q ys) (found q fits))
    | inl hit ↦ elim (Option-cases (latest_by key p ys)) [
      | inl none_later ↦
          let same : x ≡ y = ground arith in
          (rw same hit, λ q fits. or_left (q y) (any q ys) (ap q (sym same) ∙ fits))
      | inr (z, latest) ↦
          let (passes, found) = latest_by_sound key p ys z latest in
          elim (Bool-cases (ltb (key y) (key z))) [
            | inl less ↦
                let same : x ≡ z = ground arith in
                (
                  rw same passes,
                  λ q fits. or_true (q y) (any q ys) (found q (ap q (sym same) ∙ fits)),
                )
            | inr not_less ↦
                let same : x ≡ y = ground arith in
                (rw same hit, λ q fits. or_left (q y) (any q ys) (ap q (sym same) ∙ fits))
          ]
    ]
  ]

  pub latest_by-none :
      (key : A → ℕ) (p : A → Bool) (xs : List A) → latest_by key p xs ≡ none → count_where p xs ≡ 0
  latest_by-none key p [] h = refl
  latest_by-none key p (y ∷ ys) h = ground (arith, latest_by-none key p ys)

  -- The latest row is a row of the table.
  pub latest_by-Mem :
      (key : A → ℕ) (p : A → Bool) (xs : List A) (x : A) → latest_by key p xs ≡ some x → Mem x xs
  latest_by-Mem key p [] x h = absurd (ground arith)
  latest_by-Mem key p (y ∷ ys) x h = elim (Option-cases (latest_by key p ys)) [
    | inl none_after ↦ let same : y ≡ x = ground arith in subst (λ z. Mem z (y ∷ ys)) same first
    | inr (z, after) ↦ elim (Bool-cases (p y && not (ltb (key y) (key z)))) [
      | inl new ↦ let same : y ≡ x = ground arith in subst (λ z. Mem z (y ∷ ys)) same first
      | inr old ↦
          let same : z ≡ x = ground arith in
          subst (λ w. Mem w (y ∷ ys)) same (later (latest_by-Mem key p ys z after))
    ]
  ]
