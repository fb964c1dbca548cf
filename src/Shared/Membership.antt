-- ===== src/Shared/Membership.antt =====
-- The entries of a list, and what a search, a filter and an insertion have to do with them.
use mathlib.Core.Path.{◌≡◌, subst}
use mathlib.Core.Bool.{Bool, true}
use mathlib.Core.Logic.{inl, inr}
use mathlib.Core.Option.{some}
use mathlib.Core.List.{List, [], ◌∷◌}
use native.Mathlib.Omega.{arith}
use open_conferences.Shared.Lists.{find, filter_by, All}
use open_conferences.Shared.Tests.{Bool-cases}

-- `a` is one of the entries.
pub data Mem {A : Type 0} (a : A) : List A → Type 0 where
  first : {rows : List A} → Mem a (a ∷ rows)
  later : {b : A} {rows : List A} → Mem a rows → Mem a (b ∷ rows)

module _ {A : Type 0} (p : A → Bool) where
  -- What is found is an entry.
  pub find-Mem : (xs : List A) (x : A) → find p xs ≡ some x → Mem x xs
  find-Mem [] x h = absurd (ground arith)
  find-Mem (y ∷ ys) x h = elim (Bool-cases (p y)) [
    | inl hit ↦ let same : y ≡ x = ground arith in subst (λ z. Mem z (y ∷ ys)) same first
    | inr miss ↦ later (find-Mem ys x (ground arith))
  ]

  -- What is kept passes the test and was an entry.
  pub filter_by-Mem :
      (all xs : List A)
      → ((x : A) → Mem x xs → Mem x all)
      → All (λ x. Mem x all × (p x ≡ true)) (filter_by p xs)
  filter_by-Mem all [] within = tt
  filter_by-Mem all (y ∷ ys) within =
      let rest = filter_by-Mem all ys (λ x m. within x (later m)) in
      elim (Bool-cases (p y)) [
        | inl hit ↦ rw hit ((within y first, hit), rest)
        | inr miss ↦ rw miss rest
      ]

pub All-map :
    {A : Type 0} (P Q : A → Type 0) (xs : List A) → ((x : A) → P x → Q x) → All P xs → All Q xs
All-map P Q [] f all = tt
All-map P Q (x ∷ xs) f (h, hs) = (f x h, All-map P Q xs f hs)
