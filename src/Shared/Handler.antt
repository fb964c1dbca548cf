-- ===== src/Shared/Handler.antt =====
-- What a request handler does: it reads and writes the database and returns or throws.
-- The state comes back after a throw too, since what an earlier transaction committed stays.
use Prim.Native.String.{String}
use mathlib.Core.Bool.{Bool}
use mathlib.Core.List.{List, [], ◌∷◌}
use mathlib.Core.Path.{◌≡◌, refl}
use mathlib.Core.Logic.{◌⊎◌, inl, inr}
use mathlib.Core.Option.{Option, none, some}
use open_conferences.Shared.Tests.{if◌then◌else◌}

-- The exceptions of `@nestjs/common` that the services throw, with their messages; `limit`,
-- `unique` and `error` are the other errors that the code tells apart.
pub data Exception : Type 0 where
  bad_request forbidden not_found conflict unprocessable : String → Exception
  paper_limit unique_violation : Exception
  error : String → Exception

pub data Result {ℓ} (A : Type ℓ) : Type ℓ where
  ok : A → Result A
  err : Exception → Result A

abbrev pub Action : Type 0 → Type 0 → Type 0
Action S A = S → Result A × S

module _ {S A : Type 0} where
  abbrev pub pure : A → Action S A
  pure a s = (ok a, s)

  abbrev pub raise : Exception → Action S A
  raise e s = (err e, s)

  abbrev pub gets : (S → A) → Action S A
  gets f s = (ok (f s), s)

  abbrev pub or_raise : Option A → Exception → Action S A
  or_raise none e s = (err e, s)
  or_raise (some a) _ s = (ok a, s)

  abbrev pub lift : Result A → Action S A
  lift r s = (r, s)

  -- `prisma.$transaction`: a throw rolls back what the transaction wrote.
  abbrev pub transaction : Action S A → Action S A
  transaction m s = let (r, s') = m s in elim r [ ok a ↦ (ok a, s') | err e ↦ (err e, s) ]

infixl 5 ◌>>=◌ ◌>>◌
abbrev pub ◌>>=◌ : {S A B : Type 0} → Action S A → (A → Action S B) → Action S B
◌>>=◌ m f s = let (r, s') = m s in elim r [ ok a ↦ f a s' | err e ↦ (err e, s') ]

abbrev pub ◌>>◌ : {S A B : Type 0} → Action S A → Action S B → Action S B
m >> k = m >>= λ _. k

module _ {S : Type 0} where
  abbrev pub modify : (S → S) → Action S (Unit {0})
  modify f s = (ok tt, f s)

  -- `if (c) throw e;`
  abbrev pub raise_if : Bool → Exception → Action S (Unit {0})
  raise_if c e s = (if c then err e else ok tt, s)

  abbrev pub when : Bool → Action S (Unit {0}) → Action S (Unit {0})
  when c m s = if c then m s else (ok tt, s)

abbrev pub IsOk {ℓ} : {A : Type ℓ} → Result A → Type 0
IsOk (ok _) = Unit
IsOk (err _) = ⊥

-- A row of guards, `if (c) throw e;` one after another.
abbrev pub first_error : List (Bool × Exception) → Result (Unit {0})
first_error [] = ok tt
first_error ((c, e) ∷ rest) = if c then err e else first_error rest

pub Result-cases {ℓ} :
    {A : Type ℓ} (r : Result A) → ((e : Exception) × (r ≡ err e)) ⊎ ((a : A) × (r ≡ ok a))
Result-cases (ok a) = inr (a, refl)
Result-cases (err e) = inl (e, refl)
