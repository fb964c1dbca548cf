-- ===== src/Review/Rounds/Cycle.antt =====
-- The open cycle of a paper, and edits of a round's dates.
use mathlib.Core.Path.{subst}
use open_conferences.Shared.{
  ==-refl, ℕ, ◌≤◌, ◌≡◌, refl, ap, ◌∙◌, ◌⊎◌, inl, inr, Bool, true, false, not, ◌&&◌, none, some,
  List, [], ◌∷◌, arith, ltb, ◌==◌, Bool-cases, Option-cases, any, find, All, ok,
}
use open_conferences.Store.{Db}
use open_conferences.Review.Rounds.{CycleInput, first_cycle, is_cycle_of, ensure_open_cycle}
use open_conferences.Shared.Membership.{Mem}
use open_conferences.Store.Rows.{ReviewRound, Decision}
use open_conferences.Store.Tables.{latest_by, insert_row}
use open_conferences.Store.Tables.Laws.{latest_by-Mem}

module _ (key : ReviewRound → ℕ) (p : ReviewRound → Bool) where
  abbrev pub Bounded : ℕ → List ReviewRound → Type 0
  Bounded m = All (λ x. (p x ≡ false) ⊎ (key x ≤ m))

  Bounded-mono : (m n : ℕ) (xs : List ReviewRound) → m ≤ n → Bounded m xs → Bounded n xs
  Bounded-mono m n [] le h = tt
  Bounded-mono m n (x ∷ xs) le (h, hs) =
      (elim h [ inl out ↦ inl out | inr below ↦ inr (omega arith) ], Bounded-mono m n xs le hs)

  latest-none :
      (xs : List ReviewRound) (m : ℕ)
      → latest_by key p xs ≡ none
      → (find p xs ≡ none) × Bounded m xs
  latest-none [] m h = (refl, tt)
  latest-none (x ∷ xs) m h = elim (Bool-cases (p x)) [
    | inl hit ↦ absurd (ground arith)
    | inr miss ↦
        let (lost, bound) = latest-none xs m (ground arith) in (ground arith, (inl miss, bound))
  ]

  latest-greatest :
      (xs : List ReviewRound) (r : ReviewRound)
      → latest_by key p xs ≡ some r
      → (p r ≡ true) × Bounded (key r) xs
  latest-greatest [] r h = cc
  latest-greatest (x ∷ xs) r h = elim (Option-cases (latest_by key p xs)) [
    | inl e ↦
        let hit : p x ≡ true = ground arith in
        let same : x ≡ r = ground arith in
        subst (λ q. (p q ≡ true) × Bounded (key q) (x ∷ xs)) same
          (hit, (inr (omega arith), (latest-none xs (key x) e).1))
    | inr (y, e) ↦
        let (passes, bound) = latest-greatest xs y e in
        elim (Bool-cases (p x && not (ltb (key x) (key y)))) [
          | inl new ↦
              let same : x ≡ r = ground arith in
              let below : key y ≤ key x = ground arith in
              subst (λ q. (p q ≡ true) × Bounded (key q) (x ∷ xs)) same
                (ground arith, (inr (omega arith), Bounded-mono (key y) (key x) xs below bound))
          | inr old ↦
              let same : y ≡ r = ground arith in
              subst (λ q. (p q ≡ true) × Bounded (key q) (x ∷ xs)) same
                (passes, (ground arith, bound))
        ]
  ]

-- The cycle that is open for a paper is one of the paper, in its conference. It is the first and
-- only one, new and without releases, where the paper had none; else it is one of the stored rows,
-- as it is stored, without a decision, with the greatest number of the paper's cycles, and nothing
-- is written.
pub ensure_open_cycle_ok :
    (id : ℕ) (input : CycleInput) (db : Db) (r : ReviewRound)
    → (ensure_open_cycle id input db).0 ≡ ok r
    → (is_cycle_of input r ≡ true)
      × (((find (is_cycle_of input) db.rounds ≡ none)
            × (r ≡ first_cycle id input)
            × ((r.id ≡ id) × (r.round_number ≡ 1) × (r.reviews_released_at ≡ none))
            × ((ensure_open_cycle id input db).1 ≡ record db { rounds = insert_row r db.rounds }))
          ⊎ (Mem r db.rounds
              × (any (λ (d : Decision). d.round_id == r.id) db.decisions ≡ false)
              × All
                  (λ x. (is_cycle_of input x ≡ false) ⊎ (x.round_number ≤ r.round_number))
                  db.rounds
              × ((ensure_open_cycle id input db).1 ≡ db)))
unfolding ensure_open_cycle
ensure_open_cycle_ok id input db r h =
    elim (Option-cases
      (latest_by (λ (x : ReviewRound). x.round_number) (is_cycle_of input) db.rounds)) [
        | inl e ↦ (
          ground (arith, ==-refl input.paper_id, ==-refl input.conference_id),
          inl (
            (latest-none (λ x. x.round_number) (is_cycle_of input) db.rounds 0 e).0,
            ground arith,
            (ground arith, ground arith, ground arith),
            ground arith,
          ),
        )
        | inr (s, e) ↦
            let same : s ≡ r = ground arith in
            let (passes, bound) =
              latest-greatest (λ x. x.round_number) (is_cycle_of input) db.rounds r
                (e ∙ ap some same) in
            (
              passes,
              inr (
                latest_by-Mem (λ x. x.round_number) (is_cycle_of input) db.rounds r
                    (e ∙ ap some same),
                ground arith,
                bound,
                ground arith,
              ),
            )
      ]
