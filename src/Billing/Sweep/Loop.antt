-- ===== src/Billing/Sweep/Loop.antt =====
-- A loop that discards registrations, whichever rule it has for skipping one.
use mathlib.Core.Path.{subst}
use open_conferences.Shared.{
  ==-refl, ==-sound, ℕ, ◌≤◌, ◌<◌, ◌≡◌, refl, sym, ap, ◌∙◌, ◌⊎◌, inl, inr, Bool, true, false, not,
  ◌&&◌, some, List, [], ◌∷◌, arith, ◌==◌, if◌then◌else◌, Bool-cases, find, filter_by, All,
  find_sound,
}
use open_conferences.Store.{Db}
use open_conferences.Billing.Sweep.{discarded_registration, sweep_all}
use open_conferences.Store.Rows.{Registration, Payment}
use open_conferences.Store.Tables.{count_where, update_where}
use open_conferences.Store.Tables.Laws.{find-update_where}

abbrev pub has_id : ℕ → Registration → Bool
has_id k r = r.id == k

-- What one round of the loop does to the registrations and the payments.
pub record IsSweep (skips : Registration → List Payment → Bool) (step : Registration → Db → ℕ × Db)
    : Type 0 where
  pub payments_kept : (c : Registration) (db : Db) → (step c db).1.payments ≡ db.payments
  pub skipped :
      (c : Registration) (db : Db)
      → skips c db.payments ≡ true
      → (step c db).1.registrations ≡ db.registrations
  pub discarded :
      (c : Registration) (db : Db)
      → skips c db.payments ≡ false
      → (step c db).1.registrations
        ≡ update_where (λ (x : Registration). x.id == c.id) discarded_registration db.registrations

-- A row is `r`, or has another id.
abbrev OnlyRow : Registration → Registration → Type 0
OnlyRow r x = (x ≡ r) ⊎ (has_id r.id x ≡ false)

none_OnlyRow :
    (r : Registration) (rs : List Registration)
    → count_where (has_id r.id) rs ≡ 0
    → All (OnlyRow r) rs
none_OnlyRow r [] h = tt
none_OnlyRow r (x ∷ xs) h = elim (Bool-cases (has_id r.id x)) [
  | inl same ↦ absurd (ground arith)
  | inr other ↦ (inr other, none_OnlyRow r xs (ground arith))
]

-- The row that is found by its id is the only one with it, if ids are distinct.
found_OnlyRow :
    (r : Registration) (rs : List Registration)
    → find (has_id r.id) rs ≡ some r
    → count_where (has_id r.id) rs ≤ 1
    → All (OnlyRow r) rs
found_OnlyRow r [] h one = tt
found_OnlyRow r (x ∷ xs) h one = elim (Bool-cases (has_id r.id x)) [
  | inl hit ↦ let same : x ≡ r = ground arith in (inl same, none_OnlyRow r xs (ground arith))
  | inr miss ↦ (inr miss, found_OnlyRow r xs (ground arith) (ground arith))
]

module _ (p : Registration → Bool) (r : Registration) where
  filter_OnlyRow : (rs : List Registration) → All (OnlyRow r) rs → All (OnlyRow r) (filter_by p rs)
  filter_OnlyRow [] all = tt
  filter_OnlyRow (x ∷ xs) (here, there) = elim (Bool-cases (p x)) [
    | inl hit ↦ rw hit (here, filter_OnlyRow xs there)
    | inr miss ↦ rw miss (filter_OnlyRow xs there)
  ]

  -- The filter has the row as often as the list if the row passes it, and else not at all.
  count_filter :
      (rs : List Registration)
      → All (OnlyRow r) rs
      → count_where (has_id r.id) (filter_by p rs)
        ≡ (if p r then count_where (has_id r.id) rs else 0)
  count_filter [] all = ground arith
  count_filter (x ∷ xs) (inr other, there) = ground (arith, count_filter xs there)
  count_filter (x ∷ xs) (inl same, there) =
      let rest = count_filter xs there in rw same (ground (arith, rest, ==-refl r.id))

found_counts :
    (r : Registration) (rs : List Registration)
    → find (has_id r.id) rs ≡ some r
    → 0 < count_where (has_id r.id) rs
found_counts r [] h = cc
found_counts r (x ∷ xs) h = ground (arith, found_counts r xs)

module _ (skips : Registration → List Payment → Bool) (step : Registration → Db → ℕ × Db)
    (sweeps : IsSweep skips step) (k : ℕ) where
  -- A round on another registration.
  other_round :
      (c s : Registration) (db : Db)
      → has_id k c ≡ false
      → find (has_id k) db.registrations ≡ some s
      → find (has_id k) (step c db).1.registrations ≡ some s
  other_round c s db other found = elim (Bool-cases (skips c db.payments)) [
    | inl skip ↦ ap (find (has_id k)) (sweeps.skipped c db skip) ∙ found
    | inr no_skip ↦
        let named = ==-sound s.id k (find_sound (has_id k) db.registrations s found) in
        let miss : (s.id == c.id) ≡ false = ground arith in
        ap (find (has_id k)) (sweeps.discarded c db no_skip)
        ∙ find-update_where (λ (x : Registration). x.id == c.id) discarded_registration (has_id k)
            db.registrations (λ x. refl)
        ∙ rw (found, miss)
  ]

  untouched :
      (s : Registration) (cs : List Registration) (db : Db)
      → count_where (has_id k) cs ≡ 0
      → find (has_id k) db.registrations ≡ some s
      → find (has_id k) (sweep_all step cs db).1.registrations ≡ some s
  unfolding sweep_all
  untouched s [] db h found = found
  untouched s (c ∷ cs) db h found = elim (Bool-cases (has_id k c)) [
    | inl hit ↦ absurd (ground arith)
    | inr other ↦ untouched s cs (step c db).1 (ground arith) (other_round c s db other found)
  ]

module _ (skips : Registration → List Payment → Bool) (step : Registration → Db → ℕ × Db)
    (sweeps : IsSweep skips step) (r : Registration) where
  -- The round on the registration itself.
  own_round :
      (db : Db)
      → find (has_id r.id) db.registrations ≡ some r
      → find (has_id r.id) (step r db).1.registrations
        ≡ some (if skips r db.payments then r else discarded_registration r)
  own_round db found = elim (Bool-cases (skips r db.payments)) [
    | inl skip ↦ ap (find (has_id r.id)) (sweeps.skipped r db skip) ∙ found ∙ rw skip
    | inr no_skip ↦
        ap (find (has_id r.id)) (sweeps.discarded r db no_skip)
        ∙ find-update_where (λ (x : Registration). x.id == r.id) discarded_registration
            (has_id r.id) db.registrations (λ x. refl)
        ∙ rw (found, ==-refl r.id, no_skip)
  ]

  swept :
      (cs : List Registration) (db : Db)
      → All (OnlyRow r) cs
      → count_where (has_id r.id) cs ≡ 1
      → find (has_id r.id) db.registrations ≡ some r
      → find (has_id r.id) (sweep_all step cs db).1.registrations
        ≡ some (if skips r db.payments then r else discarded_registration r)
  unfolding sweep_all
  swept [] db only one found = absurd (omega arith)
  swept (c ∷ cs) db (inr other, there) one found =
      swept cs (step c db).1 there (ground arith)
        (other_round skips step sweeps r.id c r db other found)
      ∙ ap (λ ps. some (if skips r ps then r else discarded_registration r))
          (sweeps.payments_kept c db)
  swept (c ∷ cs) db (inl same, there) one found =
      let here : has_id r.id c ≡ true = rw same (==-refl r.id) in
      untouched skips step sweeps r.id (if skips r db.payments then r else discarded_registration r)
        cs (step c db).1 (ground arith)
        (subst
          (λ x.
            find (has_id r.id) (step x db).1.registrations
            ≡ some (if skips r db.payments then r else discarded_registration r))
          (sym same) (own_round db found))

  -- A loop over the rows that pass a test discards a registration exactly if it passes the test and
  -- is not skipped.
  pub sweep_all_ok :
      (p : Registration → Bool) (db : Db)
      → find (has_id r.id) db.registrations ≡ some r
      → count_where (has_id r.id) db.registrations ≤ 1
      → find (has_id r.id) (sweep_all step (filter_by p db.registrations) db).1.registrations
        ≡ some (if p r && not (skips r db.payments) then discarded_registration r else r)
  sweep_all_ok p db found one =
      let only = found_OnlyRow r db.registrations found one in
      let times = count_filter p r db.registrations only in
      let some_there = found_counts r db.registrations found in
      elim (Bool-cases (p r)) [
        | inl candidate ↦
            swept (filter_by p db.registrations) db (filter_OnlyRow p r db.registrations only)
              (ground (arith, times, some_there)) found
            ∙ ground arith
        | inr no_candidate ↦
            untouched skips step sweeps r.id r (filter_by p db.registrations) db (ground arith)
              found
            ∙ rw no_candidate
      ]
