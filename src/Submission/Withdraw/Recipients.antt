-- ===== src/Submission/Withdraw/Recipients.antt =====
-- The notices of a withdrawal go to each address at most once.
use text.Mathlib.Text.{◌==◌ as str_eq}
use text.Mathlib.TextEquality.{eq_iff}
use open_conferences.Shared.{
  ℕ, String, ◌≡◌, refl, inl, inr, false, ◌||◌, List, [], ◌∷◌, ◌++◌, map, arith, Bool-cases,
  filter_by,
}
use open_conferences.Store.{Db}
use open_conferences.Store.Rows.{Paper}
use open_conferences.Submission.Withdraw.{
  has_text, add_address, addresses, withdrawal_recipients, email_of, is_staff,
}

-- No text occurs twice.
abbrev pub Distinct : List String → Type 0
Distinct [] = Unit
Distinct (s ∷ rest) = (has_text s rest ≡ false) × Distinct rest

str_eq-sym : (s t : String) → str_eq s t ≡ str_eq t s
str_eq-sym s t = ground (arith, eq_iff s t, eq_iff t s)

has_text-snoc :
    (x s : String) (told : List String)
    → has_text x (told ++ s ∷ []) ≡ (has_text x told || str_eq s x)
has_text-snoc x s [] = ground arith
has_text-snoc x s (t ∷ told) = ground (arith, has_text-snoc x s told)

Distinct-snoc :
    (s : String) (told : List String)
    → Distinct told
    → has_text s told ≡ false
    → Distinct (told ++ s ∷ [])
Distinct-snoc s [] d h = (refl, tt)
Distinct-snoc s (t ∷ told) d h = (
  ground (arith, has_text-snoc t s told, str_eq-sym s t),
  Distinct-snoc s told d.1 (ground arith),
)

add_address-Distinct :
    (told : List String) (s : String) → Distinct told → Distinct (add_address told s)
add_address-Distinct told String.[] d = d
add_address-Distinct told (String.◌∷◌ c s) d = elim (Bool-cases (has_text (String.◌∷◌ c s) told)) [
  | inl old ↦ rw old d
  | inr new ↦ rw new (Distinct-snoc (String.◌∷◌ c s) told d new)
]

addresses-Distinct : (told es : List String) → Distinct told → Distinct (addresses told es)
unfolding addresses
addresses-Distinct told [] d = d
addresses-Distinct told (e ∷ es) d =
    addresses-Distinct (add_address told e) es (add_address-Distinct told e d)

-- However the addresses are written, no address is notified twice of one withdrawal, be it both an
-- author's and an organizer's.
pub withdrawal_recipients-Distinct :
    (normalize : String → String) (conference_id : ℕ) (p : Paper) (db : Db)
    → Distinct (withdrawal_recipients normalize conference_id p db)
unfolding withdrawal_recipients
withdrawal_recipients-Distinct normalize conference_id p db =
    addresses-Distinct (addresses [] authors)
      (map (λ m. normalize (email_of db.users m.user_id))
        (filter_by (is_staff conference_id) db.memberships))
      (addresses-Distinct [] authors tt)
  where
    authors : List String
    authors = map (λ a. normalize a.email) p.authorships
