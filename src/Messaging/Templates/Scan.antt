-- ===== src/Messaging/Templates/Scan.antt =====
-- What the search for variables does to a template: no character is lost, and only variables
-- that were declared are looked up.
use open_conferences.Shared.{
  ℕ, zero, suc, ◌≤◌, ◌<◌, ◌≡◌, refl, sym, ap, ◌∙◌, inl, inr, true, Option, none, some, List, [],
  ◌∷◌, ◌++◌, arith, ◌==◌, if◌then◌else◌, Option-cases, length, sum_of, sum_of-append, length-append,
  append_assoc,
}
use open_conferences.Messaging.Templates.{
  Text, match_key, match_variable, Piece, literal, variable, pieces_from, pieces, render_template,
}
use open_conferences.Messaging.Templates.Escape.{
  count_char, marks_up, literal_is, render_pieces-markup,
}

-- The text that a piece was read from.
abbrev pub source_of : Piece → Text
source_of (literal c) = c ∷ []
source_of (variable key) = 123 ∷ 123 ∷ (key ++ (125 ∷ 125 ∷ []))

unfoldable pub source : List Piece → Text
source [] = []
source (p ∷ ps) = source_of p ++ source ps

match_key_sound :
    (text key after : Text) → match_key text ≡ some (key, after) → text ≡ key ++ (125 ∷ 125 ∷ after)
unfolding match_key
match_key_sound [] key after h = cc
match_key_sound (c ∷ []) key after h = cc
match_key_sound (c ∷ d ∷ text) key after h = elim (Option-cases (match_key (d ∷ text))) [
  | inl missing ↦ ground arith
  | inr ((key', after'), found) ↦
      let rest = match_key_sound (d ∷ text) key' after' found in ground (arith, rest)
]

match_variable_sound :
    (text key after : Text)
    → match_variable text ≡ some (key, after)
    → text ≡ source_of (variable key) ++ after
unfolding match_variable
match_variable_sound [] key after h = cc
match_variable_sound (a ∷ []) key after h = cc
match_variable_sound (a ∷ b ∷ text) key after h = elim (Option-cases (match_key text)) [
  | inl missing ↦ ground arith
  | inr (([], after'), found) ↦ ground arith
  | inr ((c ∷ key', after'), found) ↦
      let rest = match_key_sound text (c ∷ key') after' found in
      ground (arith, rest, append_assoc key (125 ∷ 125 ∷ []) after)
]

pieces_from-none :
    (fuel c : ℕ) (text : Text)
    → match_variable (c ∷ text) ≡ none
    → pieces_from (suc fuel) (c ∷ text) ≡ literal c ∷ pieces_from fuel text
unfolding pieces_from
pieces_from-none fuel c text h = rw (h, pieces_from)

pieces_from-some :
    (fuel c : ℕ) (text key after : Text)
    → match_variable (c ∷ text) ≡ some (key, after)
    → pieces_from (suc fuel) (c ∷ text) ≡ variable key ∷ pieces_from fuel after
unfolding pieces_from
pieces_from-some fuel c text key after h = rw (h, pieces_from)

after_shorter :
    (text key after : Text) → text ≡ source_of (variable key) ++ after → length after < length text
after_shorter text key after h =
    let whole = ap (λ l. length l) h in
    omega (arith, whole, length-append (source_of (variable key)) after)

-- Put together again, the pieces of a template are its text.
pub source-pieces_from :
    (fuel : ℕ) (text : Text) → length text ≤ fuel → source (pieces_from fuel text) ≡ text
unfolding source pieces_from
source-pieces_from zero [] h = refl
source-pieces_from zero (c ∷ text) h = absurd (omega arith)
source-pieces_from (suc fuel) [] h = refl
source-pieces_from (suc fuel) (c ∷ text) h = elim (Option-cases (match_variable (c ∷ text))) [
  | inl miss ↦
      ap source (pieces_from-none fuel c text miss)
      ∙ ap (λ l. c ∷ l) (source-pieces_from fuel text (omega arith))
  | inr ((key, after), hit) ↦
      let sound = match_variable_sound (c ∷ text) key after hit in
      let shorter = after_shorter (c ∷ text) key after sound in
      ap source (pieces_from-some fuel c text key after hit)
      ∙ ap (λ l. source_of (variable key) ++ l)
          (source-pieces_from fuel after (omega (arith, shorter)))
      ∙ sym sound
]

literals_in_source :
    (mark : ℕ) (ps : List Piece) → sum_of (literal_is mark) ps ≤ count_char mark (source ps)
unfolding source count_char
literals_in_source mark [] = omega arith
literals_in_source mark (literal c ∷ ps) = omega (arith, literals_in_source mark ps)
literals_in_source mark (variable key ∷ ps) = omega (
  arith,
  sum_of-append (λ d. if d == mark then 1 else 0) (source_of (variable key)) (source ps),
  literals_in_source mark ps,
)

-- Whatever the values of the variables are, a text that is rendered has no more of each of the
-- characters < > " ' than its template has: a value adds no markup.
pub render_template-markup :
    (mark : ℕ) (template : Text) (context : Text → Option Text)
    → marks_up mark ≡ true
    → count_char mark (render_template template context) ≤ count_char mark template
unfolding render_template pieces
render_template-markup mark template context h =
    let same = render_pieces-markup mark context (pieces template) h in
    let bound = literals_in_source mark (pieces template) in
    let whole =
      ap (count_char mark) (source-pieces_from (length template) template (omega arith)) in
    omega (arith, same, bound, whole)
