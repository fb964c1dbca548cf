-- ===== src/Messaging/Templates/Escape.antt =====
-- What escaping does to a text: nothing that marks up is left, and nothing is lost.
use mathlib.Core.Path.{subst}
use open_conferences.Shared.{
  ℕ, zero, suc, ◌≤◌, ◌≡◌, refl, sym, ap, ◌∙◌, ◌⊎◌, inl, inr, Bool, true, false, ◌||◌, Option, none,
  some, List, [], ◌∷◌, ◌++◌, arith, ◌==◌, if◌then◌else◌, Bool-cases, Option-cases, length, any,
  sum_of, All, sum_of-append,
}
use open_conferences.Messaging.Templates.{
  Text, html_escape_map, escape_char, escape_html, Piece, literal, variable, value_of,
  render_pieces,
}

-- The rest of a text after a prefix.
abbrev after_prefix : Text → Text → Option Text
after_prefix [] text = some text
after_prefix (a ∷ prefix) [] = none
after_prefix (a ∷ prefix) (b ∷ text) =
    let rest = after_prefix prefix text in if a == b then rest else none

-- The character references of HTML that are read here, as the standard has them: &amp; is &,
-- &lt; is <, &gt; is >, &quot; is the double quote, and &#39; is the character with the number 39.
abbrev pub html_references : List (ℕ × Text)
html_references =
    (39, 38 ∷ 35 ∷ 51 ∷ 57 ∷ 59 ∷ [])
    ∷ (38, 38 ∷ 97 ∷ 109 ∷ 112 ∷ 59 ∷ [])
    ∷ (62, 38 ∷ 103 ∷ 116 ∷ 59 ∷ [])
    ∷ (60, 38 ∷ 108 ∷ 116 ∷ 59 ∷ [])
    ∷ (34, 38 ∷ 113 ∷ 117 ∷ 111 ∷ 116 ∷ 59 ∷ [])
    ∷ []

-- A character reference at the start of a text.
abbrev read_entity : List (ℕ × Text) → Text → Option (ℕ × Text)
read_entity [] text = none
read_entity ((special, entity) ∷ entries) text = elim (after_prefix entity text) [
  | none ↦ read_entity entries text
  | some rest ↦ some (special, rest)
]

-- A text as it is shown: each of these references is the character that it stands for, and every
-- other character is itself.
unfoldable pub shown : ℕ → Text → Text
shown zero _ = []
shown (suc fuel) [] = []
shown (suc fuel) (c ∷ text) = elim (read_entity html_references (c ∷ text)) [
  | none ↦ c ∷ shown fuel text
  | some (special, rest) ↦ special ∷ shown fuel rest
]

data IsEscaped (c : ℕ) : Type 0 where
  plain :
      escape_char html_escape_map c ≡ c ∷ []
      → ((text : Text) → read_entity html_references (c ∷ text) ≡ none)
      → IsEscaped c
  entity :
      (a : ℕ) (name : Text)
      → escape_char html_escape_map c ≡ a ∷ name
      → ((text : Text) → read_entity html_references (a ∷ (name ++ text)) ≡ some (c, text))
      → IsEscaped c

other_start :
    (a c : ℕ) (prefix text : Text) → (a == c) ≡ false → after_prefix (a ∷ prefix) (c ∷ text) ≡ none
other_start a c prefix text h = rw (h, after_prefix)

no_entity_read :
    (a c : ℕ) (text : Text) (entries : List (ℕ × Text))
    → (a == c) ≡ false
    → All (λ entry. (name : Text) × (entry.1 ≡ a ∷ name)) entries
    → read_entity entries (c ∷ text) ≡ none
no_entity_read a c text [] h starts = refl
no_entity_read a c text ((special, written) ∷ entries) h ((name, same), starts) =
    let missed : after_prefix written (c ∷ text) ≡ none = rw same (other_start a c name text h) in
    rw (missed, read_entity) (no_entity_read a c text entries h starts)

escape_char-IsEscaped : (c : ℕ) → IsEscaped c
escape_char-IsEscaped c = elim (Bool-cases (c == 38)) [
  | inl hit ↦
      let same : c ≡ 38 = ground arith in
      subst IsEscaped (sym same) (entity 38 (97 ∷ 109 ∷ 112 ∷ 59 ∷ []) refl (λ text. refl))
  | inr no_amp ↦ elim (Bool-cases (c == 60)) [
    | inl hit ↦
        let same : c ≡ 60 = ground arith in
        subst IsEscaped (sym same) (entity 38 (108 ∷ 116 ∷ 59 ∷ []) refl (λ text. refl))
    | inr no_lt ↦ elim (Bool-cases (c == 62)) [
      | inl hit ↦
          let same : c ≡ 62 = ground arith in
          subst IsEscaped (sym same) (entity 38 (103 ∷ 116 ∷ 59 ∷ []) refl (λ text. refl))
      | inr no_gt ↦ elim (Bool-cases (c == 34)) [
        | inl hit ↦
            let same : c ≡ 34 = ground arith in
            subst IsEscaped (sym same)
              (entity 38 (113 ∷ 117 ∷ 111 ∷ 116 ∷ 59 ∷ []) refl (λ text. refl))
        | inr no_quot ↦ elim (Bool-cases (c == 39)) [
          | inl hit ↦
              let same : c ≡ 39 = ground arith in
              subst IsEscaped (sym same) (entity 38 (35 ∷ 51 ∷ 57 ∷ 59 ∷ []) refl (λ text. refl))
          | inr no_apos ↦
              let no_entity : (38 == c) ≡ false = ground arith in
              plain (rw (no_amp, no_lt, no_gt, no_quot, no_apos)) (λ text.
                no_entity_read 38 c text html_references no_entity
                  ((_, refl), ((_, refl), ((_, refl), ((_, refl), ((_, refl), tt))))))
        ]
      ]
    ]
  ]
]

shown_plain :
    (fuel c : ℕ) (text : Text)
    → read_entity html_references (c ∷ text) ≡ none
    → shown (suc fuel) (c ∷ text) ≡ c ∷ shown fuel text
unfolding shown
shown_plain fuel c text h = rw (h, shown)

shown_entity :
    (fuel c a : ℕ) (text rest : Text)
    → read_entity html_references (a ∷ text) ≡ some (c, rest)
    → shown (suc fuel) (a ∷ text) ≡ c ∷ shown fuel rest
unfolding shown
shown_entity fuel c a text rest h = rw (h, shown)

-- Where HTML reads its references to &, <, >, the double quote and the single quote, an escaped
-- text is shown as it was before, whatever characters it has.
pub shown-escape_html :
    (text : Text) (fuel : ℕ) → length text ≤ fuel → shown fuel (escape_html text) ≡ text
unfolding escape_html shown
shown-escape_html [] zero h = refl
shown-escape_html [] (suc fuel) h = refl
shown-escape_html (c ∷ text) zero h = absurd (omega arith)
shown-escape_html (c ∷ text) (suc fuel) h =
    let rest = shown-escape_html text fuel (omega arith) in
    elim (escape_char-IsEscaped c) [
      | plain same unread ↦
          rw same (
            shown_plain fuel c (escape_html text) (unread (escape_html text))
            ∙ ap (λ l. c ∷ l) rest)
      | entity a name same read ↦ rw same (
          shown_entity fuel c a (name ++ escape_html text) (escape_html text)
            (read (escape_html text))
          ∙ ap (λ l. c ∷ l) rest)
    ]

-- How often a character stands in a text.
unfoldable pub count_char : ℕ → Text → ℕ
count_char c text = sum_of (λ d. if d == c then 1 else 0) text

abbrev pub literal_is : ℕ → Piece → ℕ
literal_is mark (literal c) = if c == mark then 1 else 0
literal_is mark (variable key) = 0

-- The characters that begin markup or end a quoted attribute.
abbrev pub marks_up : ℕ → Bool
marks_up c = c == 60 || c == 62 || c == 34 || c == 39

escape_char_lacks :
    (mark c : ℕ) (entries : List (ℕ × Text))
    → All (λ entry. count_char mark (entry.1) ≡ 0) entries
    → ((c == mark) ≡ false) ⊎ (any (λ entry. entry.0 == mark) entries ≡ true)
    → count_char mark (escape_char entries c) ≡ 0
unfolding count_char
escape_char_lacks mark c [] lacking (inl other) = rw other
escape_char_lacks mark c [] lacking (inr h) = absurd (ground arith)
escape_char_lacks mark c ((special, written) ∷ entries) (here, there) h =
    elim (Bool-cases (c == special)) [
      | inl hit ↦ rw hit here
      | inr miss ↦ rw miss (escape_char_lacks mark c entries there (ground (arith, h)))
    ]

escape_char-unmarked :
    (mark c : ℕ) → marks_up mark ≡ true → count_char mark (escape_char html_escape_map c) ≡ 0
unfolding count_char
escape_char-unmarked mark c h =
    let one_of : (mark ≡ 60) ⊎ ((mark ≡ 62) ⊎ ((mark ≡ 34) ⊎ (mark ≡ 39))) = ground arith in
    elim one_of [
      | inl same ↦
          escape_char_lacks mark c html_escape_map
            (rw same (refl, (refl, (refl, (refl, (refl, tt)))))) (inr (rw same))
      | inr (inl same) ↦
          escape_char_lacks mark c html_escape_map
            (rw same (refl, (refl, (refl, (refl, (refl, tt)))))) (inr (rw same))
      | inr (inr (inl same)) ↦
          escape_char_lacks mark c html_escape_map
            (rw same (refl, (refl, (refl, (refl, (refl, tt)))))) (inr (rw same))
      | inr (inr (inr same)) ↦
          escape_char_lacks mark c html_escape_map
            (rw same (refl, (refl, (refl, (refl, (refl, tt)))))) (inr (rw same))
    ]

escape_html-unmarked :
    (mark : ℕ) (text : Text) → marks_up mark ≡ true → count_char mark (escape_html text) ≡ 0
unfolding escape_html count_char
escape_html-unmarked mark [] h = refl
escape_html-unmarked mark (c ∷ text) h =
    sum_of-append (λ d. if d == mark then 1 else 0) (escape_char html_escape_map c)
      (escape_html text)
    ∙ omega (arith, escape_char-unmarked mark c h, escape_html-unmarked mark text h)

value_of-unmarked :
    (mark : ℕ) (context : Text → Option Text) (key : Text)
    → marks_up mark ≡ true
    → count_char mark (value_of context key) ≡ 0
unfolding value_of count_char
value_of-unmarked mark context key h = elim (Option-cases (context key)) [
  | inl missing ↦ rw (missing, value_of)
  | inr (value, found) ↦ rw (found, value_of) (escape_html-unmarked mark value h)
]

pub render_pieces-markup :
    (mark : ℕ) (context : Text → Option Text) (ps : List Piece)
    → marks_up mark ≡ true
    → count_char mark (render_pieces context ps) ≡ sum_of (λ p. literal_is mark p) ps
unfolding count_char render_pieces value_of
render_pieces-markup mark context [] h = refl
render_pieces-markup mark context (literal c ∷ ps) h =
    omega (arith, render_pieces-markup mark context ps h)
render_pieces-markup mark context (variable key ∷ ps) h =
    sum_of-append (λ d. if d == mark then 1 else 0) (value_of context key)
      (render_pieces context ps)
    ∙ omega (arith, value_of-unmarked mark context key h, render_pieces-markup mark context ps h)
