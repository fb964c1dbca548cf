-- ===== src/Messaging/Templates.antt =====
-- Templates of mails: apps/api/src/messaging/template-renderer.ts. A text is the list of the code
-- points of its characters.
pub mod Escape
pub mod Scan
pub mod Declared
use open_conferences.Shared.{
  ℕ, zero, suc, Bool, true, false, ◌&&◌, ◌||◌, Option, none, some, List, [], ◌∷◌, ◌++◌, leb, ◌==◌,
  if◌then◌else◌, length, error, Result, ok, err,
}

abbrev pub Text : Type 0
Text = List ℕ

-- `HTML_ESCAPE_MAP`, from & < > " ' to &amp; &lt; &gt; &quot; &#39;
abbrev pub html_escape_map : List (ℕ × Text)
html_escape_map =
    (38, 38 ∷ 97 ∷ 109 ∷ 112 ∷ 59 ∷ [])
    ∷ (60, 38 ∷ 108 ∷ 116 ∷ 59 ∷ [])
    ∷ (62, 38 ∷ 103 ∷ 116 ∷ 59 ∷ [])
    ∷ (34, 38 ∷ 113 ∷ 117 ∷ 111 ∷ 116 ∷ 59 ∷ [])
    ∷ (39, 38 ∷ 35 ∷ 51 ∷ 57 ∷ 59 ∷ [])
    ∷ []

-- `HTML_ESCAPE_MAP[char] ?? char`
abbrev pub escape_char : List (ℕ × Text) → ℕ → Text
escape_char [] c = c ∷ []
escape_char ((special, entity) ∷ entries) c = if c == special then entity else escape_char entries c

-- `escapeHtml`
unfoldable pub escape_html : Text → Text
escape_html [] = []
escape_html (c ∷ text) = escape_char html_escape_map c ++ escape_html text

-- `\w`: a letter, a digit or an underscore.
unfoldable pub is_word : ℕ → Bool
is_word c = (leb 48 c && leb c 57) || (leb 65 c && leb c 90) || (leb 97 c && leb c 122) || c == 95

-- `(\w+)\}\}`: the key so far, and the text after the braces.
unfoldable pub match_key : Text → Option (Text × Text)
match_key [] = none
match_key (c ∷ []) = none
match_key (c ∷ d ∷ text) =
    let rest = match_key (d ∷ text) in
    if is_word c
    then elim rest [ none ↦ none | some (key, after) ↦ some (c ∷ key, after) ]
    else if c == 125 && d == 125
    then some ([], text)
    else none

-- `VARIABLE_PATTERN` at the start of a text: two braces, a key that is not empty, two braces.
unfoldable pub match_variable : Text → Option (Text × Text)
match_variable (a ∷ b ∷ text) =
    if a == 123 && b == 123
    then elim (match_key text) [
      | none ↦ none
      | some ([], after) ↦ none
      | some (c ∷ key, after) ↦ some (c ∷ key, after)
    ]
    else none
match_variable _ = none

-- A piece of a template: a character that is copied, or a variable.
pub data Piece : Type 0 where
  literal : ℕ → Piece
  variable : Text → Piece

-- The matches of the pattern from left to right, and the characters between them.
unfoldable pub pieces_from : ℕ → Text → List Piece
pieces_from zero _ = []
pieces_from (suc fuel) [] = []
pieces_from (suc fuel) (c ∷ text) = elim (match_variable (c ∷ text)) [
  | none ↦ literal c ∷ pieces_from fuel text
  | some (key, after) ↦ variable key ∷ pieces_from fuel after
]

unfoldable pub pieces : Text → List Piece
pieces template = pieces_from (length template) template

-- The text of a variable; `context` is `none` on a key that it does not have.
unfoldable pub value_of : (Text → Option Text) → Text → Text
value_of context key = elim (context key) [ none ↦ [] | some value ↦ escape_html value ]

unfoldable pub render_pieces : (Text → Option Text) → List Piece → Text
render_pieces context [] = []
render_pieces context (literal c ∷ rest) = c ∷ render_pieces context rest
render_pieces context (variable key ∷ rest) = value_of context key ++ render_pieces context rest

-- `renderTemplate`
unfoldable pub render_template : Text → (Text → Option Text) → Text
render_template template context = render_pieces context (pieces template)

abbrev pub same_text : Text → Text → Bool
same_text [] [] = true
same_text (a ∷ x) (b ∷ y) = a == b && same_text x y
same_text _ _ = false

abbrev pub has_key : Text → List Text → Bool
has_key key [] = false
has_key key (k ∷ keys) = same_text key k || has_key key keys

-- `new Set`: of equal keys the first is kept.
abbrev pub add_key : List Text → Text → List Text
add_key keys key = if has_key key keys then keys else keys ++ (key ∷ [])

unfoldable pub variables_in : List Text → List Piece → List Text
variables_in keys [] = keys
variables_in keys (literal c ∷ rest) = variables_in keys rest
variables_in keys (variable key ∷ rest) = variables_in (add_key keys key) rest

-- `extractTemplateVariables`
unfoldable pub extract_template_variables : Text → List Text
extract_template_variables template = variables_in [] (pieces template)

abbrev pub check_declared : List Text → List Text → Result (Unit {0})
check_declared declared [] = ok tt
check_declared declared (key ∷ used) =
    if has_key key declared
    then check_declared declared used
    else err (error "Template uses undeclared variable")

-- `validateTemplateVariables`
unfoldable pub validate_template_variables : List Text → Text → Text → Result (Unit {0})
validate_template_variables declared subject body =
    check_declared declared (extract_template_variables subject ++ extract_template_variables body)
