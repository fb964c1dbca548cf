-- ===== src/Messaging/Tests.antt =====
-- The theorems on templates, applied to short texts.
use open_conferences.Shared.{
  ◌≤◌, ◌≡◌, refl, true, Option, none, some, [], ◌∷◌, arith, if◌then◌else◌,
}
use open_conferences.Messaging.Templates.{has_key, same_text, Text, escape_html, render_template}
use open_conferences.Messaging.Templates.Escape.{shown, count_char, shown-escape_html}
use open_conferences.Messaging.Templates.Scan.{render_template-markup}

-- <b>&
abbrev markup : Text
markup = 60 ∷ 98 ∷ 62 ∷ 38 ∷ []

-- Hi {{a}}
abbrev greeting : Text
greeting = 72 ∷ 105 ∷ 32 ∷ 123 ∷ 123 ∷ 97 ∷ 125 ∷ 125 ∷ []

abbrev hostile : Text → Option Text
hostile key = some markup

abbrev only_a : Text → Option Text
only_a key = if same_text key (97 ∷ []) then some markup else none

shown-escape_html_example : shown 4 (escape_html markup) ≡ markup
shown-escape_html_example = shown-escape_html markup 4 (omega arith)

render_template-markup_example :
    count_char 60 (render_template greeting hostile) ≤ count_char 60 greeting
render_template-markup_example = render_template-markup 60 greeting hostile refl

only_a_agrees : (key : Text) → has_key key ((97 ∷ []) ∷ []) ≡ true → hostile key ≡ only_a key
only_a_agrees key h = ground arith
