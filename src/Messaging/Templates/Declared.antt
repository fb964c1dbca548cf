-- ===== src/Messaging/Templates/Declared.antt =====
-- Which values a template that was validated depends on.
use open_conferences.Shared.{
  ◌≡◌, refl, ap, ◌∙◌, inl, inr, Bool, true, ◌||◌, Option, List, [], ◌∷◌, ◌++◌, arith, Bool-cases,
  ok,
}
use open_conferences.Messaging.Templates.{
  Text, Piece, literal, variable, pieces, value_of, render_pieces, render_template, same_text,
  has_key, add_key, variables_in, extract_template_variables, check_declared,
  validate_template_variables,
}

or_left : (a b : Bool) → a ≡ true → (a || b) ≡ true
or_left a b h = rw h

or_right : (a b : Bool) → b ≡ true → (a || b) ≡ true
or_right a b h = ground arith

same_value :
    (left right : Text → Option Text) (key : Text)
    → left key ≡ right key
    → value_of left key ≡ value_of right key
unfolding value_of
same_value left right key h = rw (h, value_of)

same_text_sound : (a b : Text) → same_text a b ≡ true → a ≡ b
same_text_sound [] [] h = refl
same_text_sound [] (y ∷ ys) h = absurd (ground arith)
same_text_sound (x ∷ xs) [] h = absurd (ground arith)
same_text_sound (x ∷ xs) (y ∷ ys) h =
    let heads : x ≡ y = ground arith in
    let tails = same_text_sound xs ys (ground arith) in rw heads (ap (λ l. y ∷ l) tails)

same_text_refl : (a : Text) → same_text a a ≡ true
same_text_refl [] = refl
same_text_refl (x ∷ xs) = ground (arith, same_text_refl xs)

has_key-append :
    (key : Text) (keys more : List Text)
    → has_key key (keys ++ more) ≡ has_key key keys || has_key key more
has_key-append key [] more = refl
has_key-append key (k ∷ keys) more = ground (arith, has_key-append key keys more)

has_key-add_key :
    (key other : Text) (keys : List Text)
    → has_key key keys ≡ true
    → has_key key (add_key keys other) ≡ true
has_key-add_key key other keys h = ground (arith, has_key-append key keys (other ∷ []))

added_key : (key : Text) (keys : List Text) → has_key key (add_key keys key) ≡ true
added_key key keys = ground (arith, has_key-append key keys (key ∷ []), same_text_refl key)

variables_in-keeps :
    (key : Text) (keys : List Text) (ps : List Piece)
    → has_key key keys ≡ true
    → has_key key (variables_in keys ps) ≡ true
unfolding variables_in
variables_in-keeps key keys [] h = h
variables_in-keeps key keys (literal c ∷ ps) h = variables_in-keeps key keys ps h
variables_in-keeps key keys (variable k ∷ ps) h =
    variables_in-keeps key (add_key keys k) ps (has_key-add_key key k keys h)

check_declared_sound :
    (declared used : List Text) (key : Text)
    → check_declared declared used ≡ ok tt
    → has_key key used ≡ true
    → has_key key declared ≡ true
check_declared_sound declared [] key h used = absurd (ground arith)
check_declared_sound declared (k ∷ keys) key h used = elim (Bool-cases (same_text key k)) [
  | inl same ↦ let equal = same_text_sound key k same in rw equal (ground arith)
  | inr other ↦ check_declared_sound declared keys key (ground arith) (ground arith)
]

module _ (declared : List Text) (left right : Text → Option Text)
    (agree : (key : Text) → has_key key declared ≡ true → left key ≡ right key) where
  render_pieces-agree :
      (keys : List Text) (ps : List Piece)
      → ((key : Text) → has_key key (variables_in keys ps) ≡ true → has_key key declared ≡ true)
      → render_pieces left ps ≡ render_pieces right ps
  unfolding render_pieces variables_in
  render_pieces-agree keys [] known = refl
  render_pieces-agree keys (literal c ∷ ps) known =
      ap (λ l. c ∷ l) (render_pieces-agree keys ps known)
  render_pieces-agree keys (variable key ∷ ps) known =
      let same =
        agree key (known key (variables_in-keeps key (add_key keys key) ps (added_key key keys))) in
      let rest = render_pieces-agree (add_key keys key) ps known in
      ap (λ l. value_of left key ++ l) rest
      ∙ ap (λ v. v ++ render_pieces right ps) (same_value left right key same)

  -- A template that was validated depends on no other values than those of its declared
  -- variables: two contexts that agree on these render its subject and its body alike.
  pub render_template-declared :
      (subject body : Text)
      → validate_template_variables declared subject body ≡ ok tt
      → (render_template subject left ≡ render_template subject right)
        × (render_template body left ≡ render_template body right)
  unfolding render_template validate_template_variables extract_template_variables
  render_template-declared subject body valid =
      let in_subject = variables_in [] (pieces subject) in
      let in_body = variables_in [] (pieces body) in
      let known : (key : Text)
          → (has_key key in_subject || has_key key in_body) ≡ true
          → has_key key declared ≡ true =
        λ key h.
          check_declared_sound declared (in_subject ++ in_body) key valid
            (has_key-append key in_subject in_body ∙ h) in
      (
        render_pieces-agree [] (pieces subject)
            (λ key h. known key (or_left (has_key key in_subject) (has_key key in_body) h)),
        render_pieces-agree [] (pieces body)
            (λ key h. known key (or_right (has_key key in_subject) (has_key key in_body) h)),
      )
