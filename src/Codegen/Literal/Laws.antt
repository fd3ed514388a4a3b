-- ===== src/Codegen/Literal/Laws.antt =====
-- The string literals that `generateLiteral` of src/codegen/generator.ts writes, read as C++.
use typescript2cxx.Prelude.{
  ℕ, ◌≡◌, refl, ◌∙◌, ap, Bool, true, false, ◌||◌, Option, some, none, [], ◌∷◌, ◌++◌, arith, ◌==◌,
  if◌then◌else◌, Text, txt, text_eq,
}
use typescript2cxx.Codegen.Literal.{Number, string, escape, generate_literal, has_cpp_type}

-- One code unit in front of what was read, if something was.
abbrev pub onto : ℕ → Option Text → Option Text
onto c none = none
onto c (some s) = some (c ∷ s)

-- What stands between the first quote of a C++ string literal and its end, the suffix `_S`: a
-- backslash takes a backslash or a quote after it (the flag says that one came before), and a line
-- feed is an error.
unfoldable pub read_units : Bool → Text → Option Text
read_units escaped [] = none
read_units true (c ∷ s) =
    let rest = read_units false s in if c == b'\\' || c == b'"' then onto c rest else none
read_units false (c ∷ s) =
    let plain = read_units false s in
    let escaped = read_units true s in
    if c == b'"'
    then (if text_eq s (txt "_S") then some [] else none)
    else if c == 10
    then none
    else if c == b'\\'
    then escaped
    else onto c plain

unfoldable pub read_literal : Text → Option Text
unfolding read_units
read_literal [] = none
read_literal (c ∷ s) = let rest = read_units false s in if c == b'"' then rest else none

abbrev pub has_line_feed : Text → Bool
has_line_feed [] = false
has_line_feed (c ∷ s) = c == 10 || has_line_feed s

-- What becomes of one code unit.
unfoldable pub escape_unit : ℕ → Text → Text
escape_unit c s =
    if c == b'\\' then b'\\' ∷ b'\\' ∷ s else if c == b'"' then b'\\' ∷ b'"' ∷ s else c ∷ s

pub escape-cons : (c : ℕ) (s : Text) → escape (c ∷ s) ≡ escape_unit c (escape s)
unfolding escape escape_unit
escape-cons c s = ground arith

-- What a C++ compiler makes of the text of a string: nothing, if there is a line feed.
abbrev pub unless_line_feed : Text → Option Text
unless_line_feed s = if has_line_feed s then none else some s

read_units-escape_unit :
    (c : ℕ) (s : Text)
    → read_units false (escape_unit c s) ≡ (if c == 10 then none else onto c (read_units false s))
unfolding read_units escape_unit
read_units-escape_unit c s = ground arith

escape_unit-append : (c : ℕ) (s t : Text) → escape_unit c s ++ t ≡ escape_unit c (s ++ t)
unfolding escape_unit
escape_unit-append c s t = ground arith

onto-unless :
    (c : ℕ) (s : Text)
    → (if c == 10 then none else onto c (unless_line_feed s)) ≡ unless_line_feed (c ∷ s)
onto-unless c s = ground arith

read_units-end : read_units false (escape [] ++ (b'"' ∷ txt "_S")) ≡ some []
unfolding read_units escape txt text_eq
read_units-end = refl

read_units-escape :
    (s : Text) → read_units false (escape s ++ (b'"' ∷ txt "_S")) ≡ unless_line_feed s
read_units-escape [] = read_units-end
read_units-escape (c ∷ s) =
    ap (λ t. read_units false (t ++ (b'"' ∷ txt "_S"))) (escape-cons c s)
    ∙ rw
        (
          escape_unit-append c (escape s) (b'"' ∷ txt "_S"),
          read_units-escape_unit c (escape s ++ (b'"' ∷ txt "_S")),
          read_units-escape s,
        )
        (onto-unless c s)

-- The C++ literal of a string reads back as the string, if that has no line feed; with a line feed
-- the literal is none.
pub read_literal-generate_literal :
    (convert : Text → Number) (s literal_type : Text) (cpp_type : Option Text)
    → read_literal (
        generate_literal convert
          (record { value = string s; literal_type = literal_type; cpp_type = cpp_type }))
      ≡ (if has_line_feed s then none else some s)
unfolding read_literal generate_literal
read_literal-generate_literal convert s literal_type cpp_type = rw or_true (read_units-escape s)
  where
    or_true : (has_cpp_type cpp_type (txt "string") || true) ≡ true
    or_true = ground arith
