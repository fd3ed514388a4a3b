-- ===== src/Codegen/Literal.antt =====
-- `generateLiteral` of src/codegen/generator.ts.
pub mod Laws
use typescript2cxx.Prelude.{
  ℕ, Bool, true, false, ◌||◌, Option, some, none, [], ◌∷◌, ◌++◌, ◌==◌, if◌then◌else◌, Text, txt,
  text_eq,
}

-- A number of the language; a finite one is given by what a template string writes of it.
pub data Number : Type 0 where
  nan : Number
  positive_infinity : Number
  negative_infinity : Number
  finite : Text → Number

-- The value of a literal; a bigint is given by its decimal digits.
pub data Value : Type 0 where
  string : Text → Value
  number : Number → Value
  boolean : Bool → Value
  bigint : Text → Value
  null : Value
  undefined : Value

-- The fields of an `IRLiteral` that are read.
pub record IrLiteral : Type 0 where
  pub value : Value
  pub literal_type : Text
  pub cpp_type : Option Text

abbrev pub number_string : Number → Text
number_string nan = txt "NaN"
number_string positive_infinity = txt "Infinity"
number_string negative_infinity = txt "-Infinity"
number_string (finite t) = t

-- `String(value)`
abbrev pub to_string : Value → Text
to_string (string s) = s
to_string (number n) = number_string n
to_string (boolean true) = txt "true"
to_string (boolean false) = txt "false"
to_string (bigint t) = t
to_string null = txt "null"
to_string undefined = txt "undefined"

-- Whether a value counts as true.
abbrev pub is_truthy : Value → Bool
is_truthy (string []) = false
is_truthy (string (c ∷ s)) = true
is_truthy (number nan) = false
is_truthy (number (finite t)) = if text_eq t (txt "0") then false else true
is_truthy (number _) = true
is_truthy (boolean b) = b
is_truthy (bigint t) = if text_eq t (txt "0") then false else true
is_truthy null = false
is_truthy undefined = false

-- `Number(value)`, given the language's conversion of a string and of a bigint.
abbrev pub to_number : (Text → Number) → Value → Number
to_number convert (string s) = convert s
to_number convert (number n) = n
to_number convert (boolean true) = finite (txt "1")
to_number convert (boolean false) = finite (txt "0")
to_number convert (bigint t) = convert t
to_number convert null = finite (txt "0")
to_number convert undefined = nan

-- `s.replace(/c/g, by)`
unfoldable pub replace_unit : ℕ → Text → Text → Text
replace_unit c by [] = []
replace_unit c by (d ∷ s) =
    let rest = replace_unit c by s in if d == c then by ++ rest else d ∷ rest

unfoldable pub escape : Text → Text
unfolding replace_unit
escape s = replace_unit b'"' (b'\\' ∷ b'"' ∷ []) (replace_unit b'\\' (b'\\' ∷ b'\\' ∷ []) s)

abbrev pub is_string : Value → Bool
is_string (string s) = true
is_string _ = false

abbrev pub is_number : Value → Bool
is_number (number n) = true
is_number _ = false

abbrev pub is_boolean : Value → Bool
is_boolean (boolean b) = true
is_boolean _ = false

-- `cppType === name`
abbrev pub has_cpp_type : Option Text → Text → Bool
has_cpp_type none name = false
has_cpp_type (some t) name = text_eq t name

unfoldable pub number_cpp : Number → Text
number_cpp nan = txt "js::number::NaN"
number_cpp positive_infinity = txt "js::number::POSITIVE_INFINITY"
number_cpp negative_infinity = txt "js::number::NEGATIVE_INFINITY"
number_cpp (finite t) = txt "js::number(" ++ t ++ txt ")"

unfoldable pub rest_cpp : Value → Text
rest_cpp null = txt "js::null"
rest_cpp undefined = txt "js::undefined"
rest_cpp v = to_string v

unfoldable pub generate_literal : (Text → Number) → IrLiteral → Text
unfolding escape number_cpp rest_cpp
generate_literal convert lit =
    if has_cpp_type lit.cpp_type (txt "string") || is_string lit.value
    then (b'"' ∷ escape (to_string lit.value)) ++ (b'"' ∷ txt "_S")
    else if has_cpp_type lit.cpp_type (txt "boolean") || is_boolean lit.value
    then (if is_truthy lit.value then txt "true" else txt "false")
    else if has_cpp_type lit.cpp_type (txt "number") || is_number lit.value
    then number_cpp (to_number convert lit.value)
    else if has_cpp_type lit.cpp_type (txt "bigint") || text_eq lit.literal_type (txt "bigint")
    then txt "js::bigint(\"" ++ to_string lit.value ++ txt "\")"
    else rest_cpp lit.value
