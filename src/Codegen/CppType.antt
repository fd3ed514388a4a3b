-- ===== src/Codegen/CppType.antt =====
-- `mapType`, `isPrimitive` and `applyMemoryManagement` of src/codegen/generator.ts.
pub mod Shorter
pub mod Laws
use typescript2cxx.Prelude.{
  ℕ, zero, suc, ◌+◌, Bool, true, false, ◌&&◌, ◌||◌, not, Option, some, none, List, [], ◌∷◌, ◌++◌,
  ◌==◌, find, length, get_or, if◌then◌else◌, Text, txt, text_eq, includes, starts_with, ends_with,
  trim, drop, add_unit, count_units, property, inherited,
}
use mathlib.Core.List.{reverse, map}

-- `s.slice(0, -n)`
unfoldable pub slice_end : ℕ → Text → Text
slice_end n s = reverse (drop n (reverse s))

-- `s.includes(part)` of a string; the part is not empty.
unfoldable pub has_part : Text → Text → Bool
has_part part [] = false
has_part part (c ∷ s) = starts_with (c ∷ s) part || has_part part s

-- `s.split(" | ")`, with the number of units of a separator that are still to be left out.
unfoldable pub split_members : ℕ → Text → List Text
split_members n [] = [] ∷ []
split_members (suc n) (c ∷ s) = split_members n s
split_members zero (c ∷ s) =
    let after = split_members 2 s in
    let rest = split_members 0 s in
    if starts_with (c ∷ s) (txt " | ") then [] ∷ after else add_unit c rest

unfoldable pub type_map : List (Text × Text)
type_map =
    (txt "string", txt "js::string")
    ∷ (txt "number", txt "js::number")
    ∷ (txt "boolean", txt "bool")
    ∷ (txt "void", txt "void")
    ∷ (txt "any", txt "js::any")
    ∷ (txt "unknown", txt "js::any")
    ∷ (txt "undefined", txt "js::undefined_t")
    ∷ (txt "null", txt "js::null_t")
    ∷ (txt "never", txt "void")
    ∷ (txt "object", txt "js::object")
    ∷ (txt "auto", txt "auto")
    ∷ (txt "Array", txt "js::array<js::any>")
    ∷ (txt "Object", txt "js::object")
    ∷ (txt "String", txt "js::string")
    ∷ (txt "Number", txt "js::number")
    ∷ (txt "Boolean", txt "bool")
    ∷ (txt "Date", txt "js::Date")
    ∷ (txt "RegExp", txt "js::RegExp")
    ∷ (txt "Error", txt "js::Error")
    ∷ (txt "TypeError", txt "js::TypeError")
    ∷ (txt "ReferenceError", txt "js::ReferenceError")
    ∷ (txt "SyntaxError", txt "js::SyntaxError")
    ∷ (txt "RangeError", txt "js::RangeError")
    ∷ (txt "EvalError", txt "js::EvalError")
    ∷ (txt "URIError", txt "js::URIError")
    ∷ (txt "AggregateError", txt "js::AggregateError")
    ∷ (txt "symbol", txt "js::symbol")
    ∷ (txt "Symbol", txt "js::symbol")
    ∷ (txt "bigint", txt "js::bigint")
    ∷ (txt "BigInt", txt "js::bigint")
    ∷ (txt "Function", txt "std::shared_ptr<js::function>")
    ∷ (txt "Promise", txt "js::Promise<js::any>")
    ∷ []

-- What `mapType` does with a type: a text, or a text around what another type is mapped to.
pub data Shape : Type 0 where
  text : Text → Shape
  array_of : Text → Shape
  future_of : Text → Shape
  nullable_of : Text → Shape

-- `types.find((t) => t !== "null" && t !== "undefined")`, `none` if it is missing or empty.
abbrev pub non_empty : Option Text → Option Text
non_empty none = none
non_empty (some []) = none
non_empty (some (c ∷ s)) = some (c ∷ s)

abbrev pub non_null_type : List Text → Option Text
non_null_type types =
    non_empty (find (λ t. not (text_eq t (txt "null")) && not (text_eq t (txt "undefined"))) types)

abbrev pub nullable_shape : Option Text → Shape
nullable_shape none = text (txt "js::any")
nullable_shape (some t) = nullable_of t

-- The branch for union types, of the trimmed members.
unfoldable pub union_shape : List Text → Shape
union_shape types =
    let two = length types == 2 in
    if two && includes types (txt "string") && includes types (txt "number")
    then text (txt "js::typed::StringOrNumber")
    else if two && includes types (txt "boolean") && includes types (txt "number")
    then text (txt "js::typed::BooleanOrNumber")
    else if two && includes types (txt "string") && includes types (txt "boolean")
    then text (txt "js::typed::StringOrBoolean")
    else if two && (includes types (txt "null") || includes types (txt "undefined"))
    then nullable_shape (non_null_type types)
    else text (txt "js::any")

-- `typeMap[tsType] || tsType`, printed in a template string; no entry is empty.
unfoldable pub named_type : Text → Text
named_type t = get_or (property t type_map) t

unfoldable pub shape : Text → Shape
unfolding slice_end has_part split_members union_shape named_type
shape t =
    if starts_with t (txt "js::")
    then text t
    else if ends_with t (txt "[]")
    then array_of (slice_end 2 t)
    else if starts_with t (txt "Array<") && ends_with t (txt ">")
    then array_of (slice_end 1 (drop 6 t))
    else if starts_with t (txt "Promise<") && ends_with t (txt ">")
    then future_of (slice_end 1 (drop 8 t))
    else if has_part (txt "=>") t || (starts_with t (txt "(") && has_part (txt ")") t)
    then text (txt "std::function<js::any()>")
    else if has_part (txt " | ") t
    then union_shape (map trim (split_members 0 t))
    else if has_part (txt " & ") t
    then text (txt "js::any")
    else text (named_type t)

-- A text between two others, if there is one.
abbrev pub around : Text → Option Text → Option Text
around before none = none
around before (some t) = some (before ++ t ++ txt ">")

-- `mapType` with at most so many nested calls; `none` says that they were not enough.
unfoldable pub map_type_fuel : ℕ → Text → Option Text
unfolding shape
map_type_fuel zero t = none
map_type_fuel (suc n) t = elim (shape t) [
  | text s ↦ some s
  | array_of e ↦ around (txt "js::array<") (map_type_fuel n e)
  | future_of e ↦ around (txt "std::future<") (map_type_fuel n e)
  | nullable_of e ↦ around (txt "js::typed::Nullable<") (map_type_fuel n e)
]

-- `mapType`, printed in a template string; each nested call has a shorter text.
unfoldable pub map_type : Text → Option Text
unfolding map_type_fuel
map_type t = map_type_fuel (suc (count_units t)) t

-- A type that is not the name of a member that the table of types inherits. `mapType` gives a function
-- or an object for such a name alone, and the methods of a string, which it does not have, throw.
unfoldable pub own_type : Text → Option Text
own_type t = elim (inherited t) [ some printed_member ↦ none | none ↦ some t ]

-- `mapType` where the methods of a string are called on the result.
unfoldable pub map_type_text : Text → Option Text
unfolding own_type
map_type_text t = elim (own_type t) [ some own ↦ map_type own | none ↦ none ]
