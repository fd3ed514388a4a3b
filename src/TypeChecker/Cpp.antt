-- ===== src/TypeChecker/Cpp.antt =====
-- `mapToCppType` of src/type-checker/simple-checker.ts.
mod Pieces
pub mod Balanced
pub mod Union
use typescript2cxx.Prelude.{
  Bool, true, false, ◌&&◌, ◌||◌, not, Option, some, none, List, [], ◌∷◌, ◌++◌, ◌==◌, if◌then◌else◌,
  length, any, filter, find, Text, txt, text_eq, join, ends_with, remove_first, lookup,
}
use typescript2cxx.TypeChecker.Nodes.{
  Keyword, LiteralKind, TypeNode, TypeNodes, MaybeType, Params, string, number, boolean, void,
  any as any_keyword, unknown, never, null, undefined, object, bigint, null_keyword, string_literal,
  numeric_literal, true_keyword, false_keyword, other_literal, keyword, type_reference, array_type,
  tuple_type, rest_type, optional_type, named_tuple_member, union_type, intersection_type,
  function_type, parenthesized_type, type_operator, conditional_type, infer_type, mapped_type,
  template_literal_type, indexed_access_type, type_query, literal_type, other_type, nil, cons,
  absent, present, no_params, param,
}
use typescript2cxx.TypeChecker.Strings.{is_no_infer, most_specific}

unfoldable pub keyword_cpp : Keyword → Text
keyword_cpp string = txt "js::string"
keyword_cpp number = txt "js::number"
keyword_cpp boolean = txt "bool"
keyword_cpp void = txt "void"
keyword_cpp null = txt "std::nullptr_t"
keyword_cpp undefined = txt "js::undefined_t"
keyword_cpp bigint = txt "js::bigint"
keyword_cpp any_keyword = txt "js::any"
keyword_cpp unknown = txt "js::unknown"
keyword_cpp object = txt "js::object"
keyword_cpp never = txt "js::any"

unfoldable pub literal_cpp : LiteralKind → Text
literal_cpp null_keyword = txt "std::nullptr_t"
literal_cpp string_literal = txt "js::string"
literal_cpp numeric_literal = txt "js::number"
literal_cpp true_keyword = txt "bool"
literal_cpp false_keyword = txt "bool"
literal_cpp other_literal = txt "js::any"

abbrev pub is_string_cpp : Text → Bool
is_string_cpp t = text_eq t (txt "js::string") || text_eq t (txt "string")

abbrev pub is_number_cpp : Text → Bool
is_number_cpp t = text_eq t (txt "js::number") || text_eq t (txt "number")

abbrev pub is_null_cpp : Text → Bool
is_null_cpp t =
    text_eq t (txt "js::null_t") || text_eq t (txt "null") || text_eq t (txt "std::nullptr_t")

abbrev pub is_undefined_cpp : Text → Bool
is_undefined_cpp t = text_eq t (txt "js::undefined_t") || text_eq t (txt "undefined")

-- `nonNullType` and the return that it guards; an empty text counts as not found.
unfoldable pub nullable_cpp : Option Text → Text
nullable_cpp none = txt "js::any"
nullable_cpp (some []) = txt "js::any"
nullable_cpp (some (c ∷ t)) = txt "js::typed::Nullable<" ++ (c ∷ t) ++ txt ">"

unfoldable pub union_of_two : List Text → Text
union_of_two types =
    if any is_string_cpp types && any is_number_cpp types
    then txt "js::typed::StringOrNumber"
    else if any is_null_cpp types || any is_undefined_cpp types
    then nullable_cpp (find (λ t. not (is_null_cpp t) && not (is_undefined_cpp t)) types)
    else txt "js::any"

unfoldable pub union_cpp : List Text → Text
union_cpp types = if length types == 2 then union_of_two types else txt "js::any"

abbrev pub primitive_cpps : List Text
primitive_cpps =
    txt "js::string"
    ∷ txt "js::number"
    ∷ txt "bool"
    ∷ txt "void"
    ∷ txt "js::null_t"
    ∷ txt "js::undefined_t"
    ∷ []

abbrev pub typed_arrays : List (Text × Text)
typed_arrays =
    (txt "Int8Array", txt "js::Int8Array")
    ∷ (txt "Uint8Array", txt "js::Uint8Array")
    ∷ (txt "Uint8ClampedArray", txt "js::Uint8ClampedArray")
    ∷ (txt "Int16Array", txt "js::Int16Array")
    ∷ (txt "Uint16Array", txt "js::Uint16Array")
    ∷ (txt "Int32Array", txt "js::Int32Array")
    ∷ (txt "Uint32Array", txt "js::Uint32Array")
    ∷ (txt "Float32Array", txt "js::Float32Array")
    ∷ (txt "Float64Array", txt "js::Float64Array")
    ∷ (txt "BigInt64Array", txt "js::BigInt64Array")
    ∷ (txt "BigUint64Array", txt "js::BigUint64Array")
    ∷ []

-- A reference by an identifier that is no name of an inherited member, so that only an entry of the
-- table is found; with the C++ type of its first type argument, if it has one.
unfoldable pub reference_cpp : Text → Option Text → Text
reference_cpp name none = elim (lookup name typed_arrays) [ some t ↦ t | none ↦ name ]
reference_cpp name (some inner) =
    if is_no_infer name then inner else elim (lookup name typed_arrays) [
      | some t ↦ t
      | none ↦
          if text_eq name (txt "Array")
          then txt "js::array<" ++ inner ++ txt ">"
          else if text_eq name (txt "Promise")
          then txt "std::future<" ++ inner ++ txt ">"
          else name
    ]

abbrev pub is_rest : Text → Bool
is_rest t = ends_with t (txt "...")

abbrev pub or_any : Option Text → Text
or_any none = txt "js::any"
or_any (some []) = txt "js::any"
or_any (some (c ∷ t)) = c ∷ t

-- `elementTypes.find(…)?.replace("...", "")`
abbrev pub without_dots : Option Text → Option Text
without_dots none = none
without_dots (some t) = some (remove_first (txt "...") t)

abbrev pub rest_tuple : List Text → Option Text → Text
rest_tuple [] rest_type' = txt "js::array<" ++ or_any rest_type' ++ txt ">"
rest_tuple (t ∷ ts) rest_type' = txt "std::tuple<" ++ join (txt ", ") (t ∷ ts) ++ txt ">"

unfoldable pub tuple_cpp : List Text → Text
tuple_cpp element_types =
    if any is_rest element_types
    then rest_tuple (filter (λ t. not (is_rest t)) element_types)
        (without_dots (find is_rest element_types))
    else txt "std::tuple<" ++ join (txt ", ") element_types ++ txt ">"

abbrev pub mapped_cpp : Bool → Bool → Text
mapped_cpp true has_optional = txt "const js::object"
mapped_cpp false has_optional = txt "js::object"

-- `resolveTypeNode(t).cppType` is `mapToCppType` of `t`.
unfoldable mutual
  pub map_to_cpp_type : TypeNode → Text
  map_to_cpp_type (keyword k) = keyword_cpp k
  map_to_cpp_type (type_reference none args) = txt "unknown"
  map_to_cpp_type (type_reference (some name) nil) = reference_cpp name.text none
  map_to_cpp_type (type_reference (some name) (cons t ts)) =
      reference_cpp name.text (some (map_to_cpp_type t))
  map_to_cpp_type (array_type t) = txt "js::array<" ++ map_to_cpp_type t ++ txt ">"
  map_to_cpp_type (tuple_type ts) = tuple_cpp (tuple_cpps ts)
  map_to_cpp_type (union_type ts) = union_cpp (type_cpps ts)
  map_to_cpp_type (intersection_type ts) =
      most_specific primitive_cpps (txt "js::any") (type_cpps ts)
  map_to_cpp_type (function_type ps r) =
      txt "std::function<"
      ++ maybe_cpp (txt "void") r
      ++ txt "("
      ++ join (txt ", ") (param_cpps ps)
      ++ txt ")>"
  map_to_cpp_type (parenthesized_type t) = map_to_cpp_type t
  map_to_cpp_type (type_operator true t) = txt "js::string"
  map_to_cpp_type (type_operator false t) = txt "js::any"
  map_to_cpp_type (conditional_type c e t f) = map_to_cpp_type t
  map_to_cpp_type infer_type = txt "auto"
  map_to_cpp_type (mapped_type has_readonly has_optional) = mapped_cpp has_readonly has_optional
  map_to_cpp_type template_literal_type = txt "js::string"
  map_to_cpp_type (indexed_access_type t k) = txt "js::any"
  map_to_cpp_type type_query = txt "js::any"
  map_to_cpp_type (rest_type t) = txt "js::any"
  map_to_cpp_type (optional_type t) = txt "js::any"
  map_to_cpp_type (named_tuple_member name t) = txt "js::any"
  map_to_cpp_type (literal_type k) = literal_cpp k
  map_to_cpp_type other_type = txt "js::any"

  pub type_cpps : TypeNodes → List Text
  type_cpps nil = []
  type_cpps (cons t ts) = map_to_cpp_type t ∷ type_cpps ts

  pub tuple_cpps : TypeNodes → List Text
  tuple_cpps nil = []
  tuple_cpps (cons (rest_type t) ts) = (map_to_cpp_type t ++ txt "...") ∷ tuple_cpps ts
  tuple_cpps (cons (optional_type t) ts) =
      (txt "std::optional<" ++ map_to_cpp_type t ++ txt ">") ∷ tuple_cpps ts
  tuple_cpps (cons (named_tuple_member name t) ts) = maybe_cpp (txt "js::any") t ∷ tuple_cpps ts
  tuple_cpps (cons t ts) = map_to_cpp_type t ∷ tuple_cpps ts

  pub maybe_cpp : Text → MaybeType → Text
  maybe_cpp default absent = default
  maybe_cpp default (present t) = map_to_cpp_type t

  pub param_cpps : Params → List Text
  param_cpps no_params = []
  param_cpps (param p ps) = maybe_cpp (txt "js::any") p ∷ param_cpps ps
