-- ===== src/TypeChecker/Strings.antt =====
-- `getTypeString` of src/type-checker/simple-checker.ts.
use typescript2cxx.Prelude.{
  Bool, true, false, not, some, none, List, [], ◌∷◌, ◌++◌, if◌then◌else◌, filter, Text, txt,
  text_eq, includes, join,
}
use typescript2cxx.TypeChecker.Nodes.{
  Keyword, TypeNode, TypeNodes, MaybeType, Params, string, number, boolean, void,
  any as any_keyword, unknown, never, null, undefined, object, bigint, keyword, type_reference,
  array_type, tuple_type, rest_type, optional_type, named_tuple_member, union_type,
  intersection_type, function_type, parenthesized_type, type_operator, conditional_type, infer_type,
  mapped_type, template_literal_type, indexed_access_type, type_query, literal_type, other_type,
  nil, cons, absent, present, no_params, param,
}

unfoldable pub keyword_string : Keyword → Text
keyword_string string = txt "string"
keyword_string number = txt "number"
keyword_string boolean = txt "boolean"
keyword_string void = txt "void"
keyword_string any_keyword = txt "any"
keyword_string unknown = txt "unknown"
keyword_string never = txt "never"
keyword_string null = txt "null"
keyword_string undefined = txt "undefined"
keyword_string object = txt "object"
keyword_string bigint = txt "bigint"

abbrev pub primitive_strings : List Text
primitive_strings =
    txt "string" ∷ txt "number" ∷ txt "boolean" ∷ txt "void" ∷ txt "null" ∷ txt "undefined" ∷ []

-- The first element that is not in the list, or else the first element, or else the default.
abbrev pub first_or : Text → List Text → Text
first_or default [] = default
first_or default (t ∷ ts) = t

unfoldable pub most_specific : List Text → Text → List Text → Text
most_specific primitives default types =
    first_or (first_or default types) (filter (λ t. not (includes primitives t)) types)

abbrev pub mapped_string : Bool → Bool → Text
mapped_string true has_optional = txt "readonly object"
mapped_string false true = txt "partial object"
mapped_string false false = txt "object"

-- `name ? `${name}: ${type}` : type`
abbrev pub named_string : Text → Text → Text
named_string [] type = type
named_string (c ∷ name) type = (c ∷ name) ++ txt ": " ++ type

-- `NoInfer` with an argument.
abbrev pub is_no_infer : Text → Bool
is_no_infer name = text_eq name (txt "NoInfer")

unfoldable mutual
  pub get_type_string : TypeNode → Text
  get_type_string (keyword k) = keyword_string k
  get_type_string (type_reference none args) = txt "unknown"
  get_type_string (type_reference (some name) nil) = name.text
  get_type_string (type_reference (some name) (cons t ts)) =
      let inner = get_type_string t in if is_no_infer name.text then inner else name.text
  get_type_string (array_type t) = get_type_string t ++ txt "[]"
  get_type_string (tuple_type ts) = txt "[" ++ join (txt ", ") (tuple_strings ts) ++ txt "]"
  get_type_string (union_type ts) = join (txt " | ") (type_strings ts)
  get_type_string (intersection_type ts) =
      most_specific primitive_strings (txt "unknown") (type_strings ts)
  get_type_string (function_type ps r) =
      txt "(" ++ join (txt ", ") (param_strings ps) ++ txt ") => " ++ maybe_string (txt "void") r
  get_type_string (parenthesized_type t) = get_type_string t
  get_type_string (type_operator true t) = txt "keyof " ++ get_type_string t
  get_type_string (type_operator false t) = txt "unknown"
  get_type_string (conditional_type c e t f) = get_type_string t
  get_type_string infer_type = txt "auto"
  get_type_string (mapped_type has_readonly has_optional) = mapped_string has_readonly has_optional
  get_type_string template_literal_type = txt "template literal"
  get_type_string (indexed_access_type t k) =
      get_type_string t ++ txt "[" ++ get_type_string k ++ txt "]"
  get_type_string type_query = txt "typeof expression"
  get_type_string (rest_type t) = txt "unknown"
  get_type_string (optional_type t) = txt "unknown"
  get_type_string (named_tuple_member name t) = txt "unknown"
  get_type_string (literal_type k) = txt "unknown"
  get_type_string other_type = txt "unknown"

  pub type_strings : TypeNodes → List Text
  type_strings nil = []
  type_strings (cons t ts) = get_type_string t ∷ type_strings ts

  -- The elements of a tuple type.
  pub tuple_strings : TypeNodes → List Text
  tuple_strings nil = []
  tuple_strings (cons (rest_type t) ts) =
      (txt "..." ++ get_type_string t ++ txt "[]") ∷ tuple_strings ts
  tuple_strings (cons (optional_type t) ts) = (get_type_string t ++ txt "?") ∷ tuple_strings ts
  tuple_strings (cons (named_tuple_member name t) ts) =
      named_string name (maybe_string (txt "any") t) ∷ tuple_strings ts
  tuple_strings (cons t ts) = get_type_string t ∷ tuple_strings ts

  pub maybe_string : Text → MaybeType → Text
  maybe_string default absent = default
  maybe_string default (present t) = get_type_string t

  pub param_strings : Params → List Text
  param_strings no_params = []
  param_strings (param p ps) = maybe_string (txt "any") p ∷ param_strings ps
