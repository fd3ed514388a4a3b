-- ===== src/Transform/Types.antt =====
-- The C++ types that src/transform/transformer.ts gives to annotations.
use typescript2cxx.Prelude.{
  Bool, ◌&&◌, ◌||◌, not, Option, some, none, List, [], ◌∷◌, ◌++◌, any, find, if◌then◌else◌, Text,
  txt, includes, join,
}
use typescript2cxx.TypeChecker.Nodes.{
  TypeName, Keyword, LiteralKind, TypeNode, TypeNodes, MaybeType, string, number, boolean, void,
  unknown, never, null, undefined, object, bigint, null_keyword, keyword, type_reference,
  array_type, union_type, intersection_type, parenthesized_type, literal_type, nil, cons, absent,
  present,
}
use typescript2cxx.Transform.Monad.{Environment}

abbrev pub keyword_cpp : Keyword → Text
keyword_cpp string = txt "js::string"
keyword_cpp number = txt "js::number"
keyword_cpp boolean = txt "bool"
keyword_cpp void = txt "void"
keyword_cpp unknown = txt "js::unknown"
keyword_cpp never = txt "void"
keyword_cpp null = txt "js::null_t"
keyword_cpp undefined = txt "js::undefined_t"
keyword_cpp object = txt "js::object"
keyword_cpp bigint = txt "unknown"
keyword_cpp _ = txt "js::any"

abbrev pub name_or_unknown : Option TypeName → Text
name_or_unknown none = txt "unknown"
name_or_unknown (some name) = name.text

abbrev pub literal_cpp : LiteralKind → Text
literal_cpp null_keyword = txt "std::nullptr_t"
literal_cpp _ = txt "js::any"

abbrev pub is_null_text : Text → Bool
is_null_text t = includes (txt "js::null_t" ∷ txt "null" ∷ txt "std::nullptr_t" ∷ []) t

abbrev pub is_undefined_text : Text → Bool
is_undefined_text t = includes (txt "js::undefined_t" ∷ txt "undefined" ∷ []) t

-- The type of a union of which one member may be missing; the empty text does not count.
abbrev pub nullable_of : Option Text → Text
nullable_of none = txt "js::any"
nullable_of (some []) = txt "js::any"
nullable_of (some (c ∷ t)) = txt "js::typed::Nullable<" ++ (c ∷ t) ++ txt ">"

-- The `UnionType` case, of the types of the members.
unfoldable pub union_cpp : List Text → Text
union_cpp (s ∷ t ∷ []) =
    let types = s ∷ t ∷ [] in
    let strings = any (includes (txt "js::string" ∷ txt "string" ∷ [])) types in
    let numbers = any (includes (txt "js::number" ∷ txt "number" ∷ [])) types in
    let others = find (λ u. not (is_null_text u || is_undefined_text u)) types in
    if strings && numbers
    then txt "js::typed::StringOrNumber"
    else if any is_null_text types || any is_undefined_text types
    then nullable_of others
    else txt "js::any"
union_cpp _ = txt "js::any"

unfoldable mutual
  -- `resolveTypeNode`
  pub resolve_type_text : TypeNode → Text
  resolve_type_text (keyword k) = keyword_cpp k
  resolve_type_text (type_reference name args) = name_or_unknown name
  resolve_type_text (array_type t) = txt "js::array<" ++ (resolve_type_text t ++ txt ">")
  resolve_type_text (union_type ts) = union_cpp (resolve_type_texts ts)
  resolve_type_text (intersection_type ts) = join (txt " & ") (resolve_type_texts ts)
  resolve_type_text (literal_type k) = literal_cpp k
  resolve_type_text (parenthesized_type t) = resolve_type_text t
  resolve_type_text _ = txt "unknown"

  pub resolve_type_texts : TypeNodes → List Text
  resolve_type_texts nil = []
  resolve_type_texts (cons t ts) = resolve_type_text t ∷ resolve_type_texts ts

-- `resolveType` of an annotation, and `resolveTypeForDeclaration` of a declaration with it, whose type
-- the checker has found before.
unfoldable pub resolve_type : Environment → MaybeType → Text
resolve_type environment absent = txt "auto"
resolve_type environment (present t) = elim environment.type_checker [
  | none ↦ resolve_type_text t
  | some resolve ↦ (resolve t).cpp_type
]

-- The type of an annotation that may be missing.
unfoldable pub default_type : Environment → MaybeType → Option Text
default_type environment absent = none
default_type environment (present t) = some (resolve_type environment (present t))
