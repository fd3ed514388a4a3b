-- ===== src/TypeChecker/Cpp/Balanced.antt =====
-- The C++ types of src/type-checker/simple-checker.ts have matching brackets.
use typescript2cxx.Prelude.{true, false, none, some, [], All, Text, txt}
use typescript2cxx.Prelude.Brackets.{IsBalanced, IsBalanced-append, IsPlain, IsBalanced-of_IsPlain}
use typescript2cxx.TypeChecker.Nodes.{
  TypeNode, TypeNodes, MaybeType, Params, keyword, type_reference, array_type, tuple_type,
  rest_type, optional_type, named_tuple_member, union_type, intersection_type, function_type,
  parenthesized_type, type_operator, conditional_type, infer_type, mapped_type,
  template_literal_type, indexed_access_type, type_query, literal_type, other_type, nil, cons,
  absent, present, no_params, param,
}
use typescript2cxx.TypeChecker.Cpp.{
  primitive_cpps, map_to_cpp_type, type_cpps, tuple_cpps, maybe_cpp, param_cpps,
}
use typescript2cxx.TypeChecker.Cpp.Pieces.{
  keyword_cpp-IsBalanced, literal_cpp-IsBalanced, nil-IsBalanced, unknown-IsBalanced,
  void-IsBalanced, string-IsBalanced, auto-IsBalanced, any-IsBalanced, union_cpp-IsBalanced,
  most_specific-IsBalanced, dots-IsPlain, js_array-IsBalanced, std_optional-IsBalanced,
  tuple_cpp-IsBalanced, function_type-IsBalanced, reference_cpp-IsBalanced, mapped_cpp-IsBalanced,
}

-- A property holds of the names of all type references of a node.
unfoldable mutual
  pub Names : (Text → Type 0) → TypeNode → Type 0
  Names P (type_reference none args) = Unit
  Names P (type_reference (some name) args) = P name.text × NamesAll P args
  Names P (array_type t) = Names P t
  Names P (tuple_type ts) = NamesAll P ts
  Names P (rest_type t) = Names P t
  Names P (optional_type t) = Names P t
  Names P (named_tuple_member name t) = NamesMaybe P t
  Names P (union_type ts) = NamesAll P ts
  Names P (intersection_type ts) = NamesAll P ts
  Names P (function_type ps r) = NamesParams P ps × NamesMaybe P r
  Names P (parenthesized_type t) = Names P t
  Names P (conditional_type c e t f) = Names P t
  Names P _ = Unit

  pub NamesAll : (Text → Type 0) → TypeNodes → Type 0
  NamesAll P nil = Unit
  NamesAll P (cons t ts) = Names P t × NamesAll P ts

  pub NamesMaybe : (Text → Type 0) → MaybeType → Type 0
  NamesMaybe P absent = Unit
  NamesMaybe P (present t) = Names P t

  pub NamesParams : (Text → Type 0) → Params → Type 0
  NamesParams P no_params = Unit
  NamesParams P (param p ps) = NamesMaybe P p × NamesParams P ps

mutual
  unfolding map_to_cpp_type Names

  balanced : (t : TypeNode) → Names IsPlain t → IsBalanced (map_to_cpp_type t)
  balanced (keyword k) h = keyword_cpp-IsBalanced k
  balanced (type_reference none args) h = unknown-IsBalanced
  balanced (type_reference (some name) nil) (h, _) =
      (reference_cpp-IsBalanced name.text [] (IsBalanced-of_IsPlain name.text h) nil-IsBalanced).0
  balanced (type_reference (some name) (cons t ts)) (h, (k, _)) =
      (reference_cpp-IsBalanced name.text (map_to_cpp_type t) (IsBalanced-of_IsPlain name.text h)
        (balanced t k)).1
  balanced (array_type t) h = js_array-IsBalanced (map_to_cpp_type t) (balanced t h)
  balanced (tuple_type ts) h = tuple_cpp-IsBalanced (tuple_cpps ts) (IsBalanced-tuple ts h)
  balanced (union_type ts) h = union_cpp-IsBalanced (type_cpps ts) (IsBalanced-All ts h)
  balanced (intersection_type ts) h =
      most_specific-IsBalanced primitive_cpps (txt "js::any") (type_cpps ts) any-IsBalanced
        (IsBalanced-All ts h)
  balanced (function_type ps r) (h, k) =
      function_type-IsBalanced (maybe_cpp (txt "void") r) (param_cpps ps)
        (IsBalanced-maybe (txt "void") r void-IsBalanced k) (IsBalanced-params ps h)
  balanced (parenthesized_type t) h = balanced t h
  balanced (type_operator true t) h = string-IsBalanced
  balanced (type_operator false t) h = any-IsBalanced
  balanced (conditional_type c e t f) h = balanced t h
  balanced infer_type h = auto-IsBalanced
  balanced (mapped_type r o) h = mapped_cpp-IsBalanced r o
  balanced template_literal_type h = string-IsBalanced
  balanced (indexed_access_type t k) h = any-IsBalanced
  balanced type_query h = any-IsBalanced
  balanced (rest_type t) h = any-IsBalanced
  balanced (optional_type t) h = any-IsBalanced
  balanced (named_tuple_member name t) h = any-IsBalanced
  balanced (literal_type k) h = literal_cpp-IsBalanced k
  balanced other_type h = any-IsBalanced

  IsBalanced-All : (ts : TypeNodes) → NamesAll IsPlain ts → All IsBalanced (type_cpps ts)
  IsBalanced-All nil h = tt
  IsBalanced-All (cons t ts) (h, hs) = (balanced t h, IsBalanced-All ts hs)

  IsBalanced-tuple : (ts : TypeNodes) → NamesAll IsPlain ts → All IsBalanced (tuple_cpps ts)
  IsBalanced-tuple nil h = tt
  IsBalanced-tuple (cons (rest_type t) ts) (h, hs) = (
    IsBalanced-append (map_to_cpp_type t) (txt "...") (balanced t h)
        (IsBalanced-of_IsPlain _ dots-IsPlain),
    IsBalanced-tuple ts hs,
  )
  IsBalanced-tuple (cons (optional_type t) ts) (h, hs) =
      (std_optional-IsBalanced (map_to_cpp_type t) (balanced t h), IsBalanced-tuple ts hs)
  IsBalanced-tuple (cons (named_tuple_member name t) ts) (h, hs) =
      (IsBalanced-maybe (txt "js::any") t any-IsBalanced h, IsBalanced-tuple ts hs)
  IsBalanced-tuple (cons t ts) (h, hs) = (balanced t h, IsBalanced-tuple ts hs)

  IsBalanced-maybe :
      (default : Text) (t : MaybeType)
      → IsBalanced default
      → NamesMaybe IsPlain t
      → IsBalanced (maybe_cpp default t)
  IsBalanced-maybe default absent d h = d
  IsBalanced-maybe default (present t) d h = balanced t h

  IsBalanced-params : (ps : Params) → NamesParams IsPlain ps → All IsBalanced (param_cpps ps)
  IsBalanced-params no_params h = tt
  IsBalanced-params (param p ps) (h, hs) =
      (IsBalanced-maybe (txt "js::any") p any-IsBalanced h, IsBalanced-params ps hs)

-- The C++ type of every type node has matching angle brackets and parentheses, if the names of the
-- type references in it have none, as identifiers have not.
pub map_to_cpp_type-IsBalanced : (t : TypeNode) → Names IsPlain t → IsBalanced (map_to_cpp_type t)
map_to_cpp_type-IsBalanced t h = balanced t h
