-- ===== src/TypeChecker/Cpp/Union.antt =====
-- Union types in src/type-checker/simple-checker.ts: the order of two members, and `null`.
use typescript2cxx.Prelude.{
  ◌≡◌, ◌≢◌, refl, sym, ◌∙◌, Bool, true, false, ◌&&◌, ◌||◌, not, inl, inr, Bool-cases, some, none,
  [], ◌∷◌, ◌++◌, arith, find, if◌then◌else◌, Text, txt, text_eq, text_eq→eq,
}
use typescript2cxx.TypeChecker.Nodes.{TypeNode, nil, cons, union_type}
use typescript2cxx.TypeChecker.Cpp.{
  is_string_cpp, is_number_cpp, is_null_cpp, is_undefined_cpp, nullable_cpp, union_of_two,
  union_cpp, map_to_cpp_type,
}

-- No text is of two of the kinds that the code looks for.
is_nullish_cpp : Text → Bool
is_nullish_cpp t = is_null_cpp t || is_undefined_cpp t

pair_cpp : Bool → Bool → Bool → Bool → Bool → Bool → Bool → Bool → Text → Text → Text
pair_cpp sa sb na nb la lb ua ub a b =
    if (sa || (sb || false)) && (na || (nb || false))
    then txt "js::typed::StringOrNumber"
    else if (la || (lb || false)) || (ua || (ub || false))
    then nullable_cpp
        (if not la && not ua then some a else if not lb && not ub then some b else none)
    else txt "js::any"

pair_cpp_comm :
    (sa sb na nb la lb ua ub : Bool) (a b : Text)
    → pair_cpp sa sb na nb la lb ua ub a b ≡ pair_cpp sb sa nb na lb la ub ua b a
unfolding pair_cpp
pair_cpp_comm sa sb na nb la lb ua ub a b = ground arith

find-two :
    (p : Text → Bool) (a b : Text)
    → find p (a ∷ b ∷ []) ≡ (if p a then some a else if p b then some b else none)
find-two p a b = ground arith

union_cpp-two :
    (a b : Text)
    → union_cpp (a ∷ b ∷ [])
      ≡ pair_cpp
          (is_string_cpp a)
          (is_string_cpp b)
          (is_number_cpp a)
          (is_number_cpp b)
          (is_null_cpp a)
          (is_null_cpp b)
          (is_undefined_cpp a)
          (is_undefined_cpp b)
          a
          b
unfolding union_cpp union_of_two pair_cpp
union_cpp-two a b = rw (find-two (λ t. not (is_null_cpp t) && not (is_undefined_cpp t)) a b) refl

union_cpp_comm : (a b : Text) → union_cpp (a ∷ b ∷ []) ≡ union_cpp (b ∷ a ∷ [])
union_cpp_comm a b =
    union_cpp-two a b
    ∙ pair_cpp_comm (is_string_cpp a) (is_string_cpp b) (is_number_cpp a) (is_number_cpp b)
        (is_null_cpp a) (is_null_cpp b) (is_undefined_cpp a) (is_undefined_cpp b) a b
    ∙ sym (union_cpp-two b a)

-- The order of the two members of a union does not change its C++ type.
pub map_to_cpp_type-union_comm :
    (t u : TypeNode)
    → map_to_cpp_type (union_type (cons t (cons u nil)))
      ≡ map_to_cpp_type (union_type (cons u (cons t nil)))
unfolding map_to_cpp_type
map_to_cpp_type-union_comm t u = union_cpp_comm (map_to_cpp_type t) (map_to_cpp_type u)

-- The text of a C++ type that is neither empty nor one of those that stand for `null` and
-- `undefined`.
pub record IsValueCpp (t : Text) : Type 0 where
  pub nonempty : t ≢ []
  pub not_null : is_null_cpp t ≡ false
  pub not_undefined : is_undefined_cpp t ≡ false

nullable_cpp_lem :
    (t : Text) → t ≢ [] → nullable_cpp (some t) ≡ txt "js::typed::Nullable<" ++ t ++ txt ">"
unfolding nullable_cpp
nullable_cpp_lem [] h = absurd (h refl)
nullable_cpp_lem (c ∷ t) h = refl

nullptr_t_tests :
    (is_string_cpp (txt "std::nullptr_t") ≡ false)
    × (is_number_cpp (txt "std::nullptr_t") ≡ false)
    × (is_null_cpp (txt "std::nullptr_t") ≡ true)
unfolding txt text_eq
nullptr_t_tests = (refl, refl, refl)

string_cpps : (is_number_cpp (txt "js::string") ≡ false) × (is_number_cpp (txt "string") ≡ false)
unfolding txt text_eq
string_cpps = (refl, refl)

-- No text stands for both `string` and `number`.
string-ne-number : (t : Text) → (is_string_cpp t && is_number_cpp t) ≡ false
string-ne-number t = elim (Bool-cases (text_eq t (txt "js::string"))) [
  | inl e ↦ rw (text_eq→eq t _ e, string_cpps.0) (ground arith)
  | inr e ↦ elim (Bool-cases (text_eq t (txt "string"))) [
    | inl f ↦ rw (text_eq→eq t _ f, string_cpps.1) (ground arith)
    | inr f ↦ ground arith
  ]
]

pub union_cpp-null :
    (t : Text)
    → IsValueCpp t
    → union_cpp (t ∷ txt "std::nullptr_t" ∷ []) ≡ txt "js::typed::Nullable<" ++ t ++ txt ">"
unfolding pair_cpp
union_cpp-null t v =
    let n = nullptr_t_tests in
    union_cpp-two t (txt "std::nullptr_t")
    ∙ rw (n.0, n.1, n.2, v.not_null, v.not_undefined)
        (elim (Bool-cases (is_string_cpp t)) [
          | inl s ↦
              let other : is_number_cpp t ≡ false = ground (arith, string-ne-number t) in
              rw (s, other) (nullable_cpp_lem t v.nonempty)
          | inr s ↦ rw s (nullable_cpp_lem t v.nonempty)
        ])
