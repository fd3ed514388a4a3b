-- ===== src/Codegen/Lexical/Access.antt =====
-- The code of a member access in src/codegen/generator.ts closes what it opens.
use typescript2cxx.Prelude.{
  ℕ, ◌≡◌, refl, inl, inr, Bool, true, false, Option, some, none, [], ◌∷◌, ◌++◌, Text, txt, text_eq,
  append_assoc, All-append, native_function, ap, ◌∙◌, if-OfSome, arith, includes, OfSome,
  Bool-cases, starts_with, is_space, drop, count_units,
}
use mathlib.Core.List.{reverse, reverse-cons, reverse-append, reverse-reverse}
use typescript2cxx.Codegen.Member.{
  take_word, skip_spaces, before_paren, function_name, match_function, is_word_unit, clean_property,
  without_first_quote, is_quote,
}
use typescript2cxx.Codegen.Member.Access.{
  scope, dot, arrow, index, dot_match, computed_access, value_access, instance_access, named_access,
  first_is_upper, instance_of_test, base_class, static_classes,
}
use typescript2cxx.Codegen.Lexical.{
  IsClosed, IsQuoted, IsBare, lex, advance, IsClosed-of_IsBare, is_special,
}
use typescript2cxx.Codegen.Lexical.Operators.{if-IsClosed, closed_by, skip, skip_end, skip_quoted}

word_unit-bare : (c : ℕ) → is_word_unit c ≡ true → is_special c ≡ false
word_unit-bare c h = ground (arith, h)

take_word-IsBare : (s : Text) → IsBare (take_word s).0
unfolding take_word
take_word-IsBare [] = tt
take_word-IsBare (c ∷ s) = elim (Bool-cases (is_word_unit c)) [
  | inl h ↦ rw h (word_unit-bare c h, take_word-IsBare s)
  | inr h ↦ rw h tt
]

before_paren-IsBare : (word rest : Text) → IsBare word → OfSome IsBare (before_paren word rest)
before_paren-IsBare [] rest h = tt
before_paren-IsBare (c ∷ word) rest h =
    elim (Bool-cases (starts_with (skip_spaces rest) (txt "("))) [
      | inl e ↦ rw e h
      | inr e ↦ rw e tt
    ]

function_name-IsBare : (s : Text) → OfSome IsBare (function_name s)
unfolding function_name
function_name-IsBare [] = tt
function_name-IsBare (c ∷ s) = elim (Bool-cases (is_space c)) [
  | inl e ↦ rw e (before_paren-IsBare _ _ (take_word-IsBare (skip_spaces s)))
  | inr e ↦ rw e tt
]

or_later :
    (o later : Option Text)
    → OfSome IsBare o
    → OfSome IsBare later
    → OfSome IsBare (elim o [ some word ↦ some word | none ↦ later ])
or_later none later h k = k
or_later (some w) later h k = h

match_function-IsBare : (before s : Text) → OfSome IsBare (match_function before s)
unfolding match_function
match_function-IsBare before [] = tt
match_function-IsBare before (c ∷ s) = elim (Bool-cases (starts_with (c ∷ s) before)) [
  | inl e ↦ rw e (
      or_later (function_name (drop (count_units before) (c ∷ s))) _
        (function_name-IsBare (drop (count_units before) (c ∷ s))) (match_function-IsBare before s))
  | inr e ↦ rw e (match_function-IsBare before s)
]

dot-IsClosed :
    (object property : Text) → IsClosed object → IsClosed property → IsClosed (dot object property)
unfolding txt lex advance
dot-IsClosed object property h k =
    closed_by _ λ st. simp (append_assoc, skip object h, skip_end property k)

arrow-IsClosed :
    (object property : Text)
    → IsClosed object
    → IsClosed property
    → IsClosed (arrow object property)
unfolding txt lex advance
arrow-IsClosed object property h k =
    closed_by _ λ st. simp (append_assoc, skip object h, skip_end property k)

pub scope-IsClosed :
    (object property : Text)
    → IsClosed object
    → IsClosed property
    → IsClosed (scope object property)
unfolding txt lex advance
scope-IsClosed object property h k =
    closed_by _ λ st. simp (append_assoc, skip object h, skip_end property k)

index-IsClosed :
    (object property : Text)
    → IsClosed object
    → IsClosed property
    → IsClosed (index object property)
unfolding txt lex advance
index-IsClosed object property h k =
    closed_by _ λ st. simp (append_assoc, skip object h, skip property k)

length-IsClosed : (object : Text) → IsClosed object → IsClosed (object ++ txt ".length()")
unfolding txt lex advance
length-IsClosed object h = closed_by _ λ st. simp (skip object h)

name_index-IsClosed :
    (object property : Text)
    → IsClosed object
    → IsQuoted property
    → IsClosed (object ++ (txt "[\"" ++ (property ++ txt "\"]")))
unfolding txt lex advance
name_index-IsClosed object property h k =
    closed_by _ λ st. simp (append_assoc, skip object h, skip_quoted property k)

enum-IsClosed :
    (object property : Text)
    → IsClosed object
    → IsClosed property
    → IsClosed (object ++ (txt "::getName(" ++ (property ++ txt ")")))
unfolding txt lex advance
enum-IsClosed object property h k =
    closed_by _ λ st. simp (append_assoc, skip object h, skip property k)

to_string-IsClosed : (object : Text) → IsClosed object → IsClosed (object ++ txt ".toString")
unfolding txt lex advance
to_string-IsClosed object h = closed_by _ λ st. simp (skip object h)

dot_match-IsClosed :
    (object : Text) (found : Option Text) (other : Text)
    → IsClosed object
    → OfSome IsBare found
    → IsClosed other
    → IsClosed (dot_match object found other)
dot_match-IsClosed object none other h k l = l
dot_match-IsClosed object (some method) other h k l =
    dot-IsClosed object method h (IsClosed-of_IsBare method k)

pub computed_access-IsClosed :
    (to_lower_case : Text → Text) (object property : Text)
    → IsClosed object
    → IsClosed property
    → IsClosed (clean_property property)
    → IsClosed (computed_access to_lower_case object property)
unfolding computed_access
computed_access-IsClosed lower object property h k l = search (
  if-IsClosed, enum-IsClosed, to_string-IsClosed, dot_match-IsClosed, arrow-IsClosed,
  index-IsClosed, match_function-IsBare,
)

value_access-IsClosed :
    (to_lower_case : Text → Text) (object property : Text)
    → IsClosed object
    → IsClosed property
    → IsQuoted property
    → IsClosed (value_access to_lower_case object property)
unfolding value_access
value_access-IsClosed lower object property h k l =
    search
      (
        if-IsClosed, name_index-IsClosed, dot_match-IsClosed, arrow-IsClosed, dot-IsClosed,
        match_function-IsBare,
      )
      depth 12

instance_access-IsClosed :
    (to_lower_case : Text → Text) (upper : Bool) (object property : Text)
    → IsClosed object
    → IsClosed property
    → IsQuoted property
    → IsClosed (instance_access to_lower_case upper object property)
unfolding instance_access
instance_access-IsClosed lower upper object property h k l =
    search
      (
        if-IsClosed, scope-IsClosed, index-IsClosed, dot-IsClosed, length-IsClosed,
        value_access-IsClosed,
      )
      depth 12

instance_of_test-IsClosed :
    (to_lower_case : Text → Text) (object property : Text) (upper : Option Bool)
    → IsClosed object
    → IsClosed property
    → IsQuoted property
    → OfSome IsClosed (instance_of_test to_lower_case object property upper)
instance_of_test-IsClosed lower object property none h k l = tt
instance_of_test-IsClosed lower object property (some upper) h k l =
    instance_access-IsClosed lower upper object property h k l

base_class-IsClosed : (base : Option Text) → OfSome IsBare base → IsClosed (base_class base)
unfolding txt lex advance
base_class-IsClosed none h = closed_by _ λ st. refl
base_class-IsClosed (some []) h = closed_by _ λ st. refl
base_class-IsClosed (some (c ∷ s)) h = IsClosed-of_IsBare (c ∷ s) h

without_first_quote-IsBare : (s : Text) → IsBare s → IsBare (without_first_quote s)
without_first_quote-IsBare [] h = tt
without_first_quote-IsBare (c ∷ s) (h, hs) = elim (Bool-cases (is_quote c)) [
  | inl e ↦ rw (e, without_first_quote) hs
  | inr e ↦ rw (e, without_first_quote) (h, hs)
]

reverse-IsBare : (s : Text) → IsBare s → IsBare (reverse s)
reverse-IsBare [] h = tt
reverse-IsBare (c ∷ s) (h, hs) =
    rw (reverse-cons c s) (All-append _ (reverse s) (c ∷ []) (reverse-IsBare s hs) (h, tt))

pub named_access-IsClosed :
    (to_lower_case to_upper_case : Text → Text) (base : Option Text) (object property : Text)
    → OfSome IsBare base
    → IsClosed object
    → IsClosed property
    → IsQuoted property
    → OfSome IsClosed (named_access to_lower_case to_upper_case base object property)
unfolding named_access
named_access-IsClosed lower upper base object property b h k l =
    if-OfSome IsClosed (text_eq object (txt "super")) (some (scope (base_class base) property)) _
      (scope-IsClosed _ _ (base_class-IsClosed base b) k)
      (if-OfSome IsClosed (text_eq object (txt "this")) (some (arrow object property)) _
        (arrow-IsClosed object property h k)
        (if-OfSome IsClosed (includes static_classes object) (some (scope object property)) _
          (scope-IsClosed object property h k)
          (instance_of_test-IsClosed lower object property (first_is_upper upper object) h k l)))

-- The text that a computed access leaves of its property, of one that has no quote.
pub clean_property-IsBare : (s : Text) → IsBare s → IsBare (clean_property s)
unfolding clean_property
clean_property-IsBare s h =
    reverse-IsBare _
      (without_first_quote-IsBare _ (reverse-IsBare _ (without_first_quote-IsBare s h)))

-- The text that a computed access leaves of what an object inherits.
pub clean_property-native :
    (name : Text) → clean_property (native_function name) ≡ native_function name
unfolding clean_property txt
clean_property-native name =
    let before : Text = txt "function " ++ name in
    let last : without_first_quote (reverse (before ++ txt "() { [native code] }"))
        ≡ reverse (before ++ txt "() { [native code] }") =
      rw (reverse-append before (txt "() { [native code] }")) refl in
    ap reverse last ∙ reverse-reverse (before ++ txt "() { [native code] }")
