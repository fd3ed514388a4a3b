-- ===== src/Codegen/Lexical/Names.antt =====
-- The code of an identifier, of a literal and of a member access in src/codegen/generator.ts closes what
-- it opens.
use typescript2cxx.Prelude.{
  ℕ, ◌≡◌, refl, inl, inr, Bool, true, false, if◌then◌else◌, Option, some, none, List, [], ◌∷◌, ◌++◌,
  ◌||◌, Text, txt, All, append_assoc, arith, inherited, All-append, includes, lookup, lookup-All,
  inherited-OfSome, OfSome, printed, if-OfPrinted, read-OfPrinted, native_function, Bool-cases,
}
use typescript2cxx.Codegen.Identifier.{
  IrIdentifier, Context, cpp_name_or, escape_reserved, mapped_name, generate_identifier,
  identifier_map, cpp_reserved_words,
}
use typescript2cxx.Codegen.Identifier.Laws.{OfSome-of_cases, OfSome-of}
use typescript2cxx.Codegen.Literal.{
  Number, Value, IrLiteral, string, number, boolean, bigint, null, undefined, nan,
  positive_infinity, negative_infinity, finite, generate_literal, rest_cpp, number_cpp, to_number,
  has_cpp_type, is_string, is_boolean, is_number, is_truthy, to_string, escape,
}
use typescript2cxx.Codegen.Literal.Laws.{escape_unit, escape-cons}
use typescript2cxx.Codegen.Operators.{text_part}
use typescript2cxx.Codegen.Lexical.{
  IsClosed, IsQuoted, IsBare, lex, advance, nil-IsQuoted, IsClosed-of_IsBare, IsQuoted-of_IsBare,
}
use typescript2cxx.Codegen.Lexical.Operators.{if-IsClosed, closed_by, skip, skip_quoted}

escape_unit-IsQuoted : (c : ℕ) (s : Text) → IsQuoted s → IsQuoted (escape_unit c s)
unfolding IsQuoted lex advance escape_unit
escape_unit-IsQuoted c s h st = let k = h st in ground (arith, h st)

pub escape-IsQuoted : (s : Text) → IsQuoted (escape s)
unfolding escape
escape-IsQuoted [] = nil-IsQuoted
escape-IsQuoted (c ∷ s) =
    rw (escape-cons c s) (escape_unit-IsQuoted c (escape s) (escape-IsQuoted s))

-- A property of texts that bare ones and those of the language and of the runtime have.
pub record IsNaming (P : Text → Type 0) : Type 0 where
  pub of_bare : (s : Text) → IsBare s → P s
  pub of_mapped : All (λ p. P p.1) identifier_map
  pub of_inherited : (name : Text) → IsBare name → OfSome P (inherited name)

-- The names of an identifier.
abbrev pub PlainIdentifier : IrIdentifier → Type 0
PlainIdentifier id = IsBare id.name × OfSome IsBare id.cpp_name

IsBare-append : (s t : Text) → IsBare s → IsBare t → IsBare (s ++ t)
IsBare-append s t h k = All-append _ s t h k

escape_reserved-IsBare : (name : Text) → IsBare name → IsBare (escape_reserved name)
unfolding escape_reserved txt
escape_reserved-IsBare name h = elim (Bool-cases (includes cpp_reserved_words name)) [
  | inl e ↦ rw e (IsBare-append name (txt "_") h (refl, tt))
  | inr e ↦ rw e h
]

cpp_name_or-IsBare :
    (cpp_name : Option Text) (name : Text)
    → OfSome IsBare cpp_name
    → IsBare name
    → IsBare (cpp_name_or cpp_name name)
cpp_name_or-IsBare none name h k = k
cpp_name_or-IsBare (some []) name h k = k
cpp_name_or-IsBare (some (c ∷ s)) name h k = h

pub generate_identifier-Naming :
    (P : Text → Type 0) (naming : IsNaming P) (id : IrIdentifier) (names : Context)
    → All (λ p. IsBare p.1) names.rest_param_mappings
    → PlainIdentifier id
    → P (printed (generate_identifier id names))
unfolding generate_identifier mapped_name
generate_identifier-Naming P naming id names h (k, l) =
    OfSome-of_cases P (mapped_name names id.name) (lookup id.name names.rest_param_mappings) _
      (if-OfPrinted P (includes names.user_namespaces id.name) none _ tt
        (read-OfPrinted P id.name identifier_map naming.of_mapped (naming.of_inherited id.name k)))
      (OfSome-of P _
        (λ t e. naming.of_bare t (lookup-All IsBare id.name names.rest_param_mappings h e)))
      (naming.of_bare _ (escape_reserved-IsBare _ (cpp_name_or-IsBare id.cpp_name id.name l k)))

mapped_names-IsBare : All (λ p. IsBare p.1) identifier_map
unfolding identifier_map txt
mapped_names-IsBare = search depth 400

pub native-IsClosed : (name : Text) → IsBare name → IsClosed (native_function name)
unfolding txt lex advance
native-IsClosed name h =
    closed_by _ λ st. simp (append_assoc, skip name (IsClosed-of_IsBare name h))

native-IsQuoted : (name : Text) → IsBare name → IsQuoted (native_function name)
unfolding txt lex advance IsQuoted
native-IsQuoted name h st = simp (append_assoc, skip_quoted name (IsQuoted-of_IsBare name h))

pub object_name : IsBare (txt "Object")
unfolding txt
object_name = (refl, (refl, (refl, (refl, (refl, (refl, tt))))))

pub bracketed : IsClosed (txt "[object Object]")
unfolding txt lex advance
bracketed = closed_by _ λ st. refl

bracketed-IsQuoted : IsQuoted (txt "[object Object]")
unfolding txt lex advance IsQuoted
bracketed-IsQuoted st = refl

imply :
    (P Q : Text → Type 0)
    → ((s : Text) → P s → Q s)
    → (ps : List (Text × Text)) → All (λ p. P p.1) ps
    → All (λ p. Q p.1) ps
imply P Q f [] h = tt
imply P Q f (p ∷ ps) (h, hs) = (f p.1 h, imply P Q f ps hs)

pub identifier_map-All :
    (P : Text → Type 0) → ((s : Text) → IsBare s → P s) → All (λ p. P p.1) identifier_map
identifier_map-All P f = imply IsBare P f identifier_map mapped_names-IsBare

pub IsClosed-IsNaming : IsNaming IsClosed
IsClosed-IsNaming = record {
  of_bare = IsClosed-of_IsBare;
  of_mapped = identifier_map-All IsClosed IsClosed-of_IsBare;
  of_inherited = λ name h.
      inherited-OfSome IsClosed name (native-IsClosed name h) (native-IsClosed _ (object_name))
        bracketed;
}

pub IsQuoted-IsNaming : IsNaming IsQuoted
IsQuoted-IsNaming = record {
  of_bare = IsQuoted-of_IsBare;
  of_mapped = identifier_map-All IsQuoted IsQuoted-of_IsBare;
  of_inherited = λ name h.
      inherited-OfSome IsQuoted name (native-IsQuoted name h) (native-IsQuoted _ (object_name))
        bracketed-IsQuoted;
}

-- The digits of a number.
abbrev pub PlainNumber : Number → Type 0
PlainNumber (finite digits) = IsBare digits
PlainNumber _ = Unit {0}

-- The digits of a number or a bigint; any string, since its quotes are escaped.
abbrev pub PlainValue : Value → Type 0
PlainValue (number n) = PlainNumber n
PlainValue (bigint digits) = IsBare digits
PlainValue _ = Unit {0}

number_cpp-IsClosed : (n : Number) → PlainNumber n → IsClosed (number_cpp n)
unfolding number_cpp txt lex advance
number_cpp-IsClosed nan h = closed_by _ λ st. refl
number_cpp-IsClosed positive_infinity h = closed_by _ λ st. refl
number_cpp-IsClosed negative_infinity h = closed_by _ λ st. refl
number_cpp-IsClosed (finite t) h =
    closed_by _ λ st. simp (append_assoc, skip t (IsClosed-of_IsBare t h))

to_number-Plain :
    (convert : Text → Number)
    → ((s : Text) → PlainNumber (convert s))
    → (v : Value) → PlainValue v
    → PlainNumber (to_number convert v)
unfolding txt
to_number-Plain convert h (string s) k = h s
to_number-Plain convert h (number n) k = k
to_number-Plain convert h (boolean true) k = (refl, tt)
to_number-Plain convert h (boolean false) k = (refl, tt)
to_number-Plain convert h (bigint t) k = h t
to_number-Plain convert h null k = (refl, tt)
to_number-Plain convert h undefined k = tt

string_cpp : (s : Text) → IsClosed ((b'"' ∷ escape s) ++ (b'"' ∷ txt "_S"))
unfolding txt lex advance
string_cpp s = closed_by _ λ st. simp (append_assoc, skip_quoted _ (escape-IsQuoted s))

pub text_part-IsClosed : (lit : IrLiteral) → IsClosed (text_part lit)
unfolding text_part txt lex advance
text_part-IsClosed lit =
    closed_by _ λ st. simp (append_assoc, skip_quoted _ (escape-IsQuoted (to_string lit.value)))

digits_of :
    (v : Value) → PlainValue v → is_string v ≡ false → is_number v ≡ false → IsBare (to_string v)
unfolding txt
digits_of (string s) h k l = ground (arith, k)
digits_of (number n) h k l = ground (arith, l)
digits_of (boolean true) h k l = search depth 40
digits_of (boolean false) h k l = search depth 40
digits_of (bigint t) h k l = h
digits_of null h k l = search depth 40
digits_of undefined h k l = search depth 60

rest_cpp-IsClosed :
    (v : Value) → PlainValue v → is_string v ≡ false → is_number v ≡ false → IsClosed (rest_cpp v)
unfolding rest_cpp txt lex advance
rest_cpp-IsClosed null h k l = closed_by _ λ st. refl
rest_cpp-IsClosed undefined h k l = closed_by _ λ st. refl
rest_cpp-IsClosed (bigint t) h k l = IsClosed-of_IsBare t h
rest_cpp-IsClosed (string s) h k l = ground (arith, k)
rest_cpp-IsClosed (number n) h k l = ground (arith, l)
rest_cpp-IsClosed (boolean b) h k l = IsClosed-of_IsBare _ (digits_of (boolean b) tt refl refl)

bigint_cpp : (t : Text) → IsBare t → IsClosed (txt "js::bigint(\"" ++ t ++ txt "\")")
unfolding txt lex advance
bigint_cpp t h = closed_by _ λ st. simp (append_assoc, skip_quoted t (IsQuoted-of_IsBare t h))

truth_cpp : (b : Bool) → IsClosed (if b then txt "true" else txt "false")
unfolding txt lex advance
truth_cpp true = closed_by _ λ st. refl
truth_cpp false = closed_by _ λ st. refl

-- The branches from the test for a number on.
numeric_cpp :
    (n b : Bool) (m : Number) (v : Value)
    → PlainNumber m
    → PlainValue v
    → is_string v ≡ false
    → IsClosed (
        if n || is_number v
        then number_cpp m
        else if b
        then txt "js::bigint(\"" ++ to_string v ++ txt "\")"
        else rest_cpp v)
numeric_cpp true b m v h k l = number_cpp-IsClosed m h
numeric_cpp false b m (number x) h k l = number_cpp-IsClosed m h
numeric_cpp false true m (string s) h k l = ground (arith, l)
numeric_cpp false true m (boolean x) h k l = bigint_cpp _ (digits_of (boolean x) tt refl refl)
numeric_cpp false true m (bigint t) h k l = bigint_cpp t k
numeric_cpp false true m null h k l = bigint_cpp _ (digits_of null tt refl refl)
numeric_cpp false true m undefined h k l = bigint_cpp _ (digits_of undefined tt refl refl)
numeric_cpp false false m (string s) h k l = ground (arith, l)
numeric_cpp false false m (boolean x) h k l = rest_cpp-IsClosed (boolean x) tt refl refl
numeric_cpp false false m (bigint t) h k l = rest_cpp-IsClosed (bigint t) k refl refl
numeric_cpp false false m null h k l = rest_cpp-IsClosed null tt refl refl
numeric_cpp false false m undefined h k l = rest_cpp-IsClosed undefined tt refl refl

or_string :
    (b c : Bool) (s t : Text)
    → IsClosed s
    → (c ≡ false → IsClosed t)
    → IsClosed (if b || c then s else t)
or_string true c s t h k = h
or_string false true s t h k = h
or_string false false s t h k = k refl

pub generate_literal-IsClosed :
    (convert : Text → Number)
    → ((s : Text) → PlainNumber (convert s))
    → (lit : IrLiteral) → PlainValue lit.value
    → IsClosed (generate_literal convert lit)
unfolding generate_literal
generate_literal-IsClosed convert h lit k =
    or_string (has_cpp_type lit.cpp_type (txt "string")) (is_string lit.value) _ _
      (string_cpp (to_string lit.value))
      λ l.
        if-IsClosed (has_cpp_type lit.cpp_type (txt "boolean") || is_boolean lit.value) _ _
          (truth_cpp (is_truthy lit.value))
          (numeric_cpp (has_cpp_type lit.cpp_type (txt "number")) _ (to_number convert lit.value)
            lit.value (to_number-Plain convert h lit.value k) k l)
