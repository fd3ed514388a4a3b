-- ===== src/Codegen/Generate/Names.antt =====
-- The code of a literal, of an identifier and of a member access in src/codegen/generator.ts has a unit.
use typescript2cxx.Prelude.{
  ◌≡◌, refl, ap, Bool, true, false, if◌then◌else◌, Option, none, some, [], ◌∷◌, Text, txt, All,
  ◌||◌, includes, lookup, lookup-All, inherited-OfSome, inherited, printed, as_text, OfPrinted,
  if-OfPrinted, read-OfPrinted,
}
use typescript2cxx.Codegen.Identifier.{
  IrIdentifier, Context, cpp_name_or, escape_reserved, mapped_name, generate_identifier,
  identifier_map,
}
use typescript2cxx.Codegen.Identifier.Laws.{OfSome-of_cases, OfSome-of, generate_identifier-text}
use typescript2cxx.Codegen.Literal.{
  Number, Value, IrLiteral, string, number, boolean, bigint, null, undefined, nan,
  positive_infinity, negative_infinity, finite, generate_literal, rest_cpp, number_cpp,
  has_cpp_type, is_string, is_boolean, is_number, is_truthy,
}
use typescript2cxx.Codegen.Member.Access.{
  scope, dot_match, computed_access, instance_access, named_access, first_is_upper,
}
use typescript2cxx.Codegen.Regular.{IsNonempty, IsPrintable}
use typescript2cxx.Codegen.Generate.Nonempty.{
  cons-IsNonempty, IsNonempty-append, append-IsNonempty, if-IsNonempty, nonempty,
}

number_cpp-IsNonempty : (n : Number) → IsNonempty (number_cpp n)
unfolding number_cpp txt
number_cpp-IsNonempty nan = search (nonempty)
number_cpp-IsNonempty positive_infinity = search (nonempty)
number_cpp-IsNonempty negative_infinity = search (nonempty)
number_cpp-IsNonempty (finite t) = search (nonempty)

rest :
    (s t u w : Text) (a b c d : Bool) (v : Value)
    → IsPrintable v
    → IsNonempty s
    → IsNonempty t
    → IsNonempty u
    → IsNonempty w
    → IsNonempty (
        if a || is_string v
        then s
        else if b || is_boolean v
        then t
        else if c || is_number v
        then u
        else if d
        then w
        else rest_cpp v)
unfolding rest_cpp txt
rest s t u w true b c d v h i j k l = i
rest s t u w false true c d v h i j k l = search (nonempty, i, j)
rest s t u w false false true d v h i j k l = search (nonempty, i, j, k)
rest s t u w false false false d (string x) h i j k l = i
rest s t u w false false false d (boolean x) h i j k l = j
rest s t u w false false false d (number x) h i j k l = k
rest s t u w false false false d (bigint x) h i j k l = search (nonempty, h, l)
rest s t u w false false false d null h i j k l = search (nonempty, l)
rest s t u w false false false d undefined h i j k l = search (nonempty, l)

pub generate_literal-IsNonempty :
    (convert : Text → Number) (lit : IrLiteral)
    → IsPrintable lit.value
    → IsNonempty (generate_literal convert lit)
unfolding generate_literal txt
generate_literal-IsNonempty convert lit h =
    rest _ _ _ _ (has_cpp_type lit.cpp_type (txt "string"))
      (has_cpp_type lit.cpp_type (txt "boolean")) (has_cpp_type lit.cpp_type (txt "number")) _
      lit.value h (cons-IsNonempty _ _)
      (if-IsNonempty (is_truthy lit.value) _ _ (cons-IsNonempty _ _) (cons-IsNonempty _ _))
      (number_cpp-IsNonempty _) (cons-IsNonempty _ _)

identifier_map-IsNonempty : All (λ p. IsNonempty p.1) identifier_map
unfolding identifier_map txt
identifier_map-IsNonempty = search (nonempty)

mapped_name-OfPrinted :
    (names : Context) (name : Text) → OfPrinted IsNonempty (mapped_name names name)
unfolding mapped_name txt
mapped_name-OfPrinted names name =
    if-OfPrinted IsNonempty (includes names.user_namespaces name) none _ tt (
      read-OfPrinted IsNonempty name identifier_map identifier_map-IsNonempty (
        inherited-OfSome IsNonempty name (cons-IsNonempty _ _) (cons-IsNonempty _ _)
          (cons-IsNonempty _ _)))

cpp_name_or-IsNonempty :
    (cpp_name : Option Text) (name : Text)
    → IsNonempty name
    → IsNonempty (cpp_name_or cpp_name name)
cpp_name_or-IsNonempty none name h = h
cpp_name_or-IsNonempty (some []) name h = h
cpp_name_or-IsNonempty (some (c ∷ s)) name h = cons-IsNonempty c s

escape_reserved-IsNonempty : (name : Text) → IsNonempty name → IsNonempty (escape_reserved name)
unfolding escape_reserved
escape_reserved-IsNonempty name h = search nonempty

pub generate_identifier-IsNonempty :
    (id : IrIdentifier) (names : Context)
    → All (λ p. IsNonempty p.1) names.rest_param_mappings
    → IsNonempty id.name
    → IsNonempty (printed (generate_identifier id names))
unfolding generate_identifier
generate_identifier-IsNonempty id names h k =
    OfSome-of_cases IsNonempty (mapped_name names id.name)
      (lookup id.name names.rest_param_mappings) _ (mapped_name-OfPrinted names id.name)
      (OfSome-of IsNonempty _ (λ t e. lookup-All IsNonempty id.name names.rest_param_mappings h e))
      (escape_reserved-IsNonempty _ (cpp_name_or-IsNonempty id.cpp_name id.name k))

-- An identifier with a name of its own comes out as a text with a unit.
pub identifier_text :
    (id : IrIdentifier) (names : Context)
    → All (λ p. IsNonempty p.1) names.rest_param_mappings
    → IsNonempty id.name × (inherited id.name ≡ none)
    → (t : Text) × (as_text (generate_identifier id names) ≡ some t) × IsNonempty t
identifier_text id names h (k, own) =
    let (t, e) = generate_identifier-text id names own in
    let n : IsNonempty (printed (generate_identifier id names)) =
      generate_identifier-IsNonempty id names h k in
    (t, rw e refl, rw (← ap printed e) n)

dot_match-IsNonempty :
    (object : Text) (found : Option Text) (code : Text)
    → IsNonempty object
    → IsNonempty code
    → IsNonempty (dot_match object found code)
dot_match-IsNonempty object none code h k = k
dot_match-IsNonempty object (some method) code h k = IsNonempty-append object _ h

pub computed_access-IsNonempty :
    (to_lower_case : Text → Text) (object property : Text)
    → IsNonempty object
    → IsNonempty (computed_access to_lower_case object property)
unfolding computed_access
computed_access-IsNonempty lower object property h = search (dot_match-IsNonempty, nonempty)

instance_access-IsNonempty :
    (to_lower_case : Text → Text) (upper : Bool) (object property : Text)
    → IsNonempty object
    → IsNonempty (instance_access to_lower_case upper object property)
unfolding instance_access
instance_access-IsNonempty lower upper object property h =
    search (dot_match-IsNonempty, nonempty) depth 20

unfoldable Given : Option Text → Type 0
Given o = (code : Text) × (o ≡ some code) × IsNonempty code

some-Given : (code : Text) → IsNonempty code → Given (some code)
unfolding Given
some-Given code h = (code, refl, h)

if-Given : (b : Bool) (o p : Option Text) → Given o → Given p → Given (if b then o else p)
if-Given true o p h k = h
if-Given false o p h k = k

named_access-Given :
    (to_lower_case to_upper_case : Text → Text) (base : Option Text) (object property : Text)
    → IsNonempty object
    → Given (named_access to_lower_case to_upper_case base object property)
unfolding named_access first_is_upper txt IsNonempty
named_access-Given lower upper base [] property h = elim h [ ]
named_access-Given lower upper base (c ∷ s) property h =
    search (if-Given, some-Given, instance_access-IsNonempty, nonempty)

-- The object's code has a first unit, so the access does not throw.
pub named_access-total :
    (to_lower_case to_upper_case : Text → Text) (base : Option Text) (object property : Text)
    → IsNonempty object
    → (code : Text) × (named_access to_lower_case to_upper_case base object property ≡ some code)
      × IsNonempty code
unfolding Given
named_access-total = named_access-Given

pub scope-IsNonempty : (object property : Text) → IsNonempty (scope object property)
unfolding txt
scope-IsNonempty object property = append-IsNonempty object _ (cons-IsNonempty _ _)
