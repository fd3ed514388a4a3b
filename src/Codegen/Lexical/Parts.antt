-- ===== src/Codegen/Lexical/Parts.antt =====
-- The code of the small parts of an expression in src/codegen/generator.ts closes what it opens.
use typescript2cxx.Prelude.{
  refl, Option, some, none, ◌++◌, Text, txt, OfSome, append_assoc, inherited-OfSome,
  native_function,
}
use typescript2cxx.Codegen.Literal.{Value, number, string, boolean, to_string}
use typescript2cxx.Codegen.Nodes.{Expression, Expressions, identifier, literal, nil, hole, cons}
use typescript2cxx.Codegen.Monad.{M}
use typescript2cxx.Codegen.Operators.{value_type, paren}
use typescript2cxx.Codegen.Infer.{element_type, type_or}
use typescript2cxx.Codegen.Pieces.{name_of, key_text}
use typescript2cxx.Codegen.Member.{clean_property}
use typescript2cxx.Codegen.Generate.Yields.{Yields, Yields-pure, Yields-bind}
use typescript2cxx.Codegen.Lexical.{
  IsClosed, IsQuoted, IsBare, lex, advance, IsClosed-of_IsBare, IsQuoted-of_IsBare, IsClosed-quotes,
}
use typescript2cxx.Codegen.Lexical.Operators.{closed_by, skip, skip_end}
use typescript2cxx.Codegen.Lexical.Names.{
  IsNaming, identifier_map-All, native-IsClosed, bracketed, object_name,
}
use typescript2cxx.Codegen.Lexical.Access.{clean_property-IsBare, clean_property-native}
use typescript2cxx.Codegen.Lexical.Plain.{PlainName, PlainKeyText, PlainExpression}

-- A text that closes what it opens, also when it is cleaned as a computed property is.
unfoldable pub IsClean : Text → Type 0
IsClean s = IsClosed (clean_property s)

IsClean-native : (name : Text) → IsBare name → IsClean (native_function name)
unfolding IsClean
IsClean-native name h = rw (clean_property-native name) (native-IsClosed name h)

IsClean-bracketed : IsClean (txt "[object Object]")
unfolding IsClean clean_property txt
IsClean-bracketed = bracketed

pub IsClean-IsNaming : IsNaming IsClean
unfolding IsClean
IsClean-IsNaming = record {
  of_bare = λ s h. IsClosed-of_IsBare _ (clean_property-IsBare s h);
  of_mapped = identifier_map-All IsClean (λ s h. IsClosed-of_IsBare _ (clean_property-IsBare s h));
  of_inherited = λ name h.
      inherited-OfSome IsClean name (IsClean-native name h) (IsClean-native _ object_name)
        IsClean-bracketed;
}

undefined_name : IsQuoted (txt "undefined")
unfolding txt
undefined_name = IsQuoted-of_IsBare _ (search depth 60)

pub name_of-IsQuoted : (e : Expression) → PlainName e → IsQuoted (name_of e)
unfolding name_of
name_of-IsQuoted (identifier id) (h, k) = IsQuoted-of_IsBare id.name h
name_of-IsQuoted _ h = undefined_name

js_any : IsClosed (txt "js::any")
unfolding txt
js_any = IsClosed-of_IsBare _ (search depth 40)

value_type-IsClosed : (v : Value) → OfSome IsClosed (value_type v)
unfolding txt lex advance
value_type-IsClosed (number n) = closed_by _ λ st. refl
value_type-IsClosed (string s) = closed_by _ λ st. refl
value_type-IsClosed (boolean b) = closed_by _ λ st. refl
value_type-IsClosed _ = tt

type_or-IsClosed :
    (o : Option Text) (t : Text) → OfSome IsClosed o → IsClosed t → IsClosed (type_or o t)
type_or-IsClosed none t h k = k
type_or-IsClosed (some s) t h k = h

pub element_type-IsClosed : (es : Expressions) → IsClosed (element_type es)
unfolding element_type
element_type-IsClosed nil = js_any
element_type-IsClosed (hole es) = element_type-IsClosed es
element_type-IsClosed (cons (literal lit) es) =
    type_or-IsClosed (value_type lit.value) (element_type es) (value_type-IsClosed lit.value)
      (element_type-IsClosed es)
element_type-IsClosed (cons e es) = element_type-IsClosed es

pub undefined_code : IsClosed (txt "js::undefined")
unfolding txt lex advance
undefined_code = closed_by _ λ st. refl

pub to_string-paren : (s : Text) → IsClosed s → IsClosed (txt "js::toString" ++ paren s)
unfolding txt lex advance
to_string-paren s h = closed_by _ λ st. simp (append_assoc, skip s h)

pub delete_op-paren : (s : Text) → IsClosed s → IsClosed (txt "js::delete_op" ++ paren s)
unfolding txt lex advance
delete_op-paren s h = closed_by _ λ st. simp (append_assoc, skip s h)

pub await-IsClosed : (s : Text) → IsClosed s → IsClosed (txt "co_await " ++ s)
unfolding txt lex advance
await-IsClosed s h = closed_by _ λ st. skip_end s h st

pub spread-IsClosed : (s : Text) → IsClosed s → IsClosed (txt "/* spread " ++ (s ++ txt " */"))
unfolding txt lex advance
spread-IsClosed s h = closed_by _ λ st. simp (skip s h)

pub this-IsClosed : IsClosed (txt "this")
unfolding txt lex advance
this-IsClosed = closed_by _ λ st. refl

pub empty_array : IsClosed (txt "js::array<js::any>()")
unfolding txt lex advance
empty_array = closed_by _ λ st. refl

pub temp-IsClosed : (digits : Text) → IsBare digits → IsClosed (txt "obj_temp_" ++ digits)
unfolding txt lex advance
temp-IsClosed digits h = closed_by _ λ st. skip_end digits (IsClosed-of_IsBare digits h) st

pub quotes-IsClosed : (s : Text) → IsBare s → IsClosed (txt "\"" ++ (s ++ txt "\""))
quotes-IsClosed s h = IsClosed-quotes s (IsQuoted-of_IsBare s h)

pub key_text-IsClosed :
    (e : Expression) (code : M Text)
    → PlainExpression e
    → PlainKeyText e
    → Yields IsClosed code
    → Yields IsClosed (key_text e code)
unfolding key_text
key_text-IsClosed (identifier id) code (h, _) k l =
    Yields-pure IsClosed _ (quotes-IsClosed id.name h)
key_text-IsClosed (literal lit) code h k l =
    Yields-pure IsClosed _ (quotes-IsClosed (to_string lit.value) k)
key_text-IsClosed _ code h k l =
    Yields-bind IsClosed _ _ l λ t ht. Yields-pure IsClosed _ (to_string-paren t ht)
