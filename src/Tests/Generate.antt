-- ===== src/Tests/Generate.antt =====
-- The theorems on the expressions and statements of src/codegen/generator.ts at concrete inputs.
use typescript2cxx.Prelude.{
  lookup, inherited, inr, text_eq, ℕ, zero, suc, ◌≡◌, ◌<◌, refl, true, false, none, some, [], ◌∷◌,
  ◌++◌, Text, txt, All,
}
use typescript2cxx.Codegen.Identifier.{IrIdentifier}
use typescript2cxx.Codegen.Literal.{string, nan}
use typescript2cxx.Codegen.Nodes.{
  call, Expression, Statement, identifier, literal, binary, unary, member, array, object_expression,
  nil, hole, cons, no_properties, entry, name_key, block, if_statement, for_in, return, end, next,
  no_statement, present, assigned,
}
use typescript2cxx.Codegen.Monad.{Reader, Generator}
use typescript2cxx.Codegen.Operators.{object_code}
use typescript2cxx.Codegen.Regular.{IsNonempty, RegularExpression, RegularStatement}
use typescript2cxx.Codegen.Generate.{generate_expression, generate_statement, generate_properties}
use typescript2cxx.Codegen.Generate.Ensures.{Stays}
use typescript2cxx.Codegen.Generate.Total.{generate_expression-total, generate_statement-total}
use typescript2cxx.Codegen.Generate.Kinds.{
  super_member-none, double_minus, object_expression-names, for_in-indent,
}
use typescript2cxx.Codegen.Lexical.{IsClosed, IsBare}
use typescript2cxx.Codegen.Lexical.Plain.{PlainReader, PlainExpression}
use typescript2cxx.Codegen.Lexical.Whole.{generate_expression-IsClosed}

-- A reader of a source file, for an environment that writes numbers in unary.
unary_digits : ℕ → Text
unary_digits zero = []
unary_digits (suc n) = b'1' ∷ unary_digits n

abbrev reader : Reader
reader = record {
  names = record {
    user_namespaces = [];
    rest_param_mappings = (txt "args", txt "args_array") ∷ [];
  };
  namespace_imports = [];
  current_class = some (txt "Player");
  current_base_class = none;
  is_header = false;
  is_async = false;
  show = unary_digits;
  to_number = λ s. nan;
  to_lower_case = λ s. s;
  to_upper_case = λ s. s;
}

abbrev generator : Generator
generator = record { indent = 2; includes = txt "<cmath>" ∷ []; temps = 3 }

abbrev id : Text → IrIdentifier
id name = record { name = name; cpp_name = none }

abbrev name : Text → Expression
name s = identifier (id s)

abbrev text : Text → Expression
text s = literal (record { value = string s; literal_type = txt "string"; cpp_type = none })

-- `["a", b ** { x: y.length }]`
abbrev some_array : Expression
some_array = array (
    cons (text (txt "a")) (
      hole (
        cons
          (binary (txt "**") (name (txt "b")) (
            object_expression (
              entry (name_key (txt "x")) (member (name (txt "y")) (name (txt "length")) false)
                no_properties)))
          nil)))

mapped : All (λ p. IsNonempty p.1) reader.names.rest_param_mappings
unfolding IsNonempty txt
mapped = (tt, tt)

some_array-Regular : RegularExpression some_array
unfolding IsNonempty inherited txt text_eq
some_array-Regular = ((tt, refl), (refl, (((tt, refl), (tt, ((tt, refl), tt), tt)), tt)))

generate_expression-total_example :
    (code : Text) × (g' : Generator) × (generate_expression some_array reader generator
      ≡ some (code, g'))
    × Stays generator g'
    × IsNonempty code
generate_expression-total_example =
    generate_expression-total reader mapped some_array some_array-Regular generator

-- `if (a) { return b; }`
abbrev some_if : Statement
some_if =
    if_statement (name (txt "a")) (block (next (return (present (name (txt "b")))) end))
      no_statement

some_if-Regular : RegularStatement some_if
unfolding IsNonempty inherited txt text_eq
some_if-Regular = ((tt, refl), ((tt, refl), tt), tt)

generate_statement-total_example :
    (code : Text) × (g' : Generator) × (generate_statement some_if reader generator
      ≡ some (code, g'))
    × Stays generator g'
generate_statement-total_example =
    generate_statement-total reader mapped some_if some_if-Regular generator

for_in-indent_example :
    (code : Text) × (g' : Generator) × (generate_statement
        (for_in (assigned (id (txt "k"))) some_array some_if)
        reader
        generator
      ≡ some (code, g'))
    × (g'.indent ≡ suc generator.indent)
for_in-indent_example =
    for_in-indent reader mapped (assigned (id (txt "k"))) some_array some_if some_array-Regular
      some_if-Regular generator

double_minus_example :
    generate_expression (unary (txt "-") true (unary (txt "-") true some_array)) reader generator
    ≡ generate_expression (unary (txt "--") true some_array) reader generator
double_minus_example = double_minus some_array reader generator

object_expression-names_example :
    (lines : Text) × (g' : Generator) × (generate_expression
        (object_expression (entry (name_key (txt "x")) some_array no_properties))
        reader
        generator
      ≡ some (object_code (txt "obj_temp_" ++ unary_digits 3) lines, g'))
    × (generate_properties
          (entry (name_key (txt "x")) some_array no_properties)
          (txt "obj_temp_" ++ unary_digits 3)
          reader
          (record generator { temps = 4 })
        ≡ some (lines, g'))
    × (3 < g'.temps)
object_expression-names_example =
    object_expression-names reader mapped (entry (name_key (txt "x")) some_array no_properties)
      (tt, some_array-Regular, tt) generator

-- `super(…).size`
super_member-none_example :
    generate_expression
      (member (call (name (txt "super")) (cons some_array nil)) (name (txt "size")) false)
      reader
      generator
    ≡ none
unfolding lookup
super_member-none_example =
    super_member-none (cons some_array nil) (id (txt "size")) reader generator refl

unary_digits-IsBare : (n : ℕ) → IsBare (unary_digits n)
unfolding unary_digits
unary_digits-IsBare zero = tt
unary_digits-IsBare (suc n) = (refl, unary_digits-IsBare n)

reader-Plain : PlainReader reader
unfolding txt
reader-Plain = record {
  rest_names = search depth 60;
  namespace_names = tt;
  base_name = tt;
  shown = unary_digits-IsBare;
  converted = λ s. tt;
}

length-IsBare : IsBare (txt "length")
unfolding txt
length-IsBare = search depth 60

some_array-Plain : PlainExpression some_array
unfolding txt text_eq
some_array-Plain = (
  tt,
  (
    (
      (refl, (refl, tt)),
      ((refl, tt), tt),
      ((refl, tt), (((refl, tt), tt), (length-IsBare, tt)), tt),
      inr refl,
    ),
    tt,
  ),
)

generate_expression-IsClosed_example :
    (code : Text) × (g' : Generator) × (generate_expression some_array reader generator
      ≡ some (code, g'))
    × IsClosed code
generate_expression-IsClosed_example =
    generate_expression-IsClosed reader reader-Plain some_array mapped some_array-Regular
      some_array-Plain generator
