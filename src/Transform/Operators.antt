-- ===== src/Transform/Operators.antt =====
-- The operators and the literals of src/transform/transformer.ts, and the expressions that it passes
-- over.
use typescript2cxx.Prelude.{
  Bool, true, false, ◌||◌, Option, some, none, List, [], ◌∷◌, Text, txt, text_eq, ends_with,
  property, drop,
}
use typescript2cxx.Codegen.Identifier.{IrIdentifier}
use typescript2cxx.Codegen.Literal.{Number, IrLiteral, string, number, boolean, bigint, null}
use typescript2cxx.Codegen.Nodes.{Expression, identifier}
use typescript2cxx.TypeChecker.Nodes.{TypeNode, type_reference}
use typescript2cxx.Transform.Ast.{
  PropertyName, plain_name, private_name, Node, UnaryToken, plus_token, minus_token,
  exclamation_token, tilde_token, plus_plus_token, minus_minus_token, identifier_name,
  super_keyword, parenthesized, as_expression, satisfies_expression, type_assertion, non_null,
}

-- The entries of `mapBinaryOperator`.
unfoldable pub binary_operators : List (Text × Text)
binary_operators =
    (txt "+", txt "+")
    ∷ (txt "-", txt "-")
    ∷ (txt "*", txt "*")
    ∷ (txt "/", txt "/")
    ∷ (txt "%", txt "%")
    ∷ (txt "==", txt "==")
    ∷ (txt "===", txt "==")
    ∷ (txt "!=", txt "!=")
    ∷ (txt "!==", txt "!=")
    ∷ (txt "<", txt "<")
    ∷ (txt ">", txt ">")
    ∷ (txt "<=", txt "<=")
    ∷ (txt ">=", txt ">=")
    ∷ (txt "&&", txt "&&")
    ∷ (txt "||", txt "||")
    ∷ (txt "&", txt "&")
    ∷ (txt "|", txt "|")
    ∷ (txt "^", txt "^")
    ∷ (txt "<<", txt "<<")
    ∷ (txt ">>", txt ">>")
    ∷ (txt ">>>", txt ">>>")
    ∷ (txt "??", txt "??")
    ∷ (txt "**", txt "**")
    ∷ (txt "instanceof", txt "instanceof")
    ∷ (txt "in", txt "in")
    ∷ []

abbrev pub operator_or_plus : Option Text → Text
operator_or_plus none = txt "+"
operator_or_plus (some operator) = operator

-- `mapBinaryOperator`. No entry is empty.
unfoldable pub map_binary_operator : Text → Text
unfolding binary_operators
map_binary_operator op = operator_or_plus (property op binary_operators)

-- `mapUnaryOperator` at the kind of a token.
unfoldable pub map_unary_operator : UnaryToken → Text
map_unary_operator plus_token = txt "+"
map_unary_operator minus_token = txt "-"
map_unary_operator exclamation_token = txt "!"
map_unary_operator tilde_token = txt "~"
map_unary_operator plus_plus_token = txt "++"
map_unary_operator minus_minus_token = txt "--"

-- `opText === "=" || opText?.endsWith("=")`
unfoldable pub is_assignment : Text → Bool
is_assignment op = text_eq op (txt "=") || ends_with op (txt "=")

abbrev pub ir_identifier : Text → IrIdentifier
ir_identifier name = record { name = name; cpp_name = none }

abbrev pub identifier_of : Text → Expression
identifier_of name = identifier (ir_identifier name)

-- `createLiteral(null)`
unfoldable pub null_literal : IrLiteral
null_literal = record { value = null; literal_type = txt "null"; cpp_type = some (txt "null") }

-- `transformLiteral` of a `StringLiteral`, which is `createLiteral` of its text.
unfoldable pub text_literal : Text → IrLiteral
text_literal text = record {
  value = string text;
  literal_type = txt "string";
  cpp_type = some (txt "string");
}

unfoldable pub number_literal : Number → IrLiteral
number_literal n = record {
  value = number n;
  literal_type = txt "number";
  cpp_type = some (txt "number");
}

unfoldable pub boolean_literal : Bool → IrLiteral
boolean_literal b = record {
  value = boolean b;
  literal_type = txt "boolean";
  cpp_type = some (txt "boolean");
}

unfoldable pub digits_literal : Text → IrLiteral
digits_literal digits = record {
  value = bigint digits;
  literal_type = txt "bigint";
  cpp_type = some (txt "bigint");
}

-- The literal of a string between brackets, without the other fields.
unfoldable pub bare_literal : Text → IrLiteral
bare_literal text = record { value = string text; literal_type = []; cpp_type = none }

-- `text.slice(0, -1)`
unfoldable pub without_last : Text → Text
without_last [] = []
without_last (c ∷ []) = []
without_last (c ∷ d ∷ s) = c ∷ without_last (d ∷ s)

-- The name of a property; `text.substring(1)` is what follows a `#`.
unfoldable pub property_name : PropertyName → Text
property_name (plain_name name) = name
property_name (private_name name) = drop 1 name

-- `isConstAssertion` of `transformAsExpression`
unfoldable pub is_const_type : TypeNode → Bool
is_const_type (type_reference (some name) args) = text_eq name.text (txt "const")
is_const_type _ = false

-- Whether the transformed expression has the mark of a constant assertion.
unfoldable pub is_const_assertion : Node → Bool
is_const_assertion (as_expression e t) = is_const_type t || is_const_assertion e
is_const_assertion (parenthesized e) = is_const_assertion e
is_const_assertion (satisfies_expression e) = is_const_assertion e
is_const_assertion (type_assertion e) = is_const_assertion e
is_const_assertion (non_null e) = is_const_assertion e
is_const_assertion _ = false

-- Whether the transformed expression is the identifier `super`.
unfoldable pub names_super : Node → Bool
names_super super_keyword = true
names_super (identifier_name name) = text_eq name (txt "super")
names_super (as_expression e t) = names_super e
names_super (parenthesized e) = names_super e
names_super (satisfies_expression e) = names_super e
names_super (type_assertion e) = names_super e
names_super (non_null e) = names_super e
names_super _ = false
