-- ===== src/Codegen/Lexical/Plain.antt =====
-- The expressions whose code in src/codegen/generator.ts is shown to close what it opens.
use typescript2cxx.Prelude.{◌≡◌, ◌⊎◌, false, Text, txt, text_eq, All, OfSome, ℕ}
use typescript2cxx.Codegen.Literal.{to_string}
use typescript2cxx.Codegen.Nodes.{
  Expression, Expressions, Properties, Key, identifier, literal, binary, unary, call, member,
  optional_chaining, assignment, array, object_expression, conditional, new_expression, this,
  template_literal, await, function, spread, other, nil, hole, cons, no_properties, entry, name_key,
  expression_key,
}
use typescript2cxx.Codegen.Monad.{Reader}
use typescript2cxx.Codegen.Lexical.{IsBare}
use typescript2cxx.Codegen.Lexical.Names.{PlainIdentifier, PlainNumber, PlainValue}

-- The names that are read have no bracket, quote or backslash, and numbers come out as digits.
pub record PlainReader (r : Reader) : Type 0 where
  pub rest_names : All (λ p. IsBare p.1) r.names.rest_param_mappings
  pub namespace_names : All (λ p. IsBare p.1) r.namespace_imports
  pub base_name : OfSome IsBare r.current_base_class
  pub shown : (n : ℕ) → IsBare (r.show n)
  pub converted : (s : Text) → PlainNumber (r.to_number s)

-- An identifier with plain names.
abbrev pub PlainName : Expression → Type 0
PlainName (identifier id) = PlainIdentifier id
PlainName _ = ⊥

-- A key that is a literal comes out in quotes as it stands.
abbrev pub PlainKeyText : Expression → Type 0
PlainKeyText (literal lit) = IsBare (to_string lit.value)
PlainKeyText _ = Unit {0}

abbrev mutual
  -- No function, and no key or property that would stand in quotes but is not a name.
  pub PlainExpression : Expression → Type 0
  PlainExpression (identifier id) = PlainIdentifier id
  PlainExpression (literal lit) = PlainValue lit.value
  PlainExpression (binary operator left right) =
      IsBare operator
      × PlainExpression left
      × PlainExpression right
      × (PlainName right ⊎ (text_eq operator (txt "instanceof") ≡ false))
  PlainExpression (unary operator prefix operand) = IsBare operator × PlainExpression operand
  PlainExpression (call callee args) = PlainExpression callee × PlainExpressions args
  PlainExpression (member object property computed) = PlainExpression object × PlainName property
  PlainExpression (optional_chaining base) = PlainExpression base
  PlainExpression (assignment operator left right) =
      IsBare operator × PlainExpression left × PlainExpression right
  PlainExpression (array elements) = PlainExpressions elements
  PlainExpression (object_expression properties) = PlainProperties properties
  PlainExpression (conditional test consequent alternate) =
      PlainExpression test × PlainExpression consequent × PlainExpression alternate
  PlainExpression (new_expression callee args) = PlainExpression callee × PlainExpressions args
  PlainExpression this = Unit {0}
  PlainExpression (template_literal parts) = PlainExpressions parts
  PlainExpression (await argument) = PlainExpression argument
  PlainExpression (function is_arrow params return_type body) = ⊥
  PlainExpression (spread argument) = PlainExpression argument
  PlainExpression (other kind) = ⊥

  pub PlainExpressions : Expressions → Type 0
  PlainExpressions nil = Unit {0}
  PlainExpressions (hole es) = PlainExpressions es
  PlainExpressions (cons e es) = PlainExpression e × PlainExpressions es

  pub PlainProperties : Properties → Type 0
  PlainProperties no_properties = Unit {0}
  PlainProperties (entry key e properties) =
      PlainKey key × PlainExpression e × PlainProperties properties

  pub PlainKey : Key → Type 0
  PlainKey (name_key name) = IsBare name
  PlainKey (expression_key computed e) = PlainExpression e × PlainKeyText e
