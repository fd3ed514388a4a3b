-- ===== src/Codegen/Regular.antt =====
-- Where the methods of src/codegen/generator.ts can read the code of an expression: every name has a
-- unit, no argument is missing, `super` is not called, and neither an identifier that is read nor the
-- type of a variable or a literal has the name of an inherited member.
use typescript2cxx.Prelude.{◌≡◌, Bool, true, false, none, Text, [], ◌∷◌, inherited}
use typescript2cxx.Codegen.Literal.{Value, bigint}
use typescript2cxx.Codegen.Nodes.{
  Expression, Expressions, MaybeExpression, Properties, Key, Parameters, Statement, Statements,
  MaybeStatement, Declarators, Cases, Initializer, Handler, Finalizer, identifier, literal, binary,
  unary, call, member, optional_chaining, assignment, array, object_expression, conditional,
  new_expression, this, template_literal, await, function, spread, other, nil, hole, cons, absent,
  present, no_properties, entry, name_key, expression_key, no_parameters, parameter, no_code,
  variable, block, if_statement, switch, while, for, for_of, for_in, return, try_statement, throw,
  break, continue, expression_statement, other_statement, end, next, no_statement, some_statement,
  no_declarators, declarator, no_cases, case_clause, no_initializer, variable_initializer,
  expression_initializer, no_handler, handler, no_finalizer, finalizer,
}
use typescript2cxx.Codegen.Infer.{type_or_auto}
use typescript2cxx.Codegen.Pieces.{is_super}

unfoldable pub IsNonempty : Text → Type 0
IsNonempty [] = ⊥
IsNonempty (c ∷ s) = Unit {0}

-- No object inherits a member of this name, so that a read of a table gives a text or nothing.
abbrev pub IsOwn : Text → Type 0
IsOwn name = inherited name ≡ none

-- The property of an access: of an identifier that is not computed only the name is read.
abbrev pub RegularProperty : Bool → Expression → Type 0 → Type 0
RegularProperty false (identifier id) regular = IsNonempty id.name
RegularProperty _ _ regular = regular

-- A bigint has a digit.
abbrev pub IsPrintable : Value → Type 0
IsPrintable (bigint digits) = IsNonempty digits
IsPrintable _ = Unit {0}

abbrev mutual
  pub RegularExpression : Expression → Type 0
  RegularExpression (identifier id) = IsNonempty id.name × IsOwn id.name
  RegularExpression (literal lit) = IsPrintable lit.value × IsOwn (type_or_auto lit.cpp_type)
  RegularExpression (binary operator left right) = RegularExpression left × RegularExpression right
  RegularExpression (unary operator prefix operand) = RegularExpression operand
  RegularExpression (call callee args) =
      (is_super callee ≡ false) × RegularExpression callee × RegularExpressions false args
  RegularExpression (member object property computed) =
      RegularExpression object × RegularProperty computed property (RegularExpression property)
  RegularExpression (optional_chaining base) = RegularExpression base
  RegularExpression (assignment operator left right) =
      RegularExpression left × RegularExpression right
  RegularExpression (array elements) = RegularExpressions true elements
  RegularExpression (object_expression properties) = RegularProperties properties
  RegularExpression (conditional test consequent alternate) =
      RegularExpression test × RegularExpression consequent × RegularExpression alternate
  RegularExpression (new_expression callee args) =
      RegularExpression callee × RegularExpressions false args
  RegularExpression this = Unit {0}
  RegularExpression (template_literal parts) = RegularExpressions false parts
  RegularExpression (await argument) = RegularExpression argument
  RegularExpression (function is_arrow params return_type body) =
      RegularParameters params × RegularStatements body
  RegularExpression (spread argument) = RegularExpression argument
  RegularExpression (other kind) = Unit {0}

  -- Holes are for an array only.
  pub RegularExpressions : Bool → Expressions → Type 0
  RegularExpressions holes nil = Unit {0}
  RegularExpressions holes (hole es) = (holes ≡ true) × RegularExpressions holes es
  RegularExpressions holes (cons e es) = RegularExpression e × RegularExpressions holes es

  pub RegularMaybe : MaybeExpression → Type 0
  RegularMaybe absent = Unit {0}
  RegularMaybe (present e) = RegularExpression e

  pub RegularProperties : Properties → Type 0
  RegularProperties no_properties = Unit {0}
  RegularProperties (entry key e properties) =
      RegularKey key × RegularExpression e × RegularProperties properties

  pub RegularKey : Key → Type 0
  RegularKey (name_key name) = Unit {0}
  RegularKey (expression_key computed e) = RegularProperty computed e (RegularExpression e)

  pub RegularParameters : Parameters → Type 0
  RegularParameters no_parameters = Unit {0}
  RegularParameters (parameter name type default params) =
      RegularMaybe default × RegularParameters params

  -- No `for … in`, which leaves the indentation changed.
  pub RegularStatement : Statement → Type 0
  RegularStatement no_code = Unit {0}
  RegularStatement (variable const declarators) = RegularDeclarators declarators
  RegularStatement (block body) = RegularStatements body
  RegularStatement (if_statement test consequent alternate) =
      RegularExpression test × RegularStatement consequent × RegularElse alternate
  RegularStatement (switch discriminant cases) = RegularExpression discriminant × RegularCases cases
  RegularStatement (while test body) = RegularExpression test × RegularStatement body
  RegularStatement (for init test update body) =
      RegularInitializer init × RegularMaybe test × RegularMaybe update × RegularStatement body
  RegularStatement (for_of left right body) = RegularExpression right × RegularStatement body
  RegularStatement (for_in left right body) = ⊥
  RegularStatement (return argument) = RegularMaybe argument
  RegularStatement (try_statement body catch_part finally_part) =
      RegularStatements body × RegularHandler catch_part × RegularFinalizer finally_part
  RegularStatement (throw argument) = RegularExpression argument
  RegularStatement (break label) = Unit {0}
  RegularStatement (continue label) = Unit {0}
  RegularStatement (expression_statement e) = RegularExpression e
  RegularStatement (other_statement kind) = Unit {0}

  pub RegularStatements : Statements → Type 0
  RegularStatements end = Unit {0}
  RegularStatements (next s ss) = RegularStatement s × RegularStatements ss

  pub RegularElse : MaybeStatement → Type 0
  RegularElse no_statement = Unit {0}
  RegularElse (some_statement s) = RegularStatement s

  pub RegularDeclarators : Declarators → Type 0
  RegularDeclarators no_declarators = Unit {0}
  RegularDeclarators (declarator name type assertion init declarators) =
      IsOwn type × RegularMaybe init × RegularDeclarators declarators

  pub RegularCases : Cases → Type 0
  RegularCases no_cases = Unit {0}
  RegularCases (case_clause test body cases) =
      RegularMaybe test × RegularStatements body × RegularCases cases

  pub RegularInitializer : Initializer → Type 0
  RegularInitializer no_initializer = Unit {0}
  RegularInitializer (variable_initializer const declarators) = RegularDeclarators declarators
  RegularInitializer (expression_initializer e) = RegularExpression e

  pub RegularHandler : Handler → Type 0
  RegularHandler no_handler = Unit {0}
  RegularHandler (handler name body) = RegularStatements body

  pub RegularFinalizer : Finalizer → Type 0
  RegularFinalizer no_finalizer = Unit {0}
  RegularFinalizer (finalizer body) = RegularStatements body
