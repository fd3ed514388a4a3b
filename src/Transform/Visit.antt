-- ===== src/Transform/Visit.antt =====
-- `transformExpression` and `transformStatement` of src/transform/transformer.ts with the methods that
-- they call, for the statements inside a function.
use typescript2cxx.Prelude.{
  Bool, true, false, Option, some, none, ◌++◌, if◌then◌else◌, Text, txt, drop, is_empty,
}
use typescript2cxx.Codegen.Nodes.{
  Expression, Expressions, MaybeExpression, Properties, Key, Parameters, Statement, Statements,
  MaybeStatement, Declarators, Cases, Initializer, LoopVariable, Handler, Finalizer, literal,
  binary, unary, call, member, assignment, array, object_expression, conditional, new_expression,
  this, template_literal, await, function, spread, nil, hole, cons, absent, present, no_properties,
  entry, expression_key, no_parameters, parameter, variable, block, if_statement, switch, while,
  for, for_of, for_in, return, try_statement, throw, break, continue, expression_statement, end,
  next, no_statement, some_statement, no_declarators, declarator, no_cases, case_clause,
  no_initializer, variable_initializer, expression_initializer, declared, assigned, no_handler,
  handler, no_finalizer, finalizer,
}
use typescript2cxx.Transform.Ast.{
  Node, Elements, Members, KeyNode, Spans, Body, ParameterNodes, MaybeNode, StatementNode,
  StatementNodes, MaybeStatementNode, Clauses, DeclarationNodes, ForInitializer, LoopHead,
  CatchNode, FinallyNode, identifier_name, string_literal, numeric_literal, bigint_literal,
  true_keyword, false_keyword, null_keyword, array_literal, object_literal, call_expression,
  import_keyword, property_access, element_access, binary_expression, prefix_unary, postfix_unary,
  conditional_expression, template_expression, no_substitution_template, arrow_function,
  function_expression, this_keyword, super_keyword, new_node, await_expression, typeof_expression,
  delete_expression, spread_element, parenthesized, as_expression, satisfies_expression,
  type_assertion, non_null, other_node, no_elements, omitted, element, no_members,
  property_assignment, shorthand_assignment, other_member, computed_key, identifier_key,
  private_key, string_key, numeric_key, other_key, no_spans, span, expression_body, block_body,
  no_parameter_nodes, parameter_node, no_node, some_node, block_node, expression_node, if_node,
  switch_node, while_node, for_node, for_of_node, for_in_node, return_node, break_node,
  continue_node, variable_statement, try_node, throw_node, unsupported_statement, no_statements,
  statement_node, no_else, else_node, no_clauses, default_clause, case_node, declaration_list,
  no_declarations, declaration_node, no_for_initializer, list_initializer, node_initializer,
  declaration_head, identifier_head, other_head, no_catch, catch_node, no_finally, finally_node,
}
use typescript2cxx.Transform.Monad.{
  Environment, M, ◌>>=◌, ◌>>◌, pure, throw_error, or_throw, push_scope, pop_scope, add_to_scope,
  add_export, add_import, plain_import, warn,
}
use typescript2cxx.Transform.Types.{resolve_type}
use typescript2cxx.Transform.Operators.{
  map_binary_operator, map_unary_operator, is_assignment, ir_identifier, identifier_of,
  null_literal, text_literal, number_literal, boolean_literal, digits_literal, bare_literal,
  without_last, property_name, is_const_assertion,
}

-- `createLiteral(null)`, which stands for a node that is missing or not supported.
abbrev pub placeholder : Expression
placeholder = literal null_literal

-- The `default` of `transformExpression`.
unfoldable pub unsupported_node : Text → M Expression
unsupported_node kind = do warn (txt "Unsupported expression type: " ++ kind); pure placeholder

-- A part of a template literal that is text, but for the empty one.
abbrev pub with_text : Text → Expressions → Expressions
with_text text parts = if is_empty text then parts else cons (literal (text_literal text)) parts

-- The import that a call of the keyword `import` with these arguments is tracked as.
abbrev pub track_import : Node → Elements → M (Unit {0})
track_import import_keyword (element (string_literal from) args) = add_import (plain_import from)
track_import callee args = pure tt

-- The export of a declared variable.
abbrev pub track_export : Bool → Text → M (Unit {0})
track_export exported name = if exported then add_export name else pure tt

-- Whether the initializer of a declaration has a constant assertion.
abbrev pub asserts_const : MaybeNode → Bool
asserts_const no_node = false
asserts_const (some_node e) = is_const_assertion e

-- `ts.isIdentifier(param.name) ? param.name.text : "param"`
abbrev pub parameter_name : Option Text → Text
parameter_name none = txt "param"
parameter_name (some name) = name

-- `transformBlockStatement`, of the statements' own transformation.
unfoldable pub in_scope : {A : Type 0} → M A → M A
in_scope m = do push_scope; a ← m; pop_scope; pure a

-- The argument of an element access, whose own transformation is given.
abbrev pub index_of : Node → M Expression → M Expression
index_of (string_literal text) m = pure (literal (bare_literal text))
index_of e m = m

unfoldable mutual
  -- `transformExpression`
  pub transform_expression : Node → Environment → M Expression
  transform_expression (identifier_name name) env = pure (identifier_of name)
  transform_expression (string_literal text) env = pure (literal (text_literal text))
  transform_expression (numeric_literal text) env =
      pure (literal (number_literal (env.to_number text)))
  transform_expression (bigint_literal text) env = do
    digits ← or_throw (env.to_bigint (without_last text))
    pure (literal (digits_literal digits))
  transform_expression true_keyword env = pure (literal (boolean_literal true))
  transform_expression false_keyword env = pure (literal (boolean_literal false))
  transform_expression null_keyword env = pure placeholder
  transform_expression (array_literal elements) env = do
    es ← transform_elements elements env
    pure (array es)
  transform_expression (object_literal members) env = do
    ps ← transform_members members env
    pure (object_expression ps)
  transform_expression (call_expression callee arguments) env = do
    track_import callee arguments
    args ← transform_arguments arguments env
    f ← transform_expression callee env
    pure (call f args)
  transform_expression import_keyword env = unsupported_node (txt "ImportKeyword")
  transform_expression (property_access object name) env = do
    o ← transform_expression object env
    pure (member o (identifier_of (property_name name)) false)
  transform_expression (element_access object index) env = do
    p ← index_of index (transform_expression index env)
    o ← transform_expression object env
    pure (member o p true)
  transform_expression (binary_expression op left right) env = do
    l ← transform_expression left env
    r ← transform_expression right env
    pure (if is_assignment op then assignment op l r else binary (map_binary_operator op) l r)
  transform_expression (prefix_unary token operand) env = do
    e ← transform_expression operand env
    pure (unary (map_unary_operator token) true e)
  transform_expression (postfix_unary token operand) env = do
    e ← transform_expression operand env
    pure (unary (map_unary_operator token) false e)
  -- The fields `test`, `consequent` and `alternate` that are read are not the node's.
  transform_expression (conditional_expression condition when_true when_false) env =
      pure (conditional placeholder placeholder placeholder)
  transform_expression (template_expression head spans) env = do
    parts ← transform_spans spans env
    pure (template_literal (with_text head parts))
  transform_expression (no_substitution_template text) env = pure (literal (text_literal text))
  transform_expression (arrow_function params type body) env = do
    ps ← transform_parameters params env
    ss ← transform_body body env
    pure (function true ps (some (resolve_type env type)) ss)
  transform_expression (function_expression params type body) env = do
    ps ← transform_parameters params env
    ss ← in_scope (transform_statements body env)
    pure (function false ps (some (resolve_type env type)) ss)
  transform_expression this_keyword env = pure this
  transform_expression super_keyword env = pure (identifier_of (txt "super"))
  transform_expression (new_node callee arguments) env = do
    args ← transform_arguments arguments env
    f ← transform_expression callee env
    pure (new_expression f args)
  transform_expression (await_expression e) env = do
    argument ← transform_expression e env
    pure (await argument)
  transform_expression (typeof_expression e) env = do
    operand ← transform_expression e env
    pure (unary (txt "typeof") true operand)
  transform_expression (delete_expression e) env = do
    operand ← transform_expression e env
    pure (unary (txt "delete") true operand)
  transform_expression (spread_element e) env = do
    argument ← transform_expression e env
    pure (spread argument)
  transform_expression (parenthesized e) env = transform_expression e env
  transform_expression (as_expression e type) env = transform_expression e env
  transform_expression (satisfies_expression e) env = transform_expression e env
  transform_expression (type_assertion e) env = transform_expression e env
  transform_expression (non_null e) env = transform_expression e env
  transform_expression (other_node kind) env = unsupported_node kind

  -- The loop of `transformArrayExpression`.
  pub transform_elements : Elements → Environment → M Expressions
  transform_elements no_elements env = pure nil
  transform_elements (omitted elements) env = do
    es ← transform_elements elements env
    pure (hole es)
  transform_elements (element e elements) env = do
    expression ← transform_expression e env
    es ← transform_elements elements env
    pure (cons expression es)

  -- The loops of `transformCallExpression` and `transformNewExpression`.
  pub transform_arguments : Elements → Environment → M Expressions
  transform_arguments no_elements env = pure nil
  transform_arguments (omitted elements) env = do
    expression ← unsupported_node (txt "OmittedExpression")
    es ← transform_arguments elements env
    pure (cons expression es)
  transform_arguments (element e elements) env = do
    expression ← transform_expression e env
    es ← transform_arguments elements env
    pure (cons expression es)

  -- The loop of `transformObjectExpression`.
  pub transform_members : Members → Environment → M Properties
  transform_members no_members env = pure no_properties
  transform_members (property_assignment key e members) env = do
    k ← transform_key key env
    value ← transform_expression e env
    ps ← transform_members members env
    pure (entry k value ps)
  transform_members (shorthand_assignment name members) env = do
    ps ← transform_members members env
    pure (entry (expression_key false (identifier_of name)) (identifier_of name) ps)
  transform_members (other_member members) env = transform_members members env

  -- `getPropertyKeyAsExpression`, with whether the key is computed.
  pub transform_key : KeyNode → Environment → M Key
  transform_key (computed_key e) env = do
    expression ← transform_expression e env
    pure (expression_key true expression)
  transform_key (identifier_key name) env = pure (expression_key false (identifier_of name))
  transform_key (private_key name) env = pure (expression_key false (identifier_of (drop 1 name)))
  transform_key (string_key text) env = pure (expression_key false (literal (text_literal text)))
  transform_key (numeric_key text) env =
      pure (expression_key false (literal (number_literal (env.parse_float text))))
  transform_key (other_key e) env = do
    expression ← transform_expression e env
    pure (expression_key false expression)

  -- The loop of `transformTemplateLiteral`.
  pub transform_spans : Spans → Environment → M Expressions
  transform_spans no_spans env = pure nil
  transform_spans (span e text spans) env = do
    expression ← transform_expression e env
    parts ← transform_spans spans env
    pure (cons expression (with_text text parts))

  -- The body of an arrow function.
  pub transform_body : Body → Environment → M Statements
  transform_body (expression_body e) env = do
    expression ← transform_expression e env
    pure (next (return (present expression)) end)
  transform_body (block_body body) env = in_scope (transform_statements body env)

  -- `transformParameters`
  pub transform_parameters : ParameterNodes → Environment → M Parameters
  transform_parameters no_parameter_nodes env = pure no_parameters
  transform_parameters (parameter_node name type init params) env = do
    default ← transform_maybe init env
    ps ← transform_parameters params env
    pure (parameter (parameter_name name) (resolve_type env type) default ps)

  -- An expression that may be missing.
  pub transform_maybe : MaybeNode → Environment → M MaybeExpression
  transform_maybe no_node env = pure absent
  transform_maybe (some_node e) env = do
    expression ← transform_expression e env
    pure (present expression)

  -- `transformStatement`
  pub transform_statement : StatementNode → Environment → M Statement
  transform_statement (block_node body) env = do
    ss ← in_scope (transform_statements body env)
    pure (block ss)
  transform_statement (expression_node e) env = do
    expression ← transform_expression e env
    pure (expression_statement expression)
  transform_statement (if_node condition then_part else_part) env = do
    test ← transform_expression condition env
    consequent ← transform_statement then_part env
    alternate ← transform_else else_part env
    pure (if_statement test consequent alternate)
  transform_statement (switch_node e clauses) env = do
    cases ← transform_clauses clauses env
    discriminant ← transform_expression e env
    pure (switch discriminant cases)
  -- The fields `test` and `body` that are read are not the node's.
  transform_statement (while_node condition body) env = pure (while placeholder (block end))
  transform_statement (for_node init condition incrementor body) env = in_scope do
    i ← transform_initializer init env
    test ← transform_maybe condition env
    update ← transform_maybe incrementor env
    s ← transform_statement body env
    pure (for i test update s)
  transform_statement (for_of_node head e body) env = in_scope do
    left ← transform_head head env
    right ← transform_expression e env
    s ← transform_statement body env
    pure (for_of left right s)
  transform_statement (for_in_node head e body) env = in_scope do
    left ← transform_head head env
    right ← transform_expression e env
    s ← transform_statement body env
    pure (for_in left right s)
  transform_statement (return_node e) env = do
    argument ← transform_maybe e env
    pure (return argument)
  transform_statement (break_node label) env = pure (break label)
  transform_statement (continue_node label) env = pure (continue label)
  transform_statement (variable_statement exported (declaration_list const declarations)) env = do
    ds ← transform_declarations exported declarations env
    pure (variable const ds)
  transform_statement (try_node body catch_part finally_part) env = do
    ss ← in_scope (transform_statements body env)
    catches ← transform_catch catch_part env
    finally ← transform_finally finally_part env
    pure (try_statement ss catches finally)
  transform_statement (throw_node e) env = do
    argument ← transform_expression e env
    pure (throw argument)
  transform_statement (unsupported_statement kind) env = do
    warn (txt "Unsupported statement type: " ++ kind)
    pure (expression_statement placeholder)

  -- The loop of `transformBlockStatement`, and the statements of a clause.
  pub transform_statements : StatementNodes → Environment → M Statements
  transform_statements no_statements env = pure end
  transform_statements (statement_node s statements) env = do
    statement ← transform_statement s env
    ss ← transform_statements statements env
    pure (next statement ss)

  -- The `else` part.
  pub transform_else : MaybeStatementNode → Environment → M MaybeStatement
  transform_else no_else env = pure no_statement
  transform_else (else_node s) env = do
    statement ← transform_statement s env
    pure (some_statement statement)

  -- The clauses of `transformSwitchStatement`.
  pub transform_clauses : Clauses → Environment → M Cases
  transform_clauses no_clauses env = pure no_cases
  transform_clauses (default_clause body clauses) env = do
    ss ← transform_statements body env
    cases ← transform_clauses clauses env
    pure (case_clause absent ss cases)
  transform_clauses (case_node e body clauses) env = do
    test ← transform_expression e env
    ss ← transform_statements body env
    cases ← transform_clauses clauses env
    pure (case_clause (present test) ss cases)

  -- The loop of `transformVariableStatement`.
  pub transform_declarations : Bool → DeclarationNodes → Environment → M Declarators
  transform_declarations exported no_declarations env = pure no_declarators
  transform_declarations exported (declaration_node name type init declarations) env = do
    add_to_scope name (ir_identifier name)
    track_export exported name
    value ← transform_maybe init env
    ds ← transform_declarations exported declarations env
    pure (declarator name (resolve_type env type) (asserts_const init) value ds)

  -- `transformForInit`, where the list is not exported.
  pub transform_initializer : ForInitializer → Environment → M Initializer
  transform_initializer no_for_initializer env = pure no_initializer
  transform_initializer (list_initializer (declaration_list const declarations)) env = do
    ds ← transform_declarations false declarations env
    pure (variable_initializer const ds)
  transform_initializer (node_initializer e) env = do
    expression ← transform_expression e env
    pure (expression_initializer expression)

  -- `transformForOfLeft` and `transformForInLeft`.
  pub transform_head : LoopHead → Environment → M LoopVariable
  transform_head (declaration_head const name type init) env = do
    add_to_scope name (ir_identifier name)
    value ← transform_maybe init env
    pure (declared const (ir_identifier name))
  transform_head (identifier_head name) env = pure (assigned (ir_identifier name))
  transform_head (other_head e) env = throw_error

  -- `transformCatchClause`
  pub transform_catch : CatchNode → Environment → M Handler
  transform_catch no_catch env = pure no_handler
  transform_catch (catch_node name body) env = do
    ss ← in_scope (transform_statements body env)
    pure (handler name ss)

  -- The `finally` block.
  pub transform_finally : FinallyNode → Environment → M Finalizer
  transform_finally no_finally env = pure no_finalizer
  transform_finally (finally_node body) env = do
    ss ← in_scope (transform_statements body env)
    pure (finalizer ss)
