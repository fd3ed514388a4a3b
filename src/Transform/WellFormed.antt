-- ===== src/Transform/WellFormed.antt =====
-- Where the methods of src/transform/transformer.ts give syntax that the code generator can read: every
-- name has a unit, `super` is not called, there is no `for … in`, and neither an identifier that is read
-- nor the type of a variable has the name of an inherited member, such as `constructor`.
use typescript2cxx.Prelude.{◌≡◌, false, some, Text, drop}
use typescript2cxx.Codegen.Regular.{IsNonempty, IsOwn}
use typescript2cxx.Transform.Ast.{
  Node, Elements, Members, KeyNode, Spans, Body, ParameterNodes, MaybeNode, StatementNode,
  StatementNodes, MaybeStatementNode, Clauses, DeclarationList, DeclarationNodes, ForInitializer,
  LoopHead, CatchNode, FinallyNode, identifier_name, bigint_literal, array_literal, object_literal,
  call_expression, property_access, element_access, binary_expression, prefix_unary, postfix_unary,
  template_expression, arrow_function, function_expression, new_node, await_expression,
  typeof_expression, delete_expression, spread_element, parenthesized, as_expression,
  satisfies_expression, type_assertion, non_null, no_elements, omitted, element, no_members,
  property_assignment, shorthand_assignment, other_member, computed_key, identifier_key,
  private_key, string_key, numeric_key, other_key, no_spans, span, expression_body, block_body,
  no_parameter_nodes, parameter_node, no_node, some_node, block_node, expression_node, if_node,
  switch_node, for_node, for_of_node, for_in_node, return_node, variable_statement, try_node,
  throw_node, no_statements, statement_node, no_else, else_node, no_clauses, default_clause,
  case_node, declaration_list, no_declarations, declaration_node, no_for_initializer,
  list_initializer, node_initializer, declaration_head, identifier_head, other_head, no_catch,
  catch_node, no_finally, finally_node,
}
use typescript2cxx.Transform.Monad.{Environment}
use typescript2cxx.Transform.Types.{resolve_type}
use typescript2cxx.Transform.Operators.{without_last, property_name, names_super}

module _ (env : Environment) where
  -- `BigInt` reads the digits before the `n`.
  abbrev pub IsBigint : Text → Type 0
  IsBigint text =
      (digits : Text) × (env.to_bigint (without_last text) ≡ some digits) × IsNonempty digits

  abbrev mutual
    -- What the transformer does not read has no condition.
    pub WellFormedNode : Node → Type 0
    WellFormedNode (identifier_name name) = IsNonempty name × IsOwn name
    WellFormedNode (bigint_literal text) = IsBigint text
    WellFormedNode (array_literal elements) = WellFormedElements elements
    WellFormedNode (object_literal members) = WellFormedMembers members
    WellFormedNode (call_expression callee arguments) =
        (names_super callee ≡ false) × WellFormedNode callee × WellFormedElements arguments
    WellFormedNode (property_access object name) =
        WellFormedNode object × IsNonempty (property_name name)
    WellFormedNode (element_access object index) = WellFormedNode object × WellFormedNode index
    WellFormedNode (binary_expression op left right) = WellFormedNode left × WellFormedNode right
    WellFormedNode (prefix_unary token operand) = WellFormedNode operand
    WellFormedNode (postfix_unary token operand) = WellFormedNode operand
    WellFormedNode (template_expression head spans) = WellFormedSpans spans
    WellFormedNode (arrow_function params type body) =
        WellFormedParameters params × WellFormedBody body
    WellFormedNode (function_expression params type body) =
        WellFormedParameters params × WellFormedStatements body
    WellFormedNode (new_node callee arguments) =
        WellFormedNode callee × WellFormedElements arguments
    WellFormedNode (await_expression e) = WellFormedNode e
    WellFormedNode (typeof_expression e) = WellFormedNode e
    WellFormedNode (delete_expression e) = WellFormedNode e
    WellFormedNode (spread_element e) = WellFormedNode e
    WellFormedNode (parenthesized e) = WellFormedNode e
    WellFormedNode (as_expression e type) = WellFormedNode e
    WellFormedNode (satisfies_expression e) = WellFormedNode e
    WellFormedNode (type_assertion e) = WellFormedNode e
    WellFormedNode (non_null e) = WellFormedNode e
    WellFormedNode _ = Unit {0}

    pub WellFormedElements : Elements → Type 0
    WellFormedElements no_elements = Unit {0}
    WellFormedElements (omitted elements) = WellFormedElements elements
    WellFormedElements (element e elements) = WellFormedNode e × WellFormedElements elements

    pub WellFormedMembers : Members → Type 0
    WellFormedMembers no_members = Unit {0}
    WellFormedMembers (property_assignment key e members) =
        WellFormedKey key × WellFormedNode e × WellFormedMembers members
    WellFormedMembers (shorthand_assignment name members) =
        IsNonempty name × IsOwn name × WellFormedMembers members
    WellFormedMembers (other_member members) = WellFormedMembers members

    pub WellFormedKey : KeyNode → Type 0
    WellFormedKey (computed_key e) = WellFormedNode e
    WellFormedKey (identifier_key name) = IsNonempty name
    WellFormedKey (private_key name) = IsNonempty (drop 1 name)
    WellFormedKey (string_key text) = Unit {0}
    WellFormedKey (numeric_key text) = Unit {0}
    WellFormedKey (other_key e) = WellFormedNode e

    pub WellFormedSpans : Spans → Type 0
    WellFormedSpans no_spans = Unit {0}
    WellFormedSpans (span e text spans) = WellFormedNode e × WellFormedSpans spans

    pub WellFormedBody : Body → Type 0
    WellFormedBody (expression_body e) = WellFormedNode e
    WellFormedBody (block_body body) = WellFormedStatements body

    pub WellFormedParameters : ParameterNodes → Type 0
    WellFormedParameters no_parameter_nodes = Unit {0}
    WellFormedParameters (parameter_node name type init params) =
        WellFormedMaybe init × WellFormedParameters params

    pub WellFormedMaybe : MaybeNode → Type 0
    WellFormedMaybe no_node = Unit {0}
    WellFormedMaybe (some_node e) = WellFormedNode e

    pub WellFormedStatement : StatementNode → Type 0
    WellFormedStatement (block_node body) = WellFormedStatements body
    WellFormedStatement (expression_node e) = WellFormedNode e
    WellFormedStatement (if_node condition then_part else_part) =
        WellFormedNode condition × WellFormedStatement then_part × WellFormedElse else_part
    WellFormedStatement (switch_node e clauses) = WellFormedNode e × WellFormedClauses clauses
    WellFormedStatement (for_node init condition incrementor body) =
        WellFormedInitializer init
        × WellFormedMaybe condition
        × WellFormedMaybe incrementor
        × WellFormedStatement body
    WellFormedStatement (for_of_node head e body) =
        WellFormedHead head × WellFormedNode e × WellFormedStatement body
    WellFormedStatement (for_in_node head e body) = ⊥
    WellFormedStatement (return_node e) = WellFormedMaybe e
    WellFormedStatement (variable_statement exported list) = WellFormedList list
    WellFormedStatement (try_node body catch_part finally_part) =
        WellFormedStatements body × WellFormedCatch catch_part × WellFormedFinally finally_part
    WellFormedStatement (throw_node e) = WellFormedNode e
    WellFormedStatement _ = Unit {0}

    pub WellFormedStatements : StatementNodes → Type 0
    WellFormedStatements no_statements = Unit {0}
    WellFormedStatements (statement_node s statements) =
        WellFormedStatement s × WellFormedStatements statements

    pub WellFormedElse : MaybeStatementNode → Type 0
    WellFormedElse no_else = Unit {0}
    WellFormedElse (else_node s) = WellFormedStatement s

    pub WellFormedClauses : Clauses → Type 0
    WellFormedClauses no_clauses = Unit {0}
    WellFormedClauses (default_clause body clauses) =
        WellFormedStatements body × WellFormedClauses clauses
    WellFormedClauses (case_node e body clauses) =
        WellFormedNode e × WellFormedStatements body × WellFormedClauses clauses

    pub WellFormedList : DeclarationList → Type 0
    WellFormedList (declaration_list const declarations) = WellFormedDeclarations declarations

    pub WellFormedDeclarations : DeclarationNodes → Type 0
    WellFormedDeclarations no_declarations = Unit {0}
    WellFormedDeclarations (declaration_node name type init declarations) =
        IsOwn (resolve_type env type) × WellFormedMaybe init × WellFormedDeclarations declarations

    pub WellFormedInitializer : ForInitializer → Type 0
    WellFormedInitializer no_for_initializer = Unit {0}
    WellFormedInitializer (list_initializer list) = WellFormedList list
    WellFormedInitializer (node_initializer e) = WellFormedNode e

    -- The other expressions before `of` are an exception.
    pub WellFormedHead : LoopHead → Type 0
    WellFormedHead (declaration_head const name type init) = WellFormedMaybe init
    WellFormedHead (identifier_head name) = Unit {0}
    WellFormedHead (other_head e) = ⊥

    pub WellFormedCatch : CatchNode → Type 0
    WellFormedCatch no_catch = Unit {0}
    WellFormedCatch (catch_node name body) = WellFormedStatements body

    pub WellFormedFinally : FinallyNode → Type 0
    WellFormedFinally no_finally = Unit {0}
    WellFormedFinally (finally_node body) = WellFormedStatements body
