-- ===== src/Transform/Ast.antt =====
-- The nodes of the TypeScript syntax tree that src/transform/transformer.ts distinguishes inside a
-- function, with what it reads of them. The tree is made by the TypeScript parser. Binding patterns,
-- which the intermediate representation keeps in nodes of their own, are left out.
use typescript2cxx.Prelude.{Bool, Option, Text}
use typescript2cxx.TypeChecker.Nodes.{TypeNode, MaybeType}

pub data PropertyName : Type 0 where
  plain_name : Text → PropertyName
  -- The text has the `#`.
  private_name : Text → PropertyName

-- The operator of a `PrefixUnaryExpression` or a `PostfixUnaryExpression`.
pub data UnaryToken : Type 0 where
  plus_token minus_token exclamation_token tilde_token plus_plus_token minus_minus_token :
      UnaryToken

mutual
  -- `ts.Expression`
  pub data Node : Type 0 where
    identifier_name : Text → Node
    string_literal : Text → Node
    numeric_literal : Text → Node
    -- The text has the `n`.
    bigint_literal : Text → Node
    true_keyword : Node
    false_keyword : Node
    null_keyword : Node
    array_literal : Elements → Node
    object_literal : Members → Node
    call_expression : Node → Elements → Node
    -- The keyword that is called in `import(…)`.
    import_keyword : Node
    property_access : Node → PropertyName → Node
    element_access : Node → Node → Node
    -- The text of the operator's token, and the operands.
    binary_expression : Text → Node → Node → Node
    prefix_unary : UnaryToken → Node → Node
    postfix_unary : UnaryToken → Node → Node
    -- `condition`, `whenTrue` and `whenFalse`.
    conditional_expression : Node → Node → Node → Node
    -- The text of the head, and the spans.
    template_expression : Text → Spans → Node
    no_substitution_template : Text → Node
    arrow_function : ParameterNodes → MaybeType → Body → Node
    function_expression : ParameterNodes → MaybeType → StatementNodes → Node
    this_keyword : Node
    super_keyword : Node
    new_node : Node → Elements → Node
    await_expression : Node → Node
    typeof_expression : Node → Node
    delete_expression : Node → Node
    spread_element : Node → Node
    parenthesized : Node → Node
    as_expression : Node → TypeNode → Node
    satisfies_expression : Node → Node
    type_assertion : Node → Node
    non_null : Node → Node
    -- Any other expression, by the name of its kind.
    other_node : Text → Node

  pub data Elements : Type 0 where
    no_elements : Elements
    omitted : Elements → Elements
    element : Node → Elements → Elements

  pub data Members : Type 0 where
    no_members : Members
    property_assignment : KeyNode → Node → Members → Members
    shorthand_assignment : Text → Members → Members
    -- A spread, a method or an accessor.
    other_member : Members → Members

  pub data KeyNode : Type 0 where
    computed_key : Node → KeyNode
    identifier_key : Text → KeyNode
    private_key : Text → KeyNode
    string_key : Text → KeyNode
    numeric_key : Text → KeyNode
    -- A name that is another kind of expression.
    other_key : Node → KeyNode

  pub data Spans : Type 0 where
    no_spans : Spans
    -- The expression, and the text after it.
    span : Node → Text → Spans → Spans

  pub data Body : Type 0 where
    expression_body : Node → Body
    block_body : StatementNodes → Body

  pub data ParameterNodes : Type 0 where
    no_parameter_nodes : ParameterNodes
    -- The name, `none` for a pattern, the type and the initializer.
    parameter_node : Option Text → MaybeType → MaybeNode → ParameterNodes → ParameterNodes

  pub data MaybeNode : Type 0 where
    no_node : MaybeNode
    some_node : Node → MaybeNode

  -- `ts.Statement`
  pub data StatementNode : Type 0 where
    block_node : StatementNodes → StatementNode
    expression_node : Node → StatementNode
    if_node : Node → StatementNode → MaybeStatementNode → StatementNode
    switch_node : Node → Clauses → StatementNode
    -- `expression` and `statement`.
    while_node : Node → StatementNode → StatementNode
    for_node : ForInitializer → MaybeNode → MaybeNode → StatementNode → StatementNode
    for_of_node : LoopHead → Node → StatementNode → StatementNode
    for_in_node : LoopHead → Node → StatementNode → StatementNode
    return_node : MaybeNode → StatementNode
    break_node : Option Text → StatementNode
    continue_node : Option Text → StatementNode
    -- Whether it is exported, and the list of declarations.
    variable_statement : Bool → DeclarationList → StatementNode
    try_node : StatementNodes → CatchNode → FinallyNode → StatementNode
    throw_node : Node → StatementNode
    -- Any other statement, by the name of its kind.
    unsupported_statement : Text → StatementNode

  pub data StatementNodes : Type 0 where
    no_statements : StatementNodes
    statement_node : StatementNode → StatementNodes → StatementNodes

  pub data MaybeStatementNode : Type 0 where
    no_else : MaybeStatementNode
    else_node : StatementNode → MaybeStatementNode

  pub data Clauses : Type 0 where
    no_clauses : Clauses
    default_clause : StatementNodes → Clauses → Clauses
    case_node : Node → StatementNodes → Clauses → Clauses

  -- Whether the flag `Const` is set, and the declarations.
  pub data DeclarationList : Type 0 where
    declaration_list : Bool → DeclarationNodes → DeclarationList

  pub data DeclarationNodes : Type 0 where
    no_declarations : DeclarationNodes
    declaration_node : Text → MaybeType → MaybeNode → DeclarationNodes → DeclarationNodes

  pub data ForInitializer : Type 0 where
    no_for_initializer : ForInitializer
    list_initializer : DeclarationList → ForInitializer
    node_initializer : Node → ForInitializer

  -- What stands before `of` or `in`: the one declaration of a list, with its flag `Const`, an
  -- identifier, or any other expression.
  pub data LoopHead : Type 0 where
    declaration_head : Bool → Text → MaybeType → MaybeNode → LoopHead
    identifier_head : Text → LoopHead
    other_head : Node → LoopHead

  pub data CatchNode : Type 0 where
    no_catch : CatchNode
    -- The variable's name, `none` without a variable or for a pattern, and the block.
    catch_node : Option Text → StatementNodes → CatchNode

  pub data FinallyNode : Type 0 where
    no_finally : FinallyNode
    finally_node : StatementNodes → FinallyNode
