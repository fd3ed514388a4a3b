-- ===== src/Codegen/Nodes.antt =====
-- The expressions and statements of src/ir/nodes.ts that src/codegen/generator.ts makes code of, with
-- the fields that it reads. A list that may hold `null` has `hole` for it. Statements that declare
-- functions, classes, interfaces, enums and namespaces, and declarators with patterns, are left out.
use typescript2cxx.Prelude.{Bool, Option, Text}
use typescript2cxx.Ir.Kind.{IrNodeKind}
use typescript2cxx.Codegen.Identifier.{IrIdentifier}
use typescript2cxx.Codegen.Literal.{IrLiteral}

mutual
  pub data Expression : Type 0 where
    identifier : IrIdentifier → Expression
    literal : IrLiteral → Expression
    -- The operator and the operands.
    binary : Text → Expression → Expression → Expression
    -- The operator, whether it is a prefix, and the operand.
    unary : Text → Bool → Expression → Expression
    call : Expression → Expressions → Expression
    -- The object, the property, and whether it is computed.
    member : Expression → Expression → Bool → Expression
    optional_chaining : Expression → Expression
    assignment : Text → Expression → Expression → Expression
    array : Expressions → Expression
    object_expression : Properties → Expression
    conditional : Expression → Expression → Expression → Expression
    new_expression : Expression → Expressions → Expression
    this : Expression
    template_literal : Expressions → Expression
    await : Expression → Expression
    -- Whether `isArrow` is set, the parameters, the return type and the body.
    function : Bool → Parameters → Option Text → Statements → Expression
    spread : Expression → Expression
    -- Any other kind of expression.
    other : IrNodeKind → Expression

  pub data Expressions : Type 0 where
    nil : Expressions
    hole : Expressions → Expressions
    cons : Expression → Expressions → Expressions

  pub data MaybeExpression : Type 0 where
    absent : MaybeExpression
    present : Expression → MaybeExpression

  pub data Properties : Type 0 where
    no_properties : Properties
    entry : Key → Expression → Properties → Properties

  pub data Key : Type 0 where
    name_key : Text → Key
    -- Whether it is computed.
    expression_key : Bool → Expression → Key

  pub data Parameters : Type 0 where
    no_parameters : Parameters
    -- The name, the type and the default value.
    parameter : Text → Text → MaybeExpression → Parameters → Parameters

  pub data Statement : Type 0 where
    -- An import or an export.
    no_code : Statement
    variable : Bool → Declarators → Statement
    block : Statements → Statement
    if_statement : Expression → Statement → MaybeStatement → Statement
    switch : Expression → Cases → Statement
    while : Expression → Statement → Statement
    for : Initializer → MaybeExpression → MaybeExpression → Statement → Statement
    for_of : LoopVariable → Expression → Statement → Statement
    for_in : LoopVariable → Expression → Statement → Statement
    return : MaybeExpression → Statement
    try_statement : Statements → Handler → Finalizer → Statement
    throw : Expression → Statement
    break : Option Text → Statement
    continue : Option Text → Statement
    expression_statement : Expression → Statement
    -- Any other kind of statement.
    other_statement : IrNodeKind → Statement

  pub data Statements : Type 0 where
    end : Statements
    next : Statement → Statements → Statements

  pub data MaybeStatement : Type 0 where
    no_statement : MaybeStatement
    some_statement : Statement → MaybeStatement

  pub data Declarators : Type 0 where
    no_declarators : Declarators
    -- The name, the C++ type, whether the initializer has a const assertion, and the initializer.
    declarator : Text → Text → Bool → MaybeExpression → Declarators → Declarators

  pub data Cases : Type 0 where
    no_cases : Cases
    -- The test, absent for `default`, and the statements.
    case_clause : MaybeExpression → Statements → Cases → Cases

  pub data Initializer : Type 0 where
    no_initializer : Initializer
    variable_initializer : Bool → Declarators → Initializer
    expression_initializer : Expression → Initializer

  -- A declaration, with whether it is `const`, or an identifier.
  pub data LoopVariable : Type 0 where
    declared : Bool → IrIdentifier → LoopVariable
    assigned : IrIdentifier → LoopVariable

  pub data Handler : Type 0 where
    no_handler : Handler
    -- The parameter's name, if it has one, and the body.
    handler : Option Text → Statements → Handler

  pub data Finalizer : Type 0 where
    no_finalizer : Finalizer
    finalizer : Statements → Finalizer
