-- ===== src/Ir/Kind.antt =====
-- The kinds of the nodes of the intermediate representation, `IRNodeKind` of src/ir/nodes.ts.
use typescript2cxx.Prelude.{Bool, Text, txt, text_eq}

pub data IrNodeKind : Type 0 where
  program : IrNodeKind
  module_kind : IrNodeKind
  namespace : IrNodeKind
  import_declaration : IrNodeKind
  export_declaration : IrNodeKind
  export_named_declaration : IrNodeKind
  export_default_declaration : IrNodeKind
  export_all_declaration : IrNodeKind
  namespace_declaration : IrNodeKind
  variable_declaration : IrNodeKind
  function_declaration : IrNodeKind
  class_declaration : IrNodeKind
  interface_declaration : IrNodeKind
  enum_declaration : IrNodeKind
  type_alias_declaration : IrNodeKind
  decorator : IrNodeKind
  decorator_factory : IrNodeKind
  block_statement : IrNodeKind
  expression_statement : IrNodeKind
  if_statement : IrNodeKind
  switch_statement : IrNodeKind
  while_statement : IrNodeKind
  do_while_statement : IrNodeKind
  for_statement : IrNodeKind
  for_in_statement : IrNodeKind
  for_of_statement : IrNodeKind
  return_statement : IrNodeKind
  break_statement : IrNodeKind
  continue_statement : IrNodeKind
  throw_statement : IrNodeKind
  try_statement : IrNodeKind
  catch_clause : IrNodeKind
  identifier : IrNodeKind
  literal : IrNodeKind
  array_expression : IrNodeKind
  object_expression : IrNodeKind
  function_expression : IrNodeKind
  arrow_function_expression : IrNodeKind
  class_expression : IrNodeKind
  member_expression : IrNodeKind
  optional_chaining_expression : IrNodeKind
  call_expression : IrNodeKind
  new_expression : IrNodeKind
  update_expression : IrNodeKind
  unary_expression : IrNodeKind
  binary_expression : IrNodeKind
  assignment_expression : IrNodeKind
  logical_expression : IrNodeKind
  conditional_expression : IrNodeKind
  this_expression : IrNodeKind
  super_expression : IrNodeKind
  template_literal : IrNodeKind
  tagged_template_expression : IrNodeKind
  yield_expression : IrNodeKind
  await_expression : IrNodeKind
  spread_element : IrNodeKind
  object_pattern : IrNodeKind
  array_pattern : IrNodeKind
  rest_element : IrNodeKind
  assignment_pattern : IrNodeKind
  type_annotation : IrNodeKind
  type_parameter : IrNodeKind
  union_type : IrNodeKind
  intersection_type : IrNodeKind
  type_guard : IrNodeKind
  cpp_raw_expression : IrNodeKind
  smart_pointer_expression : IrNodeKind
  move_expression : IrNodeKind

-- The string that stands for the kind.
abbrev pub value : IrNodeKind → Text
value program = txt "Program"
value module_kind = txt "Module"
value namespace = txt "Namespace"
value import_declaration = txt "ImportDeclaration"
value export_declaration = txt "ExportDeclaration"
value export_named_declaration = txt "ExportNamedDeclaration"
value export_default_declaration = txt "ExportDefaultDeclaration"
value export_all_declaration = txt "ExportAllDeclaration"
value namespace_declaration = txt "NamespaceDeclaration"
value variable_declaration = txt "VariableDeclaration"
value function_declaration = txt "FunctionDeclaration"
value class_declaration = txt "ClassDeclaration"
value interface_declaration = txt "InterfaceDeclaration"
value enum_declaration = txt "EnumDeclaration"
value type_alias_declaration = txt "TypeAliasDeclaration"
value decorator = txt "Decorator"
value decorator_factory = txt "DecoratorFactory"
value block_statement = txt "BlockStatement"
value expression_statement = txt "ExpressionStatement"
value if_statement = txt "IfStatement"
value switch_statement = txt "SwitchStatement"
value while_statement = txt "WhileStatement"
value do_while_statement = txt "DoWhileStatement"
value for_statement = txt "ForStatement"
value for_in_statement = txt "ForInStatement"
value for_of_statement = txt "ForOfStatement"
value return_statement = txt "ReturnStatement"
value break_statement = txt "BreakStatement"
value continue_statement = txt "ContinueStatement"
value throw_statement = txt "ThrowStatement"
value try_statement = txt "TryStatement"
value catch_clause = txt "CatchClause"
value identifier = txt "Identifier"
value literal = txt "Literal"
value array_expression = txt "ArrayExpression"
value object_expression = txt "ObjectExpression"
value function_expression = txt "FunctionExpression"
value arrow_function_expression = txt "ArrowFunctionExpression"
value class_expression = txt "ClassExpression"
value member_expression = txt "MemberExpression"
value optional_chaining_expression = txt "OptionalChainingExpression"
value call_expression = txt "CallExpression"
value new_expression = txt "NewExpression"
value update_expression = txt "UpdateExpression"
value unary_expression = txt "UnaryExpression"
value binary_expression = txt "BinaryExpression"
value assignment_expression = txt "AssignmentExpression"
value logical_expression = txt "LogicalExpression"
value conditional_expression = txt "ConditionalExpression"
value this_expression = txt "ThisExpression"
value super_expression = txt "SuperExpression"
value template_literal = txt "TemplateLiteral"
value tagged_template_expression = txt "TaggedTemplateExpression"
value yield_expression = txt "YieldExpression"
value await_expression = txt "AwaitExpression"
value spread_element = txt "SpreadElement"
value object_pattern = txt "ObjectPattern"
value array_pattern = txt "ArrayPattern"
value rest_element = txt "RestElement"
value assignment_pattern = txt "AssignmentPattern"
value type_annotation = txt "TypeAnnotation"
value type_parameter = txt "TypeParameter"
value union_type = txt "UnionType"
value intersection_type = txt "IntersectionType"
value type_guard = txt "TypeGuard"
value cpp_raw_expression = txt "CppRawExpression"
value smart_pointer_expression = txt "SmartPointerExpression"
value move_expression = txt "MoveExpression"

-- `a === b`
abbrev pub is_kind : IrNodeKind → IrNodeKind → Bool
unfolding text_eq txt
is_kind a b = text_eq (value a) (value b)
