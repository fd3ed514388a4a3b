-- ===== src/Codegen/Generate.antt =====
-- `generateExpression` and `generateStatement` of src/codegen/generator.ts, with the methods that
-- they call.
pub mod Ensures
pub mod Yields
pub mod Nonempty
pub mod Names
pub mod Steps
pub mod Total
pub mod Kinds
use typescript2cxx.Prelude.{
  ℕ, Bool, true, false, not, ◌&&◌, ◌||◌, Option, some, none, List, [], ◌∷◌, ◌++◌, if◌then◌else◌,
  Text, txt, text_eq, lookup, join, printed,
}
use typescript2cxx.Ir.Kind.{IrNodeKind, value}
use typescript2cxx.Codegen.Identifier.{IrIdentifier, generate_identifier}
use typescript2cxx.Codegen.Literal.{IrLiteral, generate_literal}
use typescript2cxx.Codegen.CppType.{map_type, own_type}
use typescript2cxx.Codegen.Member.Access.{scope, computed_access, named_access}
use typescript2cxx.Codegen.Nodes.{
  Expression, Expressions, MaybeExpression, Properties, Key, Parameters, Statement, Statements,
  MaybeStatement, Declarators, Cases, Initializer, LoopVariable, Handler, Finalizer, identifier,
  literal, binary, unary, call, member, optional_chaining, assignment, array, object_expression,
  conditional, new_expression, this, template_literal, await, function, spread, other, nil, hole,
  cons, absent, present, no_properties, entry, name_key, expression_key, no_parameters, parameter,
  no_code, variable, block, if_statement, switch, while, for, for_of, for_in, return, try_statement,
  throw, break, continue, expression_statement, other_statement, end, next, no_statement,
  some_statement, no_declarators, declarator, no_cases, case_clause, no_initializer,
  variable_initializer, expression_initializer, declared, assigned, no_handler, handler,
  no_finalizer, finalizer,
}
use typescript2cxx.Codegen.Monad.{
  Reader, Generator, M, ◌>>=◌, ◌>>◌, pure, lift, deeper, shallower, get_indent, add_include,
  next_temp,
}
use typescript2cxx.Codegen.Operators.{
  paren, call_code, binary_code, unary_code, delete_computed, delete_named, optional_code,
  assignment_code, text_part, template_code, array_code, concat_array, concat_element,
  conditional_code, new_code, object_code, property_code, capture_code, lambda_head, type_or_any,
  indent_text, indented, lines_code, return_code, jump_code, should_be_const, declarator_code,
  initializer_code, braces,
}
use typescript2cxx.Codegen.Infer.{element_type, class_type, infer_type}
use typescript2cxx.Codegen.Pieces.{
  is_super, identifier_code, placed_code, name_of, property_text, has_spread, key_text,
  return_type_code, lambda_block, lambda_return, loop_identifier, for_of_head, for_in_head,
  for_in_line, case_head, text_or_empty, terminated, catch_name, without_semicolon,
}

-- The include that an operator needs.
abbrev pub operator_include : Text → M (Unit {0})
operator_include operator =
    if text_eq operator (txt "**") then add_include (txt "<cmath>") else pure tt

-- The steps of `generateMember` after the object, of the two texts of the property.
unfoldable pub generate_access : Text → Bool → M Text → M Text → Reader → M Text
generate_access object computed name code r =
    elim (if computed then none else lookup object r.namespace_imports) [
      | some namespace ↦ do p ← code; pure (scope namespace p)
      | none ↦ elim computed [
        | true ↦ do p ← code; pure (computed_access r.to_lower_case object p)
        | false ↦ do
          p ← name
          lift (named_access r.to_lower_case r.to_upper_case r.current_base_class object p)
      ]
    ]

-- `generateBlock`, of the lines of the statements.
unfoldable pub in_block : M (List Text) → M Text
in_block body = do deeper; lines ← body; shallower; pure (lines_code (txt "{") lines)

-- The lines of the body of an `if` or a loop, one level deeper.
unfoldable pub one_deeper : M Text → M (List Text)
one_deeper body = do deeper; code ← body; n ← get_indent; shallower; pure (indented n code)

unfoldable mutual
  pub generate_expression : Expression → Reader → M Text
  generate_expression (identifier id) r = identifier_code id r.names
  generate_expression (literal lit) r = pure (generate_literal r.to_number lit)
  generate_expression (binary operator left right) r = do
    l ← generate_expression left r
    s ← generate_expression right r
    operator_include operator
    pure (binary_code operator l s)
  generate_expression (unary operator prefix operand) r = do
    code ← generate_expression operand r
    let deleted = generate_delete operand code r
    if text_eq operator (txt "delete") then deleted else pure (unary_code operator prefix code)
  generate_expression (call callee args) r = elim (is_super callee) [
    | true ↦ pure []
    | false ↦ do
      f ← generate_expression callee r
      codes ← generate_arguments args r
      pure (call_code f codes)
  ]
  generate_expression (member object property computed) r = do
    o ← generate_expression object r
    let code = generate_expression property r
    let placed = placed_code computed property r.names code
    generate_access o computed (property_text property code) placed r
  generate_expression (optional_chaining base) r = do
    code ← generate_expression base r
    generate_optional base code r
  generate_expression (assignment operator left right) r = do
    l ← generate_expression left r
    s ← generate_expression right r
    pure (assignment_code operator l s)
  generate_expression (array elements) r = elim (has_spread elements) [
    | true ↦ generate_concat elements (txt "js::array<js::any>()") r
    | false ↦ do
      codes ← generate_elements elements r
      pure (array_code (element_type elements) codes)
  ]
  generate_expression (object_expression properties) r = do
    n ← next_temp
    let name = txt "obj_temp_" ++ r.show n
    code ← generate_properties properties name r
    pure (object_code name code)
  generate_expression (conditional test consequent alternate) r = do
    t ← generate_expression test r
    c ← generate_expression consequent r
    a ← generate_expression alternate r
    pure (conditional_code t c a)
  generate_expression (new_expression callee args) r = do
    f ← generate_expression callee r
    codes ← generate_arguments args r
    pure (new_code f codes)
  generate_expression this r = pure (txt "this")
  generate_expression (template_literal parts) r = do
    codes ← generate_parts parts r
    pure (template_code codes)
  generate_expression (await argument) r = do
    code ← generate_expression argument r
    pure (txt "co_await " ++ code)
  generate_expression (function is_arrow params return_type body) r = do
    codes ← generate_parameters params r
    type ← return_type_code return_type
    lines ← generate_codes body r
    generate_body body (lambda_head (capture_code r.current_class is_arrow) codes type) lines r
  generate_expression (spread argument) r = do
    code ← generate_expression argument r
    pure (txt "/* spread " ++ (code ++ txt " */"))
  generate_expression (other kind) r = pure (txt "/* TODO: " ++ (value kind ++ txt " */"))

  -- `delete` of an operand with this code.
  pub generate_delete : Expression → Text → Reader → M Text
  generate_delete (member object property true) code r = do
    o ← generate_expression object r
    p ← generate_expression property r
    pure (delete_computed o p)
  generate_delete (member object property false) code r = do
    o ← generate_expression object r
    p ← placed_code false property r.names (generate_expression property r)
    pure (delete_named o (name_of property))
  generate_delete _ code r = pure (txt "js::delete_op" ++ paren code)

  pub generate_optional : Expression → Text → Reader → M Text
  generate_optional (member object property computed) code r = do
    o ← generate_expression object r
    p ← placed_code computed property r.names (generate_expression property r)
    pure (optional_code computed o p)
  generate_optional _ code r = pure code

  -- The arguments of a call.
  pub generate_arguments : Expressions → Reader → M (List Text)
  generate_arguments nil r = pure []
  generate_arguments (hole es) r = lift none
  generate_arguments (cons e es) r = do
    code ← generate_expression e r
    codes ← generate_arguments es r
    pure (code ∷ codes)

  -- The elements of an array with no spread element.
  pub generate_elements : Expressions → Reader → M (List Text)
  generate_elements nil r = pure []
  generate_elements (hole es) r = do
    codes ← generate_elements es r
    pure (txt "js::undefined" ∷ codes)
  generate_elements (cons e es) r = do
    code ← generate_expression e r
    codes ← generate_elements es r
    pure (code ∷ codes)

  -- The loop over the elements of an array with a spread element.
  pub generate_concat : Expressions → Text → Reader → M Text
  generate_concat nil result r = pure result
  generate_concat (hole es) result r =
      generate_concat es (concat_element result (txt "js::undefined")) r
  generate_concat (cons (spread argument) es) result r = do
    code ← generate_expression argument r
    generate_concat es (concat_array result code) r
  generate_concat (cons e es) result r = do
    code ← generate_expression e r
    generate_concat es (concat_element result code) r

  -- The parts of a template literal.
  pub generate_parts : Expressions → Reader → M (List Text)
  generate_parts nil r = pure []
  generate_parts (hole es) r = lift none
  generate_parts (cons (literal lit) es) r = do
    codes ← generate_parts es r
    pure (text_part lit ∷ codes)
  generate_parts (cons e es) r = do
    code ← generate_expression e r
    codes ← generate_parts es r
    pure ((txt "js::toString" ++ paren code) ∷ codes)

  -- The lines that set the properties of the object of this name.
  pub generate_properties : Properties → Text → Reader → M Text
  generate_properties no_properties name r = pure []
  generate_properties (entry key e properties) name r = do
    k ← generate_key key r
    code ← generate_expression e r
    rest ← generate_properties properties name r
    pure (property_code name k code ++ rest)

  pub generate_key : Key → Reader → M Text
  generate_key (name_key name) r = pure (txt "\"" ++ (name ++ txt "\""))
  generate_key (expression_key true e) r = do
    code ← generate_expression e r
    pure (txt "js::toString" ++ paren code)
  generate_key (expression_key false e) r = key_text e (generate_expression e r)

  -- The parameters of a lambda.
  pub generate_parameters : Parameters → Reader → M (List Text)
  generate_parameters no_parameters r = pure []
  generate_parameters (parameter name type default params) r = do
    init ← generate_maybe default r
    cpp_type ← lift (map_type (type_or_any type))
    codes ← generate_parameters params r
    pure ((cpp_type ++ (txt " " ++ (name ++ initializer_code init))) ∷ codes)

  pub generate_maybe : MaybeExpression → Reader → M (Option Text)
  generate_maybe absent r = pure none
  generate_maybe (present e) r = do code ← generate_expression e r; pure (some code)

  -- The code of each statement of a lambda's body.
  pub generate_codes : Statements → Reader → M (List Text)
  generate_codes end r = pure []
  generate_codes (next s ss) r = do
    code ← generate_statement s r
    codes ← generate_codes ss r
    pure (code ∷ codes)

  -- The end of `generateLambda`: a body that only returns an expression is made again.
  pub generate_body : Statements → Text → List Text → Reader → M Text
  generate_body (next (return (present e)) end) head lines r = do
    code ← generate_expression e r
    pure (lambda_return head code)
  generate_body _ head lines r = pure (lambda_block head lines)

  pub generate_statement : Statement → Reader → M Text
  generate_statement no_code r = pure []
  generate_statement (variable const declarators) r = do
    lines ← generate_declarators const declarators r
    pure (join (txt "\n") lines)
  generate_statement (block body) r = in_block (generate_lines body r)
  generate_statement (if_statement test consequent alternate) r = do
    condition ← generate_expression test r
    lines ← one_deeper (generate_statement consequent r)
    rest ← generate_else alternate r
    pure (lines_code (txt "if (" ++ (condition ++ txt ") {")) (lines ++ rest))
  generate_statement (switch discriminant cases) r = do
    code ← generate_expression discriminant r
    deeper
    lines ← generate_cases cases r
    shallower
    pure (lines_code (txt "switch (" ++ (code ++ txt ") {")) lines)
  generate_statement (while test body) r = do
    condition ← generate_expression test r
    lines ← one_deeper (generate_statement body r)
    pure (lines_code (txt "while (" ++ (condition ++ txt ") {")) lines)
  generate_statement (for init test update body) r = do
    i ← generate_initializer init r
    t ← generate_maybe test r
    u ← generate_maybe update r
    lines ← one_deeper (generate_statement body r)
    pure (
        lines_code
          (txt "for ("
            ++ (i
                ++ (txt "; " ++ (text_or_empty t ++ (txt "; " ++ (text_or_empty u ++ txt ") {"))))))
          lines)
  generate_statement (for_of left right body) r = do
    code ← generate_expression right r
    let name = printed (generate_identifier (loop_identifier left) r.names)
    lines ← one_deeper (generate_statement body r)
    pure (lines_code (for_of_head left name code) lines)
  generate_statement (for_in left right body) r = do
    code ← generate_expression right r
    let name = printed (generate_identifier (loop_identifier left) r.names)
    deeper
    n ← get_indent
    lines ← one_deeper (generate_statement body r)
    pure (lines_code (for_in_head name code) ((indent_text n ++ for_in_line name) ∷ lines))
  generate_statement (return argument) r = do
    code ← generate_maybe argument r
    pure (return_code r.is_async code)
  generate_statement (try_statement body catch_part finally_part) r = do
    code ← in_block (generate_lines body r)
    catch_code ← generate_handler catch_part r
    finally_code ← generate_finalizer finally_part r
    pure (txt "try " ++ (code ++ (catch_code ++ finally_code)))
  generate_statement (throw argument) r = do
    code ← generate_expression argument r
    pure (txt "throw js::any" ++ (paren code ++ txt ";"))
  generate_statement (break label) r = pure (jump_code (txt "break") (txt "_end") label)
  generate_statement (continue label) r = pure (jump_code (txt "continue") (txt "_continue") label)
  generate_statement (expression_statement e) r = do
    code ← generate_expression e r
    pure (terminated code)
  generate_statement (other_statement kind) r = pure (txt "// TODO: " ++ value kind)

  -- The lines of statements at the indentation that each leaves.
  pub generate_lines : Statements → Reader → M (List Text)
  generate_lines end r = pure []
  generate_lines (next s ss) r = do
    code ← generate_statement s r
    n ← get_indent
    lines ← generate_lines ss r
    pure (indented n code ++ lines)

  pub generate_else : MaybeStatement → Reader → M (List Text)
  generate_else no_statement r = pure []
  generate_else (some_statement s) r = do
    lines ← one_deeper (generate_statement s r)
    pure (txt "} else {" ∷ lines)

  pub generate_cases : Cases → Reader → M (List Text)
  generate_cases no_cases r = pure []
  generate_cases (case_clause test body cases) r = do
    code ← generate_maybe test r
    n ← get_indent
    lines ← generate_case_body body r
    rest ← generate_cases cases r
    pure ((indent_text n ++ case_head code) ∷ (lines ++ rest))

  -- The statements of a case, if there are any.
  pub generate_case_body : Statements → Reader → M (List Text)
  generate_case_body end r = pure []
  generate_case_body (next s ss) r = do
    deeper
    code ← generate_statement s r
    n ← get_indent
    lines ← generate_lines ss r
    shallower
    pure (indented n code ++ lines)

  pub generate_initializer : Initializer → Reader → M Text
  generate_initializer no_initializer r = pure []
  generate_initializer (variable_initializer const declarators) r = do
    lines ← generate_declarators const declarators r
    pure (without_semicolon (join (txt "\n") lines))
  generate_initializer (expression_initializer e) r = generate_expression e r

  -- The loop of `generateVariable`; an initializer is made in a source file only.
  pub generate_declarators : Bool → Declarators → Reader → M (List Text)
  generate_declarators const no_declarators r = pure []
  generate_declarators const (declarator name type assertion init declarators) r = do
    let cpp_name = printed (generate_identifier (record { name = name; cpp_name = none }) r.names)
    declared_type ← lift (own_type type)
    inferred ← generate_type declared_type init r
    cpp_type ← lift (map_type inferred)
    code ← generate_init r.is_header init r
    lines ← generate_declarators const declarators r
    pure (
        declarator_code r.is_header (should_be_const const assertion cpp_type) cpp_type cpp_name
          code
        ∷ lines)

  -- The type of a declarator: `auto` with an initializer is inferred.
  pub generate_type : Text → MaybeExpression → Reader → M Text
  generate_type type absent r = pure type
  generate_type type (present e) r = do
    let inferred = generate_inferred e r
    if text_eq type (txt "auto") then inferred else pure type

  -- `inferTypeFromInitializer`
  pub generate_inferred : Expression → Reader → M Text
  generate_inferred (new_expression callee args) r = do
    code ← generate_expression callee r
    pure (class_type code)
  generate_inferred e r = lift (infer_type e)

  pub generate_init : Bool → MaybeExpression → Reader → M (Option Text)
  generate_init true init r = pure none
  generate_init false absent r = pure none
  generate_init false (present e) r = do code ← generate_expression e r; pure (some code)

  -- ` catch (…) { … }`
  pub generate_handler : Handler → Reader → M Text
  generate_handler no_handler r = pure []
  generate_handler (handler name body) r = do
    code ← in_block (generate_lines body r)
    pure (txt " catch (const js::any& " ++ (catch_name name ++ (txt ") " ++ code)))

  pub generate_finalizer : Finalizer → Reader → M Text
  generate_finalizer no_finalizer r = pure []
  generate_finalizer (finalizer body) r = do
    code ← in_block (generate_lines body r)
    pure (txt " /* finally */ " ++ code)
