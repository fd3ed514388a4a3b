-- ===== src/Transform/Total.antt =====
-- `transformExpression` and `transformStatement` of src/transform/transformer.ts throw nothing at
-- well-formed syntax, give regular syntax, and leave the scope stack as it was.
use typescript2cxx.Prelude.{◌≡◌, refl, Bool, true, false, some, List, ◌∷◌, txt, text_eq, inherited}
use typescript2cxx.Codegen.Nodes.{Expression, Statement}
use typescript2cxx.Codegen.Pieces.{is_super}
use typescript2cxx.Codegen.Regular.{
  RegularExpression, RegularExpressions, RegularMaybe, RegularProperties, RegularKey,
  RegularParameters, RegularStatement, RegularStatements, RegularElse, RegularDeclarators,
  RegularCases, RegularInitializer, RegularHandler, RegularFinalizer, IsNonempty,
}
use typescript2cxx.Transform.Ast.{
  Node, Elements, Members, KeyNode, Spans, Body, ParameterNodes, MaybeNode, StatementNode,
  StatementNodes, MaybeStatementNode, Clauses, DeclarationNodes, ForInitializer, LoopHead,
  CatchNode, FinallyNode, identifier_name, string_literal, numeric_literal, bigint_literal,
  true_keyword, false_keyword, null_keyword, array_literal, object_literal, call_expression,
  import_keyword, property_access, element_access, binary_expression, prefix_unary, postfix_unary,
  conditional_expression, template_expression, no_substitution_template, arrow_function,
  function_expression, this_keyword, super_keyword, new_node, await_expression, typeof_expression,
  delete_expression, spread_element, parenthesized, as_expression, satisfies_expression,
  type_assertion, non_null, other_node, no_elements, omitted, element, no_members,
  property_assignment, shorthand_assignment, other_member, computed_key, identifier_key,
  private_key, string_key, numeric_key, other_key, no_spans, span, expression_body, block_body,
  no_parameter_nodes, parameter_node, no_node, some_node, block_node, expression_node, if_node,
  switch_node, while_node, for_node, for_of_node, for_in_node, return_node, break_node,
  continue_node, variable_statement, try_node, throw_node, unsupported_statement, no_statements,
  statement_node, no_else, else_node, no_clauses, default_clause, case_node, declaration_list,
  no_declarations, declaration_node, no_for_initializer, list_initializer, node_initializer,
  declaration_head, identifier_head, other_head, no_catch, catch_node, no_finally, finally_node,
}
use typescript2cxx.Transform.Monad.{Environment, Scope, Transformer, M}
use typescript2cxx.Transform.Operators.{
  names_super, is_assignment, map_binary_operator, null_literal, text_literal, number_literal,
  boolean_literal, digits_literal,
}
use typescript2cxx.Transform.Visit.{
  transform_expression, transform_elements, transform_arguments, transform_members, transform_key,
  transform_spans, transform_body, transform_parameters, transform_maybe, transform_statement,
  transform_statements, transform_else, transform_clauses, transform_declarations,
  transform_initializer, transform_head, transform_catch, transform_finally,
}
use typescript2cxx.Transform.WellFormed.{
  WellFormedNode, WellFormedElements, WellFormedMembers, WellFormedKey, WellFormedSpans,
  WellFormedBody, WellFormedParameters, WellFormedMaybe, WellFormedStatement, WellFormedStatements,
  WellFormedElse, WellFormedClauses, WellFormedDeclarations, WellFormedInitializer, WellFormedHead,
  WellFormedCatch, WellFormedFinally,
}
use typescript2cxx.Transform.Ensures.{
  Grows, Ensures, Declares, Ensures-pure, Ensures-bind, Ensures-weaken, Ensures-warn,
  Ensures-or_throw, Ensures-in_scope, Declares-Ensures, Declares-pure, Declares-bind,
  Declares-add_to_scope, track_export-Ensures, Any,
}
use typescript2cxx.Transform.Steps.{
  property-Regular, IsResult, binary-Regular, with_text-Regular, unsupported-Ensures,
  index_of-Ensures, track_import-Ensures,
}

regular : (e : Node) (m : M Expression) → Ensures (IsResult e) m → Ensures RegularExpression m
regular e m h = Ensures-weaken RegularExpression m (λ x (i, _). i) h

module _ (env : Environment) where
  mutual
    unfolding transform_expression transform_elements transform_arguments transform_members
        transform_key transform_spans transform_body transform_parameters transform_maybe
        transform_statement transform_statements transform_else transform_clauses
        transform_declarations transform_initializer transform_head transform_catch
        transform_finally names_super is_super null_literal text_literal number_literal
        boolean_literal digits_literal txt text_eq IsNonempty inherited

    expression :
        (e : Node) → WellFormedNode env e → Ensures (IsResult e) (transform_expression e env)
    expression (identifier_name name) h = Ensures-pure _ _ (h, refl)
    expression (string_literal text) h = Ensures-pure _ _ ((tt, refl), refl)
    expression (numeric_literal text) h = Ensures-pure _ _ ((tt, refl), refl)
    expression (bigint_literal text) h =
        Ensures-bind _ _ _ (Ensures-or_throw IsNonempty _ h)
          λ digits n. Ensures-pure _ _ ((n, refl), refl)
    expression true_keyword h = Ensures-pure _ _ ((tt, refl), refl)
    expression false_keyword h = Ensures-pure _ _ ((tt, refl), refl)
    expression null_keyword h = Ensures-pure _ _ ((tt, refl), refl)
    expression (array_literal elements) h =
        Ensures-bind _ _ _ (elements_of elements h) λ es k. Ensures-pure _ _ (k, refl)
    expression (object_literal members) h =
        Ensures-bind _ _ _ (members_of members h) λ ps k. Ensures-pure _ _ (k, refl)
    expression (call_expression callee args) (s, h, k) =
        Ensures-bind _ _ _ (track_import-Ensures callee args) λ u _.
          Ensures-bind _ _ _ (arguments args k) λ xs j.
            Ensures-bind _ _ _ (expression callee h)
              λ f (i, e). Ensures-pure _ _ ((rw e s, i, j), refl)
    expression import_keyword h = unsupported-Ensures _
    expression (property_access object name) (h, k) =
        Ensures-bind _ _ _ (expression object h) λ o (j, _). Ensures-pure _ _ ((j, k), refl)
    expression (element_access object index) (h, k) =
        Ensures-bind _ _ _ (index_of-Ensures index _ (regular index _ (expression index k))) λ p i.
          Ensures-bind _ _ _ (expression object h) λ o (j, _). Ensures-pure _ _ ((j, i), refl)
    expression (binary_expression op left right) (h, k) =
        Ensures-bind _ _ _ (expression left h) λ l (i, _).
          Ensures-bind _ _ _ (expression right k) λ r (j, _).
            Ensures-pure _ _ (binary-Regular (is_assignment op) op (map_binary_operator op) l r i j)
    expression (prefix_unary token operand) h =
        Ensures-bind _ _ _ (expression operand h) λ x (i, _). Ensures-pure _ _ (i, refl)
    expression (postfix_unary token operand) h =
        Ensures-bind _ _ _ (expression operand h) λ x (i, _). Ensures-pure _ _ (i, refl)
    expression (conditional_expression c a b) h =
        Ensures-pure _ _ (((tt, refl), (tt, refl), (tt, refl)), refl)
    expression (template_expression head spans) h =
        Ensures-bind _ _ _ (spans_of spans h)
          λ ps k. Ensures-pure _ _ (with_text-Regular head ps k, refl)
    expression (no_substitution_template text) h = Ensures-pure _ _ ((tt, refl), refl)
    expression (arrow_function params type body) (h, k) =
        Ensures-bind _ _ _ (parameters params h)
          λ ps i. Ensures-bind _ _ _ (body_of body k) λ ss j. Ensures-pure _ _ ((i, j), refl)
    expression (function_expression params type body) (h, k) =
        Ensures-bind _ _ _ (parameters params h) λ ps i.
          Ensures-bind _ _ _ (Ensures-in_scope _ _ (statements body k))
            λ ss j. Ensures-pure _ _ ((i, j), refl)
    expression this_keyword h = Ensures-pure _ _ (tt, refl)
    expression super_keyword h = Ensures-pure _ _ ((tt, refl), refl)
    expression (new_node callee args) (h, k) =
        Ensures-bind _ _ _ (arguments args k) λ xs j.
          Ensures-bind _ _ _ (expression callee h) λ f (i, _). Ensures-pure _ _ ((i, j), refl)
    expression (await_expression e) h =
        Ensures-bind _ _ _ (expression e h) λ x (i, _). Ensures-pure _ _ (i, refl)
    expression (typeof_expression e) h =
        Ensures-bind _ _ _ (expression e h) λ x (i, _). Ensures-pure _ _ (i, refl)
    expression (delete_expression e) h =
        Ensures-bind _ _ _ (expression e h) λ x (i, _). Ensures-pure _ _ (i, refl)
    expression (spread_element e) h =
        Ensures-bind _ _ _ (expression e h) λ x (i, _). Ensures-pure _ _ (i, refl)
    expression (parenthesized e) h = expression e h
    expression (as_expression e type) h = expression e h
    expression (satisfies_expression e) h = expression e h
    expression (type_assertion e) h = expression e h
    expression (non_null e) h = expression e h
    expression (other_node kind) h = unsupported-Ensures _

    elements_of :
        (es : Elements)
        → WellFormedElements env es
        → Ensures (RegularExpressions true) (transform_elements es env)
    elements_of no_elements h = Ensures-pure _ _ tt
    elements_of (omitted es) h =
        Ensures-bind _ _ _ (elements_of es h) λ xs k. Ensures-pure _ _ (refl, k)
    elements_of (element e es) (h, k) =
        Ensures-bind _ _ _ (expression e h)
          λ x (i, _). Ensures-bind _ _ _ (elements_of es k) λ xs j. Ensures-pure _ _ (i, j)

    arguments :
        (es : Elements)
        → WellFormedElements env es
        → Ensures (RegularExpressions false) (transform_arguments es env)
    arguments no_elements h = Ensures-pure _ _ tt
    arguments (omitted es) h =
        Ensures-bind _ _ _ (unsupported-Ensures _)
          λ x (i, _). Ensures-bind _ _ _ (arguments es h) λ xs j. Ensures-pure _ _ (i, j)
    arguments (element e es) (h, k) =
        Ensures-bind _ _ _ (expression e h)
          λ x (i, _). Ensures-bind _ _ _ (arguments es k) λ xs j. Ensures-pure _ _ (i, j)

    members_of :
        (ms : Members)
        → WellFormedMembers env ms
        → Ensures RegularProperties (transform_members ms env)
    members_of no_members h = Ensures-pure _ _ tt
    members_of (property_assignment k e ms) (h, i, j) = Ensures-bind _ _ _ (key k h) λ x p.
        Ensures-bind _ _ _ (expression e i)
          λ y (q, _). Ensures-bind _ _ _ (members_of ms j) λ ps r. Ensures-pure _ _ (p, q, r)
    members_of (shorthand_assignment name ms) (h, own, k) =
        Ensures-bind _ _ _ (members_of ms k) λ ps r. Ensures-pure _ _ (h, (h, own), r)
    members_of (other_member ms) h = members_of ms h

    key : (k : KeyNode) → WellFormedKey env k → Ensures RegularKey (transform_key k env)
    key (computed_key e) h = Ensures-bind _ _ _ (expression e h) λ x (i, _). Ensures-pure _ _ i
    key (identifier_key name) h = Ensures-pure _ _ h
    key (private_key name) h = Ensures-pure _ _ h
    key (string_key text) h = Ensures-pure _ _ (tt, refl)
    key (numeric_key text) h = Ensures-pure _ _ (tt, refl)
    key (other_key e) h =
        Ensures-bind _ _ _ (expression e h) λ x (i, _). Ensures-pure _ _ (property-Regular x i)

    spans_of :
        (ss : Spans)
        → WellFormedSpans env ss
        → Ensures (RegularExpressions false) (transform_spans ss env)
    spans_of no_spans h = Ensures-pure _ _ tt
    spans_of (span e text ss) (h, k) = Ensures-bind _ _ _ (expression e h) λ x (i, _).
        Ensures-bind _ _ _ (spans_of ss k) λ ps j. Ensures-pure _ _ (i, with_text-Regular text ps j)

    body_of : (b : Body) → WellFormedBody env b → Ensures RegularStatements (transform_body b env)
    body_of (expression_body e) h =
        Ensures-bind _ _ _ (expression e h) λ x (i, _). Ensures-pure _ _ (i, tt)
    body_of (block_body body) h = Ensures-in_scope _ _ (statements body h)

    parameters :
        (ps : ParameterNodes)
        → WellFormedParameters env ps
        → Ensures RegularParameters (transform_parameters ps env)
    parameters no_parameter_nodes h = Ensures-pure _ _ tt
    parameters (parameter_node name type init ps) (h, k) =
        Ensures-bind _ _ _ (maybe init h)
          λ d i. Ensures-bind _ _ _ (parameters ps k) λ xs j. Ensures-pure _ _ (i, j)

    maybe : (e : MaybeNode) → WellFormedMaybe env e → Ensures RegularMaybe (transform_maybe e env)
    maybe no_node h = Ensures-pure _ _ tt
    maybe (some_node e) h = Ensures-bind _ _ _ (expression e h) λ x (i, _). Ensures-pure _ _ i

    statement :
        (s : StatementNode)
        → WellFormedStatement env s
        → Declares RegularStatement (transform_statement s env)
    statement (block_node body) h =
        Declares-bind _ _ _ (Declares-Ensures _ _ (Ensures-in_scope _ _ (statements body h)))
          λ ss k. Declares-pure _ _ k
    statement (expression_node e) h =
        Declares-bind _ _ _ (Declares-Ensures _ _ (regular e _ (expression e h)))
          λ x i. Declares-pure _ _ i
    statement (if_node condition then_part else_part) (h, k, l) =
        Declares-bind _ _ _ (Declares-Ensures _ _ (regular condition _ (expression condition h)))
          λ x i.
            Declares-bind _ _ _ (statement then_part k)
              λ s j. Declares-bind _ _ _ (otherwise else_part l) λ r m. Declares-pure _ _ (i, j, m)
    statement (switch_node e clauses) (h, k) = Declares-bind _ _ _ (cases clauses k) λ cs j.
        Declares-bind _ _ _ (Declares-Ensures _ _ (regular e _ (expression e h)))
          λ x i. Declares-pure _ _ (i, j)
    statement (while_node condition body) h = Declares-pure _ _ ((tt, refl), tt)
    statement (for_node init condition incrementor body) (h, k, l, m) = Declares-Ensures _ _ (
        Ensures-in_scope _ _ (
          Declares-bind _ _ _ (initializer init h) λ x p.
            Declares-bind _ _ _ (Declares-Ensures _ _ (maybe condition k)) λ y q.
              Declares-bind _ _ _ (Declares-Ensures _ _ (maybe incrementor l)) λ z r.
                Declares-bind _ _ _ (statement body m) λ s w. Declares-pure _ _ (p, q, r, w)))
    statement (for_of_node head e body) (h, k, l) = Declares-Ensures _ _ (
        Ensures-in_scope _ _ (
          Declares-bind _ _ _ (head_of head h) λ x _.
            Declares-bind _ _ _ (Declares-Ensures _ _ (regular e _ (expression e k)))
              λ y q. Declares-bind _ _ _ (statement body l) λ s w. Declares-pure _ _ (q, w)))
    statement (for_in_node head e body) h = elim h [ ]
    statement (return_node e) h =
        Declares-bind _ _ _ (Declares-Ensures _ _ (maybe e h)) λ x i. Declares-pure _ _ i
    statement (break_node label) h = Declares-pure _ _ tt
    statement (continue_node label) h = Declares-pure _ _ tt
    statement (variable_statement exported (declaration_list const ds)) h =
        Declares-bind _ _ _ (declarations exported ds h) λ xs i. Declares-pure _ _ i
    statement (try_node body catch_part finally_part) (h, k, l) =
        Declares-bind _ _ _ (Declares-Ensures _ _ (Ensures-in_scope _ _ (statements body h)))
          λ ss i.
            Declares-bind _ _ _ (catches catch_part k)
              λ c j. Declares-bind _ _ _ (finally finally_part l) λ f m. Declares-pure _ _ (i, j, m)
    statement (throw_node e) h =
        Declares-bind _ _ _ (Declares-Ensures _ _ (regular e _ (expression e h)))
          λ x i. Declares-pure _ _ i
    statement (unsupported_statement kind) h =
        Declares-bind _ _ _ (Declares-Ensures _ _ (Ensures-warn _))
          λ u _. Declares-pure _ _ (tt, refl)

    statements :
        (ss : StatementNodes)
        → WellFormedStatements env ss
        → Declares RegularStatements (transform_statements ss env)
    statements no_statements h = Declares-pure _ _ tt
    statements (statement_node s ss) (h, k) =
        Declares-bind _ _ _ (statement s h)
          λ x i. Declares-bind _ _ _ (statements ss k) λ xs j. Declares-pure _ _ (i, j)

    otherwise :
        (s : MaybeStatementNode)
        → WellFormedElse env s
        → Declares RegularElse (transform_else s env)
    otherwise no_else h = Declares-pure _ _ tt
    otherwise (else_node s) h = Declares-bind _ _ _ (statement s h) λ x i. Declares-pure _ _ i

    cases :
        (cs : Clauses) → WellFormedClauses env cs → Declares RegularCases (transform_clauses cs env)
    cases no_clauses h = Declares-pure _ _ tt
    cases (default_clause body cs) (h, k) =
        Declares-bind _ _ _ (statements body h)
          λ ss i. Declares-bind _ _ _ (cases cs k) λ xs j. Declares-pure _ _ (tt, i, j)
    cases (case_node e body cs) (h, k, l) =
        Declares-bind _ _ _ (Declares-Ensures _ _ (regular e _ (expression e h))) λ x i.
          Declares-bind _ _ _ (statements body k)
            λ ss j. Declares-bind _ _ _ (cases cs l) λ xs m. Declares-pure _ _ (i, j, m)

    declarations :
        (exported : Bool) (ds : DeclarationNodes)
        → WellFormedDeclarations env ds
        → Declares RegularDeclarators (transform_declarations exported ds env)
    declarations exported no_declarations h = Declares-pure _ _ tt
    declarations exported (declaration_node name type init ds) (own, h, k) =
        Declares-bind _ _ _ (Declares-add_to_scope name _) λ _ _.
          Declares-bind _ _ _ (Declares-Ensures _ _ (track_export-Ensures exported name)) λ _ _.
            Declares-bind _ _ _ (Declares-Ensures _ _ (maybe init h)) λ x i.
              Declares-bind _ _ _ (declarations exported ds k) λ xs j. Declares-pure _ _ (own, i, j)

    initializer :
        (i : ForInitializer)
        → WellFormedInitializer env i
        → Declares RegularInitializer (transform_initializer i env)
    initializer no_for_initializer h = Declares-pure _ _ tt
    initializer (list_initializer (declaration_list const ds)) h =
        Declares-bind _ _ _ (declarations false ds h) λ xs i. Declares-pure _ _ i
    initializer (node_initializer e) h =
        Declares-bind _ _ _ (Declares-Ensures _ _ (regular e _ (expression e h)))
          λ x i. Declares-pure _ _ i

    head_of : (l : LoopHead) → WellFormedHead env l → Declares Any (transform_head l env)
    head_of (declaration_head const name type init) h =
        Declares-bind _ _ _ (Declares-add_to_scope name _) λ _ _.
          Declares-bind _ _ _ (Declares-Ensures _ _ (maybe init h)) λ x i. Declares-pure _ _ tt
    head_of (identifier_head name) h = Declares-pure _ _ tt
    head_of (other_head e) h = elim h [ ]

    catches :
        (c : CatchNode) → WellFormedCatch env c → Declares RegularHandler (transform_catch c env)
    catches no_catch h = Declares-pure _ _ tt
    catches (catch_node name body) h =
        Declares-bind _ _ _ (Declares-Ensures _ _ (Ensures-in_scope _ _ (statements body h)))
          λ ss i. Declares-pure _ _ i

    finally :
        (f : FinallyNode)
        → WellFormedFinally env f
        → Declares RegularFinalizer (transform_finally f env)
    finally no_finally h = Declares-pure _ _ tt
    finally (finally_node body) h =
        Declares-bind _ _ _ (Declares-Ensures _ _ (Ensures-in_scope _ _ (statements body h)))
          λ ss i. Declares-pure _ _ i

  pub expression-Ensures :
      (e : Node) → WellFormedNode env e → Ensures RegularExpression (transform_expression e env)
  expression-Ensures e h = regular e _ (expression e h)

  pub maybe-Ensures :
      (e : MaybeNode) → WellFormedMaybe env e → Ensures RegularMaybe (transform_maybe e env)
  maybe-Ensures = maybe

  pub parameters-Ensures :
      (ps : ParameterNodes)
      → WellFormedParameters env ps
      → Ensures RegularParameters (transform_parameters ps env)
  parameters-Ensures = parameters

  pub statement-Declares :
      (s : StatementNode)
      → WellFormedStatement env s
      → Declares RegularStatement (transform_statement s env)
  statement-Declares = statement

  pub statements-Declares :
      (ss : StatementNodes)
      → WellFormedStatements env ss
      → Declares RegularStatements (transform_statements ss env)
  statements-Declares = statements

  -- A well-formed expression is always transformed, to an expression that the code generator can read;
  -- the scope stack is the same after as before, and no export, import or warning is lost.
  pub transform_expression-Regular :
      (e : Node)
      → WellFormedNode env e
      → (t : Transformer)
      → (x : Expression) × (t' : Transformer) × (transform_expression e env t ≡ some (x, t'))
        × Grows t t'
        × (t'.scopes ≡ t.scopes)
        × RegularExpression x
  unfolding Ensures
  transform_expression-Regular e h t =
      let (x, t', eq, g, s, r) = expression e h t in (x, t', eq, g, s, r.0)

  -- Inside a scope, a well-formed statement is always transformed, to a statement that the code
  -- generator can read; only the innermost scope is another one after, and no export, import or warning
  -- is lost.
  pub transform_statement-Regular :
      (s : StatementNode)
      → WellFormedStatement env s
      → (t : Transformer) (scope : Scope) (outer : List Scope) → t.scopes ≡ scope ∷ outer
      → (x : Statement) × (t' : Transformer) × (scope' : Scope) × (transform_statement s env t
          ≡ some (x, t'))
        × Grows t t'
        × (t'.scopes ≡ scope' ∷ outer)
        × RegularStatement x
  unfolding Declares
  transform_statement-Regular s h = statement s h
