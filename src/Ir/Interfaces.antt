-- ===== src/Ir/Interfaces.antt =====
-- The guards of src/ir/type-guards.ts against the interfaces of src/ir/nodes.ts.
use typescript2cxx.Prelude.{
  List, [], ◌∷◌, any, all, text_eq, txt, ◌≡◌, refl, Bool, true, false, ◌&&◌, ◌||◌, not,
}
use typescript2cxx.Ir.Kind.{IrNodeKind}
use typescript2cxx.Ir.Node.{IrNode}
use typescript2cxx.Ir.Guards.{
  is_ir_declaration, is_ir_statement, is_ir_expression, is_loop_statement,
  is_control_flow_statement, has_body,
}

-- What an interface of src/ir/nodes.ts extends.
pub data Base : Type 0 where
  node pattern statement declaration expression : Base

-- What the interfaces of the nodes of a kind extend. The members of a class have two of the kinds too:
-- methods, constructors and accessors that of a function, properties that of a variable.
abbrev pub extends : IrNodeKind → List Base
extends IrNodeKind.program = node ∷ []
extends IrNodeKind.module_kind = node ∷ []
extends IrNodeKind.namespace = node ∷ []
extends IrNodeKind.import_declaration = declaration ∷ []
extends IrNodeKind.export_declaration = declaration ∷ []
extends IrNodeKind.export_named_declaration = declaration ∷ []
extends IrNodeKind.export_default_declaration = declaration ∷ []
extends IrNodeKind.export_all_declaration = declaration ∷ []
extends IrNodeKind.namespace_declaration = declaration ∷ []
extends IrNodeKind.variable_declaration = declaration ∷ node ∷ []
extends IrNodeKind.function_declaration = declaration ∷ node ∷ []
extends IrNodeKind.class_declaration = declaration ∷ []
extends IrNodeKind.interface_declaration = declaration ∷ []
extends IrNodeKind.enum_declaration = declaration ∷ []
extends IrNodeKind.type_alias_declaration = declaration ∷ []
extends IrNodeKind.decorator = node ∷ []
extends IrNodeKind.decorator_factory = expression ∷ []
extends IrNodeKind.block_statement = statement ∷ []
extends IrNodeKind.expression_statement = statement ∷ []
extends IrNodeKind.if_statement = statement ∷ []
extends IrNodeKind.switch_statement = statement ∷ []
extends IrNodeKind.while_statement = statement ∷ []
extends IrNodeKind.do_while_statement = statement ∷ []
extends IrNodeKind.for_statement = statement ∷ []
extends IrNodeKind.for_in_statement = statement ∷ []
extends IrNodeKind.for_of_statement = statement ∷ []
extends IrNodeKind.return_statement = statement ∷ []
extends IrNodeKind.break_statement = statement ∷ []
extends IrNodeKind.continue_statement = statement ∷ []
extends IrNodeKind.throw_statement = statement ∷ []
extends IrNodeKind.try_statement = statement ∷ []
extends IrNodeKind.catch_clause = node ∷ []
extends IrNodeKind.identifier = expression ∷ []
extends IrNodeKind.literal = expression ∷ []
extends IrNodeKind.array_expression = expression ∷ []
extends IrNodeKind.object_expression = expression ∷ []
extends IrNodeKind.function_expression = expression ∷ []
extends IrNodeKind.arrow_function_expression = expression ∷ []
extends IrNodeKind.class_expression = expression ∷ []
extends IrNodeKind.member_expression = expression ∷ []
extends IrNodeKind.optional_chaining_expression = expression ∷ []
extends IrNodeKind.call_expression = expression ∷ []
extends IrNodeKind.new_expression = expression ∷ []
extends IrNodeKind.update_expression = expression ∷ []
extends IrNodeKind.unary_expression = expression ∷ []
extends IrNodeKind.binary_expression = expression ∷ []
extends IrNodeKind.assignment_expression = expression ∷ []
extends IrNodeKind.logical_expression = expression ∷ []
extends IrNodeKind.conditional_expression = expression ∷ []
extends IrNodeKind.this_expression = expression ∷ []
extends IrNodeKind.super_expression = expression ∷ []
extends IrNodeKind.template_literal = expression ∷ []
extends IrNodeKind.tagged_template_expression = expression ∷ []
extends IrNodeKind.yield_expression = expression ∷ []
extends IrNodeKind.await_expression = expression ∷ []
extends IrNodeKind.spread_element = expression ∷ []
extends IrNodeKind.object_pattern = pattern ∷ []
extends IrNodeKind.array_pattern = pattern ∷ []
extends IrNodeKind.rest_element = pattern ∷ []
extends IrNodeKind.assignment_pattern = pattern ∷ []
extends IrNodeKind.type_annotation = node ∷ []
extends IrNodeKind.type_parameter = node ∷ []
extends IrNodeKind.union_type = node ∷ []
extends IrNodeKind.intersection_type = node ∷ []
extends IrNodeKind.type_guard = expression ∷ []
extends IrNodeKind.cpp_raw_expression = expression ∷ []
extends IrNodeKind.smart_pointer_expression = expression ∷ []
extends IrNodeKind.move_expression = expression ∷ []

abbrev pub is_expression : Base → Bool
is_expression expression = true
is_expression _ = false

-- A declaration is a statement too.
abbrev pub is_statement : Base → Bool
is_statement statement = true
is_statement declaration = true
is_statement _ = false

-- The kinds of expressions that the guard for expressions does not know.
abbrev pub unknown_expression : IrNodeKind → Bool
unknown_expression IrNodeKind.decorator_factory = true
unknown_expression IrNodeKind.type_guard = true
unknown_expression IrNodeKind.cpp_raw_expression = true
unknown_expression IrNodeKind.smart_pointer_expression = true
unknown_expression IrNodeKind.move_expression = true
unknown_expression _ = false

-- The kinds of declarations that the guards for declarations and statements do not know.
abbrev pub unknown_declaration : IrNodeKind → Bool
unknown_declaration IrNodeKind.import_declaration = true
unknown_declaration IrNodeKind.export_declaration = true
unknown_declaration IrNodeKind.export_named_declaration = true
unknown_declaration IrNodeKind.export_default_declaration = true
unknown_declaration IrNodeKind.export_all_declaration = true
unknown_declaration IrNodeKind.namespace_declaration = true
unknown_declaration _ = false

-- The node with another kind.
unfoldable pub with_kind : IrNode → IrNodeKind → IrNode
with_kind n k = record {
  kind = k;
  is_async = n.is_async;
  is_generator = n.is_generator;
  is_exported = n.is_exported;
  decorators = n.decorators;
}

-- A property of the nodes of every kind.
pub by_kind :
    (P : IrNode → Type 0) → ((n : IrNode) (k : IrNodeKind) → P (with_kind n k)) → (n : IrNode) → P n
unfolding with_kind
by_kind P h n = h n n.kind

-- The guard for expressions holds of the kinds of which an interface extends `IRExpression`, five kinds
-- excepted.
pub is_ir_expression-exact :
    (n : IrNode)
    → is_ir_expression n ≡ (any is_expression (extends n.kind) && not (unknown_expression n.kind))
unfolding is_ir_expression text_eq txt with_kind
is_ir_expression-exact = by_kind _ (λ n k.
    elim k
      as (λ k.
        is_ir_expression (with_kind n k)
        ≡ (any is_expression (extends k) && not (unknown_expression k))) [
          | IrNodeKind.program ↦ refl
          | _ ↦ refl
        ])

-- The kinds of nodes that a guard for statements accepts although one of their interfaces extends
-- `IRNode` only.
abbrev pub is_member_kind : IrNodeKind → Bool
is_member_kind IrNodeKind.function_declaration = true
is_member_kind IrNodeKind.variable_declaration = true
is_member_kind _ = false

-- The guard for statements holds of the kinds of which an interface extends `IRStatement` or
-- `IRDeclaration`, the imports, the exports and the namespaces excepted. Of two of the kinds that it
-- holds of, functions and variables, another interface extends neither: it accepts the members of a
-- class, which are no statements.
pub is_ir_statement-exact :
    (n : IrNode)
    → (is_ir_statement n ≡ (any is_statement (extends n.kind) && not (unknown_declaration n.kind)))
      × ((is_ir_statement n && not (all is_statement (extends n.kind))) ≡ is_member_kind n.kind)
unfolding is_ir_statement is_ir_declaration text_eq txt with_kind
is_ir_statement-exact = by_kind _ (λ n k.
    elim k
      as (λ k.
        (is_ir_statement (with_kind n k)
          ≡ (any is_statement (extends k) && not (unknown_declaration k)))
        × ((is_ir_statement (with_kind n k) && not (all is_statement (extends k)))
            ≡ is_member_kind k)) [ IrNodeKind.program ↦ (refl, refl) | _ ↦ (refl, refl) ])

-- `a` implies `b`.
abbrev pub implies : Bool → Bool → Bool
implies a b = not a || b

-- No node is a statement and an expression; a loop is control flow; control flow is a statement
-- and has a body; a declaration is a statement; what has a body is a statement or an expression.
guards-nested :
    (n : IrNode)
    → ((is_ir_statement n && is_ir_expression n) ≡ false)
      × ((implies (is_loop_statement n) (is_control_flow_statement n) ≡ true)
          × ((implies (is_control_flow_statement n) (is_ir_statement n && has_body n) ≡ true)
              × ((implies (is_ir_declaration n) (is_ir_statement n) ≡ true)
                  × (implies (has_body n) (is_ir_statement n || is_ir_expression n) ≡ true))))
unfolding is_ir_statement is_ir_declaration is_ir_expression has_body text_eq txt with_kind
guards-nested = by_kind _ (λ n k.
    elim k
      as (λ k.
        ((is_ir_statement (with_kind n k) && is_ir_expression (with_kind n k)) ≡ false)
        × ((implies (is_loop_statement (with_kind n k)) (is_control_flow_statement (with_kind n k))
              ≡ true)
            × ((implies (is_control_flow_statement (with_kind n k))
                    (is_ir_statement (with_kind n k) && has_body (with_kind n k))
                  ≡ true)
                × ((implies (is_ir_declaration (with_kind n k)) (is_ir_statement (with_kind n k))
                      ≡ true)
                    × (implies (has_body (with_kind n k))
                          (is_ir_statement (with_kind n k) || is_ir_expression (with_kind n k))
                        ≡ true))))) [
                          | IrNodeKind.program ↦ (refl, (refl, (refl, (refl, refl))))
                          | _ ↦ (refl, (refl, (refl, (refl, refl))))
                        ])
