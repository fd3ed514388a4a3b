-- ===== src/Ir/Guards/Expressions.antt =====
-- The guards of src/ir/type-guards.ts for expressions.
use typescript2cxx.Prelude.{Bool, text_eq, txt}
use typescript2cxx.Ir.Kind.{IrNodeKind, is_kind}
use typescript2cxx.Ir.Node.{IrNode}

abbrev pub is_ir_identifier : IrNode → Bool
unfolding text_eq txt
is_ir_identifier node = is_kind node.kind IrNodeKind.identifier

abbrev pub is_ir_literal : IrNode → Bool
unfolding text_eq txt
is_ir_literal node = is_kind node.kind IrNodeKind.literal

abbrev pub is_ir_array_expression : IrNode → Bool
unfolding text_eq txt
is_ir_array_expression node = is_kind node.kind IrNodeKind.array_expression

abbrev pub is_ir_object_expression : IrNode → Bool
unfolding text_eq txt
is_ir_object_expression node = is_kind node.kind IrNodeKind.object_expression

abbrev pub is_ir_function_expression : IrNode → Bool
unfolding text_eq txt
is_ir_function_expression node = is_kind node.kind IrNodeKind.function_expression

abbrev pub is_ir_arrow_function_expression : IrNode → Bool
unfolding text_eq txt
is_ir_arrow_function_expression node = is_kind node.kind IrNodeKind.arrow_function_expression

abbrev pub is_ir_class_expression : IrNode → Bool
unfolding text_eq txt
is_ir_class_expression node = is_kind node.kind IrNodeKind.class_expression

abbrev pub is_ir_member_expression : IrNode → Bool
unfolding text_eq txt
is_ir_member_expression node = is_kind node.kind IrNodeKind.member_expression

abbrev pub is_ir_optional_chaining_expression : IrNode → Bool
unfolding text_eq txt
is_ir_optional_chaining_expression node = is_kind node.kind IrNodeKind.optional_chaining_expression

abbrev pub is_ir_call_expression : IrNode → Bool
unfolding text_eq txt
is_ir_call_expression node = is_kind node.kind IrNodeKind.call_expression

abbrev pub is_ir_new_expression : IrNode → Bool
unfolding text_eq txt
is_ir_new_expression node = is_kind node.kind IrNodeKind.new_expression

abbrev pub is_ir_update_expression : IrNode → Bool
unfolding text_eq txt
is_ir_update_expression node = is_kind node.kind IrNodeKind.update_expression

abbrev pub is_ir_unary_expression : IrNode → Bool
unfolding text_eq txt
is_ir_unary_expression node = is_kind node.kind IrNodeKind.unary_expression

abbrev pub is_ir_binary_expression : IrNode → Bool
unfolding text_eq txt
is_ir_binary_expression node = is_kind node.kind IrNodeKind.binary_expression

abbrev pub is_ir_assignment_expression : IrNode → Bool
unfolding text_eq txt
is_ir_assignment_expression node = is_kind node.kind IrNodeKind.assignment_expression

abbrev pub is_ir_logical_expression : IrNode → Bool
unfolding text_eq txt
is_ir_logical_expression node = is_kind node.kind IrNodeKind.logical_expression

abbrev pub is_ir_conditional_expression : IrNode → Bool
unfolding text_eq txt
is_ir_conditional_expression node = is_kind node.kind IrNodeKind.conditional_expression

abbrev pub is_ir_this_expression : IrNode → Bool
unfolding text_eq txt
is_ir_this_expression node = is_kind node.kind IrNodeKind.this_expression

abbrev pub is_ir_super_expression : IrNode → Bool
unfolding text_eq txt
is_ir_super_expression node = is_kind node.kind IrNodeKind.super_expression

abbrev pub is_ir_template_literal : IrNode → Bool
unfolding text_eq txt
is_ir_template_literal node = is_kind node.kind IrNodeKind.template_literal

abbrev pub is_ir_tagged_template_expression : IrNode → Bool
unfolding text_eq txt
is_ir_tagged_template_expression node = is_kind node.kind IrNodeKind.tagged_template_expression

abbrev pub is_ir_yield_expression : IrNode → Bool
unfolding text_eq txt
is_ir_yield_expression node = is_kind node.kind IrNodeKind.yield_expression

abbrev pub is_ir_await_expression : IrNode → Bool
unfolding text_eq txt
is_ir_await_expression node = is_kind node.kind IrNodeKind.await_expression

abbrev pub is_ir_spread_element : IrNode → Bool
unfolding text_eq txt
is_ir_spread_element node = is_kind node.kind IrNodeKind.spread_element
