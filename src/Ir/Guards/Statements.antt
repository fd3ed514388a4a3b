-- ===== src/Ir/Guards/Statements.antt =====
-- The guards of src/ir/type-guards.ts for statements.
use typescript2cxx.Prelude.{Bool, text_eq, txt}
use typescript2cxx.Ir.Kind.{IrNodeKind, is_kind}
use typescript2cxx.Ir.Node.{IrNode}

abbrev pub is_ir_block_statement : IrNode → Bool
unfolding text_eq txt
is_ir_block_statement node = is_kind node.kind IrNodeKind.block_statement

abbrev pub is_ir_expression_statement : IrNode → Bool
unfolding text_eq txt
is_ir_expression_statement node = is_kind node.kind IrNodeKind.expression_statement

abbrev pub is_ir_if_statement : IrNode → Bool
unfolding text_eq txt
is_ir_if_statement node = is_kind node.kind IrNodeKind.if_statement

abbrev pub is_ir_switch_statement : IrNode → Bool
unfolding text_eq txt
is_ir_switch_statement node = is_kind node.kind IrNodeKind.switch_statement

abbrev pub is_ir_while_statement : IrNode → Bool
unfolding text_eq txt
is_ir_while_statement node = is_kind node.kind IrNodeKind.while_statement

abbrev pub is_ir_do_while_statement : IrNode → Bool
unfolding text_eq txt
is_ir_do_while_statement node = is_kind node.kind IrNodeKind.do_while_statement

abbrev pub is_ir_for_statement : IrNode → Bool
unfolding text_eq txt
is_ir_for_statement node = is_kind node.kind IrNodeKind.for_statement

abbrev pub is_ir_for_in_statement : IrNode → Bool
unfolding text_eq txt
is_ir_for_in_statement node = is_kind node.kind IrNodeKind.for_in_statement

abbrev pub is_ir_for_of_statement : IrNode → Bool
unfolding text_eq txt
is_ir_for_of_statement node = is_kind node.kind IrNodeKind.for_of_statement

abbrev pub is_ir_return_statement : IrNode → Bool
unfolding text_eq txt
is_ir_return_statement node = is_kind node.kind IrNodeKind.return_statement

abbrev pub is_ir_break_statement : IrNode → Bool
unfolding text_eq txt
is_ir_break_statement node = is_kind node.kind IrNodeKind.break_statement

abbrev pub is_ir_continue_statement : IrNode → Bool
unfolding text_eq txt
is_ir_continue_statement node = is_kind node.kind IrNodeKind.continue_statement

abbrev pub is_ir_throw_statement : IrNode → Bool
unfolding text_eq txt
is_ir_throw_statement node = is_kind node.kind IrNodeKind.throw_statement

abbrev pub is_ir_try_statement : IrNode → Bool
unfolding text_eq txt
is_ir_try_statement node = is_kind node.kind IrNodeKind.try_statement

abbrev pub is_ir_catch_clause : IrNode → Bool
unfolding text_eq txt
is_ir_catch_clause node = is_kind node.kind IrNodeKind.catch_clause
