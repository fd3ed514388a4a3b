-- ===== src/Ir/Guards/Others.antt =====
-- The guards of src/ir/type-guards.ts for patterns, types and C++ nodes.
use typescript2cxx.Prelude.{Bool, text_eq, txt}
use typescript2cxx.Ir.Kind.{IrNodeKind, is_kind}
use typescript2cxx.Ir.Node.{IrNode}

abbrev pub is_ir_object_pattern : IrNode → Bool
unfolding text_eq txt
is_ir_object_pattern node = is_kind node.kind IrNodeKind.object_pattern

abbrev pub is_ir_array_pattern : IrNode → Bool
unfolding text_eq txt
is_ir_array_pattern node = is_kind node.kind IrNodeKind.array_pattern

abbrev pub is_ir_rest_element : IrNode → Bool
unfolding text_eq txt
is_ir_rest_element node = is_kind node.kind IrNodeKind.rest_element

abbrev pub is_ir_assignment_pattern : IrNode → Bool
unfolding text_eq txt
is_ir_assignment_pattern node = is_kind node.kind IrNodeKind.assignment_pattern

abbrev pub is_ir_type_annotation : IrNode → Bool
unfolding text_eq txt
is_ir_type_annotation node = is_kind node.kind IrNodeKind.type_annotation

abbrev pub is_ir_type_parameter : IrNode → Bool
unfolding text_eq txt
is_ir_type_parameter node = is_kind node.kind IrNodeKind.type_parameter

abbrev pub is_ir_union_type : IrNode → Bool
unfolding text_eq txt
is_ir_union_type node = is_kind node.kind IrNodeKind.union_type

abbrev pub is_ir_intersection_type : IrNode → Bool
unfolding text_eq txt
is_ir_intersection_type node = is_kind node.kind IrNodeKind.intersection_type

abbrev pub is_ir_type_guard : IrNode → Bool
unfolding text_eq txt
is_ir_type_guard node = is_kind node.kind IrNodeKind.type_guard

abbrev pub is_ir_cpp_raw_expression : IrNode → Bool
unfolding text_eq txt
is_ir_cpp_raw_expression node = is_kind node.kind IrNodeKind.cpp_raw_expression

abbrev pub is_ir_smart_pointer_expression : IrNode → Bool
unfolding text_eq txt
is_ir_smart_pointer_expression node = is_kind node.kind IrNodeKind.smart_pointer_expression

abbrev pub is_ir_move_expression : IrNode → Bool
unfolding text_eq txt
is_ir_move_expression node = is_kind node.kind IrNodeKind.move_expression
