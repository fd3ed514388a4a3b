-- ===== src/Ir/Guards/Modules.antt =====
-- The guards of src/ir/type-guards.ts for program structure, modules, declarations and decorators.
use typescript2cxx.Prelude.{Bool, text_eq, txt}
use typescript2cxx.Ir.Kind.{IrNodeKind, is_kind}
use typescript2cxx.Ir.Node.{IrNode}

abbrev pub is_ir_program : IrNode → Bool
unfolding text_eq txt
is_ir_program node = is_kind node.kind IrNodeKind.program

abbrev pub is_ir_module : IrNode → Bool
unfolding text_eq txt
is_ir_module node = is_kind node.kind IrNodeKind.module_kind

abbrev pub is_ir_namespace : IrNode → Bool
unfolding text_eq txt
is_ir_namespace node = is_kind node.kind IrNodeKind.namespace

abbrev pub is_ir_import_declaration : IrNode → Bool
unfolding text_eq txt
is_ir_import_declaration node = is_kind node.kind IrNodeKind.import_declaration

abbrev pub is_ir_export_declaration : IrNode → Bool
unfolding text_eq txt
is_ir_export_declaration node = is_kind node.kind IrNodeKind.export_declaration

abbrev pub is_ir_export_named_declaration : IrNode → Bool
unfolding text_eq txt
is_ir_export_named_declaration node = is_kind node.kind IrNodeKind.export_named_declaration

abbrev pub is_ir_export_default_declaration : IrNode → Bool
unfolding text_eq txt
is_ir_export_default_declaration node = is_kind node.kind IrNodeKind.export_default_declaration

abbrev pub is_ir_export_all_declaration : IrNode → Bool
unfolding text_eq txt
is_ir_export_all_declaration node = is_kind node.kind IrNodeKind.export_all_declaration

abbrev pub is_ir_namespace_declaration : IrNode → Bool
unfolding text_eq txt
is_ir_namespace_declaration node = is_kind node.kind IrNodeKind.namespace_declaration

abbrev pub is_ir_variable_declaration : IrNode → Bool
unfolding text_eq txt
is_ir_variable_declaration node = is_kind node.kind IrNodeKind.variable_declaration

abbrev pub is_ir_function_declaration : IrNode → Bool
unfolding text_eq txt
is_ir_function_declaration node = is_kind node.kind IrNodeKind.function_declaration

abbrev pub is_ir_class_declaration : IrNode → Bool
unfolding text_eq txt
is_ir_class_declaration node = is_kind node.kind IrNodeKind.class_declaration

abbrev pub is_ir_interface_declaration : IrNode → Bool
unfolding text_eq txt
is_ir_interface_declaration node = is_kind node.kind IrNodeKind.interface_declaration

abbrev pub is_ir_enum_declaration : IrNode → Bool
unfolding text_eq txt
is_ir_enum_declaration node = is_kind node.kind IrNodeKind.enum_declaration

abbrev pub is_ir_type_alias_declaration : IrNode → Bool
unfolding text_eq txt
is_ir_type_alias_declaration node = is_kind node.kind IrNodeKind.type_alias_declaration

abbrev pub is_ir_decorator : IrNode → Bool
unfolding text_eq txt
is_ir_decorator node = is_kind node.kind IrNodeKind.decorator

abbrev pub is_ir_decorator_factory : IrNode → Bool
unfolding text_eq txt
is_ir_decorator_factory node = is_kind node.kind IrNodeKind.decorator_factory
