-- ===== src/Codegen/Declarations.antt =====
-- `isDeclaration` of src/codegen/generator.ts.
pub mod Laws
use typescript2cxx.Prelude.{Bool, List, [], ◌∷◌, any, text_eq, txt}
use typescript2cxx.Ir.Kind.{IrNodeKind, is_kind}
use typescript2cxx.Ir.Node.{IrNode}

abbrev pub declaration_kinds : List IrNodeKind
declaration_kinds =
    IrNodeKind.function_declaration ∷ IrNodeKind.class_declaration
    ∷ IrNodeKind.interface_declaration ∷ IrNodeKind.enum_declaration
    ∷ IrNodeKind.variable_declaration ∷ IrNodeKind.namespace_declaration ∷ []

unfoldable pub is_declaration : IrNode → Bool
is_declaration node = any (λ k. is_kind k node.kind) declaration_kinds
