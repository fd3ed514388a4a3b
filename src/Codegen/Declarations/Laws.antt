-- ===== src/Codegen/Declarations/Laws.antt =====
-- `isDeclaration` of src/codegen/generator.ts against the guards of src/ir/type-guards.ts.
use typescript2cxx.Prelude.{◌≡◌, refl, ◌&&◌, ◌||◌, not, text_eq, txt}
use typescript2cxx.Ir.Kind.{IrNodeKind}
use typescript2cxx.Ir.Node.{IrNode}
use typescript2cxx.Ir.Guards.{
  is_ir_declaration, is_ir_namespace_declaration, is_ir_type_alias_declaration,
}
use typescript2cxx.Ir.Interfaces.{with_kind, by_kind}
use typescript2cxx.Codegen.Declarations.{is_declaration}

-- The generator takes for declarations what the guard does, with namespaces and without type
-- aliases.
is_declaration-guard :
    (n : IrNode)
    → is_declaration n ≡ (
        (is_ir_declaration n || is_ir_namespace_declaration n)
        && not (is_ir_type_alias_declaration n))
unfolding is_declaration is_ir_declaration with_kind text_eq txt
is_declaration-guard = by_kind _ (λ n k.
    elim k
      as (λ k. is_declaration (with_kind n k) ≡ (
        (is_ir_declaration (with_kind n k) || is_ir_namespace_declaration (with_kind n k))
        && not (is_ir_type_alias_declaration (with_kind n k)))) [
          | IrNodeKind.program ↦ refl
          | _ ↦ refl
        ])
