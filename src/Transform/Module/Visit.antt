-- ===== src/Transform/Module/Visit.antt =====
-- `transformModuleItem` of src/transform/transformer.ts with the methods that it calls, and `transform`.
use typescript2cxx.Prelude.{
  Bool, true, false, Option, some, none, List, [], ◌∷◌, ◌++◌, Text, txt, any,
}
use typescript2cxx.Codegen.Nodes.{MaybeExpression}
use typescript2cxx.Codegen.Imports.{IrImport}
use typescript2cxx.Transform.Ast.{MaybeNode, StatementNode, unsupported_statement}
use typescript2cxx.Transform.Monad.{
  Environment, Transformer, M, ◌>>=◌, ◌>>◌, pure, add_export, add_import, plain_import, warn,
}
use typescript2cxx.Transform.Visit.{transform_expression, transform_maybe, transform_statement}
use typescript2cxx.Transform.Module.Ast.{
  NamedBindings, ExportClause, Item, Items, NamespaceNode, no_bindings, namespace_binding,
  named_bindings, no_export_clause, named_exports, namespace_export, import_node, export_node,
  export_assignment, namespace_item, function_node, class_node, interface_node, type_alias,
  enum_node, statement_item, no_items, item, namespace_node, no_body, module_block, nested_module,
}
use typescript2cxx.Transform.Module.Ir.{
  ImportSpecifier, IrItem, IrItems, default_specifier, namespace_specifier, named_specifier,
  import_declaration, export_named, export_all, export_default, namespace_declaration,
  function_declaration, class_declaration, interface_declaration, enum_declaration, ir_statement,
  no_ir_items, ir_item,
}
use typescript2cxx.Transform.Module.Members.{
  Options, transform_function_declaration, transform_class_declaration,
}

-- `propertyName?.text || name.text`
abbrev pub text_or : Option Text → Text → Text
text_or none name = name
text_or (some []) name = name
text_or (some (c ∷ s)) name = c ∷ s

abbrev pub named_specifiers : List (Option Text × Text) → List ImportSpecifier
named_specifiers [] = []
named_specifiers ((property, name) ∷ elements) =
    named_specifier (text_or property name) name ∷ named_specifiers elements

abbrev pub binding_specifiers : NamedBindings → List ImportSpecifier
binding_specifiers no_bindings = []
binding_specifiers (namespace_binding name) = namespace_specifier name ∷ []
binding_specifiers (named_bindings elements) = named_specifiers elements

-- The specifiers of a clause: the default one, then the others.
unfoldable pub import_specifiers : Option Text → NamedBindings → List ImportSpecifier
import_specifiers none named = binding_specifiers named
import_specifiers (some name) named = default_specifier name ∷ binding_specifiers named

abbrev pub is_namespace : ImportSpecifier → Bool
is_namespace (namespace_specifier name) = true
is_namespace _ = false

-- `specifiers.find((s) => s.type === "namespace")?.local`
unfoldable pub namespace_local : List ImportSpecifier → Option Text
namespace_local [] = none
namespace_local (namespace_specifier name ∷ specifiers) = some name
namespace_local (_ ∷ specifiers) = namespace_local specifiers

-- The import that is tracked for a declaration.
unfoldable pub tracked_import : Text → List ImportSpecifier → IrImport
unfolding namespace_local
tracked_import source specifiers = record {
  from = source;
  is_namespace = any is_namespace specifiers;
  namespace = namespace_local specifiers;
}

-- `transformImportDeclaration`
unfoldable pub transform_import : Option Text → Option Text → NamedBindings → M (Option IrItem)
transform_import none default named = do warn (txt "Dynamic imports are not supported"); pure none
transform_import (some source) default named = do
  let specifiers = import_specifiers default named
  add_import (tracked_import source specifiers)
  pure (some (import_declaration source specifiers))

-- The local and the exported names.
abbrev pub export_specifiers : List (Option Text × Text) → List (Text × Text)
export_specifiers [] = []
export_specifiers ((property, name) ∷ elements) =
    (text_or property name, name) ∷ export_specifiers elements

unfoldable pub add_exports : List (Text × Text) → M (Unit {0})
add_exports [] = pure tt
add_exports ((local, exported) ∷ specifiers) = do add_export exported; add_exports specifiers

-- The import of what is exported again; an empty specifier does not count.
unfoldable pub track_reexport : Option Text → M (Unit {0})
track_reexport none = pure tt
track_reexport (some []) = pure tt
track_reexport (some (c ∷ s)) = add_import (plain_import (c ∷ s))

-- `transformExportDeclaration`
unfoldable pub transform_export : ExportClause → Option Text → M (Option IrItem)
transform_export (named_exports elements) source = do
  add_exports (export_specifiers elements)
  track_reexport source
  pure (some (export_named (export_specifiers elements) source))
transform_export (namespace_export name) source = pure none
transform_export no_export_clause none = pure none
transform_export no_export_clause (some []) = pure none
transform_export no_export_clause (some (c ∷ s)) = do
  add_import (plain_import (c ∷ s))
  pure (some (export_all (c ∷ s)))

-- The members of `transformEnumDeclaration`.
unfoldable pub transform_enum_members :
    List (Text × MaybeNode) → Environment → M (List (Text × MaybeExpression))
transform_enum_members [] env = pure []
transform_enum_members ((name, init) ∷ members) env = do
  value ← transform_maybe init env
  rest ← transform_enum_members members env
  pure ((name, value) ∷ rest)

-- A statement of a module; one that is not supported is left out.
unfoldable pub transform_item_statement : StatementNode → Environment → M (Option IrItem)
transform_item_statement (unsupported_statement kind) env = do
  warn (txt "Unsupported module item type: " ++ kind)
  pure none
transform_item_statement s env = do
  statement ← transform_statement s env
  pure (some (ir_statement statement))

-- `if (stmt) body.push(stmt)`
abbrev pub keep : Option IrItem → IrItems → IrItems
keep none body = body
keep (some i) body = ir_item i body

unfoldable mutual
  -- `transformModuleItem`
  pub transform_module_item : Item → Options → M (Option IrItem)
  transform_module_item (import_node source default named) options =
      transform_import source default named
  transform_module_item (export_node clause source) options = transform_export clause source
  transform_module_item (export_assignment true e) options = do
    warn (txt "CommonJS export= syntax is not supported")
    pure none
  transform_module_item (export_assignment false e) options = do
    declaration ← transform_expression e options.environment
    add_export (txt "default")
    pure (some (export_default declaration))
  transform_module_item (namespace_item n) options = transform_namespace n options
  transform_module_item (function_node f) options = do
    declaration ← transform_function_declaration f options.environment
    pure (some (function_declaration declaration))
  transform_module_item (class_node c) options = do
    declaration ← transform_class_declaration c options
    pure (some (class_declaration declaration))
  transform_module_item (interface_node name) options = pure (some (interface_declaration name))
  transform_module_item type_alias options = pure none
  transform_module_item (enum_node name is_const members) options = do
    ms ← transform_enum_members members options.environment
    pure (some (enum_declaration name ms is_const))
  transform_module_item (statement_item s) options = transform_item_statement s options.environment

  -- The loops over the items of a module and of a namespace.
  pub transform_items : Items → Options → M IrItems
  transform_items no_items options = pure no_ir_items
  transform_items (item i items) options = do
    first ← transform_module_item i options
    rest ← transform_items items options
    pure (keep first rest)

  -- `transformNamespaceDeclaration`
  pub transform_namespace : NamespaceNode → Options → M (Option IrItem)
  transform_namespace (namespace_node name exported no_body) options = pure none
  transform_namespace (namespace_node name exported (module_block items)) options = do
    body ← transform_items items options
    pure (some (namespace_declaration name body exported))
  transform_namespace (namespace_node name exported (nested_module n)) options = do
    nested ← transform_namespace n options
    pure (some (namespace_declaration name (keep nested no_ir_items) exported))

-- The state of a new `ASTTransformer`.
unfoldable pub new_transformer : Transformer
new_transformer = record { scopes = [] ∷ []; exports = []; imports = []; warnings = [] }

-- `transform`: the body of the module, and the state at the end.
unfoldable pub transform : Items → Options → Option (IrItems × Transformer)
unfolding transform_items new_transformer
transform items options = transform_items items options new_transformer
