-- ===== src/Transform/Module/WellFormed.antt =====
-- The declarations that src/transform/transformer.ts can transform, and those that the code generator
-- can read.
use typescript2cxx.Prelude.{false, Option, none, some, List, [], ◌∷◌, Text, drop, All}
use typescript2cxx.Codegen.Nodes.{Expression, Statements}
use typescript2cxx.Codegen.Regular.{
  IsNonempty, RegularExpression, RegularMaybe, RegularParameters, RegularStatement,
  RegularStatements, RegularProperty,
}
use typescript2cxx.Transform.Ast.{KeyNode, StatementNodes, identifier_key, private_key, MaybeNode}
use typescript2cxx.Transform.Monad.{Environment}
use typescript2cxx.Transform.WellFormed.{
  WellFormedNode, WellFormedMaybe, WellFormedParameters, WellFormedStatement, WellFormedStatements,
}
use typescript2cxx.Transform.Module.Ast.{
  FunctionNode, ClassElement, ClassNode, Item, Items, NamespaceNode, ModuleBody, property_node,
  method_node, constructor_node, other_element, import_node, export_node, export_assignment,
  namespace_item, function_node, class_node, interface_node, type_alias, enum_node, statement_item,
  no_items, item, namespace_node, no_body, module_block, nested_module,
}
use typescript2cxx.Transform.Module.Ir.{
  IrFunction, IrClassMember, IrClass, IrItem, IrItems, property_definition, method_definition,
  import_declaration, export_named, export_all, export_default, namespace_declaration,
  function_declaration, class_declaration, interface_declaration, enum_declaration, ir_statement,
  no_ir_items, ir_item,
}

-- The name of a member has a unit.
abbrev pub WellFormedName : KeyNode → Type 0
WellFormedName (identifier_key name) = IsNonempty name
WellFormedName (private_key name) = IsNonempty (drop 1 name)
WellFormedName _ = Unit {0}

module _ (env : Environment) where
  abbrev pub WellFormedBlock : Option StatementNodes → Type 0
  WellFormedBlock none = Unit {0}
  WellFormedBlock (some body) = WellFormedStatements env body

  abbrev pub WellFormedFunction : FunctionNode → Type 0
  WellFormedFunction f = WellFormedParameters env f.params × WellFormedBlock f.body

  abbrev pub WellFormedElement : ClassElement → Type 0
  WellFormedElement (property_node p) = WellFormedName p.name × WellFormedMaybe env p.initializer
  WellFormedElement (method_node key is_private is_protected f) =
      WellFormedName key × WellFormedFunction f
  WellFormedElement (constructor_node params body) =
      WellFormedParameters env params × WellFormedBlock body
  WellFormedElement (other_element kind) = Unit {0}

  abbrev pub WellFormedClass : ClassNode → Type 0
  WellFormedClass c = WellFormedMaybe env c.superclass × All WellFormedElement c.members

  abbrev pub WellFormedEnumMembers : List (Text × MaybeNode) → Type 0
  WellFormedEnumMembers [] = Unit {0}
  WellFormedEnumMembers ((name, init) ∷ members) =
      WellFormedMaybe env init × WellFormedEnumMembers members

  abbrev mutual
    pub WellFormedItem : Item → Type 0
    WellFormedItem (import_node source default named) = Unit {0}
    WellFormedItem (export_node clause source) = Unit {0}
    WellFormedItem (export_assignment equals e) = WellFormedNode env e
    WellFormedItem (namespace_item n) = WellFormedNamespace n
    WellFormedItem (function_node f) = WellFormedFunction f
    WellFormedItem (class_node c) = WellFormedClass c
    WellFormedItem (interface_node name) = Unit {0}
    WellFormedItem type_alias = Unit {0}
    WellFormedItem (enum_node name is_const members) = WellFormedEnumMembers members
    WellFormedItem (statement_item s) = WellFormedStatement env s

    pub WellFormedItems : Items → Type 0
    WellFormedItems no_items = Unit {0}
    WellFormedItems (item i items) = WellFormedItem i × WellFormedItems items

    pub WellFormedNamespace : NamespaceNode → Type 0
    WellFormedNamespace (namespace_node name exported body) = WellFormedModuleBody body

    pub WellFormedModuleBody : ModuleBody → Type 0
    WellFormedModuleBody no_body = Unit {0}
    WellFormedModuleBody (module_block items) = WellFormedItems items
    WellFormedModuleBody (nested_module n) = WellFormedNamespace n

abbrev pub RegularBlock : Option Statements → Type 0
RegularBlock none = Unit {0}
RegularBlock (some body) = RegularStatements body

abbrev pub RegularFunction : IrFunction → Type 0
RegularFunction f = RegularParameters f.params × RegularBlock f.body

-- The key of a member, which is not computed.
abbrev pub RegularName : Expression → Type 0
RegularName e = RegularProperty false e (RegularExpression e)

abbrev pub RegularMember : IrClassMember → Type 0
RegularMember (property_definition p) = RegularName p.key × RegularMaybe p.value
RegularMember (method_definition m) = RegularName m.key × RegularFunction m.value

abbrev pub RegularClass : IrClass → Type 0
RegularClass c = RegularMaybe c.superclass × All RegularMember c.members

abbrev mutual
  pub RegularItem : IrItem → Type 0
  RegularItem (import_declaration source specifiers) = Unit {0}
  RegularItem (export_named specifiers source) = Unit {0}
  RegularItem (export_all source) = Unit {0}
  RegularItem (export_default e) = RegularExpression e
  RegularItem (namespace_declaration name body exported) = RegularItems body
  RegularItem (function_declaration f) = RegularFunction f
  RegularItem (class_declaration c) = RegularClass c
  RegularItem (interface_declaration name) = Unit {0}
  RegularItem (enum_declaration name members is_const) = All (λ p. RegularMaybe p.1) members
  RegularItem (ir_statement s) = RegularStatement s

  pub RegularItems : IrItems → Type 0
  RegularItems no_ir_items = Unit {0}
  RegularItems (ir_item i items) = RegularItem i × RegularItems items

-- Of what is there.
abbrev pub RegularOption : Option IrItem → Type 0
RegularOption none = Unit {0}
RegularOption (some i) = RegularItem i
