-- ===== src/Transform/Module/Ast.antt =====
-- The nodes of the TypeScript syntax tree at the level of a module, with what
-- src/transform/transformer.ts reads of them. Decorators are left out.
use typescript2cxx.Prelude.{Bool, Option, List, Text}
use typescript2cxx.TypeChecker.Nodes.{MaybeType}
use typescript2cxx.Transform.Ast.{
  Node, MaybeNode, ParameterNodes, KeyNode, StatementNode, StatementNodes,
}

pub data NamedBindings : Type 0 where
  no_bindings : NamedBindings
  -- `* as name`
  namespace_binding : Text → NamedBindings
  -- The property name, if it has one, and the name of each.
  named_bindings : List (Option Text × Text) → NamedBindings

pub data ExportClause : Type 0 where
  no_export_clause : ExportClause
  named_exports : List (Option Text × Text) → ExportClause
  -- `* as name`
  namespace_export : Text → ExportClause

pub record TypeParameterNode : Type 0 where
  pub name : Text
  pub default : MaybeType
  pub is_const : Bool

-- A function declaration or a method, with the modifiers that it has.
pub record FunctionNode : Type 0 where
  pub name : Option Text
  pub params : ParameterNodes
  pub type : MaybeType
  pub body : Option StatementNodes
  pub type_parameters : List TypeParameterNode
  pub is_exported : Bool
  pub is_async : Bool
  pub is_generator : Bool
  pub is_static : Bool
  pub is_abstract : Bool

pub record PropertyNode : Type 0 where
  pub name : KeyNode
  pub type : MaybeType
  pub initializer : MaybeNode
  pub is_private : Bool
  pub is_protected : Bool
  pub is_static : Bool
  pub is_readonly : Bool

pub data ClassElement : Type 0 where
  property_node : PropertyNode → ClassElement
  -- The name, whether it is private and whether it is protected, and the function.
  method_node : KeyNode → Bool → Bool → FunctionNode → ClassElement
  constructor_node : ParameterNodes → Option StatementNodes → ClassElement
  -- Any other member, by the name of its kind.
  other_element : Text → ClassElement

pub record ClassNode : Type 0 where
  pub name : Option Text
  -- The expression of the first type of the clause `extends`.
  pub superclass : MaybeNode
  pub type_parameters : List TypeParameterNode
  pub members : List ClassElement
  pub is_exported : Bool
  pub is_abstract : Bool

mutual
  pub data Item : Type 0 where
    -- The specifier, if it is a string, the default binding and the named bindings.
    import_node : Option Text → Option Text → NamedBindings → Item
    -- The clause, and the specifier, if it is a string.
    export_node : ExportClause → Option Text → Item
    -- Whether it is `export =`, and the expression.
    export_assignment : Bool → Node → Item
    namespace_item : NamespaceNode → Item
    function_node : FunctionNode → Item
    class_node : ClassNode → Item
    interface_node : Text → Item
    type_alias : Item
    -- The name, whether it is `const`, and the names and the initializers of the members.
    enum_node : Text → Bool → List (Text × MaybeNode) → Item
    statement_item : StatementNode → Item

  pub data Items : Type 0 where
    no_items : Items
    item : Item → Items → Items

  -- The name, whether it is exported, and the body.
  pub data NamespaceNode : Type 0 where
    namespace_node : Text → Bool → ModuleBody → NamespaceNode

  pub data ModuleBody : Type 0 where
    no_body : ModuleBody
    module_block : Items → ModuleBody
    nested_module : NamespaceNode → ModuleBody
