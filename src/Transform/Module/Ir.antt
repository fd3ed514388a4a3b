-- ===== src/Transform/Module/Ir.antt =====
-- The declarations of src/ir/nodes.ts with the fields that src/transform/transformer.ts gives them,
-- but for the locations and for what is always the same.
use typescript2cxx.Prelude.{Bool, Option, List, Text}
use typescript2cxx.Codegen.Pointers.{MemoryManagement}
use typescript2cxx.Codegen.Nodes.{Expression, MaybeExpression, Parameters, Statement, Statements}

pub data ImportSpecifier : Type 0 where
  default_specifier : Text → ImportSpecifier
  namespace_specifier : Text → ImportSpecifier
  -- The imported name and the local one.
  named_specifier : Text → Text → ImportSpecifier

pub data AccessModifier : Type 0 where
  public_access private_access protected_access : AccessModifier

pub record IrTemplateParameter : Type 0 where
  pub name : Text
  pub default_type : Option Text
  pub is_const : Bool

-- The body is missing where it is `null`.
pub record IrFunction : Type 0 where
  pub name : Option Text
  pub params : Parameters
  pub return_type : Text
  pub body : Option Statements
  pub template_params : List IrTemplateParameter
  pub is_async : Bool
  pub is_generator : Bool
  pub is_static : Bool

pub record IrPropertyDefinition : Type 0 where
  pub key : Expression
  pub value : MaybeExpression
  pub type : Text
  pub accessibility : AccessModifier
  pub is_static : Bool
  pub is_readonly : Bool
  pub memory : MemoryManagement
  pub is_private_field : Bool

pub record IrMethodDefinition : Type 0 where
  pub key : Expression
  pub value : IrFunction
  pub accessibility : AccessModifier
  pub is_static : Bool
  pub is_abstract : Bool

pub data IrClassMember : Type 0 where
  property_definition : IrPropertyDefinition → IrClassMember
  method_definition : IrMethodDefinition → IrClassMember

pub record IrClass : Type 0 where
  pub name : Text
  pub superclass : MaybeExpression
  pub members : List IrClassMember
  pub template_params : List IrTemplateParameter
  pub is_abstract : Bool

mutual
  pub data IrItem : Type 0 where
    import_declaration : Text → List ImportSpecifier → IrItem
    -- The pairs of a local and an exported name, and the source.
    export_named : List (Text × Text) → Option Text → IrItem
    export_all : Text → IrItem
    export_default : Expression → IrItem
    -- The name, the body, and whether it is exported.
    namespace_declaration : Text → IrItems → Bool → IrItem
    function_declaration : IrFunction → IrItem
    class_declaration : IrClass → IrItem
    interface_declaration : Text → IrItem
    -- The name, the members, and whether it is `const`.
    enum_declaration : Text → List (Text × MaybeExpression) → Bool → IrItem
    ir_statement : Statement → IrItem

  pub data IrItems : Type 0 where
    no_ir_items : IrItems
    ir_item : IrItem → IrItems → IrItems
