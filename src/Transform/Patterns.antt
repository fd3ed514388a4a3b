-- ===== src/Transform/Patterns.antt =====
-- `transformObjectBindingPattern` and `transformArrayBindingPattern` of src/transform/transformer.ts, over
-- patterns without computed keys.
pub mod Laws
use typescript2cxx.Prelude.{Bool, true, false, Option, some, none, List, [], ◌∷◌, ◌++◌, Text, txt}
use typescript2cxx.Codegen.Identifier.{IrIdentifier}
use typescript2cxx.Codegen.Nodes.{Expression, MaybeExpression, literal}
use typescript2cxx.Transform.Ast.{MaybeNode}
use typescript2cxx.Transform.Monad.{Environment, M, ◌>>=◌, ◌>>◌, pure, add_to_scope}
use typescript2cxx.Transform.Operators.{ir_identifier, identifier_of, text_literal}
use typescript2cxx.Transform.Visit.{transform_maybe}

pub data PropertyKey : Type 0 where
  identifier_property : Text → PropertyKey
  -- A string or a number, by its text.
  literal_property : Text → PropertyKey

mutual
  -- `ts.BindingName`
  pub data BindingName : Type 0 where
    bound_name : Text → BindingName
    object_pattern : ObjectElements → BindingName
    array_pattern : ArrayElements → BindingName

  pub data ObjectElements : Type 0 where
    no_object_elements : ObjectElements
    -- The property name, the name, the initializer, and whether there are dots.
    object_element :
        Option PropertyKey → BindingName → MaybeNode → Bool → ObjectElements → ObjectElements

  pub data ArrayElements : Type 0 where
    no_array_elements : ArrayElements
    omitted_element : ArrayElements → ArrayElements
    -- The name, and whether there are dots; an initializer is not read.
    array_element : BindingName → Bool → ArrayElements → ArrayElements

mutual
  -- An identifier or an `IRPattern`.
  pub data IrPattern : Type 0 where
    ir_name : IrIdentifier → IrPattern
    ir_object : IrProperties → IrPattern
    ir_array : IrElements → IrPattern

  pub data IrProperties : Type 0 where
    no_ir_properties : IrProperties
    -- The key, the value, whether it is a shorthand, whether it is the rest, the default value and the
    -- new name.
    ir_property :
        Expression
        → IrPattern
        → Bool
        → Bool
        → MaybeExpression
        → Option Text
        → IrProperties
        → IrProperties

  pub data IrElements : Type 0 where
    no_ir_elements : IrElements
    ir_hole : IrElements → IrElements
    ir_element : IrPattern → IrElements → IrElements
    ir_rest : IrPattern → IrElements → IrElements

abbrev pub is_name : BindingName → Bool
is_name (bound_name name) = true
is_name _ = false

-- The key of a property.
abbrev pub pattern_key : Option PropertyKey → BindingName → Expression
pattern_key (some (identifier_property name)) binding = identifier_of name
pattern_key (some (literal_property text)) binding = literal (text_literal text)
pattern_key none (bound_name name) = identifier_of name
pattern_key none _ = identifier_of (txt "unknown")

abbrev pub is_shorthand : Option PropertyKey → BindingName → Bool
is_shorthand none binding = is_name binding
is_shorthand (some key) binding = false

-- `prop.renamed`
abbrev pub renamed : Option PropertyKey → BindingName → Option Text
renamed (some key) (bound_name name) = some name
renamed _ binding = none

unfoldable mutual
  -- The branches on the name of an element.
  pub transform_binding : BindingName → Environment → M IrPattern
  transform_binding (bound_name name) env = do
    add_to_scope name (ir_identifier name)
    pure (ir_name (ir_identifier name))
  transform_binding (object_pattern elements) env = do
    ps ← transform_object_elements elements env
    pure (ir_object ps)
  transform_binding (array_pattern elements) env = do
    es ← transform_array_elements elements env
    pure (ir_array es)

  -- The loop of `transformObjectBindingPattern`.
  pub transform_object_elements : ObjectElements → Environment → M IrProperties
  transform_object_elements no_object_elements env = pure no_ir_properties
  transform_object_elements (object_element key binding init rest elements) env = do
    value ← transform_binding binding env
    default ← transform_maybe init env
    ps ← transform_object_elements elements env
    pure (
        ir_property (pattern_key key binding) value (is_shorthand key binding) rest default
          (renamed key binding) ps)

  -- The loop of `transformArrayBindingPattern`.
  pub transform_array_elements : ArrayElements → Environment → M IrElements
  transform_array_elements no_array_elements env = pure no_ir_elements
  transform_array_elements (omitted_element elements) env = do
    es ← transform_array_elements elements env
    pure (ir_hole es)
  transform_array_elements (array_element binding true elements) env = do
    argument ← transform_binding binding env
    es ← transform_array_elements elements env
    pure (ir_rest argument es)
  transform_array_elements (array_element binding false elements) env = do
    value ← transform_binding binding env
    es ← transform_array_elements elements env
    pure (ir_element value es)
