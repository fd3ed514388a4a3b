-- ===== src/Transform/Module/Members.antt =====
-- The functions, methods and classes of src/transform/transformer.ts.
use typescript2cxx.Prelude.{
  ℕ, Bool, true, false, Option, some, none, List, [], ◌∷◌, ◌++◌, Text, txt, drop, map,
}
use typescript2cxx.Memory.{MemoryAnnotation, none as no_annotation, weak, unique, shared}
use typescript2cxx.Memory.Parser.{Language, Annotations, get_annotation}
use typescript2cxx.Codegen.Pointers.{
  MemoryManagement, auto, weak as weak_memory, unique as unique_memory, shared as shared_memory,
}
use typescript2cxx.Codegen.Nodes.{
  Expression, Parameters, Statements, literal, end, no_parameters, parameter,
}
use typescript2cxx.Transform.Ast.{
  KeyNode, ParameterNodes, StatementNodes, identifier_key, private_key, string_key,
}
use typescript2cxx.Transform.Monad.{Environment, M, ◌>>=◌, ◌>>◌, pure, add_to_scope, warn}
use typescript2cxx.Transform.Types.{resolve_type, default_type}
use typescript2cxx.Transform.Operators.{ir_identifier, identifier_of, text_literal}
use typescript2cxx.Transform.Visit.{
  in_scope, track_export, transform_parameters, transform_maybe, transform_statements,
}
use typescript2cxx.Transform.Module.Ast.{
  TypeParameterNode, FunctionNode, PropertyNode, ClassElement, ClassNode, property_node,
  method_node, constructor_node, other_element,
}
use typescript2cxx.Transform.Module.Ir.{
  AccessModifier, IrTemplateParameter, IrFunction, IrClassMember, IrClass, public_access,
  private_access, protected_access, property_definition, method_definition,
}

-- The environment with `options.filename || "<anonymous>"` and the annotations that were parsed, which
-- the parser and its language made.
pub record Options : Type 0 where
  pub environment : Environment
  pub filename : Text
  pub language : Language
  pub annotations : Annotations

-- `node.name?.text || "anonymous"`
abbrev pub name_or_anonymous : Option Text → Text
name_or_anonymous none = txt "anonymous"
name_or_anonymous (some []) = txt "anonymous"
name_or_anonymous (some (c ∷ s)) = c ∷ s

-- `transformTypeParameter`
unfoldable pub transform_type_parameter : Environment → TypeParameterNode → IrTemplateParameter
transform_type_parameter env p = record {
  name = p.name;
  default_type = default_type env p.default;
  is_const = p.is_const;
}

-- The loop that adds the parameters to the scope.
unfoldable pub add_parameters : Parameters → M (Unit {0})
add_parameters no_parameters = pure tt
add_parameters (parameter name type default params) = do
  add_to_scope name (ir_identifier name)
  add_parameters params

-- `transformBlockStatement` of a body, if there is one.
unfoldable pub transform_block : Option StatementNodes → Environment → M (Option Statements)
transform_block none env = pure none
transform_block (some body) env = do ss ← in_scope (transform_statements body env); pure (some ss)

-- A body in the scope of its parameters.
unfoldable pub transform_function_body :
    Parameters → Option StatementNodes → Environment → M (Option Statements)
transform_function_body params body env =
    in_scope do add_parameters params; transform_block body env

-- `transformFunctionDeclaration`
unfoldable pub transform_function_declaration : FunctionNode → Environment → M IrFunction
transform_function_declaration f env = do
  params ← transform_parameters f.params env
  track_export f.is_exported (name_or_anonymous f.name)
  body ← transform_function_body params f.body env
  pure (record {
    name = some (name_or_anonymous f.name);
    params = params;
    return_type = resolve_type env f.type;
    body = body;
    template_params = map (transform_type_parameter env) f.type_parameters;
    is_async = f.is_async;
    is_generator = false;
    is_static = false;
  })

-- `getPropertyName`
unfoldable pub get_property_name : KeyNode → Text
get_property_name (identifier_key name) = name
get_property_name (string_key text) = text
get_property_name (private_key name) = drop 1 name
get_property_name _ = txt "unknown"

-- `getPropertyNameAsExpression`
unfoldable pub get_property_name_as_expression : KeyNode → Expression
get_property_name_as_expression (identifier_key name) = identifier_of name
get_property_name_as_expression (string_key text) = literal (text_literal text)
get_property_name_as_expression (private_key name) = identifier_of (drop 1 name)
get_property_name_as_expression _ = identifier_of (txt "unknown")

abbrev pub is_private_key : KeyNode → Bool
is_private_key (private_key name) = true
is_private_key _ = false

-- `getAccessModifierFromNode`
unfoldable pub get_access_modifier : Bool → Bool → AccessModifier
get_access_modifier true is_protected = private_access
get_access_modifier false true = protected_access
get_access_modifier false false = public_access

-- `convertMemoryAnnotation`
unfoldable pub convert_memory_annotation : MemoryAnnotation → MemoryManagement
convert_memory_annotation weak = weak_memory
convert_memory_annotation unique = unique_memory
convert_memory_annotation shared = shared_memory
convert_memory_annotation no_annotation = auto

-- `getLineNumber`: a node has no `span`, and the line is 1.
unfoldable pub get_line_number : ℕ
get_line_number = 1

-- `memory` of a property with this name.
unfoldable pub property_memory : Options → Text → MemoryManagement
unfolding convert_memory_annotation get_annotation get_line_number
property_memory options name =
    convert_memory_annotation
      (get_annotation options.language options.annotations options.filename get_line_number name)

-- `transformPropertyDefinition`
unfoldable pub transform_property_definition : PropertyNode → Options → M IrClassMember
unfolding get_property_name get_property_name_as_expression get_access_modifier property_memory
transform_property_definition p options = do
  value ← transform_maybe p.initializer options.environment
  pure (
      property_definition (record {
        key = get_property_name_as_expression p.name;
        value = value;
        type = resolve_type options.environment p.type;
        accessibility = get_access_modifier p.is_private p.is_protected;
        is_static = p.is_static;
        is_readonly = p.is_readonly;
        memory = property_memory options (get_property_name p.name);
        is_private_field = is_private_key p.name;
      }))

-- The body of a method, by whether it is abstract.
unfoldable pub transform_method_body :
    Bool → Option StatementNodes → Parameters → Environment → M (Option Statements)
transform_method_body true body params env = pure none
transform_method_body false none params env = pure (some end)
transform_method_body false (some body) params env = transform_function_body params (some body) env

-- `transformMethodDefinition`, of the name and whether it is private or protected.
unfoldable pub transform_method_definition :
    KeyNode → Bool → Bool → FunctionNode → Environment → M IrClassMember
transform_method_definition key is_private is_protected f env = do
  params ← transform_parameters f.params env
  body ← transform_method_body f.is_abstract f.body params env
  pure (
      method_definition (record {
        key = get_property_name_as_expression key;
        value = record {
          name = none;
          params = params;
          return_type = resolve_type env f.type;
          body = body;
          template_params = map (transform_type_parameter env) f.type_parameters;
          is_async = f.is_async;
          is_generator = f.is_generator;
          is_static = f.is_static;
        };
        accessibility = get_access_modifier is_private is_protected;
        is_static = f.is_static;
        is_abstract = f.is_abstract;
      }))

-- The body of a constructor.
unfoldable pub transform_constructor_body :
    Parameters → Option StatementNodes → Environment → M (Option Statements)
transform_constructor_body params none env = pure none
transform_constructor_body params (some body) env = transform_function_body params (some body) env

-- `transformConstructor`
unfoldable pub transform_constructor :
    ParameterNodes → Option StatementNodes → Environment → M IrClassMember
transform_constructor parameters statements env = do
  params ← transform_parameters parameters env
  body ← transform_constructor_body params statements env
  pure (
      method_definition (record {
        key = identifier_of (txt "constructor");
        value = record {
          name = none;
          params = params;
          return_type = txt "void";
          body = body;
          template_params = [];
          is_async = false;
          is_generator = false;
          is_static = false;
        };
        accessibility = public_access;
        is_static = false;
        is_abstract = false;
      }))

-- `transformClassMember`; a member that is not supported has none.
unfoldable pub transform_class_member : Options → ClassElement → M (List IrClassMember)
transform_class_member options (property_node p) = do
  member ← transform_property_definition p options
  pure (member ∷ [])
transform_class_member options (method_node key is_private is_protected f) = do
  member ← transform_method_definition key is_private is_protected f options.environment
  pure (member ∷ [])
transform_class_member options (constructor_node params body) = do
  member ← transform_constructor params body options.environment
  pure (member ∷ [])
transform_class_member options (other_element kind) = do
  warn (txt "Unsupported class member type: " ++ kind)
  pure []

-- The loop over the members of a class.
unfoldable pub transform_class_members : Options → List ClassElement → M (List IrClassMember)
transform_class_members options [] = pure []
transform_class_members options (member ∷ members) = do
  ms ← transform_class_member options member
  rest ← transform_class_members options members
  pure (ms ++ rest)

-- `transformClassDeclaration`
unfoldable pub transform_class_declaration : ClassNode → Options → M IrClass
transform_class_declaration c options = do
  track_export c.is_exported (name_or_anonymous c.name)
  superclass ← transform_maybe c.superclass options.environment
  members ← in_scope (transform_class_members options c.members)
  pure (record {
    name = name_or_anonymous c.name;
    superclass = superclass;
    members = members;
    template_params = map (transform_type_parameter options.environment) c.type_parameters;
    is_abstract = c.is_abstract;
  })
