-- ===== src/Transform/Module/Total.antt =====
-- `transform` of src/transform/transformer.ts throws nothing at well-formed declarations, and gives
-- declarations whose expressions and statements the code generator can read.
use typescript2cxx.Prelude.{
  inherited, text_eq, ◌≡◌, refl, Bool, true, false, Option, some, none, List, [], ◌∷◌, Text, txt,
  All, All-append,
}
use typescript2cxx.Codegen.Nodes.{Parameters, no_parameters, parameter}
use typescript2cxx.Codegen.Regular.{IsNonempty, RegularMaybe}
use typescript2cxx.Transform.Ast.{
  KeyNode, StatementNode, StatementNodes, MaybeNode, identifier_key, private_key, string_key,
  unsupported_statement,
}
use typescript2cxx.Transform.Monad.{Environment, Scope, Transformer}
use typescript2cxx.Transform.Operators.{text_literal}
use typescript2cxx.Transform.WellFormed.{WellFormedStatement}
use typescript2cxx.Transform.Ensures.{
  IsConsistent, Ensures, Declares, Ensures-pure, Ensures-bind, Ensures-warn, Ensures-in_scope,
  Declares-Ensures, Declares-pure, Declares-bind, Declares-add_to_scope, track_export-Ensures,
  Ensures-add_import, Ensures-add_export, Any,
}
use typescript2cxx.Transform.Steps.{plain-IsConsistent}
use typescript2cxx.Transform.Total.{
  expression-Ensures, maybe-Ensures, parameters-Ensures, statement-Declares, statements-Declares,
}
use typescript2cxx.Transform.Module.Ast.{
  NamedBindings, ExportClause, ClassElement, ClassNode, FunctionNode, Item, Items, NamespaceNode,
  property_node, method_node, constructor_node, other_element, named_exports, namespace_export,
  no_export_clause, import_node, export_node, export_assignment, namespace_item, function_node,
  class_node, interface_node, type_alias, enum_node, statement_item, no_items, item, namespace_node,
  no_body, module_block, nested_module,
}
use typescript2cxx.Transform.Module.Ir.{
  IrItem, IrItems, ImportSpecifier, namespace_specifier, default_specifier, named_specifier,
}
use typescript2cxx.Transform.Module.Members.{
  Options, add_parameters, transform_block, transform_function_body, transform_function_declaration,
  get_property_name_as_expression, transform_property_definition, transform_method_body,
  transform_method_definition, transform_constructor_body, transform_constructor,
  transform_class_member, transform_class_members, transform_class_declaration, name_or_anonymous,
}
use typescript2cxx.Transform.Module.Visit.{
  namespace_local, import_specifiers, tracked_import, transform_import, export_specifiers,
  add_exports, track_reexport, transform_export, transform_enum_members, transform_item_statement,
  keep, transform_module_item, transform_items, transform_namespace, new_transformer, transform,
}
use typescript2cxx.Transform.Module.WellFormed.{
  RegularName, WellFormedName, WellFormedBlock, WellFormedFunction, WellFormedElement,
  WellFormedClass, WellFormedEnumMembers, WellFormedItem, WellFormedItems, WellFormedNamespace,
  RegularBlock, RegularFunction, RegularMember, RegularClass, RegularItems, RegularOption,
}

tracked-IsConsistent :
    (source : Text) (ss : List ImportSpecifier) → IsConsistent (tracked_import source ss)
unfolding tracked_import IsConsistent namespace_local
tracked-IsConsistent source [] = refl
tracked-IsConsistent source (namespace_specifier name ∷ ss) = refl
tracked-IsConsistent source (default_specifier name ∷ ss) = tracked-IsConsistent source ss
tracked-IsConsistent source (named_specifier imported name ∷ ss) = tracked-IsConsistent source ss

key-Regular : (k : KeyNode) → WellFormedName k → RegularName (get_property_name_as_expression k)
unfolding get_property_name_as_expression text_literal IsNonempty inherited txt text_eq
key-Regular (identifier_key name) h = h
key-Regular (private_key name) h = h
key-Regular (string_key text) h = (tt, refl)
key-Regular k h = tt

parameters-Declares : (ps : Parameters) → Declares Any (add_parameters ps)
unfolding add_parameters
parameters-Declares no_parameters = Declares-pure _ _ tt
parameters-Declares (parameter name type default ps) =
    Declares-bind _ _ _ (Declares-add_to_scope name _) λ _ _. parameters-Declares ps

add_exports-Ensures : (ss : List (Text × Text)) → Ensures Any (add_exports ss)
unfolding add_exports
add_exports-Ensures [] = Ensures-pure _ _ tt
add_exports-Ensures ((local, exported) ∷ ss) =
    Ensures-bind _ _ _ (Ensures-add_export exported) λ _ _. add_exports-Ensures ss

reexport-Ensures : (source : Option Text) → Ensures Any (track_reexport source)
unfolding track_reexport
reexport-Ensures none = Ensures-pure _ _ tt
reexport-Ensures (some []) = Ensures-pure _ _ tt
reexport-Ensures (some (c ∷ s)) = Ensures-add_import _ (plain-IsConsistent (c ∷ s))

import-Ensures :
    (source default : Option Text) (named : NamedBindings)
    → Ensures RegularOption (transform_import source default named)
unfolding transform_import
import-Ensures none default named = Ensures-bind _ _ _ (Ensures-warn _) λ _ _. Ensures-pure _ _ tt
import-Ensures (some source) default named =
    Ensures-bind _ _ _
      (Ensures-add_import _ (tracked-IsConsistent source (import_specifiers default named)))
      λ _ _. Ensures-pure _ _ tt

export-Ensures :
    (clause : ExportClause) (source : Option Text)
    → Ensures RegularOption (transform_export clause source)
unfolding transform_export
export-Ensures (named_exports elements) source =
    Ensures-bind _ _ _ (add_exports-Ensures (export_specifiers elements))
      λ _ _. Ensures-bind _ _ _ (reexport-Ensures source) λ _ _. Ensures-pure _ _ tt
export-Ensures (namespace_export name) source = Ensures-pure _ _ tt
export-Ensures no_export_clause none = Ensures-pure _ _ tt
export-Ensures no_export_clause (some []) = Ensures-pure _ _ tt
export-Ensures no_export_clause (some (c ∷ s)) =
    Ensures-bind _ _ _ (Ensures-add_import _ (plain-IsConsistent (c ∷ s)))
      λ _ _. Ensures-pure _ _ tt

keep-Regular :
    (i : Option IrItem) (is : IrItems)
    → RegularOption i
    → RegularItems is
    → RegularItems (keep i is)
keep-Regular none is h k = k
keep-Regular (some i) is h k = (h, k)

module _ (env : Environment) where
  block-Ensures :
      (body : Option StatementNodes)
      → WellFormedBlock env body
      → Ensures RegularBlock (transform_block body env)
  unfolding transform_block
  block-Ensures none h = Ensures-pure _ _ tt
  block-Ensures (some body) h =
      Ensures-bind _ _ _ (Ensures-in_scope _ _ (statements-Declares env body h))
        λ ss k. Ensures-pure _ _ k

  body-Ensures :
      (ps : Parameters) (body : Option StatementNodes)
      → WellFormedBlock env body
      → Ensures RegularBlock (transform_function_body ps body env)
  unfolding transform_function_body
  body-Ensures ps body h = Ensures-in_scope _ _ (
      Declares-bind _ _ _ (parameters-Declares ps)
        λ _ _. Declares-Ensures _ _ (block-Ensures body h))

  function-Ensures :
      (f : FunctionNode)
      → WellFormedFunction env f
      → Ensures RegularFunction (transform_function_declaration f env)
  unfolding transform_function_declaration
  function-Ensures f (h, k) = Ensures-bind _ _ _ (parameters-Ensures env f.params h) λ ps i.
      Ensures-bind _ _ _ (track_export-Ensures f.is_exported (name_or_anonymous f.name))
        λ _ _. Ensures-bind _ _ _ (body-Ensures ps f.body k) λ body j. Ensures-pure _ _ (i, j)

  method_body-Ensures :
      (abstract : Bool) (body : Option StatementNodes) (ps : Parameters)
      → WellFormedBlock env body
      → Ensures RegularBlock (transform_method_body abstract body ps env)
  unfolding transform_method_body
  method_body-Ensures true body ps h = Ensures-pure _ _ tt
  method_body-Ensures false none ps h = Ensures-pure _ _ tt
  method_body-Ensures false (some body) ps h = body-Ensures ps (some body) h

  constructor_body-Ensures :
      (ps : Parameters) (body : Option StatementNodes)
      → WellFormedBlock env body
      → Ensures RegularBlock (transform_constructor_body ps body env)
  unfolding transform_constructor_body
  constructor_body-Ensures ps none h = Ensures-pure _ _ tt
  constructor_body-Ensures ps (some body) h = body-Ensures ps (some body) h

  pub enum-Ensures :
      (ms : List (Text × MaybeNode))
      → WellFormedEnumMembers env ms
      → Ensures (All (λ p. RegularMaybe p.1)) (transform_enum_members ms env)
  unfolding transform_enum_members
  enum-Ensures [] h = Ensures-pure _ _ tt
  enum-Ensures ((name, init) ∷ ms) (h, k) =
      Ensures-bind _ _ _ (maybe-Ensures env init h)
        λ x i. Ensures-bind _ _ _ (enum-Ensures ms k) λ xs j. Ensures-pure _ _ (i, j)

  item_statement-Declares :
      (s : StatementNode)
      → WellFormedStatement env s
      → Declares RegularOption (transform_item_statement s env)
  unfolding transform_item_statement
  item_statement-Declares (unsupported_statement kind) h =
      Declares-bind _ _ _ (Declares-Ensures _ _ (Ensures-warn _)) λ _ _. Declares-pure _ _ tt
  item_statement-Declares s h =
      Declares-bind _ _ _ (statement-Declares env s h) λ x i. Declares-pure _ _ i

module _ (options : Options) where
  member-Ensures :
      (m : ClassElement)
      → WellFormedElement options.environment m
      → Ensures (All RegularMember) (transform_class_member options m)
  unfolding transform_class_member transform_property_definition transform_method_definition
      transform_constructor IsNonempty txt
  member-Ensures (property_node p) (h, k) =
      Ensures-bind (All RegularMember) _ _
        (Ensures-bind RegularMember _ _ (maybe-Ensures options.environment p.initializer k)
          λ v i. Ensures-pure RegularMember _ (key-Regular p.name h, i))
        λ m i. Ensures-pure _ _ (i, tt)
  member-Ensures (method_node key is_private is_protected f) (h, (k, l)) =
      Ensures-bind (All RegularMember) _ _
        (Ensures-bind RegularMember _ _ (parameters-Ensures options.environment f.params k) λ ps i.
          Ensures-bind RegularMember _ _
            (method_body-Ensures options.environment f.is_abstract f.body ps l)
            λ body j. Ensures-pure RegularMember _ (key-Regular key h, (i, j)))
        λ m i. Ensures-pure _ _ (i, tt)
  member-Ensures (constructor_node params body) (h, k) =
      Ensures-bind (All RegularMember) _ _
        (Ensures-bind RegularMember _ _ (parameters-Ensures options.environment params h) λ ps i.
          Ensures-bind RegularMember _ _ (constructor_body-Ensures options.environment ps body k)
            λ b j. Ensures-pure RegularMember _ (tt, (i, j)))
        λ m i. Ensures-pure _ _ (i, tt)
  member-Ensures (other_element kind) h =
      Ensures-bind (All RegularMember) _ _ (Ensures-warn _) λ _ _. Ensures-pure _ _ tt

  members-Ensures :
      (ms : List ClassElement)
      → All (WellFormedElement options.environment) ms
      → Ensures (All RegularMember) (transform_class_members options ms)
  unfolding transform_class_members
  members-Ensures [] h = Ensures-pure _ _ tt
  members-Ensures (m ∷ ms) (h, k) = Ensures-bind _ _ _ (member-Ensures m h) λ xs i.
      Ensures-bind _ _ _ (members-Ensures ms k)
        λ ys j. Ensures-pure _ _ (All-append RegularMember xs ys i j)

  class-Ensures :
      (c : ClassNode)
      → WellFormedClass options.environment c
      → Ensures RegularClass (transform_class_declaration c options)
  unfolding transform_class_declaration
  class-Ensures c (h, k) =
      Ensures-bind _ _ _ (track_export-Ensures c.is_exported (name_or_anonymous c.name)) λ _ _.
        Ensures-bind _ _ _ (maybe-Ensures options.environment c.superclass h) λ x i.
          Ensures-bind _ _ _
            (Ensures-in_scope _ _ (Declares-Ensures _ _ (members-Ensures c.members k)))
            λ ms j. Ensures-pure _ _ (i, j)

  mutual
    unfolding transform_module_item transform_items transform_namespace

    module_item-Declares :
        (i : Item)
        → WellFormedItem options.environment i
        → Declares RegularOption (transform_module_item i options)
    module_item-Declares (import_node source default named) h =
        Declares-Ensures _ _ (import-Ensures source default named)
    module_item-Declares (export_node clause source) h =
        Declares-Ensures _ _ (export-Ensures clause source)
    module_item-Declares (export_assignment true e) h =
        Declares-bind _ _ _ (Declares-Ensures _ _ (Ensures-warn _)) λ _ _. Declares-pure _ _ tt
    module_item-Declares (export_assignment false e) h =
        Declares-bind _ _ _ (Declares-Ensures _ _ (expression-Ensures options.environment e h))
          λ x i.
            Declares-bind _ _ _ (Declares-Ensures _ _ (Ensures-add_export _))
              λ _ _. Declares-pure _ _ i
    module_item-Declares (namespace_item n) h = namespace-Declares n h
    module_item-Declares (function_node f) h =
        Declares-bind _ _ _ (Declares-Ensures _ _ (function-Ensures options.environment f h))
          λ x i. Declares-pure _ _ i
    module_item-Declares (class_node c) h =
        Declares-bind _ _ _ (Declares-Ensures _ _ (class-Ensures c h)) λ x i. Declares-pure _ _ i
    module_item-Declares (interface_node name) h = Declares-pure _ _ tt
    module_item-Declares type_alias h = Declares-pure _ _ tt
    module_item-Declares (enum_node name is_const members) h =
        Declares-bind _ _ _ (Declares-Ensures _ _ (enum-Ensures options.environment members h))
          λ x i. Declares-pure _ _ i
    module_item-Declares (statement_item s) h = item_statement-Declares options.environment s h

    items-Declares :
        (is : Items)
        → WellFormedItems options.environment is
        → Declares RegularItems (transform_items is options)
    items-Declares no_items h = Declares-pure _ _ tt
    items-Declares (item i is) (h, k) = Declares-bind _ _ _ (module_item-Declares i h) λ x p.
        Declares-bind _ _ _ (items-Declares is k) λ xs q. Declares-pure _ _ (keep-Regular x xs p q)

    namespace-Declares :
        (n : NamespaceNode)
        → WellFormedNamespace options.environment n
        → Declares RegularOption (transform_namespace n options)
    namespace-Declares (namespace_node name exported no_body) h = Declares-pure _ _ tt
    namespace-Declares (namespace_node name exported (module_block is)) h =
        Declares-bind _ _ _ (items-Declares is h) λ xs i. Declares-pure _ _ i
    namespace-Declares (namespace_node name exported (nested_module n)) h =
        Declares-bind _ _ _ (namespace-Declares n h)
          λ x i. Declares-pure _ _ (keep-Regular x _ i tt)

  -- A well-formed module is always transformed, to declarations and statements that the code generator
  -- can read; one scope is left on the stack, and every import that is recorded says that it is one of a
  -- namespace exactly when it has the namespace's name.
  pub transform-Regular :
      (is : Items)
      → WellFormedItems options.environment is
      → (body : IrItems) × (t : Transformer) × (scope : Scope) × (transform is options
          ≡ some (body, t))
        × RegularItems body
        × (t.scopes ≡ scope ∷ [])
        × All IsConsistent t.imports
  unfolding transform new_transformer Declares
  transform-Regular is h =
      let (body, t, scope, e, g, s, r) = items-Declares is h new_transformer [] [] refl in
      let (more, f, c) = g.more_imports in (body, t, scope, e, r, s, rw f c)
