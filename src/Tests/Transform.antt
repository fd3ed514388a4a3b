-- ===== src/Tests/Transform.antt =====
-- The theorems on src/transform/transformer.ts, alone and before the code generator, at concrete inputs.
use typescript2cxx.Prelude.{
  inherited, ℕ, zero, suc, ◌≢◌, ap, arith, ◌≡◌, refl, true, false, none, some, List, [], ◌∷◌, Text,
  txt, text_eq, All,
}
use typescript2cxx.Codegen.Literal.{nan}
use typescript2cxx.Codegen.Nodes.{Expression, Statement}
use typescript2cxx.Codegen.Monad.{Reader, Generator}
use typescript2cxx.Codegen.Regular.{IsNonempty, RegularExpression, RegularStatement}
use typescript2cxx.Codegen.Generate.Ensures.{Stays}
use typescript2cxx.TypeChecker.Nodes.{absent, present, keyword, number}
use typescript2cxx.TypeChecker.Flags.{resolve_type_node}
use typescript2cxx.Transform.Types.{resolve_type}
use typescript2cxx.Transform.Ast.{
  Node, MaybeNode, StatementNode, plain_name, private_name, identifier_name, string_literal,
  bigint_literal, call_expression, property_access, binary_expression, template_expression,
  arrow_function, array_literal, block_body, this_keyword, no_elements, omitted, element, no_spans,
  span, no_parameter_nodes, parameter_node, no_node, some_node, statement_node, no_statements,
  return_node, block_node, for_of_node, variable_statement, declaration_list, declaration_node,
  no_declarations, declaration_head, private_key, identifier_key,
}
use typescript2cxx.Transform.Monad.{Environment, Scope, Transformer}
use typescript2cxx.Transform.Operators.{names_super, without_last, property_name}
use typescript2cxx.Transform.Visit.{transform_expression, transform_statement}
use typescript2cxx.Transform.WellFormed.{WellFormedNode, WellFormedStatement}
use typescript2cxx.Transform.Ensures.{Grows, IsConsistent}
use typescript2cxx.Transform.Total.{transform_expression-Regular, transform_statement-Regular}
use typescript2cxx.Transform.Transpile.{
  transpile_expression, transpile_statement, transpile_expression-total, transpile_statement-total,
}
use typescript2cxx.Transform.Module.Ast.{
  PropertyNode, Items, import_node, namespace_binding, class_node, constructor_node, property_node,
  statement_item, no_items, item,
}
use typescript2cxx.Transform.Module.Ir.{IrItems}
use typescript2cxx.Transform.Module.Members.{Options, transform_property_definition}
use typescript2cxx.Transform.Module.Annotations.{transform_property_definition-annotations}
use typescript2cxx.Memory.Parser.{Language, parse}
use typescript2cxx.Memory.Parser.Laws.{HasDigits}
use typescript2cxx.Transform.Module.Visit.{transform}
use typescript2cxx.Transform.Module.WellFormed.{WellFormedItems, RegularItems}
use typescript2cxx.Transform.Patterns.{
  BindingName, IrPattern, identifier_property, bound_name, object_pattern, array_pattern,
  no_object_elements, object_element, no_array_elements, omitted_element, array_element,
  transform_binding,
}
use typescript2cxx.Transform.Patterns.Laws.{HasName, transform_binding-names}
use typescript2cxx.Transform.Module.Total.{transform-Regular}

-- A language that reads no number, and whose `BigInt` takes the text as it is.
abbrev environment : Environment
environment = record {
  type_checker = some resolve_type_node;
  to_number = λ s. nan;
  parse_float = λ s. nan;
  to_bigint = λ s. some s;
}

abbrev reader : Reader
reader = record {
  names = record { user_namespaces = []; rest_param_mappings = [] };
  namespace_imports = [];
  current_class = none;
  current_base_class = none;
  is_header = false;
  is_async = false;
  show = λ n. [];
  to_number = λ s. nan;
  to_lower_case = λ s. s;
  to_upper_case = λ s. s;
}

abbrev generator : Generator
generator = record { indent = 1; includes = []; temps = 0 }

abbrev transformer : Transformer
transformer = record { scopes = [] ∷ [] ∷ []; exports = []; imports = []; warnings = [] }

-- `items.map((x: number, y = 5n) => { return `${this.#size}!`; })`
abbrev call_node : Node
call_node =
    call_expression (property_access (identifier_name (txt "items")) (plain_name (txt "map"))) (
      element
        (arrow_function
          (parameter_node (some (txt "x")) (present (keyword number)) no_node (
            parameter_node (some (txt "y")) absent (some_node (bigint_literal (txt "5n")))
              no_parameter_nodes))
          absent
          (block_body (
            statement_node
              (return_node (
                some_node (
                  template_expression [] (
                    span (property_access this_keyword (private_name (txt "#size"))) (txt "!")
                      no_spans))))
              no_statements)))
        no_elements)

call_node-WellFormed : WellFormedNode environment call_node
unfolding names_super IsNonempty inherited txt text_eq without_last property_name
call_node-WellFormed =
    (refl, ((tt, refl), tt), (((tt, ((_, refl, tt), tt)), (((tt, tt), tt), tt)), tt))

transform_expression-Regular_example :
    (x : Expression) × (t' : Transformer) × (transform_expression call_node environment transformer
      ≡ some (x, t'))
    × Grows transformer t'
    × (t'.scopes ≡ transformer.scopes)
    × RegularExpression x
transform_expression-Regular_example =
    transform_expression-Regular environment call_node call_node-WellFormed transformer

-- `for (const x of [a, b]) { let y = x === a; }`
abbrev loop : StatementNode
loop =
    for_of_node (declaration_head true (txt "x") absent no_node)
      (array_literal (
        element (identifier_name (txt "a"))
          (omitted (element (identifier_name (txt "b")) no_elements))))
      (block_node (
        statement_node
          (variable_statement false (
            declaration_list false (
              declaration_node (txt "y") absent
                (some_node (
                  binary_expression (txt "===") (identifier_name (txt "x"))
                    (identifier_name (txt "a"))))
                no_declarations)))
          no_statements))

loop-WellFormed : WellFormedStatement environment loop
unfolding IsNonempty inherited resolve_type txt text_eq
loop-WellFormed = (tt, ((tt, refl), ((tt, refl), tt)), ((refl, ((tt, refl), (tt, refl)), tt), tt))

transform_statement-Regular_example :
    (x : Statement) × (t' : Transformer) × (scope' : Scope) × (transform_statement loop environment
        transformer
      ≡ some (x, t'))
    × Grows transformer t'
    × (t'.scopes ≡ scope' ∷ [] ∷ [])
    × RegularStatement x
transform_statement-Regular_example =
    transform_statement-Regular environment loop loop-WellFormed transformer [] ([] ∷ []) refl

transpile_expression-total_example :
    (code : Text) × (t' : Transformer) × (g' : Generator) × (transpile_expression call_node
        environment reader transformer generator
      ≡ some (code, t', g'))
    × IsNonempty code
    × (t'.scopes ≡ transformer.scopes)
    × Grows transformer t'
    × Stays generator g'
transpile_expression-total_example =
    transpile_expression-total environment reader tt call_node call_node-WellFormed transformer
      generator

transpile_statement-total_example :
    (code : Text) × (t' : Transformer) × (scope' : Scope) × (g' : Generator) × (transpile_statement
        loop environment reader transformer generator
      ≡ some (code, t', g'))
    × (t'.scopes ≡ scope' ∷ [] ∷ [])
    × Grows transformer t'
    × Stays generator g'
transpile_statement-total_example =
    transpile_statement-total environment reader tt loop loop-WellFormed transformer [] ([] ∷ [])
      refl generator

unary : ℕ → Text
unary zero = []
unary (suc n) = b'1' ∷ unary n

unary-inj : (m n : ℕ) → unary m ≡ unary n → m ≡ n
unfolding unary
unary-inj zero zero e = refl
unary-inj zero (suc n) e = absurd cc
unary-inj (suc m) zero e = absurd cc
unary-inj (suc m) (suc n) e = ap suc (unary-inj m n cc)

unary-no_colon : (n : ℕ) → All (λ c. c ≢ b':') (unary n)
unfolding unary
unary-no_colon zero = tt
unary-no_colon (suc n) = ((λ e. absurd (omega (arith, e))), unary-no_colon n)

-- A language whose expressions find the annotation `weak` and the property `parent` in every line.
abbrev finder : Language
finder = record {
  match_annotation = λ line. some (0, txt "weak");
  match_property = λ line. some (txt "parent");
  show = unary;
  to_lower_case = λ s. s;
}

finder-HasDigits : HasDigits finder
finder-HasDigits = record { no_colon = unary-no_colon; injective = unary-inj }

abbrev options : Options
options = record {
  environment = environment;
  filename = txt "a.ts";
  language = finder;
  annotations = [];
}

-- `import * as fs from "fs"; class Player { #size = 5n; constructor(x: number) { … } }`, and a loop.
abbrev module_items : Items
module_items = item (import_node (some (txt "fs")) none (namespace_binding (txt "fs"))) (
    item
      (class_node (record {
        name = some (txt "Player");
        superclass = no_node;
        type_parameters = [];
        members =
            property_node (record {
              name = private_key (txt "#size");
              type = absent;
              initializer = some_node (bigint_literal (txt "5n"));
              is_private = false;
              is_protected = false;
              is_static = false;
              is_readonly = true;
            })
            ∷ constructor_node
                (parameter_node (some (txt "x")) (present (keyword number)) no_node
                  no_parameter_nodes)
                (some (statement_node loop no_statements))
            ∷ [];
        is_exported = true;
        is_abstract = false;
      }))
      (item (statement_item loop) no_items))

module_items-WellFormed : WellFormedItems environment module_items
unfolding IsNonempty txt without_last
module_items-WellFormed = (
  tt,
  ((tt, ((tt, (_, refl, tt)), (((tt, tt), (loop-WellFormed, tt)), tt))), (loop-WellFormed, tt)),
)

transform-Regular_example :
    (body : IrItems) × (t : Transformer) × (scope : Scope) × (transform module_items options
      ≡ some (body, t))
    × RegularItems body
    × (t.scopes ≡ scope ∷ [])
    × All IsConsistent t.imports
transform-Regular_example = transform-Regular options module_items module_items-WellFormed

-- `{ Red, Green = "g", Blue = size }`
abbrev colors : List (Text × MaybeNode)
colors =
    (txt "Red", no_node)
    ∷ (txt "Green", some_node (string_literal (txt "g")))
    ∷ (txt "Blue", some_node (identifier_name (txt "size")))
    ∷ []

abbrev two_lines : Text
two_lines = txt "/** @weak */\nparent: Node;"

abbrev annotated : Options
annotated = record {
  environment = environment;
  filename = txt "a.ts";
  language = finder;
  annotations = parse finder two_lines (txt "a.ts");
}

abbrev parent : PropertyNode
parent = record {
  name = identifier_key (txt "parent");
  type = absent;
  initializer = no_node;
  is_private = false;
  is_protected = false;
  is_static = false;
  is_readonly = false;
}

transform_property_definition-annotations_example :
    transform_property_definition parent annotated transformer
    ≡ transform_property_definition parent (record annotated { annotations = [] }) transformer
transform_property_definition-annotations_example =
    transform_property_definition-annotations annotated finder-HasDigits two_lines parent
      transformer refl

-- `{ a, b: [, c, ...d] }`
abbrev some_pattern : BindingName
some_pattern = object_pattern (
    object_element none (bound_name (txt "a")) no_node false (
      object_element (some (identifier_property (txt "b")))
        (array_pattern (
          omitted_element (
            array_element (bound_name (txt "c")) false
              (array_element (bound_name (txt "d")) true no_array_elements))))
        no_node false no_object_elements))

transform_binding-names_example :
    (p : IrPattern) × (t' : Transformer) × (scope' : Scope) × (transform_binding some_pattern
        environment transformer
      ≡ some (p, t'))
    × (t'.scopes ≡ scope' ∷ [] ∷ [])
    × ((name : Text) → HasName [] name → HasName scope' name)
    × All (HasName scope') (txt "a" ∷ txt "c" ∷ txt "d" ∷ [])
transform_binding-names_example =
    transform_binding-names environment some_pattern (tt, tt, ((tt, (tt, tt)), tt, tt)) transformer
      [] ([] ∷ []) refl
