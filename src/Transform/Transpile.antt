-- ===== src/Transform/Transpile.antt =====
-- The transformer of src/transform/transformer.ts followed by the code generator of
-- src/codegen/generator.ts.
pub mod Enums
use typescript2cxx.Prelude.{◌≡◌, refl, Option, none, some, List, ◌∷◌, Text, All}
use typescript2cxx.Codegen.Nodes.{Expression, Statement}
use typescript2cxx.Codegen.Monad.{Reader, Generator}
use typescript2cxx.Codegen.Regular.{IsNonempty}
use typescript2cxx.Codegen.Generate.{generate_expression, generate_statement}
use typescript2cxx.Codegen.Generate.Ensures.{Stays}
use typescript2cxx.Codegen.Generate.Total.{generate_expression-total, generate_statement-total}
use typescript2cxx.Transform.Ast.{Node, StatementNode}
use typescript2cxx.Transform.Monad.{Environment, Scope, Transformer}
use typescript2cxx.Transform.Visit.{transform_expression, transform_statement}
use typescript2cxx.Transform.WellFormed.{WellFormedNode, WellFormedStatement}
use typescript2cxx.Transform.Ensures.{Grows}
use typescript2cxx.Transform.Total.{transform_expression-Regular, transform_statement-Regular}

-- The code of an expression of the source, from the states of both.
unfoldable pub transpile_expression :
    Node → Environment → Reader → Transformer → Generator → Option (Text × Transformer × Generator)
unfolding transform_expression generate_expression
transpile_expression e env r t g = elim (transform_expression e env t) [
  | none ↦ none
  | some (x, t') ↦ elim (generate_expression x r g) [
    | none ↦ none
    | some (code, g') ↦ some (code, t', g')
  ]
]

-- The same of a statement.
unfoldable pub transpile_statement :
    StatementNode
    → Environment
    → Reader
    → Transformer
    → Generator
    → Option (Text × Transformer × Generator)
unfolding transform_statement generate_statement
transpile_statement s env r t g = elim (transform_statement s env t) [
  | none ↦ none
  | some (x, t') ↦ elim (generate_statement x r g) [
    | none ↦ none
    | some (code, g') ↦ some (code, t', g')
  ]
]

module _ (env : Environment) (r : Reader)
    (mapped : All (λ p. IsNonempty p.1) r.names.rest_param_mappings) where
  -- A well-formed expression always becomes code, with a unit; the scope stack and the indentation are
  -- the same after as before, the scopes, exports, imports, warnings and includes of before are still
  -- there; if no rest parameter is mapped to the empty name.
  -- Well-formed excludes a call of `super`, `for … in`, an empty name, and a read identifier or the type
  -- of a variable with the name of a member that every object inherits.
  pub transpile_expression-total :
      (e : Node)
      → WellFormedNode env e
      → (t : Transformer) (g : Generator)
      → (code : Text) × (t' : Transformer) × (g' : Generator) × (transpile_expression e env r t g
          ≡ some (code, t', g'))
        × IsNonempty code
        × (t'.scopes ≡ t.scopes)
        × Grows t t'
        × Stays g g'
  unfolding transpile_expression
  transpile_expression-total e h t g =
      let (x, t', eq, grows, s, regular) = transform_expression-Regular env e h t in
      let (code, g', eq', stays, n) = generate_expression-total r mapped x regular g in
      (code, t', g', rw (transpile_expression, eq, eq') refl, n, s, grows, stays)

  -- Inside a scope, a well-formed statement always becomes code; only the innermost scope is another
  -- one after, the indentation is the same, and the exports, imports, warnings and includes of before
  -- are still there; if no rest parameter is mapped to the empty name.
  -- Well-formed excludes a call of `super`, `for … in`, an empty name, and a read identifier or the type
  -- of a variable with the name of a member that every object inherits.
  pub transpile_statement-total :
      (s : StatementNode)
      → WellFormedStatement env s
      → (t : Transformer) (scope : Scope) (outer : List Scope) → t.scopes ≡ scope ∷ outer
      → (g : Generator)
      → (code : Text) × (t' : Transformer) × (scope' : Scope) × (g' : Generator)
        × (transpile_statement s env r t g ≡ some (code, t', g'))
        × (t'.scopes ≡ scope' ∷ outer)
        × Grows t t'
        × Stays g g'
  unfolding transpile_statement
  transpile_statement-total s h t scope outer e g =
      let (x, t', scope', eq, grows, s', regular) =
        transform_statement-Regular env s h t scope outer e in
      let (code, g', eq', stays) = generate_statement-total r mapped x regular g in
      (code, t', scope', g', rw (transpile_statement, eq, eq') refl, s', grows, stays)
