-- ===== src/Transform/Monad.antt =====
-- What the transformer of src/transform/transformer.ts changes, and the exceptions that it throws.
use typescript2cxx.Prelude.{
  false, Option, none, some, List, [], ◌∷◌, ◌++◌, Text, text_eq, if◌then◌else◌,
}
use typescript2cxx.Codegen.Identifier.{IrIdentifier}
use typescript2cxx.Codegen.Literal.{Number}
use typescript2cxx.Codegen.Imports.{IrImport}
use typescript2cxx.TypeChecker.Nodes.{TypeNode, ResolvedType}

-- What stays as it is: the type checker, if there is one, which has analyzed the file, and the
-- language's own conversions, `Number`, `parseFloat` and the digits of `BigInt`, which may throw.
pub record Environment : Type 0 where
  pub type_checker : Option (TypeNode → ResolvedType)
  pub to_number : Text → Number
  pub parse_float : Text → Number
  pub to_bigint : Text → Option Text

-- A scope, as the pairs of its map in their order.
abbrev pub Scope : Type 0
Scope = List (Text × IrIdentifier)

-- `context.scopeStack`, its last scope first, the exports and the imports of the module being built,
-- and the messages of the warnings. The current class and function are only written.
pub record Transformer : Type 0 where
  pub scopes : List Scope
  pub exports : List Text
  pub imports : List IrImport
  pub warnings : List Text

-- `none` is an exception.
abbrev pub M : Type 0 → Type 0
M A = Transformer → Option (A × Transformer)

infixl 5 ◌>>=◌ ◌>>◌
abbrev pub ◌>>=◌ : {A B : Type 0} → M A → (A → M B) → M B
◌>>=◌ m f t = elim (m t) [ none ↦ none | some (a, t') ↦ f a t' ]

abbrev pub ◌>>◌ : {B : Type 0} → M (Unit {0}) → M B → M B
m >> k = m >>= λ _. k

abbrev pub pure : {A : Type 0} → A → M A
pure a t = some (a, t)

abbrev pub throw_error : {A : Type 0} → M A
throw_error t = none

abbrev pub or_throw : {A : Type 0} → Option A → M A
or_throw none t = none
or_throw (some a) t = some (a, t)

-- `scope.set(name, node)`
unfoldable pub set_name : Text → IrIdentifier → Scope → Scope
set_name name id [] = (name, id) ∷ []
set_name name id ((n, i) ∷ scope) =
    let rest = set_name name id scope in if text_eq n name then (n, id) ∷ scope else (n, i) ∷ rest

abbrev pub pop_of : List Scope → List Scope
pop_of [] = []
pop_of (scope ∷ scopes) = scopes

-- `pushScope`
unfoldable pub push_scope : M (Unit {0})
push_scope t = some (tt, record t { scopes = [] ∷ t.scopes })

-- `popScope`
unfoldable pub pop_scope : M (Unit {0})
pop_scope t = some (tt, record t { scopes = pop_of t.scopes })

-- The `set` of a missing scope is an exception.
abbrev pub set_in : Text → IrIdentifier → List Scope → Option (List Scope)
set_in name id [] = none
set_in name id (scope ∷ scopes) = some (set_name name id scope ∷ scopes)

-- `addToScope`
unfoldable pub add_to_scope : Text → IrIdentifier → M (Unit {0})
add_to_scope name id t = elim (set_in name id t.scopes) [
  | none ↦ none
  | some scopes ↦ some (tt, record t { scopes = scopes })
]

-- `exports.push(name)`
unfoldable pub add_export : Text → M (Unit {0})
add_export name t = some (tt, record t { exports = t.exports ++ name ∷ [] })

-- `imports.push(item)`
unfoldable pub add_import : IrImport → M (Unit {0})
add_import item t = some (tt, record t { imports = t.imports ++ item ∷ [] })

-- `{ from, items: [], isNamespace: false }`
unfoldable pub plain_import : Text → IrImport
plain_import from = record { from = from; is_namespace = false; namespace = none }

-- `warn`
unfoldable pub warn : Text → M (Unit {0})
warn message t = some (tt, record t { warnings = t.warnings ++ message ∷ [] })
