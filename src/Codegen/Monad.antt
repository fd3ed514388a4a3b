-- ===== src/Codegen/Monad.antt =====
-- What the methods of src/codegen/generator.ts read, the state that they change, and the exceptions
-- that they throw.
use typescript2cxx.Prelude.{
  ℕ, suc, ◌+◌, ◌-◌, Bool, Option, none, some, List, [], ◌∷◌, ◌++◌, Text, includes, if◌then◌else◌,
}
use typescript2cxx.Codegen.Identifier.{Context}
use typescript2cxx.Codegen.Literal.{Number}

-- The fields of the `CodeGenContext` that stay as they are, and the language's own conversions: how
-- a number is written, what number a text is, and the two letter cases.
pub record Reader : Type 0 where
  pub names : Context
  pub namespace_imports : List (Text × Text)
  pub current_class : Option Text
  pub current_base_class : Option Text
  pub is_header : Bool
  pub is_async : Bool
  pub show : ℕ → Text
  pub to_number : Text → Number
  pub to_lower_case : Text → Text
  pub to_upper_case : Text → Text

-- `context.indent`, `context.includes` and `tempVarCounter`.
pub record Generator : Type 0 where
  pub indent : ℕ
  pub includes : List Text
  pub temps : ℕ

-- `none` is a `TypeError` of the language.
abbrev pub M : Type 0 → Type 0
M A = Generator → Option (A × Generator)

infixl 5 ◌>>=◌ ◌>>◌
abbrev pub ◌>>=◌ : {A B : Type 0} → M A → (A → M B) → M B
◌>>=◌ m f g = elim (m g) [ none ↦ none | some (a, g') ↦ f a g' ]

abbrev pub ◌>>◌ : {B : Type 0} → M (Unit {0}) → M B → M B
m >> k = m >>= λ _. k

abbrev pub pure : {A : Type 0} → A → M A
pure a g = some (a, g)

-- A result that may be missing.
abbrev pub lift : {A : Type 0} → Option A → M A
lift none g = none
lift (some a) g = some (a, g)

-- `context.indent++` and `context.indent--`.
unfoldable pub deeper : M (Unit {0})
deeper g = some (tt, record g { indent = g.indent + 1 })

unfoldable pub shallower : M (Unit {0})
shallower g = some (tt, record g { indent = g.indent - 1 })

unfoldable pub get_indent : M ℕ
get_indent g = some (g.indent, g)

-- `context.includes.add(…)`
unfoldable pub add_include : Text → M (Unit {0})
add_include file g = some (
  tt,
  record g { includes = if includes g.includes file then g.includes else g.includes ++ file ∷ [] },
)

-- `generateTempVar`
unfoldable pub next_temp : M ℕ
next_temp g = some (g.temps, record g { temps = suc g.temps })
