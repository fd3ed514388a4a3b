-- ===== src/Ir/Node.antt =====
-- The nodes of src/ir/nodes.ts, with the fields that the guards of src/ir/type-guards.ts read.
use typescript2cxx.Prelude.{ℕ, Bool, Option}
use typescript2cxx.Ir.Kind.{IrNodeKind}

-- What the field `decorators` holds: an array of so many decorators, or an object.
pub data Decorators : Type 0 where
  array : ℕ → Decorators
  metadata : Decorators

-- The fields of an `IRNode` that the guards read, `none` where the node has no such field.
pub record IrNode : Type 0 where
  pub kind : IrNodeKind
  pub is_async : Option Bool
  pub is_generator : Option Bool
  pub is_exported : Option Bool
  pub decorators : Option Decorators
