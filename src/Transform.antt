-- ===== src/Transform.antt =====
-- The transformer of src/transform/transformer.ts, from the TypeScript syntax tree to the intermediate
-- representation of src/ir/nodes.ts.
pub mod Ast
pub mod Types
pub mod Operators
pub mod Monad
pub mod Visit
pub mod WellFormed
pub mod Ensures
pub mod Steps
pub mod Total
pub mod Transpile
pub mod Module
pub mod Patterns
