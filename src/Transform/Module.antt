-- ===== src/Transform/Module.antt =====
-- The declarations and the modules of src/transform/transformer.ts.
pub mod Ast
pub mod Ir
pub mod Members
pub mod Visit
pub mod WellFormed
pub mod Total
pub mod Annotations
