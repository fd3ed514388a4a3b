-- ===== src/Ir.antt =====
-- The intermediate representation of src/ir/.
pub mod Kind
pub mod Node
pub mod Guards
pub mod Interfaces
