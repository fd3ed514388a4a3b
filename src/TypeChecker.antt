-- ===== src/TypeChecker.antt =====
-- The type checker of src/type-checker/: type nodes, and what the checker makes of them.
pub mod Nodes
pub mod Strings
pub mod Cpp
pub mod Flags
