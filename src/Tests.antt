-- ===== src/Tests.antt =====
-- The theorems at concrete inputs.
pub mod SourceMap
pub mod Create
pub mod TypeChecker
pub mod Codegen
pub mod Other
pub mod Generate
pub mod Imports
pub mod Transform
