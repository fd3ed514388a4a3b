-- ===== src/Codegen.antt =====
-- The code generator of src/codegen/.
pub mod Identifier
pub mod Literal
pub mod CppType
pub mod Pointers
pub mod Declarations
pub mod Member
pub mod Nodes
pub mod Monad
pub mod Operators
pub mod Infer
pub mod Lexical
pub mod Pieces
pub mod Generate
pub mod Regular
pub mod Imports
pub mod Supers
pub mod Enums
