-- ===== src/SourceMap.antt =====
-- The source maps of src/sourcemap/generator.ts.
pub mod Vlq
pub mod Decode
pub mod Read
pub mod Generator
pub mod Roundtrip
pub mod Create
