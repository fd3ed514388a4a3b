-- ===== src/SourceMap/Roundtrip.antt =====
-- The text of `encodeMappings` (src/sourcemap/generator.ts) against the independent reader.
pub mod Segment
mod Written
mod Loop
pub mod Whole
