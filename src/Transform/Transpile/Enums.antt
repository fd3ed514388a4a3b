-- ===== src/Transform/Transpile/Enums.antt =====
-- Enum declarations through src/transform/transformer.ts and `generateEnum` of
-- src/codegen/generator.ts.
use typescript2cxx.Transform.Ensures.{Ensures}
