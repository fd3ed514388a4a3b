-- ===== src/TypeChecker/Flags/Nullable.antt =====
-- The flag `isNullable` of src/type-checker/simple-checker.ts against the C++ type.
use typescript2cxx.TypeChecker.Nodes.{TypeNode, nil, cons, union_type, literal_type, null_keyword}

-- `T | null` as the parser writes it, with `null` as a literal type.
abbrev pub or_null : TypeNode → TypeNode
or_null t = union_type (cons t (cons (literal_type null_keyword) nil))

abbrev pub null_or : TypeNode → TypeNode
null_or t = union_type (cons (literal_type null_keyword) (cons t nil))
