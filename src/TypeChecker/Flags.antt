-- ===== src/TypeChecker/Flags.antt =====
-- `getTypeFlags`, `resolveTypeNode` and `createUnknownType` of src/type-checker/simple-checker.ts.
pub mod Nullable
use typescript2cxx.Prelude.{Bool, true, false, ◌||◌, Option, some, none, Text, txt, text_eq}
use typescript2cxx.TypeChecker.Nodes.{
  TypeName, Keyword, TypeNode, TypeNodes, TypeFlags, ResolvedType, string, number, boolean, null,
  undefined, object, bigint, keyword, type_reference, array_type, union_type, intersection_type,
  function_type, nil, cons,
}
use typescript2cxx.TypeChecker.Strings.{get_type_string}
use typescript2cxx.TypeChecker.Cpp.{map_to_cpp_type}

abbrev pub primitive_keyword : Keyword → Bool
primitive_keyword string = true
primitive_keyword number = true
primitive_keyword boolean = true
primitive_keyword bigint = true
primitive_keyword _ = false

abbrev pub is_primitive : TypeNode → Bool
is_primitive (keyword k) = primitive_keyword k
is_primitive _ = false

abbrev pub object_keyword : Keyword → Bool
object_keyword object = true
object_keyword _ = false

abbrev pub is_object : TypeNode → Bool
is_object (keyword k) = object_keyword k
is_object (type_reference name args) = true
is_object _ = false

abbrev pub is_array_name : Option TypeName → Bool
is_array_name none = false
is_array_name (some name) = text_eq name.text (txt "Array")

abbrev pub is_array : TypeNode → Bool
is_array (array_type t) = true
is_array (type_reference name args) = is_array_name name
is_array _ = false

abbrev pub is_function : TypeNode → Bool
is_function (function_type ps r) = true
is_function _ = false

abbrev pub nullish_keyword : Keyword → Bool
nullish_keyword null = true
nullish_keyword undefined = true
nullish_keyword _ = false

-- `t.kind === NullKeyword || t.kind === UndefinedKeyword`
abbrev pub is_nullish : TypeNode → Bool
is_nullish (keyword k) = nullish_keyword k
is_nullish _ = false

abbrev pub some_nullish : TypeNodes → Bool
some_nullish nil = false
some_nullish (cons t ts) = is_nullish t || some_nullish ts

abbrev pub is_nullable : TypeNode → Bool
is_nullable (union_type ts) = some_nullish ts
is_nullable _ = false

abbrev pub is_union : TypeNode → Bool
is_union (union_type ts) = true
is_union _ = false

abbrev pub is_intersection : TypeNode → Bool
is_intersection (intersection_type ts) = true
is_intersection _ = false

unfoldable pub get_type_flags : TypeNode → TypeFlags
get_type_flags t = record {
  is_primitive = is_primitive t;
  is_object = is_object t;
  is_array = is_array t;
  is_function = is_function t;
  is_generic = false;
  is_nullable = is_nullable t;
  is_union = is_union t;
  is_intersection = is_intersection t;
  is_literal = false;
  needs_heap_allocation = is_object t || is_array t;
}

unfoldable pub resolve_type_node : TypeNode → ResolvedType
resolve_type_node t = record {
  name = get_type_string t;
  cpp_type = map_to_cpp_type t;
  flags = get_type_flags t;
}

unfoldable pub create_unknown_type : ResolvedType
create_unknown_type = record {
  name = txt "unknown";
  cpp_type = txt "js::any";
  flags = record {
    is_primitive = false;
    is_object = true;
    is_array = false;
    is_function = false;
    is_generic = false;
    is_nullable = true;
    is_union = false;
    is_intersection = false;
    is_literal = false;
    needs_heap_allocation = true;
  };
}
