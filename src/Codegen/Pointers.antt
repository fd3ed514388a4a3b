-- ===== src/Codegen/Pointers.antt =====
-- `isPrimitive` and `applyMemoryManagement` of src/codegen/generator.ts.
pub mod Laws
use typescript2cxx.Prelude.{
  Bool, ◌||◌, List, [], ◌∷◌, ◌++◌, if◌then◌else◌, Text, txt, text_eq, includes, starts_with,
}

-- The enum of src/ir/nodes.ts.
pub data MemoryManagement : Type 0 where
  shared unique weak raw value auto : MemoryManagement

abbrev pub primitive_names : List Text
primitive_names =
    txt "bool"
    ∷ txt "int"
    ∷ txt "double"
    ∷ txt "float"
    ∷ txt "char"
    ∷ txt "void"
    ∷ txt "js::string"
    ∷ txt "js::number"
    ∷ txt "js::undefined_t"
    ∷ txt "js::null_t"
    ∷ txt "js::any"
    ∷ txt "js::Date"
    ∷ txt "js::RegExp"
    ∷ txt "js::Error"
    ∷ []

unfoldable pub is_primitive : Text → Bool
is_primitive type = includes primitive_names type

-- The branches of the `switch`.
unfoldable pub pointer_type : MemoryManagement → Text → Text
pointer_type weak type = txt "std::weak_ptr<" ++ type ++ txt ">"
pointer_type unique type = txt "std::unique_ptr<" ++ type ++ txt ">"
pointer_type shared type = txt "std::shared_ptr<" ++ type ++ txt ">"
pointer_type raw type = type ++ txt "*"
pointer_type value type = type
pointer_type auto type =
    if starts_with type (txt "js::") || text_eq type (txt "auto")
    then type
    else txt "std::shared_ptr<" ++ type ++ txt ">"

unfoldable pub apply_memory_management : Text → MemoryManagement → Text
unfolding is_primitive pointer_type
apply_memory_management type memory =
    if is_primitive type || text_eq type (txt "void") then type else pointer_type memory type
