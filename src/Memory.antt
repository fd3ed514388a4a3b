-- ===== src/Memory.antt =====
-- The enum and the two functions of src/memory/annotations.ts on C++ pointer types.
pub mod Parser
use typescript2cxx.Prelude.{
  Bool, true, false, not, ◌||◌, List, [], ◌∷◌, ◌++◌, if◌then◌else◌, Text, txt, text_eq, includes,
  starts_with,
}

pub data MemoryAnnotation : Type 0 where
  none weak unique shared : MemoryAnnotation

abbrev pub is_none : MemoryAnnotation → Bool
is_none none = true
is_none _ = false

unfoldable pub get_cpp_pointer_type : MemoryAnnotation → Text → Text
get_cpp_pointer_type weak base = txt "std::weak_ptr<" ++ base ++ txt ">"
get_cpp_pointer_type unique base = txt "std::unique_ptr<" ++ base ++ txt ">"
get_cpp_pointer_type shared base = txt "std::shared_ptr<" ++ base ++ txt ">"
get_cpp_pointer_type none base = txt "std::shared_ptr<" ++ base ++ txt ">"

abbrev pub primitive_types : List Text
primitive_types =
    txt "number" ∷ txt "string" ∷ txt "boolean" ∷ txt "void" ∷ txt "null" ∷ txt "undefined" ∷ []

-- `s.includes("[]")`
unfoldable pub has_brackets : Text → Bool
has_brackets [] = false
has_brackets (c ∷ s) = starts_with (c ∷ s) (txt "[]") || has_brackets s

-- `shouldUsePointer`, given the language's `toLowerCase`.
unfoldable pub should_use_pointer : (Text → Text) → MemoryAnnotation → Text → Bool
unfolding has_brackets
should_use_pointer to_lower_case annotation name =
    if includes primitive_types (to_lower_case name)
    then false
    else if has_brackets name || text_eq name (txt "object") || not (is_none annotation)
    then true
    else not (includes primitive_types (to_lower_case name))
