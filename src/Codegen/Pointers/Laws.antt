-- ===== src/Codegen/Pointers/Laws.antt =====
-- The pointer types of src/codegen/generator.ts and of src/memory/annotations.ts agree.
use typescript2cxx.Prelude.{
  ◌≡◌, refl, inl, inr, Bool, true, false, ◌&&◌, ◌||◌, Bool-cases, arith, if◌then◌else◌, Text, txt,
  text_eq, text_eq→eq, includes, starts_with,
}
use typescript2cxx.Codegen.Pointers.{
  MemoryManagement, shared, unique, weak, auto, is_primitive, pointer_type, apply_memory_management,
}
use typescript2cxx.Memory.{
  MemoryAnnotation, get_cpp_pointer_type, should_use_pointer, primitive_types, is_none,
}

-- The strategy that an annotation asks for.
abbrev pub strategy : MemoryAnnotation → MemoryManagement
strategy MemoryAnnotation.none = auto
strategy MemoryAnnotation.weak = weak
strategy MemoryAnnotation.unique = unique
strategy MemoryAnnotation.shared = shared

-- The types that are never behind a pointer, or not without an annotation.
unfoldable pub manages_itself : MemoryAnnotation → Text → Bool
manages_itself annotation type =
    is_primitive type
    || (is_none annotation && (starts_with type (txt "js::") || text_eq type (txt "auto")))

void_is_primitive : (type : Text) → text_eq type (txt "void") ≡ true → is_primitive type ≡ true
unfolding is_primitive txt text_eq
void_is_primitive type h = rw (text_eq→eq type (txt "void") h) refl

not_void : (type : Text) → is_primitive type ≡ false → text_eq type (txt "void") ≡ false
not_void type h = elim (Bool-cases (text_eq type (txt "void"))) [
  | inl e ↦ let p = void_is_primitive type e in ground arith
  | inr e ↦ e
]

pointer_type-annotation :
    (a : MemoryAnnotation) (type : Text)
    → pointer_type (strategy a) type ≡ (
        if is_none a && (starts_with type (txt "js::") || text_eq type (txt "auto"))
        then type
        else get_cpp_pointer_type a type)
unfolding pointer_type get_cpp_pointer_type
pointer_type-annotation MemoryAnnotation.none type = refl
pointer_type-annotation MemoryAnnotation.weak type = refl
pointer_type-annotation MemoryAnnotation.unique type = refl
pointer_type-annotation MemoryAnnotation.shared type = refl

-- The generator puts a type behind the pointer that the annotation's own function names, and leaves
-- exactly these types as they are: the primitive ones, and without an annotation those of `js::`
-- and `auto`.
pub apply_memory_management-annotation :
    (annotation : MemoryAnnotation) (type : Text)
    → apply_memory_management type (strategy annotation)
      ≡ (if manages_itself annotation type then type else get_cpp_pointer_type annotation type)
unfolding apply_memory_management manages_itself
apply_memory_management-annotation a type = elim (Bool-cases (is_primitive type)) [
  | inl p ↦ rw p refl
  | inr p ↦ rw (p, not_void type p) (pointer_type-annotation a type)
]

-- Whether a type is put behind a pointer does not depend on its annotation.
should_use_pointer-annotation :
    (to_lower_case : Text → Text) (a b : MemoryAnnotation) (name : Text)
    → should_use_pointer to_lower_case a name ≡ should_use_pointer to_lower_case b name
unfolding should_use_pointer
should_use_pointer-annotation to_lower_case a b name =
    elim (Bool-cases (includes primitive_types (to_lower_case name))) [
      | inl p ↦ rw p refl
      | inr p ↦ rw p (ground arith)
    ]
