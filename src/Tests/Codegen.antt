-- ===== src/Tests/Codegen.antt =====
-- The theorems on src/codegen/generator.ts at concrete inputs.
use typescript2cxx.Prelude.{
  ◌≡◌, refl, ◌<◌, false, some, none, [], ◌∷◌, ◌++◌, arith, if◌then◌else◌, Text, txt, text_eq,
  printed, starts_with, count_units,
}
use typescript2cxx.Codegen.Identifier.{Context, cpp_reserved_words, generate_identifier}
use typescript2cxx.Codegen.Identifier.Laws.{IsFree, named, generate_identifier-IsFree}
use typescript2cxx.Codegen.Literal.{Number, nan, string, generate_literal}
use typescript2cxx.Codegen.Literal.Laws.{read_literal, has_line_feed, read_literal-generate_literal}
use typescript2cxx.Codegen.CppType.{map_type_fuel, map_type}
use typescript2cxx.Codegen.CppType.Laws.{map_type-total, map_type-arrays}
use typescript2cxx.Codegen.Pointers.{apply_memory_management}
use typescript2cxx.Codegen.Pointers.Laws.{
  strategy, manages_itself, apply_memory_management-annotation,
}
use typescript2cxx.Memory.{MemoryAnnotation, get_cpp_pointer_type}

abbrev context : Context
context = record {
  user_namespaces = txt "Math" ∷ [];
  rest_param_mappings = (txt "args", txt "args_array") ∷ [];
}

generate_identifier-IsFree_example :
    IsFree (printed (generate_identifier (named (txt "delete")) context))
unfolding cpp_reserved_words txt text_eq
generate_identifier-IsFree_example =
    generate_identifier-IsFree (named (txt "delete")) context (refl, tt)

-- A conversion that knows no number.
abbrev no_number : Text → Number
no_number s = nan

read_literal-generate_literal_example :
    read_literal (
      generate_literal no_number
        (record { value = string (txt "a\"b\\"); literal_type = txt "string"; cpp_type = none }))
    ≡ (if has_line_feed (txt "a\"b\\") then none else some (txt "a\"b\\"))
read_literal-generate_literal_example =
    read_literal-generate_literal no_number (txt "a\"b\\") (txt "string") none

short : count_units (txt "Promise<number[]> | null") < 40
unfolding txt
short = omega arith

map_type-total_example :
    (cpp : Text) × ((map_type_fuel 40 (txt "Promise<number[]> | null") ≡ some cpp)
      × (map_type (txt "Promise<number[]> | null") ≡ some cpp))
map_type-total_example = map_type-total (txt "Promise<number[]> | null") 40 short

not_js : starts_with (txt "string | number") (txt "js::") ≡ false
unfolding starts_with txt
not_js = refl

map_type-arrays_example :
    map_type (txt "string | number" ++ txt "[]")
    ≡ map_type (txt "Array<" ++ (txt "string | number" ++ txt ">"))
map_type-arrays_example = map_type-arrays (txt "string | number") not_js

apply_memory_management-annotation_example :
    apply_memory_management (txt "Player") (strategy MemoryAnnotation.weak) ≡ (
      if manages_itself MemoryAnnotation.weak (txt "Player")
      then txt "Player"
      else get_cpp_pointer_type MemoryAnnotation.weak (txt "Player"))
apply_memory_management-annotation_example =
    apply_memory_management-annotation MemoryAnnotation.weak (txt "Player")

-- A conversion of a text that is in lower case.
abbrev unchanged : Text → Text
unchanged s = s
