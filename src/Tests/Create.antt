-- ===== src/Tests/Create.antt =====
-- The theorems on `createSourceMap` of src/sourcemap/generator.ts at concrete inputs.
use typescript2cxx.Prelude.{ℕ, ◌≡◌, Bool, ◌==◌, none, some, Text, txt, split_lines, length}
use typescript2cxx.SourceMap.Create.{is_header_code, header_generator, source_generator}
use typescript2cxx.SourceMap.Create.Laws.{
  lines_where, pair_up, Follows, mappings-header_generator, source_generator-Follows,
}

abbrev original : Text
original = txt "let x = 1;\nlet y = 2;\n"

abbrev generated : Text
generated = txt "#include <a>\n// x\nauto x = 1;\n\nauto y = 2;\n"

-- A source of random numbers, as a test at each line.
abbrev odd_only : ℕ → Bool
odd_only k = k == 3

mappings-header_generator_example :
    (header_generator original (txt "a.ts") generated none).mappings
    ≡ pair_up
        (txt "a.ts")
        (lines_where is_header_code (split_lines generated) 0)
        0
        (length (split_lines original))
mappings-header_generator_example = mappings-header_generator original (txt "a.ts") generated none

source_generator-Follows_example :
    Follows
      (txt "a.ts")
      (length (split_lines original))
      0
      0
      (source_generator odd_only original (txt "a.ts") generated (some (txt "a.cpp"))).mappings
source_generator-Follows_example =
    source_generator-Follows odd_only original (txt "a.ts") generated (some (txt "a.cpp"))
