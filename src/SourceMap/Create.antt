-- ===== src/SourceMap/Create.antt =====
-- `createSourceMap` of src/sourcemap/generator.ts. `JSON.stringify` of the map is left to the caller,
-- and `Math.random() > 0.3` is a function of the line at which it is asked.
pub mod Laws
use typescript2cxx.Prelude.{
  ℕ, suc, ◌+◌, Bool, ◌&&◌, ◌||◌, not, true, false, Option, some, none, List, [], ◌∷◌, ltb,
  if◌then◌else◌, length, Text, txt, trim, starts_with, split_lines, is_empty,
}
use typescript2cxx.SourceMap.Generator.{
  SourceMap, SourceMapGenerator, str, new_generator, add_source, add_mapping, generate_source_map,
}

-- `line.trim() && !line.trim().startsWith("//") && !line.trim().startsWith("/*")`
unfoldable pub is_header_code : Text → Bool
is_header_code line =
    not (is_empty (trim line))
    && not (starts_with (trim line) (txt "//"))
    && not (starts_with (trim line) (txt "/*"))

unfoldable pub is_source_code : Text → Bool
is_source_code line =
    not (is_empty (trim line))
    && not (starts_with (trim line) (txt "//"))
    && not (starts_with (trim line) (txt "/*"))
    && not (starts_with (trim line) (txt "#include"))

module _ (original_filename : Text) (original_lines : ℕ) where
  -- One call of `addMapping`, at column 0.
  abbrev pub map_line : ℕ → ℕ → SourceMapGenerator → SourceMapGenerator
  map_line cpp_line ts_line g =
      add_mapping
        (record {
          generated_line = cpp_line;
          generated_column = 0;
          original_line = ts_line;
          original_column = 0;
          source = some original_filename;
          name = none;
        })
        g

  -- The loop over the header's lines, from `cpp_line` on.
  unfoldable pub header_loop : List Text → ℕ → ℕ → SourceMapGenerator → SourceMapGenerator
  header_loop [] cpp_line ts_line g = g
  header_loop (line ∷ lines) cpp_line ts_line g =
      let mapped = header_loop lines (cpp_line + 1) (ts_line + 1) (map_line cpp_line ts_line g) in
      let skipped = header_loop lines (cpp_line + 1) ts_line g in
      if is_header_code line && ltb ts_line original_lines then mapped else skipped

  -- The loop over the source's lines; `advances` is the outcome of `Math.random() > 0.3`.
  unfoldable pub source_loop :
      (ℕ → Bool) → List Text → ℕ → ℕ → SourceMapGenerator → SourceMapGenerator
  source_loop advances [] cpp_line ts_line g = g
  source_loop advances (line ∷ lines) cpp_line ts_line g =
      let mapped =
        source_loop advances lines (cpp_line + 1)
          (if advances cpp_line then ts_line + 1 else ts_line) (map_line cpp_line ts_line g) in
      let skipped = source_loop advances lines (cpp_line + 1) ts_line g in
      if is_source_code line && ltb ts_line original_lines then mapped else skipped

-- `headerFilename || "output.h"`: an empty name counts as none.
abbrev pub name_or : Option Text → Text → Text
name_or none default = default
name_or (some []) default = default
name_or (some (c ∷ s)) default = c ∷ s

unfoldable pub header_generator : Text → Text → Text → Option Text → SourceMapGenerator
header_generator original_source original_filename generated_header header_filename =
    header_loop original_filename (length (split_lines original_source))
      (split_lines generated_header) 0 0
      (add_source original_filename (str original_source)
        (new_generator (some (name_or header_filename (txt "output.h"))) (some []))).0

unfoldable pub source_generator : (ℕ → Bool) → Text → Text → Text → Option Text → SourceMapGenerator
source_generator advances original_source original_filename generated_source source_filename =
    source_loop original_filename (length (split_lines original_source)) advances
      (split_lines generated_source) 0 0
      (add_source original_filename (str original_source)
        (new_generator (some (name_or source_filename (txt "output.cpp"))) (some []))).0

unfoldable pub create_source_map :
    (ℕ → Bool) → Text → Text → Text → Text → Option Text → Option Text → SourceMap × SourceMap
unfolding header_generator source_generator
create_source_map advances original_source original_filename generated_header generated_source
      header_filename source_filename =
    (
      (generate_source_map
          (header_generator original_source original_filename generated_header header_filename)).1,
      (generate_source_map (
          source_generator advances original_source original_filename generated_source
            source_filename)).1,
    )
