-- ===== src/SourceMap/Generator.antt =====
-- The class `SourceMapGenerator` of src/sourcemap/generator.ts.
pub mod Laws
pub mod Sort
pub mod Consistent
use typescript2cxx.Prelude.{
  ℕ, zero, suc, ◌+◌, ◌-◌, Bool, true, false, Option, none, some, List, [], ◌∷◌, ◌++◌, ltb, ◌==◌,
  if◌then◌else◌, length, set, Text, txt, text_eq, join,
}
use typescript2cxx.Prelude.Int.{ℤ, pos, sub_ℕ, is_nonpos}
use typescript2cxx.SourceMap.Vlq.{encode_vlq}

pub record SourceMapMapping : Type 0 where
  pub generated_line : ℕ
  pub generated_column : ℕ
  pub original_line : ℕ
  pub original_column : ℕ
  pub source : Option Text
  pub name : Option Text

-- `sourcesContent` is left out of the object when it is empty: `none`.
pub record SourceMap : Type 0 where
  pub version : ℕ
  pub file : Option Text
  pub source_root : Option Text
  pub sources : List Text
  pub names : List Text
  pub mappings : Text
  pub sources_content : Option (List (Option Text))

pub record SourceMapGenerator : Type 0 where
  pub mappings : List SourceMapMapping
  pub sources : List Text
  pub names : List Text
  pub sources_content : List (Option Text)
  pub file : Option Text
  pub source_root : Option Text

-- The constructor.
abbrev pub new_generator : Option Text → Option Text → SourceMapGenerator
new_generator file source_root = record {
  mappings = [];
  sources = [];
  names = [];
  sources_content = [];
  file = file;
  source_root = source_root;
}

-- `indexOf`, with `none` for -1.
unfoldable pub index_of : Text → List Text → Option ℕ
index_of s [] = none
index_of s (x ∷ xs) =
    let later = index_of s xs in
    if text_eq x s then some 0 else elim later [ none ↦ none | some i ↦ some (suc i) ]

-- The argument `content?: string | null`.
pub data Content : Type 0 where
  omitted null : Content
  str : Text → Content

-- `content || null`: an empty text is stored as `null`.
abbrev pub content_or_null : Content → Option Text
content_or_null omitted = none
content_or_null null = none
content_or_null (str []) = none
content_or_null (str (c ∷ s)) = some (c ∷ s)

-- `if (content !== undefined) { this.sourcesContent[index] = content; }`
abbrev pub write_content : List (Option Text) → ℕ → Content → List (Option Text)
write_content contents i omitted = contents
write_content contents i null = set contents i none
write_content contents i (str s) = set contents i (some s)

unfoldable pub add_source : Text → Content → SourceMapGenerator → SourceMapGenerator × ℕ
add_source source content g = elim (index_of source g.sources) [
  | some i ↦ (record g { sources_content = write_content g.sources_content i content }, i)
  | none ↦ (
    record g {
      sources = g.sources ++ source ∷ [];
      sources_content = g.sources_content ++ content_or_null content ∷ [];
    },
    length (g.sources ++ source ∷ []) - 1,
  )
]

unfoldable pub add_name : Text → SourceMapGenerator → SourceMapGenerator × ℕ
add_name name g = elim (index_of name g.names) [
  | some i ↦ (g, i)
  | none ↦ (record g { names = g.names ++ name ∷ [] }, length (g.names ++ name ∷ []) - 1)
]

unfoldable pub add_mapping : SourceMapMapping → SourceMapGenerator → SourceMapGenerator
add_mapping m g = record g { mappings = g.mappings ++ m ∷ [] }

-- The comparison that `generateSourceMap` sorts by.
unfoldable pub compare_mappings : SourceMapMapping → SourceMapMapping → ℤ
compare_mappings a b =
    if a.generated_line == b.generated_line
    then sub_ℕ a.generated_column b.generated_column
    else sub_ℕ a.generated_line b.generated_line

-- `Array.prototype.sort`, which is stable: an element is put before the first one that it is not
-- greater than.
unfoldable pub insert_mapping : SourceMapMapping → List SourceMapMapping → List SourceMapMapping
insert_mapping m [] = m ∷ []
insert_mapping m (x ∷ xs) =
    let later = insert_mapping m xs in
    if is_nonpos (compare_mappings m x) then m ∷ (x ∷ xs) else x ∷ later

unfoldable pub sort_mappings : List SourceMapMapping → List SourceMapMapping
sort_mappings [] = []
sort_mappings (m ∷ ms) = insert_mapping m (sort_mappings ms)

-- The variables of `encodeMappings`, and the generator whose methods it calls.
pub record EncodeState : Type 0 where
  pub generator : SourceMapGenerator
  pub lines : List Text
  pub current_line : ℕ
  pub segments : List Text
  pub prev_generated_column : ℕ
  pub prev_source_index : ℕ
  pub prev_original_line : ℕ
  pub prev_original_column : ℕ
  pub prev_name_index : ℕ

-- `while (currentLine < mapping.generatedLine) { … }`, by the rounds that are left.
unfoldable pub advance_lines : ℕ → EncodeState → EncodeState
advance_lines zero e = e
advance_lines (suc rounds) e = advance_lines rounds (record e {
  lines = e.lines ++ join (txt ",") e.segments ∷ [];
  segments = [];
  current_line = e.current_line + 1;
  prev_generated_column = 0;
})

-- The name's part of a segment.
unfoldable pub name_fields : Option Text → EncodeState → EncodeState × List ℤ
name_fields none e = (e, [])
name_fields (some name) e =
    let (g, name_index) = add_name name e.generator in
    (
      record e { generator = g; prev_name_index = name_index },
      sub_ℕ name_index e.prev_name_index ∷ [],
    )

-- The source's part of a segment, with the name's part after it.
unfoldable pub source_fields : SourceMapMapping → Option Text → EncodeState → EncodeState × List ℤ
unfolding name_fields
source_fields m none e = (e, [])
source_fields m (some source) e =
    let (g, source_index) = add_source source omitted e.generator in
    let (e', fields) = name_fields m.name (record e {
      generator = g;
      prev_source_index = source_index;
      prev_original_line = m.original_line;
      prev_original_column = m.original_column;
    }) in
    (
      e',
      sub_ℕ source_index e.prev_source_index
          ∷ sub_ℕ m.original_line e.prev_original_line
          ∷ sub_ℕ m.original_column e.prev_original_column
          ∷ fields,
    )

-- One round of `for (const mapping of this.mappings)`, after the lines are advanced.
unfoldable pub encode_segment : SourceMapMapping → EncodeState → EncodeState
unfolding source_fields
encode_segment m e =
    let (e', fields) =
      source_fields m m.source (record e { prev_generated_column = m.generated_column }) in
    record e' {
      segments =
          e'.segments
          ++ encode_vlq (sub_ℕ m.generated_column e.prev_generated_column ∷ fields) ∷ [];
    }

unfoldable pub encode_mapping : SourceMapMapping → EncodeState → EncodeState
unfolding advance_lines encode_segment
encode_mapping m e = encode_segment m (advance_lines (m.generated_line - e.current_line) e)

unfoldable pub encode_loop : List SourceMapMapping → EncodeState → EncodeState
encode_loop [] e = e
encode_loop (m ∷ ms) e = encode_loop ms (encode_mapping m e)

abbrev pub encode_start : SourceMapGenerator → EncodeState
encode_start g = record {
  generator = g;
  lines = [];
  current_line = 0;
  segments = [];
  prev_generated_column = 0;
  prev_source_index = 0;
  prev_original_line = 0;
  prev_original_column = 0;
  prev_name_index = 0;
}

-- `if (segments.length > 0) { lines.push(segments.join(",")); }`
abbrev pub last_line : List Text → List Text → List Text
last_line lines [] = lines
last_line lines (s ∷ segments) = lines ++ join (txt ",") (s ∷ segments) ∷ []

abbrev pub encode_finish : EncodeState → SourceMapGenerator × Text
encode_finish e = (e.generator, join (txt ";") (last_line e.lines e.segments))

-- The early return at no mapping, and the loop. The method adds sources and names to the generator.
unfoldable pub encode_mappings : SourceMapGenerator → SourceMapGenerator × Text
encode_mappings g = elim g.mappings [
  | [] ↦ (g, [])
  | m ∷ ms ↦ encode_finish (encode_loop (m ∷ ms) (encode_start g))
]

abbrev pub content_field : List (Option Text) → Option (List (Option Text))
content_field [] = none
content_field (c ∷ cs) = some (c ∷ cs)

-- `sources` and `names` are the generator's own arrays, to which `encodeMappings` adds while the
-- object is built; the object holds them as they are at its end.
unfoldable pub generate_source_map : SourceMapGenerator → SourceMapGenerator × SourceMap
generate_source_map g =
    let (g', text) = encode_mappings (record g { mappings = sort_mappings g.mappings }) in
    (
      g',
      record {
        version = 3;
        file = g.file;
        source_root = g.source_root;
        sources = g'.sources;
        names = g'.names;
        mappings = text;
        sources_content = content_field g'.sources_content;
      },
    )
