-- ===== src/Tests/SourceMap.antt =====
-- The theorems on src/sourcemap/generator.ts at concrete inputs.
use typescript2cxx.Prelude.{
  ℕ, ◌≤◌, ◌≡◌, Option, none, some, List, [], ◌∷◌, map, arith, length, Text, txt, text_eq,
}
use typescript2cxx.Prelude.Int.{pos, negsuc}
use typescript2cxx.SourceMap.Vlq.{encode_base64_vlq}
use typescript2cxx.SourceMap.Vlq.Laws.{read-encode_base64_vlq, encode_base64_vlq-large}
use typescript2cxx.SourceMap.Decode.{num, tokens, signed}
use typescript2cxx.SourceMap.Read.{decode}
use typescript2cxx.SourceMap.Generator.{
  SourceMapMapping, SourceMapGenerator, generate_source_map, sort_mappings, new_generator,
  encode_mappings, encode_loop, encode_mapping, encode_segment, source_fields, name_fields,
  advance_lines, add_source, add_name, index_of, insert_mapping, compare_mappings, str,
}
use typescript2cxx.SourceMap.Generator.Sort.{IsSorted, sort_mappings-IsSorted}
use typescript2cxx.SourceMap.Generator.Consistent.{
  Call, call, calls, IsConsistent, calls-IsConsistent,
}
use typescript2cxx.SourceMap.Generator.Consistent
use typescript2cxx.SourceMap.Roundtrip.Segment.{view}
use typescript2cxx.SourceMap.Roundtrip.Whole.{decode-generate_source_map}

abbrev at_place : ℕ → ℕ → ℕ → Option Text → SourceMapMapping
at_place line column original name = record {
  generated_line = line;
  generated_column = column;
  original_line = original;
  original_column = 4;
  source = some (txt "a.ts");
  name = name;
}

-- Two mappings that are added in the other order.
abbrev mappings : List SourceMapMapping
mappings = at_place 2 8 5 (some (txt "f")) ∷ at_place 0 3 7 none ∷ []

abbrev generator : SourceMapGenerator
generator = record {
  mappings = mappings;
  sources = [];
  names = [];
  sources_content = [];
  file = some (txt "a.cpp");
  source_root = none;
}

few_sources : length (generate_source_map generator).1.sources ≤ 1073741824
unfolding generate_source_map encode_mappings encode_loop encode_mapping advance_lines
    encode_segment source_fields name_fields add_source add_name index_of sort_mappings
    insert_mapping compare_mappings txt text_eq
few_sources = omega arith

few_names : length (generate_source_map generator).1.names ≤ 1073741824
unfolding generate_source_map encode_mappings encode_loop encode_mapping advance_lines
    encode_segment source_fields name_fields add_source add_name index_of sort_mappings
    insert_mapping compare_mappings txt text_eq
few_names = omega arith

decode-generate_source_map_example :
    decode
      (generate_source_map generator).1.sources
      (generate_source_map generator).1.names
      (generate_source_map generator).1.mappings
    ≡ some (map view (sort_mappings mappings))
decode-generate_source_map_example =
    decode-generate_source_map generator
      (
        record { column = omega arith; original_line = omega arith; original_column = omega arith },
        (
          record {
            column = omega arith;
            original_line = omega arith;
            original_column = omega arith;
          },
          tt,
        ),
      )
      few_sources few_names

read-encode_base64_vlq_example :
    (u : ℕ) × (tokens (encode_base64_vlq (negsuc 99)) ≡ some (num u ∷ [])) × (signed u ≡ negsuc 99)
read-encode_base64_vlq_example = read-encode_base64_vlq (negsuc 99) (omega arith)

encode_base64_vlq-large_example : encode_base64_vlq (pos 1073741824) ≡ encode_base64_vlq (pos 0)
encode_base64_vlq-large_example = encode_base64_vlq-large 1073741824 (omega arith) (omega arith)

sort_mappings-IsSorted_example : IsSorted (sort_mappings mappings)
sort_mappings-IsSorted_example = sort_mappings-IsSorted mappings

abbrev some_calls : List Call
some_calls =
    Consistent.source (txt "a.ts") (str (txt "let x"))
    ∷ Consistent.name (txt "f")
    ∷ Consistent.name (txt "f")
    ∷ Consistent.mapping (at_place 2 8 5 (some (txt "f")))
    ∷ Consistent.generate
    ∷ []

calls-IsConsistent_example :
    IsConsistent (calls some_calls (new_generator none (some (txt "root"))))
calls-IsConsistent_example = calls-IsConsistent none (some (txt "root")) some_calls
