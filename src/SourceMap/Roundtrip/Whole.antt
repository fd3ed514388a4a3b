-- ===== src/SourceMap/Roundtrip/Whole.antt =====
-- The source map that `generateSourceMap` of src/sourcemap/generator.ts returns, against the reader.
use typescript2cxx.Prelude.{
  ◌≤◌, ◌≡◌, ◌≢◌, refl, some, List, [], ◌∷◌, ◌++◌, map, arith, length, Text, txt, All, join,
}
use typescript2cxx.SourceMap.Decode.{tokens}
use typescript2cxx.SourceMap.Vlq.Laws.{tokens-nil}
use typescript2cxx.SourceMap.Read.{decode, flush, run, reader_start}
use typescript2cxx.SourceMap.Generator.{
  SourceMapMapping, SourceMapGenerator, EncodeState, encode_start, last_line, encode_finish,
  encode_loop, encode_mappings, generate_source_map, sort_mappings,
}
use typescript2cxx.SourceMap.Generator.Sort.{IsSorted, sort_mappings-IsSorted, All-sort_mappings}
use typescript2cxx.SourceMap.Roundtrip.Segment.{bound, view, IsSmall, IsSmallMapping}
use typescript2cxx.SourceMap.Roundtrip.Written.{Written, written, terminated, join-concat}
use typescript2cxx.SourceMap.Roundtrip.Loop.{
  Written-encode_loop, encode_loop-ne_nil, FromLine-of_IsSorted,
}

join-last_line :
    (lines segments : List Text)
    → segments ≢ []
    → join (txt ";") (last_line lines segments)
      ≡ terminated (txt ";") lines ++ join (txt ",") segments
join-last_line lines [] h = absurd (h refl)
join-last_line lines (s ∷ segments) h = join-concat (txt ";") lines (join (txt ",") (s ∷ segments))

module _ (sources names : List Text) where
  decode-written :
      (e : EncodeState) (out : _)
      → Written sources names e out
      → decode sources names (written e) ≡ some out
  unfolding decode
  decode-written e out w = rw (w.is_read, w.is_run, w.is_flushed) refl

  Written-encode_start : (g : SourceMapGenerator) → Written sources names (encode_start g) []
  unfolding run flush
  Written-encode_start g = record {
    read = [];
    last = reader_start;
    is_read = tokens-nil;
    is_run = refl;
    is_flushed = refl;
    is_fresh = λ _. refl;
  }

decode-nil : (sources names : List Text) → decode sources names [] ≡ some []
unfolding decode run flush tokens
decode-nil sources names = refl

All-lines : (ms : List SourceMapMapping) → All (λ m. 0 ≤ m.generated_line) ms
All-lines [] = tt
All-lines (m ∷ ms) = (omega arith, All-lines ms)

IsSmall-encode_start : (g : SourceMapGenerator) → IsSmall (encode_start g)
IsSmall-encode_start g = omega arith

decode-encode_finish :
    (m : SourceMapMapping) (ms : List SourceMapMapping) (g : SourceMapGenerator)
    → IsSorted (m ∷ ms)
    → All IsSmallMapping (m ∷ ms)
    → length (encode_finish (encode_loop (m ∷ ms) (encode_start g))).0.sources ≤ bound
    → length (encode_finish (encode_loop (m ∷ ms) (encode_start g))).0.names ≤ bound
    → decode
        (encode_finish (encode_loop (m ∷ ms) (encode_start g))).0.sources
        (encode_finish (encode_loop (m ∷ ms) (encode_start g))).0.names
        (encode_finish (encode_loop (m ∷ ms) (encode_start g))).1
      ≡ some (map view (m ∷ ms))
decode-encode_finish m ms g sorted small few_sources few_names =
    let e = encode_loop (m ∷ ms) (encode_start g) in
    let sources = e.generator.sources in
    let names = e.generator.names in
    rw (join-last_line e.lines e.segments (encode_loop-ne_nil m ms (encode_start g))) (
      decode-written sources names e (map view (m ∷ ms)) (
        Written-encode_loop sources names few_sources few_names (m ∷ ms) (encode_start g) []
          (IsSmall-encode_start g) small
          (FromLine-of_IsSorted 0 (m ∷ ms) sorted (All-lines (m ∷ ms)))
          (record { of_sources = λ i x h. h; of_names = λ i x h. h })
          (Written-encode_start sources names g)))

decode-encode_mappings :
    (ms : List SourceMapMapping) (g : SourceMapGenerator)
    → IsSorted ms
    → All IsSmallMapping ms
    → length (encode_mappings (record g { mappings = ms })).0.sources ≤ bound
    → length (encode_mappings (record g { mappings = ms })).0.names ≤ bound
    → decode
        (encode_mappings (record g { mappings = ms })).0.sources
        (encode_mappings (record g { mappings = ms })).0.names
        (encode_mappings (record g { mappings = ms })).1
      ≡ some (map view ms)
unfolding encode_mappings
decode-encode_mappings [] g sorted small few_sources few_names = decode-nil g.sources g.names
decode-encode_mappings (m ∷ ms) g sorted small few_sources few_names =
    decode-encode_finish m ms (record g { mappings = m ∷ ms }) sorted small few_sources few_names

-- A reader of the source map gets back every mapping that was added, in the order of the generated
-- positions: its generated line and column and, where it has a source, that source, the original
-- line and column, and its name. The columns and original positions are below 2^30, and there are at
-- most 2^30 sources and names.
pub decode-generate_source_map :
    (g : SourceMapGenerator)
    → All IsSmallMapping g.mappings
    → length (generate_source_map g).1.sources ≤ bound
    → length (generate_source_map g).1.names ≤ bound
    → decode
        (generate_source_map g).1.sources
        (generate_source_map g).1.names
        (generate_source_map g).1.mappings
      ≡ some (map view (sort_mappings g.mappings))
unfolding generate_source_map
decode-generate_source_map g small few_sources few_names =
    decode-encode_mappings (sort_mappings g.mappings) g (sort_mappings-IsSorted g.mappings)
      (All-sort_mappings IsSmallMapping g.mappings small) few_sources few_names
