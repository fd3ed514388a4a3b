-- ===== src/SourceMap/Roundtrip/Segment.antt =====
-- One segment of src/sourcemap/generator.ts is read back as its mapping.
use typescript2cxx.Prelude.{
  ℕ, ◌<◌, ◌≤◌, ◌≡◌, refl, Option, none, some, List, [], ◌∷◌, ◌++◌, map, arith, length, get_elem?,
  Text, All,
}
use typescript2cxx.Prelude.Int.{ℤ, abs, sub_ℕ, add_ℤ?, add_ℤ?-sub_ℕ, abs-sub_ℕ}
use typescript2cxx.SourceMap.Vlq.{vlq_bits, encode_vlq}
use typescript2cxx.SourceMap.Vlq.Laws.{signed-vlq_bits}
use typescript2cxx.SourceMap.Decode.{signed}
use typescript2cxx.SourceMap.Read.{Original, Decoded, Reader, end_segment}
use typescript2cxx.SourceMap.Generator.{
  SourceMapMapping, SourceMapGenerator, EncodeState, omitted, add_source, add_name, name_fields,
  source_fields, encode_segment,
}
use typescript2cxx.SourceMap.Generator.Laws.{
  IsExtendedBy, get_elem?-lt-length, add_source-get_elem?, add_source-IsExtendedBy,
  names-add_source, add_name-get_elem?, add_name-IsExtendedBy, sources-add_name,
}

-- 2^30
abbrev pub bound : ℕ
bound = 1073741824

-- What a mapping says to a reader: a mapping with no source has no original position and no name.
abbrev pub view_original : SourceMapMapping → Option Text → Option Original
view_original m none = none
view_original m (some s) =
    some (record { source = s; line = m.original_line; column = m.original_column; name = m.name })

abbrev pub view : SourceMapMapping → Decoded
view m = record {
  generated_line = m.generated_line;
  generated_column = m.generated_column;
  original = view_original m m.source;
}

abbrev pub mapping : ℕ → ℕ → ℕ → ℕ → Option Text → Option Text → SourceMapMapping
mapping gl gc ol oc source name = record {
  generated_line = gl;
  generated_column = gc;
  original_line = ol;
  original_column = oc;
  source = source;
  name = name;
}

-- The reader that has read what the encoder has written.
abbrev pub reader_of : EncodeState → List Decoded → Reader
reader_of e out = record {
  line = e.current_line;
  column = e.prev_generated_column;
  source = e.prev_source_index;
  original_line = e.prev_original_line;
  original_column = e.prev_original_column;
  name = e.prev_name_index;
  fields = [];
  out = out;
}

pub record IsSmall (e : EncodeState) : Type 0 where
  pub column : e.prev_generated_column < bound
  pub source : e.prev_source_index < bound
  pub original_line : e.prev_original_line < bound
  pub original_column : e.prev_original_column < bound
  pub name : e.prev_name_index < bound

pub record IsSmallMapping (m : SourceMapMapping) : Type 0 where
  pub column : m.generated_column < bound
  pub original_line : m.original_line < bound
  pub original_column : m.original_column < bound

-- The fields of the segment that `encode_segment` writes.
abbrev pub segment_values : SourceMapMapping → EncodeState → List ℤ
segment_values m e =
    sub_ℕ m.generated_column e.prev_generated_column
    ∷ (source_fields m m.source (record e { prev_generated_column = m.generated_column })).1

read_delta : (a b : ℕ) → a < bound → b < bound → add_ℤ? b (signed (vlq_bits (sub_ℕ a b))) ≡ some a
read_delta a b h k = rw (signed-vlq_bits (sub_ℕ a b) (abs-sub_ℕ a b bound h k)) (add_ℤ?-sub_ℕ a b)

-- The final tables of the source map, which extend those of the state.
pub record Covers (sources names : List Text) (g : SourceMapGenerator) : Type 0 where
  pub of_sources : IsExtendedBy g.sources sources
  pub of_names : IsExtendedBy g.names names

-- A segment changes no line, and adds its text to the open line's segments.
pub record Frame (m : SourceMapMapping) (e : EncodeState) : Type 0 where
  pub lines : (encode_segment m e).lines ≡ e.lines
  pub current_line : (encode_segment m e).current_line ≡ e.current_line
  pub segments : (encode_segment m e).segments ≡ e.segments ++ encode_vlq (segment_values m e) ∷ []
  pub of_sources : IsExtendedBy e.generator.sources (encode_segment m e).generator.sources
  pub of_names : IsExtendedBy e.generator.names (encode_segment m e).generator.names

Frame-of :
    (gl gc ol oc : ℕ) (source name : Option Text) (e : EncodeState)
    → Frame (mapping gl gc ol oc source name) e
unfolding source_fields name_fields encode_segment
Frame-of gl gc ol oc none name e = record {
  lines = refl;
  current_line = refl;
  segments = refl;
  of_sources = λ i x h. h;
  of_names = λ i x h. h;
}
Frame-of gl gc ol oc (some s) none e = record {
  lines = refl;
  current_line = refl;
  segments = refl;
  of_sources = add_source-IsExtendedBy s omitted e.generator;
  of_names = λ i x h. rw (names-add_source s omitted e.generator) h;
}
Frame-of gl gc ol oc (some s) (some n) e = record {
  lines = refl;
  current_line = refl;
  segments = refl;
  of_sources = λ i x h.
      rw (sources-add_name n (add_source s omitted e.generator).0)
        (add_source-IsExtendedBy s omitted e.generator i x h);
  of_names = λ i x h.
      add_name-IsExtendedBy n (add_source s omitted e.generator).0 i x
        (rw (names-add_source s omitted e.generator) h);
}

pub frame : (m : SourceMapMapping) (e : EncodeState) → Frame m e
frame m e =
    Frame-of m.generated_line m.generated_column m.original_line m.original_column m.source m.name e

module _ (sources names : List Text) (few_sources : length sources ≤ bound)
    (few_names : length names ≤ bound) where
  -- What a segment's lemma says.
  abbrev pub Reads : SourceMapMapping → EncodeState → List Decoded → Type 0
  Reads m e out =
      (end_segment sources names (map vlq_bits (segment_values m e))
          (record (reader_of e out) { fields = map vlq_bits (segment_values m e) })
        ≡ some (reader_of (encode_segment m e) (out ++ view m ∷ [])))
      × IsSmall (encode_segment m e)
      × All (λ v. abs v < bound) (segment_values m e)

  reads :
      (gl gc ol oc : ℕ) (source name : Option Text) (e : EncodeState) (out : List Decoded)
      → IsSmall e
      → IsSmallMapping (mapping gl gc ol oc source name)
      → e.current_line ≡ gl
      → Covers sources names (encode_segment (mapping gl gc ol oc source name) e).generator
      → Reads (mapping gl gc ol oc source name) e out
  unfolding source_fields name_fields encode_segment
  reads gl gc ol oc none name e out small sm line cov = (
    rw (read_delta gc e.prev_generated_column sm.column small.column, line) refl,
    record {
      column = sm.column;
      source = small.source;
      original_line = small.original_line;
      original_column = small.original_column;
      name = small.name;
    },
    (abs-sub_ℕ _ _ _ sm.column small.column, tt),
  )
  reads gl gc ol oc (some s) none e out small sm line cov =
      let (g, i) = add_source s omitted e.generator in
      let at_i : get_elem? sources i ≡ some s =
        cov.of_sources i s (add_source-get_elem? s omitted e.generator) in
      let i_small : i < bound = omega (arith, get_elem?-lt-length sources i at_i) in
      (
        rw
            (
              read_delta gc e.prev_generated_column sm.column small.column,
              read_delta i e.prev_source_index i_small small.source,
              read_delta ol e.prev_original_line sm.original_line small.original_line,
              read_delta oc e.prev_original_column sm.original_column small.original_column,
              at_i,
              line,
            )
            refl,
        record {
          column = sm.column;
          source = i_small;
          original_line = sm.original_line;
          original_column = sm.original_column;
          name = small.name;
        },
        (
          abs-sub_ℕ _ _ _ sm.column small.column,
          (
            abs-sub_ℕ _ _ _ i_small small.source,
            (
              abs-sub_ℕ _ _ _ sm.original_line small.original_line,
              (abs-sub_ℕ _ _ _ sm.original_column small.original_column, tt),
            ),
          ),
        ),
      )
  reads gl gc ol oc (some s) (some n) e out small sm line cov =
      let (g, i) = add_source s omitted e.generator in
      let (g', k) = add_name n g in
      let at_i : get_elem? sources i ≡ some s =
        cov.of_sources i s
          (rw (sources-add_name n g) (add_source-get_elem? s omitted e.generator)) in
      let at_k : get_elem? names k ≡ some n = cov.of_names k n (add_name-get_elem? n g) in
      let i_small : i < bound = omega (arith, get_elem?-lt-length sources i at_i) in
      let k_small : k < bound = omega (arith, get_elem?-lt-length names k at_k) in
      (
        rw
            (
              read_delta gc e.prev_generated_column sm.column small.column,
              read_delta i e.prev_source_index i_small small.source,
              read_delta ol e.prev_original_line sm.original_line small.original_line,
              read_delta oc e.prev_original_column sm.original_column small.original_column,
              read_delta k e.prev_name_index k_small small.name,
              at_i,
              at_k,
              line,
            )
            refl,
        record {
          column = sm.column;
          source = i_small;
          original_line = sm.original_line;
          original_column = sm.original_column;
          name = k_small;
        },
        (
          abs-sub_ℕ _ _ _ sm.column small.column,
          (
            abs-sub_ℕ _ _ _ i_small small.source,
            (
              abs-sub_ℕ _ _ _ sm.original_line small.original_line,
              (
                abs-sub_ℕ _ _ _ sm.original_column small.original_column,
                (abs-sub_ℕ _ _ _ k_small small.name, tt),
              ),
            ),
          ),
        ),
      )

  -- The segment of a mapping on the open line is read back as that mapping.
  pub Reads-segment :
      (m : SourceMapMapping) (e : EncodeState) (out : List Decoded)
      → IsSmall e
      → IsSmallMapping m
      → e.current_line ≡ m.generated_line
      → Covers sources names (encode_segment m e).generator
      → Reads m e out
  Reads-segment m e out =
      reads m.generated_line m.generated_column m.original_line m.original_column m.source m.name e
        out
