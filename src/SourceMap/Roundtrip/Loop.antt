-- ===== src/SourceMap/Roundtrip/Loop.antt =====
-- The loop of `encodeMappings` in src/sourcemap/generator.ts, over all mappings.
use typescript2cxx.Prelude.{
  ℕ, zero, suc, ◌+◌, ◌-◌, ◌≤◌, ◌≡◌, ◌≢◌, refl, sym, ◌∙◌, List, [], ◌∷◌, ◌++◌, map, arith, length,
  Text, All, append_assoc, append-nil,
}
use typescript2cxx.SourceMap.Read.{Decoded}
use typescript2cxx.SourceMap.Generator.{
  SourceMapMapping, EncodeState, advance_lines, encode_mapping, encode_loop,
}
use typescript2cxx.SourceMap.Generator.Sort.{IsBefore, earlier_line, same_line, IsSorted}
use typescript2cxx.SourceMap.Roundtrip.Segment.{bound, view, IsSmall, IsSmallMapping, Covers, frame}
use typescript2cxx.SourceMap.Roundtrip.Written.{
  Written, Written-next_line, Written-segment, next_line, concat-ne-nil,
}

-- The mappings' lines are at least `k` and do not fall.
abbrev pub FromLine : ℕ → List SourceMapMapping → Type 0
FromLine k [] = Unit
FromLine k (m ∷ ms) = (k ≤ m.generated_line) × FromLine m.generated_line ms

line_le : {a b : SourceMapMapping} → IsBefore a b → a.generated_line ≤ b.generated_line
line_le (earlier_line p) = omega arith
line_le (same_line p q) = omega arith

pub FromLine-of_IsSorted :
    (k : ℕ) (ms : List SourceMapMapping)
    → IsSorted ms
    → All (λ m. k ≤ m.generated_line) ms
    → FromLine k ms
FromLine-of_IsSorted k [] s h = tt
FromLine-of_IsSorted k (m ∷ ms) (p, s) (h, hs) =
    (h, FromLine-of_IsSorted m.generated_line ms s (lines ms p))
  where
    lines :
        (ns : List SourceMapMapping)
        → All (IsBefore m) ns
        → All (λ n. m.generated_line ≤ n.generated_line) ns
    lines [] q = tt
    lines (n ∷ ns) (q, qs) = (line_le q, lines ns qs)

-- What advancing the lines leaves alone, and where it ends.
record Advanced (rounds : ℕ) (e e' : EncodeState) : Type 0 where
  generator : e'.generator ≡ e.generator
  current_line : e'.current_line ≡ e.current_line + rounds

advanced : (rounds : ℕ) (e : EncodeState) → Advanced rounds e (advance_lines rounds e)
unfolding advance_lines
advanced zero e = record { generator = refl; current_line = omega arith }
advanced (suc rounds) e =
    let a = advanced rounds (next_line e) in
    record { generator = a.generator; current_line = a.current_line ∙ omega arith }

IsSmall-next_line : (e : EncodeState) → IsSmall e → IsSmall (next_line e)
IsSmall-next_line e s = record {
  column = omega arith;
  source = s.source;
  original_line = s.original_line;
  original_column = s.original_column;
  name = s.name;
}

IsSmall-advance_lines :
    (rounds : ℕ) (e : EncodeState) → IsSmall e → IsSmall (advance_lines rounds e)
unfolding advance_lines
IsSmall-advance_lines zero e s = s
IsSmall-advance_lines (suc rounds) e s =
    IsSmall-advance_lines rounds (next_line e) (IsSmall-next_line e s)

generator_grows :
    (m : SourceMapMapping) (e : EncodeState) (sources names : List Text)
    → Covers sources names (encode_mapping m e).generator
    → Covers sources names e.generator
unfolding encode_mapping
generator_grows m e sources names c =
    let e' = advance_lines (m.generated_line - e.current_line) e in
    let f = frame m e' in
    let a = advanced (m.generated_line - e.current_line) e in
    rw (← a.generator) (record {
      of_sources = λ i x h. c.of_sources i x (f.of_sources i x h);
      of_names = λ i x h. c.of_names i x (f.of_names i x h);
    })

Covers-encode_loop :
    (ms : List SourceMapMapping) (e : EncodeState) (sources names : List Text)
    → Covers sources names (encode_loop ms e).generator
    → Covers sources names e.generator
unfolding encode_loop
Covers-encode_loop [] e sources names c = c
Covers-encode_loop (m ∷ ms) e sources names c =
    generator_grows m e sources names (Covers-encode_loop ms (encode_mapping m e) sources names c)

encode_mapping-ne_nil :
    (m : SourceMapMapping) (e : EncodeState) → (encode_mapping m e).segments ≢ []
unfolding encode_mapping
encode_mapping-ne_nil m e h =
    concat-ne-nil _ _
      (sym (frame m (advance_lines (m.generated_line - e.current_line) e)).segments ∙ h)

pub encode_loop-ne_nil :
    (m : SourceMapMapping) (ms : List SourceMapMapping) (e : EncodeState)
    → (encode_loop (m ∷ ms) e).segments ≢ []
unfolding encode_loop
encode_loop-ne_nil m [] e = encode_mapping-ne_nil m e
encode_loop-ne_nil m (n ∷ ms) e = encode_loop-ne_nil n ms (encode_mapping m e)

module _ (sources names : List Text) (few_sources : length sources ≤ bound)
    (few_names : length names ≤ bound) where
  Written-advance_lines :
      (rounds : ℕ) (e : EncodeState) (out : List Decoded)
      → Written sources names e out
      → Written sources names (advance_lines rounds e) out
  unfolding advance_lines
  Written-advance_lines zero e out w = w
  Written-advance_lines (suc rounds) e out w =
      Written-advance_lines rounds (next_line e) out (Written-next_line sources names e out w)

  Written-encode_mapping :
      (m : SourceMapMapping) (e : EncodeState) (out : List Decoded)
      → IsSmall e
      → IsSmallMapping m
      → e.current_line ≤ m.generated_line
      → Covers sources names (encode_mapping m e).generator
      → Written sources names e out
      → Written sources names (encode_mapping m e) (out ++ view m ∷ [])
        × IsSmall (encode_mapping m e)
        × ((encode_mapping m e).current_line ≡ m.generated_line)
  unfolding encode_mapping
  Written-encode_mapping m e out small sm line cov w =
      let rounds = m.generated_line - e.current_line in
      let e' = advance_lines rounds e in
      let a = advanced rounds e in
      let here : e'.current_line ≡ m.generated_line = a.current_line ∙ omega arith in
      let s =
        Written-segment sources names few_sources few_names m e' out
          (IsSmall-advance_lines rounds e small) sm here cov
          (Written-advance_lines rounds e out w) in
      (s.0, s.1, (frame m e').current_line ∙ here)

  -- All the mappings that the loop is given are read back, in their order.
  pub Written-encode_loop :
      (ms : List SourceMapMapping) (e : EncodeState) (out : List Decoded)
      → IsSmall e
      → All IsSmallMapping ms
      → FromLine e.current_line ms
      → Covers sources names (encode_loop ms e).generator
      → Written sources names e out
      → Written sources names (encode_loop ms e) (out ++ map view ms)
  unfolding encode_loop
  Written-encode_loop [] e out small sms lines cov w = rw append-nil w
  Written-encode_loop (m ∷ ms) e out small (sm, sms) (line, lines) cov w =
      let (w', small', here) =
        Written-encode_mapping m e out small sm line
          (Covers-encode_loop ms (encode_mapping m e) sources names cov) w in
      rw (← append_assoc out (view m ∷ []) (map view ms)) (
        Written-encode_loop ms (encode_mapping m e) (out ++ view m ∷ []) small' sms (rw here lines)
          cov w')
