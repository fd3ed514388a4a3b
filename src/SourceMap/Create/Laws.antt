-- ===== src/SourceMap/Create/Laws.antt =====
-- Which lines `createSourceMap` of src/sourcemap/generator.ts maps to which.
use typescript2cxx.Prelude.{
  ℕ, zero, suc, ◌+◌, ◌-◌, ◌≤◌, ◌<◌, ◌≡◌, refl, sym, ◌∙◌, inl, inr, Bool, ◌&&◌, true, false,
  Bool-cases, Option, some, none, List, [], ◌∷◌, ◌++◌, append_assoc, append-nil, arith, ltb,
  if◌then◌else◌, length, Text, txt, split_lines,
}
use typescript2cxx.SourceMap.Generator.{
  SourceMapMapping, SourceMapGenerator, str, new_generator, add_source, add_mapping, index_of,
}
use typescript2cxx.SourceMap.Create.{
  is_header_code, is_source_code, header_loop, source_loop, header_generator, source_generator,
  map_line, name_or,
}

-- The numbers of the lines that pass a test.
abbrev pub lines_where : (Text → Bool) → List Text → ℕ → List ℕ
lines_where test [] k = []
lines_where test (line ∷ lines) k =
    let rest = lines_where test lines (k + 1) in if test line then k ∷ rest else rest

-- A mapping from the start of one line to the start of another.
abbrev pub line_pair : Text → ℕ → ℕ → SourceMapMapping
line_pair file k t = record {
  generated_line = k;
  generated_column = 0;
  original_line = t;
  original_column = 0;
  source = some file;
  name = none;
}

-- The lines `ks` paired with `t`, `t + 1`, …, as long as both last.
abbrev pub pair_up : Text → List ℕ → ℕ → ℕ → List SourceMapMapping
pair_up file [] t rounds = []
pair_up file (k ∷ ks) t zero = []
pair_up file (k ∷ ks) t (suc rounds) = line_pair file k t ∷ pair_up file ks (t + 1) rounds

sub_zero : (n : ℕ) → n - 0 ≡ n
sub_zero n = omega arith

pair_up-zero : (file : Text) (ks : List ℕ) (t : ℕ) → pair_up file ks t 0 ≡ []
pair_up-zero file [] t = refl
pair_up-zero file (k ∷ ks) t = refl

module _ (file : Text) (n : ℕ) where
  mappings-map_line :
      (k t : ℕ) (g : SourceMapGenerator)
      → (map_line file n k t g).mappings ≡ g.mappings ++ line_pair file k t ∷ []
  unfolding add_mapping
  mappings-map_line k t g = refl

  mappings-header_loop :
      (lines : List Text) (k t : ℕ) (g : SourceMapGenerator)
      → (header_loop file n lines k t g).mappings
        ≡ g.mappings ++ pair_up file (lines_where is_header_code lines k) t (n - t)
  unfolding header_loop
  mappings-header_loop [] k t g = sym (append-nil g.mappings)
  mappings-header_loop (line ∷ lines) k t g = elim (Bool-cases (is_header_code line)) [
    | inr skip ↦ rw skip (mappings-header_loop lines (k + 1) t g)
    | inl code ↦ elim (Bool-cases (ltb t n)) [
      | inr past ↦
          let e : n - t ≡ 0 = ground arith in
          rw (code, past)
            (mappings-header_loop lines (k + 1) t g
              ∙ rw (e, pair_up-zero file (lines_where is_header_code lines (k + 1)) t))
      | inl more ↦
          let e : n - t ≡ suc (n - (t + 1)) = ground arith in
          rw (code, more, e)
            (mappings-header_loop lines (k + 1) (t + 1) (map_line file n k t g)
              ∙ rw (mappings-map_line, append_assoc))
    ]
  ]

-- The mappings that the source's loop adds from line `k` and original line `t` on: each is on a
-- later generated line, and the original line stays or goes up by one.
pub data Follows (file : Text) (n : ℕ) : ℕ → ℕ → List SourceMapMapping → Type 0 where
  done : {k t : ℕ} → Follows file n k t []
  stay :
      {k t : ℕ} {ms : List SourceMapMapping} (l : ℕ)
      → k ≤ l
      → t < n
      → Follows file n (l + 1) t ms
      → Follows file n k t (line_pair file l t ∷ ms)
  next :
      {k t : ℕ} {ms : List SourceMapMapping} (l : ℕ)
      → k ≤ l
      → t < n
      → Follows file n (l + 1) (t + 1) ms
      → Follows file n k t (line_pair file l t ∷ ms)

module _ (file : Text) (n : ℕ) where
  later :
      {k t : ℕ} {ms : List SourceMapMapping} → Follows file n (k + 1) t ms → Follows file n k t ms
  later done = done
  later (stay l h b f) = stay l (omega arith) b f
  later (next l h b f) = next l (omega arith) b f

  either :
      (b : Bool) {k t : ℕ} {ms : List SourceMapMapping}
      → t < n
      → Follows file n (k + 1) (if b then t + 1 else t) ms
      → Follows file n k t (line_pair file k t ∷ ms)
  either true h f = next _ (omega arith) h f
  either false h f = stay _ (omega arith) h f

  -- Whatever `Math.random` returns, the loop adds mappings that follow one another.
  mappings-source_loop :
      (advances : ℕ → Bool) (lines : List Text) (k t : ℕ) (g : SourceMapGenerator)
      → (ms : List SourceMapMapping) × ((source_loop file n advances lines k t g).mappings
          ≡ g.mappings ++ ms)
        × Follows file n k t ms
  unfolding source_loop
  mappings-source_loop advances [] k t g = ([], sym (append-nil g.mappings), done)
  mappings-source_loop advances (line ∷ lines) k t g =
      elim (Bool-cases (is_source_code line && ltb t n)) [
        | inr skip ↦
            let (ms, e, f) = mappings-source_loop advances lines (k + 1) t g in
            rw skip (ms, e, later f)
        | inl code ↦
            let (ms, e, f) =
              mappings-source_loop advances lines (k + 1) (if advances k then t + 1 else t)
                (map_line file n k t g) in
            rw code (
              line_pair file k t ∷ ms,
              e ∙ rw (mappings-map_line file n k t g, append_assoc),
              either (advances k) (ground arith) f,
            )
      ]

mappings-add_source_new :
    (s file : Text) (name : Text)
    → (add_source file (str s) (new_generator (some name) (some []))).0.mappings ≡ []
unfolding add_source index_of
mappings-add_source_new s file name = refl

-- The mappings of the header's map: its lines of code, which are those that are neither empty nor
-- the start of a comment, are paired in their order with the lines of the original source from the
-- first on, until either runs out.
pub mappings-header_generator :
    (original_source file header : Text) (name : Option Text)
    → (header_generator original_source file header name).mappings
      ≡ pair_up file
          (lines_where is_header_code (split_lines header) 0)
          0
          (length (split_lines original_source))
unfolding header_generator
mappings-header_generator original_source file header name =
    mappings-header_loop file (length (split_lines original_source)) (split_lines header) 0 0 _
    ∙ rw (mappings-add_source_new original_source file (name_or name (txt "output.h")), sub_zero)
        refl

-- Whatever `Math.random` returns, the mappings of the source's map go from one generated line to a
-- later one, start at the first original line, go up by at most one original line at a time, and
-- stay within the original source.
pub source_generator-Follows :
    (advances : ℕ → Bool) (original_source file source : Text) (name : Option Text)
    → Follows file
        (length (split_lines original_source))
        0
        0
        (source_generator advances original_source file source name).mappings
unfolding source_generator
source_generator-Follows advances original_source file source name =
    let (ms, e, f) =
      mappings-source_loop file (length (split_lines original_source)) advances (split_lines source)
        0 0
        (add_source file (str original_source)
          (new_generator (some (name_or name (txt "output.cpp"))) (some []))).0 in
    rw (e, mappings-add_source_new original_source file (name_or name (txt "output.cpp"))) f
