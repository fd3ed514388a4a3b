-- ===== src/SourceMap/Read.antt =====
-- The second half of the independent reader of `mappings`: the tokens of src/sourcemap/generator.ts's
-- output, read as the source map format says: fields are deltas, a `;` ends a generated line and
-- starts the next one at column 0.
use typescript2cxx.Prelude.{
  ℕ, ◌+◌, ◌≡◌, refl, inl, inr, Option, none, some, List, [], ◌∷◌, ◌++◌, get_elem?, Text,
  Option-cases,
}
use typescript2cxx.Prelude.Int.{add_ℤ?}
use typescript2cxx.SourceMap.Decode.{Token, num, comma, semicolon, tokens, signed, ◌>>=◌}

pub record Original : Type 0 where
  pub source : Text
  pub line : ℕ
  pub column : ℕ
  pub name : Option Text

pub record Decoded : Type 0 where
  pub generated_line : ℕ
  pub generated_column : ℕ
  pub original : Option Original

-- The values that the deltas refer to, the fields of the segment that is being read, and what has
-- been read.
pub record Reader : Type 0 where
  pub line : ℕ
  pub column : ℕ
  pub source : ℕ
  pub original_line : ℕ
  pub original_column : ℕ
  pub name : ℕ
  pub fields : List ℕ
  pub out : List Decoded

abbrev pub reader_start : Reader
reader_start = record {
  line = 0;
  column = 0;
  source = 0;
  original_line = 0;
  original_column = 0;
  name = 0;
  fields = [];
  out = [];
}

module _ (sources names : List Text) where
  -- The end of a segment of one, four or five fields; an empty one says nothing.
  abbrev pub end_segment : List ℕ → Reader → Option Reader
  end_segment [] r = some r
  end_segment (c ∷ []) r = do
    column ← add_ℤ? r.column (signed c)
    some (record r {
      column = column;
      fields = [];
      out =
          r.out
          ++ record { generated_line = r.line; generated_column = column; original = none } ∷ [];
    })
  end_segment (c ∷ s ∷ l ∷ k ∷ []) r = do
    column ← add_ℤ? r.column (signed c)
    source ← add_ℤ? r.source (signed s)
    original_line ← add_ℤ? r.original_line (signed l)
    original_column ← add_ℤ? r.original_column (signed k)
    file ← get_elem? sources source
    some (record r {
      column = column;
      source = source;
      original_line = original_line;
      original_column = original_column;
      fields = [];
      out =
          r.out
          ++ record {
            generated_line = r.line;
            generated_column = column;
            original = some (record {
              source = file;
              line = original_line;
              column = original_column;
              name = none;
            });
          }
            ∷ [];
    })
  end_segment (c ∷ s ∷ l ∷ k ∷ n ∷ []) r = do
    column ← add_ℤ? r.column (signed c)
    source ← add_ℤ? r.source (signed s)
    original_line ← add_ℤ? r.original_line (signed l)
    original_column ← add_ℤ? r.original_column (signed k)
    name ← add_ℤ? r.name (signed n)
    file ← get_elem? sources source
    word ← get_elem? names name
    some (record r {
      column = column;
      source = source;
      original_line = original_line;
      original_column = original_column;
      name = name;
      fields = [];
      out =
          r.out
          ++ record {
            generated_line = r.line;
            generated_column = column;
            original = some (record {
              source = file;
              line = original_line;
              column = original_column;
              name = some word;
            });
          }
            ∷ [];
    })
  end_segment _ r = none

  unfoldable pub flush : Reader → Option Reader
  flush r = end_segment r.fields r

  unfoldable pub run : List Token → Reader → Option Reader
  run [] r = some r
  run (num n ∷ ts) r = run ts (record r { fields = r.fields ++ n ∷ [] })
  run (comma ∷ ts) r = flush r >>= λ r'. run ts r'
  run (semicolon ∷ ts) r = flush r >>= λ r'. run ts (record r' { line = r'.line + 1; column = 0 })

  -- The mappings that a text stands for, with these `sources` and `names`.
  unfoldable pub decode : Text → Option (List Decoded)
  decode text = do ts ← tokens text; r ← run ts reader_start; r' ← flush r; some r'.out

  pub run-append :
      (ts us : List Token) (r : Reader) → run (ts ++ us) r ≡ (run ts r >>= λ r'. run us r')
  unfolding run
  run-append [] us r = refl
  run-append (num n ∷ ts) us r = run-append ts us _
  run-append (comma ∷ ts) us r = elim (Option-cases (flush r)) [
    | inl e ↦ rw e
    | inr (r', e) ↦ rw e (run-append ts us r')
  ]
  run-append (semicolon ∷ ts) us r = elim (Option-cases (flush r)) [
    | inl e ↦ rw e
    | inr (r', e) ↦ rw e (run-append ts us _)
  ]
