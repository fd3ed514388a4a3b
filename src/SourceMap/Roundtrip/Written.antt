-- ===== src/SourceMap/Roundtrip/Written.antt =====
-- What the encoder's state of src/sourcemap/generator.ts has written so far, and one round of it.
use typescript2cxx.Prelude.{
  ◌+◌, ◌≤◌, ◌≡◌, ◌≢◌, refl, sym, ◌∙◌, some, List, [], ◌∷◌, ◌++◌, map, length, Text, txt, join,
  append_assoc, append-nil,
}
use typescript2cxx.Prelude.Int.{ℤ}
use typescript2cxx.SourceMap.Vlq.{vlq_bits, encode_vlq}
use typescript2cxx.SourceMap.Vlq.Laws.{tokens-encode_vlq, tokens-nil}
use typescript2cxx.SourceMap.Decode.{Token, num, comma, semicolon, tokens, tokens-append, ◌>>=◌}
use typescript2cxx.SourceMap.Read.{Decoded, Reader, reader_start, flush, run, run-append}
use typescript2cxx.SourceMap.Generator.{SourceMapMapping, EncodeState, encode_segment}
use typescript2cxx.SourceMap.Roundtrip.Segment.{
  bound, view, reader_of, IsSmall, IsSmallMapping, Covers, Reads-segment, segment_values, frame,
}

-- Each text with the separator after it.
abbrev pub terminated : Text → List Text → Text
terminated sep [] = []
terminated sep (x ∷ xs) = x ++ (sep ++ terminated sep xs)

terminated-concat :
    (sep : Text) (xs : List Text) (x : Text)
    → terminated sep (xs ++ x ∷ []) ≡ terminated sep xs ++ (x ++ sep)
terminated-concat sep [] x = rw append-nil
terminated-concat sep (y ∷ xs) x = simp (terminated-concat sep xs x, append_assoc)

pub join-concat :
    (sep : Text) (xs : List Text) (x : Text) → join sep (xs ++ x ∷ []) ≡ terminated sep xs ++ x
join-concat sep [] x = refl
join-concat sep (y ∷ []) x = simp (append_assoc, append-nil)
join-concat sep (y ∷ z ∷ xs) x = simp (join-concat sep (z ∷ xs) x, append_assoc)

join-concat_cons :
    (sep : Text) (y : Text) (xs : List Text) (x : Text)
    → join sep (y ∷ xs ++ x ∷ []) ≡ join sep (y ∷ xs) ++ (sep ++ x)
join-concat_cons sep y [] x = refl
join-concat_cons sep y (z ∷ xs) x = simp (join-concat_cons sep z xs x, append_assoc)

pub concat-ne-nil : (xs : List Text) (x : Text) → xs ++ x ∷ [] ≢ []
concat-ne-nil [] x h = cc
concat-ne-nil (y ∷ xs) x h = cc

abbrev pub written : EncodeState → Text
written e = terminated (txt ";") e.lines ++ join (txt ",") e.segments

tokens-semicolon : tokens (txt ";") ≡ some (semicolon ∷ [])
unfolding tokens txt
tokens-semicolon = refl

tokens-comma : tokens (txt ",") ≡ some (comma ∷ [])
unfolding tokens txt
tokens-comma = refl

-- One round of the loop that ends lines.
abbrev pub next_line : EncodeState → EncodeState
next_line e = record e {
  lines = e.lines ++ join (txt ",") e.segments ∷ [];
  segments = [];
  current_line = e.current_line + 1;
  prev_generated_column = 0;
}

written-next_line : (e : EncodeState) → written (next_line e) ≡ written e ++ txt ";"
written-next_line e = simp (terminated-concat, append_assoc, append-nil)

-- The text of a state with one more segment.
written_first :
    {lines lines' segments segments' : List Text} (text : Text)
    → lines' ≡ lines
    → segments' ≡ segments ++ text ∷ []
    → segments ≡ []
    → terminated (txt ";") lines' ++ join (txt ",") segments'
      ≡ terminated (txt ";") lines ++ join (txt ",") segments ++ text
written_first text p q r = rw (p, q, r, append-nil)

written_next :
    {lines lines' segments segments' : List Text} (text s : Text) (rest : List Text)
    → lines' ≡ lines
    → segments' ≡ segments ++ text ∷ []
    → segments ≡ s ∷ rest
    → terminated (txt ";") lines' ++ join (txt ",") segments'
      ≡ terminated (txt ";") lines ++ join (txt ",") segments ++ (txt "," ++ text)
written_next {lines} text s rest p q r =
    rw (p, q, r, join-concat_cons (txt ",") s rest text)
      (sym (append_assoc (terminated (txt ";") lines) _ _))

module _ (sources names : List Text) where
  run-nums :
      (vs : List ℤ) (r : Reader)
      → run sources names (map (λ v. num (vlq_bits v)) vs) r
        ≡ some (record r { fields = r.fields ++ map vlq_bits vs })
  unfolding run
  run-nums [] r = rw append-nil
  run-nums (v ∷ vs) r = rw (run-nums vs _, append_assoc)

  -- The text that is written is read up to `last`, whose open segment ends in the reader that knows
  -- what the encoder knows.
  pub record Written (e : EncodeState) (out : List Decoded) : Type 0 where
    pub read : List Token
    pub last : Reader
    pub is_read : tokens (written e) ≡ some read
    pub is_run : run sources names read reader_start ≡ some last
    pub is_flushed : flush sources names last ≡ some (reader_of e out)
    pub is_fresh : e.segments ≡ [] → last ≡ reader_of e out

  flush-reader_of :
      (e : EncodeState) (out : List Decoded)
      → flush sources names (reader_of e out) ≡ some (reader_of e out)
  unfolding flush
  flush-reader_of e out = refl

  pub Written-next_line :
      (e : EncodeState) (out : List Decoded) → Written e out → Written (next_line e) out
  unfolding run
  Written-next_line e out w = record {
    read = w.read ++ semicolon ∷ [];
    last = reader_of (next_line e) out;
    is_read =
        rw (written-next_line e) (tokens-append (written e) (txt ";") w.is_read tokens-semicolon);
    is_run =
        rw
          (
            run-append sources names w.read (semicolon ∷ []) reader_start,
            w.is_run,
            ◌>>=◌,
            w.is_flushed,
          )
          refl;
    is_flushed = flush-reader_of (next_line e) out;
    is_fresh = λ _. refl;
  }

  -- The number tokens of a segment, read from the reader that knows what the encoder knows.
  abbrev pending : SourceMapMapping → EncodeState → List Decoded → Reader
  pending m e out = record (reader_of e out) { fields = map vlq_bits (segment_values m e) }

  Appended : SourceMapMapping → EncodeState → List Decoded → Type 0
  Appended m e out =
      (read : List Token) × (tokens (written (encode_segment m e)) ≡ some read)
      × (run sources names read reader_start ≡ some (pending m e out))

  module _ (m : SourceMapMapping) (e : EncodeState) (out : List Decoded) (w : Written e out)
      (text : Text)
      (text_read : tokens text ≡ some (map (λ v. num (vlq_bits v)) (segment_values m e)))
      (added : (encode_segment m e).segments ≡ e.segments ++ text ∷ [])
      (same_lines : (encode_segment m e).lines ≡ e.lines) where
    Appended-first : e.segments ≡ [] → Appended m e out
    unfolding Appended
    Appended-first empty = (
      w.read ++ values,
      rw (written_first text same_lines added empty)
          (tokens-append (written e) text w.is_read text_read),
      rw (run-append sources names w.read values reader_start, w.is_run, w.is_fresh empty)
          (run-nums (segment_values m e) (reader_of e out)),
    )
      where
        values : List Token
        values = map (λ v. num (vlq_bits v)) (segment_values m e)

    Appended-next : (s : Text) (rest : List Text) → e.segments ≡ s ∷ rest → Appended m e out
    unfolding Appended run
    Appended-next s rest nonempty = (
      w.read ++ comma ∷ values,
      rw (written_next text s rest same_lines added nonempty) (
          tokens-append (written e) (txt "," ++ text) w.is_read
            (tokens-append (txt ",") text tokens-comma text_read)),
      rw (run-append sources names w.read (comma ∷ values) reader_start, w.is_run, w.is_flushed)
          (run-nums (segment_values m e) (reader_of e out)),
    )
      where
        values : List Token
        values = map (λ v. num (vlq_bits v)) (segment_values m e)

    appended : (segments : List Text) → e.segments ≡ segments → Appended m e out
    appended [] h = Appended-first h
    appended (s ∷ rest) h = Appended-next s rest h

  module _ (few_sources : length sources ≤ bound) (few_names : length names ≤ bound) where
    pub Written-segment :
        (m : SourceMapMapping) (e : EncodeState) (out : List Decoded)
        → IsSmall e
        → IsSmallMapping m
        → e.current_line ≡ m.generated_line
        → Covers sources names (encode_segment m e).generator
        → Written e out
        → Written (encode_segment m e) (out ++ view m ∷ []) × IsSmall (encode_segment m e)
    unfolding Appended flush
    Written-segment m e out small sm line cov w =
        let r = Reads-segment sources names few_sources few_names m e out small sm line cov in
        let f = frame m e in
        let text_read = tokens-encode_vlq (segment_values m e) [] [] r.2 tokens-nil in
        let (ts, is_read, is_run) =
          appended m e out w (encode_vlq (segment_values m e))
            (rw
              (
                append-nil (encode_vlq (segment_values m e)),
                append-nil (map (λ v. num (vlq_bits v)) (segment_values m e)),
              )
              at text_read)
            f.segments f.lines e.segments refl in
        (
          record {
            read = ts;
            last = pending m e out;
            is_read = is_read;
            is_run = is_run;
            is_flushed = r.0;
            is_fresh = λ empty. absurd (concat-ne-nil e.segments _ (sym f.segments ∙ empty));
          },
          r.1,
        )
