-- ===== src/SourceMap/Generator/Consistent.antt =====
-- The class invariant of `SourceMapGenerator` (src/sourcemap/generator.ts), which each of its methods
-- keeps.
use typescript2cxx.Prelude.{
  ℕ, zero, suc, ◌-◌, ◌≡◌, refl, ap, ◌⊎◌, inl, inr, Option, none, some, List, [], ◌∷◌, ◌++◌, arith,
  Bool-cases, Option-cases, length, length-append, length-set, get_elem?, Text, text_eq,
  text_eq_self,
}
use typescript2cxx.SourceMap.Generator.{
  SourceMapMapping, SourceMapGenerator, new_generator, index_of, Content, omitted, null, str,
  write_content, add_source, add_name, add_mapping, EncodeState, encode_start, advance_lines,
  name_fields, source_fields, encode_segment, encode_mapping, encode_loop, encode_mappings,
  generate_source_map, sort_mappings,
}

-- No entry stands twice: each is found at the index where it stands.
abbrev pub IsDistinct : List Text → Type 0
IsDistinct xs = (i : ℕ) (x : Text) → get_elem? xs i ≡ some x → index_of x xs ≡ some i

-- There is one content for each source, and no source and no name stands twice.
pub record IsConsistent (g : SourceMapGenerator) : Type 0 where
  pub aligned : length g.sources_content ≡ length g.sources
  pub sources_distinct : IsDistinct g.sources
  pub names_distinct : IsDistinct g.names

IsDistinct-nil : IsDistinct []
IsDistinct-nil i x h = cc

index_of-append :
    (x : Text) (xs ys : List Text) (i : ℕ) → index_of x xs ≡ some i → index_of x (xs ++ ys) ≡ some i
unfolding index_of
index_of-append x [] ys i h = cc
index_of-append x (y ∷ xs) ys i h = elim (Bool-cases (text_eq y x)) [
  | inl same ↦ ground arith
  | inr other ↦ elim (Option-cases (index_of x xs)) [
    | inl e ↦ ground arith
    | inr (j, e) ↦ ground (arith, index_of-append x xs ys j e)
  ]
]

index_of-append_new :
    (s : Text) (xs : List Text)
    → index_of s xs ≡ none
    → index_of s (xs ++ s ∷ []) ≡ some (length xs)
unfolding index_of
index_of-append_new s [] h = ground (arith, text_eq_self s)
index_of-append_new s (y ∷ xs) h = elim (Bool-cases (text_eq y s)) [
  | inl same ↦ ground arith
  | inr other ↦ elim (Option-cases (index_of s xs)) [
    | inl e ↦ ground (arith, index_of-append_new s xs e)
    | inr (j, e) ↦ ground arith
  ]
]

get_elem?-append-cases :
    (xs : List Text) (s : Text) (i : ℕ) {x : Text}
    → get_elem? (xs ++ s ∷ []) i ≡ some x
    → (get_elem? xs i ≡ some x) ⊎ ((i ≡ length xs) × (x ≡ s))
get_elem?-append-cases [] s zero h = inr (refl, ground arith)
get_elem?-append-cases [] s (suc i) h = cc
get_elem?-append-cases (y ∷ xs) s zero h = inl h
get_elem?-append-cases (y ∷ xs) s (suc i) h = elim (get_elem?-append-cases xs s i h) [
  | inl e ↦ inl e
  | inr (e, k) ↦ inr (ap suc e, k)
]

IsDistinct-append :
    (s : Text) (xs : List Text) → index_of s xs ≡ none → IsDistinct xs → IsDistinct (xs ++ s ∷ [])
IsDistinct-append s xs new d i x h = elim (get_elem?-append-cases xs s i h) [
  | inl old ↦ index_of-append x xs _ i (d i x old)
  | inr (last, same) ↦ rw (last, same) (index_of-append_new s xs new)
]

length-write_content :
    (contents : List (Option Text)) (i : ℕ) (c : Content)
    → length (write_content contents i c) ≡ length contents
length-write_content contents i omitted = refl
length-write_content contents i null = length-set contents i none
length-write_content contents i (str s) = length-set contents i (some s)

-- A new generator is consistent.
pub new_generator-IsConsistent : (file root : Option Text) → IsConsistent (new_generator file root)
new_generator-IsConsistent file root = record {
  aligned = refl;
  sources_distinct = IsDistinct-nil;
  names_distinct = IsDistinct-nil;
}

pub add_source-IsConsistent :
    (s : Text) (c : Content) (g : SourceMapGenerator)
    → IsConsistent g
    → IsConsistent (add_source s c g).0
unfolding add_source
add_source-IsConsistent s c g v = elim (Option-cases (index_of s g.sources)) [
  | inl new ↦
      rw (new, add_source)
        (record {
          aligned =
              omega (
                arith,
                length-append {0} g.sources_content,
                length-append {0} g.sources,
                v.aligned,
              );
          sources_distinct = IsDistinct-append s g.sources new v.sources_distinct;
          names_distinct = v.names_distinct;
        })
  | inr (i, old) ↦
      rw (old, add_source)
        (record {
          aligned = omega (arith, length-write_content g.sources_content i c, v.aligned);
          sources_distinct = v.sources_distinct;
          names_distinct = v.names_distinct;
        })
]

pub add_name-IsConsistent :
    (s : Text) (g : SourceMapGenerator) → IsConsistent g → IsConsistent (add_name s g).0
unfolding add_name
add_name-IsConsistent s g v = elim (Option-cases (index_of s g.names)) [
  | inl new ↦
      rw (new, add_name)
        (record {
          aligned = v.aligned;
          sources_distinct = v.sources_distinct;
          names_distinct = IsDistinct-append s g.names new v.names_distinct;
        })
  | inr (i, old) ↦ rw (old, add_name) v
]

pub add_mapping-IsConsistent :
    (m : SourceMapMapping) (g : SourceMapGenerator)
    → IsConsistent g
    → IsConsistent (add_mapping m g)
unfolding add_mapping
add_mapping-IsConsistent m g v = record {
  aligned = v.aligned;
  sources_distinct = v.sources_distinct;
  names_distinct = v.names_distinct;
}

-- The tables that one segment leaves: by the mapping's source and name.
fields_of-IsConsistent :
    (gl gc ol oc : ℕ) (source name : Option Text) (e : EncodeState)
    → IsConsistent e.generator
    → IsConsistent
        (encode_segment
          (record {
            generated_line = gl;
            generated_column = gc;
            original_line = ol;
            original_column = oc;
            source = source;
            name = name;
          })
          e).generator
unfolding encode_segment source_fields name_fields
fields_of-IsConsistent gl gc ol oc none name e v = v
fields_of-IsConsistent gl gc ol oc (some s) none e v =
    add_source-IsConsistent s omitted e.generator v
fields_of-IsConsistent gl gc ol oc (some s) (some n) e v =
    add_name-IsConsistent n (add_source s omitted e.generator).0
      (add_source-IsConsistent s omitted e.generator v)

advance_lines-IsConsistent :
    (rounds : ℕ) (e : EncodeState)
    → IsConsistent e.generator
    → IsConsistent (advance_lines rounds e).generator
unfolding advance_lines
advance_lines-IsConsistent zero e v = v
advance_lines-IsConsistent (suc rounds) e v = advance_lines-IsConsistent rounds _ v

encode_loop-IsConsistent :
    (ms : List SourceMapMapping) (e : EncodeState)
    → IsConsistent e.generator
    → IsConsistent (encode_loop ms e).generator
unfolding encode_loop encode_mapping
encode_loop-IsConsistent [] e v = v
encode_loop-IsConsistent (m ∷ ms) e v = encode_loop-IsConsistent ms (encode_mapping m e) (
    fields_of-IsConsistent m.generated_line m.generated_column m.original_line m.original_column
      m.source m.name (advance_lines (m.generated_line - e.current_line) e)
      (advance_lines-IsConsistent (m.generated_line - e.current_line) e v))

encode_mappings-IsConsistent :
    (ms : List SourceMapMapping) (g : SourceMapGenerator)
    → IsConsistent g
    → IsConsistent (encode_mappings (record g { mappings = ms })).0
unfolding encode_mappings
encode_mappings-IsConsistent [] g v = record {
  aligned = v.aligned;
  sources_distinct = v.sources_distinct;
  names_distinct = v.names_distinct;
}
encode_mappings-IsConsistent (m ∷ ms) g v =
    encode_loop-IsConsistent (m ∷ ms) (encode_start (record g { mappings = m ∷ ms })) (record {
      aligned = v.aligned;
      sources_distinct = v.sources_distinct;
      names_distinct = v.names_distinct;
    })

pub generate_source_map-IsConsistent :
    (g : SourceMapGenerator) → IsConsistent g → IsConsistent (generate_source_map g).0
unfolding generate_source_map
generate_source_map-IsConsistent g v = encode_mappings-IsConsistent (sort_mappings g.mappings) g v

-- The calls of a generator's methods.
pub data Call : Type 0 where
  source : Text → Content → Call
  name : Text → Call
  mapping : SourceMapMapping → Call
  generate : Call

abbrev pub call : Call → SourceMapGenerator → SourceMapGenerator
call (source s c) g = (add_source s c g).0
call (name s) g = (add_name s g).0
call (mapping m) g = add_mapping m g
call generate g = (generate_source_map g).0

abbrev pub calls : List Call → SourceMapGenerator → SourceMapGenerator
calls [] g = g
calls (c ∷ cs) g = calls cs (call c g)

call-IsConsistent : (c : Call) (g : SourceMapGenerator) → IsConsistent g → IsConsistent (call c g)
call-IsConsistent (source s c) g v = add_source-IsConsistent s c g v
call-IsConsistent (name s) g v = add_name-IsConsistent s g v
call-IsConsistent (mapping m) g v = add_mapping-IsConsistent m g v
call-IsConsistent generate g v = generate_source_map-IsConsistent g v

calls_keep : (cs : List Call) (g : SourceMapGenerator) → IsConsistent g → IsConsistent (calls cs g)
calls_keep [] g v = v
calls_keep (c ∷ cs) g v = calls_keep cs (call c g) (call-IsConsistent c g v)

-- After any calls of the methods on a new generator there is one content for each source, and no
-- source and no name stands twice.
pub calls-IsConsistent :
    (file root : Option Text) (cs : List Call) → IsConsistent (calls cs (new_generator file root))
calls-IsConsistent file root cs = calls_keep cs _ (new_generator-IsConsistent file root)
