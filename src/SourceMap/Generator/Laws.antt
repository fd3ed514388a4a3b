-- ===== src/SourceMap/Generator/Laws.antt =====
-- The tables of sources and names of src/sourcemap/generator.ts.
use typescript2cxx.Prelude.{
  ℕ, zero, suc, ◌-◌, ◌<◌, ◌≡◌, inl, inr, some, List, [], ◌∷◌, ◌++◌, arith, Bool-cases, Option-cases,
  length, length-append, get_elem?, get_elem?-append, get_elem?-append_length, Text, text_eq,
  text_eq→eq,
}
use typescript2cxx.SourceMap.Generator.{SourceMapGenerator, index_of, Content, add_source, add_name}

pub index_of-get_elem? :
    (s : Text) (xs : List Text) (i : ℕ) → index_of s xs ≡ some i → get_elem? xs i ≡ some s
unfolding index_of
index_of-get_elem? s [] i h = cc
index_of-get_elem? s (x ∷ xs) i h = elim (Bool-cases (text_eq x s)) [
  | inl same ↦ ground (arith, text_eq→eq x s same)
  | inr other ↦ elim (Option-cases (index_of s xs)) [
    | inl e ↦ ground arith
    | inr (j, e) ↦ ground (arith, index_of-get_elem? s xs j e)
  ]
]

pub get_elem?-lt-length {ℓ} :
    {A : Type ℓ} (xs : List A) (i : ℕ) {x : A} → get_elem? xs i ≡ some x → i < length xs
get_elem?-lt-length [] i h = cc
get_elem?-lt-length (x ∷ xs) zero h = omega arith
get_elem?-lt-length (x ∷ xs) (suc i) h = omega (arith, get_elem?-lt-length xs i h)

-- Every entry of the first table stands at its index in the second.
abbrev pub IsExtendedBy : List Text → List Text → Type 0
IsExtendedBy xs ys = (i : ℕ) (x : Text) → get_elem? xs i ≡ some x → get_elem? ys i ≡ some x

pub IsExtendedBy-append : (xs ys : List Text) → IsExtendedBy xs (xs ++ ys)
IsExtendedBy-append xs ys i x h = get_elem?-append xs ys i h

get_elem?-last :
    (xs : List Text) (s : Text) → get_elem? (xs ++ s ∷ []) (length (xs ++ s ∷ []) - 1) ≡ some s
get_elem?-last xs s =
    let e : length (xs ++ s ∷ []) - 1 ≡ length xs = omega (arith, length-append xs (s ∷ [])) in
    rw e (get_elem?-append_length xs s [])

module _ (s : Text) (c : Content) (g : SourceMapGenerator) where
  -- The index that `addSource` returns is where the source stands.
  pub add_source-get_elem? : get_elem? (add_source s c g).0.sources (add_source s c g).1 ≡ some s
  unfolding add_source
  add_source-get_elem? = elim (Option-cases (index_of s g.sources)) [
    | inl e ↦ rw (e, add_source) (get_elem?-last g.sources s)
    | inr (i, e) ↦ rw (e, add_source) (index_of-get_elem? s g.sources i e)
  ]

  pub add_source-IsExtendedBy : IsExtendedBy g.sources (add_source s c g).0.sources
  unfolding add_source
  add_source-IsExtendedBy i x h = elim (Option-cases (index_of s g.sources)) [
    | inl e ↦ rw (e, add_source) (get_elem?-append g.sources _ i h)
    | inr (j, e) ↦ rw (e, add_source) h
  ]

  pub names-add_source : (add_source s c g).0.names ≡ g.names
  unfolding add_source
  names-add_source = elim (Option-cases (index_of s g.sources)) [
    | inl e ↦ rw (e, add_source)
    | inr (j, e) ↦ rw (e, add_source)
  ]

module _ (s : Text) (g : SourceMapGenerator) where
  pub add_name-get_elem? : get_elem? (add_name s g).0.names (add_name s g).1 ≡ some s
  unfolding add_name
  add_name-get_elem? = elim (Option-cases (index_of s g.names)) [
    | inl e ↦ rw (e, add_name) (get_elem?-last g.names s)
    | inr (i, e) ↦ rw (e, add_name) (index_of-get_elem? s g.names i e)
  ]

  pub add_name-IsExtendedBy : IsExtendedBy g.names (add_name s g).0.names
  unfolding add_name
  add_name-IsExtendedBy i x h = elim (Option-cases (index_of s g.names)) [
    | inl e ↦ rw (e, add_name) (get_elem?-append g.names _ i h)
    | inr (j, e) ↦ rw (e, add_name) h
  ]

  pub sources-add_name : (add_name s g).0.sources ≡ g.sources
  unfolding add_name
  sources-add_name = elim (Option-cases (index_of s g.names)) [
    | inl e ↦ rw (e, add_name)
    | inr (j, e) ↦ rw (e, add_name)
  ]
