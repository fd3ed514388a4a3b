-- ===== src/SourceMap/Generator/Sort.antt =====
-- The order of mappings that `generateSourceMap` of src/sourcemap/generator.ts makes.
use mathlib.Core.List.{Perm}
use mathlib.Core.List.Perm
use typescript2cxx.Prelude.{
  ◌≤◌, ◌<◌, ◌≡◌, inl, inr, true, false, List, [], ◌∷◌, arith, All, Bool-cases, ◌==◌,
}
use typescript2cxx.Prelude.Int.{is_nonpos}
use typescript2cxx.SourceMap.Generator.{
  SourceMapMapping, compare_mappings, insert_mapping, sort_mappings,
}

-- `a` does not stand behind `b` in the generated file.
pub data IsBefore (a b : SourceMapMapping) : Type 0 where
  earlier_line : a.generated_line < b.generated_line → IsBefore a b
  same_line :
      a.generated_line ≡ b.generated_line → a.generated_column ≤ b.generated_column → IsBefore a b

-- Every mapping stands before all that follow it.
abbrev pub IsSorted : List SourceMapMapping → Type 0
IsSorted [] = Unit
IsSorted (m ∷ ms) = All (IsBefore m) ms × IsSorted ms

compare_true : (a b : SourceMapMapping) → is_nonpos (compare_mappings a b) ≡ true → IsBefore a b
unfolding compare_mappings
compare_true a b h = elim (Bool-cases (a.generated_line == b.generated_line)) [
  | inl same ↦ same_line (ground arith) (ground arith)
  | inr other ↦ earlier_line (ground arith)
]

compare_false : (a b : SourceMapMapping) → is_nonpos (compare_mappings a b) ≡ false → IsBefore b a
unfolding compare_mappings
compare_false a b h = elim (Bool-cases (a.generated_line == b.generated_line)) [
  | inl same ↦ same_line (ground arith) (ground arith)
  | inr other ↦ earlier_line (ground arith)
]

IsBefore-trans : {a b c : SourceMapMapping} → IsBefore a b → IsBefore b c → IsBefore a c
IsBefore-trans (earlier_line p) (earlier_line q) = earlier_line (omega arith)
IsBefore-trans (earlier_line p) (same_line q r) = earlier_line (omega arith)
IsBefore-trans (same_line p q) (earlier_line r) = earlier_line (omega arith)
IsBefore-trans (same_line p q) (same_line r s) = same_line (omega arith) (omega arith)

All-IsBefore-trans :
    {a b : SourceMapMapping} (ms : List SourceMapMapping)
    → IsBefore a b
    → All (IsBefore b) ms
    → All (IsBefore a) ms
All-IsBefore-trans [] h k = tt
All-IsBefore-trans (m ∷ ms) h (p, k) = (IsBefore-trans h p, All-IsBefore-trans ms h k)

pub All-insert_mapping :
    (P : SourceMapMapping → Type 0) (m : SourceMapMapping) (ms : List SourceMapMapping)
    → P m
    → All P ms
    → All P (insert_mapping m ms)
unfolding insert_mapping
All-insert_mapping P m [] h k = (h, tt)
All-insert_mapping P m (x ∷ xs) h (p, k) = elim (Bool-cases (is_nonpos (compare_mappings m x))) [
  | inl first ↦ rw first (h, (p, k))
  | inr later ↦ rw later (p, All-insert_mapping P m xs h k)
]

pub All-sort_mappings :
    (P : SourceMapMapping → Type 0) (ms : List SourceMapMapping)
    → All P ms
    → All P (sort_mappings ms)
unfolding sort_mappings
All-sort_mappings P [] h = tt
All-sort_mappings P (m ∷ ms) (p, h) = All-insert_mapping P m _ p (All-sort_mappings P ms h)

insert_mapping-IsSorted :
    (m : SourceMapMapping) (ms : List SourceMapMapping)
    → IsSorted ms
    → IsSorted (insert_mapping m ms)
unfolding insert_mapping
insert_mapping-IsSorted m [] h = (tt, tt)
insert_mapping-IsSorted m (x ∷ xs) (p, h) = elim (Bool-cases (is_nonpos (compare_mappings m x))) [
  | inl first ↦ let b = compare_true m x first in rw first ((b, All-IsBefore-trans xs b p), (p, h))
  | inr later ↦ rw later (
    All-insert_mapping (IsBefore x) m xs (compare_false m x later) p,
    insert_mapping-IsSorted m xs h,
  )
]

-- The sorted mappings are in the order of their generated lines and, on one line, of their columns.
pub sort_mappings-IsSorted : (ms : List SourceMapMapping) → IsSorted (sort_mappings ms)
unfolding sort_mappings
sort_mappings-IsSorted [] = tt
sort_mappings-IsSorted (m ∷ ms) = insert_mapping-IsSorted m _ (sort_mappings-IsSorted ms)

insert_mapping-perm :
    (m : SourceMapMapping) (ms : List SourceMapMapping) → Perm (insert_mapping m ms) (m ∷ ms)
unfolding insert_mapping
insert_mapping-perm m [] = Perm.refl _
insert_mapping-perm m (x ∷ xs) = elim (Bool-cases (is_nonpos (compare_mappings m x))) [
  | inl first ↦ rw first (Perm.refl _)
  | inr later ↦ rw later (Perm.trans (Perm.cons x (insert_mapping-perm m xs)) (Perm.swap _ _ xs))
]

-- Sorting neither loses nor adds a mapping.
sort_mappings-perm : (ms : List SourceMapMapping) → Perm (sort_mappings ms) ms
unfolding sort_mappings
sort_mappings-perm [] = Perm.refl _
sort_mappings-perm (m ∷ ms) =
    Perm.trans (insert_mapping-perm m (sort_mappings ms)) (Perm.cons m (sort_mappings-perm ms))
