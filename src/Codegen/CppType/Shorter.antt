-- ===== src/Codegen/CppType/Shorter.antt =====
-- The texts that `mapType` of src/codegen/generator.ts calls itself with are shorter than its own.
use typescript2cxx.Prelude.{
  ℕ, zero, suc, ◌+◌, ◌≤◌, ◌<◌, ◌≡◌, refl, ◌∙◌, ap, inl, inr, Bool, true, false, not, ◌&&◌, ◌||◌,
  Bool-cases, Option, some, none, List, [], ◌∷◌, ◌++◌, arith, ◌==◌, find, length, if◌then◌else◌,
  map, Text, txt, text_eq, includes, is_space, starts_with, ends_with, trim_start, trim, drop,
  add_unit, count_units,
}
use mathlib.Core.List.{reverse, reverse-cons}
use typescript2cxx.Codegen.CppType.{
  slice_end, has_part, split_members, Shape, text, array_of, future_of, nullable_of, non_empty,
  non_null_type, nullable_shape, union_shape, named_type, shape,
}

pub count_units-append : (s t : Text) → count_units (s ++ t) ≡ count_units s + count_units t
count_units-append [] t = omega arith
count_units-append (c ∷ s) t = omega (arith, count_units-append s t)

pub count_units-reverse : (s : Text) → count_units (reverse s) ≡ count_units s
count_units-reverse [] = refl
count_units-reverse (c ∷ s) =
    ap count_units (reverse-cons c s)
    ∙ omega (arith, count_units-append (reverse s) (c ∷ []), count_units-reverse s)

count_units-drop : (n : ℕ) (s : Text) → count_units (drop n s) ≤ count_units s
count_units-drop zero s = omega arith
count_units-drop (suc n) [] = omega arith
count_units-drop (suc n) (c ∷ s) = omega (arith, count_units-drop n s)

count_units-trim_start : (s : Text) → count_units (trim_start s) ≤ count_units s
unfolding trim_start
count_units-trim_start [] = omega arith
count_units-trim_start (c ∷ s) = elim (Bool-cases (is_space c)) [
  | inl e ↦ rw e (omega (arith, count_units-trim_start s))
  | inr e ↦ rw e (omega (arith, count_units-trim_start s))
]

count_units-trim : (s : Text) → count_units (trim s) ≤ count_units s
unfolding trim
count_units-trim s = omega (
  arith,
  count_units-reverse (trim_start (reverse (trim_start s))),
  count_units-trim_start (reverse (trim_start s)),
  count_units-reverse (trim_start s),
  count_units-trim_start s,
)

-- A text whose end is one of so many units loses one at least.
starts_with-count : (s p : Text) → starts_with s p ≡ true → count_units p ≤ count_units s
unfolding starts_with
starts_with-count s [] h = omega arith
starts_with-count [] (p ∷ ps) h = cc
starts_with-count (c ∷ s) (p ∷ ps) h =
    let rest : starts_with s ps ≡ true = ground arith in omega (arith, starts_with-count s ps rest)

drop-count : (n : ℕ) (s : Text) → 0 < n → 0 < count_units s → count_units (drop n s) < count_units s
drop-count zero s h k = omega arith
drop-count (suc n) [] h k = omega arith
drop-count (suc n) (c ∷ s) h k = omega (arith, count_units-drop n s)

slice_end-count :
    (n : ℕ) (s : Text) → 0 < n → 0 < count_units s → count_units (slice_end n s) < count_units s
unfolding slice_end
slice_end-count n s h k = omega (
  arith,
  count_units-reverse (drop n (reverse s)),
  drop-count n (reverse s) h (omega (arith, count_units-reverse s)),
  count_units-reverse s,
)

slice_end-le : (n : ℕ) (s : Text) → count_units (slice_end n s) ≤ count_units s
unfolding slice_end
slice_end-le n s = omega (
  arith,
  count_units-reverse (drop n (reverse s)),
  count_units-drop n (reverse s),
  count_units-reverse s,
)

-- The units of all the texts, and one for each text.
total : List Text → ℕ
total [] = 0
total (t ∷ ts) = suc (count_units t) + total ts

split_members-nonempty : (n : ℕ) (s : Text) → 0 < length (split_members n s)
unfolding split_members
split_members-nonempty n [] = omega arith
split_members-nonempty (suc n) (c ∷ s) = split_members-nonempty n s
split_members-nonempty zero (c ∷ s) = elim (Bool-cases (starts_with (c ∷ s) (txt " | "))) [
  | inl e ↦ rw e (omega arith)
  | inr e ↦ rw e (nonempty (split_members 0 s))
]
  where
    nonempty : (ts : List Text) → 0 < length (add_unit c ts)
    nonempty [] = omega arith
    nonempty (t ∷ ts) = omega arith

total-add_unit_of :
    (c : ℕ) (ts : List Text) → 0 < length ts → total (add_unit c ts) ≡ suc (total ts)
unfolding total
total-add_unit_of c [] h = omega arith
total-add_unit_of c (t ∷ ts) h = omega arith

total-split_members : (n : ℕ) (s : Text) → total (split_members n s) ≤ suc (count_units s)
unfolding split_members total
total-split_members n [] = omega arith
total-split_members (suc n) (c ∷ s) = omega (arith, total-split_members n s)
total-split_members zero (c ∷ s) = elim (Bool-cases (starts_with (c ∷ s) (txt " | "))) [
  | inl e ↦ rw e (omega (arith, total-split_members 2 s))
  | inr e ↦ rw e (
      omega (
        arith,
        total-add_unit_of c (split_members 0 s) (split_members-nonempty 0 s),
        total-split_members 0 s,
      ))
]

total-map-trim : (ts : List Text) → total (map trim ts) ≤ total ts
unfolding total
total-map-trim [] = omega arith
total-map-trim (t ∷ ts) = omega (arith, count_units-trim t, total-map-trim ts)

length-total : (ts : List Text) → length ts ≤ total ts
unfolding total
length-total [] = omega arith
length-total (t ∷ ts) = omega (arith, length-total ts)

find-total :
    (p : Text → Bool) (ts : List Text) {t : Text}
    → find p ts ≡ some t
    → count_units t + length ts ≤ total ts
unfolding total
find-total p [] h = cc
find-total p (u ∷ ts) {t} h = elim (Bool-cases (p u)) [
  | inl found ↦ let same : u ≡ t = ground arith in rw (← same) (omega (arith, length-total ts))
  | inr missed ↦
      let later : find p ts ≡ some t = ground arith in omega (arith, find-total p ts later)
]

-- What a shape still asks `mapType` for has less than so many units.
abbrev pub Below : ℕ → Shape → Type 0
Below n (text s) = Unit
Below n (array_of e) = count_units e < n
Below n (future_of e) = count_units e < n
Below n (nullable_of e) = count_units e < n

if-Below :
    (n : ℕ) (b : Bool) (x y : Shape)
    → (b ≡ true → Below n x)
    → Below n y
    → Below n (if b then x else y)
if-Below n true x y h k = h refl
if-Below n false x y h k = k

non_empty-find : (o : Option Text) {t : Text} → non_empty o ≡ some t → o ≡ some t
non_empty-find none h = h
non_empty-find (some []) h = cc
non_empty-find (some (c ∷ s)) h = h

nullable_shape-Below :
    (n : ℕ) (o : Option Text)
    → ((t : Text) → o ≡ some t → count_units t < n)
    → Below n (nullable_shape o)
nullable_shape-Below n none h = tt
nullable_shape-Below n (some t) h = h t refl

and-left : (a b : Bool) → (a && b) ≡ true → a ≡ true
and-left a b h = ground arith

union_shape-Below : (n : ℕ) (types : List Text) → total types ≤ suc n → Below n (union_shape types)
unfolding union_shape
union_shape-Below n types h =
    let two = length types == 2 in
    let has : Text → Bool = includes types in
    let c₁ = two && has (txt "string") && has (txt "number") in
    let c₂ = two && has (txt "boolean") && has (txt "number") in
    let c₃ = two && has (txt "string") && has (txt "boolean") in
    let c₄ = two && (has (txt "null") || has (txt "undefined")) in
    let s₄ = if c₄ then nullable_shape (non_null_type types) else text (txt "js::any") in
    let s₃ = if c₃ then text (txt "js::typed::StringOrBoolean") else s₄ in
    let s₂ = if c₂ then text (txt "js::typed::BooleanOrNumber") else s₃ in
    if-Below n c₁ (text (txt "js::typed::StringOrNumber")) s₂ (λ e. tt)
      (if-Below n c₂ (text (txt "js::typed::BooleanOrNumber")) s₃ (λ e. tt)
        (if-Below n c₃ (text (txt "js::typed::StringOrBoolean")) s₄ (λ e. tt)
          (if-Below n c₄ (nullable_shape (non_null_type types)) (text (txt "js::any"))
            (λ e.
              nullable_shape-Below n (non_null_type types)
                (λ t k. member t k (and-left two (has (txt "null") || has (txt "undefined")) e)))
            tt)))
  where
    member :
        (t : Text) → non_null_type types ≡ some t → (length types == 2) ≡ true → count_units t < n
    member t k two =
        let pair : length types ≡ 2 = ground arith in
        omega (
          arith,
          find-total (λ t. not (text_eq t (txt "null")) && not (text_eq t (txt "undefined"))) types
              (non_empty-find
                (find (λ t. not (text_eq t (txt "null")) && not (text_eq t (txt "undefined")))
                  types)
                k),
        )

ends_with-count : (s p : Text) → 0 < count_units p → ends_with s p ≡ true → 0 < count_units s
unfolding ends_with
ends_with-count s p h k = omega (
  arith,
  starts_with-count (reverse s) (reverse p) k,
  count_units-reverse s,
  count_units-reverse p,
)

starts_with-positive : (s p : Text) → 0 < count_units p → starts_with s p ≡ true → 0 < count_units s
starts_with-positive s p h k = omega (arith, starts_with-count s p k)

-- The part between a start of so many units and the last unit.
middle-count :
    (n : ℕ) (s : Text)
    → 0 < n
    → 0 < count_units s
    → count_units (slice_end 1 (drop n s)) < count_units s
middle-count n s h k = omega (arith, slice_end-le 1 (drop n s), drop-count n s h k)

part_texts-nonempty :
    (0 < count_units (txt "[]"))
    × ((0 < count_units (txt "Array<")) × (0 < count_units (txt "Promise<")))
unfolding txt
part_texts-nonempty = (omega arith, (omega arith, omega arith))

pub shape-Below : (t : Text) → Below (count_units t) (shape t)
unfolding shape
shape-Below t =
    let n = count_units t in
    let (e₁, (e₂, e₃)) = part_texts-nonempty in
    let ends : Bool = ends_with t (txt ">") in
    let c₆ = has_part (txt " | ") t in
    let c₅ = has_part (txt "=>") t || (starts_with t (txt "(") && has_part (txt ")") t) in
    let u = union_shape (map trim (split_members 0 t)) in
    let s₇ = if has_part (txt " & ") t then text (txt "js::any") else text (named_type t) in
    let s₆ = if c₆ then u else s₇ in
    let s₅ = if c₅ then text (txt "std::function<js::any()>") else s₆ in
    let future = future_of (slice_end 1 (drop 8 t)) in
    let s₄ = if starts_with t (txt "Promise<") && ends then future else s₅ in
    let array = array_of (slice_end 1 (drop 6 t)) in
    let s₃ = if starts_with t (txt "Array<") && ends then array else s₄ in
    let s₂ = if ends_with t (txt "[]") then array_of (slice_end 2 t) else s₃ in
    if-Below n (starts_with t (txt "js::")) (text t) s₂ (λ e. tt)
      (if-Below n (ends_with t (txt "[]")) (array_of (slice_end 2 t)) s₃
        (λ e. slice_end-count 2 t (omega arith) (ends_with-count t (txt "[]") e₁ e))
        (if-Below n (starts_with t (txt "Array<") && ends) array s₄
          (λ e. middle-count 6 t (omega arith) (
            starts_with-positive t (txt "Array<") e₂
              (and-left (starts_with t (txt "Array<")) ends e)))
          (if-Below n (starts_with t (txt "Promise<") && ends) future s₅
            (λ e. middle-count 8 t (omega arith) (
              starts_with-positive t (txt "Promise<") e₃
                (and-left (starts_with t (txt "Promise<")) ends e)))
            (if-Below n c₅ (text (txt "std::function<js::any()>")) s₆ (λ e. tt)
              (if-Below n c₆ u s₇
                (λ e.
                  union_shape-Below n (map trim (split_members 0 t))
                    (omega (arith, total-map-trim (split_members 0 t), total-split_members 0 t)))
                (if-Below n (has_part (txt " & ") t) (text (txt "js::any")) (text (named_type t))
                  (λ e. tt) tt))))))
