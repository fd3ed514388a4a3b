-- ===== src/Codegen/CppType/Laws.antt =====
-- `mapType` of src/codegen/generator.ts has a result for every text, and its two notations for arrays.
use typescript2cxx.Prelude.{
  append_assoc, ℕ, zero, suc, ◌<◌, ◌≡◌, refl, sym, ◌∙◌, ap, true, false, Option, some, [], ◌∷◌,
  ◌++◌, arith, Text, txt, starts_with, ends_with, drop, count_units,
}
use mathlib.Core.List.{reverse, reverse-append, reverse-reverse}
use typescript2cxx.Codegen.CppType.{
  Shape, text, array_of, future_of, nullable_of, slice_end, shape, around, map_type_fuel, map_type,
}
use typescript2cxx.Codegen.CppType.Shorter.{
  count_units-append, count_units-reverse, Below, shape-Below,
}

-- One call of `mapType` on a shape, with so much fuel for the nested one.
unfoldable pub map_shape : ℕ → Shape → Option Text
map_shape n (text s) = some s
map_shape n (array_of e) = around (txt "js::array<") (map_type_fuel n e)
map_shape n (future_of e) = around (txt "std::future<") (map_type_fuel n e)
map_shape n (nullable_of e) = around (txt "js::typed::Nullable<") (map_type_fuel n e)

map_type_fuel-suc : (n : ℕ) (t : Text) → map_type_fuel (suc n) t ≡ map_shape n (shape t)
unfolding map_type_fuel map_shape
map_type_fuel-suc n t = go (shape t)
  where
    go :
        (s : Shape)
        → (elim s [
          | text s ↦ some s
          | array_of e ↦ around (txt "js::array<") (map_type_fuel n e)
          | future_of e ↦ around (txt "std::future<") (map_type_fuel n e)
          | nullable_of e ↦ around (txt "js::typed::Nullable<") (map_type_fuel n e)
        ])
          ≡ map_shape n s
    go (text s) = refl
    go (array_of e) = refl
    go (future_of e) = refl
    go (nullable_of e) = refl

-- Two amounts of fuel give the same text.
Agree : (n m : ℕ) → Text → Type 0
Agree n m t = (cpp : Text) × ((map_type_fuel n t ≡ some cpp) × (map_type_fuel m t ≡ some cpp))

around-some :
    (before : Text) {o : Option Text} {t : Text}
    → o ≡ some t
    → around before o ≡ some (before ++ t ++ txt ">")
around-some before {o} {t} h = rw h refl

agree_around :
    (before : Text) {o o' : Option Text}
    → ((cpp : Text) × ((o ≡ some cpp) × (o' ≡ some cpp)))
    → (cpp : Text) × ((around before o ≡ some cpp) × (around before o' ≡ some cpp))
agree_around before (cpp, (h, h')) =
    (before ++ cpp ++ txt ">", (around-some before h, around-some before h'))

Agree-shape :
    (n m k : ℕ) (s : Shape)
    → Below k s
    → ((e : Text) → count_units e < k → Agree n m e)
    → (cpp : Text) × ((map_shape n s ≡ some cpp) × (map_shape m s ≡ some cpp))
unfolding map_shape Agree
Agree-shape n m k (text s) b ih = (s, (refl, refl))
Agree-shape n m k (array_of e) b ih = agree_around (txt "js::array<") (ih e b)
Agree-shape n m k (future_of e) b ih = agree_around (txt "std::future<") (ih e b)
Agree-shape n m k (nullable_of e) b ih = agree_around (txt "js::typed::Nullable<") (ih e b)

agree : (n m : ℕ) (t : Text) → count_units t < n → count_units t < m → Agree n m t
unfolding Agree
agree zero m t h k = absurd (omega arith)
agree (suc n) zero t h k = absurd (omega arith)
agree (suc n) (suc m) t h k =
    let (cpp, (e, e')) =
      Agree-shape n m (count_units t) (shape t) (shape-Below t)
        (λ e lt. agree n m e (omega arith) (omega arith)) in
    (cpp, (map_type_fuel-suc n t ∙ e, map_type_fuel-suc m t ∙ e'))

-- `mapType` has a result for every text, and any fuel above the text's length gives it.
pub map_type-total :
    (t : Text) (fuel : ℕ)
    → count_units t < fuel
    → (cpp : Text) × ((map_type_fuel fuel t ≡ some cpp) × (map_type t ≡ some cpp))
unfolding map_type Agree
map_type-total t fuel h = agree fuel (suc (count_units t)) t h (omega arith)

pub slice_end-append : (s p : Text) → slice_end (count_units p) (s ++ p) ≡ s
unfolding slice_end
slice_end-append s p =
    rw
      (
        reverse-append s p,
        ← count_units-reverse p,
        drop-append (reverse p) (reverse s),
        reverse-reverse s,
      )
      refl
  where
    drop-append : (a b : Text) → drop (count_units a) (a ++ b) ≡ b
    drop-append [] b = refl
    drop-append (c ∷ a) b = drop-append a b

ends_with-brackets : (s : Text) → ends_with (s ++ txt "[]") (txt "[]") ≡ true
unfolding ends_with starts_with txt
ends_with-brackets s = rw (reverse-append s (txt "[]")) refl

ends_with-angle :
    (s : Text)
    → (ends_with (s ++ txt ">") (txt "[]") ≡ false) × (ends_with (s ++ txt ">") (txt ">") ≡ true)
unfolding ends_with starts_with txt
ends_with-angle s = rw (reverse-append s (txt ">")) (refl, refl)

-- The prefix is none of the suffix's units, so it does not begin with these.
starts_with-brackets :
    (s : Text)
    → starts_with s (txt "js::") ≡ false
    → starts_with (s ++ txt "[]") (txt "js::") ≡ false
unfolding starts_with txt
starts_with-brackets [] h = refl
starts_with-brackets (a ∷ []) h = ground arith
starts_with-brackets (a ∷ b ∷ []) h = ground arith
starts_with-brackets (a ∷ b ∷ c ∷ []) h = ground arith
starts_with-brackets (a ∷ b ∷ c ∷ d ∷ s) h = ground arith

slice_end-brackets : (t : Text) → slice_end 2 (t ++ txt "[]") ≡ t
unfolding txt
slice_end-brackets t = slice_end-append t (b'[' ∷ b']' ∷ [])

slice_end-angle : (t : Text) → slice_end 1 (drop 6 (txt "Array<" ++ (t ++ txt ">"))) ≡ t
unfolding txt
slice_end-angle t = slice_end-append t (b'>' ∷ [])

starts_with-Array :
    (s : Text)
    → (starts_with (txt "Array<" ++ s) (txt "js::") ≡ false)
      × (starts_with (txt "Array<" ++ s) (txt "Array<") ≡ true)
unfolding starts_with txt
starts_with-Array s = (refl, refl)

shape-brackets :
    (t : Text) → starts_with t (txt "js::") ≡ false → shape (t ++ txt "[]") ≡ array_of t
unfolding shape
shape-brackets t h =
    rw (starts_with-brackets t h, ends_with-brackets t) (ap array_of (slice_end-brackets t))

shape-Array : (t : Text) → shape (txt "Array<" ++ (t ++ txt ">")) ≡ array_of t
unfolding shape
shape-Array t =
    let (not_js, is_array) = starts_with-Array (t ++ txt ">") in
    let (not_brackets, angle) = ends_with-angle (txt "Array<" ++ t) in
    let same = append_assoc (txt "Array<") t (txt ">") in
    let no : ends_with (txt "Array<" ++ (t ++ txt ">")) (txt "[]") ≡ false =
      rw (← same) not_brackets in
    let yes_angle : ends_with (txt "Array<" ++ (t ++ txt ">")) (txt ">") ≡ true =
      rw (← same) angle in
    rw (not_js, no, is_array, yes_angle) (ap array_of (slice_end-angle t))

around_agree :
    (n m : ℕ) (t : Text)
    → count_units t < n
    → count_units t < m
    → map_shape n (array_of t) ≡ map_shape m (array_of t)
unfolding map_shape Agree
around_agree n m t h k =
    let (cpp, (e, e')) = agree n m t h k in
    around-some (txt "js::array<") e ∙ sym (around-some (txt "js::array<") e')

longer_texts :
    (t : Text)
    → (count_units t < count_units (t ++ txt "[]"))
      × (count_units t < count_units (txt "Array<" ++ (t ++ txt ">")))
unfolding txt
longer_texts t = (
  omega (arith, count_units-append t (b'[' ∷ b']' ∷ [])),
  omega (arith, count_units-append t (b'>' ∷ [])),
)

-- The two notations for arrays come out as one C++ type, unless the type starts with `js::`; the
-- type of the elements is any text, a union type too.
pub map_type-arrays :
    (t : Text)
    → starts_with t (txt "js::") ≡ false
    → map_type (t ++ txt "[]") ≡ map_type (txt "Array<" ++ (t ++ txt ">"))
unfolding map_type
map_type-arrays t h =
    let (k, l) = longer_texts t in
    let n = count_units (t ++ txt "[]") in
    let m = count_units (txt "Array<" ++ (t ++ txt ">")) in
    map_type_fuel-suc n (t ++ txt "[]")
    ∙ ap (map_shape n) (shape-brackets t h)
    ∙ around_agree n m t k l
    ∙ sym (map_type_fuel-suc m (txt "Array<" ++ (t ++ txt ">")) ∙ ap (map_shape m) (shape-Array t))
