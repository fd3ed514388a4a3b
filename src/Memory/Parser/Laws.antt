-- ===== src/Memory/Parser/Laws.antt =====
-- The lines on which `MemoryAnnotationParser` of src/memory/annotations.ts finds properties.
use typescript2cxx.Prelude.{
  ℕ, suc, ◌+◌, ◌≤◌, ◌≡◌, ◌≢◌, refl, sym, ◌∙◌, inl, inr, Bool, true, false, Bool-cases, Option, some,
  none, List, [], ◌∷◌, ◌++◌, if◌then◌else◌, Text, txt, text_eq, text_eq→eq, trim, split_lines, All,
  arith,
}
use typescript2cxx.Memory.{none as no_annotation}
use typescript2cxx.Memory.Parser.{
  Language, AnnotationInfo, Annotations, set_annotation, find_annotation, find_next_property,
  annotation_key, parse_annotation_name, parse_lines, parse, get_annotation,
}

-- The digits of a number hold no colon, and two numbers have not the same digits.
pub record HasDigits (language : Language) : Type 0 where
  pub no_colon : (n : ℕ) → All (λ c. c ≢ b':') (language.show n)
  pub injective : (m n : ℕ) → language.show m ≡ language.show n → m ≡ n

append-cancel : (s t u : Text) → s ++ t ≡ s ++ u → t ≡ u
append-cancel [] t u e = e
append-cancel (c ∷ s) t u e = append-cancel s t u cc

before_colon :
    (s t u v : Text)
    → All (λ c. c ≢ b':') s
    → All (λ c. c ≢ b':') t
    → s ++ (b':' ∷ u) ≡ t ++ (b':' ∷ v)
    → s ≡ t
before_colon [] [] u v h k e = refl
before_colon [] (c ∷ t) u v h (k, _) e = absurd (k cc)
before_colon (c ∷ s) [] u v (h, _) k e = absurd (h cc)
before_colon (c ∷ s) (d ∷ t) u v (_, h) (_, k) e =
    let rest : s ≡ t = before_colon s t u v h k cc in cc

-- The line of a property, if one is found, is after the index.
abbrev pub IsAfter : ℕ → Option (Text × ℕ) → Type 0
IsAfter i none = Unit {0}
IsAfter i (some (name, line)) = suc i ≤ line

suc-IsAfter : (i : ℕ) (o : Option (Text × ℕ)) → IsAfter (suc i) o → IsAfter i o
suc-IsAfter i none h = tt
suc-IsAfter i (some (name, line)) h = omega (arith, h)

if-IsAfter :
    (i : ℕ) (b : Bool) (o o' : Option (Text × ℕ))
    → IsAfter i o
    → IsAfter i o'
    → IsAfter i (if b then o else o')
if-IsAfter i true o o' h k = h
if-IsAfter i false o o' h k = k

stop-IsAfter :
    (i : ℕ) (b : Bool) (o : Option (Text × ℕ)) → IsAfter i o → IsAfter i (if b then none else o)
stop-IsAfter i true o h = tt
stop-IsAfter i false o h = h

match-IsAfter :
    (i : ℕ) (found : Option Text) (o : Option (Text × ℕ))
    → IsAfter i o
    → IsAfter i (elim found [ some name ↦ some (name, i + 1) | none ↦ o ])
match-IsAfter i none o h = h
match-IsAfter i (some name) o h = omega arith

module _ (language : Language) where
  -- The key of a line that is not the first one.
  abbrev pub IsLater : Text → Text × AnnotationInfo → Type 0
  IsLater filename entry =
      (line : ℕ) × (name : Text) × (2 ≤ line)
      × (entry.0 ≡ annotation_key language filename line name)

  find_next_property-IsAfter :
      (lines : List Text) (i : ℕ) → IsAfter i (find_next_property language lines i)
  unfolding find_next_property
  find_next_property-IsAfter [] i = tt
  find_next_property-IsAfter (raw ∷ lines) i =
      let next = suc-IsAfter i _ (find_next_property-IsAfter lines (suc i)) in
      if-IsAfter i _ _ _ next
        (match-IsAfter i (language.match_property (trim raw)) _ (stop-IsAfter i _ _ next))

  set_annotation-All :
      (P : Text × AnnotationInfo → Type 0) (key : Text) (info : AnnotationInfo) (as' : Annotations)
      → ((i : AnnotationInfo) → P (key, i))
      → All P as'
      → All P (set_annotation key info as')
  set_annotation-All P key info [] p h = (p info, tt)
  set_annotation-All P key info ((k, i) ∷ as') p (q, h) = elim (Bool-cases (text_eq k key)) [
    | inl e ↦ rw e (rw (text_eq→eq k key e) (p info), h)
    | inr e ↦ rw e (q, set_annotation-All P key info as' p h)
  ]

  add-All :
      (filename : Text) (i : ℕ) (found : Option (ℕ × Text)) (property : Option (Text × ℕ))
      (info : ℕ × Text → AnnotationInfo) (as' : Annotations)
      → IsAfter (i + 1) property
      → All (IsLater filename) as'
      → All (IsLater filename) (elim found [
        | none ↦ as'
        | some x ↦ elim property [
          | none ↦ as'
          | some p ↦ set_annotation (annotation_key language filename p.1 p.0) (info x) as'
        ]
      ])
  add-All filename i none property info as' l h = h
  add-All filename i (some x) none info as' l h = h
  add-All filename i (some x) (some (name, line)) info as' l h =
      set_annotation-All (IsLater filename) (annotation_key language filename line name) (info x)
        as' (λ _. (line, name, omega (arith, l), refl)) h

  parse_lines-All :
      (filename : Text) (lines : List Text) (i : ℕ) (as' : Annotations)
      → All (IsLater filename) as'
      → All (IsLater filename) (parse_lines language filename lines i as')
  unfolding parse_lines
  parse_lines-All filename [] i as' h = h
  parse_lines-All filename (line ∷ lines) i as' h = parse_lines-All filename lines (suc i) _ (
      add-All filename i (language.match_annotation line)
        (find_next_property language lines (i + 1))
        (λ x. record {
          annotation = parse_annotation_name language x.1;
          line = i + 1;
          column = x.0;
        })
        as' (find_next_property-IsAfter lines (i + 1)) h)

  find_annotation-none :
      (filename name : Text) (as' : Annotations)
      → HasDigits language
      → All (IsLater filename) as'
      → find_annotation (annotation_key language filename 1 name) as' ≡ none
  unfolding annotation_key txt
  find_annotation-none filename name [] d h = refl
  find_annotation-none filename name ((k, i) ∷ as') d ((line, p, later, e), h) =
      elim (Bool-cases (text_eq k (annotation_key language filename 1 name))) [
        | inl f ↦ absurd (
            let g = append-cancel filename _ _ (sym e ∙ text_eq→eq k _ f) in
            let same =
              before_colon (language.show line) (language.show 1) p name (d.no_colon line)
                (d.no_colon 1) (append-cancel (txt ":") _ _ g) in
            let one = d.injective line 1 same in omega (arith, later, one))
        | inr f ↦ rw f (find_annotation-none filename name as' d h)
      ]

  -- Of every source file the parser finds no annotation on line 1, whatever the file's name and the
  -- property's; if the digits of numbers differ and hold no colon.
  pub get_annotation-first_line :
      (digits : HasDigits language) (source filename name : Text)
      → get_annotation language (parse language source filename) filename 1 name ≡ no_annotation
  unfolding get_annotation parse
  get_annotation-first_line d source filename name =
      rw
        (
          get_annotation,
          parse,
          find_annotation-none filename name
              (parse_lines language filename (split_lines source) 0 []) d
              (parse_lines-All filename (split_lines source) 0 [] tt),
        )
        refl
