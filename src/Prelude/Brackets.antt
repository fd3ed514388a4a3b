-- ===== src/Prelude/Brackets.antt =====
-- Matching brackets in a text, `<` with `>` and `(` with `)`, and the texts that keep them matched.
use typescript2cxx.Prelude.{
  ℕ, ◌≡◌, refl, inl, inr, Bool, false, ◌||◌, Option-cases, Option, none, some, List, [], ◌∷◌, ◌++◌,
  arith, ◌==◌, if◌then◌else◌, All, Text, join, true, Bool-cases, starts_with, remove_first, drop,
  count_units,
}

-- The closing brackets that are awaited, the innermost first, after one more code unit.
abbrev close_bracket : ℕ → List ℕ → Option (List ℕ)
close_bracket c [] = none
close_bracket c (b ∷ st) = if c == b then some st else none

unfoldable pub bracket : ℕ → List ℕ → Option (List ℕ)
bracket c st =
    if c == b'<'
    then some (b'>' ∷ st)
    else if c == b'('
    then some (b')' ∷ st)
    else if c == b'>' || c == b')'
    then close_bracket c st
    else some st

abbrev and_then : Option (List ℕ) → (List ℕ → Option (List ℕ)) → Option (List ℕ)
and_then none k = none
and_then (some st) k = k st

unfoldable pub scan : List ℕ → Text → Option (List ℕ)
unfolding bracket
scan st [] = some st
scan st (c ∷ s) = and_then (bracket c st) (λ st'. scan st' s)

-- Every bracket that the text opens is closed by its own kind, in the right order, and no other.
abbrev pub IsBalanced : Text → Type 0
IsBalanced s = (st : List ℕ) → scan st s ≡ some st

pub scan-append :
    (st : List ℕ) (s t : Text) → scan st (s ++ t) ≡ and_then (scan st s) (λ st'. scan st' t)
unfolding scan
scan-append st [] t = refl
scan-append st (c ∷ s) t = elim (Option-cases (bracket c st)) [
  | inl e ↦ rw e
  | inr (st', e) ↦ rw e (scan-append st' s t)
]

pub IsBalanced-append : (s t : Text) → IsBalanced s → IsBalanced t → IsBalanced (s ++ t)
IsBalanced-append s t h k st = rw (scan-append st s t, h st) (k st)

-- A text between an opening and a closing one.
pub IsBalanced-between :
    (b : ℕ) (open_text s close_text : Text)
    → ((st : List ℕ) → scan st open_text ≡ some (b ∷ st))
    → IsBalanced s
    → ((st : List ℕ) → scan (b ∷ st) close_text ≡ some st)
    → IsBalanced (open_text ++ s ++ close_text)
IsBalanced-between b open_text s close_text o h c st =
    rw (scan-append st (open_text ++ s) close_text, scan-append st open_text s, o st, h (b ∷ st))
      (c st)

pub IsBalanced-join :
    (sep : Text) (ts : List Text) → IsBalanced sep → All IsBalanced ts → IsBalanced (join sep ts)
unfolding scan
IsBalanced-join sep [] h k = λ st. refl
IsBalanced-join sep (t ∷ []) h (k, _) = k
IsBalanced-join sep (t ∷ u ∷ ts) h (k, ks) =
    IsBalanced-append t _ k (IsBalanced-append sep _ h (IsBalanced-join sep (u ∷ ts) h ks))

-- No bracket at all.
abbrev pub is_bracket : ℕ → Bool
is_bracket c = c == b'<' || c == b'>' || c == b'(' || c == b')'

abbrev pub IsPlain : Text → Type 0
IsPlain s = All (λ c. is_bracket c ≡ false) s

bracket-plain : (c : ℕ) (st : List ℕ) → is_bracket c ≡ false → bracket c st ≡ some st
unfolding bracket
bracket-plain c st h = ground arith

pub IsBalanced-of_IsPlain : (s : Text) → IsPlain s → IsBalanced s
unfolding scan
IsBalanced-of_IsPlain [] h st = refl
IsBalanced-of_IsPlain (c ∷ s) (h, hs) st = rw (bracket-plain c st h) (IsBalanced-of_IsPlain s hs st)

scan-cons :
    (c : ℕ) (st : List ℕ) (s t : Text)
    → ((st' : List ℕ) → scan st' s ≡ scan st' t)
    → scan st (c ∷ s) ≡ scan st (c ∷ t)
unfolding scan
scan-cons c st s t h = elim (Option-cases (bracket c st)) [
  | inl e ↦ rw e
  | inr (st', e) ↦ rw e (h st')
]

scan-drop :
    (p s : Text) (st : List ℕ)
    → IsPlain p
    → starts_with s p ≡ true
    → scan st (drop (count_units p) s) ≡ scan st s
unfolding scan starts_with
scan-drop [] s st h k = refl
scan-drop (d ∷ p) [] st h k = cc
scan-drop (d ∷ p) (c ∷ s) st (h, hs) k =
    let same : c ≡ d = ground arith in
    let rest : starts_with s p ≡ true = ground arith in
    rw (same, bracket-plain d st h) (scan-drop p s st hs rest)

-- A part with no bracket can be taken out.
pub scan-remove_first :
    (p s : Text) (st : List ℕ) → IsPlain p → scan st (remove_first p s) ≡ scan st s
unfolding remove_first
scan-remove_first p [] st h = refl
scan-remove_first p (c ∷ s) st h = elim (Bool-cases (starts_with (c ∷ s) p)) [
  | inl here ↦ rw here (scan-drop p (c ∷ s) st h here)
  | inr later ↦ rw later (scan-cons c st (remove_first p s) s (λ st'. scan-remove_first p s st' h))
]
