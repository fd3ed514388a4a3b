-- ===== src/Codegen/Lexical.antt =====
-- Brackets and string literals in C++ code, and the texts that close all that they open.
pub mod Operators
pub mod Names
pub mod Access
pub mod Plain
pub mod Parts
pub mod Whole
use typescript2cxx.Prelude.{
  ℕ, ◌≡◌, refl, inl, inr, Bool, false, ◌||◌, Option-cases, Option, none, some, List, [], ◌∷◌, ◌++◌,
  arith, ◌==◌, if◌then◌else◌, All, Text, txt, join,
}

-- In code, in a string literal, and after a backslash there.
pub data Mode : Type 0 where
  code quoted escaped : Mode

abbrev pub Lexer : Type 0
Lexer = Mode × List ℕ

-- A closing bracket is the one that is awaited.
abbrev close : ℕ → List ℕ → Option Lexer
close c [] = none
close c (b ∷ st) = if c == b then some (code, st) else none

-- One unit.
unfoldable pub advance : Lexer → ℕ → Option Lexer
advance (code, st) c =
    if c == b'"'
    then some (quoted, st)
    else if c == b'('
    then some (code, b')' ∷ st)
    else if c == b'['
    then some (code, b']' ∷ st)
    else if c == b'{'
    then some (code, b'}' ∷ st)
    else if c == b')' || c == b']' || c == b'}'
    then close c st
    else some (code, st)
advance (quoted, st) c =
    if c == b'"'
    then some (code, st)
    else if c == b'\\'
    then some (escaped, st)
    else some (quoted, st)
advance (escaped, st) c = some (quoted, st)

abbrev pub and_then : Option Lexer → (Lexer → Option Lexer) → Option Lexer
and_then none k = none
and_then (some l) k = k l

unfoldable pub lex : Lexer → Text → Option Lexer
unfolding advance
lex l [] = some l
lex l (c ∷ s) = and_then (advance l c) (λ l'. lex l' s)

-- From code to code, and every bracket that is opened is closed by its own kind, and no other.
pub IsClosed : Text → Type 0
IsClosed s = (st : List ℕ) → lex (code, st) s ≡ some (code, st)

-- A part of a string literal.
pub IsQuoted : Text → Type 0
IsQuoted s = (st : List ℕ) → lex (quoted, st) s ≡ some (quoted, st)

abbrev pub is_special : ℕ → Bool
is_special c =
    c == b'"'
    || c == b'\\'
    || c == b'('
    || c == b'['
    || c == b'{'
    || c == b')'
    || c == b']'
    || c == b'}'

-- No bracket, no quote and no backslash.
abbrev pub IsBare : Text → Type 0
IsBare s = All (λ c. is_special c ≡ false) s

pub lex-append : (l : Lexer) (s t : Text) → lex l (s ++ t) ≡ and_then (lex l s) (λ l'. lex l' t)
unfolding lex
lex-append l [] t = refl
lex-append l (c ∷ s) t = elim (Option-cases (advance l c)) [
  | inl e ↦ rw e
  | inr (l', e) ↦ rw e (lex-append l' s t)
]

pub IsClosed-append : (s t : Text) → IsClosed s → IsClosed t → IsClosed (s ++ t)
unfolding IsClosed
IsClosed-append s t h k st = rw (lex-append (code, st) s t, h st) (k st)

pub IsQuoted-append : (s t : Text) → IsQuoted s → IsQuoted t → IsQuoted (s ++ t)
unfolding IsQuoted
IsQuoted-append s t h k st = rw (lex-append (quoted, st) s t, h st) (k st)

pub nil-IsClosed : IsClosed []
unfolding IsClosed lex
nil-IsClosed st = refl

pub nil-IsQuoted : IsQuoted []
unfolding IsQuoted lex
nil-IsQuoted st = refl

advance-bare_code :
    (c : ℕ) (st : List ℕ) → is_special c ≡ false → advance (code, st) c ≡ some (code, st)
unfolding advance
advance-bare_code c st h = ground arith

advance-bare_quoted :
    (c : ℕ) (st : List ℕ) → is_special c ≡ false → advance (quoted, st) c ≡ some (quoted, st)
unfolding advance
advance-bare_quoted c st h = ground arith

pub IsClosed-of_IsBare : (s : Text) → IsBare s → IsClosed s
unfolding IsClosed lex
IsClosed-of_IsBare [] h st = refl
IsClosed-of_IsBare (c ∷ s) (h, hs) st = rw (advance-bare_code c st h) (IsClosed-of_IsBare s hs st)

pub IsQuoted-of_IsBare : (s : Text) → IsBare s → IsQuoted s
unfolding IsQuoted lex
IsQuoted-of_IsBare [] h st = refl
IsQuoted-of_IsBare (c ∷ s) (h, hs) st = rw (advance-bare_quoted c st h) (IsQuoted-of_IsBare s hs st)

-- A text between an opening and a closing one.
between :
    (o s c : Text) (b : ℕ)
    → ((st : List ℕ) → lex (code, st) o ≡ some (code, b ∷ st))
    → ((st : List ℕ) → lex (code, b ∷ st) c ≡ some (code, st))
    → IsClosed s
    → IsClosed (o ++ (s ++ c))
unfolding IsClosed
between o s c b ho hc h st =
    rw (lex-append (code, st) o (s ++ c), ho st, lex-append (code, b ∷ st) s c, h (b ∷ st)) (hc st)

pub IsClosed-paren : (s : Text) → IsClosed s → IsClosed (txt "(" ++ (s ++ txt ")"))
unfolding lex txt
IsClosed-paren s = between (txt "(") s (txt ")") b')' (λ st. refl) (λ st. refl)

pub IsClosed-braces : (s : Text) → IsClosed s → IsClosed (txt "{" ++ (s ++ txt "}"))
unfolding lex txt
IsClosed-braces s = between (txt "{") s (txt "}") b'}' (λ st. refl) (λ st. refl)

pub IsClosed-brackets : (s : Text) → IsClosed s → IsClosed (txt "[" ++ (s ++ txt "]"))
unfolding lex txt
IsClosed-brackets s = between (txt "[") s (txt "]") b']' (λ st. refl) (λ st. refl)

pub IsClosed-quotes : (s : Text) → IsQuoted s → IsClosed (txt "\"" ++ (s ++ txt "\""))
unfolding IsClosed IsQuoted lex txt
IsClosed-quotes s h st = rw (lex-append (quoted, st) s (txt "\""), h st) refl

pub IsClosed-join :
    (sep : Text) (ts : List Text) → IsClosed sep → All IsClosed ts → IsClosed (join sep ts)
IsClosed-join sep [] h k = nil-IsClosed
IsClosed-join sep (t ∷ []) h (k, _) = k
IsClosed-join sep (t ∷ u ∷ ts) h (k, ks) =
    IsClosed-append t _ k (IsClosed-append sep _ h (IsClosed-join sep (u ∷ ts) h ks))
