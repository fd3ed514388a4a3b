-- ===== src/SourceMap/Decode.antt =====
-- A reader of source map `mappings`, written from the source map format (revision 3) and not from
-- the generator. It is the independent description that the generator is held to.
use typescript2cxx.Prelude.{
  ℕ, ◌+◌, ◌-◌, ◌*◌, ◌/◌, ◌%◌, ◌≡◌, inl, inr, arith, Option-cases, ◌&&◌, Option, none, some, List,
  [], ◌∷◌, ◌++◌, ltb, ◌==◌, if◌then◌else◌, Text,
}
use typescript2cxx.Prelude.Int.{ℤ, pos, negsuc}

-- The six bits of a Base64 digit.
unfoldable pub digit_of : ℕ → Option ℕ
digit_of c =
    if ltb b'@' c && ltb c b'['
    then some (c - b'A')
    else if ltb b'`' c && ltb c b'{'
    then some (c - b'a' + 26)
    else if ltb b'/' c && ltb c b':'
    then some (c - b'0' + 52)
    else if c == b'+'
    then some 62
    else if c == b'/'
    then some 63
    else none

-- A number, `,` or `;`.
pub data Token : Type 0 where
  num : ℕ → Token
  comma semicolon : Token

abbrev pub extend : ℕ → List Token → Option (List Token)
extend d (num n ∷ ts) = some (num (d - 32 + 32 * n) ∷ ts)
extend d _ = none

-- A digit below 32 ends its number; any other is the low five bits of the number that follows.
abbrev pub add_digit : Option ℕ → List Token → Option (List Token)
add_digit none ts = none
add_digit (some d) ts = if ltb d 32 then some (num d ∷ ts) else extend d ts

abbrev pub add_char : ℕ → List Token → Option (List Token)
add_char c ts =
    if c == b','
    then some (comma ∷ ts)
    else if c == b';'
    then some (semicolon ∷ ts)
    else add_digit (digit_of c) ts

infixl 5 ◌>>=◌
abbrev pub ◌>>=◌ {ℓ κ} : {A : Type ℓ} {B : Type κ} → Option A → (A → Option B) → Option B
none >>= k = none
some a >>= k = k a

unfoldable pub tokens : Text → Option (List Token)
unfolding digit_of
tokens [] = some []
tokens (c ∷ s) = tokens s >>= add_char c

-- The lowest bit is the sign.
unfoldable pub signed : ℕ → ℤ
signed n = if n % 2 == 0 then pos (n / 2) else if n == 1 then pos 0 else negsuc (n / 2 - 1)

add_char-append :
    (c : ℕ) (ts us : List Token) {vs : List Token}
    → add_char c ts ≡ some vs
    → add_char c (ts ++ us) ≡ some (vs ++ us)
add_char-append c [] us h = ground arith
add_char-append c (num n ∷ ts) us h = ground arith
add_char-append c (comma ∷ ts) us h = ground arith
add_char-append c (semicolon ∷ ts) us h = ground arith

-- A text that is read whole may be followed by another.
pub tokens-append :
    (s t : Text) {ts us : List Token}
    → tokens s ≡ some ts
    → tokens t ≡ some us
    → tokens (s ++ t) ≡ some (ts ++ us)
unfolding tokens
tokens-append [] t h k = ground arith
tokens-append (c ∷ s) t {ts} {us} h k = elim (Option-cases (tokens s)) [
  | inl e ↦ ground arith
  | inr (vs, e) ↦ rw (tokens-append s t e k) (add_char-append c vs us (rw e at h))
]
