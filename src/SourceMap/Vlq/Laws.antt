-- ===== src/SourceMap/Vlq/Laws.antt =====
-- What the digits of a number mean.
use native.Mathlib.Nat.{pow-suc}
use typescript2cxx.Prelude.{
  ℕ, zero, suc, ◌+◌, if◌then◌else◌, ==_iff, ◌/◌, ◌^◌, ◌<◌, ◌≤◌, ◌≡◌, refl, sym, ◌∙◌, ap, inl, inr,
  Bool, true, false, Option, some, none, List, [], ◌∷◌, ◌++◌, ◌&&◌, not, map, arith, ◌==◌, ltb, ◌≢◌,
  ltb→lt, All, Bool-cases, Option-cases, Text, append_assoc, append-nil, txt,
}
use typescript2cxx.Prelude.Int.{ℤ, pos, negsuc, abs}
use typescript2cxx.SourceMap.Vlq.{
  chars, encode_base64, vlq_bits, is_positive, vlq_digit, vlq_loop, or_zero, encode_base64_vlq,
  encode_vlq,
}
use typescript2cxx.SourceMap.Decode.{
  Token, num, tokens, digit_of, add_char, add_digit, ◌>>=◌, signed,
}

-- `c` is no separator, and stands for the digit `d`.
char_ok : ℕ → ℕ → Option ℕ → Bool
char_ok d c none = false
char_ok d c (some e) = e == d && not (c == b',') && not (c == b';')

text_ok : ℕ → Text → Bool
unfolding char_ok
text_ok d (c ∷ []) = char_ok d c (digit_of c)
text_ok d _ = false

-- A test of every number from `k` on, for so many of them.
check_run : (ℕ → Bool) → ℕ → ℕ → Bool
check_run test k zero = true
check_run test k (suc more) =
    let rest = check_run test (suc k) more in if test k then rest else false

check_run_at :
    (test : ℕ → Bool) (k more d : ℕ)
    → check_run test k more ≡ true
    → k ≤ d
    → d < k + more
    → test d ≡ true
unfolding check_run
check_run_at test k zero d run low high = absurd (omega arith)
check_run_at test k (suc more) d run low high = elim (Bool-cases (k == d)) [
  | inl here ↦
      let same : k ≡ d = ground arith in let now : test k ≡ true = ground arith in rw (← same) now
  | inr beyond ↦
      let rest : check_run test (suc k) more ≡ true = ground arith in
      let above : k ≢ d = λ e. ground (arith, (==_iff k d).1 e) in
      check_run_at test (suc k) more d rest (omega arith) (omega arith)
]

-- Every digit, by evaluation.
digits_ok : check_run (λ d. text_ok d (encode_base64 d)) 0 64 ≡ true
unfolding check_run text_ok char_ok encode_base64 chars txt digit_of
digits_ok = refl

add_char-digit :
    (d c : ℕ) (o : Option ℕ) (ts : List Token)
    → char_ok d c o ≡ true
    → digit_of c ≡ o
    → add_char c ts ≡ add_digit (some d) ts
unfolding char_ok
add_char-digit d c none ts h e = cc
add_char-digit d c (some x) ts h e = rw e (ground arith)

tokens-digit_text :
    (d : ℕ) (t rest : Text)
    → text_ok d t ≡ true
    → tokens (t ++ rest) ≡ (tokens rest >>= add_digit (some d))
unfolding text_ok tokens
tokens-digit_text d (c ∷ []) rest h = elim (Option-cases (tokens rest)) [
  | inl e ↦ rw e
  | inr (ts, e) ↦ rw e (add_char-digit d c (digit_of c) ts h refl)
]
tokens-digit_text d [] rest h = cc
tokens-digit_text d (c ∷ c' ∷ t) rest h = cc

-- The text of a digit is read as that digit.
tokens-encode_base64 :
    (d : ℕ) (rest : Text)
    → d < 64
    → tokens (encode_base64 d ++ rest) ≡ (tokens rest >>= add_digit (some d))
tokens-encode_base64 d rest h =
    tokens-digit_text d (encode_base64 d) rest
      (check_run_at (λ d. text_ok d (encode_base64 d)) 0 64 d digits_ok (omega arith) (omega arith))

-- What the loop adds to the result does not depend on the result.
vlq_loop-append : (f u : ℕ) (acc : Text) → vlq_loop f u acc ≡ acc ++ vlq_loop f u []
unfolding vlq_loop
vlq_loop-append zero u acc = sym (append-nil acc)
vlq_loop-append (suc f) u acc = elim (Bool-cases (is_positive u)) [
  | inr stop ↦ rw stop (sym (append-nil acc))
  | inl go ↦ rw go (
      vlq_loop-append f (u / 32) (acc ++ encode_base64 (vlq_digit u))
      ∙ append_assoc acc _ _
      ∙ sym (ap (λ t. acc ++ t) (vlq_loop-append f (u / 32) (encode_base64 (vlq_digit u)))))
]

vlq_loop-zero : (f : ℕ) → vlq_loop f 0 [] ≡ []
unfolding vlq_loop is_positive
vlq_loop-zero zero = refl
vlq_loop-zero (suc f) = refl

is_positive_lem : (u : ℕ) → 0 < u → u < 2147483648 → is_positive u ≡ true
unfolding is_positive
is_positive_lem u p c = ground arith

vlq_digit-lt : (u : ℕ) → vlq_digit u < 64
unfolding vlq_digit
vlq_digit-lt u = ground arith

div-lt_pow : (f u : ℕ) → u < 32 ^ suc f → u / 32 < 32 ^ f
div-lt_pow f u b = omega (arith, pow-suc 32 f)

-- The two kinds of digit: one that goes on and one that ends the number.
add_digit-more :
    (u : ℕ) (ts : List Token)
    → 0 < u / 32
    → add_digit (some (vlq_digit u)) (num (u / 32) ∷ ts) ≡ some (num u ∷ ts)
unfolding vlq_digit
add_digit-more u ts h = ground arith

add_digit-last :
    (u : ℕ) (ts : List Token) → u / 32 ≡ 0 → add_digit (some (vlq_digit u)) ts ≡ some (num u ∷ ts)
unfolding vlq_digit
add_digit-last u ts h = ground arith

pub tokens-nil : tokens [] ≡ some []
unfolding tokens
tokens-nil = refl

-- A positive number below 32 to the rounds, and below 2^31, is read back.
tokens-vlq_loop :
    (f u : ℕ) (rest : Text) (ts : List Token)
    → 0 < u
    → u < 32 ^ f
    → u < 2147483648
    → tokens rest ≡ some ts
    → tokens (vlq_loop f u [] ++ rest) ≡ some (num u ∷ ts)
unfolding vlq_loop
tokens-vlq_loop zero u rest ts p b c h = absurd (omega arith)
tokens-vlq_loop (suc f) u rest ts p b c h =
    rw
      (
        is_positive_lem u p c,
        vlq_loop-append f (u / 32) (encode_base64 (vlq_digit u)),
        append_assoc,
        tokens-encode_base64 (vlq_digit u) (vlq_loop f (u / 32) [] ++ rest) (vlq_digit-lt u),
      )
      (elim (Bool-cases (ltb 0 (u / 32))) [
        | inl more ↦
            rw
              (tokens-vlq_loop f (u / 32) rest ts (ltb→lt _ _ more) (div-lt_pow f u b) (omega arith)
                h)
              (add_digit-more u ts (ltb→lt _ _ more))
        | inr done ↦
            let e : u / 32 ≡ 0 = ground arith in rw (e, vlq_loop-zero f, h) (add_digit-last u ts e)
      ])

pub vlq_bits-bounds : (v : ℤ) → abs v < 1073741824 → vlq_bits v < 2147483648
unfolding vlq_bits
vlq_bits-bounds (pos n) h = omega arith
vlq_bits-bounds (negsuc n) h = omega arith

pub signed-vlq_bits : (v : ℤ) → abs v < 1073741824 → signed (vlq_bits v) ≡ v
unfolding vlq_bits signed
signed-vlq_bits (pos n) h = ground arith
signed-vlq_bits (negsuc n) h = ground arith

or_zero_lem : (t : Text) → t ≢ [] → or_zero t ≡ t
or_zero_lem [] h = absurd (h refl)
or_zero_lem (c ∷ t) h = refl

vlq_loop-ne_nil : (u : ℕ) → 0 < u → u < 2147483648 → vlq_loop 7 u [] ≢ []
vlq_loop-ne_nil u p c e =
    let read = tokens-vlq_loop 7 u [] [] p (omega arith) c tokens-nil in
    cc (rw e at read, tokens-nil)

tokens-or_zero :
    (u : ℕ) (rest : Text) (ts : List Token)
    → u < 2147483648
    → tokens rest ≡ some ts
    → tokens (or_zero (vlq_loop 7 u []) ++ rest) ≡ some (num u ∷ ts)
tokens-or_zero zero rest ts c h =
    rw (vlq_loop-zero 7, tokens-encode_base64 0 rest (omega arith), h) refl
tokens-or_zero (suc u) rest ts c h =
    rw (or_zero_lem _ (vlq_loop-ne_nil (suc u) (omega arith) c))
      (tokens-vlq_loop 7 (suc u) rest ts (omega arith) (omega arith) c h)

-- An integer whose absolute value is below 2^30 is read back from its text, whatever follows.
pub tokens-encode_base64_vlq :
    (v : ℤ) (rest : Text) (ts : List Token)
    → abs v < 1073741824
    → tokens rest ≡ some ts
    → tokens (encode_base64_vlq v ++ rest) ≡ some (num (vlq_bits v) ∷ ts)
unfolding encode_base64_vlq
tokens-encode_base64_vlq v rest ts b h = tokens-or_zero (vlq_bits v) rest ts (vlq_bits-bounds v b) h

pub tokens-encode_vlq :
    (vs : List ℤ) (rest : Text) (ts : List Token)
    → All (λ v. abs v < 1073741824) vs
    → tokens rest ≡ some ts
    → tokens (encode_vlq vs ++ rest) ≡ some (map (λ v. num (vlq_bits v)) vs ++ ts)
unfolding encode_vlq
tokens-encode_vlq [] rest ts b h = h
tokens-encode_vlq (v ∷ vs) rest ts (b, bs) h =
    rw (append_assoc (encode_base64_vlq v) (encode_vlq vs) rest)
      (tokens-encode_base64_vlq v _ _ b (tokens-encode_vlq vs rest ts bs h))

-- Every integer whose absolute value is below 2^30 is the one that its text denotes.
pub read-encode_base64_vlq :
    (v : ℤ)
    → abs v < 1073741824
    → (u : ℕ) × (tokens (encode_base64_vlq v) ≡ some (num u ∷ [])) × (signed u ≡ v)
read-encode_base64_vlq v b = (
  vlq_bits v,
  rw append-nil at (tokens-encode_base64_vlq v [] [] b tokens-nil),
  signed-vlq_bits v b,
)

vlq_loop-stop : (f u : ℕ) → is_positive u ≡ false → vlq_loop (suc f) u [] ≡ []
unfolding vlq_loop
vlq_loop-stop f u h = rw h

vlq_bits-negative :
    (n : ℕ) → 1073741824 ≤ n → n < 2147483648 → is_positive (vlq_bits (pos n)) ≡ false
unfolding vlq_bits is_positive
vlq_bits-negative n h h' = ground arith

stopped : is_positive (vlq_bits (pos 0)) ≡ false
unfolding vlq_bits is_positive
stopped = refl

-- From 2^30 on to 2^31 the shift reaches the sign bit: the loop is not entered, and the text is
-- that of 0.
pub encode_base64_vlq-large :
    (n : ℕ)
    → 1073741824 ≤ n
    → n < 2147483648
    → encode_base64_vlq (pos n) ≡ encode_base64_vlq (pos 0)
unfolding encode_base64_vlq
encode_base64_vlq-large n h h' =
    rw
      (
        vlq_loop-stop 6 (vlq_bits (pos n)) (vlq_bits-negative n h h'),
        vlq_loop-stop 6 (vlq_bits (pos 0)) stopped,
      )
      refl
