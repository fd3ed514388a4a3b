-- ===== src/SourceMap/Vlq.antt =====
-- Base64 VLQ: `encodeBase64`, `encodeBase64VLQ` and `encodeVLQ` of src/sourcemap/generator.ts.
pub mod Laws
use typescript2cxx.Prelude.{
  ℕ, zero, suc, ◌+◌, ◌*◌, ◌/◌, ◌%◌, Bool, ◌&&◌, Option, none, some, List, [], ◌∷◌, ◌++◌, ltb,
  if◌then◌else◌, get_elem?, Text, txt,
}
use typescript2cxx.Prelude.Int.{ℤ, pos, negsuc}

unfoldable pub chars : Text
chars = txt "ABCDEFGHIJKLMNOPQRSTUVWXYZabcdefghijklmnopqrstuvwxyz0123456789+/"

-- `value & 0x3f` is the remainder by 64. A read past the table would give `undefined`.
unfoldable pub encode_base64 : ℕ → Text
encode_base64 value = elim (get_elem? chars (value % 64)) [
  | some c ↦ c ∷ []
  | none ↦ txt "undefined"
]

-- The 32 bits of `value < 0 ? ((-value) << 1) | 1 : value << 1`: `<<` works modulo 2^32, and `| 1`
-- sets the lowest bit, which the shift has cleared.
unfoldable pub vlq_bits : ℤ → ℕ
vlq_bits (pos n) = (2 * n) % 4294967296
vlq_bits (negsuc n) = (2 * suc n) % 4294967296 + 1

-- `vlq > 0` at the int32 with these bits: its sign bit is clear, and it is not 0.
unfoldable pub is_positive : ℕ → Bool
is_positive bits = ltb 0 bits && ltb bits 2147483648

-- `vlq & 0x1f`, with the continuation bit `0x20` if more of the number is left.
unfoldable pub vlq_digit : ℕ → ℕ
vlq_digit vlq = if ltb 0 (vlq / 32) then vlq % 32 + 32 else vlq % 32

-- `while (vlq > 0) { … }`, with fuel for seven rounds; 32 bits have no more groups of five.
-- After `vlq >>>= 5` the value is below 2^27, so reading it as an int32 or a uint32 is the same.
unfoldable pub vlq_loop : ℕ → ℕ → Text → Text
vlq_loop zero vlq result = result
vlq_loop (suc rounds) vlq result =
    let more = vlq_loop rounds (vlq / 32) (result ++ encode_base64 (vlq_digit vlq)) in
    if is_positive vlq then more else result

-- `result || this.encodeBase64(0)`
abbrev pub or_zero : Text → Text
or_zero [] = encode_base64 0
or_zero (c ∷ s) = c ∷ s

unfoldable pub encode_base64_vlq : ℤ → Text
encode_base64_vlq value = or_zero (vlq_loop 7 (vlq_bits value) [])

unfoldable pub encode_vlq : List ℤ → Text
encode_vlq [] = []
encode_vlq (v ∷ vs) = encode_base64_vlq v ++ encode_vlq vs
