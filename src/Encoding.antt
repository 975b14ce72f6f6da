-- ===== src/Encoding.antt =====
-- encoding.rs: base64 without padding (the engine is a parameter) and Crockford's base 32, in which
-- identities are written. A text is its bytes.
pub mod Window
pub mod RoundTrip
pub mod Validity
use post_urbit.Prelude.{
  ℕ, zero, suc, ◌+◌, ◌-◌, ◌*◌, ◌/◌, ◌%◌, ◌^◌, Bytes, Bool, ◌&&◌, ◌||◌, Option, some, false, ◌≡◌,
  refl, not, [], ◌∷◌, ◌++◌, ltb, leb, if◌then◌else◌, length, get_or, contains, nat_eq, Result, ok,
  err, ◌>>=◌, ◌>>◌, ok_or, guard, ◌==◌, invalid_encoding, u8, u32, ascii,
}

-- `STANDARD_NO_PAD` of the crate base64
pub record Base64 : Type 0 where
  pub encode : Bytes → Bytes
  pub decode : Bytes → Option Bytes

-- the engine reads what it writes, which holds no `=`
pub record IsBase64 (engine : Base64) : Type 0 where
  pub decode_encode : (bytes : Bytes) → engine.decode (engine.encode bytes) ≡ some bytes
  pub no_padding : (bytes : Bytes) → contains (engine.encode bytes) b'=' ≡ false

unfoldable pub base64_encode : Base64 → Bytes → Bytes
base64_encode engine input = engine.encode input

unfoldable pub base64_decode : Base64 → Bytes → Result Bytes
base64_decode engine input =
    if contains input b'='
    then err (invalid_encoding "base64 padding not allowed")
    else ok_or (engine.decode input) (invalid_encoding "invalid base64")

unfoldable pub crockford_alphabet : Bytes
unfolding ascii
crockford_alphabet = ascii "0123456789abcdefghjkmnpqrstvwxyz"

pub base64_decode-encode :
    (engine : Base64)
    → IsBase64 engine
    → (bytes : Bytes) → base64_decode engine (base64_encode engine bytes) ≡ ok bytes
unfolding base64_decode base64_encode
base64_decode-encode engine h bytes = rw (h.no_padding bytes, h.decode_encode bytes) refl

-- `(byte >> shift) & 1` for the bit at `bit_index`, and 0 past the end
unfoldable pub bit_value : Bytes → ℕ → ℕ → ℕ
bit_value bytes total_bits bit_index =
    if ltb bit_index total_bits
    then get_or bytes (bit_index / 8) 0 / 2 ^ (7 - bit_index % 8) % 2
    else 0

-- `for bit in 0..5`, with the rounds that are left; `(value << 1) | bit_value` has a free low bit
unfoldable pub group_loop : Bytes → ℕ → ℕ → ℕ → ℕ → ℕ → ℕ
unfolding bit_value
group_loop bytes total_bits group zero bit value = value
group_loop bytes total_bits group (suc rounds) bit value =
    group_loop bytes total_bits group rounds (bit + 1)
      (u8 (value * 2) + bit_value bytes total_bits (group * 5 + bit))

-- `for group in 0..groups`
unfoldable pub encode_loop : Bytes → ℕ → ℕ → ℕ → Bytes
unfolding group_loop crockford_alphabet
encode_loop bytes total_bits zero group = []
encode_loop bytes total_bits (suc rounds) group =
    get_or crockford_alphabet (group_loop bytes total_bits group 5 0 0) 0
    ∷ encode_loop bytes total_bits rounds (group + 1)

unfoldable pub crockford_base32_encode : Bytes → Bytes
unfolding encode_loop
crockford_base32_encode bytes =
    let total_bits = length bytes * 8 in encode_loop bytes total_bits ((total_bits + 4) / 5) 0

abbrev between : ℕ → ℕ → ℕ → Bool
between lo hi ch = leb lo ch && leb ch hi

unfoldable pub crockford_value : ℕ → Result ℕ
crockford_value ch =
    if between b'0' b'9' ch
    then ok (ch - b'0')
    else if between b'a' b'h' ch
    then ok (10 + (ch - b'a'))
    else if ch == b'j'
    then ok 18
    else if ch == b'k'
    then ok 19
    else if ch == b'm'
    then ok 20
    else if ch == b'n'
    then ok 21
    else if ch == b'p'
    then ok 22
    else if ch == b'q'
    then ok 23
    else if ch == b'r'
    then ok 24
    else if ch == b's'
    then ok 25
    else if ch == b't'
    then ok 26
    else if ch == b'v'
    then ok 27
    else if ch == b'w'
    then ok 28
    else if ch == b'x'
    then ok 29
    else if ch == b'y'
    then ok 30
    else if ch == b'z'
    then ok 31
    else err (invalid_encoding "invalid base32 character")

-- `while bits >= 8`: the bits that are left, and the output
unfoldable pub drain_loop : ℕ → ℕ → ℕ → Bytes → ℕ × Bytes
drain_loop zero buffer bits out = (bits, out)
drain_loop (suc fuel) buffer bits out =
    let rest = drain_loop fuel buffer (bits - 8) (out ++ (buffer / 2 ^ (bits - 8) % 256 ∷ [])) in
    if leb 8 bits then rest else (bits, out)

-- `for ch in input.bytes()`; `(buffer << 5) | val` is a sum, since a value is below 32
unfoldable pub decode_loop : Bytes → ℕ → ℕ → Bytes → Result Bytes
unfolding crockford_value drain_loop
decode_loop [] buffer bits out = ok out
decode_loop (ch ∷ rest) buffer bits out = do
  val ← crockford_value ch
  let buffer' = u32 (buffer * 32) + val
  let (bits', out') = drain_loop (u8 (bits + 5)) buffer' (u8 (bits + 5)) out
  decode_loop rest buffer' bits' out'

unfoldable pub crockford_base32_decode : Bytes → Result Bytes
unfolding decode_loop
crockford_base32_decode input = decode_loop input 0 0 []

unfoldable pub valid_char : ℕ → Bool
valid_char ch =
    between b'0' b'9' ch
    || between b'a' b'h' ch
    || between b'j' b'k' ch
    || between b'm' b'n' ch
    || between b'p' b't' ch
    || between b'v' b'z' ch

unfoldable pub validate_loop : Bytes → Result (Unit {0})
unfolding valid_char
validate_loop [] = ok tt
validate_loop (ch ∷ rest) =
    if valid_char ch then validate_loop rest else err (invalid_encoding "invalid base32 character")

unfoldable pub validate_crockford_base32_lower : Bytes → Result (Unit {0})
unfolding validate_loop
validate_crockford_base32_lower [] = err (invalid_encoding "empty base32")
validate_crockford_base32_lower (ch ∷ rest) = validate_loop (ch ∷ rest)
