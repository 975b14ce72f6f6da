-- ===== src/Encoding/Validity.antt =====
-- encoding.rs: what the validation accepts is what the decoder reads.
use post_urbit.Prelude.{
  ℕ, suc, ◌-◌, ◌%◌, ◌^◌, leb, ltb, if◌then◌else◌, ◌∙◌, ◌+◌, ◌*◌, ◌/◌, ◌<◌, Bytes, ◌≡◌, refl, [],
  ◌∷◌, ◌++◌, arith, inl, inr, ok, is_ok, Result-cases, u8, u32,
}
use post_urbit.Encoding.{
  crockford_value, valid_char, validate_loop, validate_crockford_base32_lower, decode_loop,
  drain_loop, crockford_base32_decode,
}

-- A character has a value exactly where the validation accepts it, and the value has five bits.
is_ok-crockford_value : (ch : ℕ) → is_ok (crockford_value ch) ≡ valid_char ch
unfolding valid_char crockford_value
is_ok-crockford_value ch = ground arith

pub crockford_value-lt : (ch v : ℕ) → crockford_value ch ≡ ok v → v < 32
unfolding crockford_value
crockford_value-lt ch v h = ground arith

is_ok-decode_loop :
    (input : Bytes) (buffer bits : ℕ) (out : Bytes)
    → is_ok (decode_loop input buffer bits out) ≡ is_ok (validate_loop input)
unfolding decode_loop validate_loop
is_ok-decode_loop [] buffer bits out = refl
is_ok-decode_loop (ch ∷ rest) buffer bits out = elim (Result-cases (crockford_value ch)) [
  | inl (v, e) ↦
      rw (← is_ok-crockford_value ch, e)
        (is_ok-decode_loop rest (u32 (buffer * 32) + v)
          (drain_loop (u8 (bits + 5)) (u32 (buffer * 32) + v) (u8 (bits + 5)) out).0
          (drain_loop (u8 (bits + 5)) (u32 (buffer * 32) + v) (u8 (bits + 5)) out).1)
  | inr (bad, e) ↦ rw (← is_ok-crockford_value ch, e) refl
]

-- The decoder reads a text that is not empty exactly if the validation accepts it.
pub is_ok-decode :
    (ch : ℕ) (rest : Bytes)
    → is_ok (crockford_base32_decode (ch ∷ rest))
      ≡ is_ok (validate_crockford_base32_lower (ch ∷ rest))
unfolding crockford_base32_decode validate_crockford_base32_lower
is_ok-decode ch rest = is_ok-decode_loop (ch ∷ rest) 0 0 []

-- with fewer than sixteen bits the inner loop makes one round at most
drain_once :
    (fuel bits buffer : ℕ) (out : Bytes)
    → bits < 16
    → drain_loop (suc (suc fuel)) buffer bits out ≡ (
        if leb 8 bits then (bits - 8, out ++ (buffer / 2 ^ (bits - 8) % 256 ∷ [])) else (bits, out))
unfolding drain_loop
drain_once fuel bits buffer out h = ground arith

-- the inner loop after a character: a byte goes out if there are eight bits
pub drain_step :
    (bits buffer : ℕ) (out : Bytes)
    → bits < 8
    → drain_loop (u8 (bits + 5)) buffer (u8 (bits + 5)) out ≡ (
        if ltb bits 3
        then (bits + 5, out)
        else (bits - 3, out ++ (buffer / 2 ^ (bits - 3) % 256 ∷ [])))
drain_step bits buffer out h =
    let e : u8 (bits + 5) ≡ suc (suc (bits + 3)) = omega arith in
    rw e (drain_once (bits + 3) (suc (suc (bits + 3))) buffer out (omega arith) ∙ ground arith)
