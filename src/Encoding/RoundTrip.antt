-- ===== src/Encoding/RoundTrip.antt =====
-- encoding.rs: decoding after encoding.
use post_urbit.Prelude.{
  ℕ, zero, suc, ◌+◌, ◌-◌, ◌*◌, ◌/◌, ◌%◌, ◌^◌, ◌<◌, Bytes, ◌≡◌, ◌∙◌, sym, Bool, false, ◌==◌, nat_eq,
  all_below, all_below_sound, Bool-cases, Result, lt→ltb, err, refl, ap, true, [], ◌∷◌, ◌++◌, arith,
  inl, inr, ok, length, get_or, u32, All, append_assoc, append-nil, if◌then◌else◌, ltb,
}
use post_urbit.Encoding.{
  crockford_value, crockford_alphabet, decode_loop, encode_loop, crockford_base32_decode,
  crockford_base32_encode, group_loop,
}
use post_urbit.Encoding.Validity.{drain_step}
use post_urbit.Encoding.Window.{IsByte, word, group_loop-word, buffer-Takes, get_or-IsByte}

-- `count` bytes from the place `q` on
slice : Bytes → ℕ → ℕ → Bytes
slice bytes q zero = []
slice bytes q (suc count) = get_or bytes q 0 ∷ slice bytes (suc q) count

slice-cons :
    (b : ℕ) (bytes : Bytes) (q count : ℕ) → slice (b ∷ bytes) (suc q) count ≡ slice bytes q count
unfolding slice
slice-cons b bytes q zero = refl
slice-cons b bytes q (suc count) = ap (◌∷◌ (get_or bytes q 0)) (slice-cons b bytes (suc q) count)

slice_all : (bytes : Bytes) → slice bytes 0 (length bytes) ≡ bytes
unfolding slice
slice_all [] = refl
slice_all (b ∷ bytes) = ap (◌∷◌ b) (slice-cons b bytes 0 (length bytes) ∙ slice_all bytes)

-- each letter of the alphabet stands for its place
abbrev yields : Result ℕ → ℕ → Bool
yields (ok w) v = w == v
yields (err e) v = false

yields→eq : (r : Result ℕ) (v : ℕ) → yields r v ≡ true → r ≡ ok v
yields→eq (ok w) v h = ground arith
yields→eq (err e) v h = cc

alphabet_table :
    all_below 32 (λ v. yields (crockford_value (get_or crockford_alphabet v 0)) v) ≡ true
unfolding all_below crockford_value crockford_alphabet
alphabet_table = refl

value_of_letter : (v : ℕ) → v < 32 → crockford_value (get_or crockford_alphabet v 0) ≡ ok v
value_of_letter v h = yields→eq (crockford_value (get_or crockford_alphabet v 0)) v (
    all_below_sound 32 (λ v. yields (crockford_value (get_or crockford_alphabet v 0)) v) v
      alphabet_table h)

encode_loop-suc :
    (bytes : Bytes) (total rounds group : ℕ)
    → encode_loop bytes total (suc rounds) group
      ≡ get_or crockford_alphabet (group_loop bytes total group 5 0 0) 0
        ∷ encode_loop bytes total rounds (group + 1)
unfolding encode_loop
encode_loop-suc bytes total rounds group = refl

decode_loop-cons :
    (ch v : ℕ) (rest : Bytes) (buffer bits : ℕ) (out : Bytes)
    → bits < 8
    → crockford_value ch ≡ ok v
    → decode_loop (ch ∷ rest) buffer bits out ≡ (
        let taken = u32 (buffer * 32) + v in
        if ltb bits 3
        then decode_loop rest taken (bits + 5) out
        else decode_loop rest taken (bits - 3) (out ++ (taken / 2 ^ (bits - 3) % 256 ∷ [])))
unfolding decode_loop
decode_loop-cons ch v rest buffer bits out h e =
    rw (e, drain_step bits (u32 (buffer * 32) + v) out h)
      (elim (Bool-cases (ltb bits 3)) [ inl t ↦ rw t refl | inr t ↦ rw t refl ])

module _ (bytes : Bytes) (h : All IsByte bytes) where
  -- The decoder, at 8 * q + r of the bit string and with the r pending bits in its buffer, turns the
  -- rest of the encoding into the rest of the bytes.
  decode-encode_loop :
      (rounds group q r buffer : ℕ) (out : Bytes)
      → group * 5 ≡ 8 * q + r
      → r < 8
      → buffer % 2 ^ r ≡ get_or bytes q 0 / 2 ^ (8 - r)
      → decode_loop (encode_loop bytes (length bytes * 8) rounds group) buffer r out
        ≡ ok (out ++ slice bytes q ((r + 5 * rounds) / 8))
  decode-encode_loop zero group q r buffer out e l p =
      let nothing : (r + 5 * 0) / 8 ≡ 0 = omega arith in
      rw nothing (unfold encode_loop decode_loop slice in ap ok (sym (append-nil out)))
  decode-encode_loop (suc rounds) group q r buffer out e l p =
      let v = word bytes q h / 2 ^ (11 - r) % 32 in
      let letter = value_of_letter v (omega arith) in
      rw
        (
          encode_loop-suc bytes (length bytes * 8) rounds group,
          group_loop-word bytes q h group r e l,
          decode_loop-cons (get_or crockford_alphabet v 0) v
              (encode_loop bytes (length bytes * 8) rounds (group + 1)) buffer r out l letter,
        )
        (elim (buffer-Takes r l buffer (get_or bytes q 0) (get_or bytes (q + 1) 0)
          (get_or-IsByte bytes q h) (get_or-IsByte bytes (q + 1) h) p) [
            | inl (few, pending) ↦
                let count : (r + 5 + 5 * rounds) / 8 ≡ (r + 5 * suc rounds) / 8 = omega arith in
                rw (lt→ltb r 3 few) (
                  decode-encode_loop rounds (group + 1) q (r + 5) (u32 (buffer * 32) + v) out
                    (omega arith) (omega arith) pending
                  ∙ ap (λ (n : ℕ). ok (out ++ slice bytes q n)) count)
            | inr (many, byte, pending) ↦
                let full : ltb r 3 ≡ false = ground arith in
                let count : (r + 5 * suc rounds) / 8 ≡ suc ((r - 3 + 5 * rounds) / 8) =
                  omega arith in
                let next : q + 1 ≡ suc q = omega arith in
                rw (full, byte, count)
                  (decode-encode_loop rounds (group + 1) (q + 1) (r - 3) (u32 (buffer * 32) + v)
                      (out ++ (get_or bytes q 0 ∷ [])) (omega arith) (omega arith) pending
                    ∙ rw (next, append_assoc) (unfold slice in refl))
          ])

-- Decoding what was encoded gives the bytes back.
pub decode-encode :
    (bytes : Bytes)
    → All IsByte bytes
    → crockford_base32_decode (crockford_base32_encode bytes) ≡ ok bytes
unfolding crockford_base32_decode crockford_base32_encode
decode-encode bytes h =
    let all : (0 + 5 * ((length bytes * 8 + 4) / 5)) / 8 ≡ length bytes = omega arith in
    decode-encode_loop bytes h ((length bytes * 8 + 4) / 5) 0 0 0 0 [] (omega arith) (omega arith)
      (omega (arith, get_or-IsByte bytes 0 h))
    ∙ ap ok (ap (slice bytes 0) all ∙ slice_all bytes)
