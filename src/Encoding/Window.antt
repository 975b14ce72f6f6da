-- ===== src/Encoding/Window.antt =====
-- encoding.rs: the five bits of a group, as a window on two neighbouring bytes, and what the decoder
-- makes of them. A position in the bit string is 8 * q + r with r < 8.
use post_urbit.Prelude.{
  ℕ, zero, suc, ◌+◌, ◌-◌, ◌*◌, ◌/◌, ◌%◌, ◌^◌, ◌≤◌, ◌<◌, Bytes, ◌≡◌, refl, [], ◌∷◌, arith, length,
  get_or, u32, All, ◌⊎◌, inl, inr, dec_lt,
}
use post_urbit.Encoding.{bit_value, group_loop}

abbrev pub IsByte : ℕ → Type 0
IsByte b = b < 256

-- a statement about each number below eight
below_eight :
    (P : ℕ → Type 0) → P 0 → P 1 → P 2 → P 3 → P 4 → P 5 → P 6 → P 7 → (r : ℕ) → r < 8 → P r
below_eight P p0 p1 p2 p3 p4 p5 p6 p7 zero h = p0
below_eight P p0 p1 p2 p3 p4 p5 p6 p7 (suc zero) h = p1
below_eight P p0 p1 p2 p3 p4 p5 p6 p7 (suc (suc zero)) h = p2
below_eight P p0 p1 p2 p3 p4 p5 p6 p7 (suc (suc (suc zero))) h = p3
below_eight P p0 p1 p2 p3 p4 p5 p6 p7 (suc (suc (suc (suc zero)))) h = p4
below_eight P p0 p1 p2 p3 p4 p5 p6 p7 (suc (suc (suc (suc (suc zero))))) h = p5
below_eight P p0 p1 p2 p3 p4 p5 p6 p7 (suc (suc (suc (suc (suc (suc zero)))))) h = p6
below_eight P p0 p1 p2 p3 p4 p5 p6 p7 (suc (suc (suc (suc (suc (suc (suc zero))))))) h = p7
below_eight P p0 p1 p2 p3 p4 p5 p6 p7 (suc (suc (suc (suc (suc (suc (suc (suc n)))))))) h =
    absurd (omega arith)

pub get_or-IsByte : (bytes : Bytes) (i : ℕ) → All IsByte bytes → get_or bytes i 0 < 256
get_or-IsByte [] i h = omega arith
get_or-IsByte (b ∷ bytes) zero h = h.0
get_or-IsByte (b ∷ bytes) (suc i) h = get_or-IsByte bytes i h.1

get_or_beyond : (bytes : Bytes) (i : ℕ) → length bytes ≤ i → get_or bytes i 0 ≡ 0
get_or_beyond [] i h = refl
get_or_beyond (b ∷ bytes) zero h = absurd (omega arith)
get_or_beyond (b ∷ bytes) (suc i) h = get_or_beyond bytes i (omega arith)

-- the padding test is not needed where a read past the end is 0
bit_value-get_or :
    (bytes : Bytes) (i : ℕ)
    → bit_value bytes (length bytes * 8) i ≡ get_or bytes (i / 8) 0 / 2 ^ (7 - i % 8) % 2
unfolding bit_value
bit_value-get_or bytes i = ground (arith, get_or_beyond bytes (i / 8))

-- the same bit of a byte, and of a word that holds it as its high or its low byte
high_bit :
    (d : ℕ) → d < 8 → (b c : ℕ) → c < 256 → b / 2 ^ (7 - d) % 2 ≡ (b * 256 + c) / 2 ^ (15 - d) % 2
high_bit =
    below_eight (λ d. (b c : ℕ) → c < 256 → b / 2 ^ (7 - d) % 2 ≡ (b * 256 + c) / 2 ^ (15 - d) % 2)
      (λ b c h. omega arith) (λ b c h. omega arith) (λ b c h. omega arith) (λ b c h. omega arith)
      (λ b c h. omega arith) (λ b c h. omega arith) (λ b c h. omega arith) (λ b c h. omega arith)

low_bit : (d : ℕ) → d < 8 → (b c : ℕ) → c / 2 ^ (7 - d) % 2 ≡ (b * 256 + c) / 2 ^ (7 - d) % 2
low_bit =
    below_eight (λ d. (b c : ℕ) → c / 2 ^ (7 - d) % 2 ≡ (b * 256 + c) / 2 ^ (7 - d) % 2)
      (λ b c. omega arith) (λ b c. omega arith) (λ b c. omega arith) (λ b c. omega arith)
      (λ b c. omega arith) (λ b c. omega arith) (λ b c. omega arith) (λ b c. omega arith)

-- five consecutive bits of a word
abbrev Joins : ℕ → Type 0
Joins r =
    (w : ℕ)
    → 16 * (w / 2 ^ (15 - (r + 0)) % 2)
        + 8 * (w / 2 ^ (15 - (r + 1)) % 2)
        + 4 * (w / 2 ^ (15 - (r + 2)) % 2)
        + 2 * (w / 2 ^ (15 - (r + 3)) % 2)
        + w / 2 ^ (15 - (r + 4)) % 2
      ≡ w / 2 ^ (11 - r) % 32

five_bits_join : (r : ℕ) → r < 8 → Joins r
five_bits_join =
    below_eight Joins (λ w. omega arith) (λ w. omega arith) (λ w. omega arith) (λ w. omega arith)
      (λ w. omega arith) (λ w. omega arith) (λ w. omega arith) (λ w. omega arith)

module _ (bytes : Bytes) (q : ℕ) (h : All IsByte bytes) where
  abbrev pub word : ℕ
  word = get_or bytes q 0 * 256 + get_or bytes (q + 1) 0

  -- the bit at 8 * q + d, in the word of the bytes q and q + 1
  bit_value-word :
      (i d : ℕ)
      → i ≡ 8 * q + d
      → d < 16
      → bit_value bytes (length bytes * 8) i ≡ word / 2 ^ (15 - d) % 2
  bit_value-word i d e l = elim (dec_lt d 8) [
    | yes low ↦
        let byte : i / 8 ≡ q = omega arith in
        let place : i % 8 ≡ d = omega arith in
        rw (bit_value-get_or bytes i, byte, place)
          (high_bit d low (get_or bytes q 0) (get_or bytes (q + 1) 0)
            (get_or-IsByte bytes (q + 1) h))
    | no high ↦
        let byte : i / 8 ≡ q + 1 = omega arith in
        let place : i % 8 ≡ d - 8 = omega arith in
        let shift : 7 - (d - 8) ≡ 15 - d = omega arith in
        rw (bit_value-get_or bytes i, byte, place, ← shift)
          (low_bit (d - 8) (omega arith) (get_or bytes q 0) (get_or bytes (q + 1) 0))
  ]

  bit_value-lt : (i : ℕ) → bit_value bytes (length bytes * 8) i < 2
  bit_value-lt i = rw (bit_value-get_or bytes i) (omega arith)

  -- The value of a group is the five bits from its place on.
  pub group_loop-word :
      (group r : ℕ)
      → group * 5 ≡ 8 * q + r
      → r < 8
      → group_loop bytes (length bytes * 8) group 5 0 0 ≡ word / 2 ^ (11 - r) % 32
  unfolding group_loop
  group_loop-word group r e l = omega (
    arith,
    five_bits_join r l word,
    bit_value-word (group * 5 + 0) (r + 0) (omega arith) (omega arith),
    bit_value-word (group * 5 + 1) (r + 1) (omega arith) (omega arith),
    bit_value-word (group * 5 + 2) (r + 2) (omega arith) (omega arith),
    bit_value-word (group * 5 + 3) (r + 3) (omega arith) (omega arith),
    bit_value-word (group * 5 + 4) (r + 4) (omega arith) (omega arith),
  )

-- The decoder's buffer: with r pending bits, those of the byte b, it takes in the window of b and c.
abbrev Takes : ℕ → Type 0
Takes r =
    (buffer b c : ℕ)
    → b < 256
    → c < 256
    → buffer % 2 ^ r ≡ b / 2 ^ (8 - r)
    → let taken = u32 (buffer * 32) + (b * 256 + c) / 2 ^ (11 - r) % 32 in
      ((r < 3) × (taken % 2 ^ (r + 5) ≡ b / 2 ^ (8 - (r + 5))))
      ⊎ ((3 ≤ r) × (taken / 2 ^ (r - 3) % 256 ≡ b) × (taken % 2 ^ (r - 3) ≡ c / 2 ^ (8 - (r - 3))))

pub buffer-Takes : (r : ℕ) → r < 8 → Takes r
buffer-Takes =
    below_eight Takes (λ u b c h k e. inl (omega arith, omega arith))
      (λ u b c h k e. inl (omega arith, omega arith))
      (λ u b c h k e. inl (omega arith, omega arith))
      (λ u b c h k e. inr (omega arith, omega arith, omega arith))
      (λ u b c h k e. inr (omega arith, omega arith, omega arith))
      (λ u b c h k e. inr (omega arith, omega arith, omega arith))
      (λ u b c h k e. inr (omega arith, omega arith, omega arith))
      (λ u b c h k e. inr (omega arith, omega arith, omega arith))
