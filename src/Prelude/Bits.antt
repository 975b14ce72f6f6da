-- ===== src/Prelude/Bits.antt =====
-- When the exclusive or, and the or, of two numbers are 0.
use Prim.Native.Nat.{
  ℕ, zero, suc, ◌/◌, ◌%◌, ◌≤◌, max, bit_or, bit_xor, digits, differ, bit_or-bitwise,
  bit_xor-bitwise,
}
use mathlib.Core.Path.{◌≡◌, refl, sym, ◌∙◌}
use native.Mathlib.Omega.{arith}

differ-zero : (x y : ℕ) → differ x y ≡ 0 → x ≡ y
differ-zero zero y h = sym h
differ-zero (suc x) zero h = h
differ-zero (suc x) (suc y) h = omega (arith, differ-zero x y h)

differ_same : (x : ℕ) → differ x x ≡ 0
differ_same zero = refl
differ_same (suc x) = differ_same x

xor_digits : (n a b : ℕ) → a ≤ n → digits (λ b. b) differ n a b ≡ 0 → a ≡ b
xor_digits zero a b l h = omega (arith, l, h)
xor_digits (suc n) zero b l h = sym h
xor_digits (suc n) (suc a) b l h = omega (
  arith,
  xor_digits n (suc a / 2) (b / 2) (omega (arith, l)) (omega (arith, h)),
  differ-zero (suc a % 2) (b % 2) (omega (arith, h)),
)

xor_digits_same : (n a : ℕ) → a ≤ n → digits (λ b. b) differ n a a ≡ 0
xor_digits_same zero a l = omega (arith, l)
xor_digits_same (suc n) zero l = refl
xor_digits_same (suc n) (suc a) l =
    omega (arith, xor_digits_same n (suc a / 2) (omega (arith, l)), differ_same (suc a % 2))

or_digits : (n a b : ℕ) → a ≤ n → digits (λ b. b) max n a b ≡ 0 → (a ≡ 0) × (b ≡ 0)
or_digits zero a b l h = (omega (arith, l), h)
or_digits (suc n) zero b l h = (refl, h)
or_digits (suc n) (suc a) b l h =
    let high = or_digits n (suc a / 2) (b / 2) (omega (arith, l)) (omega (arith, h)) in
    (omega (arith, high.0, h), omega (arith, high.1, h))

pub bit_xor-zero : (a b : ℕ) → bit_xor a b ≡ 0 → a ≡ b
bit_xor-zero a b h = xor_digits a a b (omega arith) (sym (bit_xor-bitwise a b) ∙ h)

pub bit_xor_same : (a : ℕ) → bit_xor a a ≡ 0
bit_xor_same a = bit_xor-bitwise a a ∙ xor_digits_same a a (omega arith)

pub bit_or-zero : (a b : ℕ) → bit_or a b ≡ 0 → (a ≡ 0) × (b ≡ 0)
bit_or-zero a b h = or_digits a a b (omega arith) (sym (bit_or-bitwise a b) ∙ h)
