-- ===== src/Prelude/Digits.antt =====
-- A number that is printed is parsed again.
use Prim.Native.Nat.{ℕ, zero, suc, ◌+◌, ◌-◌, ◌*◌, ◌^◌, ◌/◌, ◌%◌, ◌<◌, ◌≤◌}
use mathlib.Core.Path.{◌≡◌, refl, sym, ap, ◌∙◌}
use mathlib.Core.Logic.{inl, inr}
use mathlib.Core.Bool.{false}
use mathlib.Core.List.{[], ◌∷◌, ◌++◌}
use mathlib.Core.Option.{some}
use native.Mathlib.Omega.{arith}
use post_urbit.Prelude.Order.{Bytes}
use post_urbit.Prelude.Tests.{ltb, nat_beq_iff, Bool-cases}
use post_urbit.Prelude.Parse.{parse_digits, parse_u64, to_digits, print_u64, starts_with}

parse_digits-append :
    (acc v d : ℕ) (xs : Bytes)
    → parse_digits acc xs ≡ some v
    → parse_digits acc (xs ++ d ∷ []) ≡ parse_digits v (d ∷ [])
unfolding parse_digits
parse_digits-append acc v d [] h = ground (arith, h)
parse_digits-append acc v d (x ∷ xs) h =
    ground (arith, h, parse_digits-append (acc * 10 + (x - b'0')) v d xs)

-- the numbers of so many digits
abbrev pub digit_bound : ℕ → ℕ
digit_bound zero = 1
digit_bound (suc fuel) = digit_bound fuel * 10

last_digit : (v n : ℕ) → v ≡ n / 10 → n < 2 ^ 64 → parse_digits v ((b'0' + n % 10) ∷ []) ≡ some n
unfolding parse_digits
last_digit v n h k = ground arith

small_digit : (n : ℕ) → n < 10 → parse_digits 0 ((b'0' + n) ∷ []) ≡ some n
unfolding parse_digits
small_digit n h = ground arith

parse-to_digits :
    (fuel n : ℕ) → n < 2 ^ 64 → n < digit_bound fuel → parse_digits 0 (to_digits fuel n) ≡ some n
unfolding to_digits
parse-to_digits zero n h k = unfold parse_digits in ground arith
parse-to_digits (suc fuel) n h k = elim (Bool-cases (ltb n 10)) [
  | inl e ↦ rw e (small_digit n (ground (arith, e)))
  | inr e ↦ rw e (
      parse_digits-append 0 (n / 10) (b'0' + n % 10) (to_digits fuel (n / 10))
        (parse-to_digits fuel (n / 10) (omega arith) (omega arith))
      ∙ last_digit (n / 10) n refl h)
]

-- the first digit of a positive number
abbrev Leads : Bytes → Type 0
Leads text = (c : ℕ) × (rest : Bytes) × (text ≡ c ∷ rest) × (b'0' < c) × (c ≤ b'9')

to_digits-Leads : (fuel n : ℕ) → 0 < n → n < digit_bound fuel → Leads (to_digits fuel n)
unfolding to_digits
to_digits-Leads zero n h k = absurd (omega arith)
to_digits-Leads (suc fuel) n h k = elim (Bool-cases (ltb n 10)) [
  | inl e ↦ (b'0' + n, [], rw e refl, omega arith, ground (arith, e))
  | inr e ↦
      let (c, rest, p, q, r) = to_digits-Leads fuel (n / 10) (ground (arith, e)) (omega arith) in
      (c, rest ++ (b'0' + n % 10) ∷ [], rw e (ap (λ l. l ++ (b'0' + n % 10) ∷ []) p), q, r)
]

parse_u64-first :
    (c : ℕ) (rest : Bytes) → b'0' < c → parse_u64 (c ∷ rest) ≡ parse_digits 0 (c ∷ rest)
unfolding parse_u64
parse_u64-first c [] h = refl
parse_u64-first c (d ∷ rest) h = ground (arith, nat_beq_iff c b'+')

pub starts-first : (c : ℕ) (rest : Bytes) → b'0' < c → starts_with (c ∷ rest) (b'0' ∷ []) ≡ false
unfolding starts_with
starts-first c rest h = ground (arith, nat_beq_iff c b'0')

-- what is printed of a number other than zero begins with another digit than zero
pub print_u64-Leads : (n : ℕ) → 0 < n → n < 2 ^ 64 → Leads (print_u64 n)
unfolding print_u64
print_u64-Leads n h k = to_digits-Leads 20 n h (omega arith)

pub parse-print_u64 : (n : ℕ) → 0 < n → n < 2 ^ 64 → parse_u64 (print_u64 n) ≡ some n
unfolding print_u64
parse-print_u64 n h k =
    let (c, rest, p, q, r) = to_digits-Leads 20 n h (omega arith) in
    ap parse_u64 p
    ∙ (parse_u64-first c rest q
        ∙ (sym (ap (parse_digits 0) p) ∙ parse-to_digits 20 n k (omega arith)))
