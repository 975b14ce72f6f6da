-- ===== src/Prelude/Order.antt =====
-- The order of byte strings (`Ord` of slices, arrays and `str`): lexicographic, shorter first.
use Prim.Native.Nat.{ℕ, compare, Ordering}
use mathlib.Core.Path.{◌≡◌, refl}
use mathlib.Core.Bool.{Bool, true, false}
use mathlib.Core.List.{List, [], ◌∷◌}
use native.Mathlib.Omega.{arith}

abbrev pub Bytes : Type 0
Bytes = List ℕ

-- `Ordering::then`
abbrev pub then_with : Ordering → Ordering → Ordering
then_with Ordering.lt b = Ordering.lt
then_with Ordering.eq b = b
then_with Ordering.gt b = Ordering.gt

abbrev pub swap : Ordering → Ordering
swap Ordering.lt = Ordering.gt
swap Ordering.eq = Ordering.eq
swap Ordering.gt = Ordering.lt

unfoldable pub compare_bytes : Bytes → Bytes → Ordering
compare_bytes [] [] = Ordering.eq
compare_bytes [] (y ∷ ys) = Ordering.lt
compare_bytes (x ∷ xs) [] = Ordering.gt
compare_bytes (x ∷ xs) (y ∷ ys) = then_with (compare x y) (compare_bytes xs ys)

abbrev pub is_lt : Ordering → Bool
is_lt Ordering.lt = true
is_lt _ = false

abbrev pub is_gt : Ordering → Bool
is_gt Ordering.gt = true
is_gt _ = false

abbrev pub is_eq : Ordering → Bool
is_eq Ordering.eq = true
is_eq _ = false

pub compare_bytes_refl : (xs : Bytes) → compare_bytes xs xs ≡ Ordering.eq
unfolding compare_bytes
compare_bytes_refl [] = refl
compare_bytes_refl (x ∷ xs) = ground (arith, compare_bytes_refl xs)

pub compare_bytes_eq : (xs ys : Bytes) → compare_bytes xs ys ≡ Ordering.eq → xs ≡ ys
unfolding compare_bytes
compare_bytes_eq [] [] h = refl
compare_bytes_eq [] (y ∷ ys) h = cc
compare_bytes_eq (x ∷ xs) [] h = cc
compare_bytes_eq (x ∷ xs) (y ∷ ys) h = ground (arith, compare_bytes_eq xs ys)

pub compare_bytes-swap : (xs ys : Bytes) → compare_bytes ys xs ≡ swap (compare_bytes xs ys)
unfolding compare_bytes
compare_bytes-swap [] [] = refl
compare_bytes-swap [] (y ∷ ys) = refl
compare_bytes-swap (x ∷ xs) [] = refl
compare_bytes-swap (x ∷ xs) (y ∷ ys) = ground (arith, compare_bytes-swap xs ys)

pub compare_bytes_trans :
    (xs ys zs : Bytes)
    → compare_bytes xs ys ≡ Ordering.lt
    → compare_bytes ys zs ≡ Ordering.lt
    → compare_bytes xs zs ≡ Ordering.lt
unfolding compare_bytes
compare_bytes_trans [] [] zs h k = cc
compare_bytes_trans [] (y ∷ ys) [] h k = cc
compare_bytes_trans [] (y ∷ ys) (z ∷ zs) h k = refl
compare_bytes_trans (x ∷ xs) [] zs h k = cc
compare_bytes_trans (x ∷ xs) (y ∷ ys) [] h k = cc
compare_bytes_trans (x ∷ xs) (y ∷ ys) (z ∷ zs) h k = ground (arith, compare_bytes_trans xs ys zs)
