-- ===== src/Prelude/Words.antt =====
-- Integers as bytes, the highest first: `to_be_bytes` and `from_be_bytes`.
use Prim.Native.Nat.{ℕ, zero, suc, ◌+◌, ◌*◌, ◌/◌, ◌<◌}
use mathlib.Core.Path.{◌≡◌, refl}
use mathlib.Core.List.{[], ◌∷◌, ◌++◌}
use native.Mathlib.Omega.{arith}
use post_urbit.Prelude.Tests.{u8}
use post_urbit.Prelude.Lists.{All, length, length-append}
use post_urbit.Prelude.Order.{Bytes}

-- the lowest `w` bytes
unfoldable pub to_be_bytes : ℕ → ℕ → Bytes
to_be_bytes zero n = []
to_be_bytes (suc w) n = to_be_bytes w (n / 256) ++ u8 n ∷ []

unfoldable pub from_be_loop : ℕ → Bytes → ℕ
from_be_loop acc [] = acc
from_be_loop acc (b ∷ bs) = from_be_loop (acc * 256 + b) bs

unfoldable pub from_be_bytes : Bytes → ℕ
unfolding from_be_loop
from_be_bytes bs = from_be_loop 0 bs

pub length-to_be_bytes : (w n : ℕ) → length (to_be_bytes w n) ≡ w
unfolding to_be_bytes
length-to_be_bytes zero n = refl
length-to_be_bytes (suc w) n =
    omega
      (arith, length-append (to_be_bytes w (n / 256)) (u8 n ∷ []), length-to_be_bytes w (n / 256))

pub from-to_be_bytes4 : (n : ℕ) → n < 4294967296 → from_be_bytes (to_be_bytes 4 n) ≡ n
unfolding to_be_bytes from_be_bytes from_be_loop
from-to_be_bytes4 n h = omega arith

pub from-to_be_bytes2 : (n : ℕ) → n < 65536 → from_be_bytes (to_be_bytes 2 n) ≡ n
unfolding to_be_bytes from_be_bytes from_be_loop
from-to_be_bytes2 n h = omega arith

pub to-from_be_bytes2 :
    (bs : Bytes) → length bs ≡ 2 → All (λ b. b < 256) bs → to_be_bytes 2 (from_be_bytes bs) ≡ bs
unfolding to_be_bytes from_be_bytes from_be_loop
to-from_be_bytes2 (a ∷ b ∷ []) h (k, l) = ground arith
to-from_be_bytes2 [] h k = ground (arith, h)
to-from_be_bytes2 (a ∷ []) h k = ground (arith, h)
to-from_be_bytes2 (a ∷ b ∷ c ∷ bs) h k = ground (arith, h)
