-- ===== src/Prelude/Parse.antt =====
-- The parts of `str` that the source uses, over bytes: `starts_with`, `split` on one character and
-- `parse::<u64>`.
use Prim.Native.Nat.{ℕ, zero, suc, ◌+◌, ◌-◌, ◌*◌, ◌^◌, ◌/◌, ◌%◌}
use mathlib.Core.Bool.{Bool, true, false, ◌&&◌}
use mathlib.Core.List.{List, [], ◌∷◌, ◌++◌}
use mathlib.Core.Option.{Option, none, some}
use post_urbit.Prelude.Order.{Bytes}
use post_urbit.Prelude.Tests.{leb, ltb, nat_beq, if◌then◌else◌}

unfoldable pub starts_with : Bytes → Bytes → Bool
starts_with text [] = true
starts_with [] (p ∷ prefix) = false
starts_with (c ∷ text) (p ∷ prefix) = nat_beq c p && starts_with text prefix

unfoldable pub ends_with_byte : Bytes → ℕ → Bool
ends_with_byte [] c = false
ends_with_byte (x ∷ []) c = nat_beq x c
ends_with_byte (x ∷ y ∷ rest) c = ends_with_byte (y ∷ rest) c

abbrev cons_first : ℕ → List Bytes → List Bytes
cons_first c [] = (c ∷ []) ∷ []
cons_first c (part ∷ parts) = (c ∷ part) ∷ parts

-- `split(c).collect()`
unfoldable pub split : ℕ → Bytes → List Bytes
split sep [] = [] ∷ []
split sep (c ∷ text) =
    let rest = split sep text in if nat_beq c sep then [] ∷ rest else cons_first c rest

-- the digits of `parse::<u64>`, with its checks for overflow
unfoldable pub parse_digits : ℕ → Bytes → Option ℕ
parse_digits acc [] = some acc
parse_digits acc (c ∷ text) =
    let acc' = acc * 10 + (c - b'0') in
    if leb b'0' c && leb c b'9'
    then (if ltb acc' (2 ^ 64) then parse_digits acc' text else none)
    else none

-- one leading `+` is allowed, an empty number is not
unfoldable pub parse_u64 : Bytes → Option ℕ
unfolding parse_digits
parse_u64 [] = none
parse_u64 (c ∷ []) = parse_digits 0 (c ∷ [])
parse_u64 (c ∷ d ∷ text) =
    if nat_beq c b'+' then parse_digits 0 (d ∷ text) else parse_digits 0 (c ∷ d ∷ text)

-- `to_string` of a `u64`: at most 20 digits
unfoldable pub to_digits : ℕ → ℕ → Bytes
to_digits zero n = []
to_digits (suc fuel) n =
    let more = to_digits fuel (n / 10) in
    if ltb n 10 then (b'0' + n) ∷ [] else more ++ (b'0' + n % 10) ∷ []

unfoldable pub print_u64 : ℕ → Bytes
unfolding to_digits
print_u64 n = to_digits 20 n
