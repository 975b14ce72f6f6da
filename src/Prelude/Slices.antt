-- ===== src/Prelude/Slices.antt =====
-- Slices of a byte string, and where the parts of a concatenation lie.
use Prim.Native.Nat.{ℕ, zero, suc, ◌+◌, ◌≤◌}
use mathlib.Core.Path.{◌≡◌, refl, ap, sym, ◌∙◌, subst}
use mathlib.Core.List.{[], ◌∷◌, ◌++◌, append-nil}
use native.Mathlib.Omega.{arith}
use post_urbit.Prelude.Lists.{All, length, length-take, take, drop, take-append, drop-append}
use post_urbit.Prelude.Order.{Bytes}

-- `bytes[from..from + n]`
abbrev pub slice : ℕ → ℕ → Bytes → Bytes
slice from n bytes = take n (drop from bytes)

pub take_exact : (n : ℕ) (xs ys : Bytes) → length xs ≡ n → take n (xs ++ ys) ≡ xs
take_exact n xs ys h = subst (λ m. take m (xs ++ ys) ≡ xs) h (take-append xs ys)

pub take_all : (n : ℕ) (xs : Bytes) → length xs ≡ n → take n xs ≡ xs
take_all n xs h = ap (take n) (sym (append-nil xs)) ∙ take_exact n xs [] h

pub drop_exact : (n : ℕ) (xs ys : Bytes) → length xs ≡ n → drop n (xs ++ ys) ≡ ys
drop_exact n xs ys h = subst (λ m. drop m (xs ++ ys) ≡ ys) h (drop-append xs ys)

-- the part behind `before`
pub slice_at :
    (from n : ℕ) (before part after : Bytes)
    → length before ≡ from
    → length part ≡ n
    → slice from n (before ++ (part ++ after)) ≡ part
slice_at from n before part after h k =
    ap (take n) (drop_exact from before (part ++ after) h) ∙ take_exact n part after k

-- the last part
pub slice_last :
    (from n : ℕ) (before part : Bytes)
    → length before ≡ from
    → length part ≡ n
    → slice from n (before ++ part) ≡ part
slice_last from n before part h k = ap (take n) (drop_exact from before part h) ∙ take_all n part k

pub length-slice :
    (from n : ℕ) (bytes : Bytes) → from + n ≤ length bytes → length (slice from n bytes) ≡ n
length-slice zero n bytes h = omega (arith, length-take n bytes, h)
length-slice (suc from) n [] h = omega (arith, h)
length-slice (suc from) n (b ∷ bytes) h = length-slice from n bytes (omega (arith, h))

pub suc_plus : (n m : ℕ) → suc n + m ≡ suc (n + m)
suc_plus n m = omega arith

drop_over : (m : ℕ) (xs ys : Bytes) → drop (length xs + m) (xs ++ ys) ≡ drop m ys
drop_over m [] ys = ground arith
drop_over m (x ∷ xs) ys = rw (suc_plus (length xs) m) (drop_over m xs ys)

pub drop_past : (n m : ℕ) (xs ys : Bytes) → length xs ≡ n → drop (n + m) (xs ++ ys) ≡ drop m ys
drop_past n m xs ys h = subst (λ k. drop (k + m) (xs ++ ys) ≡ drop m ys) h (drop_over m xs ys)

pub take-drop : (n : ℕ) (xs : Bytes) → take n xs ++ drop n xs ≡ xs
take-drop zero xs = refl
take-drop (suc n) [] = refl
take-drop (suc n) (x ∷ xs) = ap (λ l. x ∷ l) (take-drop n xs)

pub drop-drop : (n m : ℕ) (xs : Bytes) → drop m (drop n xs) ≡ drop (n + m) xs
drop-drop zero m xs = ground arith
drop-drop (suc n) zero [] = ground arith
drop-drop (suc n) (suc m) [] = rw (suc_plus n (suc m)) refl
drop-drop (suc n) m (x ∷ xs) = rw (suc_plus n m) (drop-drop n m xs)

pub slice-drop : (n m : ℕ) (xs : Bytes) → slice n m xs ++ drop (n + m) xs ≡ drop n xs
slice-drop n m xs = ap (λ l. slice n m xs ++ l) (sym (drop-drop n m xs)) ∙ take-drop m (drop n xs)

pub All-drop : (P : ℕ → Type 0) (n : ℕ) (xs : Bytes) → All P xs → All P (drop n xs)
All-drop P zero xs h = h
All-drop P (suc n) [] h = h
All-drop P (suc n) (x ∷ xs) h = All-drop P n xs h.1

pub All-take : (P : ℕ → Type 0) (n : ℕ) (xs : Bytes) → All P xs → All P (take n xs)
All-take P zero xs h = tt
All-take P (suc n) [] h = h
All-take P (suc n) (x ∷ xs) h = (h.0, All-take P n xs h.1)

pub length-drop : (n : ℕ) (xs : Bytes) → n ≤ length xs → n + length (drop n xs) ≡ length xs
length-drop zero xs h = omega arith
length-drop (suc n) [] h = omega (arith, h)
length-drop (suc n) (x ∷ xs) h = omega (arith, length-drop n xs (omega (arith, h)))

-- What lies behind `from` begins with a part: the part, and what lies behind it.
pub slice_step :
    (from n : ℕ) (bytes part after : Bytes)
    → drop from bytes ≡ part ++ after
    → length part ≡ n
    → slice from n bytes ≡ part
slice_step from n bytes part after h k = ap (take n) h ∙ take_exact n part after k

pub drop_step :
    (from n : ℕ) (bytes part after : Bytes)
    → drop from bytes ≡ part ++ after
    → length part ≡ n
    → drop (from + n) bytes ≡ after
drop_step from n bytes part after h k =
    sym (drop-drop from n bytes) ∙ (ap (drop n) h ∙ drop_exact n part after k)
