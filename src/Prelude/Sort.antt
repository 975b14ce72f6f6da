-- ===== src/Prelude/Sort.antt =====
-- `sort` and `sort_by`: both are stable, as the insertion sort here, so they have the same result.
use Prim.Native.Nat.{ℕ, compare, Ordering}
use mathlib.Core.Path.{◌≡◌, refl, ap, ap₂, ◌∙◌}
use mathlib.Core.List.{List, [], ◌∷◌, map}
use mathlib.Core.List.{Permᴰ}
use native.Mathlib.Omega.{arith}
use post_urbit.Prelude.Tests.{if◌then◌else◌}
use post_urbit.Prelude.Order.{
  then_with, swap, is_gt, Bytes, compare_bytes, compare_bytes-swap, compare_bytes_eq,
  compare_bytes_trans,
}

-- the comparisons of a with b, b with c and a with c fit together
pub record Chains (ab bc ac : Ordering) : Type 0 where
  pub above : ab ≡ Ordering.gt → bc ≡ Ordering.gt → ac ≡ Ordering.gt
  pub above_same : ab ≡ Ordering.gt → bc ≡ Ordering.eq → ac ≡ Ordering.gt
  pub same_above : ab ≡ Ordering.eq → bc ≡ Ordering.gt → ac ≡ Ordering.gt
  pub same : ab ≡ Ordering.eq → bc ≡ Ordering.eq → ac ≡ Ordering.eq

pub Chains-then :
    (ab bc ac ab' bc' ac' : Ordering)
    → Chains ab bc ac
    → Chains ab' bc' ac'
    → Chains (then_with ab ab') (then_with bc bc') (then_with ac ac')
Chains-then ab bc ac ab' bc' ac' h k = record {
  above = λ p q. ground arith;
  above_same = λ p q. ground arith;
  same_above = λ p q. ground arith;
  same = λ p q. ground arith;
}

pub Chains-compare : (a b c : ℕ) → Chains (compare a b) (compare b c) (compare a c)
Chains-compare a b c = record {
  above = λ p q. ground arith;
  above_same = λ p q. ground arith;
  same_above = λ p q. ground arith;
  same = λ p q. ground arith;
}

pub Chains-compare_bytes :
    (a b c : Bytes) → Chains (compare_bytes a b) (compare_bytes b c) (compare_bytes a c)
Chains-compare_bytes a b c = record {
  above = λ p q. ground (
    arith,
    compare_bytes-swap a b,
    compare_bytes-swap b c,
    compare_bytes-swap a c,
    compare_bytes_trans c b a,
  );
  above_same = λ p q. ground (arith, compare_bytes_eq b c);
  same_above = λ p q. ground (arith, compare_bytes_eq a b);
  same = λ p q. ground (arith, compare_bytes_eq a b, compare_bytes_eq b c);
}

module _ {ℓ} {A : Type ℓ} (cmp : A → A → Ordering) where
  unfoldable pub insert_by : A → List A → List A
  insert_by a [] = a ∷ []
  insert_by a (b ∷ xs) =
      let rest = insert_by a xs in if is_gt (cmp a b) then b ∷ rest else a ∷ b ∷ xs

  unfoldable pub sort_by : List A → List A
  unfolding insert_by
  sort_by [] = []
  sort_by (x ∷ xs) = insert_by x (sort_by xs)

-- a linear order
pub record IsLinear {ℓ} {A : Type ℓ} (cmp : A → A → Ordering) : Type ℓ where
  pub swapped : (a b : A) → cmp b a ≡ swap (cmp a b)
  pub equal : (a b : A) → cmp a b ≡ Ordering.eq → a ≡ b
  pub chains : (a b c : A) → Chains (cmp a b) (cmp b c) (cmp a c)

module _ {ℓ} {A : Type ℓ} (cmp : A → A → Ordering) (l : IsLinear cmp) where
  insert_by_comm :
      (a b : A) (xs : List A)
      → insert_by cmp a (insert_by cmp b xs) ≡ insert_by cmp b (insert_by cmp a xs)
  unfolding insert_by
  insert_by_comm a b [] = ground (arith, l.swapped a b, l.equal a b)
  insert_by_comm a b (c ∷ xs) = ground (
    arith,
    l.swapped a b,
    l.swapped a c,
    l.swapped b c,
    l.equal a b,
    (l.chains a b c).above,
    (l.chains b a c).above,
    (l.chains a b c).above_same,
    (l.chains b a c).above_same,
    (l.chains c a b).above,
    insert_by_comm a b xs,
  )

  -- sorting forgets the order of the list
  pub sort_by-Perm : {xs ys : List A} → Permᴰ xs ys → sort_by cmp xs ≡ sort_by cmp ys
  unfolding sort_by
  sort_by-Perm Permᴰ.nil = refl
  sort_by-Perm (Permᴰ.cons e p) = ap₂ (insert_by cmp) e (sort_by-Perm p)
  sort_by-Perm (Permᴰ.swap {l} e f) =
      ap₂ (λ a b. insert_by cmp a (insert_by cmp b (sort_by cmp l))) e f
      ∙ insert_by_comm _ _ (sort_by cmp l)
  sort_by-Perm (Permᴰ.trans p q) = sort_by-Perm p ∙ sort_by-Perm q

module _ {ℓ κ} {A : Type ℓ} {B : Type κ} (f : A → B) (cmp : B → B → Ordering) where
  map-insert_by :
      (a : A) (xs : List A)
      → map f (insert_by (λ a b. cmp (f a) (f b)) a xs) ≡ insert_by cmp (f a) (map f xs)
  unfolding insert_by
  map-insert_by a [] = refl
  map-insert_by a (b ∷ xs) = ground (arith, map-insert_by a xs)

  -- sorting by a key sorts the keys
  pub map-sort_by :
      (xs : List A) → map f (sort_by (λ a b. cmp (f a) (f b)) xs) ≡ sort_by cmp (map f xs)
  unfolding sort_by
  map-sort_by [] = refl
  map-sort_by (x ∷ xs) = map-insert_by x _ ∙ ap (insert_by cmp (f x)) (map-sort_by xs)

pub IsLinear-compare_bytes : IsLinear compare_bytes
IsLinear-compare_bytes = record {
  swapped = compare_bytes-swap;
  equal = compare_bytes_eq;
  chains = Chains-compare_bytes;
}
