-- ===== src/Sync/Order/Sorted.antt =====
-- Sorted lists, and elements of a list with a property.
use post_urbit.Prelude.{
  false, Ordering, is_gt, swap, List, [], ◌∷◌, ◌≡◌, ◌⊎◌, inl, inr, nat_eq, list_eq, All, All-mono,
  sort_by, insert_by, Chains, Bool-cases, arith,
}

module _ {A : Type 0} where
  -- one of the elements has the property
  abbrev pub Among : (A → Type 0) → List A → Type 0
  Among P [] = ⊥
  Among P (x ∷ xs) = P x ⊎ Among P xs

  pub none-Among :
      (P Q : A → Type 0) (xs : List A) → All Q xs → ((x : A) → P x → Q x → ⊥) → ¬ Among P xs
  none-Among P Q [] h k m = m
  none-Among P Q (x ∷ xs) h k (inl p) = k x p h.0
  none-Among P Q (x ∷ xs) h k (inr m) = none-Among P Q xs h.1 k m

module _ {A : Type 0} (cmp : A → A → Ordering) where
  abbrev pub IsSorted : List A → Type 0
  IsSorted [] = Unit {0}
  IsSorted (x ∷ xs) = All (λ y. is_gt (cmp x y) ≡ false) xs × IsSorted xs

  insert_by-All :
      (P : A → Type 0) (a : A) (xs : List A) → P a → All P xs → All P (insert_by cmp a xs)
  unfolding insert_by
  insert_by-All P a [] p h = (p, tt)
  insert_by-All P a (b ∷ xs) p h = elim (Bool-cases (is_gt (cmp a b))) [
    | inl e ↦ rw (e, insert_by) (h.0, insert_by-All P a xs p h.1)
    | inr e ↦ rw (e, insert_by) (p, (h.0, h.1))
  ]

  pub sort_by-All : (P : A → Type 0) (xs : List A) → All P xs → All P (sort_by cmp xs)
  unfolding sort_by
  sort_by-All P [] h = tt
  sort_by-All P (x ∷ xs) h = insert_by-All P x (sort_by cmp xs) h.0 (sort_by-All P xs h.1)

  insert_by-Among :
      (P : A → Type 0) (a : A) (xs : List A) → P a ⊎ Among P xs → Among P (insert_by cmp a xs)
  unfolding insert_by
  insert_by-Among P a [] m = m
  insert_by-Among P a (b ∷ xs) (inl p) = elim (Bool-cases (is_gt (cmp a b))) [
    | inl e ↦ rw (e, insert_by) (inr (insert_by-Among P a xs (inl p)))
    | inr e ↦ rw (e, insert_by) (inl p)
  ]
  insert_by-Among P a (b ∷ xs) (inr (inl p)) = elim (Bool-cases (is_gt (cmp a b))) [
    | inl e ↦ rw (e, insert_by) (inl p)
    | inr e ↦ rw (e, insert_by) (inr (inl p))
  ]
  insert_by-Among P a (b ∷ xs) (inr (inr m)) = elim (Bool-cases (is_gt (cmp a b))) [
    | inl e ↦ rw (e, insert_by) (inr (insert_by-Among P a xs (inr m)))
    | inr e ↦ rw (e, insert_by) (inr (inr m))
  ]

  pub sort_by-Among : (P : A → Type 0) (xs : List A) → Among P xs → Among P (sort_by cmp xs)
  unfolding sort_by
  sort_by-Among P [] m = elim m [ ]
  sort_by-Among P (x ∷ xs) (inl p) = insert_by-Among P x (sort_by cmp xs) (inl p)
  sort_by-Among P (x ∷ xs) (inr m) =
      insert_by-Among P x (sort_by cmp xs) (inr (sort_by-Among P xs m))

module _ {A : Type 0} (cmp : A → A → Ordering) (swapped : (a b : A) → cmp b a ≡ swap (cmp a b))
    (chains : (a b c : A) → Chains (cmp a b) (cmp b c) (cmp a c)) where
  not_above :
      (a b y : A) → is_gt (cmp a b) ≡ false → is_gt (cmp b y) ≡ false → is_gt (cmp a y) ≡ false
  not_above a b y h k =
      ground (arith, h, k, swapped b y, (chains a y b).above, (chains a y b).above_same)

  insert_by-IsSorted : (a : A) (xs : List A) → IsSorted cmp xs → IsSorted cmp (insert_by cmp a xs)
  unfolding insert_by
  insert_by-IsSorted a [] s = (tt, tt)
  insert_by-IsSorted a (b ∷ xs) s = elim (Bool-cases (is_gt (cmp a b))) [
    | inl e ↦
        rw (e, insert_by)
          (
            insert_by-All cmp (λ y. is_gt (cmp b y) ≡ false) a xs (ground (arith, e, swapped a b))
                s.0,
            insert_by-IsSorted a xs s.1,
          )
    | inr e ↦ rw (e, insert_by) ((e, All-mono xs (λ y k. not_above a b y e k) s.0), (s.0, s.1))
  ]

  pub sort_by-IsSorted : (xs : List A) → IsSorted cmp (sort_by cmp xs)
  unfolding sort_by
  sort_by-IsSorted [] = tt
  sort_by-IsSorted (x ∷ xs) = insert_by-IsSorted x (sort_by cmp xs) (sort_by-IsSorted xs)
