-- ===== src/Sync/Merkle/Tree.antt =====
-- sync.rs: the levels of the Merkle root are those of a tree over the identifiers.
use post_urbit.Prelude.{
  ℕ, zero, suc, ◌*◌, ◌-◌, ◌+◌, ◌^◌, ◌≤◌, ◌<◌, Bytes, none, some, List, [], ◌∷◌, ◌++◌, length,
  length-append, map, ◌≡◌, ◌⊎◌, inl, inr, refl, sym, ap, ◌∙◌, arith, get_or, ltb, Bool-cases, ap₂,
  ltb→lt, length-map, false,
}
use post_urbit.Sync.{SyncOperationRecord, Outside, offer_operation_ids}
use post_urbit.Sync.Merkle.{
  merkle_leaf_hash, merkle_node_hash, merkle_empty_hash, size_loop, repeat, next_level, fold_levels,
  root_of_ids, merkle_root,
}

module _ (o : Outside) where
  -- the root over 2 ^ height leaves, of which the first is at an offset
  unfoldable pub tree : (ℕ → Bytes) → ℕ → ℕ → Bytes
  tree leaf zero offset = leaf offset
  tree leaf (suc height) offset =
      merkle_node_hash o (tree leaf height offset) (tree leaf height (offset + 2 ^ height))

  -- the hash of an identifier by its place, and the empty hash behind the last
  unfoldable pub leaf_at : List Bytes → ℕ → Bytes
  leaf_at [] i = merkle_empty_hash o
  leaf_at (id ∷ ids) zero = merkle_leaf_hash o id
  leaf_at (id ∷ ids) (suc i) = leaf_at ids i

  at : List Bytes → ℕ → Bytes
  at level i = get_or level i (merkle_empty_hash o)

  at-padded :
      (ids : List Bytes) (n i : ℕ)
      → at (map (merkle_leaf_hash o) ids ++ repeat o n (merkle_empty_hash o)) i ≡ leaf_at ids i
  unfolding at leaf_at repeat
  at-padded [] zero i = refl
  at-padded [] (suc n) zero = refl
  at-padded [] (suc n) (suc i) = at-padded [] n i
  at-padded (id ∷ ids) n zero = refl
  at-padded (id ∷ ids) n (suc i) = at-padded ids n i

  tree-ext :
      (f g : ℕ → Bytes)
      → ((i : ℕ) → f i ≡ g i)
      → (height offset : ℕ) → tree f height offset ≡ tree g height offset
  unfolding tree
  tree-ext f g h zero offset = h offset
  tree-ext f g h (suc height) offset =
      rw (tree-ext f g h height offset, tree-ext f g h height (offset + 2 ^ height)) refl

  double : (i : ℕ) → suc (suc (2 * i)) ≡ 2 * suc i
  double i = omega arith

  double_odd : (i : ℕ) → suc (suc (2 * i + 1)) ≡ 2 * suc i + 1
  double_odd i = omega arith

  at-next_level :
      (level : List Bytes) (i : ℕ)
      → 2 * i + 1 < length level
      → at (next_level o level) i ≡ merkle_node_hash o (at level (2 * i)) (at level (2 * i + 1))
  unfolding at next_level
  at-next_level [] i h = absurd (omega (arith, h))
  at-next_level (a ∷ []) i h = absurd (omega (arith, h))
  at-next_level (a ∷ b ∷ level) zero h = refl
  at-next_level (a ∷ b ∷ level) (suc i) h =
      let even : at level (2 * i) ≡ at (a ∷ b ∷ level) (2 * suc i) =
        ap (at (a ∷ b ∷ level)) (double i) in
      let odd : at level (2 * i + 1) ≡ at (a ∷ b ∷ level) (2 * suc i + 1) =
        ap (at (a ∷ b ∷ level)) (double_odd i) in
      at-next_level level i (omega (arith, h)) ∙ ap₂ (merkle_node_hash o) even odd

  length-next_level :
      (level : List Bytes) (n : ℕ) → length level ≡ 2 * n → length (next_level o level) ≡ n
  unfolding next_level
  length-next_level [] n h = omega (arith, h)
  length-next_level (a ∷ []) n h = absurd (omega (arith, h))
  length-next_level (a ∷ b ∷ level) zero h = absurd (omega (arith, h))
  length-next_level (a ∷ b ∷ level) (suc n) h =
      omega (arith, length-next_level level n (omega (arith, h)))

  tree-next_level :
      (level : List Bytes) (height offset : ℕ)
      → 2 * offset + 2 * 2 ^ height ≤ length level
      → tree (at level) (suc height) (2 * offset) ≡ tree (at (next_level o level)) height offset
  unfolding tree
  tree-next_level level zero offset h = sym (at-next_level level offset (omega (arith, h)))
  tree-next_level level (suc height) offset h =
      let right : 2 * offset + 2 ^ suc height ≡ 2 * (offset + 2 ^ height) = omega arith in
      ap₂ (merkle_node_hash o) (tree-next_level level height offset (omega (arith, h))) (
        ap (tree (at level) (suc height)) right
        ∙ tree-next_level level height (offset + 2 ^ height) (omega (arith, h)))

  lt_pow : (k : ℕ) → k < 2 ^ k
  lt_pow zero = omega arith
  lt_pow (suc k) = omega (arith, lt_pow k)

  fold_levels-tree :
      (fuel height : ℕ) (level : List Bytes)
      → length level ≡ 2 ^ height
      → height ≤ fuel
      → fold_levels o fuel level ≡ some (tree (at level) height 0)
  unfolding fold_levels tree at
  fold_levels-tree fuel height [] h f = absurd (omega (arith, h, lt_pow height))
  fold_levels-tree fuel zero (root ∷ []) h f = refl
  fold_levels-tree fuel (suc height) (root ∷ []) h f = absurd (omega (arith, h, lt_pow height))
  fold_levels-tree fuel zero (a ∷ b ∷ level) h f = absurd (omega (arith, h))
  fold_levels-tree zero (suc height) (a ∷ b ∷ level) h f = absurd (omega (arith, f))
  fold_levels-tree (suc fuel) (suc height) (a ∷ b ∷ level) h f =
      let l : List Bytes = a ∷ b ∷ level in
      fold_levels-tree fuel height (next_level o l)
        (length-next_level l (2 ^ height) (omega (arith, h))) (omega (arith, f))
      ∙ ap some (sym (tree-next_level l height 0 (omega (arith, h))))

  length-repeat : (n : ℕ) (x : Bytes) → length (repeat o n x) ≡ n
  unfolding repeat
  length-repeat zero x = refl
  length-repeat (suc n) x = omega (arith, length-repeat n x)

  -- the smallest power of two that is not less
  ltb-false : (a b : ℕ) → ltb a b ≡ false → b ≤ a
  ltb-false a b h = ground arith

  next_power : (height : ℕ) → 2 * 2 ^ height ≡ 2 ^ suc height
  next_power height = omega arith

  size_loop-power :
      (fuel height n : ℕ)
      → n ≤ fuel + 2 ^ height
      → (2 ^ height < 2 * n)
      → (k : ℕ) × (size_loop o fuel (2 ^ height) n ≡ 2 ^ k) × (n ≤ 2 ^ k) × (2 ^ k < 2 * n)
  unfolding size_loop
  size_loop-power zero height n h s = (height, refl, omega (arith, h), s)
  size_loop-power (suc fuel) height n h s = elim (Bool-cases (ltb (2 ^ height) n)) [
    | inl e ↦
        let (k, same, enough, least) =
          size_loop-power fuel (suc height) n
            (omega (arith, h, s, lt_pow height, ltb→lt (2 ^ height) n e))
            (omega (arith, ltb→lt (2 ^ height) n e)) in
        (k, rw e (ap (λ size. size_loop o fuel size n) (next_power height) ∙ same), enough, least)
    | inr e ↦ (height, rw e refl, ltb-false (2 ^ height) n e, s)
  ]

  pub root_of_ids-tree :
      (ids : List Bytes)
      → (height : ℕ) × (root_of_ids o ids ≡ tree (leaf_at ids) height 0)
        × (length ids ≤ 2 ^ height)
        × ((height ≡ 0) ⊎ (2 ^ height < 2 * length ids))
  unfolding root_of_ids
  root_of_ids-tree [] = (0, (unfold tree leaf_at in refl), omega arith, inl refl)
  root_of_ids-tree (id ∷ ids) =
      let leaves = map (merkle_leaf_hash o) (id ∷ ids) in
      let (height, size, enough, least) =
        size_loop-power (length leaves) 0 (length leaves) (omega arith) (omega arith) in
      let n = size_loop o (length leaves) 1 (length leaves) - length leaves in
      let level = leaves ++ repeat o n (merkle_empty_hash o) in
      let whole : length level ≡ 2 ^ height = omega (
        arith,
        length-append leaves (repeat o n (merkle_empty_hash o)),
        length-repeat n (merkle_empty_hash o),
        size,
        enough,
      ) in
      let folded =
        fold_levels-tree (size_loop o (length leaves) 1 (length leaves)) height level whole
          (omega (arith, size, lt_pow height)) in
      let many = length-map (merkle_leaf_hash o) (id ∷ ids) in
      (
        height,
        ap (λ r. elim r [ none ↦ [] | some root ↦ root ]) folded
            ∙ tree-ext (at level) (leaf_at (id ∷ ids)) (at-padded (id ∷ ids) n) height 0,
        omega (arith, many, enough),
        inr (omega (arith, many, least)),
      )

  -- The Merkle root of any operations is the root of the tree over the hashes of their identifiers
  -- in order, filled up with the empty hash to the least power of two that is not less than their
  -- number.
  pub merkle_root-tree :
      (records : List SyncOperationRecord)
      → let ids = offer_operation_ids records in
        (height : ℕ) × (merkle_root o records ≡ tree (leaf_at ids) height 0)
        × (length ids ≤ 2 ^ height)
        × ((height ≡ 0) ⊎ (2 ^ height < 2 * length ids))
  unfolding merkle_root
  merkle_root-tree records = root_of_ids-tree (offer_operation_ids records)
