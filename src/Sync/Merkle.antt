-- ===== src/Sync/Merkle.antt =====
-- sync.rs: the Merkle root of a set of operations.
pub mod Tree
use post_urbit.Prelude.{
  ℕ, zero, suc, ◌*◌, ◌-◌, ◌+◌, ◌≤◌, Bytes, Option, none, some, List, [], ◌∷◌, ◌++◌, if◌then◌else◌,
  ltb, length, map, ◌≡◌, refl, ap, ascii, Permᴰ, arith,
}
use post_urbit.Sync.{SyncOperationRecord, Outside, ordered_operations, offer_operation_ids}
use post_urbit.Sync.Order.{offer_operation_ids-Perm}

module _ (o : Outside) where
  unfoldable pub merkle_leaf_hash : Bytes → Bytes
  unfolding ascii
  merkle_leaf_hash data_ = o.sha256 (ascii "post-urbit:merkle-leaf:" ++ data_)

  unfoldable pub merkle_node_hash : Bytes → Bytes → Bytes
  unfolding ascii
  merkle_node_hash left right = o.sha256 (ascii "post-urbit:merkle-node:" ++ left ++ right)

  unfoldable pub merkle_empty_hash : Bytes
  unfolding ascii
  merkle_empty_hash = o.sha256 (ascii "post-urbit:merkle-empty:")

  -- `while size < leaves.len() { size <<= 1; }`
  unfoldable pub size_loop : ℕ → ℕ → ℕ → ℕ
  size_loop zero size n = size
  size_loop (suc fuel) size n =
      let rest = size_loop fuel (2 * size) n in if ltb size n then rest else size

  unfoldable pub repeat : ℕ → Bytes → List Bytes
  repeat zero x = []
  repeat (suc n) x = x ∷ repeat n x

  -- `level.chunks(2)`
  unfoldable pub next_level : List Bytes → List Bytes
  unfolding merkle_node_hash merkle_empty_hash
  next_level [] = []
  next_level (left ∷ []) = merkle_node_hash left merkle_empty_hash ∷ []
  next_level (left ∷ right ∷ level) = merkle_node_hash left right ∷ next_level level

  -- `while level.len() > 1`, then `level[0]`; `none` stands for rounds that do not end
  unfoldable pub fold_levels : ℕ → List Bytes → Option Bytes
  unfolding next_level
  fold_levels fuel [] = none
  fold_levels fuel (root ∷ []) = some root
  fold_levels zero (a ∷ b ∷ level) = none
  fold_levels (suc fuel) (a ∷ b ∷ level) = fold_levels fuel (next_level (a ∷ b ∷ level))

  -- a digest of no bytes stands for rounds that do not end
  unfoldable pub root_of_ids : List Bytes → Bytes
  unfolding merkle_empty_hash merkle_leaf_hash size_loop repeat fold_levels
  root_of_ids [] = merkle_empty_hash
  root_of_ids (id ∷ ids) =
      let leaves = map merkle_leaf_hash (id ∷ ids) in
      let size = size_loop (length leaves) 1 (length leaves) in
      elim (fold_levels size (leaves ++ repeat (size - length leaves) merkle_empty_hash)) [
        | none ↦ []
        | some root ↦ root
      ]

  unfoldable pub merkle_root : List SyncOperationRecord → Bytes
  unfolding root_of_ids offer_operation_ids ordered_operations
  merkle_root records = root_of_ids (offer_operation_ids records)

  -- Two lists of the same operations, however they are arranged, have the same Merkle root.
  pub merkle_root-Perm :
      {xs ys : List SyncOperationRecord} → Permᴰ xs ys → merkle_root xs ≡ merkle_root ys
  unfolding merkle_root
  merkle_root-Perm p = ap root_of_ids (offer_operation_ids-Perm p)
