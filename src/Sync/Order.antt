-- ===== src/Sync/Order.antt =====
-- sync.rs: the order of operations does not depend on the order in which a store lists them.
pub mod Sorted
pub mod Dependencies
use post_urbit.Prelude.{
  ℕ, Bytes, Ordering, compare, compare_bytes, then_with, List, [], ◌∷◌, ◌++◌, ◌≡◌, refl, sym, ap,
  ◌∙◌, map, Permᴰ, IsLinear, Chains-then, Chains-compare, Chains-compare_bytes, compare_bytes-swap,
  compare_bytes_eq, sort_by, sort_by-Perm, map-sort_by, IsLinear-compare_bytes, arith,
}
use post_urbit.Sync.{
  SyncOperationRecord, Outside, ordered_operations, offer_operation_ids, dependencies_bytes,
  operation_id, concat, timestamp_bytes,
}

abbrev pub Stamp : Type 0
Stamp = ℕ × ℕ × Bytes × Bytes

abbrev pub compare_stamps : Stamp → Stamp → Ordering
compare_stamps a b =
    then_with (compare a.0 b.0)
      (then_with (compare a.1 b.1) (then_with (compare_bytes a.2 b.2) (compare_bytes a.3 b.3)))

abbrev pub stamp : SyncOperationRecord → Stamp
stamp r = (r.physical_ms, r.logical, r.origin, r.id)

pub IsLinear-compare_stamps : IsLinear compare_stamps
IsLinear-compare_stamps = record {
  swapped = λ a b. ground (arith, compare_bytes-swap a.2 b.2, compare_bytes-swap a.3 b.3);
  equal = λ a b h. ground (arith, h, compare_bytes_eq a.2 b.2, compare_bytes_eq a.3 b.3);
  chains = λ a b c. Chains-then _ _ _ _ _ _ (Chains-compare a.0 b.0 c.0) (
      Chains-then _ _ _ _ _ _ (Chains-compare a.1 b.1 c.1) (
        Chains-then _ _ _ _ _ _ (Chains-compare_bytes a.2 b.2 c.2)
          (Chains-compare_bytes a.3 b.3 c.3)));
}

map-Perm : {xs ys : List SyncOperationRecord} → Permᴰ xs ys → Permᴰ (map stamp xs) (map stamp ys)
map-Perm Permᴰ.nil = Permᴰ.nil
map-Perm (Permᴰ.cons e p) = Permᴰ.cons (ap stamp e) (map-Perm p)
map-Perm (Permᴰ.swap e f) = Permᴰ.swap (ap stamp e) (ap stamp f)
map-Perm (Permᴰ.trans p q) = Permᴰ.trans (map-Perm p) (map-Perm q)

ordered_stamps :
    (xs : List SyncOperationRecord)
    → map stamp (ordered_operations xs) ≡ sort_by compare_stamps (map stamp xs)
unfolding ordered_operations
ordered_stamps xs = map-sort_by stamp compare_stamps xs

map-map :
    (xs : List SyncOperationRecord)
    → map (λ (r : SyncOperationRecord). r.id) xs ≡ map (λ (s : Stamp). s.3) (map stamp xs)
map-map [] = refl
map-map (x ∷ xs) = ap (◌∷◌ x.id) (map-map xs)

-- Two lists of the same operations, however they are arranged, are offered as the same identifiers in
-- the same order.
pub offer_operation_ids-Perm :
    {xs ys : List SyncOperationRecord}
    → Permᴰ xs ys
    → offer_operation_ids xs ≡ offer_operation_ids ys
unfolding offer_operation_ids
offer_operation_ids-Perm {xs} {ys} p =
    map-map (ordered_operations xs)
    ∙ ap (map (λ (s : Stamp). s.3)) (
        ordered_stamps xs
        ∙ sort_by-Perm compare_stamps IsLinear-compare_stamps (map-Perm p)
        ∙ sym (ordered_stamps ys))
    ∙ sym (map-map (ordered_operations ys))

dependencies_bytes-Perm :
    {ds es : List Bytes} → Permᴰ ds es → dependencies_bytes ds ≡ dependencies_bytes es
unfolding dependencies_bytes
dependencies_bytes-Perm p = ap concat (sort_by-Perm compare_bytes IsLinear-compare_bytes p)

-- The identifier of an operation does not depend on the order of its dependencies.
pub operation_id-Perm :
    (o : Outside) (origin : Bytes) (physical_ms logical : ℕ) (operation : Bytes)
    {ds es : List Bytes}
    → Permᴰ ds es
    → operation_id o origin physical_ms logical operation ds
      ≡ operation_id o origin physical_ms logical operation es
unfolding operation_id
operation_id-Perm o origin physical_ms logical operation p =
    ap
      (λ deps.
        o.sha256 (origin ++ timestamp_bytes o physical_ms logical origin ++ operation ++ deps))
      (dependencies_bytes-Perm p)
