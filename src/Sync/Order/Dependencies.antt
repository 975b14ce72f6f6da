-- ===== src/Sync/Order/Dependencies.antt =====
-- sync.rs: the order in which operations are offered puts each behind those that it depends on.
use post_urbit.Prelude.{
  Bytes, true, false, is_gt, swap, List, [], ◌∷◌, ◌≡◌, refl, sym, some, ◌⊎◌, inl, inr, nat_eq,
  list_eq, ◌==◌, ==_refl, All, All-mono, contains, Bool-cases, list_beq_iff, arith, Chains,
  is_some-some,
}
use post_urbit.Prelude.Dict.{get, values, IsDistinct}
use post_urbit.Sync.{SyncOperationRecord, SyncStore, compare_operations, ordered_operations}
use post_urbit.Sync.Closure.{IsClosed, Holds}
use post_urbit.Sync.Order.{IsLinear-compare_stamps, stamp}
use post_urbit.Sync.Order.Sorted.{
  Among, none-Among, IsSorted, sort_by-All, sort_by-Among, sort_by-IsSorted,
}

-- each operation's dependencies stand before it, or in what was seen
abbrev pub InOrder : List Bytes → List SyncOperationRecord → Type 0
InOrder seen [] = Unit {0}
InOrder seen (r ∷ rs) = All (λ d. contains seen d ≡ true) r.dependencies × InOrder (r.id ∷ seen) rs

-- the operation that this one depends on, by an identifier
abbrev IsBefore : SyncOperationRecord → Bytes → SyncOperationRecord → Type 0
IsBefore r d x = (x.id ≡ d) × (is_gt (compare_operations r x) ≡ true)

abbrev IsCovered : List Bytes → List SyncOperationRecord → SyncOperationRecord → Type 0
IsCovered seen rs r = All (λ d. (contains seen d ≡ true) ⊎ Among (IsBefore r d) rs) r.dependencies

swapped : (a b : SyncOperationRecord) → compare_operations b a ≡ swap (compare_operations a b)
swapped a b = (IsLinear-compare_stamps).swapped (stamp a) (stamp b)

chains :
    (a b c : SyncOperationRecord)
    → Chains (compare_operations a b) (compare_operations b c) (compare_operations a c)
chains a b c = (IsLinear-compare_stamps).chains (stamp a) (stamp b) (stamp c)

sorted-InOrder :
    (seen : List Bytes) (rs : List SyncOperationRecord)
    → IsSorted compare_operations rs
    → All (IsCovered seen rs) rs
    → InOrder seen rs
unfolding contains
sorted-InOrder seen [] s h = tt
sorted-InOrder seen (r ∷ rs) s h = (
  All-mono r.dependencies
      (λ d m. elim m [
        | inl k ↦ k
        | inr (inl (same, above)) ↦ ground (arith, swapped r r, above)
        | inr (inr among) ↦ absurd (
            none-Among (IsBefore r d) (λ y. is_gt (compare_operations r y) ≡ false) rs s.0
              (λ x p q. ground (arith, p.1, q)) among)
      ])
      h.0,
  sorted-InOrder (r.id ∷ seen) rs s.1 (
      All-mono rs
        (λ q. All-mono q.dependencies (λ d m. elim m [
          | inl k ↦ inl (ground (arith, k))
          | inr (inl (same, above)) ↦ inl (ground (arith, list_beq_iff r.id d, same))
          | inr (inr among) ↦ inr among
        ]))
        h.1),
)

-- what holds of every entry of a map holds of its values
pub values-All :
    (P : SyncOperationRecord → Type 0) (s : SyncStore)
    → IsDistinct s
    → ((id : Bytes) (r : SyncOperationRecord) → get s id ≡ some r → P r)
    → All P (values s)
unfolding get
values-All P [] d h = tt
values-All P ((k, v) ∷ s) d h = (
  h k v (rw (==_refl k) refl),
  values-All P s d.1 (λ id r e. h id r (ground (arith, e, d.0, list_beq_iff k id))),
)

pub values-Among :
    (P : SyncOperationRecord → Type 0) (s : SyncStore) (id : Bytes) (r : SyncOperationRecord)
    → get s id ≡ some r
    → P r
    → Among P (values s)
unfolding get
values-Among P [] id r e p = cc
values-Among P ((k, v) ∷ s) id r e p = elim (Bool-cases (k == id)) [
  | inl m ↦ let same : r ≡ v = ground (arith, e, m) in inl (rw (sym same) p)
  | inr m ↦ inr (values-Among P s id r (ground (arith, e, m)) p)
]

-- every operation is later than those that it depends on
abbrev pub IsLater : SyncStore → Type 0
IsLater s =
    (id d : Bytes) (r x : SyncOperationRecord)
    → get s id ≡ some r
    → contains r.dependencies d ≡ true
    → get s d ≡ some x
    → is_gt (compare_operations r x) ≡ true

contains-All :
    (P : Bytes → Type 0) (ds : List Bytes) → ((d : Bytes) → contains ds d ≡ true → P d) → All P ds
unfolding contains
contains-All P [] h = tt
contains-All P (d ∷ ds) h =
    (h d (rw (==_refl d) refl), contains-All P ds (λ e k. h e (ground (arith, k))))

All-contains :
    (P : Bytes → Type 0) (ds : List Bytes) (d : Bytes) → All P ds → contains ds d ≡ true → P d
unfolding contains
All-contains P [] d h k = cc
All-contains P (e ∷ ds) d h k = elim (Bool-cases (e == d)) [
  | inl m ↦ rw (sym ((list_beq_iff e d).0 m)) h.0
  | inr m ↦ All-contains P ds d h.1 (ground (arith, k, m))
]

-- the operations of a store that is closed under dependencies
pub ordered_operations-InOrder :
    (s : SyncStore)
    → IsDistinct s
    → IsClosed s
    → IsLater s
    → InOrder [] (ordered_operations (values s))
unfolding ordered_operations
ordered_operations-InOrder s distinct c later =
    sorted-InOrder [] _ (sort_by-IsSorted compare_operations swapped chains (values s)) (
      sort_by-All compare_operations _ (values s) (
        values-All _ s distinct (λ id r e. contains-All _ r.dependencies (λ d k.
          let (x, f) =
            is_some-some (get s d) (All-contains (Holds s) r.dependencies d (c.closed id r e) k) in
          inr (
            sort_by-Among compare_operations (IsBefore r d) (values s)
              (values-Among (IsBefore r d) s d x f (c.keyed d x f, later id d r x e k f)))))))

pub ordered_operations-All :
    (P : SyncOperationRecord → Type 0) (rs : List SyncOperationRecord)
    → All P rs
    → All P (ordered_operations rs)
unfolding ordered_operations
ordered_operations-All P rs h = sort_by-All compare_operations P rs h

pub ordered_operations-Among :
    (P : SyncOperationRecord → Type 0) (rs : List SyncOperationRecord)
    → Among P rs
    → Among P (ordered_operations rs)
unfolding ordered_operations
ordered_operations-Among P rs m = sort_by-Among compare_operations P rs m
