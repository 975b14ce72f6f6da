-- ===== src/Sync/Closure.antt =====
-- sync.rs: a store holds, with an operation, the operations that it depends on.
use post_urbit.Prelude.{
  Bytes, true, some, List, [], ◌∷◌, ◌≡◌, refl, ◌∙◌, subst, nat_eq, list_eq, ◌==◌, ok, >>=-eq-ok,
  guard, guard-eq-ok, All-mono, arith, All, is_some, list_beq_iff, ==_refl, Bool-cases, inl, inr,
  invalid_input,
}
use post_urbit.Prelude.Dict
use post_urbit.Prelude.Dict.{Dict}
use post_urbit.Sync.{
  SyncOperationRecord, Outside, SyncStore, add_operation, check_dependencies, verify_sync_operation,
}

abbrev pub Holds : SyncStore → Bytes → Type 0
Holds s id = is_some (Dict.get s id) ≡ true

-- an operation stands under its identifier, and the operations that it depends on stand in the store
pub record IsClosed (s : SyncStore) : Type 0 where
  pub keyed : (id : Bytes) (r : SyncOperationRecord) → Dict.get s id ≡ some r → r.id ≡ id
  pub closed :
      (id : Bytes) (r : SyncOperationRecord) → Dict.get s id ≡ some r → All (Holds s) r.dependencies

module _ (o : Outside) where
  check_dependencies-All :
      (deps : List Bytes) (s : SyncStore) → check_dependencies o deps s ≡ ok tt → All (Holds s) deps
  unfolding check_dependencies
  check_dependencies-All [] s h = tt
  check_dependencies-All (d ∷ deps) s h =
      let step =
        >>=-eq-ok (guard (is_some (Dict.get s d)) (invalid_input "dependency missing")) _ h in
      (guard-eq-ok _ _ step.1, check_dependencies-All deps s step.2)

  pub add_operation-eq-ok :
      (r : SyncOperationRecord) (keys : List Bytes) (s s' : SyncStore)
      → add_operation o r keys s ≡ ok s'
      → (verify_sync_operation o r keys ≡ ok tt)
        × All (Holds s) r.dependencies
        × (Dict.insert s r.id r ≡ s')
  unfolding add_operation
  add_operation-eq-ok r keys s s' h =
      let verified = >>=-eq-ok (verify_sync_operation o r keys) _ h in
      let checked = >>=-eq-ok (check_dependencies o r.dependencies s) _ verified.2 in
      (verified.1, check_dependencies-All r.dependencies s checked.1, cc)

  pub Holds-insert :
      (s : SyncStore) (r : SyncOperationRecord) (id : Bytes)
      → Holds s id
      → Holds (Dict.insert s r.id r) id
  Holds-insert s r id h = ground (arith, Dict.get-insert s r.id id r)

  insert-IsClosed :
      (s : SyncStore) (r : SyncOperationRecord)
      → IsClosed s
      → All (Holds s) r.dependencies
      → IsClosed (Dict.insert s r.id r)
  insert-IsClosed s r c deps = record {
    keyed = λ id x g.
        ground (arith, Dict.get-insert s r.id id r, g, list_beq_iff r.id id, c.keyed id x);
    closed = λ id x g. elim (Bool-cases (r.id == id)) [
      | inl e ↦
          let same : r ≡ x = ground (arith, Dict.get-insert s r.id id r, g, e) in
          subst (λ (y : SyncOperationRecord). All (Holds (Dict.insert s r.id r)) y.dependencies)
            same (All-mono r.dependencies (Holds-insert s r) deps)
      | inr e ↦
          All-mono x.dependencies (Holds-insert s r)
            (c.closed id x (ground (arith, Dict.get-insert s r.id id r, g, e)))
    ];
  }

  -- An operation is added only if one of the given keys signed it and the store holds what it depends
  -- on, so that a store where each operation stands under its identifier, with all that it depends
  -- on, stays one.
  pub add_operation-IsClosed :
      (r : SyncOperationRecord) (keys : List Bytes) (s s' : SyncStore)
      → IsClosed s
      → add_operation o r keys s ≡ ok s'
      → IsClosed s' × (verify_sync_operation o r keys ≡ ok tt) × (Dict.get s' r.id ≡ some r)
  add_operation-IsClosed r keys s s' c h =
      let (verified, deps, e) = add_operation-eq-ok r keys s s' h in
      (
        subst IsClosed e (insert-IsClosed s r c deps),
        verified,
        subst (λ (x : SyncStore). Dict.get x r.id ≡ some r) e
            (Dict.get-insert s r.id r.id r ∙ rw (==_refl r.id) refl),
      )
