-- ===== src/Sync/Convergence.antt =====
-- sync.rs: a round of a synchronisation brings over every operation.
use post_urbit.Prelude.{
  Bytes, true, List, [], ◌∷◌, ◌++◌, ◌≡◌, refl, ◌∙◌, ap, subst, some, ◌⊎◌, inl, inr, nat_eq, list_eq,
  ==_refl, All, All-mono, contains, length, map, Bool-cases, list_beq_iff, arith, is_some,
  is_some-some, ok,
}
use post_urbit.Prelude.Dict.{get, insert, values, keys, IsDistinct, get-insert}
use post_urbit.Sync.{
  SyncOperationRecord, SyncAccept, Outside, SyncStore, ordered_operations, offer_operation_ids,
  missing_operation_ids, verify_sync_operation, check_dependencies, add_operation, offer, accept,
  operations_for,
}
use post_urbit.Sync.Closure.{IsClosed, Holds, Holds-insert}
use post_urbit.Sync.Order.Dependencies.{
  InOrder, IsLater, ordered_operations-InOrder, ordered_operations-All, ordered_operations-Among,
  values-All, values-Among,
}
use post_urbit.Sync.Order.Sorted.{Among}
use post_urbit.Sync.Session.{
  SyncOperations, SyncAck, SyncSession, handle_offer, handle_accept, handle_operations, add_all,
}

-- An operation that a peer can bring over: its identifier has 32 bytes, it stands in the peer's
-- store, one of the keys signed it, and it is read as it was written.
pub record IsSendable (o : Outside) (signing_keys : List Bytes) (s : SyncStore)
    (r : SyncOperationRecord) : Type 0 where
  pub id_long : length r.id ≡ 32
  pub stored : get s r.id ≡ some r
  pub verified : verify_sync_operation o r signing_keys ≡ ok tt
  pub bytes : Bytes
  pub written : o.encode_record r ≡ ok bytes
  pub read : o.decode_record bytes ≡ ok r

abbrev ids_of : List SyncOperationRecord → List Bytes
ids_of = map (λ (r : SyncOperationRecord). r.id)

module _ (o : Outside) (signing_keys : List Bytes) (source : SyncStore) where
  check_dependencies-Holds :
      (deps : List Bytes) (s : SyncStore) → All (Holds s) deps → check_dependencies o deps s ≡ ok tt
  unfolding check_dependencies
  check_dependencies-Holds [] s h = refl
  check_dependencies-Holds (d ∷ deps) s h = rw h.0 (check_dependencies-Holds deps s h.1)

  add_operation-Holds :
      (r : SyncOperationRecord) (s : SyncStore)
      → verify_sync_operation o r signing_keys ≡ ok tt
      → All (Holds s) r.dependencies
      → add_operation o r signing_keys s ≡ ok (insert s r.id r)
  unfolding add_operation
  add_operation-Holds r s h k = rw (h, check_dependencies-Holds r.dependencies s k) refl

  -- the rest of an offer, for a store that holds what was seen
  pub record IsDelivered (local : List Bytes) (rs : List SyncOperationRecord) (acked : List Bytes)
      (s : SyncStore) : Type 0 where
    pub wanted : List Bytes
    pub missing : missing_operation_ids local (ids_of rs) ≡ ok wanted
    pub operations : List Bytes
    pub found : operations_for o wanted source ≡ ok operations
    pub acknowledged : List Bytes
    pub then_store : SyncStore
    pub added : add_all o operations signing_keys acked s ≡ (ok acknowledged, then_store)
    pub kept : (id : Bytes) → Holds s id → Holds then_store id
    pub all_held : All (Holds then_store) (ids_of rs)

  deliver :
      (local seen : List Bytes) (rs : List SyncOperationRecord) (acked : List Bytes) (s : SyncStore)
      → InOrder seen rs
      → All (IsSendable o signing_keys source) rs
      → ((d : Bytes) → contains seen d ≡ true → Holds s d)
      → ((d : Bytes) → contains local d ≡ true → Holds s d)
      → IsDelivered local rs acked s
  unfolding missing_operation_ids operations_for add_all contains
  deliver local seen [] acked s order sendable h k = record {
    wanted = [];
    missing = refl;
    operations = [];
    found = refl;
    acknowledged = acked;
    then_store = s;
    added = refl;
    kept = λ id p. p;
    all_held = tt;
  }
  deliver local seen (r ∷ rs) acked s order sendable h k =
      let q = sendable.0 in
      elim (Bool-cases (contains local r.id)) [
        | inl e ↦
            let here = k r.id e in
            let rest =
              deliver local (r.id ∷ seen) rs acked s order.1 sendable.1
                (λ d m. ground (arith, m, h d, list_beq_iff r.id d, here)) k in
            record {
              wanted = rest.wanted;
              missing = rw (q.id_long, rest.missing, e) refl;
              operations = rest.operations;
              found = rest.found;
              acknowledged = rest.acknowledged;
              then_store = rest.then_store;
              added = rest.added;
              kept = rest.kept;
              all_held = (rest.kept r.id here, rest.all_held);
            }
        | inr e ↦
            let s1 = insert s r.id r in
            let there : get s1 r.id ≡ some r = get-insert s r.id r.id r ∙ rw (==_refl r.id) refl in
            let here : Holds s1 r.id = ap is_some there in
            let deps = All-mono r.dependencies h order.0 in
            let rest =
              deliver local (r.id ∷ seen) rs (acked ++ r.id ∷ []) s1 order.1 sendable.1
                (λ d m. ground (arith, m, h d, Holds-insert o s r d, list_beq_iff r.id d, here))
                (λ d m. Holds-insert o s r d (k d m)) in
            record {
              wanted = r.id ∷ rest.wanted;
              missing = rw (q.id_long, rest.missing, e) refl;
              operations = q.bytes ∷ rest.operations;
              found = rw (q.id_long, q.stored, q.written, rest.found) refl;
              acknowledged = rest.acknowledged;
              then_store = rest.then_store;
              added =
                  rw (q.read, add_all) (rw (add_operation-Holds r s q.verified deps) rest.added);
              kept = λ id p. rest.kept id (Holds-insert o s r id p);
              all_held = (rest.kept r.id here, rest.all_held);
            }
      ]

contains-keys-Holds : (s : SyncStore) (d : Bytes) → contains (keys s) d ≡ true → Holds s d
unfolding contains get
contains-keys-Holds [] d h = cc
contains-keys-Holds ((k, v) ∷ s) d h = ground (arith, h, contains-keys-Holds s d)

Among-Holds :
    (s : SyncStore) (rs : List SyncOperationRecord) (id : Bytes)
    → All (Holds s) (ids_of rs)
    → Among (λ (x : SyncOperationRecord). x.id ≡ id) rs
    → Holds s id
Among-Holds s [] id h m = elim m [ ]
Among-Holds s (r ∷ rs) id h (inl e) = subst (Holds s) e h.0
Among-Holds s (r ∷ rs) id h (inr m) = Among-Holds s rs id h.1 m

nothing_seen : {P : Type 0} (d : Bytes) → contains [] d ≡ true → P
unfolding contains
nothing_seen d h = cc

-- A session whose store is closed under dependencies, with each identifier once, offers its
-- operations to a session on the same document: each of them later than those that it depends on,
-- signed with one of the keys, under an identifier of 32 bytes, and read as it is written. The
-- other's acceptance, the operations for it and their handling all succeed, and afterwards the other
-- holds every operation that one of the two held.
pub round-Holds :
    (o : Outside) (signing_keys : List Bytes) (a b : SyncSession)
    → a.document_id ≡ b.document_id
    → IsDistinct a.store
    → IsClosed a.store
    → IsLater a.store
    → ((id : Bytes) (r : SyncOperationRecord)
        → get a.store id ≡ some r
        → IsSendable o signing_keys a.store r)
    → (accepted : SyncAccept) × (operations : SyncOperations) × (ack : SyncAck)
      × (after : SyncSession) × (handle_offer o (offer o a.document_id a.store) b ≡ ok accepted)
      × (handle_accept o accepted a ≡ ok operations)
      × (handle_operations o operations signing_keys b ≡ (ok ack, after))
      × ((id : Bytes) → Holds a.store id ⊎ Holds b.store id → Holds after.store id)
unfolding handle_offer handle_accept handle_operations offer accept offer_operation_ids
round-Holds o signing_keys a b same distinct c later sendable =
    let rs = ordered_operations (values a.store) in
    let all_sendable : All (IsSendable o signing_keys a.store) rs =
      ordered_operations-All _ (values a.store) (values-All _ a.store distinct sendable) in
    let d =
      deliver o signing_keys a.store (keys b.store) [] rs [] b.store
        (ordered_operations-InOrder a.store distinct c later) all_sendable (λ x h. nothing_seen x h)
        (contains-keys-Holds b.store) in
    (
      record { document_id = a.document_id; wanted_ids = d.wanted },
      record { document_id = a.document_id; operations = d.operations },
      record { document_id = b.document_id; operation_ids = d.acknowledged },
      record b { store = d.then_store },
      rw (same, ==_refl b.document_id, d.missing) refl,
      rw (==_refl a.document_id, d.found) refl,
      rw (same, ==_refl b.document_id, d.added) refl,
      λ id m. elim m [
        | inr k ↦ d.kept id k
        | inl k ↦
            let (r, e) = is_some-some (get a.store id) k in
            Among-Holds d.then_store rs id d.all_held (
              ordered_operations-Among _ (values a.store) (
                values-Among (λ (x : SyncOperationRecord). x.id ≡ id) a.store id r e
                  (c.keyed id r e)))
      ],
    )
