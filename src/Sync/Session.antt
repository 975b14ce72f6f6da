-- ===== src/Sync/Session.antt =====
-- sync.rs: `SyncSession`, the handlers of the messages of a synchronisation.
use post_urbit.Prelude.{
  ℕ, Bytes, List, [], ◌∷◌, ◌++◌, if◌then◌else◌, nat_eq, list_eq, ◌==◌, Result, ok, err, ◌>>=◌, ◌>>◌,
  not, invalid_input, guard, ◌≡◌, refl, ap, subst, is_some, All-append, Result-cases, Bool-cases,
  inl, inr, All, All-mono,
}
use post_urbit.Sync.{
  SyncOffer, SyncAccept, Outside, SyncStore, add_operation, offer, accept, operations_for,
  all_operations,
}
use post_urbit.Sync.Merkle.{merkle_root}
use post_urbit.Sync.Closure.{
  IsClosed, Holds, add_operation-IsClosed, add_operation-eq-ok, Holds-insert,
}

pub record SyncRequest : Type 0 where
  pub document_id : Bytes
  pub merkle_root : Bytes
  pub depth : ℕ

pub record SyncOperations : Type 0 where
  pub document_id : Bytes
  pub operations : List Bytes

pub record SyncAck : Type 0 where
  pub document_id : Bytes
  pub operation_ids : List Bytes

pub record SyncSession : Type 0 where
  pub document_id : Bytes
  pub store : SyncStore

module _ (o : Outside) where
  unfoldable pub request : SyncSession → SyncRequest
  request s = record {
    document_id = s.document_id;
    merkle_root = merkle_root o (all_operations o s.store);
    depth = 0;
  }

  unfoldable pub handle_request : SyncRequest → SyncSession → Result SyncOffer
  unfolding offer
  handle_request req s = do
    guard (req.document_id == s.document_id) (invalid_input "document id mismatch")
    if req.merkle_root == merkle_root o (all_operations o s.store)
        then ok (record { document_id = s.document_id; operation_ids = [] })
        else ok (offer o s.document_id s.store)

  unfoldable pub handle_offer : SyncOffer → SyncSession → Result SyncAccept
  unfolding accept
  handle_offer offered s = do
    guard (offered.document_id == s.document_id) (invalid_input "document id mismatch")
    accept o offered s.store

  unfoldable pub handle_accept : SyncAccept → SyncSession → Result SyncOperations
  unfolding operations_for
  handle_accept accepted s = do
    guard (accepted.document_id == s.document_id) (invalid_input "document id mismatch")
    operations ← operations_for o accepted.wanted_ids s.store
    ok (record { document_id = s.document_id; operations = operations })

  -- what was added before an operation is refused stays in the store
  unfoldable pub add_all :
      List Bytes → List Bytes → List Bytes → SyncStore → Result (List Bytes) × SyncStore
  add_all [] signing_keys acked store = (ok acked, store)
  add_all (op_bytes ∷ ops) signing_keys acked store = elim (o.decode_record op_bytes) [
    | err e ↦ (err e, store)
    | ok r ↦ elim (add_operation o r signing_keys store) [
      | err e ↦ (err e, store)
      | ok store' ↦ add_all ops signing_keys (acked ++ r.id ∷ []) store'
    ]
  ]

  abbrev pub answer : Bytes → List Bytes → Result SyncAck
  answer document_id acked = ok (record { document_id = document_id; operation_ids = acked })

  unfoldable pub handle_operations :
      SyncOperations → List Bytes → SyncSession → Result SyncAck × SyncSession
  unfolding add_all
  handle_operations ops signing_keys s =
      if not (ops.document_id == s.document_id)
      then (err (invalid_input "document id mismatch"), s)
      else (let (r, store) = add_all ops.operations signing_keys [] s.store in
          (r >>= answer s.document_id, record s { store = store }))

  -- the acknowledged operations are held, if there is an acknowledgement
  abbrev pub Acked : Result (List Bytes) → SyncStore → Type 0
  Acked (ok ids) store = All (Holds store) ids
  Acked (err e) store = Unit {0}

  add_all-IsClosed :
      (ops keys acked : List Bytes) (store : SyncStore)
      → IsClosed store
      → All (Holds store) acked
      → IsClosed (add_all ops keys acked store).1
        × Acked (add_all ops keys acked store).0 (add_all ops keys acked store).1
        × ((id : Bytes) → Holds store id → Holds (add_all ops keys acked store).1 id)
  unfolding add_all
  add_all-IsClosed [] keys acked store c a = (c, a, λ id h. h)
  add_all-IsClosed (op ∷ ops) keys acked store c a = elim (Result-cases (o.decode_record op)) [
    | inr (e, d) ↦ rw (d, add_all) (c, tt, λ id h. h)
    | inl (r, d) ↦ elim (Result-cases (add_operation o r keys store)) [
      | inr (e, f) ↦ rw (d, add_all) (rw f (c, tt, λ id h. h))
      | inl (store', f) ↦
          rw (d, add_all)
            (rw f (
              let (verified, deps, e) = add_operation-eq-ok o r keys store store' f in
              let (c', _, g) = add_operation-IsClosed o r keys store store' c f in
              let kept : (id : Bytes) → Holds store id → Holds store' id =
                λ id h. subst (λ x. Holds x id) e (Holds-insert o store r id h) in
              let (closed, acks, mono) = add_all-IsClosed ops keys (acked ++ r.id ∷ []) store' c' (
                All-append (Holds store') acked (r.id ∷ []) (All-mono acked kept a)
                  (ap is_some g, tt)) in
              (closed, acks, λ id h. mono id (kept id h))))
    ]
  ]

  Acked-answer :
      (r : Result (List Bytes)) (document_id : Bytes) (store : SyncStore)
      → Acked r store
      → (ack : SyncAck) → (r >>= answer document_id) ≡ ok ack
      → All (Holds store) ack.operation_ids
  Acked-answer (ok ids) document_id store h ack e =
      subst (All (Holds store))
        (ap (λ (x : Result SyncAck). elim x [ ok y ↦ y.operation_ids | err _ ↦ [] ]) e) h
  Acked-answer (err f) document_id store h ack e = cc

  -- Whatever bytes a peer sends as operations: the store stays closed under dependencies, it keeps
  -- what it held, the document stays the same, and what the answer acknowledges is held.
  pub handle_operations-IsClosed :
      (ops : SyncOperations) (keys : List Bytes) (s : SyncSession)
      → IsClosed s.store
      → let after = handle_operations ops keys s in
        IsClosed after.1.store
        × ((id : Bytes) → Holds s.store id → Holds after.1.store id)
        × (after.1.document_id ≡ s.document_id)
        × ((ack : SyncAck) → after.0 ≡ ok ack → All (Holds after.1.store) ack.operation_ids)
  unfolding handle_operations
  handle_operations-IsClosed ops keys s c = elim (Bool-cases (ops.document_id == s.document_id)) [
    | inr e ↦ rw (e, handle_operations) (c, λ id h. h, refl, λ ack f. cc)
    | inl e ↦
        rw (e, handle_operations)
          (let (closed, acks, mono) = add_all-IsClosed ops.operations keys [] s.store c tt in
            (closed, mono, refl, Acked-answer _ s.document_id _ acks))
  ]
