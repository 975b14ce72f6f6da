-- ===== src/Tests/Sync.antt =====
-- Stores, sessions and sets of a few elements.
use post_urbit.Prelude.{
  IsKeyPair, ℕ, zero, suc, Bytes, [], ◌∷◌, ◌≡◌, refl, ok, true, All, contains, nat_eq, list_eq,
  Permᴰ, take, length, ◌^◌, ◌*◌, ◌≤◌, ◌<◌, ◌⊎◌,
}
use post_urbit.Prelude.Dict
use post_urbit.Sync.{
  SyncOperationRecord, Outside, sign_sync_operation, verify_sync_operation, operation_id,
  offer_operation_ids,
}
use post_urbit.Sync.Closure.{IsClosed, Holds}
use post_urbit.Sync.Order.{operation_id-Perm}
use post_urbit.Sync.Merkle.{merkle_root, merkle_root-Perm}
use post_urbit.Sync.Merkle.Tree.{tree, leaf_at, merkle_root-tree}
use post_urbit.Sync.Session.{
  SyncSession, SyncOperations, SyncAck, handle_operations, handle_operations-IsClosed,
}
use post_urbit.Sync.Signing.{sign-verify}
use post_urbit.Sync.OrSet.{OrSet, add, remove, merge, values, tags_of}
use post_urbit.Sync.OrSet.Replicas.{merge_agrees}
use post_urbit.Sync.OrSet.Removal.{add_wins}

abbrev zeros : ℕ → Bytes
zeros zero = []
zeros (suc n) = 0 ∷ zeros n

-- every signature is 64 zeros, and is accepted
abbrev toy : Outside
toy = record {
  sha256 = λ message. take 32 message;
  ed25519 = record {
    sign = λ key message. zeros 64;
    is_key = λ key. true;
    verify_strict = λ key message signature. true;
  };
  encode_record = λ r. ok r.id;
  decode_record = λ bytes. ok (record {
    id = bytes;
    origin = zeros 20;
    document_id = zeros 32;
    physical_ms = 0;
    logical = 0;
    operation = [];
    dependencies = [];
    signature = zeros 64;
  });
}

toy-IsKeyPair : IsKeyPair toy.ed25519 [] (zeros 32)
toy-IsKeyPair = record {
  key_long = refl;
  key_good = refl;
  signature_long = λ message. refl;
  accepts = λ message. refl;
}

abbrev first : SyncOperationRecord
first = record {
  id = 1 ∷ [];
  origin = zeros 20;
  document_id = zeros 32;
  physical_ms = 5;
  logical = 0;
  operation = 7 ∷ [];
  dependencies = [];
  signature = zeros 64;
}

abbrev second : SyncOperationRecord
second = record first { id = 2 ∷ []; logical = 1 }

sign-verify_example :
    verify_sync_operation toy
      (record {
        id = (sign_sync_operation toy (zeros 32) (zeros 20) 5 0 (7 ∷ []) ((1 ∷ []) ∷ []) []).0;
        origin = zeros 20;
        document_id = zeros 32;
        physical_ms = 5;
        logical = 0;
        operation = 7 ∷ [];
        dependencies = (1 ∷ []) ∷ [];
        signature =
            (sign_sync_operation toy (zeros 32) (zeros 20) 5 0 (7 ∷ []) ((1 ∷ []) ∷ []) []).1;
      })
      ((3 ∷ []) ∷ zeros 32 ∷ [])
    ≡ ok tt
sign-verify_example =
    sign-verify toy [] (zeros 32) toy-IsKeyPair ((3 ∷ []) ∷ []) [] (zeros 32) (zeros 20) 5 0
      (7 ∷ []) ((1 ∷ []) ∷ []) ((λ h. refl), tt)

merkle_root-Perm_example :
    merkle_root toy (first ∷ second ∷ []) ≡ merkle_root toy (second ∷ first ∷ [])
merkle_root-Perm_example = merkle_root-Perm toy (Permᴰ.swap refl refl)

merkle_root-tree_example :
    let ids = offer_operation_ids (first ∷ second ∷ []) in
    (height : ℕ) × (merkle_root toy (first ∷ second ∷ []) ≡ tree toy (leaf_at toy ids) height 0)
    × (length ids ≤ 2 ^ height)
    × ((height ≡ 0) ⊎ (2 ^ height < 2 * length ids))
merkle_root-tree_example = merkle_root-tree toy (first ∷ second ∷ [])

operation_id-Perm_example :
    operation_id toy (zeros 20) 5 0 (7 ∷ []) ((1 ∷ []) ∷ (2 ∷ []) ∷ [])
    ≡ operation_id toy (zeros 20) 5 0 (7 ∷ []) ((2 ∷ []) ∷ (1 ∷ []) ∷ [])
operation_id-Perm_example = operation_id-Perm toy (zeros 20) 5 0 (7 ∷ []) (Permᴰ.swap refl refl)

abbrev session : SyncSession
session = record { document_id = zeros 32; store = [] }

abbrev sent : SyncOperations
sent = record { document_id = zeros 32; operations = (1 ∷ []) ∷ (2 ∷ []) ∷ [] }

empty-IsClosed : IsClosed []
unfolding Dict.get
empty-IsClosed = record { keyed = λ id r h. cc; closed = λ id r h. absurd (cc) }

handle_operations-IsClosed_example :
    IsClosed (handle_operations toy sent (zeros 32 ∷ []) session).1.store
    × ((id : Bytes)
        → Holds [] id
        → Holds (handle_operations toy sent (zeros 32 ∷ []) session).1.store id)
    × ((handle_operations toy sent (zeros 32 ∷ []) session).1.document_id ≡ zeros 32)
    × ((ack : SyncAck)
        → (handle_operations toy sent (zeros 32 ∷ []) session).0 ≡ ok ack
        → All
            (Holds (handle_operations toy sent (zeros 32 ∷ []) session).1.store)
            ack.operation_ids)
handle_operations-IsClosed_example =
    handle_operations-IsClosed toy sent (zeros 32 ∷ []) session empty-IsClosed

abbrev here : OrSet ℕ
here = record { adds = (4, 1 ∷ []) ∷ []; removes = [] }

abbrev there : OrSet ℕ
there = record { adds = (4, 2 ∷ []) ∷ []; removes = (4, 1 ∷ []) ∷ [] }

merge_agrees_example :
    (contains (values (merge here there)) 4 ≡ contains (values (merge there here)) 4)
    × (contains (values (merge (merge here there) here)) 4
        ≡ contains (values (merge here (merge there here))) 4)
    × (contains (values (merge (merge here there) there)) 4
        ≡ contains (values (merge here there)) 4)
unfolding Dict.get
merge_agrees_example =
    merge_agrees here there here 4 ((refl, tt), tt) ((refl, tt), (refl, tt)) ((refl, tt), tt)

add_wins_example :
    contains (values (merge (remove here 4 (tags_of here.adds 4)) (add here 4 7))) 4 ≡ true
unfolding Dict.get contains
add_wins_example = add_wins here 4 7 ((refl, tt), tt) refl refl
