-- ===== src/Sync.antt =====
-- sync.rs: signed operations on a document and the store of them.
-- SHA-256, Ed25519 and the derived serialisation of an operation are the parameter `Outside`. An
-- array `[u8; n]` is a byte string; where the source turns a slice into an array, its length is
-- tested.
pub mod Order
pub mod Merkle
pub mod Closure
pub mod Session
pub mod OrSet
pub mod Signing
pub mod Convergence
pub mod Machine
use post_urbit.Prelude.{
  Ed25519, ℕ, Bytes, Bool, true, false, not, ◌&&◌, ◌+◌, ◌/◌, ◌^◌, Option, none, some, List, [], ◌∷◌,
  ◌++◌, if◌then◌else◌, length, take, nat_eq, list_eq, ◌==◌, Result, ok, err, ◌>>=◌, ◌>>◌, guard,
  ok_or, invalid_input, crypto, compare, compare_bytes, then_with, Ordering, ascii, sort_by,
  contains, map, is_some, to_be_bytes, u8, zero, suc, ltb,
}
use post_urbit.Prelude.Dict
use post_urbit.Prelude.Dict.{Dict}

pub record SyncOperationRecord : Type 0 where
  pub id : Bytes
  pub origin : Bytes
  pub document_id : Bytes
  pub physical_ms : ℕ
  pub logical : ℕ
  pub operation : Bytes
  pub dependencies : List Bytes
  pub signature : Bytes

pub record SyncOffer : Type 0 where
  pub document_id : Bytes
  pub operation_ids : List Bytes

pub record SyncAccept : Type 0 where
  pub document_id : Bytes
  pub wanted_ids : List Bytes

pub record Outside : Type 0 where
  pub sha256 : Bytes → Bytes
  pub ed25519 : Ed25519
  -- `encode_cbor` and `decode_cbor` of an operation
  pub encode_record : SyncOperationRecord → Result Bytes
  pub decode_record : Bytes → Result SyncOperationRecord

abbrev pub SyncStore : Type 0
SyncStore = Dict Bytes SyncOperationRecord

abbrev pub compare_operations : SyncOperationRecord → SyncOperationRecord → Ordering
compare_operations a b = then_with (compare a.physical_ms b.physical_ms) (
    then_with (compare a.logical b.logical)
      (then_with (compare_bytes a.origin b.origin) (compare_bytes a.id b.id)))

unfoldable pub ordered_operations : List SyncOperationRecord → List SyncOperationRecord
ordered_operations records = sort_by compare_operations records

unfoldable pub offer_operation_ids : List SyncOperationRecord → List Bytes
unfolding ordered_operations
offer_operation_ids records = map (λ (r : SyncOperationRecord). r.id) (ordered_operations records)

unfoldable pub missing_operation_ids : List Bytes → List Bytes → Result (List Bytes)
missing_operation_ids local [] = ok []
missing_operation_ids local (id ∷ offer) = do
  guard (length id == 32) (invalid_input "operation id length")
  out ← missing_operation_ids local offer
  ok (if contains local id then out else id ∷ out)

unfoldable pub concat : List Bytes → Bytes
concat [] = []
concat (d ∷ ds) = d ++ concat ds

unfoldable pub dependencies_bytes : List Bytes → Bytes
unfolding concat
dependencies_bytes dependencies = concat (sort_by compare_bytes dependencies)

module _ (o : Outside) where
  unfoldable pub timestamp_bytes : ℕ → ℕ → Bytes → Bytes
  unfolding to_be_bytes
  timestamp_bytes physical_ms logical origin =
      to_be_bytes 8 physical_ms ++ to_be_bytes 4 logical ++ take 8 (o.sha256 origin)

  unfoldable pub operation_id : Bytes → ℕ → ℕ → Bytes → List Bytes → Bytes
  unfolding dependencies_bytes timestamp_bytes
  operation_id origin physical_ms logical operation_bytes dependencies = o.sha256 (
      origin
      ++ timestamp_bytes physical_ms logical origin
      ++ operation_bytes
      ++ dependencies_bytes dependencies)

  unfoldable pub signature_input : Bytes → Bytes → Bytes → Bytes → List Bytes → Bytes
  unfolding dependencies_bytes ascii
  signature_input op_id document_id timestamp operation_bytes dependencies =
      ascii "post-urbit:sync-op:v1:"
      ++ op_id
      ++ document_id
      ++ timestamp
      ++ operation_bytes
      ++ dependencies_bytes dependencies

  unfoldable pub sign_sync_operation :
      Bytes → Bytes → ℕ → ℕ → Bytes → List Bytes → Bytes → Bytes × Bytes
  unfolding operation_id signature_input
  sign_sync_operation document_id origin physical_ms logical operation_bytes dependencies
        signing_key =
      let op_id = operation_id origin physical_ms logical operation_bytes dependencies in
      let timestamp = timestamp_bytes physical_ms logical origin in
      (
        op_id,
        o.ed25519.sign signing_key
            (signature_input op_id document_id timestamp operation_bytes dependencies),
      )

  -- the loop over the keys
  unfoldable pub verify_with : List Bytes → Bytes → Bytes → Result (Unit {0})
  verify_with [] input signature = err (crypto "sync signature invalid")
  verify_with (key_bytes ∷ keys) input signature =
      if length key_bytes == 32
      then (do
        guard (o.ed25519.is_key key_bytes) (invalid_input "signing key parse")
        if o.ed25519.verify_strict key_bytes input signature
            then ok tt
            else verify_with keys input signature)
      else verify_with keys input signature

  unfoldable pub verify_sync_operation : SyncOperationRecord → List Bytes → Result (Unit {0})
  unfolding signature_input timestamp_bytes verify_with
  verify_sync_operation r signing_keys = do
    guard (length r.signature == 64) (invalid_input "signature length")
    verify_with signing_keys
        (signature_input r.id r.document_id (timestamp_bytes r.physical_ms r.logical r.origin)
          r.operation r.dependencies)
        r.signature

  unfoldable pub check_dependencies : List Bytes → SyncStore → Result (Unit {0})
  check_dependencies [] operations = ok tt
  check_dependencies (dep ∷ deps) operations = do
    guard (is_some (Dict.get operations dep)) (invalid_input "dependency missing")
    check_dependencies deps operations

  -- an operation that is refused leaves the store as it was
  unfoldable pub add_operation : SyncOperationRecord → List Bytes → SyncStore → Result SyncStore
  unfolding verify_sync_operation check_dependencies
  add_operation r signing_keys operations = do
    verify_sync_operation r signing_keys
    check_dependencies r.dependencies operations
    ok (Dict.insert operations r.id r)

  abbrev pub has_operation : Bytes → SyncStore → Bool
  has_operation id operations = is_some (Dict.get operations id)

  abbrev pub all_operations : SyncStore → List SyncOperationRecord
  all_operations operations = Dict.values operations

  unfoldable pub offer : Bytes → SyncStore → SyncOffer
  unfolding offer_operation_ids
  offer document_id operations = record {
    document_id = document_id;
    operation_ids = offer_operation_ids (all_operations operations);
  }

  unfoldable pub accept : SyncOffer → SyncStore → Result SyncAccept
  unfolding missing_operation_ids
  accept offered operations = do
    wanted_ids ← missing_operation_ids (Dict.keys operations) offered.operation_ids
    ok (record { document_id = offered.document_id; wanted_ids = wanted_ids })

  unfoldable pub operations_for : List Bytes → SyncStore → Result (List Bytes)
  operations_for [] operations = ok []
  operations_for (id ∷ ids) operations = do
    guard (length id == 32) (invalid_input "operation id length")
    r ← ok_or (Dict.get operations id) (invalid_input "operation not found")
    encoded ← o.encode_record r
    out ← operations_for ids operations
    ok (encoded ∷ out)
