-- ===== src/Group.antt =====
-- group.rs: sender keys of a group, and the state of its membership with versioned updates.
-- A text is its bytes. The parser of timestamps (crate chrono) and SHA-256 are parameters; random
-- bytes are arguments. A time is in nanoseconds.
pub mod State
use post_urbit.Prelude.{
  ℕ, ◌+◌, ◌-◌, ◌*◌, ◌/◌, ◌<◌, ◌^◌, Bytes, Bool, true, false, not, ◌&&◌, ◌||◌, Option, none, some,
  List, [], ◌∷◌, ◌++◌, ◌≡◌, ltb, leb, if◌then◌else◌, length, take, contains, nat_eq, list_eq, ◌==◌,
  Result, ok, err, ◌>>=◌, ◌>>◌, ok_or, guard, invalid_input, compare, compare_bytes, then_with,
  is_gt, Ordering, u64, ascii, starts_with, ends_with_byte, split, parse_u64,
}
use post_urbit.Prelude.Dict
use post_urbit.Prelude.Dict.{Dict}
use post_urbit.Encoding.{crockford_base32_encode, validate_crockford_base32_lower}
use post_urbit.Ratchet.{Key, Crypto, kdf_sender_key}

pub record SenderKey : Type 0 where
  pub key_id : Bytes
  pub sender_iid : Bytes
  pub chain_key : Key
  pub created_at : Bytes
  pub iteration : ℕ

-- the chain moves before the counter is checked
unfoldable pub advance : Crypto → Bytes → SenderKey → Result Key × SenderKey
advance c group_id key =
    let (new_chain, message_key) =
      kdf_sender_key c key.chain_key group_id key.sender_iid key.key_id in
    let key' = record key { chain_key = new_chain } in
    if ltb (key.iteration + 1) (2 ^ 32)
    then (ok message_key, record key' { iteration = key.iteration + 1 })
    else (err (invalid_input "iteration overflow"), key')

-- crates chrono and sha2
pub record Outside : Type 0 where
  pub parse_time : Bytes → Option ℕ
  pub sha256 : Bytes → Bytes

module _ (o : Outside) where
  unfoldable pub validate_timestamp : Bytes → Result (Unit {0})
  validate_timestamp value =
      if contains value b'.'
      then err (invalid_input "timestamp fractional")
      else if not (length value == 20) || not (ends_with_byte value b'Z')
      then err (invalid_input "timestamp format")
      else do parsed ← ok_or (o.parse_time value) (invalid_input "timestamp parse"); ok tt

  unfoldable pub generate_sender_key : Bytes → Bytes → Bytes → Key → Result SenderKey
  unfolding validate_timestamp
  generate_sender_key sender_iid created_at key_id chain_key = do
    validate_timestamp created_at
    ok (record {
      key_id = key_id;
      sender_iid = sender_iid;
      chain_key = chain_key;
      created_at = created_at;
      iteration = 0;
    })

  abbrev nanos_per_day : ℕ
  nanos_per_day = 86_400_000_000_000

  -- `num_days` of a negative duration is not positive, where `-` stops at 0
  unfoldable pub should_rotate_sender_key : SenderKey → ℕ → Result Bool
  should_rotate_sender_key key now = do
    created_at ← ok_or (o.parse_time key.created_at) (invalid_input "timestamp parse")
    ok (leb 100 key.iteration || leb 7 ((now - created_at) / nanos_per_day))

  unfoldable pub derive_group_id : Bytes → Bytes → Bytes → Result Bytes
  unfolding validate_timestamp
  derive_group_id creator_iid_raw random created_at = do
    validate_timestamp created_at
    ok (crockford_base32_encode (take 20 (o.sha256 (creator_iid_raw ++ (random ++ created_at)))))
