-- ===== src/Dht.antt =====
-- dht.rs: the keys of the distributed hash table. Memory models `MemoryDht`, Disk `FileDht`.
pub mod Memory
pub mod Disk
use post_urbit.Prelude.{
  ℕ, Bytes, Bool, true, false, not, ◌&&◌, ◌+◌, ◌-◌, Option, none, some, List, [], ◌∷◌, ◌++◌, ltb,
  if◌then◌else◌, length, nat_eq, list_eq, ◌==◌, Result, ok, err, guard, io, invalid_input, u64,
  retain, any, map, and_then, is_some, ascii,
}
use post_urbit.Prelude.Dict
use post_urbit.Prelude.Dict.{Dict}

module _ (sha256 : Bytes → Bytes) where
  abbrev pub dht_key_with_prefix : Bytes → Bytes → Bytes
  dht_key_with_prefix prefix iid = sha256 (prefix ++ iid)

  unfoldable pub dht_key_identity : Bytes → Bytes
  unfolding ascii
  dht_key_identity iid = dht_key_with_prefix (ascii "post-urbit:identity:") iid

  unfoldable pub dht_key_genesis : Bytes → Bytes
  unfolding ascii
  dht_key_genesis iid = dht_key_with_prefix (ascii "post-urbit:genesis:") iid

  unfoldable pub dht_key_devices : Bytes → Bytes
  unfolding ascii
  dht_key_devices iid = dht_key_with_prefix (ascii "post-urbit:devices-for:") iid

  unfoldable pub dht_key_device : Bytes → Bytes
  unfolding ascii
  dht_key_device did = dht_key_with_prefix (ascii "post-urbit:device:") did

  unfoldable pub dht_key_revocation : Bytes → Bytes
  unfolding ascii
  dht_key_revocation iid = dht_key_with_prefix (ascii "post-urbit:revocation:") iid

  unfoldable pub dht_key_device_revocation : Bytes → Bytes
  unfolding ascii
  dht_key_device_revocation did = dht_key_with_prefix (ascii "post-urbit:device-revocation:") did

unfoldable pub validate_dht_key : Bytes → Result (Unit {0})
validate_dht_key key = guard (length key == 32) (invalid_input "dht key length")
