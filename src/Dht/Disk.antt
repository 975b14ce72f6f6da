-- ===== src/Dht/Disk.antt =====
-- dht.rs: `FileDht`. The seconds of a time are `u64` and their sum wraps around.
-- The file of a key holds the JSON text of a record; it is modelled as the record, which `serde_json`
-- and `base64` read back, or as unreadable. Whether the operating system carries out a call on a
-- file is an `Outcome`. The locks on a file, and its name (`key_to_path`), are not modelled,
-- and the directory is taken to exist and to be listed without an error.
pub mod Restart
pub mod Calls
pub mod Retry
use post_urbit.Prelude.{
  ℕ, Bytes, Bool, true, false, not, ◌&&◌, ◌+◌, ◌-◌, Option, none, some, List, [], ◌∷◌, ◌++◌, ltb,
  if◌then◌else◌, length, nat_eq, list_eq, ◌==◌, Result, ok, err, guard, io, invalid_input, u64,
  retain, any, map, and_then, is_some, ascii,
}
use post_urbit.Prelude.Dict
use post_urbit.Prelude.Dict.{Dict}

pub record DhtValue : Type 0 where
  pub value : Bytes
  pub ttl_secs : ℕ
  pub created_at : ℕ

unfoldable pub is_expired : DhtValue → ℕ → Bool
is_expired v now_unix =
    if v.ttl_secs == 0 then false else ltb (u64 (v.created_at + v.ttl_secs)) now_unix

-- `record.values.retain(|v| !v.is_expired(now_unix))`
unfoldable pub live : ℕ → List DhtValue → List DhtValue
unfolding is_expired
live now = retain (λ v. not (is_expired v now))

pub record DhtRecord : Type 0 where
  pub values : List DhtValue

pub data File : Type 0 where
  readable : DhtRecord → File
  unreadable : File

-- A call on a file is carried out, or it fails and leaves the file as it was or broken.
pub data Outcome : Type 0 where
  carried_out left_alone broken : Outcome

pub record FileDht : Type 0 where
  pub cache : Dict Bytes DhtRecord
  pub files : Dict Bytes File

-- one turn of the loop over the directory
unfoldable pub load_entry : ℕ → Bytes → File → Dict Bytes DhtRecord → Dict Bytes DhtRecord
load_entry now_unix key unreadable cache = cache
load_entry now_unix key (readable record_) cache = elim (live now_unix record_.values) [
  | [] ↦ cache
  | v ∷ vs ↦ Dict.insert cache key (record { values = v ∷ vs })
]

unfoldable pub load_from_disk_sync : ℕ → Dict Bytes File → Dict Bytes DhtRecord
unfolding load_entry
load_from_disk_sync now_unix [] = []
load_from_disk_sync now_unix ((key, file) ∷ files) =
    load_entry now_unix key file (load_from_disk_sync now_unix files)

unfoldable pub with_time : ℕ → Dict Bytes File → FileDht
unfolding load_from_disk_sync
with_time now_unix files = record { cache = load_from_disk_sync now_unix files; files = files }

unfoldable pub save_to_disk : Outcome → Bytes → DhtRecord → FileDht → Result (Unit {0}) × FileDht
save_to_disk carried_out key r s =
    (ok tt, record s { files = Dict.insert s.files key (readable r) })
save_to_disk left_alone key r s = (err io, s)
save_to_disk broken key r s = (err io, record s { files = Dict.insert s.files key unreadable })

remove_file : Outcome → Bytes → FileDht → Result (Unit {0}) × FileDht
remove_file carried_out key s = (ok tt, record s { files = Dict.remove s.files key })
remove_file left_alone key s = (err io, s)
remove_file broken key s = (err io, s)

unfoldable pub delete_from_disk : Outcome → Bytes → FileDht → Result (Unit {0}) × FileDht
unfolding remove_file
delete_from_disk outcome key s =
    if is_some (Dict.get s.files key) then remove_file outcome key s else (ok tt, s)

-- `record.values` of the mutable reference into the cache
abbrev pub set_values : Bytes → List DhtValue → FileDht → FileDht
set_values key values s = record s { cache = Dict.insert s.cache key (record { values = values }) }

abbrev pub uncache : Bytes → FileDht → FileDht
uncache key s = record s { cache = Dict.remove s.cache key }

abbrev pub cached : FileDht → Bytes → List DhtValue
cached s key = elim (Dict.get s.cache key) [ none ↦ [] | some r ↦ r.values ]

unfoldable pub put : Outcome → Bytes → Bytes → ℕ → ℕ → FileDht → Result (Unit {0}) × FileDht
unfolding save_to_disk
put outcome key value ttl_secs now_unix s =
    let kept = live now_unix (cached s key) in
    let new_value : DhtValue = record {
      value = value;
      ttl_secs = ttl_secs;
      created_at = now_unix;
    } in
    let values = kept ++ new_value ∷ [] in
    if any (λ v. v.value == value) kept
    then (ok tt, set_values key kept s)
    else save_to_disk outcome key (record { values = values }) (set_values key values s)

-- the file after values have expired
pub sync : Outcome → Bytes → List DhtValue → FileDht → Result (Unit {0}) × FileDht
unfolding save_to_disk delete_from_disk
sync outcome key [] s = delete_from_disk outcome key (uncache key s)
sync outcome key (v ∷ vs) s = save_to_disk outcome key (record { values = v ∷ vs }) s

unfoldable pub get_all : Outcome → Bytes → ℕ → FileDht → Result (List Bytes) × FileDht
unfolding sync
get_all outcome key now_unix s = elim (Dict.get s.cache key) [
  | none ↦ (ok [], s)
  | some r ↦
      let kept = live now_unix r.values in
      if length kept == length r.values
      then (ok (map (λ v. v.value) kept), set_values key kept s)
      else and_then (sync outcome key kept (set_values key kept s))
          (λ _ s'. (ok (map (λ v. v.value) kept), s'))
]

-- one turn of the loop of `cleanup_expired`, with the number of values it removes
unfoldable pub cleanup_key : Outcome → Bytes → ℕ → FileDht → Result ℕ × FileDht
unfolding sync save_to_disk delete_from_disk
cleanup_key outcome key now_unix s = elim (Dict.get s.cache key) [
  | none ↦ (ok 0, s)
  | some r ↦
      let kept = live now_unix r.values in
      let removed = length r.values - length kept in
      if length kept == length r.values && not (length kept == 0)
      then (ok removed, set_values key kept s)
      else and_then (sync outcome key kept (set_values key kept s)) (λ _ s'. (ok removed, s'))
]

unfoldable pub cleanup_loop : (Bytes → Outcome) → List Bytes → ℕ → ℕ → FileDht → Result ℕ × FileDht
unfolding cleanup_key
cleanup_loop outcome [] now_unix removed_count s = (ok removed_count, s)
cleanup_loop outcome (key ∷ keys) now_unix removed_count s =
    and_then (cleanup_key (outcome key) key now_unix s)
      (λ n s'. cleanup_loop outcome keys now_unix (removed_count + n) s')

unfoldable pub cleanup_expired : (Bytes → Outcome) → ℕ → FileDht → Result ℕ × FileDht
unfolding cleanup_loop
cleanup_expired outcome now_unix s = cleanup_loop outcome (Dict.keys s.cache) now_unix 0 s
