-- ===== src/CanonicalJson.antt =====
-- canonical_json.rs: JSON values with sorted keys. `Value` of serde_json is written out, with texts as
-- bytes; a map is the list of its entries in the order in which it is traversed. The text of a
-- value is the parameter `to_string`.
use post_urbit.Prelude.{
  ℕ, suc, Bytes, Bool, Option, none, some, Result, ok_or, ◌>>=◌, invalid_input, ◌==◌, nat_eq,
  list_eq, if◌then◌else◌, is_gt, compare_bytes,
}

-- an integer, or the text of another number
pub data Number : Type 0 where
  unsigned : ℕ → Number
  negative : ℕ → Number
  float : Bytes → Number

mutual
  pub data Json : Type 0 where
    null : Json
    boolean : Bool → Json
    number : Number → Json
    string : Bytes → Json
    array : JsonArray → Json
    object : JsonMap → Json

  pub data JsonArray : Type 0 where
    nil : JsonArray
    item : Json → JsonArray → JsonArray

  pub data JsonMap : Type 0 where
    empty : JsonMap
    entry : Bytes → Json → JsonMap → JsonMap

-- where the sort puts an entry: behind the entries of smaller keys
unfoldable pub insert_sorted : Bytes → Json → JsonMap → JsonMap
insert_sorted key val empty = entry key val empty
insert_sorted key val (entry k v map) =
    let rest = insert_sorted key val map in
    if is_gt (compare_bytes key k) then entry k v rest else entry key val (entry k v map)

unfoldable mutual
  pub normalize_value : Json → Json
  normalize_value null = null
  normalize_value (boolean b) = boolean b
  normalize_value (number n) = number n
  normalize_value (string s) = string s
  normalize_value (array values) = array (normalize_array values)
  normalize_value (object map) = object (normalize_map map)

  pub normalize_array : JsonArray → JsonArray
  normalize_array nil = nil
  normalize_array (item value values) = item (normalize_value value) (normalize_array values)

  pub normalize_map : JsonMap → JsonMap
  normalize_map empty = empty
  normalize_map (entry key val map) = insert_sorted key (normalize_value val) (normalize_map map)

unfoldable pub canonical_json_value : (Json → Option Bytes) → Json → Result Bytes
unfolding normalize_value
canonical_json_value to_string value =
    ok_or (to_string (normalize_value value)) (invalid_input "serialize canonical json")

-- `Map::get`, `Map::remove`, and what the code asks of values
unfoldable pub get_entry : Bytes → JsonMap → Option Json
get_entry key empty = none
get_entry key (entry k v map) = if k == key then some v else get_entry key map

unfoldable pub remove_entry : Bytes → JsonMap → JsonMap
remove_entry key empty = empty
remove_entry key (entry k v map) =
    let rest = remove_entry key map in if k == key then rest else entry k v rest

-- `if let Value::Object(map) = value { map.remove(key); }`
unfoldable pub without : Bytes → Json → Json
unfolding remove_entry
without key (object map) = object (remove_entry key map)
without key value = value

-- `Value::get` with a key
unfoldable pub get : Bytes → Json → Option Json
unfolding get_entry
get key (object map) = get_entry key map
get key value = none

abbrev pub as_array : Json → Option JsonArray
as_array (array values) = some values
as_array value = none

abbrev pub as_u64 : Json → Option ℕ
as_u64 (number (unsigned n)) = some n
as_u64 value = none

abbrev pub as_str : Json → Option Bytes
as_str (string s) = some s
as_str value = none

abbrev pub array_length : JsonArray → ℕ
array_length nil = 0
array_length (item value values) = suc (array_length values)

-- of a value that serde turns into `serialized`
unfoldable pub canonical_json_from : (Json → Option Bytes) → Option Json → Result Bytes
canonical_json_from to_string serialized =
    ok_or serialized (invalid_input "serialize to json") >>= canonical_json_value to_string
