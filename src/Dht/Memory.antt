-- ===== src/Dht/Memory.antt =====
-- dht.rs: `MemoryDht`. `SystemTime` and `Duration` count nanoseconds, without a bound.
pub mod Expiry
use post_urbit.Prelude.{
  ℕ, Bytes, Bool, true, false, not, ◌&&◌, ◌+◌, ◌-◌, Option, none, some, List, [], ◌∷◌, ◌++◌, ltb,
  if◌then◌else◌, length, nat_eq, list_eq, ◌==◌, Result, ok, err, guard, io, invalid_input, u64,
  retain, any, map, and_then, is_some, ascii,
}
use post_urbit.Prelude.Dict
use post_urbit.Prelude.Dict.{Dict}

pub record StoredValue : Type 0 where
  pub value : Bytes
  pub expires_at : Option ℕ

abbrev pub MemoryDht : Type 0
MemoryDht = Dict Bytes (List StoredValue)

abbrev pub or_empty {ℓ} : {A : Type ℓ} → Option (List A) → List A
or_empty none = []
or_empty (some vs) = vs

-- the `retain` of `get_all`
abbrev pub is_stored : ℕ → StoredValue → Bool
is_stored now stored = elim stored.expires_at [ none ↦ true | some t ↦ ltb now t ]

unfoldable pub put : Bytes → Bytes → ℕ → ℕ → MemoryDht → MemoryDht
put key value ttl now s =
    let entry = or_empty (Dict.get s key) in
    let expires_at = if ttl == 0 then none else some (now + ttl) in
    let pushed = entry ++ record { value = value; expires_at = expires_at } ∷ [] in
    Dict.insert s key (if any (λ stored. stored.value == value) entry then entry else pushed)

unfoldable pub get_all : Bytes → ℕ → MemoryDht → List Bytes × MemoryDht
get_all key now s = elim (Dict.get s key) [
  | none ↦ ([], s)
  | some values ↦
      let kept = retain (is_stored now) values in
      (map (λ stored. stored.value) kept, Dict.insert s key kept)
]
