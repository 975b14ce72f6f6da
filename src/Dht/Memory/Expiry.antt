-- ===== src/Dht/Memory/Expiry.antt =====
-- dht.rs: `MemoryDht`, what a key answers after a put.
use post_urbit.Prelude.{
  ℕ, Bytes, Bool, true, false, List, [], ◌∷◌, ◌++◌, ◌≡◌, refl, ap, ◌∙◌, if◌then◌else◌, nat_eq,
  list_eq, ◌==◌, ◌&&◌, not, any, all, map, arith, ==_refl, retain, ◌+◌, none, some,
}
use post_urbit.Prelude.Dict
use post_urbit.Dht.Memory.{StoredValue, MemoryDht, or_empty, is_stored, put, get_all}

abbrev values_of : List StoredValue → List Bytes
values_of = map (λ stored. stored.value)

abbrev stored_as : Bytes → StoredValue → Bool
stored_as value stored = stored.value == value

get_all_answer :
    (key : Bytes) (now : ℕ) (s : MemoryDht)
    → (get_all key now s).0 ≡ values_of (retain (is_stored now) (or_empty (Dict.get s key)))
unfolding get_all retain
get_all_answer key now s = ground arith

-- the values of a key after a put of one more
abbrev added : Bytes → ℕ → ℕ → List StoredValue → List StoredValue
added value ttl now entry =
    let new : StoredValue = record {
      value = value;
      expires_at = if ttl == 0 then none else some (now + ttl);
    } in
    if any (stored_as value) entry then entry else entry ++ new ∷ []

-- After a put, a key is answered with its values that have not expired, where the key that was put
-- has the new value behind the others unless it is stored already, be it expired.
pub memory_put_answers :
    (key value : Bytes) (ttl now later : ℕ) (s : MemoryDht) (j : Bytes)
    → (get_all j later (put key value ttl now s)).0
      ≡ values_of (
          retain (is_stored later) (
            if key == j
            then added value ttl now (or_empty (Dict.get s key))
            else or_empty (Dict.get s j)))
unfolding put
memory_put_answers key value ttl now later s j =
    get_all_answer j later (put key value ttl now s)
    ∙ ap (λ x. values_of (retain (is_stored later) x))
        (ground (arith, Dict.get-insert s key j (added value ttl now (or_empty (Dict.get s key)))))

absent :
    (value : Bytes) (now : ℕ) (vs : List StoredValue)
    → all (λ stored. not (stored_as value stored && is_stored now stored)) vs ≡ true
    → any (λ (v : Bytes). v == value) (values_of (retain (is_stored now) vs)) ≡ false
unfolding all any retain
absent value now [] h = refl
absent value now (v ∷ vs) h = ground (arith, absent value now vs)

-- When all that is stored of a value under a key has expired, and is still there, a put of the value
-- is lost: reading the key right after it does not answer with the value.
pub put_expired_lost :
    (key value : Bytes) (ttl now : ℕ) (s : MemoryDht)
    → any (stored_as value) (or_empty (Dict.get s key)) ≡ true
    → all
        (λ stored. not (stored_as value stored && is_stored now stored))
        (or_empty (Dict.get s key))
      ≡ true
    → any (λ (v : Bytes). v == value) (get_all key now (put key value ttl now s)).0 ≡ false
put_expired_lost key value ttl now s there expired =
    ap (any (λ (v : Bytes). v == value))
      (memory_put_answers key value ttl now now s key ∙ rw (==_refl key) (rw there refl))
    ∙ absent value now (or_empty (Dict.get s key)) expired
