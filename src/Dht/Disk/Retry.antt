-- ===== src/Dht/Disk/Retry.antt =====
-- dht.rs: `FileDht`, a `put` and what a key answers after it, on a disk that fails as well.
use post_urbit.Prelude.{
  Bytes, true, false, ◌<◌, ◌^◌, List, [], ◌∷◌, ◌++◌, ◌≡◌, refl, ap, ◌∙◌, if◌then◌else◌, nat_eq,
  list_eq, ◌==◌, Bool, not, ℕ, ok, err, io, any, any-append, retain-append, map, arith, Bool-cases,
  inl, inr, ==_refl, retain, ◌+◌,
}
use post_urbit.Prelude.Dict
use post_urbit.Dht.Disk.{
  DhtValue, Outcome, carried_out, left_alone, broken, DhtRecord, FileDht, put, get_all, live,
  cached, is_expired, save_to_disk, set_values,
}
use post_urbit.Dht.Disk.Restart.{get_all_answer, live_later}

abbrev holds : Bytes → List DhtValue → Bool
holds value = any (λ v. v.value == value)

save-cache :
    (outcome : Outcome) (key : Bytes) (r : DhtRecord) (s : FileDht)
    → (save_to_disk outcome key r s).1.cache ≡ s.cache
unfolding save_to_disk
save-cache carried_out key r s = refl
save-cache left_alone key r s = refl
save-cache broken key r s = refl

fresh_is_live :
    (value : Bytes) (ttl_secs now : ℕ)
    → now + ttl_secs < 2 ^ 64
    → is_expired (record { value = value; ttl_secs = ttl_secs; created_at = now }) now ≡ false
unfolding is_expired
fresh_is_live value ttl_secs now h = ground arith

-- the values of a key after a put of one more
abbrev added : Bytes → ℕ → ℕ → List DhtValue → List DhtValue
added value ttl_secs now values =
    let new_value : DhtValue = record { value = value; ttl_secs = ttl_secs; created_at = now } in
    if holds value (live now values) then live now values else live now values ++ new_value ∷ []

put-cached :
    (outcome : Outcome) (key value : Bytes) (ttl_secs now : ℕ) (s : FileDht) (j : Bytes)
    → cached (put outcome key value ttl_secs now s).1 j
      ≡ (if key == j then added value ttl_secs now (cached s key) else cached s j)
unfolding put save_to_disk
put-cached outcome key value ttl_secs now s j =
    let new : DhtValue = record { value = value; ttl_secs = ttl_secs; created_at = now } in
    elim (Bool-cases (holds value (live now (cached s key)))) [
      | inl e ↦
          rw (e, put) ground
            (arith, e, Dict.get-insert s.cache key j (record { values = live now (cached s key) }))
      | inr e ↦
          rw (e, put) ground
            (
              arith,
              e,
              save-cache outcome key (record { values = live now (cached s key) ++ new ∷ [] })
                  (set_values key (live now (cached s key) ++ new ∷ []) s),
              Dict.get-insert s.cache key j
                  (record { values = live now (cached s key) ++ new ∷ [] }),
            )
    ]

-- After a put, and whether the disk carried it out or not, a key is answered with its values that
-- have not expired, where the key that was put has the new value behind its others unless it had it.
pub put_answers :
    (outcome : Outcome) (key value : Bytes) (ttl_secs now later : ℕ) (s : FileDht) (j : Bytes)
    → (get_all carried_out j later (put outcome key value ttl_secs now s).1).0
      ≡ ok (
          map
            (λ (v : DhtValue). v.value)
            (live later (if key == j then added value ttl_secs now (cached s key) else cached s j)))
put_answers outcome key value ttl_secs now later s j =
    get_all_answer j later (put outcome key value ttl_secs now s).1
    ∙ ap (λ x. ok (map (λ (v : DhtValue). v.value) (live later x)))
        (put-cached outcome key value ttl_secs now s j)

holds-live :
    (value : Bytes) (ttl_secs now : ℕ) (values : List DhtValue)
    → now + ttl_secs < 2 ^ 64
    → holds value (live now (added value ttl_secs now values)) ≡ true
unfolding is_expired retain live any
holds-live value ttl_secs now values h = elim (Bool-cases (holds value (live now values))) [
  | inl e ↦ rw e ground (arith, live_later now now values (omega arith))
  | inr e ↦
      let new : DhtValue = record { value = value; ttl_secs = ttl_secs; created_at = now } in
      rw e ground (
        arith,
        retain-append (λ (v : DhtValue). not (is_expired v now)) (live now values) (new ∷ []),
        any-append (λ (v : DhtValue). v.value == value) (live now (live now values))
            (live now (new ∷ [])),
        fresh_is_live value ttl_secs now h,
        ==_refl value,
      )
]

put_again :
    (key value : Bytes) (ttl_secs now : ℕ) (s : FileDht)
    → holds value (live now (cached s key)) ≡ true
    → put carried_out key value ttl_secs now s ≡ (ok tt, set_values key (live now (cached s key)) s)
unfolding put
put_again key value ttl_secs now s e = rw (e, put) refl

put_failed :
    (key value : Bytes) (ttl_secs now : ℕ) (s : FileDht)
    → holds value (live now (cached s key)) ≡ false
    → put left_alone key value ttl_secs now s
      ≡ (err io, set_values key (added value ttl_secs now (cached s key)) s)
unfolding put save_to_disk
put_failed key value ttl_secs now s e = rw (e, put) refl

-- A put that the disk does not carry out is an error; the same put again succeeds and writes no file.
pub put_retry_unsaved :
    (key value : Bytes) (ttl_secs now : ℕ) (s : FileDht)
    → now + ttl_secs < 2 ^ 64
    → holds value (live now (cached s key)) ≡ false
    → let failed = put left_alone key value ttl_secs now s in
      let retried = put carried_out key value ttl_secs now failed.1 in
      (failed.0 ≡ err io) × (retried.0 ≡ ok tt) × (retried.1.files ≡ s.files)
put_retry_unsaved key value ttl_secs now s fits new =
    let failed = (put left_alone key value ttl_secs now s).1 in
    let again = put_again key value ttl_secs now failed (
      ap (λ x. holds value (live now x))
        (put-cached left_alone key value ttl_secs now s key ∙ rw (==_refl key) refl)
      ∙ holds-live value ttl_secs now (cached s key) fits) in
    (
      ap (λ x. x.0) (put_failed key value ttl_secs now s new),
      ap (λ x. x.0) again,
      ap (λ x. x.1.files) again ∙ ap (λ x. x.1.files) (put_failed key value ttl_secs now s new),
    )
