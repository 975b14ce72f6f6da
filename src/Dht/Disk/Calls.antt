-- ===== src/Dht/Disk/Calls.antt =====
-- dht.rs: the calls of `FileDht` keep its files in step with its cache.
use post_urbit.Prelude.{
  ℕ, Bytes, Bool, true, false, not, ◌+◌, some, List, [], ◌∷◌, ◌≡◌, refl, sym, ap, ◌∙◌,
  if◌then◌else◌, length, nat_eq, list_eq, ◌==◌, ok, any, and_then, arith, ◌&&◌, Bool-cases,
  Option-cases, inl, inr, list_beq_iff, and_then_keeps,
}
use post_urbit.Prelude.Dict
use post_urbit.Prelude.Dict.{Dict}
use post_urbit.Dht.Disk.{
  DhtValue, DhtRecord, File, carried_out, FileDht, with_time, put, get_all, cleanup_key,
  cleanup_expired, cleanup_loop, live, cached, sync, set_values,
}
use post_urbit.Dht.Disk.Restart.{
  IsSaved, IsWritten, saved, IsSaved-later, live_later, sync-IsWritten, save-IsWritten,
  restart_answers, load_agrees,
}

written-IsSaved :
    (key : Bytes) (values : List DhtValue) (now : ℕ) (s s' : FileDht)
    → IsWritten key values s s'
    → IsSaved now s
    → IsSaved now s'
written-IsSaved key values now s s' w i = record {
  distinct = w.kept i.distinct;
  agree =
      λ j. ap (live now) (w.in_cache j) ∙ sames j (key == j) ∙ ap (live now) (sym (w.in_files j));
}
  where
    sames :
        (j : Bytes) (b : Bool)
        → live now (if b then values else cached s j)
          ≡ live now (if b then values else saved s.files j)
    sames j true = refl
    sames j false = i.agree j

-- only the cache loses expired values
kept-IsSaved :
    (key : Bytes) (values : List DhtValue) (now : ℕ) (s : FileDht)
    → live now values ≡ live now (cached s key)
    → IsSaved now s
    → IsSaved now (set_values key values s)
kept-IsSaved key values now s e i = record {
  distinct = i.distinct;
  agree = λ j. ground (
    arith,
    Dict.get-insert s.cache key j (record { values = values }),
    i.agree j,
    list_beq_iff key j,
  );
}

live-live : (now : ℕ) (vs : List DhtValue) → live now (live now vs) ≡ live now vs
live-live now vs = live_later now now vs (omega arith)

pub put-IsSaved :
    (key value : Bytes) (ttl_secs now : ℕ) (s : FileDht)
    → IsSaved now s
    → IsSaved now (put carried_out key value ttl_secs now s).1
unfolding put
put-IsSaved key value ttl_secs now s i =
    elim (Bool-cases (any (λ (v : DhtValue). v.value == value) (live now (cached s key)))) [
      | inl e ↦ rw (e, put) (kept-IsSaved key _ now s (live-live now (cached s key)) i)
      | inr e ↦ rw (e, put) (written-IsSaved key _ now s _ (save-IsWritten key _ s) i)
    ]

module _ (key : Bytes) (now : ℕ) (s : FileDht) (i : IsSaved now s) where
  expire-IsSaved :
      (r : DhtRecord)
      → Dict.get s.cache key ≡ some r
      → IsSaved now (set_values key (live now r.values) s)
  expire-IsSaved r e =
      kept-IsSaved key _ now s (live-live now r.values ∙ sym (rw (e, cached) refl)) i

  sync-IsSaved {ℓ} :
      {A : Type ℓ} (values : List DhtValue) (a : A)
      → IsSaved now
          (and_then (sync carried_out key values (set_values key values s)) (λ _ s'. (ok a, s'))).1
  sync-IsSaved values a =
      and_then_keeps (IsSaved now) _ (λ _ s'. (ok a, s'))
        (written-IsSaved key values now s _ (sync-IsWritten key values s) i) (λ _ s' h. h)

  pub get_all-IsSaved : IsSaved now (get_all carried_out key now s).1
  unfolding get_all
  get_all-IsSaved = elim (Option-cases (Dict.get s.cache key)) [
    | inl e ↦ rw (e, get_all) i
    | inr (r, e) ↦ elim (Bool-cases (length (live now r.values) == length r.values)) [
      | inl l ↦ rw (e, get_all) (rw l (expire-IsSaved r e))
      | inr l ↦ rw (e, get_all) (rw l (sync-IsSaved (live now r.values) _))
    ]
  ]

  cleanup_key-IsSaved : IsSaved now (cleanup_key carried_out key now s).1
  unfolding cleanup_key
  cleanup_key-IsSaved = elim (Option-cases (Dict.get s.cache key)) [
    | inl e ↦ rw (e, cleanup_key) i
    | inr (r, e) ↦
        elim (Bool-cases (
          length (live now r.values) == length r.values && not (length (live now r.values) == 0))) [
            | inl l ↦ rw (e, cleanup_key) (rw l (expire-IsSaved r e))
            | inr l ↦ rw (e, cleanup_key) (rw l (sync-IsSaved (live now r.values) _))
          ]
  ]

cleanup_loop-IsSaved :
    (keys : List Bytes) (now n : ℕ) (s : FileDht)
    → IsSaved now s
    → IsSaved now (cleanup_loop (λ _. carried_out) keys now n s).1
unfolding cleanup_loop
cleanup_loop-IsSaved [] now n s i = i
cleanup_loop-IsSaved (key ∷ keys) now n s i =
    and_then_keeps (IsSaved now) (cleanup_key carried_out key now s) _
      (cleanup_key-IsSaved key now s i)
      (λ removed s' h. cleanup_loop-IsSaved keys now (n + removed) s' h)

pub data Call : Type 0 where
  put_call : (key value : Bytes) (ttl_secs : ℕ) → Call
  get_call : (key : Bytes) → Call
  cleanup_call : Call

abbrev pub step : ℕ → Call → FileDht → FileDht
step now (put_call key value ttl_secs) s = (put carried_out key value ttl_secs now s).1
step now (get_call key) s = (get_all carried_out key now s).1
step now cleanup_call s = (cleanup_expired (λ _. carried_out) now s).1

step-IsSaved : (now : ℕ) (c : Call) (s : FileDht) → IsSaved now s → IsSaved now (step now c s)
unfolding cleanup_expired
step-IsSaved now (put_call key value ttl_secs) s i = put-IsSaved key value ttl_secs now s i
step-IsSaved now (get_call key) s i = get_all-IsSaved key now s i
step-IsSaved now cleanup_call s i = cleanup_loop-IsSaved _ now 0 s i

-- calls with the seconds that pass before each, from a time on, and the time after them
abbrev pub run : ℕ → List (ℕ × Call) → FileDht → FileDht × ℕ
run now [] s = (s, now)
run now ((wait, c) ∷ calls) s = run (now + wait) calls (step (now + wait) c s)

run-IsSaved :
    (calls : List (ℕ × Call)) (now : ℕ) (s : FileDht)
    → IsSaved now s
    → IsSaved (run now calls s).1 (run now calls s).0
run-IsSaved [] now s i = i
run-IsSaved ((wait, c) ∷ calls) now s i =
    run-IsSaved calls (now + wait) _
      (step-IsSaved (now + wait) c s (IsSaved-later now (now + wait) s (omega arith) i))

with_time-IsSaved :
    (now : ℕ) (files : Dict Bytes File) → Dict.IsDistinct files → IsSaved now (with_time now files)
unfolding with_time
with_time-IsSaved now files d = record {
  distinct = d;
  agree = λ key. ap (live now) (load_agrees now files key d) ∙ live-live now (saved files key);
}

-- A table opened on the files of a directory answers every key in the same way as the table that is
-- opened again on its files, after any calls of put, get_all and cleanup_expired whose file
-- operations are carried out, as long as the clock does not go back.
pub restart_unnoticed :
    (files : Dict Bytes File) (start wait : ℕ) (calls : List (ℕ × Call)) (key : Bytes)
    → Dict.IsDistinct files
    → let before = run start calls (with_time start files) in
      let later = before.1 + wait in
      (get_all carried_out key later (with_time later before.0.files)).0
      ≡ (get_all carried_out key later before.0).0
restart_unnoticed files start wait calls key d =
    restart_answers _ _ _ key
      (run-IsSaved calls start (with_time start files) (with_time-IsSaved start files d))
      (omega arith)
