-- ===== src/Tests/Dht.antt =====
-- Tables with one key.
use post_urbit.Prelude.{
  ℕ, Bytes, ◌+◌, ◌<◌, ◌^◌, List, [], ◌∷◌, ◌++◌, ◌≡◌, refl, ok, err, io, none, some, arith, map,
  true, false, any, all, if◌then◌else◌, ◌==◌, ◌&&◌, not, nat_eq, list_eq, retain, Result,
}
use post_urbit.Prelude.Dict
use post_urbit.Prelude.Dict.{Dict}
use post_urbit.Dht.Disk.{
  DhtValue, File, FileDht, carried_out, left_alone, broken, live, cached, readable, with_time,
}
use post_urbit.Dht.Disk as Disk
use post_urbit.Dht.Disk.Calls.{restart_unnoticed, run, put_call, get_call, cleanup_call, Call}
use post_urbit.Dht.Disk.Retry.{put_answers, put_retry_unsaved}
use post_urbit.Dht.Memory.{StoredValue, MemoryDht, is_stored, or_empty}
use post_urbit.Dht.Memory as Memory
use post_urbit.Dht.Memory.Expiry.{memory_put_answers, put_expired_lost}

abbrev files : Dict Bytes File
files =
    (
      1 ∷ [],
      readable
          (record { values = record { value = 5 ∷ []; ttl_secs = 10; created_at = 100 } ∷ [] }),
    )
    ∷ []

abbrev calls : List (ℕ × Call)
calls = (0, put_call (1 ∷ []) (6 ∷ []) 0) ∷ (20, get_call (1 ∷ [])) ∷ (1, cleanup_call) ∷ []

restart_unnoticed_example :
    (Disk.get_all carried_out
      (1 ∷ [])
      126
      (with_time 126 (run 105 calls (with_time 105 files)).0.files)).0
    ≡ (Disk.get_all carried_out (1 ∷ []) 126 (run 105 calls (with_time 105 files)).0).0
unfolding Dict.get
restart_unnoticed_example = restart_unnoticed files 105 0 calls (1 ∷ []) (refl, tt)

abbrev empty : FileDht
empty = record { cache = []; files = [] }

put_answers_example :
    (Disk.get_all carried_out (1 ∷ []) 101 (Disk.put broken (1 ∷ []) (5 ∷ []) 10 100 empty).1).0
    ≡ ok ((5 ∷ []) ∷ [])
unfolding live retain post_urbit.Prelude.list_beq any Dict.get
put_answers_example = put_answers broken (1 ∷ []) (5 ∷ []) 10 100 101 empty (1 ∷ [])

put_retry_unsaved_example :
    ((Disk.put left_alone (1 ∷ []) (5 ∷ []) 10 100 empty).0 ≡ err io)
    × ((Disk.put carried_out
          (1 ∷ [])
          (5 ∷ [])
          10
          100
          (Disk.put left_alone (1 ∷ []) (5 ∷ []) 10 100 empty).1).0
        ≡ ok tt)
    × ((Disk.put carried_out
          (1 ∷ [])
          (5 ∷ [])
          10
          100
          (Disk.put left_alone (1 ∷ []) (5 ∷ []) 10 100 empty).1).1.files
        ≡ [])
unfolding any live retain Dict.get
put_retry_unsaved_example = put_retry_unsaved (1 ∷ []) (5 ∷ []) 10 100 empty (omega arith) refl

abbrev table : MemoryDht
table = (1 ∷ [], record { value = 5 ∷ []; expires_at = some 110 } ∷ []) ∷ []

memory_put_answers_example :
    (Memory.get_all (1 ∷ []) 120 (Memory.put (1 ∷ []) (6 ∷ []) 10 115 table)).0 ≡ (6 ∷ []) ∷ []
unfolding retain post_urbit.Prelude.list_beq any Dict.get
memory_put_answers_example = memory_put_answers (1 ∷ []) (6 ∷ []) 10 115 120 table (1 ∷ [])

put_expired_lost_example :
    any
      (λ (v : Bytes). v == 5 ∷ [])
      (Memory.get_all (1 ∷ []) 115 (Memory.put (1 ∷ []) (5 ∷ []) 10 115 table)).0
    ≡ false
unfolding any Dict.get post_urbit.Prelude.list_beq all
put_expired_lost_example = put_expired_lost (1 ∷ []) (5 ∷ []) 10 115 table refl refl
