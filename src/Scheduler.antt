-- ===== src/Scheduler.antt =====
-- scheduler.rs: named tasks that run once or at intervals, each in a worker of its own.
-- What one task does while it holds the lock is one operation; the workers' operations come in any
-- order (`Step`). A channel is the number of its worker. Its sender stands in a record, and the
-- receiver resolves when no record holds it: it was sent on, or dropped with the record. Instants
-- are nanoseconds and `rfc3339` writes one. An interval of 0, at which tokio panics, is not modelled.
pub mod Consistency
pub mod Cancelling
pub mod Rescheduling
use post_urbit.Prelude.{
  ℕ, Bytes, ◌+◌, ◌*◌, ◌/◌, ◌<◌, ◌≡◌, ◌≢◌, Option, none, some, [], List, map, u32, list_eq, nat_eq,
  Result, Bool, true, false, String,
}
use post_urbit.Prelude.Dict.{Dict, get, insert, values}

pub data Status : Type 0 where
  scheduled : Status
  running : Status
  completed : Status
  cancelled : Status

pub record TaskInfo : Type 0 where
  pub name : Bytes
  pub interval_seconds : Option ℕ
  pub last_run : Option Bytes
  pub next_run : Option Bytes
  pub status : Status
  pub error_count : ℕ
  pub last_error : Option Bytes

pub record TaskRecord : Type 0 where
  pub info : TaskInfo
  pub cancel : Option ℕ

-- A spawned task between two of its operations: in `select!`, in the handler, or ended. The worker
-- of `run_once` has no interval.
pub data Phase : Type 0 where
  waiting : Phase
  handling : Phase
  ended : Phase

pub record Worker : Type 0 where
  pub task : Bytes
  pub interval_seconds : Option ℕ
  pub phase : Phase

pub record Scheduler : Type 0 where
  pub tasks : Dict Bytes TaskRecord
  pub workers : Dict ℕ Worker
  pub next_worker : ℕ

abbrev pub new : Scheduler
new = record { tasks = []; workers = []; next_worker = 0 }

abbrev new_info : Bytes → Option ℕ → Option Bytes → TaskInfo
new_info name interval_seconds next_run = record {
  name = name;
  interval_seconds = interval_seconds;
  last_run = none;
  next_run = next_run;
  status = scheduled;
  error_count = 0;
  last_error = none;
}

-- the outcome of a handler
abbrev pub Outcome : Type 0
Outcome = Option Bytes

-- `if let Err(err) = result`
unfoldable pub note_error : Outcome → TaskInfo → TaskInfo
note_error none info = info
note_error (some e) info = record info {
  error_count = u32 (info.error_count + 1);
  last_error = some e;
}

-- `locked.get_mut(name)` and the changes to the record, if there is one
unfoldable pub change :
    Dict Bytes TaskRecord → Bytes → (TaskInfo → TaskInfo) → Dict Bytes TaskRecord
change tasks name f = elim (get tasks name) [
  | none ↦ tasks
  | some r ↦ insert tasks name (record r { info = f r.info })
]

abbrev pub set_phase : Scheduler → ℕ → Worker → Phase → Scheduler
set_phase s id w p = record s { workers = insert s.workers id (record w { phase = p }) }

unfoldable pub run_once : Scheduler → Bytes → Scheduler
run_once s name = record {
  tasks = insert s.tasks name (record { info = new_info name none none; cancel = none });
  workers =
      insert s.workers s.next_worker
        (record { task = name; interval_seconds = none; phase = handling });
  next_worker = s.next_worker + 1;
}

unfoldable pub cancel_task : Scheduler → Bytes → Scheduler
cancel_task s name = elim (get s.tasks name) [
  | none ↦ s
  | some r ↦ record s { tasks = insert s.tasks name (record r { cancel = none }) }
]

-- `ticker.tick()`, up to the handler
unfoldable pub start : Scheduler → ℕ → Worker → Scheduler
unfolding change
start s id w = elim (get s.tasks w.task) [
  | none ↦ set_phase s id w ended
  | some r ↦
      set_phase
        (record s {
          tasks = change s.tasks w.task (λ (i : TaskInfo). record i { status = running });
        })
        id w handling
]

-- `&mut rx`
unfoldable pub receive : Scheduler → ℕ → Worker → Scheduler
unfolding change
receive s id w =
    set_phase
      (record s {
        tasks = change s.tasks w.task (λ (i : TaskInfo). record i { status = cancelled });
      })
      id w ended

unfoldable pub list_tasks : Scheduler → List TaskInfo
list_tasks s = map (λ (r : TaskRecord). r.info) (values s.tasks)

-- the sender of the worker's channel is in a record
abbrev pub IsHeld : Scheduler → ℕ → Type 0
IsHeld s id = (name : Bytes) × (r : TaskRecord) × (get s.tasks name ≡ some r) × (r.cancel ≡ some id)

module _ (rfc3339 : ℕ → Bytes) where
  abbrev pub after_seconds : ℕ → ℕ → Bytes
  after_seconds now seconds = rfc3339 (now + seconds * 1000000000)

  unfoldable pub schedule : Scheduler → Bytes → ℕ → ℕ → Scheduler
  schedule s name interval now =
      let seconds = interval / 1000000000 in
      record {
        tasks = insert s.tasks name (record {
          info = new_info name (some seconds) (some (after_seconds now seconds));
          cancel = some s.next_worker;
        });
        workers =
            insert s.workers s.next_worker
              (record { task = name; interval_seconds = some seconds; phase = waiting });
        next_worker = s.next_worker + 1;
      }

  -- `ticker.tick()`, behind the handler
  unfoldable pub finish : Scheduler → ℕ → Worker → ℕ → Outcome → ℕ → ℕ → Scheduler
  unfolding change note_error
  finish s id w seconds result last upcoming = elim (get s.tasks w.task) [
    | none ↦ set_phase s id w ended
    | some r ↦
        set_phase
          (record s {
            tasks = change s.tasks w.task (λ (i : TaskInfo). note_error result (record i {
              last_run = some (rfc3339 last);
              next_run = some (after_seconds upcoming seconds);
              status = scheduled;
            }));
          })
          id w waiting
  ]

  -- the end of the worker of `run_once`
  unfoldable pub complete : Scheduler → ℕ → Worker → Outcome → ℕ → Scheduler
  unfolding change note_error
  complete s id w result last =
      set_phase
        (record s {
          tasks = change s.tasks w.task (λ (i : TaskInfo).
              note_error result (record i { last_run = some (rfc3339 last); status = completed }));
        })
        id w ended

  pub data Step (s : Scheduler) : Scheduler → Type 0 where
    schedules :
        (name : Bytes) (interval now : ℕ) → 0 < interval → Step s (schedule s name interval now)
    runs_once : (name : Bytes) → Step s (run_once s name)
    cancels : (name : Bytes) → Step s (cancel_task s name)
    starts :
        (id : ℕ) (w : Worker)
        → get s.workers id ≡ some w
        → w.phase ≡ waiting
        → Step s (start s id w)
    finishes :
        (id : ℕ) (w : Worker) (seconds : ℕ) (result : Outcome) (last upcoming : ℕ)
        → get s.workers id ≡ some w
        → w.phase ≡ handling
        → w.interval_seconds ≡ some seconds
        → Step s (finish s id w seconds result last upcoming)
    receives :
        (id : ℕ) (w : Worker)
        → get s.workers id ≡ some w
        → w.phase ≡ waiting
        → ¬ IsHeld s id
        → Step s (receive s id w)
    completes :
        (id : ℕ) (w : Worker) (result : Outcome) (last : ℕ)
        → get s.workers id ≡ some w
        → w.phase ≡ handling
        → w.interval_seconds ≡ none
        → Step s (complete s id w result last)

  pub data Reach (s : Scheduler) : Scheduler → Type 0 where
    here : Reach s s
    next : {t u : Scheduler} → Reach s t → Step t u → Reach s u
