-- ===== src/Scheduler/Consistency.antt =====
-- scheduler.rs: how the records and the workers fit together.
pub mod Steps
mod Changed
mod Added
use post_urbit.Prelude.{
  ℕ, Bytes, ◌+◌, ◌≤◌, ◌≡◌, ◌≢◌, refl, Option, none, some, Option-cases, inl, inr, list_eq, nat_eq,
  ◌==◌, arith, is_some, true, false, Bool, Bool-cases, ap, sym, ◌∙◌, ==_refl, if◌then◌else◌,
}
use post_urbit.Prelude.Dict.{Dict, get, insert, get-insert}
use post_urbit.Scheduler.{
  Phase, scheduled, running, completed, cancelled, TaskInfo, TaskRecord, waiting, handling, ended,
  Worker, Scheduler, new, Outcome, note_error, change, set_phase, schedule, run_once, cancel_task,
  start, finish, receive, complete, IsHeld, Step, schedules, runs_once, cancels, starts, finishes,
  receives, completes, Reach, here, next,
}

-- the worker works at the task, at intervals, and has not ended
abbrev pub IsServed : Scheduler → Bytes → ℕ → Type 0
IsServed s name id =
    (w : Worker) × (get s.workers id ≡ some w)
    × (w.task ≡ name)
    × (w.phase ≢ ended)
    × (is_some w.interval_seconds ≡ true)

-- a worker of the task is in its handler
abbrev pub IsAtWork : Scheduler → Bytes → Type 0
IsAtWork s name =
    (id : ℕ) × (w : Worker) × (get s.workers id ≡ some w) × (w.task ≡ name) × (w.phase ≡ handling)

-- The record of a task has its name; every worker has the record of its task; the worker of a channel
-- whose sender is in a record has not ended and works at that record's task; and a task whose
-- status is running has a worker in its handler.
pub record IsConsistent (s : Scheduler) : Type 0 where
  pub fresh : (id : ℕ) → s.next_worker ≤ id → get s.workers id ≡ none
  pub named : (name : Bytes) (r : TaskRecord) → get s.tasks name ≡ some r → r.info.name ≡ name
  pub tasked :
      (id : ℕ) (w : Worker) → get s.workers id ≡ some w → is_some (get s.tasks w.task) ≡ true
  pub held :
      (name : Bytes) (r : TaskRecord) (id : ℕ)
      → get s.tasks name ≡ some r
      → r.cancel ≡ some id
      → IsServed s name id
  pub at_work :
      (name : Bytes) (r : TaskRecord)
      → get s.tasks name ≡ some r
      → r.info.status ≡ running
      → IsAtWork s name

pub new-IsConsistent : IsConsistent new
unfolding get
new-IsConsistent = record {
  fresh = λ id h. refl;
  named = λ name r h. cc;
  tasked = λ id w h. cc;
  held = λ name r id h k. cc;
  at_work = λ name r h k. cc;
}
