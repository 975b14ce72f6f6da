-- ===== src/Tests/Scheduler.antt =====
-- A scheduler with one task.
use post_urbit.Prelude.{
  list_eq, nat_eq, ℕ, Bytes, ◌<◌, [], ◌∷◌, ◌≡◌, refl, some, none, arith, ascii,
}
use post_urbit.Prelude.Dict.{get}
use post_urbit.Scheduler.{
  Scheduler, TaskRecord, Worker, scheduled, waiting, new, schedule, cancel_task, receive, schedules,
  Reach, here, next, Step,
}
use post_urbit.Scheduler.Consistency.{IsConsistent}
use post_urbit.Scheduler.Consistency.Steps.{Reach-IsConsistent}
use post_urbit.Scheduler.Rescheduling.{schedule-receive}
use post_urbit.Scheduler.Cancelling.{IsMarked, IsOver, cancel_task-receive}

abbrev clock : ℕ → Bytes
clock now = now ∷ []

abbrev sync : Bytes
sync = ascii "sync"

abbrev one_task : Scheduler
one_task = schedule clock new sync 2000000000 5

abbrev sync_record : TaskRecord
sync_record = record {
  info = record {
    name = sync;
    interval_seconds = some 2;
    last_run = none;
    next_run = some (clock 2000000005);
    status = scheduled;
    error_count = 0;
    last_error = none;
  };
  cancel = some 0;
}

abbrev sync_worker : Worker
sync_worker = record { task = sync; interval_seconds = some 2; phase = waiting }

one_task-Reach : Reach clock new one_task
one_task-Reach = next here (schedules sync 2000000000 5 (omega arith))

one_task-IsConsistent : IsConsistent one_task
one_task-IsConsistent = Reach-IsConsistent clock one_task-Reach

has_record : get one_task.tasks sync ≡ some sync_record
unfolding get schedule post_urbit.Prelude.Dict.insert post_urbit.Prelude.list_beq ascii
has_record = refl

has_worker : get one_task.workers 0 ≡ some sync_worker
unfolding get schedule post_urbit.Prelude.Dict.insert
has_worker = refl

Reach-IsConsistent_example : IsConsistent one_task
Reach-IsConsistent_example = Reach-IsConsistent clock one_task-Reach

schedule-receive_example :
    let u = schedule clock one_task sync 3000000000 7 in
    let t = receive u 0 sync_worker in
    Step clock u t
    × IsMarked t sync (some one_task.next_worker)
    × (v : Worker) × (get t.workers one_task.next_worker ≡ some v)
    × (v.phase ≡ waiting)
schedule-receive_example =
    schedule-receive clock one_task sync sync_record 0 sync_worker 3000000000 7
      one_task-IsConsistent has_record refl has_worker refl

cancel_task-receive_example :
    (t : Scheduler) × Reach clock (cancel_task one_task sync) t × IsOver t sync 0
cancel_task-receive_example =
    cancel_task-receive clock one_task sync sync_record 0 none 9 9 one_task-IsConsistent has_record
      refl
