-- ===== src/Scheduler/Rescheduling.antt =====
-- scheduler.rs: what becomes of a task that is scheduled under the name of another.
use post_urbit.Prelude.{
  ℕ, Bytes, ◌/◌, ◌≡◌, ◌≢◌, refl, ◌∙◌, some, none, list_eq, nat_eq, ◌==◌, ==_refl, arith, Bool-cases,
  inl, inr,
}
use post_urbit.Prelude.Dict.{get, get-insert}
use post_urbit.Scheduler.{
  after_seconds, scheduled, TaskRecord, waiting, Worker, Scheduler, schedule, receive, IsHeld, Step,
  receives,
}
use post_urbit.Scheduler.Consistency.{IsConsistent}
use post_urbit.Scheduler.Cancelling.{IsMarked, one_holder, receive-IsMarked, receive-get}

module _ (rfc3339 : ℕ → Bytes) where
  -- A task is scheduled, and then another under the same name, while the first one's worker waits.
  -- The first one's worker is then free to take its last turn, which marks the record of the second
  -- task as cancelled, though the second one's worker waits and its channel was not sent on.
  pub schedule-receive :
      (s : Scheduler) (name : Bytes) (r : TaskRecord) (id : ℕ) (w : Worker) (interval now : ℕ)
      → IsConsistent s
      → get s.tasks name ≡ some r
      → r.cancel ≡ some id
      → get s.workers id ≡ some w
      → w.phase ≡ waiting
      → let u = schedule rfc3339 s name interval now in
        let t = receive u id w in
        Step rfc3339 u t
        × IsMarked t name (some s.next_worker)
        × (v : Worker) × (get t.workers s.next_worker ≡ some v)
        × (v.phase ≡ waiting)
  unfolding schedule
  schedule-receive s name r id w interval now c here_r k here_w idle =
      let u = schedule rfc3339 s name interval now in
      let new : TaskRecord = record {
        info = record {
          name = name;
          interval_seconds = some (interval / 1000000000);
          last_run = none;
          next_run = some (after_seconds rfc3339 now (interval / 1000000000));
          status = scheduled;
          error_count = 0;
          last_error = none;
        };
        cancel = some s.next_worker;
      } in
      let v : Worker = record {
        task = name;
        interval_seconds = some (interval / 1000000000);
        phase = waiting;
      } in
      let older : s.next_worker ≢ id = λ e. ground (arith, c.fresh id, here_w, e) in
      let at_task : w.task ≡ name =
        let served = c.held name r id here_r k in ground (arith, served.1, served.2, here_w) in
      let worker_u = get-insert s.workers s.next_worker in
      let task_u = get-insert s.tasks name in
      let kept : get u.workers id ≡ some w =
        ground (arith, worker_u id v, here_w, older, nat_eq.beq_iff s.next_worker id) in
      let replaced : get u.tasks name ≡ some new = task_u name new ∙ rw (==_refl name) refl in
      let unheld : ¬ IsHeld u id = λ (n, q, h, l). elim (Bool-cases (name == n)) [
        | inl e ↦ ground (arith, task_u n new, h, e, l, older)
        | inr e ↦
            let same =
              one_holder s c n name q r id (ground (arith, task_u n new, h, e)) l here_r k in
            ground (arith, e, same, (list_eq {A = ℕ}).beq_iff name n)
      ] in
      (
        receives id w kept idle unheld,
        receive-IsMarked u id w name new (some s.next_worker) at_task replaced refl,
        v,
        ground (
          arith,
          receive-get u id w s.next_worker,
          worker_u s.next_worker v,
          older,
          nat_eq.beq_iff id s.next_worker,
          ==_refl s.next_worker,
        ),
        refl,
      )
