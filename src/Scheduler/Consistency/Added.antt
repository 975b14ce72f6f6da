-- ===== src/Scheduler/Consistency/Added.antt =====
-- scheduler.rs: a new task and its worker keep them fitting.
use post_urbit.Prelude.{
  ℕ, Bytes, ◌+◌, ◌≤◌, ◌≡◌, ◌≢◌, refl, none, some, inl, inr, list_eq, nat_eq, ◌==◌, arith, is_some,
  true, Bool-cases, sym, ◌∙◌, ==_refl, if◌then◌else◌,
}
use post_urbit.Prelude.Dict.{get, insert, get-insert}
use post_urbit.Scheduler.{running, TaskRecord, ended, Worker, Scheduler}
use post_urbit.Scheduler.Consistency.{IsConsistent, IsServed, IsAtWork}

-- a new task and its worker
module _ (s : Scheduler) (name : Bytes) (q : TaskRecord) (v : Worker) (c : IsConsistent s)
    (same_name : q.info.name ≡ name) (idle : q.info.status ≢ running) (at_task : v.task ≡ name)
    (serves : (j : ℕ)
      → q.cancel ≡ some j
      → (s.next_worker ≡ j) × (v.phase ≢ ended) × (is_some v.interval_seconds ≡ true)) where
  abbrev pub added : Scheduler
  added = record {
    tasks = insert s.tasks name q;
    workers = insert s.workers s.next_worker v;
    next_worker = s.next_worker + 1;
  }

  worker_added :
      (j : ℕ) → get added.workers j ≡ (if s.next_worker == j then some v else get s.workers j)
  worker_added j = get-insert s.workers s.next_worker j v

  task_added : (n : Bytes) → get added.tasks n ≡ (if name == n then some q else get s.tasks n)
  task_added n = get-insert s.tasks name n q

  worker_kept : (j : ℕ) (w : Worker) → get s.workers j ≡ some w → get added.workers j ≡ some w
  worker_kept j w h =
      ground (arith, h, worker_added j, c.fresh s.next_worker, nat_eq.beq_iff s.next_worker j)

  added-fresh : (j : ℕ) → s.next_worker + 1 ≤ j → get added.workers j ≡ none
  added-fresh j h = ground (arith, c.fresh j, worker_added j, nat_eq.beq_iff s.next_worker j)

  added-named : (n : Bytes) (r : TaskRecord) → get added.tasks n ≡ some r → r.info.name ≡ n
  added-named n r h =
      ground (arith, c.named n r, task_added n, same_name, (list_eq {A = ℕ}).beq_iff name n)

  added-tasked :
      (j : ℕ) (w : Worker) → get added.workers j ≡ some w → is_some (get added.tasks w.task) ≡ true
  added-tasked j w h = ground (
    arith,
    c.tasked j w,
    worker_added j,
    task_added w.task,
    (list_eq {A = ℕ}).beq_iff name w.task,
  )

  added-held :
      (n : Bytes) (r : TaskRecord) (j : ℕ)
      → get added.tasks n ≡ some r
      → r.cancel ≡ some j
      → IsServed added n j
  added-held n r j h k = elim (Bool-cases (name == n)) [
    | inl e ↦
        let (at_j, live, periodic) = serves j (ground (arith, h, k, e, task_added n)) in
        (
          v,
          rw (sym at_j) (worker_added s.next_worker ∙ rw (==_refl s.next_worker) refl),
          at_task ∙ ((list_eq {A = ℕ}).beq_iff name n).0 e,
          live,
          periodic,
        )
    | inr e ↦
        let (w, here_w, same, live, periodic) =
          c.held n r j (ground (arith, h, e, task_added n)) k in
        (w, worker_kept j w here_w, same, live, periodic)
  ]

  added-IsAtWork :
      (n : Bytes) (r : TaskRecord)
      → get added.tasks n ≡ some r
      → r.info.status ≡ running
      → IsAtWork added n
  added-IsAtWork n r h k = elim (Bool-cases (name == n)) [
    | inl e ↦ absurd (idle (ground (arith, h, k, e, task_added n)))
    | inr e ↦
        let (j, w, here_w, same, works) = c.at_work n r (ground (arith, h, e, task_added n)) k in
        (j, w, worker_kept j w here_w, same, works)
  ]

  pub added-IsConsistent : IsConsistent added
  added-IsConsistent = record {
    fresh = added-fresh;
    named = added-named;
    tasked = added-tasked;
    held = added-held;
    at_work = added-IsAtWork;
  }
