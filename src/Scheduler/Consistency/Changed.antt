-- ===== src/Scheduler/Consistency/Changed.antt =====
-- scheduler.rs: a worker that changes the record of its task keeps them fitting.
use post_urbit.Prelude.{
  ℕ, Bytes, ◌≤◌, ◌≡◌, refl, none, some, inl, inr, list_eq, nat_eq, ◌==◌, arith, is_some, true,
  Bool-cases, ap, sym, ◌∙◌, ==_refl, if◌then◌else◌,
}
use post_urbit.Prelude.Dict.{get, insert, get-insert}
use post_urbit.Scheduler.{
  Phase, running, TaskInfo, TaskRecord, handling, ended, Worker, Scheduler, set_phase, IsHeld,
}
use post_urbit.Scheduler.Consistency.{IsConsistent, IsServed, IsAtWork}

-- a worker changes the record of its task and goes to the next phase
module _ (s : Scheduler) (id : ℕ) (w : Worker) (p : Phase) (r : TaskRecord) (i : TaskInfo)
    (c : IsConsistent s) (here_w : get s.workers id ≡ some w) (here_r : get s.tasks w.task ≡ some r)
    (same_name : i.name ≡ r.info.name) (free : p ≡ ended → ¬ IsHeld s id)
    (busy : i.status ≡ running → p ≡ handling) where
  abbrev pub then_s : Scheduler
  then_s = set_phase (record s { tasks = insert s.tasks w.task (record r { info = i }) }) id w p

  abbrev pub w_then : Worker
  w_then = record w { phase = p }

  abbrev pub r_then : TaskRecord
  r_then = record r { info = i }

  worker_then : (j : ℕ) → get then_s.workers j ≡ (if id == j then some w_then else get s.workers j)
  worker_then j = get-insert s.workers id j w_then

  task_then :
      (name : Bytes)
      → get then_s.tasks name ≡ (if w.task == name then some r_then else get s.tasks name)
  task_then name = get-insert s.tasks w.task name r_then

  changed-fresh : (j : ℕ) → s.next_worker ≤ j → get then_s.workers j ≡ none
  changed-fresh j h = ground (arith, here_w, c.fresh j h, worker_then j, nat_eq.beq_iff id j)

  changed-named :
      (name : Bytes) (q : TaskRecord) → get then_s.tasks name ≡ some q → q.info.name ≡ name
  changed-named name q h = ground (
    arith,
    c.named name q,
    c.named w.task r here_r,
    task_then name,
    (list_eq {A = ℕ}).beq_iff w.task name,
    same_name,
  )

  changed-tasked :
      (j : ℕ) (v : Worker)
      → get then_s.workers j ≡ some v
      → is_some (get then_s.tasks v.task) ≡ true
  changed-tasked j v h = ground (
    arith,
    c.tasked j v,
    worker_then j,
    task_then v.task,
    (list_eq {A = ℕ}).beq_iff w.task v.task,
  )

  kept-held :
      (name : Bytes) (q : TaskRecord) (j : ℕ)
      → get s.tasks name ≡ some q
      → q.cancel ≡ some j
      → IsServed then_s name j
  kept-held name q j h k =
      let (v, here_v, same, live, periodic) = c.held name q j h k in
      elim (Bool-cases (id == j)) [
        | inr e ↦ (v, worker_then j ∙ rw e here_v, same, live, periodic)
        | inl e ↦
            let at_j : id ≡ j = (nat_eq.beq_iff id j).0 e in
            let w_is_v : w ≡ v = ground (arith, here_w, here_v, at_j) in
            (
              w_then,
              worker_then j ∙ rw e refl,
              ap (λ (x : Worker). x.task) w_is_v ∙ same,
              λ bad. free bad (name, q, h, rw at_j k),
              ap (λ (x : Worker). is_some x.interval_seconds) w_is_v ∙ periodic,
            )
      ]

  changed-held :
      (name : Bytes) (q : TaskRecord) (j : ℕ)
      → get then_s.tasks name ≡ some q
      → q.cancel ≡ some j
      → IsServed then_s name j
  changed-held name q j h k = elim (Bool-cases (w.task == name)) [
    | inl e ↦
        kept-held name r j (rw (sym (((list_eq {A = ℕ}).beq_iff w.task name).0 e)) here_r)
          (ground (arith, h, k, e, task_then name))
    | inr e ↦ kept-held name q j (ground (arith, h, e, task_then name)) k
  ]

  changed-IsAtWork :
      (name : Bytes) (q : TaskRecord)
      → get then_s.tasks name ≡ some q
      → q.info.status ≡ running
      → IsAtWork then_s name
  changed-IsAtWork name q h k = elim (Bool-cases (w.task == name)) [
    | inl e ↦ (
      id,
      w_then,
      worker_then id ∙ rw (==_refl id) refl,
      ((list_eq {A = ℕ}).beq_iff w.task name).0 e,
      busy (ground (arith, h, k, e, task_then name)),
    )
    | inr e ↦
        let (j, v, here_v, same, works) =
          c.at_work name q (ground (arith, h, e, task_then name)) k in
        (
          j,
          v,
          ground (
            arith,
            worker_then j,
            here_v,
            same,
            e,
            here_w,
            nat_eq.beq_iff id j,
            (list_eq {A = ℕ}).beq_iff w.task name,
          ),
          same,
          works,
        )
  ]

  pub changed-IsConsistent : IsConsistent then_s
  changed-IsConsistent = record {
    fresh = changed-fresh;
    named = changed-named;
    tasked = changed-tasked;
    held = changed-held;
    at_work = changed-IsAtWork;
  }
