-- ===== src/Scheduler/Cancelling.antt =====
-- scheduler.rs: what becomes of a task that is cancelled.
use post_urbit.Prelude.{
  ℕ, Bytes, ◌≡◌, ◌≢◌, refl, sym, ap, ◌∙◌, Option, some, none, list_eq, nat_eq, ◌==◌, ==_refl, arith,
  Bool-cases, is_some-some, ◌⊎◌, inl, inr, if◌then◌else◌,
}
use post_urbit.Prelude.Dict.{Dict, get, get-insert, insert}
use post_urbit.Scheduler.{
  Phase, cancelled, after_seconds, scheduled, TaskRecord, TaskInfo, waiting, handling, ended,
  Worker, Scheduler, Outcome, note_error, change, cancel_task, finish, receive, IsHeld, finishes,
  receives, Reach, here, next,
}
use post_urbit.Scheduler.Consistency.{IsConsistent}

module _ (s : Scheduler) (c : IsConsistent s) where
  -- a sender is in one record
  pub one_holder :
      (m n : Bytes) (q r : TaskRecord) (id : ℕ)
      → get s.tasks m ≡ some q
      → q.cancel ≡ some id
      → get s.tasks n ≡ some r
      → r.cancel ≡ some id
      → m ≡ n
  one_holder m n q r id h k h2 k2 =
      let (v, here_v, at_m, live, periodic) = c.held m q id h k in
      let (w, here_w, at_n, alive, at_intervals) = c.held n r id h2 k2 in
      let same : v ≡ w = ground (arith, here_v, here_w) in
      sym at_m ∙ (ap (λ (x : Worker). x.task) same ∙ at_n)

change-get :
    (tasks : Dict Bytes TaskRecord) (name : Bytes) (f : TaskInfo → TaskInfo) (r : TaskRecord)
    → get tasks name ≡ some r
    → get (change tasks name f) name ≡ some (record r { info = f r.info })
unfolding change
change-get tasks name f r h =
    rw (h, change)
      (get-insert tasks name name (record r { info = f r.info }) ∙ rw (==_refl name) refl)

-- the task is marked as cancelled, and has this channel
abbrev pub IsMarked : Scheduler → Bytes → Option ℕ → Type 0
IsMarked t name cancel =
    (q : TaskRecord) × (get t.tasks name ≡ some q)
    × (q.info.status ≡ cancelled)
    × (q.cancel ≡ cancel)

-- the worker's last turn
pub receive-IsMarked :
    (s : Scheduler) (id : ℕ) (w : Worker) (name : Bytes) (r : TaskRecord) (cancel : Option ℕ)
    → w.task ≡ name
    → get s.tasks name ≡ some r
    → r.cancel ≡ cancel
    → IsMarked (receive s id w) name cancel
unfolding receive
receive-IsMarked s id w name r cancel at_task h k =
    let mark : TaskInfo → TaskInfo = λ i. record i { status = cancelled } in
    (
      record r { info = record r.info { status = cancelled } },
      rw at_task (change-get s.tasks name mark r h),
      refl,
      k,
    )

pub receive-get :
    (s : Scheduler) (id : ℕ) (w : Worker) (j : ℕ)
    → get (receive s id w).workers j
      ≡ (if id == j then some (record w { phase = ended }) else get s.workers j)
unfolding receive
receive-get s id w j = get-insert s.workers id j (record w { phase = ended })

-- no other record has the sender once it is out of its record
free-insert :
    (s : Scheduler) (name : Bytes) (r : TaskRecord) (id : ℕ)
    → IsConsistent s
    → get s.tasks name ≡ some r
    → r.cancel ≡ some id
    → ¬ IsHeld (record s { tasks = insert s.tasks name (record r { cancel = none }) }) id
free-insert s name r id c here_r k (n, q, h, l) =
    let task_then = get-insert s.tasks name n (record r { cancel = none }) in
    elim (Bool-cases (name == n)) [
      | inl e ↦ ground (arith, task_then, h, e, l)
      | inr e ↦
          let same = one_holder s c n name q r id (ground (arith, task_then, h, e)) l here_r k in
          ground (arith, e, same, (list_eq {A = ℕ}).beq_iff name n)
    ]

Phase-cases : (p : Phase) → p ≢ ended → (p ≡ waiting) ⊎ (p ≡ handling)
Phase-cases waiting h = inl refl
Phase-cases handling h = inr refl
Phase-cases ended h = absurd (h refl)

-- the task is marked as cancelled, has no channel, and the worker has ended
abbrev pub IsOver : Scheduler → Bytes → ℕ → Type 0
IsOver t name id =
    IsMarked t name none × (w : Worker) × (get t.workers id ≡ some w) × (w.phase ≡ ended)

receive-IsOver :
    (s : Scheduler) (id : ℕ) (w : Worker) (name : Bytes) (r : TaskRecord)
    → w.task ≡ name
    → get s.tasks name ≡ some r
    → r.cancel ≡ none
    → IsOver (receive s id w) name id
receive-IsOver s id w name r at_task h k = (
  receive-IsMarked s id w name r none at_task h k,
  record w { phase = ended },
  receive-get s id w id ∙ rw (==_refl id) refl,
  refl,
)

module _ (rfc3339 : ℕ → Bytes) where
  module _ (s : Scheduler) (id : ℕ) (w : Worker) (name : Bytes) (r : TaskRecord)
      (at_task : w.task ≡ name) (here_r : get s.tasks name ≡ some r) (untied : r.cancel ≡ none)
      (seconds : ℕ) (result : Outcome) (last upcoming : ℕ) where
    abbrev finished : Scheduler
    finished = finish rfc3339 s id w seconds result last upcoming

    abbrev updated : TaskInfo → TaskInfo
    updated i = note_error result (record i {
      last_run = some (rfc3339 last);
      next_run = some (after_seconds rfc3339 upcoming seconds);
      status = scheduled;
    })

    finish-tasks : finished.tasks ≡ insert s.tasks name (record r { info = updated r.info })
    unfolding finish change
    finish-tasks = rw at_task (rw (here_r, finish) (rw (here_r, change) refl))

    finish-worker : get finished.workers id ≡ some (record w { phase = waiting })
    unfolding finish
    finish-worker =
        let at_w : get s.tasks w.task ≡ some r = ap (get s.tasks) at_task ∙ here_r in
        rw (at_w, finish)
          (get-insert s.workers id id (record w { phase = waiting }) ∙ rw (==_refl id) refl)

    finish-free : ¬ IsHeld s id → ¬ IsHeld finished id
    finish-free free (n, q, h, l) =
        let then_r = record r { info = updated r.info } in
        let task_then = get-insert s.tasks name n then_r in
        let found : get (insert s.tasks name then_r) n ≡ some q = rw finish-tasks at h in
        elim (Bool-cases (name == n)) [
          | inl e ↦ ground (arith, task_then, found, e, l, untied)
          | inr e ↦ free (n, q, ground (arith, task_then, found, e), l)
        ]

  -- A task with a worker at intervals is cancelled. Then the worker's remaining turns can be taken,
  -- whatever the handler returns where it runs: they end the worker and mark the task as cancelled.
  pub cancel_task-receive :
      (s : Scheduler) (name : Bytes) (r : TaskRecord) (id : ℕ) (result : Outcome)
      (last upcoming : ℕ)
      → IsConsistent s
      → get s.tasks name ≡ some r
      → r.cancel ≡ some id
      → (t : Scheduler) × Reach rfc3339 (cancel_task s name) t × IsOver t name id
  unfolding cancel_task
  cancel_task-receive s name r id result last upcoming c here_r k =
      let (w, here_w, at_task, live, periodic) = c.held name r id here_r k in
      let r1 = record r { cancel = none } in
      let s1 = record s { tasks = insert s.tasks name r1 } in
      let free = free-insert s name r id c here_r k in
      let here_r1 : get s1.tasks name ≡ some r1 =
        get-insert s.tasks name name r1 ∙ rw (==_refl name) refl in
      rw (here_r, cancel_task)
        (elim (Phase-cases w.phase live) [
          | inl idle ↦ (
            receive s1 id w,
            next here (receives id w here_w idle free),
            receive-IsOver s1 id w name r1 at_task here_r1 refl,
          )
          | inr busy ↦
              let (seconds, spaced) = is_some-some w.interval_seconds periodic in
              let s2 = finish rfc3339 s1 id w seconds result last upcoming in
              let w2 = record w { phase = waiting } in
              let here_w2 =
                finish-worker s1 id w name r1 at_task here_r1 refl seconds result last upcoming in
              let free2 =
                finish-free s1 id w name r1 at_task here_r1 refl seconds result last upcoming
                  free in
              let r2 = record r1 {
                info =
                    updated s1 id w name r1 at_task here_r1 refl seconds result last upcoming
                      r1.info;
              } in
              let here_r2 : get s2.tasks name ≡ some r2 =
                rw (finish-tasks s1 id w name r1 at_task here_r1 refl seconds result last upcoming)
                  (get-insert s1.tasks name name r2 ∙ rw (==_refl name) refl) in
              (
                receive s2 id w2,
                next (next here (finishes id w seconds result last upcoming here_w busy spaced))
                    (receives id w2 here_w2 refl free2),
                receive-IsOver s2 id w2 name r2 at_task here_r2 refl,
              )
        ])
