-- ===== src/Scheduler/Consistency/Steps.antt =====
-- scheduler.rs: in any interleaving, every worker finds the record of its task.
use post_urbit.Prelude.{
  ℕ, Bytes, ◌≡◌, ◌≢◌, refl, none, some, Option-cases, inl, inr, list_eq, nat_eq, ◌==◌, arith,
  is_some-some, Bool-cases, sym, if◌then◌else◌,
}
use post_urbit.Prelude.Dict.{get, insert, get-insert}
use post_urbit.Scheduler.{
  Phase, running, TaskInfo, TaskRecord, waiting, handling, ended, Worker, Scheduler, new, Outcome,
  note_error, change, set_phase, schedule, run_once, cancel_task, start, finish, receive, complete,
  IsHeld, Step, schedules, runs_once, cancels, starts, finishes, receives, completes, Reach, here,
  next,
}
use post_urbit.Scheduler.Consistency.{IsConsistent, IsAtWork}
use post_urbit.Scheduler.Consistency.{new-IsConsistent}
use post_urbit.Scheduler.Consistency.Changed.{changed-IsConsistent}
use post_urbit.Scheduler.Consistency.Added.{added-IsConsistent}

-- `cancel` takes the sender out of a record
module _ (s : Scheduler) (name : Bytes) (r : TaskRecord) (c : IsConsistent s)
    (here_r : get s.tasks name ≡ some r) where
  abbrev untied : Scheduler
  untied = record s { tasks = insert s.tasks name (record r { cancel = none }) }

  task_untied :
      (n : Bytes)
      → get untied.tasks n
        ≡ (if name == n then some (record r { cancel = none }) else get s.tasks n)
  task_untied n = get-insert s.tasks name n (record r { cancel = none })

  untied-held :
      (n : Bytes) (q : TaskRecord) (j : ℕ)
      → get untied.tasks n ≡ some q
      → q.cancel ≡ some j
      → get s.tasks n ≡ some q
  untied-held n q j h k = ground (arith, task_untied n)

  untied-IsAtWork :
      (n : Bytes) (q : TaskRecord)
      → get untied.tasks n ≡ some q
      → q.info.status ≡ running
      → IsAtWork untied n
  untied-IsAtWork n q h k = elim (Bool-cases (name == n)) [
    | inl e ↦
        c.at_work n r (rw (sym (((list_eq {A = ℕ}).beq_iff name n).0 e)) here_r)
          (ground (arith, h, k, e, task_untied n))
    | inr e ↦ c.at_work n q (ground (arith, h, e, task_untied n)) k
  ]

  untied-IsConsistent : IsConsistent untied
  untied-IsConsistent = record {
    fresh = c.fresh;
    named = λ n q h. ground (
      arith,
      h,
      c.named n q,
      c.named name r here_r,
      task_untied n,
      (list_eq {A = ℕ}).beq_iff name n,
    );
    tasked = λ j w h. ground (arith, c.tasked j w h, task_untied w.task);
    held = λ n q j h k. c.held n q j (untied-held n q j h k) k;
    at_work = untied-IsAtWork;
  }

cancel_task-IsConsistent :
    (s : Scheduler) (name : Bytes) → IsConsistent s → IsConsistent (cancel_task s name)
unfolding cancel_task
cancel_task-IsConsistent s name c = elim (Option-cases (get s.tasks name)) [
  | inl e ↦ rw (e, cancel_task) c
  | inr (r, e) ↦ rw (e, cancel_task) (untied-IsConsistent s name r c e)
]

note_error-name : (result : Outcome) (i : TaskInfo) → (note_error result i).name ≡ i.name
unfolding note_error
note_error-name none i = refl
note_error-name (some e) i = refl

note_error-idle :
    (result : Outcome) (i : TaskInfo) → i.status ≢ running → (note_error result i).status ≢ running
unfolding note_error
note_error-idle none i idle = idle
note_error-idle (some e) i idle = idle

module _ (s : Scheduler) (id : ℕ) (w : Worker) (p : Phase) (r : TaskRecord)
    (f : TaskInfo → TaskInfo) (c : IsConsistent s) (here_w : get s.workers id ≡ some w)
    (here_r : get s.tasks w.task ≡ some r) where
  change-IsConsistent :
      (f r.info).name ≡ r.info.name
      → (p ≡ ended → ¬ IsHeld s id)
      → ((f r.info).status ≡ running → p ≡ handling)
      → IsConsistent (set_phase (record s { tasks = change s.tasks w.task f }) id w p)
  unfolding change
  change-IsConsistent same_name free busy =
      rw (here_r, change)
        (changed-IsConsistent s id w p r (f r.info) c here_w here_r same_name free busy)

-- a worker that runs once has no channel in a record
unheld-once :
    (s : Scheduler) (id : ℕ) (w : Worker)
    → IsConsistent s
    → get s.workers id ≡ some w
    → w.interval_seconds ≡ none
    → ¬ IsHeld s id
unheld-once s id w c here_w once (name, r, here_r, k) =
    let (v, here_v, same, live, periodic) = c.held name r id here_r k in
    ground (arith, here_w, here_v, once, periodic)

module _ (rfc3339 : ℕ → Bytes) where
  Step-IsConsistent : {s t : Scheduler} → Step rfc3339 s t → IsConsistent s → IsConsistent t
  unfolding schedule run_once start finish receive complete change
  Step-IsConsistent {s} (schedules name interval now positive) c =
      added-IsConsistent s name _ _ c refl (λ h. cc) refl
        (λ j h. (ground (arith, h), λ e. cc, refl))
  Step-IsConsistent {s} (runs_once name) c =
      added-IsConsistent s name _ _ c refl (λ h. cc) refl (λ j h. cc)
  Step-IsConsistent {s} (cancels name) c = cancel_task-IsConsistent s name c
  Step-IsConsistent {s} (starts id w here_w idle) c =
      let (r, here_r) = is_some-some (get s.tasks w.task) (c.tasked id w here_w) in
      rw (here_r, start)
        (change-IsConsistent s id w handling r _ c here_w here_r refl (λ h. cc) (λ h. refl))
  Step-IsConsistent {s} (finishes id w seconds result last upcoming here_w busy periodic) c =
      let (r, here_r) = is_some-some (get s.tasks w.task) (c.tasked id w here_w) in
      rw (here_r, finish)
        (change-IsConsistent s id w waiting r _ c here_w here_r (note_error-name result _) (λ h. cc)
          (λ h. absurd (note_error-idle result _ (λ e. cc) h)))
  Step-IsConsistent {s} (receives id w here_w idle free) c =
      let (r, here_r) = is_some-some (get s.tasks w.task) (c.tasked id w here_w) in
      (change-IsConsistent s id w ended r _ c here_w here_r refl (λ h. free) (λ h. cc))
  Step-IsConsistent {s} (completes id w result last here_w busy once) c =
      let (r, here_r) = is_some-some (get s.tasks w.task) (c.tasked id w here_w) in
      (change-IsConsistent s id w ended r _ c here_w here_r (note_error-name result _)
        (λ h. unheld-once s id w c here_w once)
        (λ h. absurd (note_error-idle result _ (λ e. cc) h)))

  -- Whatever the order in which the calls and the workers take their turns, the records and the
  -- workers of a scheduler stay consistent.
  pub Reach-IsConsistent : {s : Scheduler} → Reach rfc3339 new s → IsConsistent s
  Reach-IsConsistent here = new-IsConsistent
  Reach-IsConsistent (next r step) = Step-IsConsistent step (Reach-IsConsistent r)
