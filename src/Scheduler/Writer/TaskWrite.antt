-- ===== src/Scheduler/Writer/TaskWrite.antt =====
-- recordTaskTransition of pkg/scheduler/scheduler.go, and any write of a task's record, keep the view
-- in memory and the logs together.
use dagens_public.Prelude.{
  ℕ, ◌+◌, ◌<◌, ◌≡◌, refl, sym, ap, ◌∙◌, subst, ◌≢◌, ◌⊎◌, inl, inr, Bool, true, none, some, arith,
  Option-cases, Bool-cases, ◌==◌, ==_iff, ==_refl, if◌then◌else◌,
}
use native.Mathlib.Decide.{ℕ_discrete}
use dagens_public.Prelude.Maps.{lookup, insert, lookup-insert_self}
use dagens_public.Prelude.Results.{Result, ok}
use dagens_public.Lifecycle.{
  State, empty, TransitionType, TransitionRecord, same_state, can_transition_task_state,
}
use dagens_public.Lifecycle.Graph.{same_state-eq}
use dagens_public.Store.{TransitionStore, StoreError}
use dagens_public.Replay.Chain.{Follows, last_of, job_states, task_states, MayStep}
use dagens_public.Scheduler.{Scheduler, Codec, Task, number_or_zero, next_number}
use dagens_public.Scheduler.Writer.{
  persist_transition_write, task_record, may_record_task, record_task, settle_task,
  record_task_transition,
}
use dagens_public.Scheduler.Writer.Extend.{Extends, IsNumbered, write_task-Extends}
use dagens_public.Scheduler.Writer.Synced.{
  counter, Agrees, last_job_state, last_task_state, IsSynced, IsTaskSynced, persist_cases, Appended,
  Appended-legal, Appended-numbered, Appended-last_job, Appended-last_task, Bumped, counter-insert,
  Bumped-Keeps, stored_log, Extends-Appended,
}

-- From `s` and `task` to `t` and `task'` everything stays synced: the task itself, and every task that
-- the write is not about.
pub record TaskKeeps (task : Task) (s : Scheduler) (task' : Task) (t : Scheduler) : Type 0 where
  pub scheduler : IsSynced t
  pub same_task : (task'.id ≡ task.id) × (task'.job_id ≡ task.job_id)
  pub this_task : IsTaskSynced task' t
  pub other_tasks :
      (other : Task)
      → (other.job_id ≢ task.job_id) ⊎ (other.id ≢ task.id)
      → IsTaskSynced other s
      → IsTaskSynced other t

pub TaskKeeps-refl :
    (task : Task) (s : Scheduler) → IsSynced s → IsTaskSynced task s → TaskKeeps task s task s
TaskKeeps-refl task s y k = record {
  scheduler = y;
  same_task = (refl, refl);
  this_task = k;
  other_tasks = λ other d h. h;
}

Bumped-TaskKeeps :
    (task : Task) (s t : Scheduler)
    → Bumped s t
    → IsSynced s
    → IsTaskSynced task s
    → TaskKeeps task s task t
Bumped-TaskKeeps task s t b y k =
    let (y', keep) = Bumped-Keeps s t b y in
    record {
      scheduler = y';
      same_task = (refl, refl);
      this_task = keep task k;
      other_tasks = λ other d h. keep other h;
    }

module _ (codec : Codec) (done : Bool) (now : ℕ) (task : Task) (transition : TransitionType)
    (previous new_state : State) (node_id attempt error_summary : ℕ)
    (fn : TransitionStore → Result StoreError TransitionStore) (s : Scheduler)
    (store : TransitionStore) (stored : s.transition_store ≡ some store) (y : IsSynced s)
    (room : counter task.job_id s + 1 < 18446744073709551616) where
  abbrev seq : ℕ
  seq = next_number (counter task.job_id s)

  abbrev written : TransitionRecord
  written =
      task_record codec now seq task transition previous new_state node_id attempt error_summary

  abbrev numbered : Scheduler
  numbered = record s { job_sequences = insert task.job_id seq s.job_sequences }

  Appended-TaskKeeps :
      (t : Scheduler)
      → Appended written s t
      → t.jobs ≡ s.jobs
      → Follows can_transition_task_state (last_task_state task.job_id task.id s) new_state
      → TaskKeeps task s (record task { lifecycle_state = new_state }) t
  unfolding task_record
  Appended-TaskKeeps t a jobs step = record {
    scheduler = record {
      legal = Appended-legal written s t a y tt may;
      numbered = Appended-numbered written s t a y;
      keyed = λ j q h. y.keyed j q (ap (lookup j) (sym jobs) ∙ h);
      agrees = λ j q h.
          subst (λ l. Agrees l q.lifecycle_state) (sym (last_job j))
            (y.agrees j q (ap (lookup j) (sym jobs) ∙ h));
    };
    same_task = (refl, refl);
    this_task = inr (Appended-last_task written s t a y task.id ∙ rw (==_refl task.id) refl);
    other_tasks = λ other d h.
        subst (λ l. Agrees l other.lifecycle_state) (sym (untouched other.job_id other.id d)) h;
  }
    where
      may :
          (k : ℕ)
          → MayStep can_transition_task_state
              (last_task_state task.job_id k s)
              (if task.id == k then some new_state else none)
      may k = elim (Bool-cases (task.id == k)) [
        | inl e ↦ rw e (
            subst
              (λ (i : ℕ).
                Follows can_transition_task_state (last_task_state task.job_id i s) new_state)
              ((==_iff task.id k).0 e) step)
        | inr e ↦ rw e tt
      ]

      last_job : (j : ℕ) → last_job_state j t ≡ last_job_state j s
      last_job j = elim (ℕ_discrete j task.job_id) [
        | yes e ↦
            subst (λ (i : ℕ). last_job_state i t ≡ last_job_state i s) (sym e)
              (Appended-last_job written s t a y)
        | no n ↦ ap (λ l. last_of empty (job_states l)) (a.others j n)
      ]

      skipped :
          (k : ℕ) → k ≢ task.id → last_task_state task.job_id k t ≡ last_task_state task.job_id k s
      skipped k n = Appended-last_task written s t a y k ∙ elim (Bool-cases (task.id == k)) [
        | inl e ↦ absurd (n (sym ((==_iff task.id k).0 e)))
        | inr e ↦ rw e refl
      ]

      untouched :
          (j k : ℕ)
          → (j ≢ task.job_id) ⊎ (k ≢ task.id)
          → last_task_state j k t ≡ last_task_state j k s
      untouched j k d = elim (ℕ_discrete j task.job_id) [
        | no n ↦ ap (λ l. last_of empty (task_states k l)) (a.others j n)
        | yes e ↦ elim d [
          | inl n ↦ absurd (n e)
          | inr n ↦
              subst (λ (i : ℕ). last_task_state i k t ≡ last_task_state i k s) (sym e) (skipped k n)
        ]
      ]

  -- A write that appends the record, and settles the task by its outcome.
  pub write_TaskKeeps :
      ((t : TransitionStore) → fn store ≡ ok t → Extends written store t)
      → IsTaskSynced task s
      → Follows can_transition_task_state (last_task_state task.job_id task.id s) new_state
      → TaskKeeps task s
          (settle_task task new_state (persist_transition_write done fn numbered)).1
          (settle_task task new_state (persist_transition_write done fn numbered)).0
  unfolding settle_task task_record
  write_TaskKeeps extends k step = elim (persist_cases done fn numbered store stored) [
    | inl (t, e, p) ↦ rw p (
        Appended-TaskKeeps (record numbered { transition_store = some t })
          (Extends-Appended written s _ store t stored refl (extends t e)
            (λ j. counter-insert task.job_id j s (some t) room) (omega arith)
            (ap number_or_zero (lookup-insert_self task.job_id seq s.job_sequences)))
          refl step)
    | inr (x, p) ↦ rw p (
        Bumped-TaskKeeps task s (record numbered { transition_store = some store })
          (record {
            same_logs = λ j. stored_log s store j stored;
            same_jobs = refl;
            counted = λ j. counter-insert task.job_id j s (some store) room;
          })
          y k)
  ]

Follows-of_may :
    (last previous new_state : State)
    → Agrees last previous
    → may_record_task previous new_state ≡ true
    → Follows can_transition_task_state last new_state
unfolding may_record_task
Follows-of_may last previous new_state (inl e) h = inl e
Follows-of_may last previous new_state (inr e) h = elim (Bool-cases (same_state previous empty)) [
  | inl same ↦ inl (e ∙ same_state-eq previous empty same)
  | inr other ↦ inr (ground arith)
]

module _ (codec : Codec) (done : Bool) (now : ℕ) (task : Task) (transition : TransitionType)
    (new_state : State) (node_id attempt error_summary : ℕ) (s : Scheduler) (y : IsSynced s)
    (room : counter task.job_id s + 1 < 18446744073709551616) (k : IsTaskSynced task s) where
  record_task-TaskKeeps :
      (store : TransitionStore)
      → s.transition_store ≡ some store
      → let r =
          record_task codec done now task transition new_state node_id attempt error_summary s in
        TaskKeeps task s r.1 r.0
  unfolding record_task task_record
  record_task-TaskKeeps store stored =
      elim (Bool-cases (may_record_task task.lifecycle_state new_state)) [
        | inr stay ↦ rw stay (TaskKeeps-refl task s y k)
        | inl move ↦ rw move (
            write_TaskKeeps codec done now task transition task.lifecycle_state new_state node_id
              attempt error_summary _ s store stored y room
              (λ t e.
                write_task-Extends _ store t (counter task.job_id s)
                  (subst (IsNumbered (counter task.job_id s))
                    (sym (stored_log s store task.job_id stored)) (y.numbered task.job_id))
                  (omega arith) _ _ e)
              k
              (Follows-of_may (last_task_state task.job_id task.id s) task.lifecycle_state new_state
                k move))
      ]

  -- recordTaskTransition keeps the scheduler and its logs together, whatever move it is asked for
  -- and whether or not the write succeeds: if every log replays, is numbered in order up to the
  -- job's counter, and either has no record of its job or ends in the state that the scheduler
  -- holds for the job, and the task agrees with its log, then this holds afterwards, the task
  -- keeps its identifiers, and every other task that agreed with its log still does. The job's
  -- sequence counter must have room for one number.
  pub record_task_transition-TaskKeeps :
      let r =
        record_task_transition codec done now task transition new_state node_id attempt
          error_summary s in
      TaskKeeps task s r.1 r.0
  unfolding record_task_transition
  record_task_transition-TaskKeeps = elim (Option-cases s.transition_store) [
    | inl e ↦ subst Kept (sym (no_store e)) (TaskKeeps-refl task s y k)
    | inr (store, e) ↦ subst Kept (sym (with_store store e)) (record_task-TaskKeeps store e)
  ]
    where
      Kept : Scheduler × Task → Type 0
      Kept r = TaskKeeps task s r.1 r.0

      no_store :
          s.transition_store ≡ none
          → record_task_transition codec done now task transition new_state node_id attempt
              error_summary s
            ≡ (s, task)
      no_store e = ground arith

      with_store :
          (store : TransitionStore)
          → s.transition_store ≡ some store
          → record_task_transition codec done now task transition new_state node_id attempt
              error_summary s
            ≡ record_task codec done now task transition new_state node_id attempt error_summary s
      with_store store e = ground arith
