-- ===== src/Dispatch/FirstDispatch.antt =====
-- recordJobRunningOnFirstDispatch of pkg/scheduler/scheduler.go: what it keeps and the numbers it
-- takes.
use dagens_public.Prelude.{
  ℕ, ◌+◌, ◌≤◌, ◌<◌, inl, inr, Bool, true, false, none, some, Option, arith, Option-cases,
  Bool-cases, ◌==◌, if◌then◌else◌,
}
use dagens_public.Prelude.Maps.{lookup}
use dagens_public.Lifecycle.{
  TransitionType, submitted, queued, running, awaiting_human, job_queued, job_running, job_resumed,
  same_state,
}
use dagens_public.Scheduler.{Task, Job, Scheduler, Codec}
use dagens_public.Scheduler.Writer.{
  record_job_transition, record_job_running_on_first_dispatch, running_on_first_dispatch,
}
use dagens_public.Scheduler.Writer.Synced.{Keeps, counter, IsSynced}
use dagens_public.Scheduler.Writer.JobWrite.{
  record_job_transition-Keeps, record_job_transition-counter,
}

keep_if : (b : Bool) (s t u : Scheduler) → Keeps s t → Keeps s u → Keeps s (if b then t else u)
keep_if true s t u h k = h
keep_if false s t u h k = k

-- The job of a task that is dispatched is made to run, in at most two writes.
pub first_dispatch-Keeps :
    (codec : Codec) (done : Bool) (now : ℕ) (task : Task) (s : Scheduler)
    → IsSynced s
    → counter task.job_id s + 2 < 18446744073709551616
    → Keeps s (record_job_running_on_first_dispatch codec done now task s)
unfolding record_job_running_on_first_dispatch
first_dispatch-Keeps codec done now task s y room = elim (Bool-cases (task.job_id == 0)) [
  | inl e ↦ rw e (y, λ t h. h)
  | inr e ↦ elim (Option-cases (lookup task.job_id s.jobs)) [
    | inl n ↦ rw (e, n) (y, λ t h. h)
    | inr (job, held) ↦
        rw (e, held)
          (keep_if (same_state job.lifecycle_state submitted) s _ _ (twice s y room) (
            keep_if (same_state job.lifecycle_state queued) s _ _
              (once job_running s y (omega arith))
              (keep_if (same_state job.lifecycle_state awaiting_human) s _ _
                (once job_resumed s y (omega arith)) (y, λ t h. h))))
  ]
]
  where
    once :
        (transition : TransitionType) (s : Scheduler)
        → IsSynced s
        → counter task.job_id s + 1 < 18446744073709551616
        → Keeps s (record_job_transition codec done now task.job_id transition running 0 s)
    once transition s y room =
        record_job_transition-Keeps codec done now task.job_id transition running 0 s y room

    twice :
        (s : Scheduler)
        → IsSynced s
        → counter task.job_id s + 2 < 18446744073709551616
        → Keeps s (
            record_job_transition codec done now task.job_id job_running running 0
              (record_job_transition codec done now task.job_id job_queued queued 0 s))
    twice s y room =
        let (y', keep) =
          record_job_transition-Keeps codec done now task.job_id job_queued queued 0 s y
            (omega arith) in
        let taken =
          record_job_transition-counter codec done now task.job_id job_queued queued 0 s y
            (omega arith) in
        let (y'', keep') = once job_running _ y' (omega arith) in (y'', λ t h. keep' t (keep t h))

module _ (codec : Codec) (done : Bool) (now : ℕ) where
  twice-counter :
      (j : ℕ) (s : Scheduler)
      → IsSynced s
      → counter j s + 2 < 18446744073709551616
      → counter j (
          record_job_transition codec done now j job_running running 0
            (record_job_transition codec done now j job_queued queued 0 s))
        ≤ counter j s + 2
  twice-counter j s y room =
      let taken =
        record_job_transition-counter codec done now j job_queued queued 0 s y (omega arith) in
      let y' =
        (record_job_transition-Keeps codec done now j job_queued queued 0 s y (omega arith)).0 in
      let taken' =
        record_job_transition-counter codec done now j job_running running 0 _ y' (omega arith) in
      omega arith

  running-counter :
      (j : ℕ) (o : Option Job) (s : Scheduler)
      → IsSynced s
      → counter j s + 2 < 18446744073709551616
      → counter j (running_on_first_dispatch codec done now j o s) ≤ counter j s + 2
  unfolding running_on_first_dispatch
  running-counter j none s y room = omega arith
  running-counter j (some job) s y room = ground (
    arith,
    twice-counter j s y room,
    record_job_transition-counter codec done now j job_running running 0 s y (omega arith),
    record_job_transition-counter codec done now j job_resumed running 0 s y (omega arith),
  )

  pub first_dispatch-counter :
      (task : Task) (s : Scheduler)
      → IsSynced s
      → counter task.job_id s + 2 < 18446744073709551616
      → counter task.job_id (record_job_running_on_first_dispatch codec done now task s)
        ≤ counter task.job_id s + 2
  unfolding record_job_running_on_first_dispatch
  first_dispatch-counter task s y room =
      ground (arith, running-counter task.job_id (lookup task.job_id s.jobs) s y room)
