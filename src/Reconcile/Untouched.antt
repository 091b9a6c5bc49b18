-- ===== src/Reconcile/Untouched.antt =====
-- The parts of a leader's round in pkg/scheduler/scheduler.go that leave the job queue alone.
use dagens_public.Prelude.{ℕ, ◌≡◌, refl, ◌∙◌, inl, inr, Option, none, some, ◌==◌, Bool-cases}
use dagens_public.Prelude.Maps.{lookup}
use dagens_public.Prelude.Results.{Result, ok, err}
use dagens_public.Lifecycle.{
  State, succeeded, failed, submitted, same_state, DurableJobRecord, is_terminal_job_state,
  can_transition_job_state,
}
use dagens_public.Scheduler.{Scheduler, Job}
use dagens_public.Scheduler.Writer.Queue.{record_job_transition_queue}
use dagens_public.Scheduler.{JobStatus, job_completed, job_failed as job_failed_status}
use dagens_public.Dispatch.{Authority}
use dagens_public.Reconcile.{
  ReconcileEnv, RoundInput, put_missing, job_or_row, fail_job, fail_as_leader,
  fail_durable_queued_job_for_reconcile, force_failed, finish_replayed, update_job_status,
  with_job_status, queue_submitted,
}

module _ (env : ReconcileEnv) (round : RoundInput) (row : DurableJobRecord) where
  -- Failing a job does not touch the queue.
  fail_job_queue :
      (reason : ℕ) (job : Job) (s : Scheduler)
      → (fail_job env round row reason job s).job_queue ≡ s.job_queue
  unfolding fail_job force_failed
  fail_job_queue reason job s = elim (Bool-cases (is_terminal_job_state job.lifecycle_state)) [
    | inl e ↦ rw e refl
    | inr e ↦ elim (Bool-cases (can_transition_job_state job.lifecycle_state failed)) [
      | inl m ↦
          rw (e, m)
            (record_job_transition_queue env.codec round.done round.now row.job_id _ _ reason _)
      | inr m ↦ rw (e, m) refl
    ]
  ]

  put_missing_queue :
      (o : Option Job) (s : Scheduler) → (put_missing row o s).job_queue ≡ s.job_queue
  put_missing_queue none s = refl
  put_missing_queue (some job) s = refl

  fail_as_leader_queue :
      (reason : ℕ) (a : Result ℕ Authority) (s : Scheduler)
      → (fail_as_leader env round row reason a s).job_queue ≡ s.job_queue
  fail_as_leader_queue reason (err e) s = refl
  fail_as_leader_queue reason (ok a) s = elim (Bool-cases a.is_leader) [
    | inr e ↦ simp e refl
    | inl e ↦ simp e (
        fail_job_queue reason (job_or_row row (lookup row.job_id s.jobs)) _
        ∙ put_missing_queue (lookup row.job_id s.jobs) s)
  ]

  pub fail_queue :
      (reason : ℕ) (s : Scheduler)
      → (fail_durable_queued_job_for_reconcile env round row reason s).job_queue ≡ s.job_queue
  unfolding fail_durable_queued_job_for_reconcile
  fail_queue reason s = elim (Bool-cases (row.job_id == 0)) [
    | inl e ↦ rw e refl
    | inr e ↦ rw e (fail_as_leader_queue reason round.dispatch_authority s)
  ]

  with_job_status_queue :
      (status : JobStatus) (job_id : ℕ) (o : Option Job) (s : Scheduler)
      → (with_job_status round.now status job_id o s).job_queue ≡ s.job_queue
  with_job_status_queue status job_id none s = refl
  with_job_status_queue status job_id (some job) s = refl

  pub finish_replayed_queue :
      (job_id : ℕ) (state : State) (s : Scheduler)
      → (finish_replayed env round job_id state s).job_queue ≡ s.job_queue
  unfolding update_job_status
  finish_replayed_queue job_id succeeded s =
      record_job_transition_queue env.codec round.done round.now job_id _ _ _ _
      ∙ with_job_status_queue job_completed job_id (lookup job_id s.jobs) s
  finish_replayed_queue job_id failed s =
      record_job_transition_queue env.codec round.done round.now job_id _ _ _ _
      ∙ with_job_status_queue job_failed_status job_id (lookup job_id s.jobs) s
  finish_replayed_queue job_id _ s = refl

  pub queue_submitted_queue :
      (j : ℕ) (job : Job) (s : Scheduler)
      → (queue_submitted env round j job s).job_queue ≡ s.job_queue
  queue_submitted_queue j job s = elim (Bool-cases (same_state job.lifecycle_state submitted)) [
    | inl e ↦ rw e (record_job_transition_queue env.codec round.done round.now j _ _ 0 s)
    | inr e ↦ rw e refl
  ]
