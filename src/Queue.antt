-- ===== src/Queue.antt =====
-- Submission and the job queue of pkg/scheduler/scheduler.go. The channel `jobQueue` is a list of job
-- identifiers of at most `job_queue_size`. A call that gives up the mutex in its middle is two steps.
pub mod Steps
pub mod Selectors
pub mod Retention
use dagens_public.Prelude.{
  ℕ, ◌+◌, ◌-◌, Bool, true, false, not, ◌||◌, Option, none, some, List, [], ◌∷◌, ◌++◌, ltb, leb,
  ◌==◌, if◌then◌else◌, length,
}
use dagens_public.Prelude.Maps.{Map, lookup, insert, delete}
use dagens_public.Lifecycle.{
  submitted, queued, pending, job_submitted, job_queued, task_created, is_terminal_job_state,
}
use dagens_public.Scheduler.{Task, Stage, Job, job_pending, Scheduler, Codec}
use dagens_public.Scheduler.Writer.{record_job_transition, record_task_transition}

abbrev pub is_some {ℓ} : {A : Type ℓ} → Option A → Bool
is_some none = false
is_some (some x) = true

-- enqueueJobLocked of a job that is there.
unfoldable pub enqueue_job_locked : ℕ → Scheduler → Bool × Scheduler
enqueue_job_locked job_id s =
    if is_some (lookup job_id s.queued_jobs) || not (ltb (length s.job_queue) s.job_queue_size)
    then (false, s)
    else (
      true,
      record s {
        job_queue = s.job_queue ++ job_id ∷ [];
        queued_jobs = insert job_id tt s.queued_jobs;
      },
    )

pub data SubmitError : Type 0 where
  scheduler_recovering job_exists job_queue_full : SubmitError

-- SubmitJobWithContext up to the first unlock: a slot of the queue is reserved.
unfoldable pub submit_reserve : Job → Scheduler → Option SubmitError × Scheduler
submit_reserve job s =
    if s.recovering
    then (some scheduler_recovering, s)
    else if is_some (lookup job.id s.jobs)
    then (some job_exists, s)
    else if ltb (length s.job_queue + s.pending_enqueue) s.job_queue_size
    then (
      none,
      record s {
        pending_enqueue = s.pending_enqueue + 1;
        jobs = insert job.id (record job { status = job_pending }) s.jobs;
      },
    )
    else (some job_queue_full, s)

-- SubmitJobWithContext from its second lock on.
unfoldable pub submit_finish : ℕ → Scheduler → Bool × Scheduler
submit_finish job_id s =
    enqueue_job_locked job_id (record s { pending_enqueue = s.pending_enqueue - 1 })

-- The identifiers that a task of a submitted job is given.
unfoldable pub owned_task : ℕ → ℕ → Task → Task
owned_task job_id stage_id task = record task {
  job_id = if task.job_id == 0 then job_id else task.job_id;
  stage_id = if task.stage_id == 0 then stage_id else task.stage_id;
}

unfoldable pub record_new_tasks :
    Codec → Bool → ℕ → ℕ → ℕ → List Task → Scheduler → Scheduler × List Task
record_new_tasks codec done now job_id stage_id [] s = (s, [])
record_new_tasks codec done now job_id stage_id (task ∷ tasks) s =
    let (s', task') =
      record_task_transition codec done now (owned_task job_id stage_id task) task_created pending 0
        0 0 s in
    let (s'', tasks') = record_new_tasks codec done now job_id stage_id tasks s' in
    (s'', task' ∷ tasks')

unfoldable pub record_new_stages :
    Codec → Bool → ℕ → ℕ → List Stage → Scheduler → Scheduler × List Stage
record_new_stages codec done now job_id [] s = (s, [])
record_new_stages codec done now job_id (stage ∷ stages) s =
    let (s', tasks) = record_new_tasks codec done now job_id stage.id stage.tasks s in
    let (s'', stages') = record_new_stages codec done now job_id stages s' in
    (s'', record stage { tasks = tasks } ∷ stages')

-- The tasks of the job in memory are the ones that the loop has written.
store_stages : Option Job → ℕ → List Stage → Scheduler → Scheduler
store_stages none job_id stages s = s
store_stages (some job) job_id stages s = record s {
  jobs = insert job_id (record job { stages = stages }) s.jobs;
}

-- recordInitialTransitions of a job that has just been put into `jobs`.
unfoldable pub record_initial_transitions : Codec → Bool → ℕ → Job → Scheduler → Scheduler
unfolding store_stages
record_initial_transitions codec done now job s =
    let s1 = record_job_transition codec done now job.id job_submitted submitted 0 s in
    let (s2, stages) = record_new_stages codec done now job.id job.stages s1 in
    record_job_transition codec done now job.id job_queued queued 0
      (store_stages (lookup job.id s2.jobs) job.id stages s2)

unfoldable pub receive : List ℕ → Scheduler → Option ℕ × Scheduler
receive [] s = (none, s)
receive (job_id ∷ queue) s = (some job_id, record s { job_queue = queue })

-- `<-s.jobQueue`; `none` is a receiver that waits.
unfoldable pub receive_job : Scheduler → Option ℕ × Scheduler
unfolding receive
receive_job s = receive s.job_queue s

unfoldable pub mark_job_dequeued : ℕ → Scheduler → Scheduler
mark_job_dequeued job_id s = record s { queued_jobs = delete job_id s.queued_jobs }

-- Whether the retention clean-up drops a job: `now - ttl` is not before its last update.
unfoldable pub is_prunable : (now ttl : ℕ) → Job → Bool
is_prunable now ttl job =
    if not (is_terminal_job_state job.lifecycle_state)
    then false
    else leb (job.updated_at + ttl) now

unfoldable pub prune_job : ℕ → Scheduler → Scheduler
prune_job job_id s = record s {
  jobs = delete job_id s.jobs;
  job_sequences = delete job_id s.job_sequences;
  queued_jobs = delete job_id s.queued_jobs;
}

-- The loop of cleanupTerminalJobsOnce over the entries of `jobs`.
unfoldable pub prune_jobs : (now ttl : ℕ) → Map Job → Scheduler → ℕ × Scheduler
unfolding prune_job
prune_jobs now ttl [] s = (0, s)
prune_jobs now ttl ((job_id, job) ∷ entries) s =
    if not (is_prunable now ttl job)
    then prune_jobs now ttl entries s
    else let (pruned, s') = prune_jobs now ttl entries (prune_job job_id s) in (pruned + 1, s')

-- cleanupTerminalJobsOnce; no job is nil.
unfoldable pub cleanup_terminal_jobs_once : (now job_retention_ttl : ℕ) → Scheduler → ℕ × Scheduler
cleanup_terminal_jobs_once now job_retention_ttl s =
    if job_retention_ttl == 0 then (0, s) else prune_jobs now job_retention_ttl s.jobs s
