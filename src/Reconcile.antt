-- ===== src/Reconcile.antt =====
-- The reconcile loop of pkg/scheduler/scheduler.go: reconcileDurableQueuedJobsOnce with
-- tryEnqueueExistingQueuedJob and failDurableQueuedJobForReconcile, over the in-memory store. Of a call
-- that locks more than once, no other step comes between. Texts of reasons are numbers.
pub mod Follower
pub mod Loop
pub mod Ready
pub mod Untouched
pub mod Leader
use dagens_public.Prelude.{
  ℕ, suc, ◌+◌, Bool, true, false, not, ◌&&◌, ◌||◌, Option, none, some, List, [], ◌∷◌, ltb, ◌==◌,
  if◌then◌else◌,
}
use dagens_public.Prelude.Maps.{Map, lookup, insert, delete, values}
use dagens_public.Prelude.Results.{Result, ok, err}
use dagens_public.Prelude.Sort.{sort_by}
use dagens_public.Lifecycle.{
  State, submitted, queued, running, succeeded, failed, same_state, job_queued, job_succeeded,
  job_failed, DurableJobRecord, is_terminal_job_state, can_transition_job_state,
}
use dagens_public.Store.{TransitionStore, list_unfinished_jobs, upsert_job}
use dagens_public.Replay.{
  Context, ReplayError, ReplayedJobState, replay_job_state, with_durable_job,
}
use dagens_public.Scheduler.{
  JobStatus, job_completed, Task, Stage, Job, Scheduler, Codec, number_or_zero,
}
use dagens_public.Scheduler.{job_failed as job_failed_status}
use dagens_public.Scheduler.Writer.{record_job_transition}
use dagens_public.Queue.{enqueue_job_locked, is_some}
use dagens_public.Queue.Selectors.{
  all_replayed_tasks_pending, has_stale_in_flight_replayed_task, replayed_terminal_job_state,
}
use dagens_public.Dispatch.{Authority}
use dagens_public.Recovery.{
  Decoder, build_recovered_runtime_job, runtime_job_status_from_lifecycle, seed_job_sequence_locked,
  is_safe_for_queued_resume,
}

pub data ReconcileMode : Type 0 where
  leader follower : ReconcileMode

abbrev pub is_leader_mode : ReconcileMode → Bool
is_leader_mode leader = true
is_leader_mode follower = false

-- What one job's round of the loop meets: the context at its start and as the replay asks it, the time,
-- the leadership provider's answer, and whether the context of a write is canceled.
pub record RoundInput : Type 0 where
  pub canceled : Bool
  pub replay_ctx : Context
  pub now : ℕ
  pub dispatch_authority : Result ℕ Authority
  pub done : Bool

pub record ReconcileEnv : Type 0 where
  pub codec : Codec
  pub decoder : Decoder
  pub enable_stickiness : Bool
  pub reason_replay_failed : ReplayError → ℕ
  pub reason_orphan : ℕ
  pub reason_stale : ℕ
  pub reason_success : ℕ
  pub reason_failure : ℕ
  pub reason_missing_fields : ℕ

-- The scheduler with the jobs whose replay is put off, and the time of the last success.
pub record Reconciler : Type 0 where
  pub scheduler : Scheduler
  pub replay_quarantine : Map ℕ
  pub last_reconcile_time : ℕ

abbrev pub lacks_fields : Bool → Task → Bool
lacks_fields stickiness_required task =
    (task.agent_id == 0 || (task.agent_name == 0 || not (is_some task.input)))
    || (stickiness_required && task.partition_key == 0)

abbrev pub missing_in_tasks : Bool → List Task → ℕ
missing_in_tasks stickiness_required [] = 0
missing_in_tasks stickiness_required (task ∷ tasks) =
    (if lacks_fields stickiness_required task then 1 else 0)
    + missing_in_tasks stickiness_required tasks

abbrev pub missing_in_stages : Bool → List Stage → ℕ
missing_in_stages stickiness_required [] = 0
missing_in_stages stickiness_required (stage ∷ stages) =
    missing_in_tasks stickiness_required stage.tasks + missing_in_stages stickiness_required stages

unfoldable pub recovered_queued_missing_execution_field_count : Job → Bool → ℕ
recovered_queued_missing_execution_field_count job stickiness_required =
    missing_in_stages stickiness_required job.stages

-- Whether tryEnqueueExistingQueuedJob goes on with a job.
abbrev pub is_ready : Bool → Job → Bool
is_ready stickiness_required job =
    same_state job.lifecycle_state queued
    && (is_safe_for_queued_resume job
        && recovered_queued_missing_execution_field_count job stickiness_required == 0)

abbrev pub is_ready_at : Bool → Option Job → Bool
is_ready_at stickiness_required none = false
is_ready_at stickiness_required (some job) = is_ready stickiness_required job

unfoldable pub try_enqueue_existing_queued_job : Bool → ℕ → Scheduler → Bool × Scheduler
try_enqueue_existing_queued_job stickiness_required job_id s =
    if not (is_ready_at stickiness_required (lookup job_id s.jobs))
    then (false, s)
    else if is_some (lookup job_id s.queued_jobs)
    then (true, s)
    else enqueue_job_locked job_id s

-- The job that failDurableQueuedJobForReconcile puts where there is none.
abbrev pub job_of_row : DurableJobRecord → Job
job_of_row row = record {
  id = row.job_id;
  name = row.name;
  stages = [];
  status = runtime_job_status_from_lifecycle row.current_state;
  lifecycle_state = row.current_state;
  created_at = row.created_at;
  updated_at = row.updated_at;
}

abbrev pub job_or_row : DurableJobRecord → Option Job → Job
job_or_row row none = job_of_row row
job_or_row row (some job) = job

abbrev pub put_job : ℕ → Job → Scheduler → Scheduler
put_job job_id job s = record s { jobs = insert job_id job s.jobs }

abbrev pub upsert_in : DurableJobRecord → Option TransitionStore → Option TransitionStore
upsert_in row none = none
upsert_in row (some store) = some (upsert_job row store)

abbrev pub put_missing : DurableJobRecord → Option Job → Scheduler → Scheduler
put_missing row none s = put_job row.job_id (job_of_row row) s
put_missing row (some job) s = s

-- The job is put to FAILED in memory and in its row, without a record in the log.
unfoldable pub force_failed : ℕ → DurableJobRecord → Job → Scheduler → Scheduler
force_failed now row job s =
    record (put_job row.job_id (record job { lifecycle_state = failed; updated_at = now }) s) {
      transition_store =
          upsert_in (record row { current_state = failed; updated_at = now }) s.transition_store;
    }

-- failDurableQueuedJobForReconcile of a job in memory.
unfoldable pub fail_job :
    ReconcileEnv → RoundInput → DurableJobRecord → ℕ → Job → Scheduler → Scheduler
fail_job env round row reason job s =
    if is_terminal_job_state job.lifecycle_state
    then s
    else if can_transition_job_state job.lifecycle_state failed
    then record_job_transition env.codec round.done round.now row.job_id job_failed failed reason
        (put_job row.job_id (record job { status = job_failed_status; updated_at = round.now }) s)
    else force_failed round.now row (record job { status = job_failed_status }) s

abbrev pub fail_as_leader :
    ReconcileEnv → RoundInput → DurableJobRecord → ℕ → Result ℕ Authority → Scheduler → Scheduler
fail_as_leader env round row reason (err e) s = s
fail_as_leader env round row reason (ok authority) s =
    if not authority.is_leader
    then s
    else fail_job env round row reason (job_or_row row (lookup row.job_id s.jobs))
        (put_missing row (lookup row.job_id s.jobs) s)

unfoldable pub fail_durable_queued_job_for_reconcile :
    ReconcileEnv → RoundInput → DurableJobRecord → ℕ → Scheduler → Scheduler
fail_durable_queued_job_for_reconcile env round row reason s =
    if row.job_id == 0 then s else fail_as_leader env round row reason round.dispatch_authority s

-- The view in memory follows the replay: a new job, or a newer state of one.
abbrev pub warm : ReconcileEnv → ReplayedJobState → Option Job → Scheduler → Scheduler
warm env r none s =
    (seed_job_sequence_locked r.job.job_id r.job.last_sequence_id r.transitions
      (put_job r.job.job_id (build_recovered_runtime_job env.decoder r) s)).1
warm env r (some job) s =
    if ltb (number_or_zero (lookup r.job.job_id s.job_sequences)) r.job.last_sequence_id
    then (seed_job_sequence_locked r.job.job_id r.job.last_sequence_id r.transitions (
        put_job r.job.job_id
          (record job { lifecycle_state = r.job.current_state; updated_at = r.job.updated_at })
          s)).1
    else s

unfoldable pub warm_replay : ReconcileEnv → ReplayedJobState → Scheduler → Scheduler
warm_replay env r s = warm env r (lookup r.job.job_id s.jobs) s

-- updateJobStatus.
abbrev pub with_job_status : ℕ → JobStatus → ℕ → Option Job → Scheduler → Scheduler
with_job_status now status job_id none s = s
with_job_status now status job_id (some job) s =
    put_job job_id (record job { status = status; updated_at = now }) s

unfoldable pub update_job_status : ℕ → JobStatus → ℕ → Scheduler → Scheduler
update_job_status now status job_id s = with_job_status now status job_id (lookup job_id s.jobs) s

-- The outcome that is synthesized for a RUNNING job.
abbrev pub finish_replayed : ReconcileEnv → RoundInput → ℕ → State → Scheduler → Scheduler
finish_replayed env round job_id succeeded s =
    record_job_transition env.codec round.done round.now job_id job_succeeded succeeded
      env.reason_success (update_job_status round.now job_completed job_id s)
finish_replayed env round job_id failed s =
    record_job_transition env.codec round.done round.now job_id job_failed failed env.reason_failure
      (update_job_status round.now job_failed_status job_id s)
finish_replayed env round job_id _ s = s

-- The leader's end of a round, of a QUEUED job.
unfoldable pub lead_queued :
    ReconcileEnv → RoundInput → DurableJobRecord → ℕ → Option Job → Scheduler → Scheduler
lead_queued env round row job_id none s = s
lead_queued env round row job_id (some job) s =
    if not (same_state job.lifecycle_state queued)
    then s
    else if not (is_safe_for_queued_resume job)
    then s
    else if ltb 0 (recovered_queued_missing_execution_field_count job env.enable_stickiness)
    then fail_durable_queued_job_for_reconcile env round row env.reason_missing_fields s
    else (enqueue_job_locked job_id s).1

-- A SUBMITTED job is first recorded as QUEUED.
abbrev pub queue_submitted : ReconcileEnv → RoundInput → ℕ → Job → Scheduler → Scheduler
queue_submitted env round job_id job s =
    if same_state job.lifecycle_state submitted
    then record_job_transition env.codec round.done round.now job_id job_queued queued 0 s
    else s

-- The leader's part of a round after the test for an outcome.
unfoldable pub lead_open :
    ReconcileEnv → RoundInput → DurableJobRecord → ℕ → Job → Scheduler → Scheduler
lead_open env round row job_id job s =
    lead_queued env round row job_id (lookup job_id (queue_submitted env round job_id job s).jobs)
      (queue_submitted env round job_id job s)

-- The leader's part of a round, of a job whose tasks give an outcome or not.
unfoldable pub lead_job :
    ReconcileEnv → RoundInput → DurableJobRecord → ℕ → Option State → Job → Scheduler → Scheduler
lead_job env round row job_id none job s = lead_open env round row job_id job s
lead_job env round row job_id (some state) job s =
    if same_state job.lifecycle_state running
    then finish_replayed env round job_id state s
    else lead_open env round row job_id job s

abbrev pub lead :
    ReconcileEnv
    → RoundInput
    → DurableJobRecord
    → ReplayedJobState
    → Option Job
    → Scheduler
    → Scheduler
lead env round row r none s = s
lead env round row r (some job) s =
    lead_job env round row r.job.job_id (replayed_terminal_job_state (values r.tasks)) job s

-- A minute, in nanoseconds.
abbrev pub stale_in_flight_reconcile_timeout : ℕ
stale_in_flight_reconcile_timeout = 60000000000

-- A round from a replay that succeeded.
unfoldable pub reconcile_replayed :
    ReconcileEnv
    → ReconcileMode
    → RoundInput
    → DurableJobRecord
    → ReplayedJobState
    → Scheduler
    → Scheduler
reconcile_replayed env follower round row r s = warm_replay env r s
reconcile_replayed env leader round row r s =
    if same_state r.job.current_state running && all_replayed_tasks_pending (values r.tasks)
    then fail_durable_queued_job_for_reconcile env round row env.reason_orphan s
    else if same_state r.job.current_state running
        && has_stale_in_flight_replayed_task (values r.tasks) round.now
            stale_in_flight_reconcile_timeout
    then fail_durable_queued_job_for_reconcile env round row env.reason_stale s
    else lead env round row r (lookup r.job.job_id (warm_replay env r s).jobs) (warm_replay env r s)
