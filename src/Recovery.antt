-- ===== src/Recovery.antt =====
-- pkg/scheduler/recovery.go: what a scheduler rebuilds from the store when it starts. The counts that
-- only go to the metrics and the log lines are left out. A Go map is iterated in the order of its
-- list, and `sort.Strings` follows the numbers that stand for the stage identifiers.
pub mod Build
pub mod Seed
pub mod Recover
pub mod Loop
pub mod Startup
pub mod Built
pub mod Restore
pub mod Resume
pub mod Resumed
pub mod StageStatus
use dagens_public.Prelude.{
  ℕ, suc, ◌+◌, ◌%◌, Bool, true, false, not, ◌&&◌, ◌||◌, Option, none, some, List, [], ◌∷◌, ◌++◌,
  map, ltb, ◌==◌, if◌then◌else◌, length,
}
use dagens_public.Prelude.Int.{ℤ, pos_part}
use dagens_public.Prelude.Maps.{Map, lookup, insert, values}
use dagens_public.Prelude.Results.{Result, ok, err, Result-cases}
use dagens_public.Prelude.Sort.{sort_by}
use dagens_public.Lifecycle.{
  State, empty, submitted, queued, running, awaiting_human, succeeded, failed, canceled, pending,
  dispatched, same_state, DurableTaskRecord, TransitionRecord,
}
use dagens_public.Store.{TransitionStore}
use dagens_public.Replay.{
  Context, ReplayError, context_error, ReplayedJobState, replay_state_from_store,
}
use dagens_public.Scheduler.{
  JobStatus, job_pending, job_running, job_completed, job_failed, job_blocked, job_awaiting_human,
  Task, Stage, Job, Scheduler,
}
use dagens_public.Queue.{enqueue_job_locked, is_some}
use dagens_public.Config.{SchedulerConfig}

-- Code that recovery calls and that is not modelled: strings.TrimSpace, as whether a text is blank,
-- and encoding/json, which may fail.
pub record Decoder : Type 0 where
  pub is_blank : ℕ → Bool
  pub unmarshal_input : ℕ → Option ℕ

unfoldable pub unmarshal_recovered_agent_input : Decoder → ℕ → Option ℕ
unmarshal_recovered_agent_input decoder raw =
    if decoder.is_blank raw then none else decoder.unmarshal_input raw

unfoldable pub runtime_job_status_from_lifecycle : State → JobStatus
runtime_job_status_from_lifecycle running = job_running
runtime_job_status_from_lifecycle awaiting_human = job_awaiting_human
runtime_job_status_from_lifecycle succeeded = job_completed
runtime_job_status_from_lifecycle failed = job_failed
runtime_job_status_from_lifecycle canceled = job_failed
runtime_job_status_from_lifecycle _ = job_pending

unfoldable pub runtime_task_status_from_lifecycle : State → JobStatus
runtime_task_status_from_lifecycle running = job_running
runtime_task_status_from_lifecycle succeeded = job_completed
runtime_task_status_from_lifecycle failed = job_failed
runtime_task_status_from_lifecycle _ = job_pending

-- The flags of deriveStageStatus: a task runs, a task has failed, all are completed.
pub record StageFlags : Type 0 where
  pub has_running : Bool
  pub has_failed : Bool
  pub all_completed : Bool

-- The `switch` on the status of a task.
abbrev pub flag_task : JobStatus → StageFlags → StageFlags
flag_task job_failed flags = record flags { has_failed = true; all_completed = false }
flag_task job_blocked flags = record flags { has_failed = true; all_completed = false }
flag_task job_running flags = record flags { has_running = true; all_completed = false }
flag_task job_completed flags = flags
flag_task _ flags = record flags { all_completed = false }

unfoldable pub flag_tasks : List Task → StageFlags → StageFlags
flag_tasks [] flags = flags
flag_tasks (task ∷ tasks) flags = flag_tasks tasks (flag_task task.status flags)

unfoldable pub flagged_status : StageFlags → JobStatus
flagged_status flags =
    if flags.has_failed
    then job_failed
    else if flags.has_running
    then job_running
    else if flags.all_completed
    then job_completed
    else job_pending

unfoldable pub derive_stage_status : List Task → JobStatus
derive_stage_status [] = job_pending
derive_stage_status (task ∷ tasks) = flagged_status (
    flag_tasks (task ∷ tasks)
      (record { has_running = false; has_failed = false; all_completed = true }))

-- The number of the string "recovered", the stage of a task without one.
abbrev pub recovered_stage : ℕ
recovered_stage = 1

abbrev pub stage_key : DurableTaskRecord → ℕ
stage_key row = if row.stage_id == 0 then recovered_stage else row.stage_id

unfoldable pub recovered_task : Decoder → DurableTaskRecord → Task
recovered_task decoder row = record {
  id = row.task_id;
  stage_id = stage_key row;
  job_id = row.job_id;
  agent_id = row.agent_id;
  agent_name = row.agent_name;
  input = unmarshal_recovered_agent_input decoder row.input_json;
  output = none;
  partition_key = row.partition_key;
  status = runtime_task_status_from_lifecycle row.current_state;
  lifecycle_state = row.current_state;
  attempts = row.last_attempt;
}

-- The stage of a key, a new one where there is none.
abbrev pub stage_or_new : ℕ → ℕ → Option Stage → Stage
stage_or_new job_id stage_id (some stage) = stage
stage_or_new job_id stage_id none = record {
  id = stage_id;
  job_id = job_id;
  tasks = [];
  dependencies = [];
  status = job_pending;
}

abbrev pub with_task : Task → Stage → Stage
with_task task stage = record stage { tasks = stage.tasks ++ task ∷ [] }

-- The loop over the replayed tasks, which fills `stageByID`.
unfoldable pub group_tasks : Decoder → ℕ → List DurableTaskRecord → Map Stage → Map Stage
group_tasks decoder job_id [] stage_by_id = stage_by_id
group_tasks decoder job_id (row ∷ rows) stage_by_id = group_tasks decoder job_id rows (
    insert (stage_key row)
      (with_task (recovered_task decoder row)
        (stage_or_new job_id (stage_key row) (lookup (stage_key row) stage_by_id)))
      stage_by_id)

abbrev pub with_status : Stage → Stage
with_status stage = record stage { status = derive_stage_status stage.tasks }

-- The stages in the order of their identifiers.
unfoldable pub recovered_stages : Decoder → ReplayedJobState → List Stage
recovered_stages decoder r =
    map (λ entry. with_status entry.1)
      (sort_by (λ entry. entry.0) (group_tasks decoder r.job.job_id (values r.tasks) []))

unfoldable pub build_recovered_runtime_job : Decoder → ReplayedJobState → Job
build_recovered_runtime_job decoder r = record {
  id = r.job.job_id;
  name = r.job.name;
  stages = recovered_stages decoder r;
  status = runtime_job_status_from_lifecycle r.job.current_state;
  lifecycle_state = r.job.current_state;
  created_at = r.job.created_at;
  updated_at = r.job.updated_at;
}

abbrev pub larger_sequence : ℕ → List TransitionRecord → ℕ
larger_sequence max_seq [] = max_seq
larger_sequence max_seq (tr ∷ transitions) =
    larger_sequence (if ltb max_seq tr.sequence_id then tr.sequence_id else max_seq) transitions

-- Whether there is no counter yet or a smaller one.
abbrev pub is_ahead : ℕ → Option ℕ → Bool
is_ahead max_seq none = true
is_ahead max_seq (some current) = ltb current max_seq

-- seedJobSequenceLocked from the largest number on.
unfoldable pub seed_at : ℕ → ℕ → Scheduler → (Bool × ℕ) × Scheduler
seed_at job_id max_seq s =
    if max_seq == 0
    then ((false, 0), s)
    else if is_ahead max_seq (lookup job_id s.job_sequences)
    then ((true, max_seq), record s { job_sequences = insert job_id max_seq s.job_sequences })
    else ((false, max_seq), s)

unfoldable pub seed_job_sequence_locked :
    ℕ → ℕ → List TransitionRecord → Scheduler → (Bool × ℕ) × Scheduler
seed_job_sequence_locked job_id durable_last_seq transitions s =
    seed_at job_id (larger_sequence durable_last_seq transitions) s

-- One round of the loop of RecoverFromTransitions: the job if it is new, and the scheduler.
unfoldable pub recover_job : Decoder → ReplayedJobState → Scheduler → List ℕ × Scheduler
recover_job decoder r s =
    if is_some (lookup r.job.job_id s.jobs)
    then ([], (seed_job_sequence_locked r.job.job_id r.job.last_sequence_id r.transitions s).1)
    else (
      r.job.job_id ∷ [],
      (seed_job_sequence_locked r.job.job_id r.job.last_sequence_id r.transitions (record s {
        jobs = insert r.job.job_id (build_recovered_runtime_job decoder r) s.jobs;
      })).1,
    )

-- Whether the context is canceled at its k-th call, if it is called, and the number of the next call.
abbrev pub ask : Bool → Context → ℕ → Bool × ℕ
ask true ctx k = (ctx k, suc k)
ask false ctx k = (false, k)

-- Where the loops ask the context around the job at index `i`: before a batch, at every 32nd job, and
-- after a batch.
abbrev pub starts_batch : ℕ → ℕ → Bool
starts_batch batch_size i = i % batch_size == 0

abbrev pub is_checked : ℕ → Bool
is_checked i = suc i % 32 == 0

abbrev pub ends_batch : ℕ → ℕ → List ReplayedJobState → Bool
ends_batch batch_size i rest = suc i % batch_size == 0 || length rest == 0

-- A round that may be canceled: the error, or the rest of the loop.
abbrev pub unless_canceled :
    Bool
    → Scheduler
    → (Option ReplayError × (List ℕ × Scheduler))
    → Option ReplayError × (List ℕ × Scheduler)
unless_canceled true s rest = (some context_error, ([], s))
unless_canceled false s rest = rest

-- What a later round finds is added to what this one found.
abbrev pub also_recovered :
    List ℕ → Option ReplayError × (List ℕ × Scheduler) → Option ReplayError × (List ℕ × Scheduler)
also_recovered found (e, (rest, s)) = (e, (found ++ rest, s))

-- The two loops of RecoverFromTransitions from the job at index `i` on. The k-th call of ctx.Err() is
-- the next one. `recoveredForResume` has the identifiers of the jobs that were put.
unfoldable pub recover_jobs :
    Decoder
    → ℕ
    → Context
    → (k i : ℕ) → List ReplayedJobState
    → Scheduler
    → Option ReplayError × (List ℕ × Scheduler)
recover_jobs decoder batch_size ctx k i [] s = (none, ([], s))
recover_jobs decoder batch_size ctx k i (r ∷ rs) s =
    let before = ask (starts_batch batch_size i) ctx k in
    let inside = ask (is_checked i) ctx before.1 in
    let (found, s') = recover_job decoder r s in
    let after = ask (ends_batch batch_size i rs) ctx inside.1 in
    unless_canceled (before.0 || inside.0) s (
      also_recovered found
        (unless_canceled after.0 s' (recover_jobs decoder batch_size ctx after.1 (suc i) rs s')))

-- A batch size that is not positive is 128.
abbrev pub batch_size_of : SchedulerConfig → ℕ
batch_size_of config =
    if pos_part config.recovery_batch_size == 0 then 128 else pos_part config.recovery_batch_size

-- Only an empty or pending task is safe.
abbrev pub is_safe_task : Task → Bool
is_safe_task task =
    not
      (not (same_state task.lifecycle_state empty) && not (same_state task.lifecycle_state pending))

abbrev pub are_safe_tasks : List Task → Bool
are_safe_tasks [] = true
are_safe_tasks (task ∷ tasks) = if not (is_safe_task task) then false else are_safe_tasks tasks

abbrev pub are_safe_stages : List Stage → Bool
are_safe_stages [] = true
are_safe_stages (stage ∷ stages) =
    if not (are_safe_tasks stage.tasks) then false else are_safe_stages stages

-- isSafeForQueuedResume of a job, stages and tasks that are not nil.
unfoldable pub is_safe_for_queued_resume : Job → Bool
is_safe_for_queued_resume job = are_safe_stages job.stages

-- One round of resumeRecoveredQueuedJobsLocked.
unfoldable pub resume_job : ℕ → Option Job → Scheduler → Scheduler
resume_job job_id none s = s
resume_job job_id (some job) s =
    if not (same_state job.lifecycle_state queued)
    then s
    else if not (is_safe_for_queued_resume job)
    then s
    else (enqueue_job_locked job_id s).1

unfoldable pub resume_recovered_queued_jobs_locked : List ℕ → Scheduler → Scheduler
resume_recovered_queued_jobs_locked [] s = s
resume_recovered_queued_jobs_locked (job_id ∷ recovered_jobs) s =
    resume_recovered_queued_jobs_locked recovered_jobs (resume_job job_id (lookup job_id s.jobs) s)

-- RecoverFromTransitions after the loops.
unfoldable pub finish_recovery :
    SchedulerConfig → Option ReplayError × (List ℕ × Scheduler) → Option ReplayError × Scheduler
finish_recovery config (some e, (recovered, s)) = (some e, s)
finish_recovery config (none, (recovered, s)) = (
  none,
  if config.enable_resume_recovered_queued_jobs
      then resume_recovered_queued_jobs_locked recovered s
      else s,
)

-- RecoverFromTransitions on what the replay of the store answers.
unfoldable pub recover_replayed :
    Decoder
    → SchedulerConfig
    → Context
    → Result ReplayError (List ReplayedJobState)
    → Scheduler
    → Option ReplayError × Scheduler
recover_replayed decoder config ctx (err e) s = (some e, s)
recover_replayed decoder config ctx (ok replayed) s =
    finish_recovery config (recover_jobs decoder (batch_size_of config) ctx 0 0 replayed s)

-- RecoverFromTransitions on the store that it finds.
unfoldable pub recover_from_store :
    Decoder
    → SchedulerConfig
    → (ℕ → Context)
    → (replay_ctx ctx : Context) → Option TransitionStore
    → Scheduler
    → Option ReplayError × Scheduler
recover_from_store decoder config inner replay_ctx ctx none s = (none, s)
recover_from_store decoder config inner replay_ctx ctx (some store) s =
    recover_replayed decoder config ctx (replay_state_from_store inner replay_ctx store) s

-- RecoverFromTransitions. `inner` and `replay_ctx` are the context as the replay asks it, and `ctx` as
-- the loops do.
unfoldable pub recover_from_transitions :
    Decoder
    → SchedulerConfig
    → (ℕ → Context)
    → (replay_ctx ctx : Context) → Scheduler
    → Option ReplayError × Scheduler
recover_from_transitions decoder config inner replay_ctx ctx s =
    recover_from_store decoder config inner replay_ctx ctx s.transition_store s
