-- ===== src/Scheduler/Writer.antt =====
-- The transition writers of pkg/scheduler/scheduler.go, over the in-memory store. `done` is whether
-- the context of the write is already canceled, and `now` is the time of the call. The call returns
-- nothing to its caller in Go: a refused or failed write is only logged.
pub mod Extend
pub mod Synced
pub mod JobWrite
pub mod TaskWrite
pub mod View
pub mod Run
pub mod Queue
use dagens_public.Prelude.{ℕ, Bool, true, false, not, ◌&&◌, Option, none, some, ◌==◌, if◌then◌else◌}
use dagens_public.Prelude.Maps.{lookup, insert}
use dagens_public.Prelude.Results.{Result, ok, err, ◌>>=◌}
use dagens_public.Lifecycle.{
  State, empty, submitted, queued, running, awaiting_human, pending, dispatched, same_state,
  job_entity, task_entity, TransitionType, job_queued, job_running, job_resumed, task_dispatched,
  DurableJobRecord, DurableTaskRecord, TransitionRecord, TaskDispatchClaim,
  can_transition_job_state, can_transition_task_state,
}
use dagens_public.Store.{
  TransitionStore, StoreError, claim_rejected, append_transition, upsert_job, upsert_task, with_tx,
  claim_task_dispatch,
}
use dagens_public.Scheduler.{Task, Job, Scheduler, Codec, next_sequence_id, durable_job_snapshot}

-- persistTransitionWrite on a scheduler whose store is `store`; the store may be nil.
unfoldable pub persist_transition_write :
    Bool
    → (TransitionStore → Result StoreError TransitionStore)
    → Scheduler
    → Scheduler × Option StoreError
persist_transition_write done fn s = elim s.transition_store [
  | none ↦ (s, none)
  | some store ↦
      let (store', e) = with_tx done fn store in (record s { transition_store = some store' }, e)
]

unfoldable pub job_record : Codec → ℕ → ℕ → Job → TransitionType → State → ℕ → TransitionRecord
job_record codec now seq job transition new_state error_summary = record {
  sequence_id = seq;
  entity_type = job_entity;
  transition = transition;
  job_id = job.id;
  task_id = 0;
  previous_state = job.lifecycle_state;
  new_state = new_state;
  node_id = 0;
  attempt = 0;
  error_summary = codec.normalize_error error_summary;
  occurred_at = now;
}

unfoldable pub job_row : ℕ → ℕ → Job → State → DurableJobRecord
job_row now seq job new_state = record {
  job_id = job.id;
  name = job.name;
  current_state = new_state;
  last_sequence_id = seq;
  created_at = job.created_at;
  updated_at = now;
}

unfoldable pub write_job :
    TransitionRecord → DurableJobRecord → TransitionStore → Result StoreError TransitionStore
write_job r row tx = append_transition r tx >>= λ tx'. ok (upsert_job row tx')

-- The guards of recordJobTransition: a legal move, or the initial record where nothing is known.
unfoldable pub may_record_job : State → State → Bool
may_record_job previous new_state =
    if same_state previous empty
    then same_state new_state submitted
    else can_transition_job_state previous new_state

-- The state of the job in memory follows the write only if it was persisted.
unfoldable pub settle_job : Job → State → Scheduler × Option StoreError → Scheduler
settle_job job new_state (s, some e) = s
settle_job job new_state (s, none) = record s {
  jobs = insert job.id (record job { lifecycle_state = new_state }) s.jobs;
}

unfoldable pub record_job :
    Codec → Bool → ℕ → Job → TransitionType → State → ℕ → Scheduler → Scheduler
unfolding settle_job next_sequence_id
record_job codec done now job transition new_state error_summary s =
    if not (may_record_job job.lifecycle_state new_state)
    then s
    else let (seq, s') = next_sequence_id job.id s in
      settle_job job new_state (
        persist_transition_write done
          (write_job (job_record codec now seq job transition new_state error_summary)
            (job_row now seq job new_state))
          s')

on_job : Option TransitionStore → Option Job → (Job → Scheduler → Scheduler) → Scheduler → Scheduler
on_job none job f s = s
on_job (some store) none f s = s
on_job (some store) (some job) f s = f job s

-- recordJobTransition: nothing without a store or a job.
unfoldable pub record_job_transition :
    Codec → Bool → ℕ → ℕ → TransitionType → State → ℕ → Scheduler → Scheduler
unfolding on_job
record_job_transition codec done now job_id transition new_state error_summary s =
    on_job s.transition_store (lookup job_id s.jobs)
      (λ job. record_job codec done now job transition new_state error_summary) s

unfoldable pub task_record :
    Codec → ℕ → ℕ → Task → TransitionType → State → State → ℕ → ℕ → ℕ → TransitionRecord
task_record codec now seq task transition previous new_state node_id attempt error_summary =
    record {
      sequence_id = seq;
      entity_type = task_entity;
      transition = transition;
      job_id = task.job_id;
      task_id = task.id;
      previous_state = previous;
      new_state = new_state;
      node_id = node_id;
      attempt = attempt;
      error_summary = codec.normalize_error error_summary;
      occurred_at = now;
    }

unfoldable pub task_row : Codec → ℕ → Task → State → ℕ → ℕ → DurableTaskRecord
task_row codec now task new_state node_id attempt = record {
  task_id = task.id;
  job_id = task.job_id;
  stage_id = task.stage_id;
  node_id = node_id;
  agent_id = task.agent_id;
  agent_name = task.agent_name;
  input_json = codec.marshal_input task.input;
  partition_key = task.partition_key;
  current_state = new_state;
  last_attempt = attempt;
  updated_at = now;
}

-- The job snapshot goes last, if there is one.
abbrev pub upsert_snapshot : Option DurableJobRecord → TransitionStore → TransitionStore
upsert_snapshot none tx = tx
upsert_snapshot (some row) tx = upsert_job row tx

unfoldable pub write_task :
    TransitionRecord
    → DurableTaskRecord
    → Option DurableJobRecord
    → TransitionStore
    → Result StoreError TransitionStore
write_task r row snapshot tx =
    append_transition r tx >>= λ tx'. ok (upsert_snapshot snapshot (upsert_task row tx'))

unfoldable pub may_record_task : State → State → Bool
may_record_task previous new_state =
    if same_state previous empty
    then same_state new_state pending
    else can_transition_task_state previous new_state

unfoldable pub settle_task : Task → State → Scheduler × Option StoreError → Scheduler × Task
settle_task task new_state (s, some e) = (s, task)
settle_task task new_state (s, none) = (s, record task { lifecycle_state = new_state })

unfoldable pub record_task :
    Codec → Bool → ℕ → Task → TransitionType → State → ℕ → ℕ → ℕ → Scheduler → Scheduler × Task
unfolding settle_task next_sequence_id
record_task codec done now task transition new_state node_id attempt error_summary s =
    if not (may_record_task task.lifecycle_state new_state)
    then (s, task)
    else let (seq, s') = next_sequence_id task.job_id s in
      settle_task task new_state (
        persist_transition_write done
          (write_task
            (task_record codec now seq task transition task.lifecycle_state new_state node_id
              attempt error_summary)
            (task_row codec now task new_state node_id attempt)
            (durable_job_snapshot task.job_id seq now s'))
          s')

-- recordTaskTransition: the task as the call leaves it, beside the scheduler.
unfoldable pub record_task_transition :
    Codec → Bool → ℕ → Task → TransitionType → State → ℕ → ℕ → ℕ → Scheduler → Scheduler × Task
record_task_transition codec done now task transition new_state node_id attempt error_summary s =
    elim s.transition_store [
      | none ↦ (s, task)
      | some store ↦
          record_task codec done now task transition new_state node_id attempt error_summary s
    ]

-- The job has been seen to run: recordJobRunningOnFirstDispatch. The three contexts and times are
-- those of its one or two writes.
unfoldable pub running_on_first_dispatch : Codec → Bool → ℕ → ℕ → Option Job → Scheduler → Scheduler
running_on_first_dispatch codec done now job_id none s = s
running_on_first_dispatch codec done now job_id (some job) s =
    if same_state job.lifecycle_state submitted
    then record_job_transition codec done now job_id job_running running 0
        (record_job_transition codec done now job_id job_queued queued 0 s)
    else if same_state job.lifecycle_state queued
    then record_job_transition codec done now job_id job_running running 0 s
    else if same_state job.lifecycle_state awaiting_human
    then record_job_transition codec done now job_id job_resumed running 0 s
    else s

unfoldable pub record_job_running_on_first_dispatch :
    Codec → Bool → ℕ → Task → Scheduler → Scheduler
unfolding running_on_first_dispatch
record_job_running_on_first_dispatch codec done now task s =
    if task.job_id == 0
    then s
    else running_on_first_dispatch codec done now task.job_id (lookup task.job_id s.jobs) s
