-- ===== src/Dispatch.antt =====
-- The dispatch of one task in pkg/scheduler/scheduler.go: claimTaskDispatchTransition, executeTask and
-- executeTaskWithRetry. The executor, the leadership authority, the clock, the contexts of the writes
-- and the texts of errors are those of an Environment.
pub mod Claim
pub mod Retry
pub mod Counting
pub mod FirstDispatch
pub mod Sync
pub mod Slots
use dagens_public.Prelude.{
  ℕ, suc, ◌+◌, Bool, true, false, not, Option, none, some, List, ◌==◌, if◌then◌else◌,
}
use dagens_public.Prelude.Results.{Result, ok, err, ◌>>=◌}
use dagens_public.Lifecycle.{
  State, empty, pending, dispatched, running, succeeded, failed, same_state, task_entity,
  task_dispatched, task_running, task_succeeded, task_failed, DurableJobRecord, TransitionRecord,
  TaskDispatchClaim, can_transition_task_state,
}
use dagens_public.Store.{
  TransitionStore, StoreError, claim_rejected, append_transition, upsert_job, claim_task_dispatch,
}
use dagens_public.Scheduler.{
  Task, job_running, job_completed, job_failed, job_blocked, Scheduler, Codec, next_sequence_id,
  durable_job_snapshot,
}
use dagens_public.Scheduler.Writer.{
  persist_transition_write, upsert_snapshot, record_task_transition,
  record_job_running_on_first_dispatch,
}
use dagens_public.Nodes.{Nodes, reserve_node_slot, release_node_slot, mark_dispatch_cooldown}
use dagens_public.Nodes.Affinity.{select_node_for_task}

pub data DispatchError : Type 0 where
  dispatch_claim_rejected no_worker_capacity stale_dispatch_authority : DispatchError
  persist_failed : StoreError → DispatchError
  authority_failed policy_violation execution_failed : ℕ → DispatchError

pub record Authority : Type 0 where
  pub is_leader : Bool

-- `done attempt i` is whether the context of the i-th kind of write of the attempt is canceled.
-- `execute attempt node agent_name input` is the executor's answer, whose error is a policy violation
-- or any other text. `mentions_capacity` is strings.Contains(strings.ToLower(err.Error()), "capacity").
pub record Environment : Type 0 where
  pub codec : Codec
  pub now : ℕ → ℕ
  pub done : ℕ → ℕ → Bool
  pub dispatch_authority : ℕ → Result ℕ Authority
  pub execute : ℕ → ℕ → ℕ → Option ℕ → Result DispatchError (Option ℕ)
  pub error_text : DispatchError → ℕ
  pub mentions_capacity : DispatchError → Bool

unfoldable pub claim_record : ℕ → ℕ → Task → State → ℕ → ℕ → TransitionRecord
claim_record now seq task previous node_id attempt = record {
  sequence_id = seq;
  entity_type = task_entity;
  transition = task_dispatched;
  job_id = task.job_id;
  task_id = task.id;
  previous_state = previous;
  new_state = dispatched;
  node_id = node_id;
  attempt = attempt;
  error_summary = 0;
  occurred_at = now;
}

unfoldable pub dispatch_claim : ℕ → Task → ℕ → ℕ → TaskDispatchClaim
dispatch_claim now task node_id attempt = record {
  task_id = task.id;
  job_id = task.job_id;
  stage_id = task.stage_id;
  node_id = node_id;
  attempt = attempt;
  updated_at = now;
}

write_claimed :
    TransitionRecord
    → Option DurableJobRecord
    → Bool × TransitionStore
    → Result StoreError TransitionStore
write_claimed r snapshot (false, tx) = err claim_rejected
write_claimed r snapshot (true, tx) =
    append_transition r tx >>= λ tx'. ok (upsert_snapshot snapshot tx')

-- The callback of the write: the in-memory store supports claims.
unfoldable pub write_claim :
    TaskDispatchClaim
    → TransitionRecord
    → Option DurableJobRecord
    → TransitionStore
    → Result StoreError TransitionStore
unfolding write_claimed
write_claim c r snapshot tx = write_claimed r snapshot (claim_task_dispatch c tx)

-- What the claim does with the outcome of its write.
unfoldable pub settle_claim :
    Codec
    → Bool
    → ℕ
    → Task
    → Scheduler × Option StoreError
    → Option DispatchError × Scheduler × Task
settle_claim codec done now task (s, some claim_rejected) = (some dispatch_claim_rejected, s, task)
settle_claim codec done now task (s, some e) = (some (persist_failed e), s, task)
settle_claim codec done now task (s, none) =
    let task' = record task { lifecycle_state = dispatched } in
    (none, record_job_running_on_first_dispatch codec done now task' s, task')

abbrev pub state_before_claim : Task → State
state_before_claim task =
    if same_state task.lifecycle_state empty then pending else task.lifecycle_state

unfoldable pub claim_stored :
    Codec → Bool → Bool → ℕ → Task → ℕ → ℕ → Scheduler → Option DispatchError × Scheduler × Task
unfolding next_sequence_id
claim_stored codec done done' now task node_id attempt s =
    if not (can_transition_task_state (state_before_claim task) dispatched)
    then (some dispatch_claim_rejected, s, task)
    else let (seq, s') = next_sequence_id task.job_id s in
      settle_claim codec done' now task (
        persist_transition_write done
          (write_claim (dispatch_claim now task node_id attempt)
            (claim_record now seq task (state_before_claim task) node_id attempt)
            (durable_job_snapshot task.job_id seq now s'))
          s')

-- claimTaskDispatchTransition. `done` is the context of the claim's write and `done'` that of the
-- job's.
unfoldable pub claim_task_dispatch_transition :
    Codec → Bool → Bool → ℕ → Task → ℕ → ℕ → Scheduler → Option DispatchError × Scheduler × Task
claim_task_dispatch_transition codec done done' now task node_id attempt s =
    if task.job_id == 0
    then (none, s, record task { lifecycle_state = dispatched })
    else elim s.transition_store [
      | none ↦ (none, s, record task { lifecycle_state = dispatched })
      | some store ↦ claim_stored codec done done' now task node_id attempt s
    ]

-- The scheduler, the nodes and the task during a dispatch.
pub record Dispatch : Type 0 where
  pub scheduler : Scheduler
  pub nodes : Nodes
  pub task : Task

-- recordTaskTransition on the task of the dispatch, with the attempt that the task carries.
unfoldable pub mark_task :
    (Codec → Bool → ℕ → Task → Scheduler → Scheduler × Task)
    → Environment
    → ℕ
    → ℕ
    → Dispatch
    → Dispatch
mark_task write env attempt i d =
    let (s, task) = write env.codec (env.done attempt i) (env.now attempt) d.task d.scheduler in
    record d { scheduler = s; task = task }

-- executeTask after the executor has answered.
unfoldable pub settle_execution :
    Environment
    → ℕ
    → ℕ
    → Result DispatchError (Option ℕ)
    → Dispatch
    → Option DispatchError × Dispatch
settle_execution env attempt node_id (ok output) d = (
  none,
  mark_task
      (λ codec done now task.
        record_task_transition codec done now task task_succeeded succeeded node_id task.attempts 0)
      env attempt 3 (record d { task = record d.task { output = output; status = job_completed } }),
)
settle_execution env attempt node_id (err (policy_violation reason)) d =
    (some (policy_violation reason), record d { task = record d.task { status = job_blocked } })
settle_execution env attempt node_id (err e) d = (
  some (execution_failed (env.error_text e)),
  mark_task
      (λ codec done now task.
        record_task_transition codec done now task task_failed failed node_id task.attempts
          (env.error_text e))
      env attempt 3
      (record d {
        task = record d.task { status = job_failed };
        nodes =
            if env.mentions_capacity e
            then mark_dispatch_cooldown node_id (env.now attempt) d.nodes
            else d.nodes;
      }),
)

unfoldable pub authorized :
    Environment → ℕ → ℕ → Result ℕ Authority → Dispatch → Option DispatchError × Dispatch
authorized env attempt node_id (err e) d = (some (authority_failed e), d)
authorized env attempt node_id (ok authority) d =
    if not authority.is_leader
    then (some stale_dispatch_authority, d)
    else settle_execution env attempt node_id
        (env.execute attempt node_id d.task.agent_name d.task.input) d

unfoldable pub execute_task : Environment → ℕ → ℕ → Dispatch → Option DispatchError × Dispatch
unfolding authorized
execute_task env attempt node_id d =
    authorized env attempt node_id (env.dispatch_authority attempt) (
      mark_task
        (λ codec done now task.
          record_task_transition codec done now task task_running running node_id task.attempts 0)
        env attempt 2 (record d { task = record d.task { status = job_running } }))
