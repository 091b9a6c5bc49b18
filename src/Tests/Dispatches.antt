-- ===== src/Tests/Dispatches.antt =====
-- The dispatch of pkg/scheduler/scheduler.go at concrete values.
use dagens_public.Prelude.{
  ◌≡◌, ℕ, refl, true, false, some, [], ◌∷◌, Option, ◌==◌, if◌then◌else◌, arith, ◌+◌,
}
use dagens_public.Prelude.Maps.{lookup, insert}
use dagens_public.Prelude.Results.{Result, ok, err}
use dagens_public.Lifecycle.{
  can_transition_task_state, validate, same_state, can_transition_job_state, is_terminal_task_state,
}
use dagens_public.Nodes.{
  AffinityEntry, Nodes, select_node_by_capacity, scan_nodes, scan_step, is_in_dispatch_cooldown,
  get_or_create_node_capacity, scan_node, is_capacity_fresh, default_capacity, start_scan,
  available_capacity, reserve_node_slot, release_node_slot, mark_dispatch_cooldown, select_among,
  select_single, choose, pick, AffinityEntry,
}
use dagens_public.Nodes.Best.{IsChoice, select_node_by_capacity-IsChoice}
use dagens_public.Nodes.Slots.{reserved}
use dagens_public.Scheduler.Writer.TaskWrite.{TaskKeeps}
use dagens_public.Dispatch.{
  DispatchError, execution_failed, Environment, Dispatch, claim_task_dispatch_transition,
  dispatch_claim_rejected, claim_stored, settle_claim, write_claim, dispatch_claim, claim_record,
  execute_task, authorized, mark_task, settle_execution,
}
use dagens_public.Dispatch.Claim.{claim_task_dispatch_transition-TaskKeeps}
use dagens_public.Dispatch.Retry.{
  retry_from, execute_task_with_retry, next_round, dispatch_attempt, claimed, executed, last_round,
}
use dagens_public.Dispatch.Slots.{execute_task_with_retry_slots}
use dagens_public.Tests.Writers.{codec, task, start, start-IsSynced, start-IsTaskSynced}
use dagens_public.Store.{
  new_store, with_tx, claim_task_dispatch, append_transition, upsert_job, upsert_task,
}
use dagens_public.Scheduler.Writer.{
  persist_transition_write, record_job_running_on_first_dispatch, record_job_transition, record_job,
  may_record_job, write_job, job_record, job_row, record_task_transition, record_task,
  may_record_task, settle_task, write_task, task_record, task_row, settle_job,
}
use dagens_public.Scheduler.{new_job, next_sequence_id, durable_job_snapshot}
use dagens_public.Nodes.Affinity.{
  is_healthy, affinity_get, select_node_for_task, select_free, select_sticky, select_miss,
  affinity_set,
}
use dagens_public.Prelude.Sort.{sort_by, insert_sorted}
use dagens_public.Dispatch.Sync.{IsReady, rounds, execute_task_with_retry-TaskKeeps}
use dagens_public.Nodes.Sticky.{select_node_for_task-Bound}

-- An executor that is at capacity at the first attempt, and has room at every other.
execute_later : ℕ → ℕ → ℕ → Option ℕ → Result DispatchError (Option ℕ)
execute_later attempt node agent input =
    if attempt == 1 then err (execution_failed 8) else ok (some 5)

abbrev env : Environment
env = record {
  codec = codec;
  now = λ attempt. 10 + attempt;
  done = λ attempt i. false;
  dispatch_authority = λ attempt. ok (record { is_leader = true });
  execute = execute_later;
  error_text = λ e. 8;
  mentions_capacity = λ e. true;
}

abbrev nodes : Nodes
nodes = record {
  config = record {
    default_worker_max_concurrency = 2;
    max_worker_concurrency_cap = 8;
    capacity_ttl = 100;
    dispatch_reject_cooldown = 3;
    affinity_ttl = 50;
    enable_stickiness = false;
  };
  capacities = [];
  dispatch_cooldowns = [];
  node_index = 0;
  affinity = [];
}

abbrev begin : Dispatch
begin = record { scheduler = start; nodes = nodes; task = task }

claim_task_dispatch_transition-TaskKeeps_example :
    TaskKeeps task start
      (claim_task_dispatch_transition codec false false 6 task 3 1 start).2
      (claim_task_dispatch_transition codec false false 6 task 3 1 start).1
unfolding lookup
claim_task_dispatch_transition-TaskKeeps_example =
    claim_task_dispatch_transition-TaskKeeps codec false false 6 task 3 1 start start-IsSynced
      (omega arith) start-IsTaskSynced (λ e. ground arith)

execute_task_with_retry_slots_example :
    reserved 3 (execute_task_with_retry env (3 ∷ 4 ∷ []) 3 3 begin).1.nodes ≡ reserved 3 nodes
execute_task_with_retry_slots_example = execute_task_with_retry_slots env (3 ∷ 4 ∷ []) 3 3 begin 3

selected : (select_node_by_capacity 9 (3 ∷ 4 ∷ []) nodes).0 ≡ some 3
unfolding select_node_by_capacity scan_nodes scan_step is_in_dispatch_cooldown lookup
    get_or_create_node_capacity scan_node is_capacity_fresh insert default_capacity start_scan
    available_capacity
selected = refl

select_node_by_capacity-IsChoice_example : IsChoice 9 (3 ∷ 4 ∷ []) nodes 3
select_node_by_capacity-IsChoice_example =
    select_node_by_capacity-IsChoice 9 (3 ∷ 4 ∷ []) nodes 3 selected

-- A capacity conflict at the first attempt ends the dispatch of a durable task: the executor would
-- have room at the second.
capacity_conflict_is_final :
    (execute_task_with_retry env (3 ∷ 4 ∷ []) 3 3 begin).0 ≡ some dispatch_claim_rejected
unfolding execute_task_with_retry retry_from next_round dispatch_attempt claimed executed
    claim_task_dispatch_transition claim_stored can_transition_task_state settle_claim
    persist_transition_write with_tx write_claim claim_task_dispatch dispatch_claim lookup insert
    new_store append_transition validate claim_record record_job_running_on_first_dispatch
    record_job_transition record_job may_record_job same_state can_transition_job_state write_job
    job_record job_row new_job upsert_job next_sequence_id durable_job_snapshot reserve_node_slot
    release_node_slot get_or_create_node_capacity execute_task authorized mark_task
    record_task_transition record_task may_record_task settle_task write_task task_record task_row
    upsert_task settle_execution mark_dispatch_cooldown select_node_for_task select_node_by_capacity
    select_free select_among select_single choose pick scan_nodes scan_step scan_node start_scan
    default_capacity is_in_dispatch_cooldown available_capacity is_capacity_fresh last_round
    settle_job execute_later is_terminal_task_state sort_by insert_sorted
capacity_conflict_is_final = refl

begin-IsReady : IsReady (rounds 2) begin
unfolding lookup
begin-IsReady = record {
  synced = start-IsSynced;
  task_synced = start-IsTaskSynced;
  has_job = λ e. ground arith;
  room = omega arith;
}

execute_task_with_retry-TaskKeeps_example :
    TaskKeeps task start
      (execute_task_with_retry env (3 ∷ 4 ∷ []) 3 3 begin).1.task
      (execute_task_with_retry env (3 ∷ 4 ∷ []) 3 3 begin).1.scheduler
execute_task_with_retry-TaskKeeps_example =
    execute_task_with_retry-TaskKeeps env (3 ∷ 4 ∷ []) 2 3 begin begin-IsReady

abbrev sticky : Nodes
sticky = record nodes { config = record nodes.config { enable_stickiness = true } }

sticky_selected : (select_node_for_task 9 (3 ∷ 4 ∷ []) 5 sticky).0 ≡ some 3
unfolding select_node_for_task select_sticky affinity_get select_miss select_free affinity_set
    select_node_by_capacity scan_nodes scan_step is_in_dispatch_cooldown lookup
    get_or_create_node_capacity scan_node is_capacity_fresh insert default_capacity start_scan
    available_capacity
sticky_selected = refl

select_node_for_task-Bound_example :
    (is_healthy 3 (3 ∷ 4 ∷ []) ≡ true)
    × ((entry : AffinityEntry) × (affinity_get 5 (select_node_for_task 9 (3 ∷ 4 ∷ []) 5 sticky).2
          ≡ some entry)
        × (entry.node_id ≡ 3))
select_node_for_task-Bound_example =
    select_node_for_task-Bound 9 (3 ∷ 4 ∷ []) 5 sticky 3 refl (λ e. ground arith) sticky_selected
