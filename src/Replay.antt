-- ===== src/Replay.antt =====
-- pkg/scheduler/replay.go: the view of a job rebuilt from its transition log. The k-th call of
-- ctx.Err() in a function is the k-th answer of its `Context`, true for an error.
pub mod Chain
pub mod Step
pub mod Legal
pub mod Append
pub mod Bound
pub mod Rows
pub mod Restart
pub mod Names
use dagens_public.Prelude.{
  ℕ, suc, Bool, true, false, not, ◌&&◌, Option, none, some, List, [], ◌∷◌, ltb, ◌==◌, if◌then◌else◌,
  max,
}
use dagens_public.Prelude.Maps.{Map, lookup, insert}
use dagens_public.Prelude.Results.{Result, ok, err, ◌>>=◌}
use dagens_public.Prelude.Sort.{sort_by}
use dagens_public.Lifecycle.{
  State, empty, EntityType, job_entity, task_entity, other_entity, same_state, InvalidRecord,
  DurableJobRecord, DurableTaskRecord, TransitionRecord, can_transition_job_state,
  can_transition_task_state, validate,
}
use dagens_public.Store.{
  TransitionStore, list_transitions_by_job, list_tasks_by_job, list_unfinished_jobs,
}

abbrev pub Context : Type 0
Context = ℕ → Bool

pub data ReplayError : Type 0 where
  context_error job_id_required : ReplayError
  invalid_transition : InvalidRecord → ReplayError
  wrong_job : ℕ → ReplayError
  illegal_job_transition illegal_task_transition : State → State → ReplayError
  unknown_entity_type : EntityType → ReplayError

pub record ReplayedJobState : Type 0 where
  pub job : DurableJobRecord
  pub tasks : Map DurableTaskRecord
  pub transitions : List TransitionRecord

-- The zero DurableTaskRecord, which a missing key of the map reads as.
abbrev pub no_task : DurableTaskRecord
no_task = record {
  task_id = 0;
  job_id = 0;
  stage_id = 0;
  node_id = 0;
  agent_id = 0;
  agent_name = 0;
  input_json = 0;
  partition_key = 0;
  current_state = empty;
  last_attempt = 0;
  updated_at = 0;
}

abbrev pub task_or_zero : Option DurableTaskRecord → DurableTaskRecord
task_or_zero none = no_task
task_or_zero (some task) = task

-- A durable task's payload, with the lifecycle fields left empty.
unfoldable pub seed_task : DurableTaskRecord → DurableTaskRecord
seed_task task = record task { current_state = empty; last_attempt = 0; updated_at = 0 }

unfoldable pub seed_tasks : List DurableTaskRecord → Map DurableTaskRecord → Map DurableTaskRecord
unfolding seed_task
seed_tasks [] m = m
seed_tasks (task ∷ rest) m = seed_tasks rest (insert task.task_id (seed_task task) m)

unfoldable pub start_replay : ℕ → List TransitionRecord → List DurableTaskRecord → ReplayedJobState
unfolding seed_tasks
start_replay job_id transitions durable_tasks = record {
  job = record {
    job_id = job_id;
    name = 0;
    current_state = empty;
    last_sequence_id = 0;
    created_at = 0;
    updated_at = 0;
  };
  tasks = seed_tasks durable_tasks [];
  transitions = transitions;
}

-- The job's row after a job record.
unfoldable pub replayed_job : TransitionRecord → DurableJobRecord → DurableJobRecord
replayed_job r job = record job {
  current_state = r.new_state;
  created_at = if job.created_at == 0 then r.occurred_at else job.created_at;
  updated_at = r.occurred_at;
}

-- The task's row after a task record.
unfoldable pub replayed_task : TransitionRecord → DurableTaskRecord → DurableTaskRecord
replayed_task r task = record task {
  task_id = r.task_id;
  job_id = r.job_id;
  node_id = r.node_id;
  current_state = r.new_state;
  last_attempt = if ltb task.last_attempt r.attempt then r.attempt else task.last_attempt;
  updated_at = r.occurred_at;
}

apply_job : TransitionRecord → ReplayedJobState → Result ReplayError ReplayedJobState
unfolding replayed_job
apply_job r st =
    if not (same_state st.job.current_state empty)
      && not (can_transition_job_state st.job.current_state r.new_state)
    then err (illegal_job_transition st.job.current_state r.new_state)
    else ok (record st { job = replayed_job r st.job })

apply_task_row :
    TransitionRecord → DurableTaskRecord → ReplayedJobState → Result ReplayError ReplayedJobState
unfolding replayed_task
apply_task_row r current st =
    if not (same_state current.current_state empty)
      && not (can_transition_task_state current.current_state r.new_state)
    then err (illegal_task_transition current.current_state r.new_state)
    else ok (record st { tasks = insert r.task_id (replayed_task r current) st.tasks })

-- The `switch` on the entity type.
unfoldable pub apply_entity :
    EntityType → TransitionRecord → ReplayedJobState → Result ReplayError ReplayedJobState
unfolding apply_job apply_task_row
apply_entity job_entity r st = apply_job r st
apply_entity task_entity r st = apply_task_row r (task_or_zero (lookup r.task_id st.tasks)) st
apply_entity (other_entity n) r st = err (unknown_entity_type (other_entity n))

check_valid :
    Option InvalidRecord
    → ℕ
    → TransitionRecord
    → ReplayedJobState
    → Result ReplayError ReplayedJobState
check_valid (some e) job_id r st = err (invalid_transition e)
check_valid none job_id r st =
    if not (r.job_id == job_id) then err (wrong_job r.job_id) else apply_entity r.entity_type r st

-- One round of the loop, after the context has been asked.
unfoldable pub replay_record :
    ℕ → TransitionRecord → ReplayedJobState → Result ReplayError ReplayedJobState
unfolding check_valid
replay_record job_id r st = check_valid (validate r) job_id r st

unfoldable pub replay_records :
    Context → ℕ → ℕ → List TransitionRecord → ReplayedJobState → Result ReplayError ReplayedJobState
replay_records ctx k job_id [] st = ok st
replay_records ctx k job_id (r ∷ rs) st = elim (ctx k) [
  | true ↦ err context_error
  | false ↦ replay_record job_id r st >>= replay_records ctx (suc k) job_id rs
]

unfoldable pub replay_job_state_from_data :
    Context
    → ℕ
    → List TransitionRecord
    → List DurableTaskRecord
    → Result ReplayError ReplayedJobState
unfolding start_replay replay_records
replay_job_state_from_data ctx job_id transitions durable_tasks =
    replay_records ctx 0 job_id transitions (start_replay job_id transitions durable_tasks)

-- ReplayJobState over the in-memory store, which also lists durable tasks.
unfoldable pub replay_job_state :
    Context → TransitionStore → ℕ → Result ReplayError ReplayedJobState
replay_job_state ctx s job_id =
    if job_id == 0
    then err job_id_required
    else replay_job_state_from_data ctx job_id (list_transitions_by_job job_id s)
        (list_tasks_by_job job_id s)

abbrev last_sequence : List TransitionRecord → ℕ → ℕ
last_sequence [] n = n
last_sequence (r ∷ rs) n = last_sequence rs r.sequence_id

-- What ReplayStateFromStore copies from the job's row.
unfoldable pub with_durable_job : DurableJobRecord → ReplayedJobState → ReplayedJobState
with_durable_job job st = record st {
  job = record j {
    name = job.name;
    last_sequence_id =
        if ltb job.last_sequence_id (last_sequence st.transitions 0)
        then last_sequence st.transitions 0
        else job.last_sequence_id;
    created_at = if j.created_at == 0 then job.created_at else j.created_at;
    updated_at = if j.updated_at == 0 then job.updated_at else j.updated_at;
  };
}
  where
    open st use {job as j}

replay_jobs :
    (ℕ → Context)
    → Context
    → ℕ
    → TransitionStore
    → List DurableJobRecord
    → Result ReplayError (List ReplayedJobState)
replay_jobs inner ctx k s [] = ok []
replay_jobs inner ctx k s (job ∷ jobs) = elim (ctx k) [
  | true ↦ err context_error
  | false ↦ replay_job_state (inner k) s job.job_id >>= λ st.
      replay_jobs inner ctx (suc k) s jobs >>= λ rest. ok (with_durable_job job st ∷ rest)
]

-- ReplayStateFromStore over the in-memory store, which has no batch lookup. The final sort is by
-- creation time and then by identifier. `inner k` is the context as the k-th job's replay sees it.
unfoldable pub replay_state_from_store :
    (ℕ → Context) → Context → TransitionStore → Result ReplayError (List ReplayedJobState)
unfolding replay_jobs
replay_state_from_store inner ctx s =
    replay_jobs inner ctx 0 s (list_unfinished_jobs s) >>= λ replayed.
    ok (sort_by (λ st. st.job.created_at) (sort_by (λ st. st.job.job_id) replayed))
