-- ===== src/Tests.antt =====
-- Runs on concrete values, and the theorems of the development at concrete inputs.
mod Lifecycles
mod Stores
mod Replays
mod Writers
mod Dispatches
mod Queues
mod Policies
mod Breakers
mod Configs
mod Recoveries
mod Reconciles
mod Limiters
mod Retriers
use dagens_public.Prelude.{ℕ, none, some, [], ◌∷◌, Option, List}
use dagens_public.Lifecycle.{
  State, TransitionRecord, TaskDispatchClaim, DurableTaskRecord, submitted, queued, empty, failed,
  dispatched, pending, job_entity, task_entity, job_submitted, job_queued, task_created,
  task_dispatched,
}
use dagens_public.Store.{TransitionStore}

abbrev pub first_record : TransitionRecord
first_record = record {
  sequence_id = 1;
  entity_type = job_entity;
  transition = job_submitted;
  job_id = 1;
  task_id = 0;
  previous_state = empty;
  new_state = submitted;
  node_id = 0;
  attempt = 0;
  error_summary = 0;
  occurred_at = 5;
}

abbrev pub second_record : TransitionRecord
second_record = record first_record {
  sequence_id = 2;
  entity_type = task_entity;
  transition = task_created;
  task_id = 7;
  new_state = pending;
}

abbrev pub third_record : TransitionRecord
third_record = record first_record {
  sequence_id = 3;
  transition = job_queued;
  previous_state = submitted;
  new_state = queued;
}

-- A task that failed at its first attempt.
abbrev pub failed_row : DurableTaskRecord
failed_row = record {
  task_id = 7;
  job_id = 1;
  stage_id = 2;
  node_id = 3;
  agent_id = 0;
  agent_name = 0;
  input_json = 0;
  partition_key = 0;
  current_state = failed;
  last_attempt = 1;
  updated_at = 4;
}

abbrev pub one_task : TransitionStore
one_task = record { transitions = []; jobs = []; tasks = (7, failed_row) ∷ [] }

abbrev pub claim_at : ℕ → TaskDispatchClaim
claim_at attempt = record {
  task_id = 7;
  job_id = 1;
  stage_id = 2;
  node_id = 4;
  attempt = attempt;
  updated_at = 6;
}
