-- ===== src/Reconcile/Ready.antt =====
-- The test of the execution fields in pkg/scheduler/recovery.go, as what the fields must be.
use dagens_public.Prelude.{
  ℕ, ◌≡◌, ◌≢◌, refl, Bool, true, false, Option, none, some, List, [], ◌∷◌, arith, All,
}
use dagens_public.Scheduler.{Task, Stage, Job}
use dagens_public.Reconcile.{
  lacks_fields, missing_in_tasks, missing_in_stages, recovered_queued_missing_execution_field_count,
}

-- The fields that the execution of a task needs: the agent's identifier and name, an input, and, where
-- stickiness is required, a partition key.
pub record HasFields (stickiness_required : Bool) (task : Task) : Type 0 where
  pub agent_id : task.agent_id ≢ 0
  pub agent_name : task.agent_name ≢ 0
  pub input : task.input ≢ none
  pub partition_key : stickiness_required ≡ true → task.partition_key ≢ 0

HasFields-of :
    (b : Bool) (task : Task) (input : Option ℕ)
    → task.input ≡ input
    → lacks_fields b task ≡ false
    → HasFields b task
HasFields-of b task none e h = absurd (ground arith)
HasFields-of b task (some x) e h = record {
  agent_id = λ z. ground arith;
  agent_name = λ z. ground arith;
  input = λ z. ground arith;
  partition_key = λ r z. ground arith;
}

tasks-HasFields :
    (b : Bool) (tasks : List Task) → missing_in_tasks b tasks ≡ 0 → All (HasFields b) tasks
tasks-HasFields b [] h = tt
tasks-HasFields b (task ∷ tasks) h =
    (HasFields-of b task task.input refl (ground arith), tasks-HasFields b tasks (ground arith))

stages-HasFields :
    (b : Bool) (stages : List Stage)
    → missing_in_stages b stages ≡ 0
    → All (λ stage. All (HasFields b) stage.tasks) stages
stages-HasFields b [] h = tt
stages-HasFields b (stage ∷ stages) h =
    (tasks-HasFields b stage.tasks (omega arith), stages-HasFields b stages (omega arith))

pub job-HasFields :
    (b : Bool) (job : Job)
    → recovered_queued_missing_execution_field_count job b ≡ 0
    → All (λ stage. All (HasFields b) stage.tasks) job.stages
unfolding recovered_queued_missing_execution_field_count
job-HasFields b job h = stages-HasFields b job.stages h
