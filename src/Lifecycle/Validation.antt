-- ===== src/Lifecycle/Validation.antt =====
-- TransitionRecord.Validate of pkg/scheduler/state_machine.go against its conditions.
use dagens_public.Prelude.{◌≡◌, refl, ◌≢◌, ◌↔◌, ◌⊎◌, true, false, none, ◌<◌, arith}
use dagens_public.Lifecycle.Graph.{same_state-eq}
use dagens_public.Lifecycle.{
  State, empty, submitted, pending, EntityType, job_entity, task_entity, other_entity,
  TransitionRecord, unset, validate, is_valid_job_lifecycle_state, is_valid_task_lifecycle_state,
  unknown_entity, validate_job, validate_task, validate_entity,
}

-- What a record of a job or a task transition must satisfy.
pub record EntityWellFormed (r : TransitionRecord) (initial : State) (valid : State → Type 0)
    : Type 0 where
  pub new_valid : valid r.new_state
  pub previous_valid : (r.previous_state ≡ empty) ⊎ valid r.previous_state
  pub initial_only : r.previous_state ≡ empty → r.new_state ≡ initial

abbrev pub IsEntityWellFormed : EntityType → TransitionRecord → Type 0
IsEntityWellFormed job_entity r =
    (r.task_id ≡ 0) × EntityWellFormed r submitted (λ s. is_valid_job_lifecycle_state s ≡ true)
IsEntityWellFormed task_entity r =
    (0 < r.task_id) × EntityWellFormed r pending (λ s. is_valid_task_lifecycle_state s ≡ true)
IsEntityWellFormed (other_entity n) r = ⊥

pub record IsWellFormed (r : TransitionRecord) : Type 0 where
  pub numbered : 0 < r.sequence_id
  pub owned : 0 < r.job_id
  pub named : r.transition ≢ unset
  pub dated : 0 < r.occurred_at
  pub entity : IsEntityWellFormed r.entity_type r

abbrev JobOk : TransitionRecord → Type 0
JobOk = IsEntityWellFormed job_entity

validate_job_sound : (r : TransitionRecord) → validate_job r ≡ none → JobOk r
unfolding validate_job
validate_job_sound r h = (
  ground arith,
  record {
    new_valid = ground arith;
    previous_valid = ground (arith, same_state-eq r.previous_state empty);
    initial_only = λ e. ground (arith, same_state-eq r.new_state submitted);
  },
)

validate_job_complete : (r : TransitionRecord) → JobOk r → validate_job r ≡ none
unfolding validate_job
validate_job_complete r (t, w) = ground (arith, w)

abbrev TaskOk : TransitionRecord → Type 0
TaskOk = IsEntityWellFormed task_entity

validate_task_sound : (r : TransitionRecord) → validate_task r ≡ none → TaskOk r
unfolding validate_task
validate_task_sound r h = (
  ground arith,
  record {
    new_valid = ground arith;
    previous_valid = ground (arith, same_state-eq r.previous_state empty);
    initial_only = λ e. ground (arith, same_state-eq r.new_state pending);
  },
)

validate_task_complete : (r : TransitionRecord) → TaskOk r → validate_task r ≡ none
unfolding validate_task
validate_task_complete r (t, w) = ground (arith, w)

entity_sound :
    (e : EntityType) (r : TransitionRecord)
    → unknown_entity e ≡ false
    → validate_entity e r ≡ none
    → IsEntityWellFormed e r
unfolding validate_entity
entity_sound job_entity r k h = validate_job_sound r h
entity_sound task_entity r k h = validate_task_sound r h
entity_sound (other_entity n) r k h = cc

entity_complete :
    (e : EntityType) (r : TransitionRecord)
    → IsEntityWellFormed e r
    → (unknown_entity e ≡ false) × (validate_entity e r ≡ none) × (r.new_state ≢ empty)
unfolding validate_entity is_valid_job_lifecycle_state is_valid_task_lifecycle_state
entity_complete job_entity r w = (refl, validate_job_complete r w, λ e. ground (arith, w.1))
entity_complete task_entity r w = (refl, validate_task_complete r w, λ e. ground (arith, w.1))
entity_complete (other_entity n) r w = absurd w

-- Validate accepts a record exactly when its sequence number, job and time are set, its transition is
-- named, a job record has no task and a task record has one, the new state is one of the entity's
-- declared states, and the previous state is one too or is empty at the entity's initial state.
pub validate_iff : (r : TransitionRecord) → (validate r ≡ none) ↔ IsWellFormed r
unfolding validate
validate_iff r = (
  λ h. record {
    numbered = ground arith;
    owned = ground arith;
    named = λ e. ground arith;
    dated = ground arith;
    entity = entity_sound r.entity_type r (ground arith) (ground arith);
  },
  λ w. ground (arith, w, entity_complete r.entity_type r w.entity, same_state-eq r.new_state empty),
)
