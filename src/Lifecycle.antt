-- ===== src/Lifecycle.antt =====
-- pkg/scheduler/state_machine.go: the durable states, the transition tables and the records.
-- A string that the code only compares is a number, and the empty string is 0. A lifecycle state is
-- a Go string too: the declared constants are constructors, `empty` is "", and `other` is any other
-- string. Times are numbers, and the zero time is 0.
pub mod Graph
pub mod Validation
use dagens_public.Prelude.{
  ℕ, ◌≡◌, refl, ◌↔◌, Bool, true, false, not, ◌&&◌, ◌||◌, Option, none, some, arith, ◌==◌,
  if◌then◌else◌,
}

-- The strings of JobLifecycleState and TaskLifecycleState; RUNNING, SUCCEEDED and FAILED are shared.
pub data State : Type 0 where
  empty submitted queued running awaiting_human succeeded failed canceled pending dispatched : State
  other : ℕ → State

pub data EntityType : Type 0 where
  job_entity task_entity : EntityType
  other_entity : ℕ → EntityType

pub data TransitionType : Type 0 where
  unset job_submitted job_queued job_running job_awaiting_human : TransitionType
  job_resumed job_succeeded job_failed job_canceled : TransitionType
  task_created task_dispatched task_running task_succeeded task_failed : TransitionType
  other_transition : ℕ → TransitionType

-- `==` on two state strings.
unfoldable pub same_state : State → State → Bool
same_state empty empty = true
same_state submitted submitted = true
same_state queued queued = true
same_state running running = true
same_state awaiting_human awaiting_human = true
same_state succeeded succeeded = true
same_state failed failed = true
same_state canceled canceled = true
same_state pending pending = true
same_state dispatched dispatched = true
same_state (other m) (other n) = m == n
same_state _ _ = false

pub record DurableJobRecord : Type 0 where
  pub job_id : ℕ
  pub name : ℕ
  pub current_state : State
  pub last_sequence_id : ℕ
  pub created_at : ℕ
  pub updated_at : ℕ

pub record DurableTaskRecord : Type 0 where
  pub task_id : ℕ
  pub job_id : ℕ
  pub stage_id : ℕ
  pub node_id : ℕ
  pub agent_id : ℕ
  pub agent_name : ℕ
  pub input_json : ℕ
  pub partition_key : ℕ
  pub current_state : State
  pub last_attempt : ℕ
  pub updated_at : ℕ

pub record TransitionRecord : Type 0 where
  pub sequence_id : ℕ
  pub entity_type : EntityType
  pub transition : TransitionType
  pub job_id : ℕ
  pub task_id : ℕ
  pub previous_state : State
  pub new_state : State
  pub node_id : ℕ
  pub attempt : ℕ
  pub error_summary : ℕ
  pub occurred_at : ℕ

pub record TaskDispatchClaim : Type 0 where
  pub task_id : ℕ
  pub job_id : ℕ
  pub stage_id : ℕ
  pub node_id : ℕ
  pub attempt : ℕ
  pub updated_at : ℕ

-- The table validJobTransitions; `none` is a state with no row.
unfoldable pub valid_job_transitions : State → Option (State → Bool)
valid_job_transitions submitted = some (λ t. same_state t queued)
valid_job_transitions queued =
    some (λ t. same_state t running || same_state t failed || same_state t canceled)
valid_job_transitions running = some λ t.
    same_state t awaiting_human
    || same_state t succeeded
    || same_state t failed
    || same_state t canceled
valid_job_transitions awaiting_human =
    some (λ t. same_state t running || same_state t failed || same_state t canceled)
valid_job_transitions succeeded = some (λ t. false)
valid_job_transitions failed = some (λ t. false)
valid_job_transitions canceled = some (λ t. false)
valid_job_transitions _ = none

-- The table validTaskTransitions.
unfoldable pub valid_task_transitions : State → Option (State → Bool)
valid_task_transitions pending = some (λ t. same_state t dispatched || same_state t failed)
valid_task_transitions dispatched = some (λ t. same_state t running || same_state t failed)
valid_task_transitions running = some (λ t. same_state t succeeded || same_state t failed)
valid_task_transitions succeeded = some (λ t. false)
valid_task_transitions failed = some (λ t. false)
valid_task_transitions _ = none

-- A lookup in a table whose row may be missing.
abbrev in_row : Option (State → Bool) → State → Bool
in_row none to = false
in_row (some next) to = next to

unfoldable pub can_transition_job_state : State → State → Bool
unfolding same_state valid_job_transitions
can_transition_job_state from to =
    if same_state from to then true else in_row (valid_job_transitions from) to

unfoldable pub can_transition_task_state : State → State → Bool
unfolding same_state valid_task_transitions
can_transition_task_state from to =
    if same_state from to then true else in_row (valid_task_transitions from) to

unfoldable pub is_terminal_job_state : State → Bool
is_terminal_job_state succeeded = true
is_terminal_job_state failed = true
is_terminal_job_state canceled = true
is_terminal_job_state _ = false

unfoldable pub is_terminal_task_state : State → Bool
is_terminal_task_state succeeded = true
is_terminal_task_state failed = true
is_terminal_task_state _ = false

unfoldable pub is_valid_job_lifecycle_state : State → Bool
is_valid_job_lifecycle_state submitted = true
is_valid_job_lifecycle_state queued = true
is_valid_job_lifecycle_state running = true
is_valid_job_lifecycle_state awaiting_human = true
is_valid_job_lifecycle_state succeeded = true
is_valid_job_lifecycle_state failed = true
is_valid_job_lifecycle_state canceled = true
is_valid_job_lifecycle_state _ = false

unfoldable pub is_valid_task_lifecycle_state : State → Bool
is_valid_task_lifecycle_state pending = true
is_valid_task_lifecycle_state dispatched = true
is_valid_task_lifecycle_state running = true
is_valid_task_lifecycle_state succeeded = true
is_valid_task_lifecycle_state failed = true
is_valid_task_lifecycle_state _ = false

-- The errors of Validate, in the order of its checks.
pub data InvalidRecord : Type 0 where
  sequence_id_zero job_id_unset transition_unset new_state_unset occurred_at_unset : InvalidRecord
  invalid_entity_type : EntityType → InvalidRecord
  task_id_set task_id_unset : InvalidRecord
  invalid_new_state invalid_previous_state previous_state_required : State → InvalidRecord

abbrev is_unset : TransitionType → Bool
is_unset unset = true
is_unset _ = false

validate_job : TransitionRecord → Option InvalidRecord
unfolding same_state is_valid_job_lifecycle_state
validate_job r =
    if not (r.task_id == 0)
    then some task_id_set
    else if not (is_valid_job_lifecycle_state r.new_state)
    then some (invalid_new_state r.new_state)
    else if not (same_state r.previous_state empty)
        && not (is_valid_job_lifecycle_state r.previous_state)
    then some (invalid_previous_state r.previous_state)
    else if same_state r.previous_state empty && not (same_state r.new_state submitted)
    then some (previous_state_required r.new_state)
    else none

validate_task : TransitionRecord → Option InvalidRecord
unfolding same_state is_valid_task_lifecycle_state
validate_task r =
    if r.task_id == 0
    then some task_id_unset
    else if not (is_valid_task_lifecycle_state r.new_state)
    then some (invalid_new_state r.new_state)
    else if not (same_state r.previous_state empty)
        && not (is_valid_task_lifecycle_state r.previous_state)
    then some (invalid_previous_state r.previous_state)
    else if same_state r.previous_state empty && not (same_state r.new_state pending)
    then some (previous_state_required r.new_state)
    else none

-- The `switch` on the entity type that ends Validate, and its earlier check of that type.
validate_entity : EntityType → TransitionRecord → Option InvalidRecord
unfolding validate_job validate_task
validate_entity job_entity r = validate_job r
validate_entity task_entity r = validate_task r
validate_entity (other_entity n) r = none

abbrev unknown_entity : EntityType → Bool
unknown_entity (other_entity n) = true
unknown_entity _ = false

-- TransitionRecord.Validate: `none` is the nil error.
unfoldable pub validate : TransitionRecord → Option InvalidRecord
unfolding validate_entity same_state
validate r =
    if r.sequence_id == 0
    then some sequence_id_zero
    else if r.job_id == 0
    then some job_id_unset
    else if unknown_entity r.entity_type
    then some (invalid_entity_type r.entity_type)
    else if is_unset r.transition
    then some transition_unset
    else if same_state r.new_state empty
    then some new_state_unset
    else if r.occurred_at == 0
    then some occurred_at_unset
    else validate_entity r.entity_type r
