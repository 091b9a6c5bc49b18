-- ===== src/Tests/Lifecycles.antt =====
-- The lifecycle graphs and Validate of pkg/scheduler/state_machine.go at concrete values.
use dagens_public.Prelude.{◌≡◌, ◌↔◌, ◌⊎◌, refl, true, false, none}
use dagens_public.Lifecycle.{
  queued, running, succeeded, awaiting_human, can_transition_job_state, is_terminal_job_state,
  is_valid_job_lifecycle_state, validate,
}
use dagens_public.Lifecycle.Graph.{
  JobEdge, JobPath, can_transition_job_state_iff, open_job_can_succeed,
}
use dagens_public.Lifecycle.Validation.{IsWellFormed, validate_iff}
use dagens_public.Tests.{first_record, second_record}

can_transition_job_state_iff_example :
    (can_transition_job_state queued running ≡ true) ↔ ((queued ≡ running) ⊎ JobEdge queued running)
can_transition_job_state_iff_example = can_transition_job_state_iff queued running

open_job_can_succeed_example : JobPath awaiting_human succeeded
unfolding is_valid_job_lifecycle_state is_terminal_job_state
open_job_can_succeed_example = open_job_can_succeed awaiting_human refl refl

validate_iff_example : (validate second_record ≡ none) ↔ IsWellFormed second_record
validate_iff_example = validate_iff second_record

first_is_valid : validate first_record ≡ none
unfolding validate
first_is_valid = refl

paused_job_does_not_succeed : can_transition_job_state awaiting_human succeeded ≡ false
unfolding can_transition_job_state
paused_job_does_not_succeed = refl
