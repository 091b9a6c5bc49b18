-- ===== src/Tests/Replays.antt =====
-- The replay of pkg/scheduler/replay.go at concrete logs.
use dagens_public.Prelude.{◌≡◌, ◌↔◌, ◌≤◌, refl, false, [], ◌∷◌, List}
use dagens_public.Prelude.Maps.{lookup, insert}
use dagens_public.Prelude.Results.{ok}
use dagens_public.Lifecycle.{TransitionRecord, empty, validate, can_transition_job_state}
use dagens_public.Replay.{
  Context, ReplayedJobState, replay_job_state_from_data, replay_record, apply_entity,
}
use dagens_public.Replay.Bound.{changes, changes-task_states}
use dagens_public.Replay.Chain.{task_states}
use dagens_public.Replay.Append.{IsLegalLog, replay_job_state_from_data_iff}
use dagens_public.Tests.{first_record, second_record, third_record, failed_row}

abbrev log : List TransitionRecord
log = first_record ∷ second_record ∷ third_record ∷ []

abbrev quiet : Context
quiet i = false

replay_job_state_from_data_iff_example :
    ((st : ReplayedJobState) × (replay_job_state_from_data quiet 1 log (failed_row ∷ []) ≡ ok st))
    ↔ IsLegalLog 1 log
replay_job_state_from_data_iff_example =
    replay_job_state_from_data_iff quiet 1 log (failed_row ∷ []) (λ i. refl)

replayed :
    (st : ReplayedJobState) × (replay_job_state_from_data quiet 1 log (failed_row ∷ []) ≡ ok st)
unfolding replay_job_state_from_data replay_record validate apply_entity lookup insert
    can_transition_job_state
replayed = (_, refl)

abbrev replayed_state : ReplayedJobState
replayed_state = replayed.0

changes-task_states_example : changes empty (task_states 7 log) ≤ 4
changes-task_states_example =
    changes-task_states quiet 1 7 log (failed_row ∷ []) replayed_state replayed.1
