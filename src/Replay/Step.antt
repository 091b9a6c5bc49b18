-- ===== src/Replay/Step.antt =====
-- One round of the loop of replayJobStateFromData (pkg/scheduler/replay.go).
use dagens_public.Prelude.{
  ℕ, ◌≡◌, inl, inr, none, arith, Option-cases, Bool-cases, ◌==◌, ==_iff, ==_refl,
}
use dagens_public.Prelude.Maps.{lookup, insert, lookup-insert}
use dagens_public.Prelude.Results.{ok}
use dagens_public.Lifecycle.{
  empty, EntityType, job_entity, task_entity, other_entity, TransitionRecord, DurableTaskRecord,
  can_transition_job_state, can_transition_task_state, validate,
}
use dagens_public.Lifecycle.Graph.{same_state-eq, same_state_refl}
use dagens_public.Lifecycle.Validation.{validate_iff, IsEntityWellFormed}
use dagens_public.Replay.Chain.{Follows, job_part, task_part, task_state, StepOf, MayStep}
use dagens_public.Replay.{
  ReplayedJobState, task_or_zero, replay_record, apply_entity, apply_job, apply_task_row,
  replayed_task, replayed_job,
}

pub record Stepped (e : EntityType) (r : TransitionRecord) (st st' : ReplayedJobState)
    : Type 0 where
  pub job_step :
      StepOf can_transition_job_state st.job.current_state st'.job.current_state (job_part e r)
  pub task_step :
      (t : ℕ)
      → StepOf can_transition_task_state (task_state t st) (task_state t st') (task_part t e r)

apply_job_ok :
    (r : TransitionRecord) (st st' : ReplayedJobState)
    → apply_job r st ≡ ok st'
    → Stepped job_entity r st st'
unfolding apply_job
apply_job_ok r st st' h = record {
  job_step = (ground (arith, same_state-eq st.job.current_state empty), ground arith);
  task_step = λ t. ground arith;
}

apply_task_row_ok :
    (r : TransitionRecord) (st st' : ReplayedJobState)
    → apply_task_row r (task_or_zero (lookup r.task_id st.tasks)) st ≡ ok st'
    → Stepped task_entity r st st'
unfolding apply_task_row
apply_task_row_ok r st st' h = record {
  job_step = ground arith;
  task_step = λ t. elim (Bool-cases (r.task_id == t)) [
    | inl e ↦ rw e (
      ground (arith, same_state-eq (task_state r.task_id st) empty, (==_iff r.task_id t).0 e),
      ground (
        arith,
        lookup-insert r.task_id t (replayed_task r (task_or_zero (lookup r.task_id st.tasks)))
            st.tasks,
      ),
    )
    | inr e ↦ rw e (
        ground (
          arith,
          lookup-insert r.task_id t (replayed_task r (task_or_zero (lookup r.task_id st.tasks)))
              st.tasks,
        ))
  ];
}

apply_entity_ok :
    (e : EntityType) (r : TransitionRecord) (st st' : ReplayedJobState)
    → apply_entity e r st ≡ ok st'
    → Stepped e r st st'
unfolding apply_entity
apply_entity_ok job_entity r st st' h = apply_job_ok r st st' h
apply_entity_ok task_entity r st st' h = apply_task_row_ok r st st' h
apply_entity_ok (other_entity n) r st st' h = cc

-- A round that succeeds has a valid record of the job, which it applies.
pub replay_record_applies :
    (j : ℕ) (r : TransitionRecord) (st st' : ReplayedJobState)
    → replay_record j r st ≡ ok st'
    → (validate r ≡ none) × (r.job_id ≡ j) × (apply_entity r.entity_type r st ≡ ok st')
unfolding replay_record
replay_record_applies j r st st' h = elim (Option-cases (validate r)) [
  | inl e ↦ (e, ground arith, ground arith)
  | inr (x, e) ↦ absurd (ground arith)
]

pub replay_record_ok :
    (j : ℕ) (r : TransitionRecord) (st st' : ReplayedJobState)
    → replay_record j r st ≡ ok st'
    → (validate r ≡ none) × (r.job_id ≡ j) × Stepped r.entity_type r st st'
replay_record_ok j r st st' h =
    let (v, m, a) = replay_record_applies j r st st' h in
    (v, m, apply_entity_ok r.entity_type r st st' a)

apply_job_total :
    (r : TransitionRecord) (st : ReplayedJobState)
    → Follows can_transition_job_state st.job.current_state r.new_state
    → (st' : ReplayedJobState) × (apply_job r st ≡ ok st')
unfolding apply_job
apply_job_total r st f = (
  record st { job = replayed_job r st.job },
  elim f [ inl e ↦ ground (arith, e, same_state_refl empty) | inr c ↦ ground arith ],
)

apply_task_total :
    (r : TransitionRecord) (row : DurableTaskRecord) (st : ReplayedJobState)
    → Follows can_transition_task_state row.current_state r.new_state
    → (st' : ReplayedJobState) × (apply_task_row r row st ≡ ok st')
unfolding apply_task_row
apply_task_total r row st f = (
  record st { tasks = insert r.task_id (replayed_task r row) st.tasks },
  elim f [ inl e ↦ ground (arith, e, same_state_refl empty) | inr c ↦ ground arith ],
)

apply_entity_total :
    (e : EntityType) (r : TransitionRecord) (st : ReplayedJobState)
    → IsEntityWellFormed e r
    → MayStep can_transition_job_state st.job.current_state (job_part e r)
    → ((t : ℕ) → MayStep can_transition_task_state (task_state t st) (task_part t e r))
    → (st' : ReplayedJobState) × (apply_entity e r st ≡ ok st')
unfolding apply_entity
apply_entity_total job_entity r st w mj mt = apply_job_total r st mj
apply_entity_total task_entity r st w mj mt =
    apply_task_total r (task_or_zero (lookup r.task_id st.tasks)) st
      (rw (==_refl r.task_id) at (mt r.task_id))
apply_entity_total (other_entity n) r st w mj mt = absurd w

pub replay_record_total :
    (j : ℕ) (r : TransitionRecord) (st : ReplayedJobState)
    → validate r ≡ none
    → r.job_id ≡ j
    → MayStep can_transition_job_state st.job.current_state (job_part r.entity_type r)
    → ((t : ℕ) → MayStep can_transition_task_state (task_state t st) (task_part t r.entity_type r))
    → (st' : ReplayedJobState) × (replay_record j r st ≡ ok st')
unfolding replay_record
replay_record_total j r st v m mj mt =
    let (st', e) = apply_entity_total r.entity_type r st ((validate_iff r).0 v).entity mj mt in
    (st', ground arith)
