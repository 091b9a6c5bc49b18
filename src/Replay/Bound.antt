-- ===== src/Replay/Bound.antt =====
-- How often the log of a job that pkg/scheduler/replay.go replays changes the state of one task.
use dagens_public.Prelude.{
  ℕ, ◌+◌, ◌≤◌, ◌≡◌, sym, subst, false, inl, inr, List, [], ◌∷◌, arith, Bool-cases, if◌then◌else◌,
}
use dagens_public.Prelude.Results.{ok}
use dagens_public.Lifecycle.{
  State, empty, pending, dispatched, running, same_state, TransitionRecord, DurableTaskRecord,
  can_transition_task_state,
}
use dagens_public.Lifecycle.Graph.{same_state-eq}
use dagens_public.Replay.{Context, ReplayedJobState, replay_job_state_from_data}
use dagens_public.Replay.Chain.{Chain, Follows, task_states}
use dagens_public.Replay.Append.{replay_job_state_from_data_legal}

-- How many of the states differ from the one before them, the first from `s`.
abbrev pub changes : State → List State → ℕ
changes s [] = 0
changes s (t ∷ ts) = (if same_state s t then 0 else 1) + changes t ts

-- How many more changes a task in this state can make, where none is known to be empty.
moves_left : State → ℕ
moves_left empty = 4
moves_left pending = 3
moves_left dispatched = 2
moves_left running = 1
moves_left _ = 0

moves_left_drops :
    (s t : State)
    → Follows can_transition_task_state s t
    → (if same_state s t then 0 else 1) + moves_left t ≤ moves_left s
unfolding moves_left can_transition_task_state same_state
moves_left_drops s t f = elim (Bool-cases (same_state s t)) [
  | inl e ↦
      rw e (subst (λ x. 0 + moves_left t ≤ moves_left x) (sym (same_state-eq s t e)) (omega arith))
  | inr e ↦ rw e (elim f [
    | inl n ↦ subst (λ x. 1 + moves_left t ≤ moves_left x) (sym n) (ground (arith, not_empty t n e))
    | inr c ↦ ground arith
  ])
]
  where
    not_empty : (t : State) → s ≡ empty → same_state s t ≡ false → 1 + moves_left t ≤ 4
    not_empty t n e = ground (arith, subst (λ x. same_state x t ≡ false) n e)

changes-le :
    (s : State) (ts : List State)
    → Chain can_transition_task_state s ts
    → changes s ts ≤ moves_left s
changes-le s [] c = omega arith
changes-le s (t ∷ ts) c = omega (arith, moves_left_drops s t c.0, changes-le t ts c.1)

moves_left-le : (s : State) → moves_left s ≤ 4
unfolding moves_left
moves_left-le s = ground arith

-- A log that replays, in whatever context and with whatever rows, gives a task its first state and
-- then changes it at most three times: of the records of one task, at most four give it a state
-- other than the one before.
pub changes-task_states :
    (ctx : Context) (j t : ℕ) (log : List TransitionRecord) (durable : List DurableTaskRecord)
    (st : ReplayedJobState)
    → replay_job_state_from_data ctx j log durable ≡ ok st
    → changes empty (task_states t log) ≤ 4
changes-task_states ctx j t log durable st h =
    let l = replay_job_state_from_data_legal ctx j log durable st h in
    omega (arith, changes-le empty (task_states t log) (l.task_chain t), moves_left-le empty)
