-- ===== src/Lifecycle/Graph.antt =====
-- The transition tables of pkg/scheduler/state_machine.go against the diagrams of
-- docs/STATE_MACHINE.md ("Legal Job Transitions", "Legal Task Transitions").
use dagens_public.Prelude.{◌≡◌, refl, subst, ◌∙◌, ◌↔◌, ◌⊎◌, inl, inr, true, false, arith}
use dagens_public.Lifecycle.{
  State, empty, submitted, queued, running, awaiting_human, succeeded, failed, canceled, pending,
  dispatched, other, same_state, can_transition_job_state, can_transition_task_state,
  is_terminal_job_state, is_terminal_task_state, is_valid_job_lifecycle_state,
}

pub same_state-eq : (s t : State) → same_state s t ≡ true → s ≡ t
unfolding same_state
same_state-eq s t h = ground arith

pub same_state_refl : (s : State) → same_state s s ≡ true
unfolding same_state
same_state_refl (other n) = ground arith
same_state_refl empty = refl
same_state_refl _ = refl

-- One line for each line of the document's list.
pub data JobEdge : State → State → Type 0 where
  enqueue : JobEdge submitted queued
  start : JobEdge queued running
  fail_queued : JobEdge queued failed
  cancel_queued : JobEdge queued canceled
  pause : JobEdge running awaiting_human
  resume : JobEdge awaiting_human running
  fail_paused : JobEdge awaiting_human failed
  cancel_paused : JobEdge awaiting_human canceled
  succeed : JobEdge running succeeded
  fail_running : JobEdge running failed
  cancel_running : JobEdge running canceled

pub data TaskEdge : State → State → Type 0 where
  dispatch : TaskEdge pending dispatched
  fail_pending : TaskEdge pending failed
  begin : TaskEdge dispatched running
  fail_dispatched : TaskEdge dispatched failed
  complete : TaskEdge running succeeded
  fail_running_task : TaskEdge running failed

ruleset job_edges = (
  enqueue, start, fail_queued, cancel_queued, pause, resume, fail_paused, cancel_paused, succeed,
  fail_running, cancel_running,
)

ruleset task_edges = (dispatch, fail_pending, begin, fail_dispatched, complete, fail_running_task)

job_edge_of_can : (s t : State) → can_transition_job_state s t ≡ true → (s ≡ t) ⊎ JobEdge s t
unfolding can_transition_job_state
job_edge_of_can s t h = grind (arith, job_edges, same_state-eq)

can_of_job_edge : {s t : State} → JobEdge s t → can_transition_job_state s t ≡ true
unfolding can_transition_job_state
can_of_job_edge enqueue = refl
can_of_job_edge _ = refl

task_edge_of_can : (s t : State) → can_transition_task_state s t ≡ true → (s ≡ t) ⊎ TaskEdge s t
unfolding can_transition_task_state
task_edge_of_can s t h = grind (arith, task_edges, same_state-eq)

can_of_task_edge : {s t : State} → TaskEdge s t → can_transition_task_state s t ≡ true
unfolding can_transition_task_state
can_of_task_edge dispatch = refl
can_of_task_edge _ = refl

-- CanTransitionJobState holds of two states exactly when they are the same string or the document
-- lists the move.
pub can_transition_job_state_iff :
    (s t : State) → (can_transition_job_state s t ≡ true) ↔ ((s ≡ t) ⊎ JobEdge s t)
can_transition_job_state_iff s t = (
  job_edge_of_can s t,
  λ h. elim h [
    | inl e ↦ subst (λ u. can_transition_job_state s u ≡ true) e (can_refl s)
    | inr j ↦ can_of_job_edge j
  ],
)
  where
    can_refl : (u : State) → can_transition_job_state u u ≡ true
    can_refl u = unfold can_transition_job_state in rw (same_state_refl u)

-- CanTransitionTaskState holds of two states exactly when they are the same string or the document
-- lists the move.
can_transition_task_state_iff :
    (s t : State) → (can_transition_task_state s t ≡ true) ↔ ((s ≡ t) ⊎ TaskEdge s t)
can_transition_task_state_iff s t = (
  task_edge_of_can s t,
  λ h. elim h [
    | inl e ↦ subst (λ u. can_transition_task_state s u ≡ true) e (can_refl s)
    | inr j ↦ can_of_task_edge j
  ],
)
  where
    can_refl : (u : State) → can_transition_task_state u u ≡ true
    can_refl u = unfold can_transition_task_state in rw (same_state_refl u)

-- Every legal move out of a terminal job state stays in it.
pub terminal_job_absorbs :
    (s t : State) → is_terminal_job_state s ≡ true → can_transition_job_state s t ≡ true → s ≡ t
unfolding is_terminal_job_state can_transition_job_state
terminal_job_absorbs s t h c = ground (arith, same_state-eq s t)

pub terminal_task_absorbs :
    (s t : State) → is_terminal_task_state s ≡ true → can_transition_task_state s t ≡ true → s ≡ t
unfolding is_terminal_task_state can_transition_task_state
terminal_task_absorbs s t h c = ground (arith, same_state-eq s t)

-- A sequence of states in which each is a legal successor of the one before.
pub data JobPath : State → State → Type 0 where
  job_here : {s : State} → JobPath s s
  job_next : {s t u : State} → can_transition_job_state s t ≡ true → JobPath t u → JobPath s u

-- What ends in a terminal state stays there, whatever legal moves follow.
pub JobPath-terminal : {s t : State} → is_terminal_job_state s ≡ true → JobPath s t → s ≡ t
JobPath-terminal h job_here = refl
JobPath-terminal h (job_next {s = a} {t = b} c p) =
    let e = terminal_job_absorbs a b h c in
    e ∙ JobPath-terminal (subst (λ u. is_terminal_job_state u ≡ true) e h) p

job_edge : {s t : State} → JobEdge s t → can_transition_job_state s t ≡ true
job_edge e = can_of_job_edge e

-- From every declared job state that is not terminal, legal moves lead to SUCCEEDED.
pub open_job_can_succeed :
    (s : State)
    → is_valid_job_lifecycle_state s ≡ true
    → is_terminal_job_state s ≡ false
    → JobPath s succeeded
unfolding is_valid_job_lifecycle_state is_terminal_job_state
open_job_can_succeed submitted v o =
    job_next (job_edge enqueue) (job_next (job_edge start) (job_next (job_edge succeed) job_here))
open_job_can_succeed queued v o = job_next (job_edge start) (job_next (job_edge succeed) job_here)
open_job_can_succeed running v o = job_next (job_edge succeed) job_here
open_job_can_succeed awaiting_human v o =
    job_next (job_edge resume) (job_next (job_edge succeed) job_here)
open_job_can_succeed _ v o = cc
