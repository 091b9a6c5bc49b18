-- ===== src/Store/Claim.antt =====
-- ClaimTaskDispatch of pkg/scheduler/transition_store_memory.go as a fence.
use dagens_public.Prelude.{
  ℕ, ◌<◌, ◌≡◌, refl, ◌≢◌, ◌↔◌, inl, inr, true, false, none, some, Option, arith, Bool-cases, ◌==◌,
}
use dagens_public.Prelude.Maps.{lookup, lookup-insert_self}
use dagens_public.Lifecycle.{dispatched, running, succeeded, TaskDispatchClaim, DurableTaskRecord}
use dagens_public.Store.{TransitionStore, claim_task_dispatch, claim_row, claimed_row, may_take}

-- When a claim may take a task: nobody holds a row, or the row is of an earlier attempt that neither
-- runs nor succeeded.
abbrev pub MayClaim : Option DurableTaskRecord → ℕ → Type 0
MayClaim none attempt = Unit
MayClaim (some row) attempt =
    (row.last_attempt < attempt) × (row.current_state ≢ running) × (row.current_state ≢ succeeded)

claim_row_iff :
    (o : Option DurableTaskRecord) (c : TaskDispatchClaim) (s : TransitionStore)
    → ((claim_row o c s).0 ≡ true) ↔ MayClaim o c.attempt
unfolding claim_row
claim_row_iff none c s = (λ _. tt, λ _. refl)
claim_row_iff (some row) c s =
    (λ h. (ground arith, λ e. ground arith, λ e. ground arith), λ (lt, run, done). ground arith)

-- ClaimTaskDispatch answers true exactly when the claim names a task and the row of that task is
-- absent, or is of an earlier attempt and in a state other than RUNNING and SUCCEEDED.
pub claim_task_dispatch_iff :
    (c : TaskDispatchClaim) (s : TransitionStore)
    → ((claim_task_dispatch c s).0 ≡ true)
      ↔ ((0 < c.task_id) × MayClaim (lookup c.task_id s.tasks) c.attempt)
unfolding claim_task_dispatch
claim_task_dispatch_iff c s = (
  λ h. (ground arith, (claim_row_iff (lookup c.task_id s.tasks) c s).0 (ground arith)),
  λ (set, may). ground (arith, (claim_row_iff (lookup c.task_id s.tasks) c s).1 may),
)

claim_row_writes :
    (o : Option DurableTaskRecord) (c : TaskDispatchClaim) (s : TransitionStore)
    → (claim_row o c s).0 ≡ true
    → (row : DurableTaskRecord) × (lookup c.task_id (claim_row o c s).1.tasks ≡ some row)
      × (row.current_state ≡ dispatched)
      × (row.last_attempt ≡ c.attempt)
      × (row.node_id ≡ c.node_id)
unfolding claim_row
claim_row_writes none c s h = (_, lookup-insert_self c.task_id _ s.tasks, refl, refl, refl)
claim_row_writes (some row) c s h = elim (Bool-cases (may_take row c.attempt)) [
  | inl e ↦ (claimed_row row c, rw e (lookup-insert_self c.task_id _ s.tasks), refl, refl, refl)
  | inr e ↦ absurd (ground arith)
]

-- A claim that is granted leaves the task's row DISPATCHED, at the claim's attempt and node.
pub granted_claim_writes :
    (c : TaskDispatchClaim) (s : TransitionStore)
    → (claim_task_dispatch c s).0 ≡ true
    → (row : DurableTaskRecord) × (lookup c.task_id (claim_task_dispatch c s).1.tasks ≡ some row)
      × (row.current_state ≡ dispatched)
      × (row.last_attempt ≡ c.attempt)
      × (row.node_id ≡ c.node_id)
unfolding claim_task_dispatch
granted_claim_writes c s h = elim (Bool-cases (c.task_id == 0)) [
  | inl e ↦ absurd (ground arith)
  | inr e ↦ rw e (claim_row_writes (lookup c.task_id s.tasks) c s (ground arith))
]

claim_row_refused :
    (o : Option DurableTaskRecord) (c : TaskDispatchClaim) (s : TransitionStore)
    → (claim_row o c s).0 ≡ false
    → (claim_row o c s).1 ≡ s
unfolding claim_row
claim_row_refused none c s h = cc
claim_row_refused (some row) c s h = ground arith

-- A claim that is refused leaves the store as it was.
pub refused_claim_unchanged :
    (c : TaskDispatchClaim) (s : TransitionStore)
    → (claim_task_dispatch c s).0 ≡ false
    → (claim_task_dispatch c s).1 ≡ s
unfolding claim_task_dispatch
refused_claim_unchanged c s h = ground (arith, claim_row_refused (lookup c.task_id s.tasks) c s)
