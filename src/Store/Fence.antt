-- ===== src/Store/Fence.antt =====
-- ClaimTaskDispatch of pkg/scheduler/transition_store_memory.go as a fence, whatever is written to the
-- store after it.
use dagens_public.Prelude.{
  ℕ, ◌≤◌, ◌<◌, ◌≡◌, refl, sym, subst, ◌∙◌, false, ==_iff, inl, inr, true, false, none, some, Option,
  List, [], ◌∷◌, All, arith, Bool-cases, ◌==◌,
}
use dagens_public.Prelude.Maps.{lookup, lookup-insert}
use dagens_public.Prelude.Results.{Result, ok, err, Result-cases}
use dagens_public.Lifecycle.{
  TransitionRecord, DurableJobRecord, TaskDispatchClaim, DurableTaskRecord,
}
use dagens_public.Store.{
  TransitionStore, StoreError, append_transition, upsert_job, upsert_task, claim_task_dispatch,
  append_valid, claim_row, new_claim_row, may_take,
}
use dagens_public.Store.Log.{append_ok}
use dagens_public.Store.Claim.{
  MayClaim, claim_task_dispatch_iff, granted_claim_writes, refused_claim_unchanged,
}

-- A write to the store.
pub data StoreOp : Type 0 where
  append : TransitionRecord → StoreOp
  put_job_row : DurableJobRecord → StoreOp
  put_task_row : DurableTaskRecord → StoreOp
  claim : TaskDispatchClaim → StoreOp

-- A failed append leaves the store.
abbrev pub stored_or : TransitionStore → Result StoreError TransitionStore → TransitionStore
stored_or s (ok t) = t
stored_or s (err e) = s

unfoldable pub store_step : StoreOp → TransitionStore → TransitionStore
store_step (append r) s = stored_or s (append_transition r s)
store_step (put_job_row job) s = upsert_job job s
store_step (put_task_row task) s = upsert_task task s
store_step (claim c) s = (claim_task_dispatch c s).1

unfoldable pub store_run : List StoreOp → TransitionStore → TransitionStore
store_run [] s = s
store_run (op ∷ ops) s = store_run ops (store_step op s)

-- A row that is put for the task is of this attempt or a later one.
abbrev pub GoesOn : (task_id attempt : ℕ) → StoreOp → Type 0
GoesOn task_id attempt (put_task_row task) = task.task_id ≡ task_id → attempt ≤ task.last_attempt
GoesOn task_id attempt _ = Unit

-- The task has a row of this attempt or a later one.
record IsFenced (task_id attempt : ℕ) (s : TransitionStore) : Type 0 where
  row : DurableTaskRecord
  found : lookup task_id s.tasks ≡ some row
  reached : attempt ≤ row.last_attempt

IsFenced-refuses :
    (o : Option DurableTaskRecord) (row : DurableTaskRecord) (attempt : ℕ)
    → o ≡ some row
    → attempt ≤ row.last_attempt
    → ¬ MayClaim o attempt
IsFenced-refuses none row attempt e le m = cc
IsFenced-refuses (some r) row attempt e le m = ground arith

later_of_may :
    (row : DurableTaskRecord) (attempt : ℕ)
    → MayClaim (some row) attempt
    → row.last_attempt < attempt
later_of_may row attempt m = m.0

-- A claim leaves the rows of other tasks.
claim_row_elsewhere :
    (task_id : ℕ) (o : Option DurableTaskRecord) (c : TaskDispatchClaim) (s : TransitionStore)
    → c.task_id == task_id ≡ false
    → lookup task_id (claim_row o c s).1.tasks ≡ lookup task_id s.tasks
unfolding claim_row
claim_row_elsewhere task_id none c s m =
    rw m at (lookup-insert c.task_id task_id (new_claim_row c) s.tasks)
claim_row_elsewhere task_id (some row) c s m = elim (Bool-cases (may_take row c.attempt)) [
  | inl e ↦ rw e (lookup-insert c.task_id task_id _ s.tasks ∙ ground arith)
  | inr e ↦ rw e refl
]

claim_elsewhere :
    (task_id : ℕ) (c : TaskDispatchClaim) (s : TransitionStore)
    → c.task_id == task_id ≡ false
    → lookup task_id (claim_task_dispatch c s).1.tasks ≡ lookup task_id s.tasks
unfolding claim_task_dispatch
claim_elsewhere task_id c s m = elim (Bool-cases (c.task_id == 0)) [
  | inl e ↦ rw e refl
  | inr e ↦ rw e (claim_row_elsewhere task_id (lookup c.task_id s.tasks) c s m)
]

claim-IsFenced :
    (task_id attempt : ℕ) (c : TaskDispatchClaim) (s : TransitionStore)
    → IsFenced task_id attempt s
    → IsFenced task_id attempt (claim_task_dispatch c s).1
claim-IsFenced task_id attempt c s f = elim (Bool-cases (claim_task_dispatch c s).0) [
  | inr e ↦ subst (IsFenced task_id attempt) (sym (refused_claim_unchanged c s e)) f
  | inl e ↦ elim (Bool-cases (c.task_id == task_id)) [
    | inl m ↦
        let (row, found, state, last, node) = granted_claim_writes c s e in
        let same : c.task_id ≡ task_id = (==_iff c.task_id task_id).0 m in
        let may = ((claim_task_dispatch_iff c s).0 e).1 in
        record {
          row = row;
          found =
              subst (λ (i : ℕ). lookup i (claim_task_dispatch c s).1.tasks ≡ some row) same found;
          reached = ground (
            arith,
            f.reached,
            last,
            later_of_may f.row c.attempt (
                subst (λ o. MayClaim o c.attempt)
                  (subst (λ (i : ℕ). lookup i s.tasks ≡ some f.row) (sym same) f.found) may),
          );
        }
    | inr m ↦ record {
      row = f.row;
      found = claim_elsewhere task_id c s m ∙ f.found;
      reached = f.reached;
    }
  ]
]

step-IsFenced :
    (task_id attempt : ℕ) (op : StoreOp) (s : TransitionStore)
    → GoesOn task_id attempt op
    → IsFenced task_id attempt s
    → IsFenced task_id attempt (store_step op s)
unfolding store_step upsert_job upsert_task append_valid
step-IsFenced task_id attempt (append r) s g f = elim (Result-cases (append_transition r s)) [
  | inr (x, e) ↦ rw e f
  | inl (t, e) ↦ rw e (
      subst (IsFenced task_id attempt) (append_ok r s t e).1
        (record { row = f.row; found = f.found; reached = f.reached }))
]
step-IsFenced task_id attempt (put_job_row job) s g f = record {
  row = f.row;
  found = f.found;
  reached = f.reached;
}
step-IsFenced task_id attempt (put_task_row task) s g f =
    elim (Bool-cases (task.task_id == task_id)) [
      | inl e ↦ record {
        row = task;
        found = ground (arith, lookup-insert task.task_id task_id task s.tasks);
        reached = g (ground arith);
      }
      | inr e ↦ record {
        row = f.row;
        found = ground (arith, f.found, lookup-insert task.task_id task_id task s.tasks);
        reached = f.reached;
      }
    ]
step-IsFenced task_id attempt (claim c) s g f = claim-IsFenced task_id attempt c s f

run-IsFenced :
    (task_id attempt : ℕ) (ops : List StoreOp) (s : TransitionStore)
    → All (GoesOn task_id attempt) ops
    → IsFenced task_id attempt s
    → IsFenced task_id attempt (store_run ops s)
unfolding store_run
run-IsFenced task_id attempt [] s g f = f
run-IsFenced task_id attempt (op ∷ ops) s g f =
    run-IsFenced task_id attempt ops (store_step op s) g.1
      (step-IsFenced task_id attempt op s g.0 f)

-- The fence: a claim is granted, and then the store is written to in any way, by further claims, log
-- records and rows, where each row that is put for the task is of the attempt of the claim or a
-- later one. After that, a claim of the same task with the same or an earlier attempt is refused,
-- whatever node or job it names.
pub granted_claim_fences :
    (c later : TaskDispatchClaim) (ops : List StoreOp) (s : TransitionStore)
    → (claim_task_dispatch c s).0 ≡ true
    → All (GoesOn c.task_id c.attempt) ops
    → later.task_id ≡ c.task_id
    → later.attempt ≤ c.attempt
    → (claim_task_dispatch later (store_run ops (claim_task_dispatch c s).1)).0 ≡ false
granted_claim_fences c later ops s h g same le =
    let (row, found, state, attempt, node) = granted_claim_writes c s h in
    let t = store_run ops (claim_task_dispatch c s).1 in
    let f =
      run-IsFenced c.task_id c.attempt ops (claim_task_dispatch c s).1 g
        (record { row = row; found = found; reached = omega arith }) in
    elim (Bool-cases (claim_task_dispatch later t).0) [
      | inr e ↦ e
      | inl e ↦ absurd (
          IsFenced-refuses (lookup later.task_id t.tasks) f.row later.attempt (rw same f.found)
            (omega (arith, f.reached)) ((claim_task_dispatch_iff later t).0 e).1)
    ]
