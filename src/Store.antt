-- ===== src/Store.antt =====
-- pkg/scheduler/transition_store_memory.go: the in-memory transition store. The store and its
-- transaction hold the same three maps; a method returns the new maps. Locks are left out: each
-- method runs under the store's mutex from its first read to its last write.
pub mod Log
pub mod Claim
pub mod Fence
use dagens_public.Prelude.{
  ℕ, Bool, true, false, not, ◌&&◌, Option, none, some, List, [], ◌∷◌, ◌++◌, ltb, ◌==◌,
  if◌then◌else◌, select,
}
use dagens_public.Prelude.Maps.{Map, lookup, insert, values}
use dagens_public.Prelude.Sort.{sort_by, insert_sorted}
use dagens_public.Prelude.Results.{Result, ok, err}
use dagens_public.Lifecycle.{
  dispatched, running, succeeded, same_state, InvalidRecord, DurableJobRecord, DurableTaskRecord,
  TransitionRecord, TaskDispatchClaim, is_terminal_job_state, validate,
}

pub data StoreError : Type 0 where
  canceled claim_rejected : StoreError
  invalid_record : InvalidRecord → StoreError

pub record TransitionStore : Type 0 where
  pub transitions : Map (List TransitionRecord)
  pub jobs : Map DurableJobRecord
  pub tasks : Map DurableTaskRecord

unfoldable pub new_store : TransitionStore
new_store = record { transitions = []; jobs = []; tasks = [] }

-- A missing key of a map of slices reads as the nil slice.
abbrev pub rows {ℓ} : {A : Type ℓ} → Option (List A) → List A
rows none = []
rows (some xs) = xs

abbrev pub by_sequence : TransitionRecord → ℕ
by_sequence r = r.sequence_id

-- The update of the job row at the end of AppendTransition.
raise_sequence :
    Option DurableJobRecord → TransitionRecord → Map DurableJobRecord → Map DurableJobRecord
raise_sequence none r jobs = jobs
raise_sequence (some job) r jobs =
    if ltb job.last_sequence_id r.sequence_id
    then insert r.job_id (record job { last_sequence_id = r.sequence_id }) jobs
    else jobs

unfoldable pub append_valid : TransitionRecord → TransitionStore → TransitionStore
unfolding raise_sequence
append_valid r s = record s {
  transitions =
      insert r.job_id (sort_by by_sequence (rows (lookup r.job_id s.transitions) ++ r ∷ []))
        s.transitions;
  jobs = raise_sequence (lookup r.job_id s.jobs) r s.jobs;
}

abbrev check_record : Option InvalidRecord → TransitionStore → Result StoreError TransitionStore
check_record none s = ok s
check_record (some e) s = err (invalid_record e)

unfoldable pub append_transition :
    TransitionRecord → TransitionStore → Result StoreError TransitionStore
unfolding append_valid
append_transition r s = check_record (validate r) (append_valid r s)

-- UpsertJob keeps the larger sequence number.
keep_sequence : Option DurableJobRecord → DurableJobRecord → DurableJobRecord
keep_sequence none job = job
keep_sequence (some existing) job =
    if ltb job.last_sequence_id existing.last_sequence_id
    then record job { last_sequence_id = existing.last_sequence_id }
    else job

unfoldable pub upsert_job : DurableJobRecord → TransitionStore → TransitionStore
unfolding keep_sequence
upsert_job job s = record s {
  jobs = insert job.job_id (keep_sequence (lookup job.job_id s.jobs) job) s.jobs;
}

unfoldable pub upsert_task : DurableTaskRecord → TransitionStore → TransitionStore
upsert_task task s = record s { tasks = insert task.task_id task s.tasks }

unfoldable pub list_unfinished_jobs : TransitionStore → List DurableJobRecord
list_unfinished_jobs s =
    sort_by (λ job. job.created_at)
      (select (λ job. not (is_terminal_job_state job.current_state)) (values s.jobs))

unfoldable pub list_transitions_by_job : ℕ → TransitionStore → List TransitionRecord
list_transitions_by_job job_id s = rows (lookup job_id s.transitions)

unfoldable pub list_tasks_by_job : ℕ → TransitionStore → List DurableTaskRecord
list_tasks_by_job job_id s =
    sort_by (λ task. task.task_id) (select (λ task. task.job_id == job_id) (values s.tasks))

-- WithTx: the callback works on a copy, which replaces the store only if the callback returns nil.
-- `done` is whether ctx.Err() returns an error at the start.
unfoldable pub with_tx :
    Bool
    → (TransitionStore → Result StoreError TransitionStore)
    → TransitionStore
    → TransitionStore × Option StoreError
with_tx true fn s = (s, some canceled)
with_tx false fn s = elim (fn s) [ ok tx ↦ (tx, none) | err e ↦ (s, some e) ]

-- The row that a claim writes where there is none.
new_claim_row : TaskDispatchClaim → DurableTaskRecord
new_claim_row c = record {
  task_id = c.task_id;
  job_id = c.job_id;
  stage_id = c.stage_id;
  node_id = c.node_id;
  agent_id = 0;
  agent_name = 0;
  input_json = 0;
  partition_key = 0;
  current_state = dispatched;
  last_attempt = c.attempt;
  updated_at = c.updated_at;
}

-- The row that a claim writes over an older one.
claimed_row : DurableTaskRecord → TaskDispatchClaim → DurableTaskRecord
claimed_row existing c = record existing {
  job_id = c.job_id;
  stage_id = c.stage_id;
  node_id = c.node_id;
  current_state = dispatched;
  last_attempt = c.attempt;
  updated_at = c.updated_at;
}

may_take : DurableTaskRecord → ℕ → Bool
unfolding same_state
may_take existing attempt =
    ltb existing.last_attempt attempt
    && not (same_state existing.current_state running)
    && not (same_state existing.current_state succeeded)

-- ClaimTaskDispatch once the row of the task is read.
claim_row : Option DurableTaskRecord → TaskDispatchClaim → TransitionStore → Bool × TransitionStore
unfolding new_claim_row claimed_row may_take
claim_row none c s = (true, record s { tasks = insert c.task_id (new_claim_row c) s.tasks })
claim_row (some existing) c s =
    if may_take existing c.attempt
    then (true, record s { tasks = insert c.task_id (claimed_row existing c) s.tasks })
    else (false, s)

unfoldable pub claim_task_dispatch : TaskDispatchClaim → TransitionStore → Bool × TransitionStore
unfolding claim_row
claim_task_dispatch c s =
    if c.task_id == 0 then (false, s) else claim_row (lookup c.task_id s.tasks) c s
