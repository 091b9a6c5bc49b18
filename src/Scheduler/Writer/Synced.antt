-- ===== src/Scheduler/Writer/Synced.antt =====
-- The scheduler's view in memory against the transition logs that it has written
-- (pkg/scheduler/scheduler.go).
use dagens_public.Prelude.{
  ℕ, ◌+◌, ◌≤◌, ◌<◌, ◌≡◌, refl, sym, ap, ◌∙◌, subst, ◌≢◌, ◌⊎◌, inl, inr, Bool, none, some, Option,
  List, [], ◌∷◌, ◌++◌, arith, Bool-cases,
}
use native.Mathlib.Decide.{ℕ_discrete}
use dagens_public.Prelude.Maps.{lookup, insert, lookup-insert}
use dagens_public.Prelude.Results.{Result, ok, Result-cases}
use dagens_public.Lifecycle.{
  State, empty, TransitionRecord, validate, can_transition_job_state, can_transition_task_state,
}
use dagens_public.Store.{TransitionStore, StoreError, canceled, list_transitions_by_job, with_tx}
use dagens_public.Replay.Chain.{last_of, job_part, task_part, job_states, task_states, MayStep}
use dagens_public.Replay.Append.{
  IsLegalLog, IsLegalLog-append, after_part, job_states-append, task_states-append, last_of-append,
}
use dagens_public.Scheduler.{Scheduler, Job, Task, number_or_zero, next_number}
use dagens_public.Scheduler.Writer.{persist_transition_write}
use dagens_public.Scheduler.Writer.Extend.{Extends, IsNumbered, IsNumbered-mono, IsNumbered-append}

abbrev pub store_log : Option TransitionStore → ℕ → List TransitionRecord
store_log none j = []
store_log (some store) j = list_transitions_by_job j store

-- The log of a job, empty where there is no store.
abbrev pub log_of : ℕ → Scheduler → List TransitionRecord
log_of j s = store_log s.transition_store j

abbrev pub counter : ℕ → Scheduler → ℕ
counter j s = number_or_zero (lookup j s.job_sequences)

-- The last state of a log and the state in memory: the log has none yet, or they are the same.
abbrev pub Agrees : State → State → Type 0
Agrees last memory = (last ≡ empty) ⊎ (last ≡ memory)

abbrev pub last_job_state : ℕ → Scheduler → State
last_job_state j s = last_of empty (job_states (log_of j s))

abbrev pub last_task_state : ℕ → ℕ → Scheduler → State
last_task_state j t s = last_of empty (task_states t (log_of j s))

-- Every log replays, is numbered in order up to the job's counter, and ends in the state that the
-- scheduler holds for the job.
pub record IsSynced (s : Scheduler) : Type 0 where
  pub legal : (j : ℕ) → IsLegalLog j (log_of j s)
  pub numbered : (j : ℕ) → IsNumbered (counter j s) (log_of j s)
  pub keyed : (j : ℕ) (job : Job) → lookup j s.jobs ≡ some job → job.id ≡ j
  pub agrees :
      (j : ℕ) (job : Job)
      → lookup j s.jobs ≡ some job
      → Agrees (last_job_state j s) job.lifecycle_state

-- The same of one task, which the scheduler's jobs hold by pointer.
abbrev pub IsTaskSynced : Task → Scheduler → Type 0
IsTaskSynced task s = Agrees (last_task_state task.job_id task.id s) task.lifecycle_state

-- From `s` to `t` the scheduler stays synced, and so does every task that was.
abbrev pub Keeps : Scheduler → Scheduler → Type 0
Keeps s t = IsSynced t × ((task : Task) → IsTaskSynced task s → IsTaskSynced task t)

-- Outcomes of a write: the store is replaced, or stays and the error is kept.
pub persist_cases :
    (done : Bool) (fn : TransitionStore → Result StoreError TransitionStore) (s : Scheduler)
    (store : TransitionStore)
    → s.transition_store ≡ some store
    → ((t : TransitionStore) × (fn store ≡ ok t)
        × (persist_transition_write done fn s ≡ (record s { transition_store = some t }, none)))
      ⊎ ((e : StoreError) × (persist_transition_write done fn s
            ≡ (record s { transition_store = some store }, some e)))
unfolding persist_transition_write with_tx
persist_cases done fn s store h = elim (Result-cases (fn store)) [
  | inl (t, e) ↦ elim (Bool-cases done) [
    | inl d ↦ inr (canceled, ground arith)
    | inr d ↦ inl (t, e, ground arith)
  ]
  | inr (x, e) ↦ elim (Bool-cases done) [
    | inl d ↦ inr (canceled, ground arith)
    | inr d ↦ inr (x, ground arith)
  ]
]

-- One record more in the logs, under the next number of its job.
pub record Appended (r : TransitionRecord) (s t : Scheduler) : Type 0 where
  pub accepted : validate r ≡ none
  pub mine : log_of r.job_id t ≡ log_of r.job_id s ++ r ∷ []
  pub others : (j : ℕ) → j ≢ r.job_id → log_of j t ≡ log_of j s
  pub counted : (j : ℕ) → counter j s ≤ counter j t
  pub fresh : counter r.job_id s ≤ r.sequence_id
  pub exact : counter r.job_id t ≡ r.sequence_id

module _ (r : TransitionRecord) (s t : Scheduler) (a : Appended r s t) (y : IsSynced s) where
  pub Appended-legal :
      MayStep can_transition_job_state (last_job_state r.job_id s) (job_part r.entity_type r)
      → ((k : ℕ)
          → MayStep can_transition_task_state
              (last_task_state r.job_id k s)
              (task_part k r.entity_type r))
      → (j : ℕ) → IsLegalLog j (log_of j t)
  Appended-legal mj mt j = elim (ℕ_discrete j r.job_id) [
    | yes e ↦
        subst (λ (k : ℕ). IsLegalLog k (log_of k t)) (sym e)
          (subst (IsLegalLog r.job_id) (sym a.mine) (
            IsLegalLog-append r.job_id (log_of r.job_id s) r (y.legal r.job_id) a.accepted refl mj
              mt))
    | no n ↦ subst (IsLegalLog j) (sym (a.others j n)) (y.legal j)
  ]

  pub Appended-numbered : (j : ℕ) → IsNumbered (counter j t) (log_of j t)
  Appended-numbered j = elim (ℕ_discrete j r.job_id) [
    | yes e ↦
        subst (λ (k : ℕ). IsNumbered (counter k t) (log_of k t)) (sym e)
          (subst (IsNumbered (counter r.job_id t)) (sym a.mine) (
            subst (λ (n : ℕ). IsNumbered n (log_of r.job_id s ++ r ∷ [])) (sym a.exact)
              (IsNumbered-append (counter r.job_id s) (log_of r.job_id s) r a.fresh
                (y.numbered r.job_id))))
    | no n ↦
        subst (IsNumbered (counter j t)) (sym (a.others j n))
          (IsNumbered-mono (counter j s) (counter j t) (log_of j s) (a.counted j) (y.numbered j))
  ]

  -- The last states after the record.
  pub Appended-last_job :
      last_job_state r.job_id t ≡ after_part (last_job_state r.job_id s) (job_part r.entity_type r)
  Appended-last_job =
      ap (λ l. last_of empty (job_states l)) a.mine
      ∙ ap (last_of empty) (job_states-append (log_of r.job_id s) r)
      ∙ last_of-append empty (job_states (log_of r.job_id s)) (job_part r.entity_type r)

  pub Appended-last_task :
      (k : ℕ)
      → last_task_state r.job_id k t
        ≡ after_part (last_task_state r.job_id k s) (task_part k r.entity_type r)
  Appended-last_task k =
      ap (λ l. last_of empty (task_states k l)) a.mine
      ∙ ap (last_of empty) (task_states-append k (log_of r.job_id s) r)
      ∙ last_of-append empty (task_states k (log_of r.job_id s)) (task_part k r.entity_type r)

-- A write that only takes a number.
pub record Bumped (s t : Scheduler) : Type 0 where
  pub same_logs : (j : ℕ) → log_of j t ≡ log_of j s
  pub same_jobs : t.jobs ≡ s.jobs
  pub counted : (j : ℕ) → counter j s ≤ counter j t

pub Bumped-IsSynced : (s t : Scheduler) → Bumped s t → IsSynced s → IsSynced t
Bumped-IsSynced s t b y = record {
  legal = λ j. subst (IsLegalLog j) (sym (b.same_logs j)) (y.legal j);
  numbered = λ j.
      subst (IsNumbered (counter j t)) (sym (b.same_logs j))
        (IsNumbered-mono (counter j s) (counter j t) (log_of j s) (b.counted j) (y.numbered j));
  keyed = λ j job h. y.keyed j job (ap (lookup j) (sym b.same_jobs) ∙ h);
  agrees = λ j job h.
      subst (λ l. Agrees (last_of empty (job_states l)) job.lifecycle_state) (sym (b.same_logs j))
        (y.agrees j job (ap (lookup j) (sym b.same_jobs) ∙ h));
}

-- Taking the number of a job moves no counter back, as long as it does not wrap.
pub counter-insert :
    (k j : ℕ) (s : Scheduler) (store : Option TransitionStore)
    → counter k s + 1 < 18446744073709551616
    → counter j s
      ≤ counter j (record s {
        job_sequences = insert k (next_number (counter k s)) s.job_sequences;
        transition_store = store;
      })
counter-insert k j s store w =
    ground (arith, lookup-insert k j (next_number (counter k s)) s.job_sequences)

-- A stored scheduler's log is its store's.
pub stored_log :
    (s : Scheduler) (store : TransitionStore) (j : ℕ)
    → s.transition_store ≡ some store
    → list_transitions_by_job j store ≡ log_of j s
stored_log s store j e = ap (λ o. store_log o j) (sym e)

pub Extends-Appended :
    (r : TransitionRecord) (s t : Scheduler) (store store' : TransitionStore)
    → s.transition_store ≡ some store
    → t.transition_store ≡ some store'
    → Extends r store store'
    → ((j : ℕ) → counter j s ≤ counter j t)
    → counter r.job_id s ≤ r.sequence_id
    → counter r.job_id t ≡ r.sequence_id
    → Appended r s t
Extends-Appended r s t store store' es et x counted fresh exact = record {
  accepted = x.accepted;
  mine =
      sym (stored_log t store' r.job_id et)
      ∙ x.mine
      ∙ ap (λ l. l ++ r ∷ []) (stored_log s store r.job_id es);
  others = λ j ne. sym (stored_log t store' j et) ∙ x.others j ne ∙ stored_log s store j es;
  counted = counted;
  fresh = fresh;
  exact = exact;
}

pub Bumped-Keeps : (s t : Scheduler) → Bumped s t → IsSynced s → Keeps s t
Bumped-Keeps s t b y = (
  Bumped-IsSynced s t b y,
  λ task h.
      subst (λ l. Agrees (last_of empty (task_states task.id l)) task.lifecycle_state)
        (sym (b.same_logs task.job_id)) h,
)
