-- ===== src/Scheduler/Writer/Extend.antt =====
-- What one write of pkg/scheduler/scheduler.go does to the transition logs.
use dagens_public.Prelude.{
  ℕ, ◌≤◌, ◌≡◌, ◌∙◌, subst, ◌≢◌, inl, inr, none, Option, List, [], ◌∷◌, ◌++◌, arith, All, All-append,
}
use dagens_public.Prelude.Sort.{IsSorted, sort_by_sorted, IsSorted-append}
use dagens_public.Prelude.Results.{ok, Result-cases}
use dagens_public.Lifecycle.{TransitionRecord, DurableJobRecord, DurableTaskRecord, validate}
use dagens_public.Store.{
  TransitionStore, by_sequence, append_transition, list_transitions_by_job, upsert_job, upsert_task,
}
use dagens_public.Scheduler.Writer.{write_job, write_task}
use dagens_public.Store.Log.{append_ok, list-append_valid}

-- The store `t` is `s` with one record at the end of the log of its job.
pub record Extends (r : TransitionRecord) (s t : TransitionStore) : Type 0 where
  pub accepted : validate r ≡ none
  pub mine : list_transitions_by_job r.job_id t ≡ list_transitions_by_job r.job_id s ++ r ∷ []
  pub others : (j : ℕ) → j ≢ r.job_id → list_transitions_by_job j t ≡ list_transitions_by_job j s

-- The numbers of a log are sorted and do not pass `n`.
pub record IsNumbered (n : ℕ) (log : List TransitionRecord) : Type 0 where
  pub sorted : IsSorted by_sequence log
  pub below : All (λ r. r.sequence_id ≤ n) log

All-le_trans :
    (m n : ℕ) (log : List TransitionRecord)
    → m ≤ n
    → All (λ r. r.sequence_id ≤ m) log
    → All (λ r. r.sequence_id ≤ n) log
All-le_trans m n [] le a = tt
All-le_trans m n (r ∷ rs) le a = (omega arith, All-le_trans m n rs le a.1)

pub IsNumbered-mono :
    (m n : ℕ) (log : List TransitionRecord) → m ≤ n → IsNumbered m log → IsNumbered n log
IsNumbered-mono m n log le h = record { sorted = h.sorted; below = All-le_trans m n log le h.below }

pub IsNumbered-append :
    (n : ℕ) (log : List TransitionRecord) (r : TransitionRecord)
    → n ≤ r.sequence_id
    → IsNumbered n log
    → IsNumbered r.sequence_id (log ++ r ∷ [])
IsNumbered-append n log r le h =
    let below = All-le_trans n r.sequence_id log le h.below in
    record {
      sorted = IsSorted-append by_sequence log r h.sorted below;
      below = All-append (λ q. q.sequence_id ≤ r.sequence_id) log (r ∷ []) below (omega arith, tt);
    }

-- A record whose number is not below the log's goes to the end of it.
pub append_transition-Extends :
    (r : TransitionRecord) (s t : TransitionStore) (n : ℕ)
    → IsNumbered n (list_transitions_by_job r.job_id s)
    → n ≤ r.sequence_id
    → append_transition r s ≡ ok t
    → Extends r s t
append_transition-Extends r s t n num le h =
    let (v, e) = append_ok r s t h in
    subst (Extends r s) e (record {
      accepted = v;
      mine =
          ground (arith, list-append_valid r.job_id r s)
          ∙ sort_by_sorted by_sequence _ (IsNumbered-append n _ r le num).sorted;
      others = λ j ne. ground (arith, list-append_valid j r s);
    })

-- Writes to the two index tables leave the logs alone.
pub Extends-reindex :
    {r : TransitionRecord} {s t u : TransitionStore}
    → Extends r s t
    → ((j : ℕ) → list_transitions_by_job j u ≡ list_transitions_by_job j t)
    → Extends r s u
Extends-reindex {r = r} x same = record {
  accepted = x.accepted;
  mine = same r.job_id ∙ x.mine;
  others = λ j ne. same j ∙ x.others j ne;
}

module _ (r : TransitionRecord) (s t : TransitionStore) (n : ℕ)
    (num : IsNumbered n (list_transitions_by_job r.job_id s)) (le : n ≤ r.sequence_id) where
  pub write_job-Extends : (row : DurableJobRecord) → write_job r row s ≡ ok t → Extends r s t
  unfolding write_job upsert_job list_transitions_by_job
  write_job-Extends row h = elim (Result-cases (append_transition r s)) [
    | inl (u, e) ↦ Extends-reindex (append_transition-Extends r s u n num le e) (λ j. ground arith)
    | inr (x, e) ↦ absurd (ground arith)
  ]

  pub write_task-Extends :
      (row : DurableTaskRecord) (snapshot : Option DurableJobRecord)
      → write_task r row snapshot s ≡ ok t
      → Extends r s t
  unfolding write_task upsert_job upsert_task list_transitions_by_job
  write_task-Extends row snapshot h = elim (Result-cases (append_transition r s)) [
    | inl (u, e) ↦ Extends-reindex (append_transition-Extends r s u n num le e) (λ j. ground arith)
    | inr (x, e) ↦ absurd (ground arith)
  ]
