-- ===== src/Store/Log.antt =====
-- The transition logs of pkg/scheduler/transition_store_memory.go: what ListTransitionsByJob returns.
use mathlib.Core.List.{Perm}
use dagens_public.Prelude.{
  ℕ, ◌≤◌, ◌≡◌, refl, ap, ◌∙◌, subst, ◌≢◌, inl, inr, Bool, true, false, none, some, Option, List, [],
  ◌∷◌, ◌++◌, arith, Option-cases, Bool-cases, ◌==◌, if◌then◌else◌, All, All-append, ==_iff,
}
use dagens_public.Prelude.Maps.{Map, lookup, lookup-insert}
use dagens_public.Prelude.Sort.{sort_by, IsSorted, sort_by-IsSorted, sort_by-perm, sort_by-All}
use dagens_public.Prelude.Results.{ok, err}
use dagens_public.Lifecycle.{
  TransitionRecord, DurableJobRecord, DurableTaskRecord, validate, InvalidRecord,
}
use dagens_public.Store.{
  TransitionStore, invalid_record, rows, by_sequence, append_transition, append_valid, upsert_job,
  keep_sequence, raise_sequence, upsert_task, list_transitions_by_job,
}

rows-if {ℓ} :
    {A : Type ℓ} (b : Bool) (x : List A) (o : Option (List A))
    → rows (if b then some x else o) ≡ (if b then x else rows o)
rows-if true x o = refl
rows-if false x o = refl

pub list-append_valid :
    (j : ℕ) (r : TransitionRecord) (s : TransitionStore)
    → list_transitions_by_job j (append_valid r s) ≡ (
        if r.job_id == j
        then sort_by by_sequence (list_transitions_by_job r.job_id s ++ r ∷ [])
        else list_transitions_by_job j s)
unfolding list_transitions_by_job append_valid
list-append_valid j r s =
    ap rows (lookup-insert r.job_id j _ s.transitions) ∙ rows-if (r.job_id == j) _ _

-- What a successful append has done.
pub append_ok :
    (r : TransitionRecord) (s t : TransitionStore)
    → append_transition r s ≡ ok t
    → (validate r ≡ none) × (append_valid r s ≡ t)
unfolding append_transition
append_ok r s t h = elim (Option-cases (validate r)) [
  | inl e ↦ (e, ground arith)
  | inr (x, e) ↦ absurd (ground arith)
]

-- AppendTransition refuses exactly the records that Validate refuses, with its error.
pub append_transition_err :
    (r : TransitionRecord) (s : TransitionStore) (e : InvalidRecord)
    → validate r ≡ some e
    → append_transition r s ≡ err (invalid_record e)
unfolding append_transition
append_transition_err r s e h = rw h

-- After a successful AppendTransition the log of the record's job is sorted by sequence number and
-- holds what it held and the record, and the log of every other job is the same.
pub append_transition_log :
    (r : TransitionRecord) (s t : TransitionStore)
    → append_transition r s ≡ ok t
    → IsSorted by_sequence (list_transitions_by_job r.job_id t)
      × Perm (list_transitions_by_job r.job_id t) (list_transitions_by_job r.job_id s ++ r ∷ [])
      × ((j : ℕ) → j ≢ r.job_id → list_transitions_by_job j t ≡ list_transitions_by_job j s)
append_transition_log r s t h =
    let (v, e) = append_ok r s t h in
    rw (← e) (
      rw (mine s) (sort_by-IsSorted by_sequence _),
      rw (mine s) (sort_by-perm by_sequence _),
      λ j ne. ground (arith, list-append_valid j r s),
    )
  where
    mine :
        (s : TransitionStore)
        → list_transitions_by_job r.job_id (append_valid r s)
          ≡ sort_by by_sequence (list_transitions_by_job r.job_id s ++ r ∷ [])
    mine s = ground (arith, list-append_valid r.job_id r s)

-- Every job's log is sorted by sequence number and holds valid records of that job.
pub record IsConsistent (s : TransitionStore) : Type 0 where
  pub ordered : (j : ℕ) → IsSorted by_sequence (list_transitions_by_job j s)
  pub owned :
      (j : ℕ) → All (λ r. (r.job_id ≡ j) × (validate r ≡ none)) (list_transitions_by_job j s)

append_valid-ordered :
    (r : TransitionRecord) (s : TransitionStore) (j : ℕ)
    → IsConsistent s
    → IsSorted by_sequence (list_transitions_by_job j (append_valid r s))
append_valid-ordered r s j c = rw (list-append_valid j r s) (pick_if (r.job_id == j))
  where
    pick_if :
        (b : Bool)
        → IsSorted by_sequence (
            if b
            then sort_by by_sequence (list_transitions_by_job r.job_id s ++ r ∷ [])
            else list_transitions_by_job j s)
    pick_if true = sort_by-IsSorted by_sequence _
    pick_if false = c.ordered j

append_valid-owned :
    (r : TransitionRecord) (s : TransitionStore) (j : ℕ)
    → validate r ≡ none
    → IsConsistent s
    → All (λ q. (q.job_id ≡ j) × (validate q ≡ none)) (list_transitions_by_job j (append_valid r s))
append_valid-owned r s j v c = rw (list-append_valid j r s) (elim (Bool-cases (r.job_id == j)) [
  | inl e ↦ rw e (
      subst
        (λ (k : ℕ).
          All (λ q. (q.job_id ≡ k) × (validate q ≡ none))
            (sort_by by_sequence (list_transitions_by_job r.job_id s ++ r ∷ [])))
        ((==_iff r.job_id j).0 e)
        (sort_by-All by_sequence _ _ (
          All-append _ (list_transitions_by_job r.job_id s) (r ∷ []) (c.owned r.job_id)
            ((refl, v), tt))))
  | inr e ↦ rw e (c.owned j)
])

-- A successful AppendTransition keeps every log sorted and made of valid records of its own job.
pub append_transition-IsConsistent :
    (r : TransitionRecord) (s t : TransitionStore)
    → IsConsistent s
    → append_transition r s ≡ ok t
    → IsConsistent t
append_transition-IsConsistent r s t c h =
    let (v, e) = append_ok r s t h in
    subst IsConsistent e (record {
      ordered = λ j. append_valid-ordered r s j c;
      owned = λ j. append_valid-owned r s j v c;
    })

-- The sequence number of a job row, 0 where there is no row.
abbrev pub sequence_of : Option DurableJobRecord → ℕ
sequence_of none = 0
sequence_of (some job) = job.last_sequence_id

raise_sequence-le :
    (j : ℕ) (o : Option DurableJobRecord) (r : TransitionRecord) (m : Map DurableJobRecord)
    → lookup r.job_id m ≡ o
    → sequence_of (lookup j m) ≤ sequence_of (lookup j (raise_sequence o r m))
unfolding raise_sequence
raise_sequence-le j none r m e = omega arith
raise_sequence-le j (some job) r m e =
    ground (arith, lookup-insert r.job_id j (record job { last_sequence_id = r.sequence_id }) m)

-- No write lowers the sequence number of a job's row: AppendTransition, UpsertJob (which keeps the
-- larger number) and UpsertTask.
pub sequence_monotone :
    (j : ℕ) (s : TransitionStore)
    → ((r : TransitionRecord) (t : TransitionStore)
        → append_transition r s ≡ ok t
        → sequence_of (lookup j s.jobs) ≤ sequence_of (lookup j t.jobs))
      × ((job : DurableJobRecord)
          → sequence_of (lookup j s.jobs) ≤ sequence_of (lookup j (upsert_job job s).jobs))
      × ((task : DurableTaskRecord)
          → sequence_of (lookup j s.jobs) ≤ sequence_of (lookup j (upsert_task task s).jobs))
unfolding upsert_job upsert_task append_valid
sequence_monotone j s = (
  λ r t h.
      let (v, e) = append_ok r s t h in
      rw (← e) (raise_sequence-le j (lookup r.job_id s.jobs) r s.jobs refl),
  λ job.
      ground
        (arith, lookup-insert job.job_id j (keep_sequence (lookup job.job_id s.jobs) job) s.jobs),
  λ task. omega arith,
)
