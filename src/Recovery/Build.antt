-- ===== src/Recovery/Build.antt =====
-- buildRecoveredRuntimeJob of pkg/scheduler/recovery.go on a view of the store's log.
use dagens_public.Prelude.{
  ℕ, ◌≡◌, ◌≢◌, ◌⊎◌, refl, subst, Any, Any-left, Any-right, sym, ap, ◌∙◌, inl, inr, Option, none,
  some, List, [], ◌∷◌, map, ◌==◌, ==_iff, ==_refl, arith, All, All-append, All-map, Bool-cases,
}
use dagens_public.Prelude.Maps.{Map, lookup, insert, values}
use dagens_public.Prelude.Sort.{sort_by-All, sort_by-Any}
use dagens_public.Lifecycle.{empty, DurableTaskRecord}
use dagens_public.Store.{TransitionStore, list_transitions_by_job}
use dagens_public.Replay.{ReplayedJobState, task_or_zero}
use dagens_public.Replay.Chain.{last_of, task_states}
use dagens_public.Replay.Rows.{IsRows}
use dagens_public.Replay.Restart.{IsReplayed}
use dagens_public.Scheduler.{Task, Stage}
use dagens_public.Recovery.{
  Decoder, stage_key, recovered_task, stage_or_new, with_task, group_tasks, with_status,
  recovered_stages,
}

-- A row that its identifier reads in the map.
abbrev IsFound : ℕ → Map DurableTaskRecord → DurableTaskRecord → Type 0
IsFound j m row = (row.job_id ≡ j) × (lookup row.task_id m ≡ some row)

IsFound-below :
    (j k : ℕ) (row other : DurableTaskRecord) (m : Map DurableTaskRecord)
    → lookup k m ≡ none
    → IsFound j m other
    → IsFound j ((k, row) ∷ m) other
unfolding lookup
IsFound-below j k row other m fresh (o, h) = (
  o,
  elim (Bool-cases (k == other.task_id)) [
    | inl e ↦
        let same = ap (λ (i : ℕ). lookup i m) ((==_iff k other.task_id).0 e) in
        absurd (ground (arith, same, fresh, h))
    | inr e ↦ rw e h
  ],
)

values-IsFound : (j : ℕ) (m : Map DurableTaskRecord) → IsRows j m → All (IsFound j m) (values m)
unfolding lookup
values-IsFound j [] r = tt
values-IsFound j ((k, row) ∷ m) (fresh, (named, (owned, r))) = (
  (owned, ground (arith, named, ==_refl k)),
  All-map (IsFound j m) (IsFound j ((k, row) ∷ m)) (λ other. IsFound-below j k row other m fresh)
      (values m) (values-IsFound j m r),
)

-- A recovered task in the state that the log of its job gives it.
abbrev pub IsLogged : ℕ → TransitionStore → Task → Type 0
IsLogged j store task =
    (task.job_id ≡ j)
    × (task.lifecycle_state ≡ last_of empty (task_states task.id (list_transitions_by_job j store)))

abbrev pub AllLogged : ℕ → TransitionStore → List Stage → Type 0
AllLogged j store = All (λ stage. All (IsLogged j store) stage.tasks)

-- A task of this identifier is in one of the stages.
abbrev pub HasTask : ℕ → List Stage → Type 0
HasTask t = Any (λ stage. Any (λ task. task.id ≡ t) stage.tasks)

module _ (decoder : Decoder) (store : TransitionStore) (j : ℕ) where
  IsFound-IsLogged :
      (st : ReplayedJobState)
      → IsReplayed store j st
      → (row : DurableTaskRecord) → IsFound j st.tasks row
      → IsLogged j store (recovered_task decoder row)
  unfolding recovered_task
  IsFound-IsLogged st v row (o, h) = (
    o,
    ap (λ (x : Option DurableTaskRecord). (task_or_zero x).current_state) (sym h)
        ∙ v.task row.task_id,
  )

  -- The stages collected so far hold logged tasks only.
  abbrev Grouped : Map Stage → Type 0
  Grouped = All (λ entry. All (IsLogged j store) entry.1.tasks)

  lookup-Grouped :
      (k job_id : ℕ) (m : Map Stage)
      → Grouped m
      → All (IsLogged j store) (stage_or_new job_id k (lookup k m)).tasks
  unfolding lookup
  lookup-Grouped k job_id [] g = tt
  lookup-Grouped k job_id ((k', stage) ∷ m) g = elim (Bool-cases (k' == k)) [
    | inl e ↦ rw e g.0
    | inr e ↦ rw e (lookup-Grouped k job_id m g.1)
  ]

  insert-Grouped :
      (k : ℕ) (stage : Stage) (m : Map Stage)
      → All (IsLogged j store) stage.tasks
      → Grouped m
      → Grouped (insert k stage m)
  unfolding insert
  insert-Grouped k stage [] a g = (a, tt)
  insert-Grouped k stage ((k', other) ∷ m) a g = elim (Bool-cases (k' == k)) [
    | inl e ↦ rw e (a, g.1)
    | inr e ↦ rw e (g.0, insert-Grouped k stage m a g.1)
  ]

  group_tasks-Grouped :
      (job_id : ℕ) (rows : List DurableTaskRecord) (m : Map Stage)
      → All (λ row. IsLogged j store (recovered_task decoder row)) rows
      → Grouped m
      → Grouped (group_tasks decoder job_id rows m)
  unfolding group_tasks
  group_tasks-Grouped job_id [] m a g = g
  group_tasks-Grouped job_id (row ∷ rows) m a g = group_tasks-Grouped job_id rows _ a.1 (
      insert-Grouped (stage_key row)
        (with_task (recovered_task decoder row)
          (stage_or_new job_id (stage_key row) (lookup (stage_key row) m)))
        m
        (All-append (IsLogged j store) _ (recovered_task decoder row ∷ [])
          (lookup-Grouped (stage_key row) job_id m g) (a.0, tt))
        g)

  with_status-AllLogged :
      (entries : Map Stage)
      → Grouped entries
      → AllLogged j store (map (λ entry. with_status entry.1) entries)
  with_status-AllLogged [] g = tt
  with_status-AllLogged (entry ∷ entries) g = (g.0, with_status-AllLogged entries g.1)

  pub recovered_stages-AllLogged :
      (st : ReplayedJobState)
      → IsReplayed store j st
      → AllLogged j store (recovered_stages decoder st)
  unfolding recovered_stages
  recovered_stages-AllLogged st v = with_status-AllLogged _ (
      sort_by-All (λ entry. entry.0) (λ entry. All (IsLogged j store) entry.1.tasks) _
        (group_tasks-Grouped st.job.job_id (values st.tasks) []
          (All-map (IsFound j st.tasks) (λ row. IsLogged j store (recovered_task decoder row))
            (IsFound-IsLogged st v) (values st.tasks) (values-IsFound j st.tasks v.rows))
          tt))

  -- A task of the identifier stands in one of the stages.
  abbrev InStages : ℕ → Map Stage → Type 0
  InStages t = Any (λ entry. Any (λ task. task.id ≡ t) entry.1.tasks)

  joined_InStages :
      (t k job_id : ℕ) (task : Task) (o : Option Stage) (m : Map Stage)
      → lookup k m ≡ o
      → (task.id ≡ t) ⊎ InStages t m
      → InStages t (insert k (with_task task (stage_or_new job_id k o)) m)
  unfolding insert lookup
  joined_InStages t k job_id task o [] g h = elim h [
    | inl e ↦ inl (Any-right (λ q. q.id ≡ t) (stage_or_new job_id k o).tasks (task ∷ []) (inl e))
    | inr i ↦ absurd i
  ]
  joined_InStages t k job_id task o ((k', stage) ∷ m) g h = elim (Bool-cases (k' == k)) [
    | inl e ↦
        let same : some stage ≡ o = rw e at g in
        rw e (
          subst (λ x. InStages t ((k, with_task task (stage_or_new job_id k x)) ∷ m)) same
            (elim h [
              | inl i ↦ inl (Any-right (λ q. q.id ≡ t) stage.tasks (task ∷ []) (inl i))
              | inr (inl i) ↦ inl (Any-left (λ q. q.id ≡ t) stage.tasks (task ∷ []) i)
              | inr (inr i) ↦ inr i
            ]))
    | inr e ↦
        let below : lookup k m ≡ o = rw e at g in
        rw e (elim h [
          | inl i ↦ inr (joined_InStages t k job_id task o m below (inl i))
          | inr (inl i) ↦ inl i
          | inr (inr i) ↦ inr (joined_InStages t k job_id task o m below (inr i))
        ])
  ]

  looked_InStages :
      (t k job_id : ℕ) (task : Task) (m : Map Stage)
      → (task.id ≡ t) ⊎ InStages t m
      → InStages t (insert k (with_task task (stage_or_new job_id k (lookup k m))) m)
  looked_InStages t k job_id task m = joined_InStages t k job_id task (lookup k m) m refl

  group_tasks-InStages :
      (t job_id : ℕ) (rows : List DurableTaskRecord) (m : Map Stage)
      → Any (λ row. row.task_id ≡ t) rows ⊎ InStages t m
      → InStages t (group_tasks decoder job_id rows m)
  unfolding group_tasks recovered_task
  group_tasks-InStages t job_id [] m h = elim h [ inl i ↦ absurd i | inr i ↦ i ]
  group_tasks-InStages t job_id (row ∷ rows) m h = group_tasks-InStages t job_id rows _ (elim h [
    | inl (inl i) ↦
        inr (looked_InStages t (stage_key row) job_id (recovered_task decoder row) m (inl i))
    | inl (inr i) ↦ inl i
    | inr i ↦ inr (looked_InStages t (stage_key row) job_id (recovered_task decoder row) m (inr i))
  ])

  with_status-Any :
      (t : ℕ) (entries : Map Stage)
      → InStages t entries
      → Any
          (λ stage. Any (λ task. task.id ≡ t) stage.tasks)
          (map (λ entry. with_status entry.1) entries)
  with_status-Any t [] h = absurd h
  with_status-Any t (entry ∷ entries) h = elim h [
    | inl i ↦ inl i
    | inr i ↦ inr (with_status-Any t entries i)
  ]

  values-Any :
      (t : ℕ) (m : Map DurableTaskRecord)
      → IsRows j m
      → (task_or_zero (lookup t m)).current_state ≢ empty
      → Any (λ row. row.task_id ≡ t) (values m)
  unfolding lookup
  values-Any t [] r n = absurd (n refl)
  values-Any t ((k, row) ∷ m) (fresh, (named, (owned, r))) n = elim (Bool-cases (k == t)) [
    | inl e ↦ inl (named ∙ (==_iff k t).0 e)
    | inr e ↦ inr (values-Any t m r (rw e at n))
  ]

  -- A task that the log gives a state is recovered.
  pub recovered_stages-HasTask :
      (st : ReplayedJobState) (t : ℕ)
      → IsReplayed store j st
      → last_of empty (task_states t (list_transitions_by_job j store)) ≢ empty
      → HasTask t (recovered_stages decoder st)
  unfolding recovered_stages
  recovered_stages-HasTask st t v n = with_status-Any t _ (
      sort_by-Any (λ entry. entry.0) (λ entry. Any (λ task. task.id ≡ t) entry.1.tasks) _
        (group_tasks-InStages t st.job.job_id (values st.tasks) []
          (inl (values-Any t st.tasks v.rows (λ e. n (sym (v.task t) ∙ e))))))
