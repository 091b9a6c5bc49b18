-- ===== src/Replay/Restart.antt =====
-- ReplayStateFromStore of pkg/scheduler/replay.go: what each view says of its log, and which jobs there
-- is a view of.
use dagens_public.Prelude.{
  ℕ, suc, ◌≡◌, refl, sym, subst, inl, inr, Bool, true, false, List, [], ◌∷◌, ◌==◌, ==_iff, arith,
  All, Bool-cases, select, ◌<◌,
}
use dagens_public.Prelude.Results.{Result, ok, ◌>>=◌}
use dagens_public.Prelude.Sort.{sort_by, sort_by-All, sort_by-All_back}
use dagens_public.Lifecycle.{empty, DurableJobRecord, DurableTaskRecord}
use dagens_public.Store.{
  TransitionStore, list_transitions_by_job, list_tasks_by_job, list_unfinished_jobs,
}
use dagens_public.Replay.{
  Context, ReplayError, ReplayedJobState, replay_job_state, replay_job_state_from_data,
  with_durable_job, replay_jobs, replay_state_from_store,
}
use dagens_public.Replay.Legal.{bind_ok}
use dagens_public.Prelude.Maps.{values}
use dagens_public.Replay.Chain.{last_of, job_states, task_states, task_state}
use dagens_public.Replay.Append.{
  IsLegalLog, replay_job_state_from_data_legal, replay_job_state_from_data_states,
  replay_job_state_from_data_iff,
}
use dagens_public.Replay.Rows.{IsRows, replay_job_state_from_data-IsView}

-- A view of the job `j` that agrees with the log that the store has for it.
pub record IsReplayed (store : TransitionStore) (j : ℕ) (st : ReplayedJobState) : Type 0 where
  pub job_id : st.job.job_id ≡ j
  pub transitions : st.transitions ≡ list_transitions_by_job j store
  pub rows : IsRows j st.tasks
  pub legal : IsLegalLog j (list_transitions_by_job j store)
  pub state : st.job.current_state ≡ last_of empty (job_states (list_transitions_by_job j store))
  pub task :
      (t : ℕ) → task_state t st ≡ last_of empty (task_states t (list_transitions_by_job j store))

-- The same of the job that the view names.
abbrev pub IsOfStore : TransitionStore → ReplayedJobState → Type 0
IsOfStore store st = IsReplayed store st.job.job_id st

All-select {ℓ} : {A : Type ℓ} (p : A → Bool) (xs : List A) → All (λ x. p x ≡ true) (select p xs)
All-select p [] = tt
All-select p (x ∷ xs) = elim (Bool-cases (p x)) [
  | inl e ↦ rw e (e, All-select p xs)
  | inr e ↦ rw e (All-select p xs)
]

All-owned :
    (j : ℕ) (rows : List DurableTaskRecord)
    → All (λ row. (row.job_id == j) ≡ true) rows
    → All (λ row. row.job_id ≡ j) rows
All-owned j [] a = tt
All-owned j (row ∷ rows) a = ((==_iff row.job_id j).0 a.0, All-owned j rows a.1)

list_tasks_by_job-All :
    (j : ℕ) (store : TransitionStore) → All (λ row. row.job_id ≡ j) (list_tasks_by_job j store)
unfolding list_tasks_by_job
list_tasks_by_job-All j store =
    sort_by-All (λ row. row.task_id) (λ row. row.job_id ≡ j) _
      (All-owned j _ (All-select (λ row. row.job_id == j) (values store.tasks)))

pub replay_job_state-IsReplayed :
    (ctx : Context) (store : TransitionStore) (j : ℕ) (st : ReplayedJobState)
    → replay_job_state ctx store j ≡ ok st
    → IsReplayed store j st
unfolding replay_job_state
replay_job_state-IsReplayed ctx store j st h =
    let log = list_transitions_by_job j store in
    let rows = list_tasks_by_job j store in
    let from_data : replay_job_state_from_data ctx j log rows ≡ ok st = ground arith in
    let view =
      replay_job_state_from_data-IsView j log ctx rows st (list_tasks_by_job-All j store)
        from_data in
    let (state, task) = replay_job_state_from_data_states ctx j log rows st from_data in
    record {
      job_id = view.job_id;
      transitions = view.transitions;
      rows = view.rows;
      legal = replay_job_state_from_data_legal ctx j log rows st from_data;
      state = state;
      task = task;
    }

with_durable_job-IsReplayed :
    (store : TransitionStore) (j : ℕ) (row : DurableJobRecord) (st : ReplayedJobState)
    → IsReplayed store j st
    → IsReplayed store j (with_durable_job row st)
unfolding with_durable_job
with_durable_job-IsReplayed store j row st v = record {
  job_id = v.job_id;
  transitions = v.transitions;
  rows = v.rows;
  legal = v.legal;
  state = v.state;
  task = v.task;
}

-- A replay of the store views jobs by their logs, and views every row it was given.
pub record Covers (store : TransitionStore) (jobs : List DurableJobRecord)
    (l : List ReplayedJobState) : Type 1 where
  pub views : All (IsOfStore store) l
  pub covers : (P : ℕ → Type 0) → All (λ st. P st.job.job_id) l → All (λ job. P job.job_id) jobs

Covers-of_ok :
    (store : TransitionStore) (jobs : List DurableJobRecord) (l l' : List ReplayedJobState)
    (r : Result ReplayError (List ReplayedJobState))
    → r ≡ ok l
    → r ≡ ok l'
    → Covers store jobs l
    → Covers store jobs l'
Covers-of_ok store jobs l l' r e h c = subst (Covers store jobs) same c
  where
    same : l ≡ l'
    same = ground arith

replay_jobs-Covers :
    (inner : ℕ → Context) (ctx : Context) (k : ℕ) (store : TransitionStore)
    (jobs : List DurableJobRecord) (l : List ReplayedJobState)
    → replay_jobs inner ctx k store jobs ≡ ok l
    → Covers store jobs l
unfolding replay_jobs
replay_jobs-Covers inner ctx k store [] l h =
    Covers-of_ok store [] [] l (ok []) refl h (record { views = tt; covers = λ P a. tt })
replay_jobs-Covers inner ctx k store (job ∷ jobs) l h = elim (Bool-cases (ctx k)) [
  | inl e ↦ absurd (ground arith)
  | inr e ↦
      let (st, replayed, next) =
        bind_ok (replay_job_state (inner k) store job.job_id)
          (λ st. replay_jobs inner ctx (suc k) store jobs >>= λ rest.
            ok (with_durable_job job st ∷ rest))
          (ground arith) in
      let (rest, later, last) =
        bind_ok (replay_jobs inner ctx (suc k) store jobs)
          (λ rest. ok (with_durable_job job st ∷ rest)) next in
      let c = replay_jobs-Covers inner ctx (suc k) store jobs rest later in
      let v =
        with_durable_job-IsReplayed store job.job_id job st
          (replay_job_state-IsReplayed (inner k) store job.job_id st replayed) in
      Covers-of_ok store (job ∷ jobs) (with_durable_job job st ∷ rest) l _ refl last (record {
        views = (
          subst (λ (i : ℕ). IsReplayed store i (with_durable_job job st)) (sym v.job_id) v,
          c.views,
        );
        covers = λ P a. (subst P v.job_id a.0, c.covers P a.1);
      })
]

-- ReplayStateFromStore: its views, sorted, agree with the logs and cover the unfinished jobs.
pub replay_state_from_store-Covers :
    (inner : ℕ → Context) (ctx : Context) (store : TransitionStore) (l : List ReplayedJobState)
    → replay_state_from_store inner ctx store ≡ ok l
    → Covers store (list_unfinished_jobs store) l
unfolding replay_state_from_store
replay_state_from_store-Covers inner ctx store l h =
    let (found, replayed, sorted) =
      bind_ok (replay_jobs inner ctx 0 store (list_unfinished_jobs store))
        (λ replayed.
          ok (sort_by (λ st. st.job.created_at) (sort_by (λ st. st.job.job_id) replayed)))
        h in
    let c = replay_jobs-Covers inner ctx 0 store (list_unfinished_jobs store) found replayed in
    let by_id = sort_by (λ st. st.job.job_id) found in
    Covers-of_ok store (list_unfinished_jobs store) (sort_by (λ st. st.job.created_at) by_id) l _
      refl sorted
      (record {
        views =
            sort_by-All (λ st. st.job.created_at) (IsOfStore store) by_id
              (sort_by-All (λ st. st.job.job_id) (IsOfStore store) found c.views);
        covers = λ P a. c.covers P (
            sort_by-All_back (λ st. st.job.job_id) (λ st. P st.job.job_id) found
              (sort_by-All_back (λ st. st.job.created_at) (λ st. P st.job.job_id) by_id a));
      })

-- A job that can be replayed: its identifier is set and its log is legal.
abbrev pub IsReplayable : TransitionStore → DurableJobRecord → Type 0
IsReplayable store job =
    (0 < job.job_id) × IsLegalLog job.job_id (list_transitions_by_job job.job_id store)

replay_job_state_total :
    (ctx : Context) (store : TransitionStore) (job : DurableJobRecord)
    → ((i : ℕ) → ctx i ≡ false)
    → IsReplayable store job
    → (st : ReplayedJobState) × (replay_job_state ctx store job.job_id ≡ ok st)
unfolding replay_job_state
replay_job_state_total ctx store job quiet (set, legal) =
    let (st, h) =
      (replay_job_state_from_data_iff ctx job.job_id (list_transitions_by_job job.job_id store)
          (list_tasks_by_job job.job_id store) quiet).1
        legal in
    (st, ground arith)

replay_jobs-cons :
    (inner : ℕ → Context) (ctx : Context) (k : ℕ) (store : TransitionStore) (job : DurableJobRecord)
    (jobs : List DurableJobRecord) (st : ReplayedJobState) (rest : List ReplayedJobState)
    → ctx k ≡ false
    → replay_job_state (inner k) store job.job_id ≡ ok st
    → replay_jobs inner ctx (suc k) store jobs ≡ ok rest
    → replay_jobs inner ctx k store (job ∷ jobs) ≡ ok (with_durable_job job st ∷ rest)
unfolding replay_jobs
replay_jobs-cons inner ctx k store job jobs st rest q h r = ground arith

replay_jobs_total :
    (inner : ℕ → Context) (ctx : Context) (jobs : List DurableJobRecord) (k : ℕ)
    (store : TransitionStore)
    → ((k i : ℕ) → inner k i ≡ false)
    → ((i : ℕ) → ctx i ≡ false)
    → All (IsReplayable store) jobs
    → (l : List ReplayedJobState) × (replay_jobs inner ctx k store jobs ≡ ok l)
unfolding replay_jobs
replay_jobs_total inner ctx [] k store qi q a = ([], refl)
replay_jobs_total inner ctx (job ∷ jobs) k store qi q a =
    let (st, h) = replay_job_state_total (inner k) store job (qi k) a.0 in
    let (rest, r) = replay_jobs_total inner ctx jobs (suc k) store qi q a.1 in
    (with_durable_job job st ∷ rest, replay_jobs-cons inner ctx k store job jobs st rest (q k) h r)

-- A store whose unfinished jobs can all be replayed is replayed, if the context is never canceled.
pub replay_state_from_store_total :
    (inner : ℕ → Context) (ctx : Context) (store : TransitionStore)
    → ((k i : ℕ) → inner k i ≡ false)
    → ((i : ℕ) → ctx i ≡ false)
    → All (IsReplayable store) (list_unfinished_jobs store)
    → (l : List ReplayedJobState) × (replay_state_from_store inner ctx store ≡ ok l)
unfolding replay_state_from_store
replay_state_from_store_total inner ctx store qi q a =
    let (l, h) = replay_jobs_total inner ctx (list_unfinished_jobs store) 0 store qi q a in
    (sort_by (λ st. st.job.created_at) (sort_by (λ st. st.job.job_id) l), rw h refl)
