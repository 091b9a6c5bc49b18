-- ===== src/Replay/Names.antt =====
-- ReplayStateFromStore of pkg/scheduler/replay.go: each view has the name of a row that was replayed.
use dagens_public.Prelude.{
  ℕ, suc, ◌≡◌, refl, sym, subst, inl, inr, List, [], ◌∷◌, arith, All, All-map, Any, Bool-cases,
}
use dagens_public.Prelude.Results.{Result, ok, ◌>>=◌}
use dagens_public.Prelude.Sort.{sort_by, sort_by-All}
use dagens_public.Lifecycle.{DurableJobRecord}
use dagens_public.Store.{TransitionStore, list_unfinished_jobs}
use dagens_public.Replay.{
  Context, ReplayError, ReplayedJobState, replay_job_state, with_durable_job, replay_jobs,
  replay_state_from_store,
}
use dagens_public.Replay.Legal.{bind_ok}
use dagens_public.Replay.Restart.{replay_job_state-IsReplayed}

-- One of the rows has this identifier and name.
abbrev pub HasRow : List DurableJobRecord → (job_id name : ℕ) → Type 0
HasRow rows job_id name = Any (λ row. (row.job_id ≡ job_id) × (row.name ≡ name)) rows

abbrev pub IsNamed : List DurableJobRecord → ReplayedJobState → Type 0
IsNamed rows st = HasRow rows st.job.job_id st.job.name

AllNamed-of_ok :
    (rows : List DurableJobRecord) (l l' : List ReplayedJobState)
    (r : Result ReplayError (List ReplayedJobState))
    → r ≡ ok l
    → r ≡ ok l'
    → All (IsNamed rows) l
    → All (IsNamed rows) l'
AllNamed-of_ok rows l l' r e h a = subst (All (IsNamed rows)) same a
  where
    same : l ≡ l'
    same = ground arith

replay_jobs-AllNamed :
    (inner : ℕ → Context) (ctx : Context) (k : ℕ) (store : TransitionStore)
    (jobs : List DurableJobRecord) (l : List ReplayedJobState)
    → replay_jobs inner ctx k store jobs ≡ ok l
    → All (IsNamed jobs) l
unfolding replay_jobs with_durable_job
replay_jobs-AllNamed inner ctx k store [] l h = AllNamed-of_ok [] [] l (ok []) refl h tt
replay_jobs-AllNamed inner ctx k store (job ∷ jobs) l h = elim (Bool-cases (ctx k)) [
  | inl e ↦ absurd (ground arith)
  | inr e ↦
      let (st, replayed, next) =
        bind_ok (replay_job_state (inner k) store job.job_id)
          (λ st. replay_jobs inner ctx (suc k) store jobs >>= λ rest.
            ok (with_durable_job job st ∷ rest))
          (ground arith) in
      let (rest, later, last) =
        bind_ok (replay_jobs inner ctx (suc k) store jobs)
          (λ rest. ok (with_durable_job job st ∷ rest)) next in
      let named = (replay_job_state-IsReplayed (inner k) store job.job_id st replayed).job_id in
      AllNamed-of_ok (job ∷ jobs) (with_durable_job job st ∷ rest) l _ refl last (
        inl (sym named, refl),
        All-map (IsNamed jobs) (IsNamed (job ∷ jobs)) (λ other a. inr a) rest
            (replay_jobs-AllNamed inner ctx (suc k) store jobs rest later),
      )
]

pub replay_state_from_store-AllNamed :
    (inner : ℕ → Context) (ctx : Context) (store : TransitionStore) (l : List ReplayedJobState)
    → replay_state_from_store inner ctx store ≡ ok l
    → All (IsNamed (list_unfinished_jobs store)) l
unfolding replay_state_from_store
replay_state_from_store-AllNamed inner ctx store l h =
    let rows = list_unfinished_jobs store in
    let (found, replayed, sorted) =
      bind_ok (replay_jobs inner ctx 0 store rows)
        (λ replayed.
          ok (sort_by (λ st. st.job.created_at) (sort_by (λ st. st.job.job_id) replayed)))
        h in
    let by_id = sort_by (λ st. st.job.job_id) found in
    AllNamed-of_ok rows (sort_by (λ st. st.job.created_at) by_id) l _ refl sorted (
      sort_by-All (λ st. st.job.created_at) (IsNamed rows) by_id
        (sort_by-All (λ st. st.job.job_id) (IsNamed rows) found
          (replay_jobs-AllNamed inner ctx 0 store rows found replayed)))
