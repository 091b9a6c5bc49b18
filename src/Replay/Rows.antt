-- ===== src/Replay/Rows.antt =====
-- The view that a replay of pkg/scheduler/replay.go gives: its task rows stand once each, under their
-- own identifiers, and belong to the job.
use dagens_public.Prelude.{
  ℕ, suc, ◌≡◌, refl, subst, inl, inr, none, some, List, [], ◌∷◌, ◌==◌, ==_iff, arith, All,
  Bool-cases,
}
use dagens_public.Prelude.Maps.{Map, lookup, insert, lookup-insert}
use dagens_public.Prelude.Results.{ok}
use dagens_public.Lifecycle.{
  TransitionRecord, DurableTaskRecord, EntityType, job_entity, task_entity, other_entity,
}
use dagens_public.Replay.Legal.{bind_ok}
use dagens_public.Replay.Step.{replay_record_applies}
use dagens_public.Replay.{
  Context, ReplayedJobState, start_replay, seed_tasks, seed_task, replay_records, replay_record,
  apply_entity, replay_job_state_from_data, task_or_zero, apply_job, apply_task_row, replayed_task,
  replayed_job,
}

-- One entry for each key, and a row of the job under each.
abbrev pub IsRows : ℕ → Map DurableTaskRecord → Type 0
IsRows j [] = Unit
IsRows j ((k, row) ∷ m) =
    (lookup k m ≡ none) × ((row.task_id ≡ k) × ((row.job_id ≡ j) × IsRows j m))

insert-IsRows :
    (j k : ℕ) (row : DurableTaskRecord) (m : Map DurableTaskRecord)
    → row.task_id ≡ k
    → row.job_id ≡ j
    → IsRows j m
    → IsRows j (insert k row m)
unfolding insert lookup
insert-IsRows j k row [] t o r = (refl, (t, (o, tt)))
insert-IsRows j k row ((k', row') ∷ m) t o (fresh, (t', (o', r))) = elim (Bool-cases (k' == k)) [
  | inl e ↦ rw e (subst (λ (i : ℕ). lookup i m ≡ none) ((==_iff k' k).0 e) fresh, (t, (o, r)))
  | inr e ↦ rw e (
    ground (arith, lookup-insert k k' row m, fresh, ==_iff k k', ==_iff k' k),
    (t', (o', insert-IsRows j k row m t o r)),
  )
]

-- Each row of the values is the one that its identifier reads.
abbrev pub IsFound : Map DurableTaskRecord → DurableTaskRecord → Type 0
IsFound m row = lookup row.task_id m ≡ some row

seed_tasks-IsRows :
    (j : ℕ) (rows : List DurableTaskRecord) (m : Map DurableTaskRecord)
    → All (λ row. row.job_id ≡ j) rows
    → IsRows j m
    → IsRows j (seed_tasks rows m)
unfolding seed_tasks seed_task
seed_tasks-IsRows j [] m a r = r
seed_tasks-IsRows j (row ∷ rows) m a r =
    seed_tasks-IsRows j rows (insert row.task_id (seed_task row) m) a.1
      (insert-IsRows j row.task_id (seed_task row) m refl a.0 r)

-- What holds of the view of the job `j` during a replay of `log`.
pub record IsView (j : ℕ) (log : List TransitionRecord) (st : ReplayedJobState) : Type 0 where
  pub job_id : st.job.job_id ≡ j
  pub transitions : st.transitions ≡ log
  pub rows : IsRows j st.tasks

module _ (j : ℕ) (log : List TransitionRecord) where
  start-IsView :
      (durable : List DurableTaskRecord)
      → All (λ row. row.job_id ≡ j) durable
      → IsView j log (start_replay j log durable)
  unfolding start_replay
  start-IsView durable a = record {
    job_id = refl;
    transitions = refl;
    rows = seed_tasks-IsRows j durable [] a tt;
  }

  apply_task_row-IsView :
      (r : TransitionRecord) (row : DurableTaskRecord) (st st' : ReplayedJobState)
      → r.job_id ≡ j
      → apply_task_row r row st ≡ ok st'
      → IsView j log st
      → IsView j log st'
  unfolding apply_task_row replayed_task
  apply_task_row-IsView r row st st' o h v = record {
    job_id = ground (arith, v.job_id);
    transitions = ground (arith, v.transitions);
    rows =
        subst (IsRows j) (ground arith)
          (insert-IsRows j r.task_id (replayed_task r row) st.tasks refl o v.rows);
  }

  apply_entity-IsView :
      (e : EntityType) (r : TransitionRecord) (st st' : ReplayedJobState)
      → r.job_id ≡ j
      → apply_entity e r st ≡ ok st'
      → IsView j log st
      → IsView j log st'
  unfolding apply_entity apply_job replayed_job
  apply_entity-IsView job_entity r st st' o h v = record {
    job_id = ground (arith, v.job_id);
    transitions = ground (arith, v.transitions);
    rows = subst (IsRows j) (ground arith) v.rows;
  }
  apply_entity-IsView task_entity r st st' o h v =
      apply_task_row-IsView r (task_or_zero (lookup r.task_id st.tasks)) st st' o h v
  apply_entity-IsView (other_entity n) r st st' o h v = cc

  replay_records-IsView :
      (ctx : Context) (k : ℕ) (rs : List TransitionRecord) (st st' : ReplayedJobState)
      → replay_records ctx k j rs st ≡ ok st'
      → IsView j log st
      → IsView j log st'
  unfolding replay_records replay_record
  replay_records-IsView ctx k [] st st' h v = subst (IsView j log) (ground arith) v
  replay_records-IsView ctx k (r ∷ rs) st st' h v = elim (Bool-cases (ctx k)) [
    | inl e ↦ absurd (ground arith)
    | inr e ↦
        let (mid, step, rest) =
          bind_ok (replay_record j r st) (replay_records ctx (suc k) j rs) (ground arith) in
        let (valid, o, applied) = replay_record_applies j r st mid step in
        replay_records-IsView ctx (suc k) rs mid st' rest
          (apply_entity-IsView r.entity_type r st mid o applied v)
  ]

-- The view that a replay of the job's log gives.
pub replay_job_state_from_data-IsView :
    (j : ℕ) (log : List TransitionRecord) (ctx : Context) (durable : List DurableTaskRecord)
    (st : ReplayedJobState)
    → All (λ row. row.job_id ≡ j) durable
    → replay_job_state_from_data ctx j log durable ≡ ok st
    → IsView j log st
unfolding replay_job_state_from_data
replay_job_state_from_data-IsView j log ctx durable st a h =
    replay_records-IsView j log ctx 0 log (start_replay j log durable) st h
      (start-IsView j log durable a)
