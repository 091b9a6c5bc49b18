-- ===== src/Replay/Legal.antt =====
-- Replay (pkg/scheduler/replay.go) seen entity by entity: a log replays when the states of the job,
-- and of each task by itself, follow one another legally.
use dagens_public.Prelude.{
  ℕ, suc, ◌≡◌, refl, ◌∙◌, inl, inr, false, none, List, [], ◌∷◌, arith, Bool-cases, All,
}
use dagens_public.Prelude.Results.{Result, ok, err, ◌>>=◌}
use dagens_public.Lifecycle.{
  TransitionRecord, can_transition_job_state, can_transition_task_state, validate,
}
use dagens_public.Replay.Chain.{
  Chain, last_of, job_part, task_part, job_states, task_states, task_state, Chain-push, Chain-pop,
  MayStep-of_Chain, last_of-push,
}
use dagens_public.Replay.Step.{Stepped, replay_record_ok, replay_record_total}
use dagens_public.Replay.{Context, ReplayError, ReplayedJobState, replay_record, replay_records}

-- What makes a log replay from the view `st`, entity by entity.
pub record IsLegal (job_id : ℕ) (log : List TransitionRecord) (st : ReplayedJobState) : Type 0 where
  pub records : All (λ r. (validate r ≡ none) × (r.job_id ≡ job_id)) log
  pub job_chain : Chain can_transition_job_state st.job.current_state (job_states log)
  pub task_chain : (t : ℕ) → Chain can_transition_task_state (task_state t st) (task_states t log)

-- The view that a log leads to.
pub record Replays (log : List TransitionRecord) (st st' : ReplayedJobState) : Type 0 where
  pub job_last : st'.job.current_state ≡ last_of st.job.current_state (job_states log)
  pub task_last : (t : ℕ) → task_state t st' ≡ last_of (task_state t st) (task_states t log)

IsLegal-cons :
    (j : ℕ) (r : TransitionRecord) (rs : List TransitionRecord) (st st' : ReplayedJobState)
    → (validate r ≡ none) × (r.job_id ≡ j)
    → Stepped r.entity_type r st st'
    → IsLegal j rs st'
    → IsLegal j (r ∷ rs) st
IsLegal-cons j r rs st st' m s l = record {
  records = (m, l.records);
  job_chain = Chain-push _ _ _ (job_part r.entity_type r) _ s.job_step l.job_chain;
  task_chain =
      λ t. Chain-push _ _ _ (task_part t r.entity_type r) _ (s.task_step t) (l.task_chain t);
}

IsLegal-tail :
    (j : ℕ) (r : TransitionRecord) (rs : List TransitionRecord) (st st' : ReplayedJobState)
    → Stepped r.entity_type r st st'
    → IsLegal j (r ∷ rs) st
    → IsLegal j rs st'
IsLegal-tail j r rs st st' s l = record {
  records = l.records.1;
  job_chain = Chain-pop _ _ _ (job_part r.entity_type r) _ s.job_step l.job_chain;
  task_chain =
      λ t. Chain-pop _ _ _ (task_part t r.entity_type r) _ (s.task_step t) (l.task_chain t);
}

Replays-cons :
    (r : TransitionRecord) (rs : List TransitionRecord) (st st' st'' : ReplayedJobState)
    → Stepped r.entity_type r st st'
    → Replays rs st' st''
    → Replays (r ∷ rs) st st''
Replays-cons r rs st st' st'' s p = record {
  job_last =
      p.job_last
      ∙ last_of-push can_transition_job_state _ _ (job_part r.entity_type r) _ s.job_step;
  task_last = λ t.
      p.task_last t
      ∙ last_of-push can_transition_task_state _ _ (task_part t r.entity_type r) _ (s.task_step t);
}

pub bind_ok {ℓ κ} :
    {A : Type ℓ} {B : Type κ} (m : Result ReplayError A) (f : A → Result ReplayError B) {b : B}
    → (m >>= f) ≡ ok b
    → (a : A) × (m ≡ ok a) × (f a ≡ ok b)
bind_ok (ok a) f h = (a, refl, h)
bind_ok (err e) f h = cc

-- A replay that succeeds shows that its log is legal for every entity, and gives the job and each
-- task the last state that the log has for it.
pub replay_records_sound :
    (ctx : Context) (k j : ℕ) (log : List TransitionRecord) (st st' : ReplayedJobState)
    → replay_records ctx k j log st ≡ ok st'
    → IsLegal j log st × Replays log st st'
unfolding replay_records
replay_records_sound ctx k j [] st st' h = (
  record { records = tt; job_chain = tt; task_chain = λ t. tt },
  record { job_last = ground arith; task_last = λ t. ground arith },
)
replay_records_sound ctx k j (r ∷ rs) st st' h = elim (Bool-cases (ctx k)) [
  | inl e ↦ absurd (ground arith)
  | inr e ↦
      let (mid, step, rest) =
        bind_ok (replay_record j r st) (replay_records ctx (suc k) j rs) (ground arith) in
      let (v, m, s) = replay_record_ok j r st mid step in
      let (l, p) = replay_records_sound ctx (suc k) j rs mid st' rest in
      (IsLegal-cons j r rs st mid (v, m) s l, Replays-cons r rs st mid st' s p)
]

replay_records-cons :
    (ctx : Context) (k j : ℕ) (r : TransitionRecord) (rs : List TransitionRecord)
    (st mid : ReplayedJobState)
    → ctx k ≡ false
    → replay_record j r st ≡ ok mid
    → replay_records ctx k j (r ∷ rs) st ≡ replay_records ctx (suc k) j rs mid
unfolding replay_records
replay_records-cons ctx k j r rs st mid q h = ground arith

-- A legal log replays whenever the context is not canceled on the way.
pub replay_records_complete :
    (ctx : Context) (k j : ℕ) (log : List TransitionRecord) (st : ReplayedJobState)
    → ((i : ℕ) → ctx i ≡ false)
    → IsLegal j log st
    → (st' : ReplayedJobState) × (replay_records ctx k j log st ≡ ok st')
unfolding replay_records
replay_records_complete ctx k j [] st quiet l = (st, refl)
replay_records_complete ctx k j (r ∷ rs) st quiet l =
    let (mid, step) =
      replay_record_total j r st l.records.0.0 l.records.0.1
        (MayStep-of_Chain can_transition_job_state _ (job_part r.entity_type r) _ l.job_chain)
        (λ t.
          MayStep-of_Chain can_transition_task_state _ (task_part t r.entity_type r) _
            (l.task_chain t)) in
    let (v, m, s) = replay_record_ok j r st mid step in
    let (st', rest) =
      replay_records_complete ctx (suc k) j rs mid quiet (IsLegal-tail j r rs st mid s l) in
    (st', replay_records-cons ctx k j r rs st mid (quiet k) step ∙ rest)
