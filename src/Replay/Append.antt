-- ===== src/Replay/Append.antt =====
-- A transition log that is legal from the empty view, as pkg/scheduler/replay.go starts it, and the
-- logs with one record more.
use dagens_public.Prelude.{
  ℕ, ◌≡◌, refl, sym, ap, ◌∙◌, subst, ◌↔◌, false, none, some, Option, List, [], ◌∷◌, ◌++◌, arith,
  All, All-append, Bool,
}
use dagens_public.Prelude.Maps.{Map, lookup, insert, lookup-insert}
use dagens_public.Prelude.Results.{ok}
use dagens_public.Lifecycle.{
  State, empty, TransitionRecord, DurableTaskRecord, validate, can_transition_job_state,
  can_transition_task_state,
}
use dagens_public.Replay.{
  Context, ReplayedJobState, task_or_zero, start_replay, seed_task, seed_tasks,
  replay_job_state_from_data,
}
use dagens_public.Replay.Chain.{
  Chain, last_of, push, job_part, task_part, job_states, task_states, task_state, MayStep,
}
use dagens_public.Replay.Legal.{IsLegal, replay_records_sound, replay_records_complete}

pub record IsLegalLog (j : ℕ) (log : List TransitionRecord) : Type 0 where
  pub records : All (λ r. (validate r ≡ none) × (r.job_id ≡ j)) log
  pub job_chain : Chain can_transition_job_state empty (job_states log)
  pub task_chain : (t : ℕ) → Chain can_transition_task_state empty (task_states t log)

push-append {ℓ} : {A : Type ℓ} (o : Option A) (xs ys : List A) → push o xs ++ ys ≡ push o (xs ++ ys)
push-append none xs ys = refl
push-append (some x) xs ys = refl

pub job_states-append :
    (log : List TransitionRecord) (r : TransitionRecord)
    → job_states (log ++ r ∷ []) ≡ job_states log ++ push (job_part r.entity_type r) []
job_states-append [] r = refl
job_states-append (q ∷ log) r =
    ap (push (job_part q.entity_type q)) (job_states-append log r)
    ∙ sym (push-append (job_part q.entity_type q) (job_states log) _)

pub task_states-append :
    (t : ℕ) (log : List TransitionRecord) (r : TransitionRecord)
    → task_states t (log ++ r ∷ []) ≡ task_states t log ++ push (task_part t r.entity_type r) []
task_states-append t [] r = refl
task_states-append t (q ∷ log) r =
    ap (push (task_part t q.entity_type q)) (task_states-append t log r)
    ∙ sym (push-append (task_part t q.entity_type q) (task_states t log) _)

Chain-append :
    (can : State → State → Bool) (s : State) (ss : List State) (o : Option State)
    → Chain can s ss
    → MayStep can (last_of s ss) o
    → Chain can s (ss ++ push o [])
Chain-append can s [] none c m = tt
Chain-append can s [] (some t) c m = (m, tt)
Chain-append can s (t ∷ ss) o c m = (c.0, Chain-append can t ss o c.1 m)

-- The last state after one step.
abbrev pub after_part : State → Option State → State
after_part s none = s
after_part s (some t) = t

pub last_of-append :
    (s : State) (ss : List State) (o : Option State)
    → last_of s (ss ++ push o []) ≡ after_part (last_of s ss) o
last_of-append s [] none = refl
last_of-append s [] (some t) = refl
last_of-append s (t ∷ ss) o = last_of-append t ss o

pub IsLegalLog-append :
    (j : ℕ) (log : List TransitionRecord) (r : TransitionRecord)
    → IsLegalLog j log
    → validate r ≡ none
    → r.job_id ≡ j
    → MayStep can_transition_job_state (last_of empty (job_states log)) (job_part r.entity_type r)
    → ((t : ℕ)
        → MayStep can_transition_task_state
            (last_of empty (task_states t log))
            (task_part t r.entity_type r))
    → IsLegalLog j (log ++ r ∷ [])
IsLegalLog-append j log r l v m mj mt = record {
  records = All-append _ log (r ∷ []) l.records ((v, m), tt);
  job_chain = rw (job_states-append log r) (Chain-append _ _ (job_states log) _ l.job_chain mj);
  task_chain = λ t.
      rw (task_states-append t log r)
        (Chain-append _ _ (task_states t log) _ (l.task_chain t) (mt t));
}

seeded_empty :
    (t : ℕ) (durable : List DurableTaskRecord) (m : Map DurableTaskRecord)
    → (task_or_zero (lookup t m)).current_state ≡ empty
    → (task_or_zero (lookup t (seed_tasks durable m))).current_state ≡ empty
unfolding seed_tasks
seeded_empty t [] m h = h
seeded_empty t (d ∷ durable) m h =
    seeded_empty t durable (insert d.task_id (seed_task d) m)
      (ground (arith, lookup-insert d.task_id t (seed_task d) m))

start_task :
    (t j : ℕ) (log : List TransitionRecord) (durable : List DurableTaskRecord)
    → task_state t (start_replay j log durable) ≡ empty
unfolding start_replay lookup
start_task t j log durable = seeded_empty t durable [] refl

start-IsLegal :
    (j : ℕ) (log : List TransitionRecord) (durable : List DurableTaskRecord)
    → IsLegalLog j log
    → IsLegal j log (start_replay j log durable)
unfolding start_replay
start-IsLegal j log durable l = record {
  records = l.records;
  job_chain = l.job_chain;
  task_chain = λ t.
      subst (λ s. Chain can_transition_task_state s (task_states t log))
        (sym (start_task t j log durable)) (l.task_chain t);
}

legal_start :
    (j : ℕ) (log : List TransitionRecord) (durable : List DurableTaskRecord)
    → IsLegal j log (start_replay j log durable)
    → IsLegalLog j log
unfolding start_replay
legal_start j log durable l = record {
  records = l.records;
  job_chain = l.job_chain;
  task_chain = λ t.
      subst (λ s. Chain can_transition_task_state s (task_states t log))
        (start_task t j log durable) (l.task_chain t);
}

-- Where the context is never canceled, the replay of a job from its data succeeds exactly when every
-- record is valid and of the job, the job's states follow one another legally, and so do the states
-- of each task by itself. The durable task rows have no say in it.
pub replay_job_state_from_data_iff :
    (ctx : Context) (j : ℕ) (log : List TransitionRecord) (durable : List DurableTaskRecord)
    → ((i : ℕ) → ctx i ≡ false)
    → ((st : ReplayedJobState) × (replay_job_state_from_data ctx j log durable ≡ ok st))
      ↔ IsLegalLog j log
unfolding replay_job_state_from_data
replay_job_state_from_data_iff ctx j log durable quiet = (
  λ (st, h).
      legal_start j log durable
        (replay_records_sound ctx 0 j log (start_replay j log durable) st h).0,
  λ l.
      replay_records_complete ctx 0 j log (start_replay j log durable) quiet
        (start-IsLegal j log durable l),
)

-- Whatever the context, a replay that succeeds had a legal log.
pub replay_job_state_from_data_legal :
    (ctx : Context) (j : ℕ) (log : List TransitionRecord) (durable : List DurableTaskRecord)
    (st : ReplayedJobState)
    → replay_job_state_from_data ctx j log durable ≡ ok st
    → IsLegalLog j log
unfolding replay_job_state_from_data
replay_job_state_from_data_legal ctx j log durable st h =
    legal_start j log durable (replay_records_sound ctx 0 j log (start_replay j log durable) st h).0

-- A replay that succeeds gives the job the last state that the log has for it, and each task the last
-- state that the log has for that task; an entity that the log never names has the empty state.
pub replay_job_state_from_data_states :
    (ctx : Context) (j : ℕ) (log : List TransitionRecord) (durable : List DurableTaskRecord)
    (st : ReplayedJobState)
    → replay_job_state_from_data ctx j log durable ≡ ok st
    → (st.job.current_state ≡ last_of empty (job_states log))
      × ((t : ℕ) → task_state t st ≡ last_of empty (task_states t log))
unfolding replay_job_state_from_data
replay_job_state_from_data_states ctx j log durable st h =
    let p = (replay_records_sound ctx 0 j log (start_replay j log durable) st h).1 in
    (
      unfold start_replay in p.job_last,
      λ t. p.task_last t ∙ ap (λ s. last_of s (task_states t log)) (start_task t j log durable),
    )
