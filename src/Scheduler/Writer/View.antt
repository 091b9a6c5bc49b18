-- ===== src/Scheduler/Writer/View.antt =====
-- What a restart sees (pkg/scheduler/replay.go) of what the scheduler wrote (pkg/scheduler/scheduler.go).
use dagens_public.Prelude.{ℕ, ◌<◌, ◌≡◌, sym, subst, ap, ◌∙◌, false, some, arith}
use dagens_public.Prelude.Maps.{lookup}
use dagens_public.Prelude.Results.{ok}
use dagens_public.Lifecycle.{empty}
use dagens_public.Store.{TransitionStore, list_tasks_by_job, list_transitions_by_job}
use dagens_public.Replay.{Context, ReplayedJobState, replay_job_state}
use dagens_public.Replay.Chain.{task_state, last_of, job_states, task_states}
use dagens_public.Replay.Append.{
  replay_job_state_from_data_iff, replay_job_state_from_data_states, IsLegalLog,
}
use dagens_public.Scheduler.{Scheduler, Job, Task}
use dagens_public.Scheduler.Writer.Synced.{
  IsSynced, IsTaskSynced, Agrees, last_job_state, last_task_state, log_of, stored_log,
}

-- What the replay gives of a job, against the logs and the memory of a scheduler: the last states of
-- the log, which are those in memory where the log has one.
pub record IsViewOf (s : Scheduler) (j : ℕ) (st : ReplayedJobState) : Type 0 where
  pub job_last : st.job.current_state ≡ last_job_state j s
  pub task_last : (t : ℕ) → task_state t st ≡ last_task_state j t s
  pub job_memory :
      (job : Job) → lookup j s.jobs ≡ some job → Agrees (last_job_state j s) job.lifecycle_state
  pub task_memory :
      (task : Task)
      → task.job_id ≡ j
      → IsTaskSynced task s
      → Agrees (last_task_state j task.id s) task.lifecycle_state

-- The store of a synced scheduler replays each job whose identifier is set, if the context is never
-- canceled.
pub replay_of_synced :
    (ctx : Context) (s : Scheduler) (store : TransitionStore) (j : ℕ)
    → ((i : ℕ) → ctx i ≡ false)
    → s.transition_store ≡ some store
    → IsSynced s
    → 0 < j
    → (st : ReplayedJobState) × (replay_job_state ctx store j ≡ ok st) × IsViewOf s j st
unfolding replay_job_state
replay_of_synced ctx s store j quiet stored y set =
    let log = list_transitions_by_job j store in
    let same : log ≡ log_of j s = stored_log s store j stored in
    let (st, replayed) =
      (replay_job_state_from_data_iff ctx j log (list_tasks_by_job j store) quiet).1
        (subst (IsLegalLog j) (sym same) (y.legal j)) in
    let (jobs, tasks) =
      replay_job_state_from_data_states ctx j log (list_tasks_by_job j store) st replayed in
    (
      st,
      ground arith,
      record {
        job_last = jobs ∙ ap (λ l. last_of empty (job_states l)) same;
        task_last = λ t. tasks t ∙ ap (λ l. last_of empty (task_states t l)) same;
        job_memory = y.agrees j;
        task_memory = λ task owned k.
            subst (λ (i : ℕ). Agrees (last_task_state i task.id s) task.lifecycle_state) owned k;
      },
    )
