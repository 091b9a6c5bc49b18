-- ===== src/Recovery/Restore.antt =====
-- A restart of the scheduler from the store that it wrote (pkg/scheduler/recovery.go and the writers
-- of pkg/scheduler/scheduler.go).
use dagens_public.Prelude.{
  ℕ, ◌<◌, ◌≡◌, ◌≢◌, ◌⊎◌, Any, List, ◌∷◌, refl, sym, ap, ◌∙◌, subst, inl, inr, false, Option, none,
  some, [], arith, All, All-map, Option-cases,
}
use dagens_public.Prelude.Maps.{lookup}
use dagens_public.Lifecycle.{State, empty, DurableJobRecord}
use dagens_public.Store.{TransitionStore, list_unfinished_jobs, list_transitions_by_job}
use dagens_public.Store.Log.{IsConsistent}
use dagens_public.Replay.{Context, ReplayedJobState}
use dagens_public.Replay.Chain.{last_of, job_states, task_states}
use dagens_public.Replay.Append.{IsLegalLog}
use dagens_public.Replay.Restart.{IsReplayable, IsOfStore, replay_state_from_store-Covers}
use dagens_public.Replay.Names.{HasRow, IsNamed, replay_state_from_store-AllNamed}
use dagens_public.Scheduler.{Scheduler, Job, Task, Stage}
use dagens_public.Scheduler.Writer.Synced.{
  IsSynced, IsTaskSynced, Agrees, stored_log, log_of, last_job_state, last_task_state,
}
use dagens_public.Config.{SchedulerConfig}
use dagens_public.Recovery.{Decoder, build_recovered_runtime_job, recover_from_transitions}
use dagens_public.Recovery.Build.{IsLogged, AllLogged, HasTask, recovered_stages-HasTask}
use dagens_public.Recovery.Built.{AllJobs, Builds, recover_from_transitions-AllJobs}
use dagens_public.Recovery.Recover.{IsRecovered, Holds}
use dagens_public.Recovery.Startup.{recover_from_transitions-Restarts, recover_quiet}

-- The state of the recovered job against the job in the memory that was lost, if it was there: they are
-- the same, unless the log has no state of the job.
abbrev pub AgreesWith : (last state : State) → Option Job → Type 0
AgreesWith last state none = Unit
AgreesWith last state (some job) = (last ≡ empty) ⊎ (state ≡ job.lifecycle_state)

-- A task of the recovered job, in the state of a task of the lost memory.
abbrev pub IsTaskOf : Task → Task → Type 0
IsTaskOf lost task = (task.id ≡ lost.id) × (task.lifecycle_state ≡ lost.lifecycle_state)

-- A job of the restarted scheduler `t`, as `s` had it and its tasks.
pub record IsRestored (rows : List DurableJobRecord) (s t : Scheduler) (j : ℕ) : Type 0 where
  pub job : Job
  pub held : lookup j t.jobs ≡ some job
  pub name : HasRow rows j job.name
  pub state : job.lifecycle_state ≡ last_job_state j s
  pub agrees : AgreesWith (last_job_state j s) job.lifecycle_state (lookup j s.jobs)
  pub tasks :
      (lost : Task)
      → lost.job_id ≡ j
      → IsTaskSynced lost s
      → last_task_state j lost.id s ≢ empty
      → Any (λ stage. Any (IsTaskOf lost) stage.tasks) job.stages

lost_agrees :
    (s : Scheduler) (j : ℕ) (o : Option Job) (state : State)
    → IsSynced s
    → lookup j s.jobs ≡ o
    → state ≡ last_job_state j s
    → AgreesWith (last_job_state j s) state o
lost_agrees s j none state y h e = tt
lost_agrees s j (some job) state y h e = elim (y.agrees j job h) [
  | inl n ↦ inl n
  | inr m ↦ inr (e ∙ m)
]

module _ (store : TransitionStore) (j : ℕ) (lost : Task) (memory : State)
    (same : last_of empty (task_states lost.id (list_transitions_by_job j store)) ≡ memory)
    (is : memory ≡ lost.lifecycle_state) where
  tasks_of :
      (tasks : List Task)
      → All (IsLogged j store) tasks
      → Any (λ task. task.id ≡ lost.id) tasks
      → Any (IsTaskOf lost) tasks
  tasks_of [] a h = absurd h
  tasks_of (task ∷ tasks) a h = elim h [
    | inr i ↦ inr (tasks_of tasks a.1 i)
    | inl e ↦ inl (
      e,
      a.0.1
          ∙ ap (λ (t : ℕ). last_of empty (task_states t (list_transitions_by_job j store))) e
          ∙ same
          ∙ is,
    )
  ]

  stages_of :
      (stages : List Stage)
      → AllLogged j store stages
      → HasTask lost.id stages
      → Any (λ stage. Any (IsTaskOf lost) stage.tasks) stages
  stages_of [] a h = absurd h
  stages_of (stage ∷ stages) a h = elim h [
    | inl i ↦ inl (tasks_of stage.tasks a.0 i)
    | inr i ↦ inr (stages_of stages a.1 i)
  ]

fresh-IsRecovered :
    (store : TransitionStore) (t : Scheduler)
    → t.transition_store ≡ some store
    → t.jobs ≡ []
    → IsRecovered store t
unfolding lookup
fresh-IsRecovered store t stored fresh = record {
  stored = stored;
  synced = λ j job h. absurd (ground (arith, ap (lookup j) fresh));
}

task_agrees :
    (s : Scheduler) (j : ℕ) (lost : Task)
    → lost.job_id ≡ j
    → IsTaskSynced lost s
    → last_task_state j lost.id s ≢ empty
    → last_task_state j lost.id s ≡ lost.lifecycle_state
task_agrees s j lost o y n =
    let moved : Agrees (last_task_state j lost.id s) lost.lifecycle_state =
      subst (λ (i : ℕ). Agrees (last_task_state i lost.id s) lost.lifecycle_state) o y in
    elim moved [ inl e ↦ absurd (n e) | inr e ↦ e ]

-- What is so of every job that is built from a view of the store: the name is that of an unfinished
-- job's row, and every task that the log gives a state is there.
abbrev IsBuilt : TransitionStore → ℕ → Job → Type 0
IsBuilt store j job =
    HasRow (list_unfinished_jobs store) j job.name
    × ((t : ℕ)
        → last_of empty (task_states t (list_transitions_by_job j store)) ≢ empty
        → HasTask t job.stages)

views-IsBuilt :
    (decoder : Decoder) (store : TransitionStore) (rs : List ReplayedJobState)
    → All (IsOfStore store) rs
    → All (IsNamed (list_unfinished_jobs store)) rs
    → All (Builds decoder (IsBuilt store)) rs
unfolding build_recovered_runtime_job
views-IsBuilt decoder store [] v n = tt
views-IsBuilt decoder store (r ∷ rs) v n = (
  (n.0, λ t m. recovered_stages-HasTask decoder store r.job.job_id r t v.0 m),
  views-IsBuilt decoder store rs v.1 n.1,
)

no_jobs :
    (decoder : Decoder) (Q : ℕ → Job → Type 0) (t : Scheduler) → t.jobs ≡ [] → AllJobs decoder Q t
unfolding lookup
no_jobs decoder Q t fresh = record { all = λ j job h. absurd (ground (arith, ap (lookup j) fresh)) }

IsRestored-of_held :
    (decoder : Decoder) (s t : Scheduler) (store : TransitionStore) (j : ℕ)
    → s.transition_store ≡ some store
    → IsSynced s
    → IsRecovered store t
    → AllJobs decoder (IsBuilt store) t
    → Holds t j
    → IsRestored (list_unfinished_jobs store) s t j
IsRestored-of_held decoder s t store j stored y r b h = elim (Option-cases (lookup j t.jobs)) [
  | inl e ↦ absurd (ground arith)
  | inr (job, e) ↦
      let k = r.synced j job e in
      let same : list_transitions_by_job j store ≡ log_of j s = stored_log s store j stored in
      let state : job.lifecycle_state ≡ last_job_state j s =
        k.state ∙ ap (λ l. last_of empty (job_states l)) same in
      record {
        job = job;
        held = e;
        name = (b.all j job e).0;
        state = state;
        agrees = lost_agrees s j (lookup j s.jobs) job.lifecycle_state y refl state;
        tasks = λ lost o q n.
            let equal = ap (λ l. last_of empty (task_states lost.id l)) same in
            stages_of store j lost (last_task_state j lost.id s) equal (task_agrees s j lost o q n)
              job.stages k.tasks ((b.all j job e).1 lost.id (λ z. n (sym equal ∙ z)));
      }
]

-- Let `s` be a scheduler where every log replays, is numbered in order up to the job's counter, and
-- either has no record of its job or ends in the state that the scheduler holds for the job; let the
-- logs of its store be sorted and valid and the identifiers of its unfinished jobs be set. Another
-- scheduler `t` that starts with that store and no job in memory recovers without an error if its
-- contexts are never canceled. It then holds every unfinished job, in the last state that the log has
-- for it, which is the state that `s` had it in if the log has one; and for every task of the job that
-- agrees with its log and has a record there, it holds a task of that identifier in the same state.
-- The name of the job is that of a row of an unfinished job with its identifier. Every job that it
-- holds is in sync with the store.
pub recover_of_synced :
    (decoder : Decoder) (config : SchedulerConfig) (inner : ℕ → Context) (replay_ctx ctx : Context)
    (s t : Scheduler) (store : TransitionStore)
    → ((k i : ℕ) → inner k i ≡ false)
    → ((i : ℕ) → replay_ctx i ≡ false)
    → ((i : ℕ) → ctx i ≡ false)
    → s.transition_store ≡ some store
    → IsSynced s
    → IsConsistent store
    → All (λ row. 0 < row.job_id) (list_unfinished_jobs store)
    → t.transition_store ≡ some store
    → t.jobs ≡ []
    → ((recover_from_transitions decoder config inner replay_ctx ctx t).0 ≡ none)
      × (All
          (λ row.
            IsRestored
              (list_unfinished_jobs store)
              s
              (recover_from_transitions decoder config inner replay_ctx ctx t).1
              row.job_id)
          (list_unfinished_jobs store))
      × IsRecovered store (recover_from_transitions decoder config inner replay_ctx ctx t).1
recover_of_synced decoder config inner replay_ctx ctx s t store qi qr q stored y c set stored'
      fresh =
    let u = (recover_from_transitions decoder config inner replay_ctx ctx t).1 in
    let r =
      recover_from_transitions-Restarts decoder config store c inner replay_ctx ctx t
        (fresh-IsRecovered store t stored' fresh) in
    let built =
      recover_from_transitions-AllJobs decoder (IsBuilt store) config inner replay_ctx ctx store t
        stored'
        (λ rs h.
          views-IsBuilt decoder store rs
            (replay_state_from_store-Covers inner replay_ctx store rs h).views
            (replay_state_from_store-AllNamed inner replay_ctx store rs h))
        (no_jobs decoder (IsBuilt store) t fresh) in
    let quiet = recover_quiet decoder config store c inner replay_ctx ctx t stored' qi qr q (
      All-map (λ row. 0 < row.job_id) (IsReplayable store)
        (λ row l. (
          l,
          subst (IsLegalLog row.job_id) (sym (stored_log s store row.job_id stored))
              (y.legal row.job_id),
        ))
        (list_unfinished_jobs store) set) in
    (
      quiet,
      All-map (λ row. Holds u row.job_id)
          (λ row. IsRestored (list_unfinished_jobs store) s u row.job_id)
          (λ row. IsRestored-of_held decoder s u store row.job_id stored y r.recovered built)
          (list_unfinished_jobs store) (r.all quiet),
      r.recovered,
    )
