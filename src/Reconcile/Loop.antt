-- ===== src/Reconcile/Loop.antt =====
-- The loop of reconcileDurableQueuedJobsOnce in pkg/scheduler/scheduler.go over the unfinished jobs, with
-- the quarantine of jobs whose log does not replay.
use dagens_public.Prelude.{
  ℕ, suc, ◌+◌, Bool, true, false, Option, none, some, List, [], ◌∷◌, ltb, if◌then◌else◌,
}
use dagens_public.Prelude.Maps.{lookup, insert, delete}
use dagens_public.Prelude.Results.{Result, ok, err}
use dagens_public.Prelude.Sort.{sort_by}
use dagens_public.Lifecycle.{DurableJobRecord}
use dagens_public.Store.{TransitionStore, list_unfinished_jobs}
use dagens_public.Replay.{ReplayError, ReplayedJobState, replay_job_state, with_durable_job}
use dagens_public.Reconcile.{
  ReconcileEnv, ReconcileMode, leader, follower, RoundInput, Reconciler,
  try_enqueue_existing_queued_job, fail_durable_queued_job_for_reconcile, reconcile_replayed,
}

-- 30 seconds, in nanoseconds.
abbrev pub malformed_replay_quarantine_ttl : ℕ
malformed_replay_quarantine_ttl = 30000000000

-- A round from the outcome of the replay on.
unfoldable pub reconcile_with :
    ReconcileEnv
    → ReconcileMode
    → RoundInput
    → DurableJobRecord
    → Result ReplayError ReplayedJobState
    → Reconciler
    → Reconciler
reconcile_with env follower round row (err e) c = c
reconcile_with env leader round row (err e) c = record c {
  replay_quarantine =
      insert row.job_id (round.now + malformed_replay_quarantine_ttl) c.replay_quarantine;
  scheduler =
      fail_durable_queued_job_for_reconcile env round row (env.reason_replay_failed e) c.scheduler;
}
reconcile_with env mode round row (ok r) c = record c {
  replay_quarantine = delete row.job_id c.replay_quarantine;
  scheduler = reconcile_replayed env mode round row (with_durable_job row r) c.scheduler;
}

-- A round of a job that is not in quarantine; a leader first tries the job in memory.
unfoldable pub reconcile_job :
    ReconcileEnv
    → ReconcileMode
    → TransitionStore
    → RoundInput
    → DurableJobRecord
    → Reconciler
    → Reconciler
reconcile_job env follower store round row c =
    reconcile_with env follower round row (replay_job_state round.replay_ctx store row.job_id) c
reconcile_job env leader store round row c =
    let (queued_again, s) =
      try_enqueue_existing_queued_job env.enable_stickiness row.job_id c.scheduler in
    if queued_again
    then record c { scheduler = s }
    else reconcile_with env leader round row (replay_job_state round.replay_ctx store row.job_id)
        (record c { scheduler = s })

-- A round by the quarantine of its job.
abbrev pub reconcile_quarantined :
    ReconcileEnv
    → ReconcileMode
    → TransitionStore
    → RoundInput
    → DurableJobRecord
    → Option ℕ
    → Reconciler
    → Reconciler
reconcile_quarantined env mode store round row none c = reconcile_job env mode store round row c
reconcile_quarantined env mode store round row (some until) c =
    if ltb round.now until
    then c
    else reconcile_job env mode store round row
        (record c { replay_quarantine = delete row.job_id c.replay_quarantine })

abbrev pub round_store : TransitionStore → Option TransitionStore → TransitionStore
round_store listed none = listed
round_store listed (some store) = store

-- The loop; true for the error of the context. Each round reads the store as it is then.
unfoldable pub reconcile_rows :
    ReconcileEnv
    → ReconcileMode
    → TransitionStore
    → (ℕ → RoundInput)
    → ℕ
    → List DurableJobRecord
    → Reconciler
    → Bool × Reconciler
reconcile_rows env mode listed rounds i [] c = (false, c)
reconcile_rows env mode listed rounds i (row ∷ rows) c =
    let c' =
      reconcile_quarantined env mode (round_store listed c.scheduler.transition_store) (rounds i)
        row (lookup row.job_id c.replay_quarantine) c in
    let rest = reconcile_rows env mode listed rounds (suc i) rows c' in
    if (rounds i).canceled then (true, c) else rest

-- The success is recorded only if the loop has ended.
abbrev pub record_success : ℕ → Bool × Reconciler → Bool × Reconciler
record_success at (true, c) = (true, c)
record_success at (false, c) = (false, record c { last_reconcile_time = at })

abbrev pub reconcile_store :
    ReconcileEnv
    → ReconcileMode
    → (ℕ → RoundInput)
    → ℕ
    → Option TransitionStore
    → Reconciler
    → Bool × Reconciler
reconcile_store env mode rounds at none c = (false, c)
reconcile_store env mode rounds at (some store) c = record_success at (
    reconcile_rows env mode store rounds 0
      (sort_by (λ row. row.created_at) (sort_by (λ row. row.job_id) (list_unfinished_jobs store)))
      c)

-- reconcileDurableQueuedJobsOnce; `at` is the time of its end.
unfoldable pub reconcile_durable_queued_jobs_once :
    ReconcileEnv → ReconcileMode → (ℕ → RoundInput) → ℕ → Reconciler → Bool × Reconciler
reconcile_durable_queued_jobs_once env mode rounds at c =
    reconcile_store env mode rounds at c.scheduler.transition_store c
