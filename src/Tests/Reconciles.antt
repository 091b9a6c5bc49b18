-- ===== src/Tests/Reconciles.antt =====
-- The reconcile loop of pkg/scheduler/scheduler.go from a store with one job.
use dagens_public.Prelude.{ℕ, ◌≡◌, refl, true, false, Option, none, some, List, [], ◌∷◌, map}
use dagens_public.Prelude.Results.{ok}
use dagens_public.Lifecycle.{
  running, queued, job_running, TransitionRecord, is_terminal_job_state, validate,
  can_transition_job_state, can_transition_task_state, is_valid_job_lifecycle_state,
  is_valid_task_lifecycle_state, same_state, valid_job_transitions, valid_task_transitions,
}
use dagens_public.Store.{
  TransitionStore, list_transitions_by_job, list_unfinished_jobs, append_transition, append_valid,
  list_tasks_by_job, upsert_job, with_tx,
}
use dagens_public.Scheduler.{next_sequence_id}
use dagens_public.Reconcile.{
  ReconcileEnv, RoundInput, Reconciler, leader, follower, try_enqueue_existing_queued_job,
  fail_durable_queued_job_for_reconcile, fail_job, force_failed, lead_job, lead_open, lead_queued,
  reconcile_replayed, recovered_queued_missing_execution_field_count, update_job_status,
  warm_replay,
}
use dagens_public.Reconcile.Loop.{
  reconcile_durable_queued_jobs_once, reconcile_quarantined, reconcile_rows, reconcile_job,
  reconcile_with,
}
use dagens_public.Reconcile.Follower.{OnlyWatches, reconcile_durable_queued_jobs_once-OnlyWatches}
use dagens_public.Reconcile.Leader.{Queues, reconcile_quarantined-Queues}
use dagens_public.Tests.Writers.{codec}
use dagens_public.Tests.Recoveries.{store, restarted, decoder, quiet, queued_record, queued_row}
use dagens_public.Prelude.Sort.{sort_by, insert_sorted}
use dagens_public.Prelude.Maps.{lookup, insert, delete}
use dagens_public.Replay.{
  replay_job_state, replay_job_state_from_data, replay_record, apply_entity, replay_records,
  replayed_job, replayed_task, seed_task, seed_tasks, start_replay, with_durable_job,
}
use dagens_public.Queue.Selectors.{
  all_replayed_tasks_pending, has_stale_in_flight_replayed_task, replayed_terminal_job_state,
}
use dagens_public.Queue.{enqueue_job_locked}
use dagens_public.Recovery.{
  build_recovered_runtime_job, derive_stage_status, flag_tasks, flagged_status, group_tasks,
  is_safe_for_queued_resume, recovered_stages, recovered_task, runtime_job_status_from_lifecycle,
  runtime_task_status_from_lifecycle, seed_at, seed_job_sequence_locked,
  unmarshal_recovered_agent_input,
}
use dagens_public.Scheduler.Writer.{
  job_record, job_row, may_record_job, persist_transition_write, record_job, record_job_transition,
  settle_job, write_job,
}

abbrev env : ReconcileEnv
env = record {
  codec = codec;
  decoder = decoder;
  enable_stickiness = false;
  reason_replay_failed = λ e. 1;
  reason_orphan = 2;
  reason_stale = 3;
  reason_success = 4;
  reason_failure = 5;
  reason_missing_fields = 6;
}

abbrev leading : RoundInput
leading = record {
  canceled = false;
  replay_ctx = quiet;
  now = 9;
  dispatch_authority = ok (record { is_leader = true });
  done = false;
}

abbrev started : Reconciler
started = record { scheduler = restarted; replay_quarantine = []; last_reconcile_time = 0 }

reconcile_durable_queued_jobs_once-OnlyWatches_example :
    OnlyWatches restarted
      (reconcile_durable_queued_jobs_once env follower (λ i. leading) 9 started).1.scheduler
reconcile_durable_queued_jobs_once-OnlyWatches_example =
    reconcile_durable_queued_jobs_once-OnlyWatches env (λ i. leading) 9 started

reconcile_quarantined-Queues_example :
    Queues env restarted
      (reconcile_quarantined env leader store leading queued_row none started).scheduler
reconcile_quarantined-Queues_example =
    reconcile_quarantined-Queues env leading queued_row store none started

-- The same job as it runs, with its task still pending.
abbrev running_record : TransitionRecord
running_record = record queued_record {
  sequence_id = 4;
  transition = job_running;
  previous_state = queued;
  new_state = running;
}

abbrev running_store : TransitionStore
running_store = record store {
  transitions = (1, queued_record ∷ running_record ∷ []) ∷ [];
  jobs = (1, record queued_row { current_state = running; last_sequence_id = 4 }) ∷ [];
}

abbrev numbers : Option TransitionStore → List ℕ
numbers none = []
numbers (some s) = map (λ r. r.sequence_id) (list_transitions_by_job 1 s)

-- A leader without the job in memory fails it, and numbers the record 1, before the others.
orphan_numbers :
    numbers
      (reconcile_durable_queued_jobs_once env leader
        (λ i. leading)
        9
        (record started {
          scheduler = record restarted { transition_store = some running_store };
        })).1.scheduler.transition_store
    ≡ 1 ∷ 3 ∷ 4 ∷ []
unfolding reconcile_durable_queued_jobs_once reconcile_rows reconcile_job
    try_enqueue_existing_queued_job reconcile_with fail_durable_queued_job_for_reconcile fail_job
    force_failed lead_job lead_open lead_queued reconcile_replayed
    recovered_queued_missing_execution_field_count update_job_status warm_replay sort_by
    insert_sorted lookup insert delete list_unfinished_jobs list_transitions_by_job
    append_transition append_valid list_tasks_by_job upsert_job with_tx is_terminal_job_state
    validate can_transition_job_state can_transition_task_state is_valid_job_lifecycle_state
    is_valid_task_lifecycle_state same_state valid_job_transitions valid_task_transitions
    replay_job_state replay_job_state_from_data replay_record apply_entity replay_records
    replayed_job replayed_task seed_task seed_tasks start_replay with_durable_job
    all_replayed_tasks_pending has_stale_in_flight_replayed_task replayed_terminal_job_state
    enqueue_job_locked build_recovered_runtime_job derive_stage_status flag_tasks flagged_status
    group_tasks is_safe_for_queued_resume recovered_stages recovered_task
    runtime_job_status_from_lifecycle runtime_task_status_from_lifecycle seed_at
    seed_job_sequence_locked unmarshal_recovered_agent_input job_record job_row may_record_job
    persist_transition_write record_job record_job_transition settle_job write_job next_sequence_id
orphan_numbers = refl
