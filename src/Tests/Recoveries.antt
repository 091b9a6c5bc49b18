-- ===== src/Tests/Recoveries.antt =====
-- Recovery (pkg/scheduler/recovery.go) from a store with one queued job.
use dagens_public.Prelude.{
  ℕ, ◌≡◌, ◌⊎◌, refl, sym, subst, inl, inr, true, false, none, some, List, [], ◌∷◌, ◌==◌, ==_iff,
  arith, All, Bool-cases, if◌then◌else◌,
}
use dagens_public.Prelude.Maps.{lookup, insert}
use dagens_public.Lifecycle.{
  empty, submitted, queued, pending, job_entity, task_entity, job_submitted, job_queued,
  task_created, is_terminal_job_state, TransitionRecord, DurableJobRecord, DurableTaskRecord,
  validate, can_transition_job_state, can_transition_task_state, is_valid_job_lifecycle_state,
  is_valid_task_lifecycle_state, same_state, valid_job_transitions, valid_task_transitions,
}
use dagens_public.Store.{
  TransitionStore, list_unfinished_jobs, list_transitions_by_job, by_sequence, list_tasks_by_job,
}
use dagens_public.Store.Log.{IsConsistent}
use dagens_public.Replay.{
  Context, replay_state_from_store, replay_job_state, replay_job_state_from_data, replay_record,
  apply_entity, replay_records, replayed_job, replayed_task, seed_task, seed_tasks, start_replay,
  with_durable_job,
}
use dagens_public.Replay.Append.{IsLegalLog}
use dagens_public.Scheduler.{
  Scheduler, Job, Task, job_failed, job_running, job_completed, job_pending, new_job,
}
use dagens_public.Scheduler.Writer.Synced.{IsSynced, Agrees, counter}
use dagens_public.Recovery.StageStatus.{
  any_status, all_status, is_failed, is_running, is_completed, derive_stage_status_lem,
}
use dagens_public.Recovery.Resume.{IsMarked, IsIn, IsFull, IsResumable}
use dagens_public.Recovery.Resumed.{resume_recovered_queued_jobs_locked-IsResumable}
use dagens_public.Prelude.Sort.{IsSorted, sort_by, insert_sorted}
use dagens_public.Scheduler.Writer.Extend.{IsNumbered}
use dagens_public.Replay.Chain.{last_of, job_states}
use dagens_public.Config.{SchedulerConfig, default_scheduler_config}
use dagens_public.Recovery.{
  Decoder, recover_from_transitions, derive_stage_status, resume_recovered_queued_jobs_locked,
  recover_from_store, recover_replayed, build_recovered_runtime_job, finish_recovery, flag_tasks,
  flagged_status, group_tasks, is_safe_for_queued_resume, recover_job, recover_jobs,
  recovered_stages, recovered_task, resume_job, runtime_job_status_from_lifecycle,
  runtime_task_status_from_lifecycle, seed_at, seed_job_sequence_locked,
  unmarshal_recovered_agent_input,
}
use dagens_public.Recovery.Recover.{IsRecovered, HoldsOn}
use dagens_public.Recovery.Startup.{recover_from_transitions-IsRecovered}
use dagens_public.Recovery.Restore.{IsRestored, recover_of_synced}
use dagens_public.Tests.Writers.{job, task, start}
use dagens_public.Queue.{enqueue_job_locked}

abbrev pub submitted_record : TransitionRecord
submitted_record = record {
  sequence_id = 1;
  entity_type = job_entity;
  transition = job_submitted;
  job_id = 1;
  task_id = 0;
  previous_state = empty;
  new_state = submitted;
  node_id = 0;
  attempt = 0;
  error_summary = 0;
  occurred_at = 5;
}

abbrev created_record : TransitionRecord
created_record = record submitted_record {
  sequence_id = 2;
  entity_type = task_entity;
  transition = task_created;
  task_id = 7;
  new_state = pending;
}

abbrev pub queued_record : TransitionRecord
queued_record = record submitted_record {
  sequence_id = 3;
  transition = job_queued;
  previous_state = submitted;
  new_state = queued;
}

abbrev pub queued_row : DurableJobRecord
queued_row = record {
  job_id = 1;
  name = 9;
  current_state = queued;
  last_sequence_id = 3;
  created_at = 5;
  updated_at = 5;
}

abbrev pub pending_row : DurableTaskRecord
pending_row = record {
  task_id = 7;
  job_id = 1;
  stage_id = 2;
  node_id = 0;
  agent_id = 0;
  agent_name = 3;
  input_json = 0;
  partition_key = 0;
  current_state = pending;
  last_attempt = 0;
  updated_at = 5;
}

abbrev pub log : List TransitionRecord
log = submitted_record ∷ created_record ∷ queued_record ∷ []

abbrev pub store : TransitionStore
store = record {
  transitions = (1, log) ∷ [];
  jobs = (1, queued_row) ∷ [];
  tasks = (7, pending_row) ∷ [];
}

abbrev pub lost : Scheduler
lost = record start {
  jobs = (1, record job { lifecycle_state = queued }) ∷ [];
  transition_store = some store;
  job_sequences = (1, 3) ∷ [];
}

abbrev pub restarted : Scheduler
restarted = record start { jobs = []; transition_store = some store }

abbrev resuming : SchedulerConfig
resuming = record default_scheduler_config { enable_resume_recovered_queued_jobs = true }

abbrev pub decoder : Decoder
decoder = record { is_blank = λ raw. raw == 0; unmarshal_input = some }

abbrev pub quiet : Context
quiet i = false

log_at : (j : ℕ) → list_transitions_by_job j store ≡ (if 1 == j then log else [])
unfolding list_transitions_by_job lookup
log_at j = ground arith

legal-log : IsLegalLog 1 log
unfolding validate can_transition_job_state
legal-log = record {
  records = ((refl, refl), ((refl, refl), ((refl, refl), tt)));
  job_chain = (inl refl, (inr refl, tt));
  task_chain = λ t. elim (Bool-cases (7 == t)) [ inl e ↦ rw e (inl refl, tt) | inr e ↦ rw e tt ];
}

-- What holds of the log of job 1 and of the empty log holds of every log of the store.
by_log :
    (P : ℕ → List TransitionRecord → Type 0)
    → P 1 log
    → ((j : ℕ) → P j [])
    → (j : ℕ) → P j (list_transitions_by_job j store)
by_log P one other j = subst (P j) (sym (log_at j)) (elim (Bool-cases (1 == j)) [
  | inl e ↦ rw e (subst (λ (i : ℕ). P i log) ((==_iff 1 j).0 e) one)
  | inr e ↦ rw e (other j)
])

store-IsConsistent : IsConsistent store
unfolding validate
store-IsConsistent = record {
  ordered =
      by_log (λ j. IsSorted by_sequence)
        ((omega arith, (omega arith, tt)), ((omega arith, tt), (tt, tt))) (λ j. tt);
  owned =
      by_log (λ j. All (λ r. (r.job_id ≡ j) × (validate r ≡ none)))
        ((refl, refl), ((refl, refl), ((refl, refl), tt))) (λ j. tt);
}

lost-IsSynced : IsSynced lost
unfolding lookup new_job
lost-IsSynced = record {
  legal =
      by_log (λ j. IsLegalLog j) legal-log
        (λ j. record { records = tt; job_chain = tt; task_chain = λ t. tt });
  numbered =
      by_log (λ j. IsNumbered (counter j lost))
        (record {
          sorted = ((omega arith, (omega arith, tt)), ((omega arith, tt), (tt, tt)));
          below = (omega arith, (omega arith, (omega arith, tt)));
        })
        (λ j. record { sorted = tt; below = tt });
  keyed = λ j q h. ground arith;
  agrees =
      by_log
        (λ j l.
          (q : Job)
          → lookup j lost.jobs ≡ some q
          → Agrees (last_of empty (job_states l)) q.lifecycle_state)
        (λ q h. inr (ground arith)) (λ j q h. inl refl);
}

recover_of_synced_example :
    ((recover_from_transitions decoder resuming (λ k. quiet) quiet quiet restarted).0 ≡ none)
    × (All
        (λ row.
          IsRestored
            (list_unfinished_jobs store)
            lost
            (recover_from_transitions decoder resuming (λ k. quiet) quiet quiet restarted).1
            row.job_id)
        (list_unfinished_jobs store))
    × IsRecovered store
        (recover_from_transitions decoder resuming (λ k. quiet) quiet quiet restarted).1
unfolding list_unfinished_jobs sort_by is_terminal_job_state insert_sorted
recover_of_synced_example =
    recover_of_synced decoder resuming (λ k. quiet) quiet quiet lost restarted store (λ k i. refl)
      (λ i. refl) (λ i. refl) refl lost-IsSynced store-IsConsistent (omega arith, tt) refl refl

restarted-IsRecovered : IsRecovered store restarted
unfolding lookup
restarted-IsRecovered = record { stored = refl; synced = λ j q h. absurd (ground arith) }

recover_from_transitions-IsRecovered_example :
    IsRecovered store
      (recover_from_transitions decoder default_scheduler_config
        (λ k. quiet)
        quiet
        quiet
        restarted).1
    × HoldsOn restarted
        (recover_from_transitions decoder default_scheduler_config
          (λ k. quiet)
          quiet
          quiet
          restarted).1
recover_from_transitions-IsRecovered_example =
    recover_from_transitions-IsRecovered decoder default_scheduler_config (λ k. quiet) quiet quiet
      store restarted store-IsConsistent restarted-IsRecovered

-- The queued job is in the queue again.
resumed_queue :
    (recover_from_transitions decoder resuming (λ k. quiet) quiet quiet restarted).1.job_queue
    ≡ 1 ∷ []
unfolding recover_from_transitions recover_from_store recover_replayed replay_state_from_store
    list_unfinished_jobs sort_by is_terminal_job_state insert_sorted replay_job_state
    replay_job_state_from_data list_transitions_by_job lookup replay_record validate apply_entity
    list_tasks_by_job insert can_transition_job_state can_transition_task_state
    is_valid_job_lifecycle_state is_valid_task_lifecycle_state same_state valid_job_transitions
    valid_task_transitions enqueue_job_locked build_recovered_runtime_job derive_stage_status
    finish_recovery flag_tasks flagged_status group_tasks is_safe_for_queued_resume recover_job
    recover_jobs recovered_stages recovered_task resume_job resume_recovered_queued_jobs_locked
    runtime_job_status_from_lifecycle runtime_task_status_from_lifecycle seed_at
    seed_job_sequence_locked unmarshal_recovered_agent_input replay_records replayed_job
    replayed_task seed_task seed_tasks start_replay with_durable_job default_scheduler_config
resumed_queue = refl

abbrev some_tasks : List Task
some_tasks = task ∷ record task { status = job_running } ∷ []

derive_stage_status_lem_example : derive_stage_status some_tasks ≡ (
    if any_status is_failed some_tasks
    then job_failed
    else if any_status is_running some_tasks
    then job_running
    else elim some_tasks [
      | [] ↦ job_pending
      | q ∷ rest ↦ if all_status is_completed (q ∷ rest) then job_completed else job_pending
    ])
derive_stage_status_lem_example = derive_stage_status_lem some_tasks

resume_recovered_queued_jobs_locked-IsResumable_example :
    All
      (IsResumable (resume_recovered_queued_jobs_locked (1 ∷ []) lost))
      (resume_recovered_queued_jobs_locked (1 ∷ []) lost).job_queue
    × ((resume_recovered_queued_jobs_locked (1 ∷ []) lost).jobs ≡ lost.jobs)
    × All
        (λ j.
          (¬ IsResumable lost j)
          ⊎ ((IsMarked lost j
                ⊎ IsIn j (resume_recovered_queued_jobs_locked (1 ∷ []) lost).job_queue)
              ⊎ IsFull (resume_recovered_queued_jobs_locked (1 ∷ []) lost)))
        (1 ∷ [])
resume_recovered_queued_jobs_locked-IsResumable_example =
    resume_recovered_queued_jobs_locked-IsResumable (1 ∷ []) lost tt
