-- ===== src/Tests/Writers.antt =====
-- The transition writers of pkg/scheduler/scheduler.go, run from a scheduler with one submitted job.
use dagens_public.Prelude.{inl, refl, false, none, some, [], ◌∷◌, List, arith}
use dagens_public.Prelude.Maps.{lookup}
use dagens_public.Lifecycle.{
  empty, submitted, queued, pending, job_submitted, job_queued, task_created, task_dispatched,
}
use dagens_public.Store.{new_store, list_transitions_by_job}
use dagens_public.Replay.{Context}
use dagens_public.Scheduler.{Job, Task, Scheduler, Codec, job_pending, new_job}
use dagens_public.Scheduler.Writer.{record_job_transition, record_task_transition}
use dagens_public.Scheduler.Writer.Synced.{IsSynced, IsTaskSynced, Keeps}
use dagens_public.Scheduler.Writer.JobWrite.{record_job_transition-Keeps}
use dagens_public.Scheduler.Writer.TaskWrite.{TaskKeeps, record_task_transition-TaskKeeps}
use dagens_public.Scheduler.Writer.Run.{WriteOp, job_write, task_write}

abbrev pub codec : Codec
codec = record { marshal_input = λ o. 0; normalize_error = λ e. e }

abbrev pub job : Job
job = record (new_job 5 1 9) { lifecycle_state = submitted }

abbrev pub task : Task
task = record {
  id = 7;
  stage_id = 2;
  job_id = 1;
  agent_id = 0;
  agent_name = 3;
  input = none;
  output = none;
  partition_key = 0;
  status = job_pending;
  lifecycle_state = pending;
  attempts = 0;
}

abbrev pub start : Scheduler
start = record {
  jobs = (1, job) ∷ [];
  job_queue = [];
  job_queue_size = 4;
  queued_jobs = [];
  pending_enqueue = 0;
  recovering = false;
  transition_store = some new_store;
  job_sequences = [];
}

pub start-IsSynced : IsSynced start
unfolding list_transitions_by_job new_store lookup new_job
start-IsSynced = record {
  legal = λ j. record { records = tt; job_chain = tt; task_chain = λ t. tt };
  numbered = λ j. record { sorted = tt; below = tt };
  keyed = λ j q h. ground arith;
  agrees = λ j q h. inl refl;
}

pub start-IsTaskSynced : IsTaskSynced task start
unfolding list_transitions_by_job new_store lookup
start-IsTaskSynced = inl refl

abbrev queued_scheduler : Scheduler
queued_scheduler = record_job_transition codec false 6 1 job_queued queued 0 start

record_job_transition-Keeps_example : Keeps start queued_scheduler
unfolding lookup
record_job_transition-Keeps_example =
    record_job_transition-Keeps codec false 6 1 job_queued queued 0 start start-IsSynced
      (omega arith)

record_task_transition-TaskKeeps_example :
    TaskKeeps task start
      (record_task_transition codec false 6 task task_dispatched pending 3 1 0 start).1
      (record_task_transition codec false 6 task task_dispatched pending 3 1 0 start).0
unfolding lookup
record_task_transition-TaskKeeps_example =
    record_task_transition-TaskKeeps codec false 6 task task_dispatched pending 3 1 0 start
      start-IsSynced (omega arith) start-IsTaskSynced

abbrev quiet : Context
quiet i = false

-- The job is submitted and queued, its task created, and then a move is asked for that is not legal.
abbrev writes : List WriteOp
writes =
    job_write false 5 1 job_submitted submitted 0
    ∷ task_write false 5 task_created pending 0 0 0
    ∷ job_write false 6 1 job_queued queued 0
    ∷ job_write false 7 1 job_submitted submitted 0
    ∷ []

abbrev new_task : Task
new_task = record task { lifecycle_state = empty }

abbrev new_start : Scheduler
new_start = record start { jobs = (1, new_job 5 1 9) ∷ [] }
