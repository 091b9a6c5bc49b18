-- ===== src/Scheduler.antt =====
-- pkg/scheduler/types.go and the state of pkg/scheduler/scheduler.go that its operations below touch.
-- A job pointer is the job's identifier in `jobs`, so every holder of the pointer sees the same job.
-- A task pointer is a value that an operation takes and gives back.
pub mod Writer
use dagens_public.Prelude.{
  ℕ, suc, ◌+◌, ◌%◌, Bool, true, false, Option, none, some, List, [], ◌∷◌, if◌then◌else◌,
}
use dagens_public.Prelude.Maps.{Map, lookup, insert}
use dagens_public.Lifecycle.{State, submitted, DurableJobRecord}
use dagens_public.Store.{TransitionStore}

pub data JobStatus : Type 0 where
  job_pending job_running job_completed job_failed : JobStatus
  job_blocked job_awaiting_human job_suspended : JobStatus

pub record Task : Type 0 where
  pub id : ℕ
  pub stage_id : ℕ
  pub job_id : ℕ
  pub agent_id : ℕ
  pub agent_name : ℕ
  pub input : Option ℕ
  pub output : Option ℕ
  pub partition_key : ℕ
  pub status : JobStatus
  pub lifecycle_state : State
  pub attempts : ℕ

pub record Stage : Type 0 where
  pub id : ℕ
  pub job_id : ℕ
  pub tasks : List Task
  pub dependencies : List ℕ
  pub status : JobStatus

pub record Job : Type 0 where
  pub id : ℕ
  pub name : ℕ
  pub stages : List Stage
  pub status : JobStatus
  pub lifecycle_state : State
  pub created_at : ℕ
  pub updated_at : ℕ

unfoldable pub new_job : ℕ → ℕ → ℕ → Job
new_job now id name = record {
  id = id;
  name = name;
  stages = [];
  status = job_pending;
  lifecycle_state = submitted;
  created_at = now;
  updated_at = now;
}

-- The part of Scheduler that persists transitions and queues jobs.
pub record Scheduler : Type 0 where
  pub jobs : Map Job
  pub job_queue : List ℕ
  pub job_queue_size : ℕ
  pub queued_jobs : Map (Unit {0})
  pub pending_enqueue : ℕ
  pub recovering : Bool
  pub transition_store : Option TransitionStore
  pub job_sequences : Map ℕ

-- Code that the scheduler calls and that is not modelled: encoding/json on a task's input, and the
-- clean-up of an error text.
pub record Codec : Type 0 where
  pub marshal_input : Option ℕ → ℕ
  pub normalize_error : ℕ → ℕ

abbrev pub number_or_zero : Option ℕ → ℕ
number_or_zero none = 0
number_or_zero (some n) = n

-- The uint64 counter wraps.
abbrev pub next_number : ℕ → ℕ
next_number n = (n + 1) % 18446744073709551616

-- nextSequenceIDWithContext without a SequenceIDStore, which the in-memory store is not.
unfoldable pub next_sequence_id : ℕ → Scheduler → ℕ × Scheduler
next_sequence_id job_id s = (
  next_number (number_or_zero (lookup job_id s.job_sequences)),
  record s {
    job_sequences =
        insert job_id (next_number (number_or_zero (lookup job_id s.job_sequences)))
          s.job_sequences;
  },
)

abbrev job_snapshot : Option Job → ℕ → ℕ → Option DurableJobRecord
job_snapshot none seq now = none
job_snapshot (some job) seq now = some (record {
  job_id = job.id;
  name = job.name;
  current_state = job.lifecycle_state;
  last_sequence_id = seq;
  created_at = job.created_at;
  updated_at = now;
})

unfoldable pub durable_job_snapshot : ℕ → ℕ → ℕ → Scheduler → Option DurableJobRecord
durable_job_snapshot job_id seq now s = job_snapshot (lookup job_id s.jobs) seq now
