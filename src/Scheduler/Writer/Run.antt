-- ===== src/Scheduler/Writer/Run.antt =====
-- A run of recordJobTransition and recordTaskTransition (pkg/scheduler/scheduler.go) on a new store, and
-- its replay (pkg/scheduler/replay.go).
use dagens_public.Prelude.{ℕ, ◌+◌, ◌<◌, Bool, List, [], ◌∷◌}
use dagens_public.Lifecycle.{State, TransitionType}
use dagens_public.Scheduler.{Scheduler, Task, Codec}
use dagens_public.Scheduler.Writer.{record_job_transition, record_task_transition}
use dagens_public.Scheduler.Writer.Synced.{IsSynced, IsTaskSynced, counter}

-- A call of recordJobTransition, for any job, or of recordTaskTransition, for the task that is followed;
-- `done` is whether its context is canceled.
pub data WriteOp : Type 0 where
  job_write :
      (done : Bool) (now job_id : ℕ) (transition : TransitionType) (new_state : State)
      (error_summary : ℕ)
      → WriteOp
  task_write :
      (done : Bool) (now : ℕ) (transition : TransitionType) (new_state : State)
      (node_id attempt error_summary : ℕ)
      → WriteOp

unfoldable pub write_step : Codec → WriteOp → Scheduler × Task → Scheduler × Task
write_step codec (job_write done now job_id transition new_state error_summary) (s, task) =
    (record_job_transition codec done now job_id transition new_state error_summary s, task)
write_step codec (task_write done now transition new_state node_id attempt error_summary)
      (s, task) =
    record_task_transition codec done now task transition new_state node_id attempt error_summary s

unfoldable pub write_run : Codec → List WriteOp → Scheduler × Task → Scheduler × Task
write_run codec [] u = u
write_run codec (op ∷ ops) u = write_run codec ops (write_step codec op u)

-- The counter of the job that a call writes for does not wrap.
abbrev pub HasRoom : WriteOp → Scheduler × Task → Type 0
HasRoom (job_write done now job_id transition new_state error_summary) (s, task) =
    counter job_id s + 1 < 18446744073709551616
HasRoom (task_write done now transition new_state node_id attempt error_summary) (s, task) =
    counter task.job_id s + 1 < 18446744073709551616

abbrev pub AllRoom : Codec → List WriteOp → Scheduler × Task → Type 0
AllRoom codec [] u = Unit
AllRoom codec (op ∷ ops) u = HasRoom op u × AllRoom codec ops (write_step codec op u)

abbrev IsInSync : Scheduler × Task → Type 0
IsInSync (s, task) = IsSynced s × IsTaskSynced task s
