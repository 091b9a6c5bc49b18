-- ===== src/Recovery/StageStatus.antt =====
-- deriveStageStatus of pkg/scheduler/recovery.go.
use dagens_public.Prelude.{
  ◌≡◌, refl, Bool, true, false, ◌&&◌, ◌||◌, List, [], ◌∷◌, if◌then◌else◌, arith,
}
use dagens_public.Scheduler.{
  JobStatus, job_pending, job_running, job_completed, job_failed, job_blocked, Task,
}
use dagens_public.Recovery.{StageFlags, flag_task, flag_tasks, flagged_status, derive_stage_status}

abbrev pub is_failed : JobStatus → Bool
is_failed job_failed = true
is_failed job_blocked = true
is_failed _ = false

abbrev pub is_running : JobStatus → Bool
is_running job_running = true
is_running _ = false

abbrev pub is_completed : JobStatus → Bool
is_completed job_completed = true
is_completed _ = false

-- Whether a task has a status that passes the test, and whether all have.
abbrev pub any_status : (JobStatus → Bool) → List Task → Bool
any_status p [] = false
any_status p (task ∷ tasks) = p task.status || any_status p tasks

abbrev pub all_status : (JobStatus → Bool) → List Task → Bool
all_status p [] = true
all_status p (task ∷ tasks) = p task.status && all_status p tasks

record Flagged (flags flags' : StageFlags) (f r c : Bool) : Type 0 where
  failed : flags'.has_failed ≡ (flags.has_failed || f)
  running : flags'.has_running ≡ (flags.has_running || r)
  completed : flags'.all_completed ≡ (flags.all_completed && c)

flag_task_once :
    (status : JobStatus) (flags : StageFlags)
    → Flagged flags
        (flag_task status flags)
        (is_failed status)
        (is_running status)
        (is_completed status)
flag_task_once status flags = record {
  failed = ground arith;
  running = ground arith;
  completed = ground arith;
}

flag_tasks_all :
    (tasks : List Task) (flags : StageFlags)
    → Flagged flags
        (flag_tasks tasks flags)
        (any_status is_failed tasks)
        (any_status is_running tasks)
        (all_status is_completed tasks)
unfolding flag_tasks
flag_tasks_all [] flags = record {
  failed = ground arith;
  running = ground arith;
  completed = ground arith;
}
flag_tasks_all (task ∷ tasks) flags =
    let once = flag_task_once task.status flags in
    let rest = flag_tasks_all tasks (flag_task task.status flags) in
    record {
      failed = ground (arith, once.failed, rest.failed);
      running = ground (arith, once.running, rest.running);
      completed = ground (arith, once.completed, rest.completed);
    }

-- The status of a recovered stage: failed if a task has failed or is blocked, else running if a task
-- runs, else completed if there are tasks and all are completed, else pending. The order of the tasks
-- has no say in it.
pub derive_stage_status_lem :
    (tasks : List Task)
    → derive_stage_status tasks ≡ (
        if any_status is_failed tasks
        then job_failed
        else if any_status is_running tasks
        then job_running
        else elim tasks [
          | [] ↦ job_pending
          | task ∷ rest ↦
              if all_status is_completed (task ∷ rest) then job_completed else job_pending
        ])
unfolding derive_stage_status flagged_status
derive_stage_status_lem [] = refl
derive_stage_status_lem (task ∷ tasks) =
    let all =
      flag_tasks_all (task ∷ tasks)
        (record { has_running = false; has_failed = false; all_completed = true }) in
    ground (arith, all.failed, all.running, all.completed)
