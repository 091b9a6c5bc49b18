-- ===== src/Tests/Queues.antt =====
-- The queue of pkg/scheduler/scheduler.go at concrete values.
use dagens_public.Prelude.{◌≡◌, ◌≢◌, ◌↔◌, ◌⊎◌, inl, inr, refl, none, some, [], ◌∷◌, List, arith}
use dagens_public.Prelude.Maps.{lookup, insert}
use dagens_public.Lifecycle.{submitted, succeeded, failed, is_terminal_job_state}
use dagens_public.Scheduler.{Job, Scheduler}
use dagens_public.Queue.{
  cleanup_terminal_jobs_once, submit_reserve, enqueue_job_locked, receive_job, submit_finish,
  mark_job_dequeued, prune_jobs, is_prunable,
}
use dagens_public.Queue.Steps.{
  QueueOp, reserve, finish, requeue, receive_next, mark_received, clean_up, AllSpare, QueueState,
  IsQueue, queue_run, queue_step, queue_run-IsQueue,
}
use dagens_public.Queue.Retention.{IsExpired, CleansUp, lookup-cleanup_terminal_jobs_once}
use dagens_public.Queue.Selectors.{
  AllSucceeded, AllFinished, replayed_terminal_job_state, replayed_terminal_job_state_iff,
}
use dagens_public.Tests.{failed_row}
use dagens_public.Tests.Writers.{job, start}

abbrev idle : QueueState
idle = record { scheduler = start; received = none }

abbrev busy : List QueueOp
busy =
    reserve (record job { id = 8 })
    ∷ requeue 1
    ∷ finish 8
    ∷ receive_next
    ∷ requeue 1
    ∷ clean_up 100 10
    ∷ mark_received
    ∷ []

idle-IsQueue : IsQueue idle
idle-IsQueue = record { bounded = omega arith; distinct = tt; marked = tt; in_flight = tt }

not_old : (q : Job) → q.lifecycle_state ≡ submitted → ¬ IsExpired 100 10 q
not_old q e x = elim x.is_over [ inl h ↦ cc | inr (inl h) ↦ cc | inr (inr h) ↦ cc ]

busy_spares : AllSpare busy idle
unfolding queue_step receive_job submit_finish enqueue_job_locked lookup submit_reserve insert
    mark_job_dequeued
busy_spares = (
  tt,
  (
    tt,
    (
      tt,
      (
        tt,
        (
          tt,
          (
            (
              ((λ e. not_old _ refl, (λ e. not_old _ refl, tt)), tt),
              (λ e. not_old _ refl, (λ e. not_old _ refl, tt)),
            ),
            (tt, tt),
          ),
        ),
      ),
    ),
  ),
)

queue_run-IsQueue_example : IsQueue (queue_run busy idle)
queue_run-IsQueue_example = queue_run-IsQueue busy idle busy_spares idle-IsQueue

-- The received job is not taken again before it is marked.
busy_queue : (queue_run busy idle).scheduler.job_queue ≡ 8 ∷ []
unfolding queue_run queue_step receive_job submit_finish enqueue_job_locked lookup submit_reserve
    insert mark_job_dequeued cleanup_terminal_jobs_once prune_jobs is_prunable is_terminal_job_state
busy_queue = refl

abbrev old_job : Job
old_job = record job { lifecycle_state = succeeded; updated_at = 3 }

abbrev retained : Scheduler
retained = record start { jobs = (1, job) ∷ (2, old_job) ∷ [] }

lookup-cleanup_terminal_jobs_once_example :
    CleansUp 20 10 (some old_job) (lookup 2 (cleanup_terminal_jobs_once 20 10 retained).1.jobs)
unfolding lookup
lookup-cleanup_terminal_jobs_once_example =
    lookup-cleanup_terminal_jobs_once 20 10 retained 2 (refl, (refl, tt))

replayed_terminal_job_state_iff_example :
    ((replayed_terminal_job_state (failed_row ∷ []) ≡ some succeeded)
      ↔ (AllSucceeded (failed_row ∷ []) × (failed_row ∷ [] ≢ [])))
    × ((replayed_terminal_job_state (failed_row ∷ []) ≡ some failed)
        ↔ (AllFinished (failed_row ∷ []) × (¬ AllSucceeded (failed_row ∷ []))))
    × ((replayed_terminal_job_state (failed_row ∷ []) ≡ none)
        ↔ ((failed_row ∷ [] ≡ []) ⊎ (¬ AllFinished (failed_row ∷ []))))
replayed_terminal_job_state_iff_example = replayed_terminal_job_state_iff (failed_row ∷ [])
