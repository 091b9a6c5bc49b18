-- ===== src/Queue/Selectors.antt =====
-- What the reconcile loop of pkg/scheduler/scheduler.go reads off the tasks of a replayed job.
use dagens_public.Prelude.{
  ℕ, ◌+◌, ◌≡◌, ◌≢◌, ◌↔◌, ◌⊎◌, refl, inl, inr, Bool, true, false, not, ◌&&◌, ◌||◌, Option, none,
  some, List, [], ◌∷◌, ◌==◌, ltb, if◌then◌else◌, All, arith, Bool-cases,
}
use dagens_public.Lifecycle.Graph.{same_state-eq}
use dagens_public.Lifecycle.{
  State, empty, pending, dispatched, running, succeeded, failed, same_state, DurableTaskRecord,
}

-- The map of a replay in the order of an iteration over it.
unfoldable pub all_replayed_tasks_pending : List DurableTaskRecord → Bool
unfolding same_state
all_replayed_tasks_pending [] = true
all_replayed_tasks_pending (task ∷ tasks) =
    if not (same_state task.current_state empty) && not (same_state task.current_state pending)
    then false
    else all_replayed_tasks_pending tasks

-- A time before the cutoff `now - timeout`, or none.
is_stale_update : (now timeout updated_at : ℕ) → Bool
is_stale_update now timeout updated_at = updated_at == 0 || ltb (updated_at + timeout) now

is_stale_task : (now timeout : ℕ) → State → ℕ → Bool
is_stale_task now timeout dispatched updated_at = is_stale_update now timeout updated_at
is_stale_task now timeout running updated_at = is_stale_update now timeout updated_at
is_stale_task now timeout _ updated_at = false

has_stale : (now timeout : ℕ) → List DurableTaskRecord → Bool
has_stale now timeout [] = false
has_stale now timeout (task ∷ tasks) =
    if is_stale_task now timeout task.current_state task.updated_at
    then true
    else has_stale now timeout tasks

unfoldable pub has_stale_in_flight_replayed_task : List DurableTaskRecord → (now timeout : ℕ) → Bool
unfolding has_stale is_stale_task is_stale_update
has_stale_in_flight_replayed_task tasks now timeout =
    if timeout == 0 then false else has_stale now timeout tasks

-- The loop, with whether a task has failed; `none` is the answer false.
terminal_state_from : Bool → List DurableTaskRecord → Option State
terminal_state_from has_failed [] = some (if has_failed then failed else succeeded)
terminal_state_from has_failed (task ∷ tasks) =
    if same_state task.current_state succeeded
    then terminal_state_from has_failed tasks
    else if same_state task.current_state failed
    then terminal_state_from true tasks
    else none

unfoldable pub replayed_terminal_job_state : List DurableTaskRecord → Option State
unfolding terminal_state_from same_state
replayed_terminal_job_state [] = none
replayed_terminal_job_state (task ∷ tasks) = terminal_state_from false (task ∷ tasks)

abbrev pub Finished : State → Type 0
Finished s = (s ≡ succeeded) ⊎ (s ≡ failed)

abbrev pub AllSucceeded : List DurableTaskRecord → Type 0
AllSucceeded = All (λ task. task.current_state ≡ succeeded)

abbrev pub AllFinished : List DurableTaskRecord → Type 0
AllFinished = All (λ task. Finished task.current_state)

succeeded_from :
    (b : Bool) (tasks : List DurableTaskRecord)
    → terminal_state_from b tasks ≡ some succeeded
    → (b ≡ false) × AllSucceeded tasks
unfolding terminal_state_from
succeeded_from b [] h = (ground arith, tt)
succeeded_from b (task ∷ tasks) h = elim (Bool-cases (same_state task.current_state succeeded)) [
  | inl e ↦
      let (off, all) = succeeded_from b tasks (ground arith) in
      (off, (same_state-eq task.current_state succeeded e, all))
  | inr e ↦ elim (Bool-cases (same_state task.current_state failed)) [
    | inl e' ↦ absurd (ground (arith, (succeeded_from true tasks (ground arith)).0))
    | inr e' ↦ absurd (ground arith)
  ]
]

AllSucceeded-from :
    (tasks : List DurableTaskRecord)
    → AllSucceeded tasks
    → terminal_state_from false tasks ≡ some succeeded
unfolding terminal_state_from same_state
AllSucceeded-from [] a = refl
AllSucceeded-from (task ∷ tasks) a = rw (a.0) (AllSucceeded-from tasks a.1)

failed_from :
    (b : Bool) (tasks : List DurableTaskRecord)
    → terminal_state_from b tasks ≡ some failed
    → AllFinished tasks
unfolding terminal_state_from
failed_from b [] h = tt
failed_from b (task ∷ tasks) h = elim (Bool-cases (same_state task.current_state succeeded)) [
  | inl e ↦ (inl (same_state-eq task.current_state succeeded e), failed_from b tasks (ground arith))
  | inr e ↦ elim (Bool-cases (same_state task.current_state failed)) [
    | inl e' ↦
        (inr (same_state-eq task.current_state failed e'), failed_from true tasks (ground arith))
    | inr e' ↦ absurd (ground arith)
  ]
]

-- Finished tasks give an answer.
finished_from :
    (b : Bool) (tasks : List DurableTaskRecord)
    → AllFinished tasks
    → (terminal_state_from b tasks ≡ some succeeded) ⊎ (terminal_state_from b tasks ≡ some failed)
unfolding terminal_state_from same_state
finished_from b [] a = ground arith
finished_from b (task ∷ tasks) a = elim a.0 [
  | inl e ↦ rw e (finished_from b tasks a.1)
  | inr e ↦ rw e (finished_from true tasks a.1)
]

failed_after :
    (tasks : List DurableTaskRecord)
    → AllFinished tasks
    → ¬ AllSucceeded tasks
    → terminal_state_from false tasks ≡ some failed
failed_after tasks a n = elim (finished_from false tasks a) [
  | inl e ↦ absurd (n (succeeded_from false tasks e).1)
  | inr e ↦ e
]

none_of_unfinished :
    (b : Bool) (tasks : List DurableTaskRecord)
    → ¬ AllFinished tasks
    → terminal_state_from b tasks ≡ none
unfolding terminal_state_from
none_of_unfinished b [] n = absurd (n tt)
none_of_unfinished b (task ∷ tasks) n =
    elim (Bool-cases (same_state task.current_state succeeded)) [
      | inl e ↦ rw e (
          none_of_unfinished b tasks
            (λ a. n (inl (same_state-eq task.current_state succeeded e), a)))
      | inr e ↦ elim (Bool-cases (same_state task.current_state failed)) [
        | inl e' ↦
            rw (e, e')
              (none_of_unfinished true tasks
                (λ a. n (inr (same_state-eq task.current_state failed e'), a)))
        | inr e' ↦ rw (e, e') refl
      ]
    ]

unfinished_of_none :
    (b : Bool) (tasks : List DurableTaskRecord)
    → terminal_state_from b tasks ≡ none
    → ¬ AllFinished tasks
unfinished_of_none b tasks h a = elim (finished_from b tasks a) [
  | inl e ↦ absurd (ground arith)
  | inr e ↦ absurd (ground arith)
]

-- The outcome that reconciliation reads off the tasks of a job: SUCCEEDED exactly when there are tasks
-- and all have succeeded, FAILED exactly when all have finished and not all of them succeeded, and
-- none exactly when there are no tasks or not all have finished. The order of the tasks has no say in
-- it.
pub replayed_terminal_job_state_iff :
    (tasks : List DurableTaskRecord)
    → ((replayed_terminal_job_state tasks ≡ some succeeded) ↔ (AllSucceeded tasks × (tasks ≢ [])))
      × ((replayed_terminal_job_state tasks ≡ some failed)
          ↔ (AllFinished tasks × (¬ AllSucceeded tasks)))
      × ((replayed_terminal_job_state tasks ≡ none) ↔ ((tasks ≡ []) ⊎ (¬ AllFinished tasks)))
unfolding replayed_terminal_job_state
replayed_terminal_job_state_iff [] = (
  (λ h. absurd (ground arith), λ (a, n). absurd (n refl)),
  (λ h. absurd (ground arith), λ (a, n). absurd (n tt)),
  (λ h. inl refl, λ h. refl),
)
replayed_terminal_job_state_iff (task ∷ tasks) = (
  (
    λ h. ((succeeded_from false (task ∷ tasks) h).1, λ e. ground arith),
    λ (a, n). AllSucceeded-from (task ∷ tasks) a,
  ),
  (
    λ h. (
      failed_from false (task ∷ tasks) h,
      λ all. ground (arith, AllSucceeded-from (task ∷ tasks) all),
    ),
    λ (a, n). failed_after (task ∷ tasks) a n,
  ),
  (
    λ h. inr (unfinished_of_none false (task ∷ tasks) h),
    λ h. elim h [
      | inl e ↦ absurd (ground arith)
      | inr n ↦ none_of_unfinished false (task ∷ tasks) n
    ],
  ),
)
