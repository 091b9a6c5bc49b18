-- ===== src/Recovery/Resume.antt =====
-- resumeRecoveredQueuedJobsLocked of pkg/scheduler/recovery.go.
use dagens_public.Prelude.{
  ℕ, ◌≤◌, ◌≡◌, ◌⊎◌, refl, sym, subst, inl, inr, Bool, true, false, not, ◌&&◌, ◌||◌, Option, none,
  some, List, [], ◌∷◌, ◌++◌, ltb, length, length-append, arith, All, Any, Any-left, Any-right, ◌==◌,
  ==_iff, Bool-cases, Option-cases, if◌then◌else◌,
}
use dagens_public.Prelude.Maps.{lookup, lookup-insert}
use dagens_public.Lifecycle.{empty, pending, queued, same_state}
use dagens_public.Lifecycle.Graph.{same_state-eq}
use dagens_public.Scheduler.{Scheduler, Job, Task, Stage}
use dagens_public.Queue.{is_some, enqueue_job_locked}
use dagens_public.Recovery.{
  is_safe_task, are_safe_tasks, are_safe_stages, is_safe_for_queued_resume, resume_job,
}

-- A task that has not been started.
abbrev pub IsUnstarted : Task → Type 0
IsUnstarted task = (task.lifecycle_state ≡ empty) ⊎ (task.lifecycle_state ≡ pending)

safe_task : (task : Task) → is_safe_task task ≡ true → IsUnstarted task
safe_task task h = elim (Bool-cases (same_state task.lifecycle_state empty)) [
  | inl e ↦ inl (same_state-eq task.lifecycle_state empty e)
  | inr e ↦ inr (same_state-eq task.lifecycle_state pending (ground arith))
]

safe_tasks : (tasks : List Task) → are_safe_tasks tasks ≡ true → All IsUnstarted tasks
safe_tasks [] h = tt
safe_tasks (task ∷ tasks) h = (safe_task task (ground arith), safe_tasks tasks (ground arith))

safe_stages :
    (stages : List Stage)
    → are_safe_stages stages ≡ true
    → All (λ stage. All IsUnstarted stage.tasks) stages
safe_stages [] h = tt
safe_stages (stage ∷ stages) h =
    (safe_tasks stage.tasks (ground arith), safe_stages stages (ground arith))

-- Whether a job may be resumed.
abbrev pub may_resume : Option Job → Bool
may_resume none = false
may_resume (some job) = same_state job.lifecycle_state queued && is_safe_for_queued_resume job

-- A job in memory that is QUEUED and has no started task.
pub record IsResumable (s : Scheduler) (j : ℕ) : Type 0 where
  pub job : Job
  pub held : lookup j s.jobs ≡ some job
  pub is_queued : job.lifecycle_state ≡ queued
  pub unstarted : All (λ stage. All IsUnstarted stage.tasks) job.stages

pub may_resume-IsResumable :
    (s : Scheduler) (j : ℕ) → may_resume (lookup j s.jobs) ≡ true → IsResumable s j
unfolding is_safe_for_queued_resume
may_resume-IsResumable s j h = elim (Option-cases (lookup j s.jobs)) [
  | inl e ↦ absurd (ground arith)
  | inr (job, e) ↦ record {
    job = job;
    held = e;
    is_queued = same_state-eq job.lifecycle_state queued (ground arith);
    unstarted = safe_stages job.stages (ground arith);
  }
]

unstarted_is_safe : (task : Task) → IsUnstarted task → is_safe_task task ≡ true
unfolding same_state
unstarted_is_safe task u = elim u [ inl e ↦ rw e refl | inr e ↦ rw e refl ]

unstarted_are_safe : (tasks : List Task) → All IsUnstarted tasks → are_safe_tasks tasks ≡ true
unstarted_are_safe [] a = refl
unstarted_are_safe (task ∷ tasks) a = rw (unstarted_is_safe task a.0) (unstarted_are_safe tasks a.1)

unstarted_stages :
    (stages : List Stage)
    → All (λ stage. All IsUnstarted stage.tasks) stages
    → are_safe_stages stages ≡ true
unstarted_stages [] a = refl
unstarted_stages (stage ∷ stages) a =
    rw (unstarted_are_safe stage.tasks a.0) (unstarted_stages stages a.1)

pub IsResumable-may_resume :
    (s : Scheduler) (j : ℕ) → IsResumable s j → may_resume (lookup j s.jobs) ≡ true
unfolding is_safe_for_queued_resume same_state
IsResumable-may_resume s j r =
    rw (r.held) (rw (r.is_queued) (unstarted_stages r.job.stages r.unstarted))

resume_job_lem :
    (j : ℕ) (o : Option Job) (s : Scheduler)
    → resume_job j o s ≡ (if may_resume o then (enqueue_job_locked j s).1 else s)
unfolding resume_job
resume_job_lem j none s = refl
resume_job_lem j (some job) s = ground arith

abbrev pub IsMarked : Scheduler → ℕ → Type 0
IsMarked s j = is_some (lookup j s.queued_jobs) ≡ true

abbrev pub IsIn : ℕ → List ℕ → Type 0
IsIn j = Any (λ k. j ≡ k)

-- The queue has no room left.
abbrev pub IsFull : Scheduler → Type 0
IsFull s = s.job_queue_size ≤ length s.job_queue

-- What an enqueue, or none, changes.
pub record Enqueues (may : Bool) (j : ℕ) (s t : Scheduler) : Type 0 where
  pub same_jobs : t.jobs ≡ s.jobs
  pub same_sequences : t.job_sequences ≡ s.job_sequences
  pub same_store : t.transition_store ≡ s.transition_store
  pub queue : (t.job_queue ≡ s.job_queue) ⊎ ((may ≡ true) × (t.job_queue ≡ s.job_queue ++ j ∷ []))
  pub marked : (k : ℕ) → IsMarked s k → IsMarked t k
  pub full : IsFull s → IsFull t
  pub stays : (k : ℕ) → IsIn k s.job_queue → IsIn k t.job_queue
  pub new_marks : (k : ℕ) → IsMarked t k → IsMarked s k ⊎ IsIn k t.job_queue
  pub taken : (may ≡ false) ⊎ ((IsMarked s j ⊎ IsIn j t.job_queue) ⊎ IsFull t)

enqueue_job_locked-Enqueues : (j : ℕ) (s : Scheduler) → Enqueues true j s (enqueue_job_locked j s).1
unfolding enqueue_job_locked
enqueue_job_locked-Enqueues j s =
    elim (Bool-cases
      (is_some (lookup j s.queued_jobs) || not (ltb (length s.job_queue) s.job_queue_size))) [
        | inl e ↦ rw e (record {
          same_jobs = refl;
          same_sequences = refl;
          same_store = refl;
          queue = inl refl;
          marked = λ k h. h;
          full = λ h. h;
          stays = λ k h. h;
          new_marks = λ k h. inl h;
          taken = inr (elim (Bool-cases (is_some (lookup j s.queued_jobs))) [
            | inl m ↦ inl (inl m)
            | inr m ↦ inr (ground arith)
          ]);
        })
        | inr e ↦ rw e (record {
          same_jobs = refl;
          same_sequences = refl;
          same_store = refl;
          queue = inr (refl, refl);
          marked = λ k h. ground (arith, lookup-insert j k tt s.queued_jobs);
          full = λ h. ground (arith, length-append s.job_queue (j ∷ []));
          stays = λ k h. Any-left (λ i. k ≡ i) s.job_queue (j ∷ []) h;
          new_marks = λ k h. elim (Bool-cases (j == k)) [
            | inl m ↦
                inr (Any-right (λ i. k ≡ i) s.job_queue (j ∷ []) (inl (sym ((==_iff j k).0 m))))
            | inr m ↦ inl (ground (arith, lookup-insert j k tt s.queued_jobs))
          ];
          taken = inr (inl (inr (Any-right (λ i. j ≡ i) s.job_queue (j ∷ []) (inl refl))));
        })
      ]

pub resume_job-Enqueues :
    (j : ℕ) (s : Scheduler)
    → Enqueues (may_resume (lookup j s.jobs)) j s (resume_job j (lookup j s.jobs) s)
resume_job-Enqueues j s =
    subst (Enqueues (may_resume (lookup j s.jobs)) j s) (sym (resume_job_lem j (lookup j s.jobs) s))
      (elim (Bool-cases (may_resume (lookup j s.jobs))) [
        | inl e ↦ rw e (enqueue_job_locked-Enqueues j s)
        | inr e ↦ rw e (record {
          same_jobs = refl;
          same_sequences = refl;
          same_store = refl;
          queue = inl refl;
          marked = λ k h. h;
          full = λ h. h;
          stays = λ k h. h;
          new_marks = λ k h. inl h;
          taken = inl refl;
        })
      ])
