-- ===== src/Recovery/Resumed.antt =====
-- The loop of resumeRecoveredQueuedJobsLocked in pkg/scheduler/recovery.go.
use dagens_public.Prelude.{
  ℕ, ◌≡◌, ◌⊎◌, refl, sym, ◌∙◌, subst, inl, inr, true, false, List, [], ◌∷◌, All, All-append,
  All-map, arith,
}
use dagens_public.Prelude.Maps.{lookup}
use dagens_public.Scheduler.{Scheduler}
use dagens_public.Recovery.{resume_job, resume_recovered_queued_jobs_locked}
use dagens_public.Recovery.Resume.{
  may_resume, IsResumable, may_resume-IsResumable, IsResumable-may_resume, IsIn, IsMarked, IsFull,
  Enqueues, resume_job-Enqueues,
}

-- A job that has been considered: it may not be resumed, was marked before, is in the queue, or found
-- the queue full.
abbrev Taken : Scheduler → Scheduler → ℕ → Type 0
Taken s t j =
    (may_resume (lookup j s.jobs) ≡ false) ⊎ ((IsMarked s j ⊎ IsIn j t.job_queue) ⊎ IsFull t)

-- The queue, and what the scheduler holds, after jobs have been resumed.
pub record Resumes (ids : List ℕ) (s t : Scheduler) : Type 0 where
  pub same_jobs : t.jobs ≡ s.jobs
  pub same_sequences : t.job_sequences ≡ s.job_sequences
  pub same_store : t.transition_store ≡ s.transition_store
  pub queue :
      All (λ j. may_resume (lookup j s.jobs) ≡ true) s.job_queue
      → All (λ j. may_resume (lookup j s.jobs) ≡ true) t.job_queue
  pub marked : (k : ℕ) → IsMarked s k → IsMarked t k
  pub full : IsFull s → IsFull t
  pub stays : (k : ℕ) → IsIn k s.job_queue → IsIn k t.job_queue
  pub taken : All (Taken s t) ids

resume_once-queue :
    (j : ℕ) (s t : Scheduler)
    → Enqueues (may_resume (lookup j s.jobs)) j s t
    → All (λ i. may_resume (lookup i s.jobs) ≡ true) s.job_queue
    → All (λ i. may_resume (lookup i s.jobs) ≡ true) t.job_queue
resume_once-queue j s t e a = elim e.queue [
  | inl same ↦ subst (All (λ i. may_resume (lookup i s.jobs) ≡ true)) (sym same) a
  | inr (may, more) ↦
      subst (All (λ i. may_resume (lookup i s.jobs) ≡ true)) (sym more)
        (All-append (λ i. may_resume (lookup i s.jobs) ≡ true) s.job_queue (j ∷ []) a (may, tt))
]

Resumes-cons :
    (j : ℕ) (ids : List ℕ) (s t u : Scheduler)
    → Enqueues (may_resume (lookup j s.jobs)) j s t
    → Resumes ids t u
    → Resumes (j ∷ ids) s u
Resumes-cons j ids s t u e r = record {
  same_jobs = r.same_jobs ∙ e.same_jobs;
  same_sequences = r.same_sequences ∙ e.same_sequences;
  same_store = r.same_store ∙ e.same_store;
  queue = λ a.
      subst (λ m. All (λ i. may_resume (lookup i m) ≡ true) u.job_queue) e.same_jobs
        (r.queue (
          subst (λ m. All (λ i. may_resume (lookup i m) ≡ true) t.job_queue) (sym e.same_jobs)
            (resume_once-queue j s t e a)));
  marked = λ k h. r.marked k (e.marked k h);
  full = λ h. r.full (e.full h);
  stays = λ k h. r.stays k (e.stays k h);
  taken = (
    elim e.taken [
      | inl off ↦ inl off
      | inr (inl (inl m)) ↦ inr (inl (inl m))
      | inr (inl (inr i)) ↦ inr (inl (inr (r.stays j i)))
      | inr (inr f) ↦ inr (inr (r.full f))
    ],
    All-map (Taken t u) (Taken s u) (λ k h. taken_before k h) ids r.taken,
  );
}
  where
    taken_before : (k : ℕ) → Taken t u k → Taken s u k
    taken_before k h = elim h [
      | inl off ↦ inl (subst (λ m. may_resume (lookup k m) ≡ false) e.same_jobs off)
      | inr (inl (inl m)) ↦ elim (e.new_marks k m) [
        | inl b ↦ inr (inl (inl b))
        | inr i ↦ inr (inl (inr (r.stays k i)))
      ]
      | inr (inl (inr i)) ↦ inr (inl (inr i))
      | inr (inr f) ↦ inr (inr f)
    ]

pub resume_jobs-Resumes :
    (ids : List ℕ) (s : Scheduler) → Resumes ids s (resume_recovered_queued_jobs_locked ids s)
unfolding resume_recovered_queued_jobs_locked
resume_jobs-Resumes [] s = record {
  same_jobs = refl;
  same_sequences = refl;
  same_store = refl;
  queue = λ a. a;
  marked = λ k h. h;
  full = λ h. h;
  stays = λ k h. h;
  taken = tt;
}
resume_jobs-Resumes (j ∷ ids) s =
    let t = resume_job j (lookup j s.jobs) s in
    Resumes-cons j ids s t _ (resume_job-Enqueues j s) (resume_jobs-Resumes ids t)

-- Let the queue hold only jobs that are resumable: in memory, QUEUED, and without a task beyond the
-- empty or PENDING state. After the recovered jobs have been resumed the queue again holds only
-- resumable jobs, no job in memory has changed, and of the recovered jobs each resumable one is in the
-- queue, unless it was marked as queued before or the queue is full by then.
pub resume_recovered_queued_jobs_locked-IsResumable :
    (ids : List ℕ) (s : Scheduler)
    → All (IsResumable s) s.job_queue
    → All
        (IsResumable (resume_recovered_queued_jobs_locked ids s))
        (resume_recovered_queued_jobs_locked ids s).job_queue
      × ((resume_recovered_queued_jobs_locked ids s).jobs ≡ s.jobs)
      × All
          (λ j.
            (¬ IsResumable s j)
            ⊎ ((IsMarked s j ⊎ IsIn j (resume_recovered_queued_jobs_locked ids s).job_queue)
                ⊎ IsFull (resume_recovered_queued_jobs_locked ids s)))
          ids
resume_recovered_queued_jobs_locked-IsResumable ids s a =
    let t = resume_recovered_queued_jobs_locked ids s in
    let r = resume_jobs-Resumes ids s in
    let may : All (λ j. may_resume (lookup j s.jobs) ≡ true) s.job_queue =
      All-map (IsResumable s) (λ j. may_resume (lookup j s.jobs) ≡ true) (IsResumable-may_resume s)
        s.job_queue a in
    (
      All-map (λ j. may_resume (lookup j s.jobs) ≡ true) (IsResumable t)
          (λ j h.
            may_resume-IsResumable t j
              (subst (λ m. may_resume (lookup j m) ≡ true) (sym r.same_jobs) h))
          t.job_queue (r.queue may),
      r.same_jobs,
      All-map (Taken s t) _
          (λ j h. elim h [
            | inl off ↦ inl (λ x. ground (arith, IsResumable-may_resume s j x))
            | inr g ↦ inr g
          ])
          ids r.taken,
    )
