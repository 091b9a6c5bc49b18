-- ===== src/Queue/Retention.antt =====
-- cleanupTerminalJobsOnce of pkg/scheduler/scheduler.go.
use dagens_public.Prelude.{
  ℕ, ◌+◌, ◌≤◌, ◌<◌, ◌≡◌, ◌↔◌, ◌⊎◌, refl, ap, ◌∙◌, All, subst, inl, inr, Bool, true, false, Option,
  none, some, [], ◌∷◌, ◌==◌, ==_iff, if◌then◌else◌, arith, Bool-cases,
}
use dagens_public.Prelude.Maps.{Map, lookup, lookup-delete}
use dagens_public.Lifecycle.{State, succeeded, failed, canceled, is_terminal_job_state}
use dagens_public.Scheduler.{Job, Scheduler}
use dagens_public.Queue.{is_prunable, prune_job, prune_jobs, cleanup_terminal_jobs_once}

-- One entry for each key.
abbrev pub IsMap : Map Job → Type 0
IsMap [] = Unit
IsMap ((k, v) ∷ m) = (lookup k m ≡ none) × IsMap m

-- Whether the clean-up drops the job of an entry.
abbrev drops : (now ttl : ℕ) → Option Job → Bool
drops now ttl none = false
drops now ttl (some job) = is_prunable now ttl job

absent_at : (k j : ℕ) (m : Map Job) → lookup k m ≡ none → k == j ≡ true → lookup j m ≡ none
absent_at k j m h e = subst (λ (i : ℕ). lookup i m ≡ none) ((==_iff k j).0 e) h

-- The loop over `entries` drops the prunable ones of them and touches no other.
lookup-prune_jobs :
    (now ttl : ℕ) (entries : Map Job) (s : Scheduler) (j : ℕ)
    → IsMap entries
    → lookup j (prune_jobs now ttl entries s).1.jobs
      ≡ (if drops now ttl (lookup j entries) then none else lookup j s.jobs)
unfolding prune_jobs lookup prune_job
lookup-prune_jobs now ttl [] s j m = refl
lookup-prune_jobs now ttl ((k, job) ∷ entries) s j m = elim (Bool-cases (is_prunable now ttl job)) [
  | inr e ↦ elim (Bool-cases (k == j)) [
    | inl e' ↦
        ground (arith, lookup-prune_jobs now ttl entries s j m.1, absent_at k j entries m.0 e')
    | inr e' ↦ ground (arith, lookup-prune_jobs now ttl entries s j m.1)
  ]
  | inl e ↦ elim (Bool-cases (k == j)) [
    | inl e' ↦ ground (
      arith,
      lookup-prune_jobs now ttl entries (prune_job k s) j m.1,
      absent_at k j entries m.0 e',
      lookup-delete k j s.jobs,
    )
    | inr e' ↦
        ground
          (arith, lookup-prune_jobs now ttl entries (prune_job k s) j m.1, lookup-delete k j s.jobs)
  ]
]

lookup-cleanup_drops :
    (now ttl : ℕ) (s : Scheduler) (j : ℕ)
    → IsMap s.jobs
    → lookup j (cleanup_terminal_jobs_once now ttl s).1.jobs ≡ (
        if ttl == 0
        then lookup j s.jobs
        else if drops now ttl (lookup j s.jobs)
        then none
        else lookup j s.jobs)
unfolding cleanup_terminal_jobs_once
lookup-cleanup_drops now ttl s j m = ground (arith, lookup-prune_jobs now ttl s.jobs s j m)

-- A job that the retention is over for: it is SUCCEEDED, FAILED or CANCELED, and its last update is at
-- least the retention, which is not 0, ago.
pub record IsExpired (now ttl : ℕ) (job : Job) : Type 0 where
  pub positive : 0 < ttl
  pub is_over :
      (job.lifecycle_state ≡ succeeded)
      ⊎ ((job.lifecycle_state ≡ failed) ⊎ (job.lifecycle_state ≡ canceled))
  pub aged : job.updated_at + ttl ≤ now

terminal_is_over :
    (s : State) → is_terminal_job_state s ≡ true → (s ≡ succeeded) ⊎ ((s ≡ failed) ⊎ (s ≡ canceled))
unfolding is_terminal_job_state
terminal_is_over succeeded h = inl refl
terminal_is_over failed h = inr (inl refl)
terminal_is_over canceled h = inr (inr refl)
terminal_is_over _ h = cc

over_is_terminal :
    (s : State) → (s ≡ succeeded) ⊎ ((s ≡ failed) ⊎ (s ≡ canceled)) → is_terminal_job_state s ≡ true
unfolding is_terminal_job_state
over_is_terminal s h = elim h [
  | inl e ↦ ap is_terminal_job_state e
  | inr (inl e) ↦ ap is_terminal_job_state e
  | inr (inr e) ↦ ap is_terminal_job_state e
]

pub is_prunable_iff :
    (now ttl : ℕ) (job : Job) → 0 < ttl → (is_prunable now ttl job ≡ true) ↔ IsExpired now ttl job
unfolding is_prunable
is_prunable_iff now ttl job p = (
  λ h. record {
    positive = p;
    is_over = terminal_is_over job.lifecycle_state (ground arith);
    aged = ground arith;
  },
  λ x. ground (arith, over_is_terminal job.lifecycle_state x.is_over, x.aged),
)

-- The entries of a job, if any, are not expired.
abbrev pub Spares : (now ttl j : ℕ) → Map Job → Type 0
Spares now ttl j = All (λ entry. entry.0 ≡ j → ¬ IsExpired now ttl entry.1)

-- What the loop leaves alone.
record Prunes (now ttl : ℕ) (entries : Map Job) (s t : Scheduler) : Type 0 where
  same_queue : t.job_queue ≡ s.job_queue
  same_size : t.job_queue_size ≡ s.job_queue_size
  marks : (j : ℕ) → Spares now ttl j entries → lookup j t.queued_jobs ≡ lookup j s.queued_jobs

prune_jobs-Prunes :
    (now ttl : ℕ) (entries : Map Job) (s : Scheduler)
    → 0 < ttl
    → Prunes now ttl entries s (prune_jobs now ttl entries s).1
unfolding prune_jobs prune_job
prune_jobs-Prunes now ttl [] s p = record {
  same_queue = refl;
  same_size = refl;
  marks = λ j a. refl;
}
prune_jobs-Prunes now ttl ((k, job) ∷ entries) s p = elim (Bool-cases (is_prunable now ttl job)) [
  | inr e ↦
      let r = prune_jobs-Prunes now ttl entries s p in
      rw e (record {
        same_queue = r.same_queue;
        same_size = r.same_size;
        marks = λ j a. r.marks j a.1;
      })
  | inl e ↦
      let r = prune_jobs-Prunes now ttl entries (prune_job k s) p in
      rw e (record {
        same_queue = r.same_queue;
        same_size = r.same_size;
        marks = λ j a. r.marks j a.1 ∙ elim (Bool-cases (k == j)) [
          | inl m ↦ absurd (a.0 ((==_iff k j).0 m) ((is_prunable_iff now ttl job p).0 e))
          | inr m ↦ lookup-delete k j s.queued_jobs ∙ ground arith
        ];
      })
]

-- The clean-up leaves the queue, and the marks of jobs that it spares.
pub record Cleans (now ttl : ℕ) (s t : Scheduler) : Type 0 where
  pub same_queue : t.job_queue ≡ s.job_queue
  pub same_size : t.job_queue_size ≡ s.job_queue_size
  pub marks : (j : ℕ) → Spares now ttl j s.jobs → lookup j t.queued_jobs ≡ lookup j s.queued_jobs

pub cleanup_terminal_jobs_once-Cleans :
    (now ttl : ℕ) (s : Scheduler) → Cleans now ttl s (cleanup_terminal_jobs_once now ttl s).1
unfolding cleanup_terminal_jobs_once
cleanup_terminal_jobs_once-Cleans now ttl s = elim (Bool-cases (ttl == 0)) [
  | inl e ↦ rw e (record { same_queue = refl; same_size = refl; marks = λ j a. refl })
  | inr e ↦
      let r = prune_jobs-Prunes now ttl s.jobs s (ground arith) in
      rw e (record { same_queue = r.same_queue; same_size = r.same_size; marks = r.marks })
]

-- What the clean-up makes of the job under an identifier.
abbrev pub CleansUp : (now ttl : ℕ) → Option Job → Option Job → Type 0
CleansUp now ttl none after = after ≡ none
CleansUp now ttl (some job) after =
    (IsExpired now ttl job × (after ≡ none)) ⊎ ((¬ IsExpired now ttl job) × (after ≡ some job))

cleans_up :
    (now ttl : ℕ) (o after : Option Job)
    → after ≡ (if ttl == 0 then o else if drops now ttl o then none else o)
    → CleansUp now ttl o after
cleans_up now ttl none after h = ground arith
cleans_up now ttl (some job) after h = elim (Bool-cases (ttl == 0)) [
  | inl e ↦ inr (λ x. ground (arith, x.positive), ground arith)
  | inr e ↦ elim (Bool-cases (is_prunable now ttl job)) [
    | inl d ↦ inl ((is_prunable_iff now ttl job (ground arith)).0 d, ground arith)
    | inr d ↦
        inr (λ x. ground (arith, (is_prunable_iff now ttl job (ground arith)).1 x), ground arith)
  ]
]

-- Where `jobs` has one entry for each key, the retention clean-up drops exactly the jobs that are
-- SUCCEEDED, FAILED or CANCELED and were last updated at least the retention ago, and leaves every
-- other job as it is and no new one. With a retention of 0 it drops nothing.
pub lookup-cleanup_terminal_jobs_once :
    (now ttl : ℕ) (s : Scheduler) (j : ℕ)
    → IsMap s.jobs
    → CleansUp now ttl (lookup j s.jobs) (lookup j (cleanup_terminal_jobs_once now ttl s).1.jobs)
lookup-cleanup_terminal_jobs_once now ttl s j m =
    cleans_up now ttl (lookup j s.jobs) _ (lookup-cleanup_drops now ttl s j m)
