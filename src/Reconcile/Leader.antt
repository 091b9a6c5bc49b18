-- ===== src/Reconcile/Leader.antt =====
-- A round of the reconcile loop of pkg/scheduler/scheduler.go on a leader.
use dagens_public.Prelude.{
  All, ℕ, ◌≡◌, ◌⊎◌, refl, ap, ◌∙◌, inl, inr, Bool, true, false, not, ◌&&◌, ◌||◌, Option, none, some,
  [], ◌∷◌, ◌++◌, length, ltb, arith, Bool-cases, if◌then◌else◌,
}
use dagens_public.Prelude.Maps.{lookup, values}
use dagens_public.Prelude.Results.{Result, ok, err}
use dagens_public.Lifecycle.{State, queued, running, same_state, DurableJobRecord}
use dagens_public.Store.{TransitionStore}
use dagens_public.Replay.{ReplayError, ReplayedJobState, replay_job_state, with_durable_job}
use dagens_public.Scheduler.{Scheduler, Job}
use dagens_public.Queue.{is_some, enqueue_job_locked}
use dagens_public.Recovery.{is_safe_for_queued_resume}
use dagens_public.Recovery.Resume.{may_resume, IsResumable, may_resume-IsResumable}
use dagens_public.Reconcile.{
  ReconcileEnv, RoundInput, Reconciler, leader, recovered_queued_missing_execution_field_count,
  is_ready_at, try_enqueue_existing_queued_job, warm_replay, lead_queued, queue_submitted,
  lead_open, lead_job, lead, reconcile_replayed, all_replayed_tasks_pending,
  has_stale_in_flight_replayed_task, stale_in_flight_reconcile_timeout,
}
use dagens_public.Reconcile.Loop.{reconcile_with, reconcile_job, reconcile_quarantined}
use dagens_public.Reconcile.Ready.{HasFields, job-HasFields}
use dagens_public.Reconcile.Follower.{warm-OnlyWatches}
use dagens_public.Reconcile.Untouched.{fail_queue, finish_replayed_queue, queue_submitted_queue}

-- The job is in memory, and every task of it has the fields that its execution needs.
abbrev pub HasAllFields : Bool → Option Job → Type 0
HasAllFields b none = ⊥
HasAllFields b (some job) = All (λ stage. All (HasFields b) stage.tasks) job.stages

ready-HasAllFields : (b : Bool) (o : Option Job) → is_ready_at b o ≡ true → HasAllFields b o
ready-HasAllFields b none h = absurd (ground arith)
ready-HasAllFields b (some job) h = job-HasFields b job (ground arith)

-- The queue is as it was, or has one job more, which is in memory, QUEUED, without a started task and
-- with the fields that its execution needs.
pub data Queues (env : ReconcileEnv) (s t : Scheduler) : Type 0 where
  same : t.job_queue ≡ s.job_queue → Queues env s t
  added :
      (j : ℕ)
      → t.job_queue ≡ s.job_queue ++ j ∷ []
      → IsResumable t j
      → HasAllFields env.enable_stickiness (lookup j t.jobs)
      → Queues env s t

module _ (env : ReconcileEnv) (round : RoundInput) (row : DurableJobRecord) where
  ready-IsResumable :
      (j : ℕ) (s : Scheduler)
      → is_ready_at env.enable_stickiness (lookup j s.jobs) ≡ true
      → IsResumable s j
  ready-IsResumable j s r = may_resume-IsResumable s j (may (lookup j s.jobs) r)
    where
      may : (o : Option Job) → is_ready_at env.enable_stickiness o ≡ true → may_resume o ≡ true
      may none h = absurd (ground arith)
      may (some job) h = ground arith

  -- An enqueue of a job that is ready.
  enqueue-Queues :
      (j : ℕ) (s : Scheduler)
      → is_ready_at env.enable_stickiness (lookup j s.jobs) ≡ true
      → Queues env s (enqueue_job_locked j s).1
  unfolding enqueue_job_locked
  enqueue-Queues j s r =
      elim (Bool-cases
        (is_some (lookup j s.queued_jobs) || not (ltb (length s.job_queue) s.job_queue_size))) [
          | inl e ↦ rw e (same refl)
          | inr e ↦ rw e (
              added j refl (ready-IsResumable j _ r) (ready-HasAllFields env.enable_stickiness _ r))
        ]

  Queues-after : (s t u : Scheduler) → t.job_queue ≡ s.job_queue → Queues env t u → Queues env s u
  Queues-after s t u e (same h) = same (h ∙ e)
  Queues-after s t u e (added j h i r) = added j (h ∙ ap (λ q. q ++ j ∷ []) e) i r

  lead_queued-Queues :
      (j : ℕ) (o : Option Job) (s : Scheduler)
      → lookup j s.jobs ≡ o
      → Queues env s (lead_queued env round row j o s)
  unfolding lead_queued
  lead_queued-Queues j none s h = same refl
  lead_queued-Queues j (some job) s h = elim (Bool-cases (same_state job.lifecycle_state queued)) [
    | inr e ↦ rw e (same refl)
    | inl e ↦ elim (Bool-cases (is_safe_for_queued_resume job)) [
      | inr f ↦ rw (e, f) (same refl)
      | inl f ↦
          elim (Bool-cases
            (ltb 0 (recovered_queued_missing_execution_field_count job env.enable_stickiness))) [
              | inl g ↦ rw (e, f, g) (same (fail_queue env round row env.reason_missing_fields s))
              | inr g ↦
                  rw (e, f, g)
                    (enqueue-Queues j s (ap (is_ready_at env.enable_stickiness) h ∙ ground arith))
            ]
    ]
  ]

  lead_open-Queues :
      (j : ℕ) (job : Job) (s : Scheduler) → Queues env s (lead_open env round row j job s)
  unfolding lead_open
  lead_open-Queues j job s =
      let t = queue_submitted env round j job s in
      Queues-after s t _ (queue_submitted_queue env round row j job s)
        (lead_queued-Queues j (lookup j t.jobs) t refl)

  lead_job-Queues :
      (j : ℕ) (outcome : Option State) (job : Job) (s : Scheduler)
      → Queues env s (lead_job env round row j outcome job s)
  unfolding lead_job
  lead_job-Queues j none job s = lead_open-Queues j job s
  lead_job-Queues j (some state) job s =
      elim (Bool-cases (same_state job.lifecycle_state running)) [
        | inl e ↦ rw e (same (finish_replayed_queue env round row j state s))
        | inr e ↦ rw e (lead_open-Queues j job s)
      ]

  lead-Queues :
      (r : ReplayedJobState) (o : Option Job) (s : Scheduler)
      → Queues env s (lead env round row r o s)
  lead-Queues r none s = same refl
  lead-Queues r (some job) s = lead_job-Queues r.job.job_id _ job s

  reconcile_replayed-Queues :
      (r : ReplayedJobState) (s : Scheduler)
      → Queues env s (reconcile_replayed env leader round row r s)
  unfolding reconcile_replayed warm_replay
  reconcile_replayed-Queues r s =
      elim (Bool-cases
        (same_state r.job.current_state running && all_replayed_tasks_pending (values r.tasks))) [
          | inl e ↦ rw e (same (fail_queue env round row env.reason_orphan s))
          | inr e ↦
              elim (Bool-cases (
                same_state r.job.current_state running
                && has_stale_in_flight_replayed_task (values r.tasks) round.now
                    stale_in_flight_reconcile_timeout)) [
                      | inl f ↦ rw (e, f) (same (fail_queue env round row env.reason_stale s))
                      | inr f ↦
                          let t = warm_replay env r s in
                          rw (e, f)
                            (Queues-after s t _
                              (warm-OnlyWatches env r (lookup r.job.job_id s.jobs) s).same_queue
                              (lead-Queues r (lookup r.job.job_id t.jobs) t))
                    ]
        ]

  reconcile_with-Queues :
      (r : Result ReplayError ReplayedJobState) (c : Reconciler)
      → Queues env c.scheduler (reconcile_with env leader round row r c).scheduler
  unfolding reconcile_with
  reconcile_with-Queues (err e) c =
      same (fail_queue env round row (env.reason_replay_failed e) c.scheduler)
  reconcile_with-Queues (ok r) c = reconcile_replayed-Queues (with_durable_job row r) c.scheduler

  -- Trying the job in memory: a refusal leaves the queue alone.
  record Tries (s : Scheduler) (r : Bool × Scheduler) : Type 0 where
    queues : Queues env s r.1
    refused : (r.0 ≡ true) ⊎ (r.1.job_queue ≡ s.job_queue)

  try_enqueue-Tries :
      (j : ℕ) (s : Scheduler) → Tries s (try_enqueue_existing_queued_job env.enable_stickiness j s)
  unfolding try_enqueue_existing_queued_job
  try_enqueue-Tries j s = elim (Bool-cases (is_ready_at env.enable_stickiness (lookup j s.jobs))) [
    | inr e ↦ rw e (record { queues = same refl; refused = inr refl })
    | inl e ↦ elim (Bool-cases (is_some (lookup j s.queued_jobs))) [
      | inl m ↦ rw (e, m) (record { queues = same refl; refused = inl refl })
      | inr m ↦
          rw (e, m)
            (record {
              queues = enqueue-Queues j s e;
              refused = unfold enqueue_job_locked in ground arith;
            })
    ]
  ]

  tried-Queues :
      (store : TransitionStore) (c : Reconciler) (r : Bool × Scheduler)
      → Tries c.scheduler r
      → Queues env c.scheduler
          (if r.0
            then record c { scheduler = r.1 }
            else reconcile_with env leader round row
                (replay_job_state round.replay_ctx store row.job_id)
                (record c { scheduler = r.1 })).scheduler
  tried-Queues store c (true, s) t = t.queues
  tried-Queues store c (false, s) t = elim t.refused [
    | inl e ↦ absurd (ground arith)
    | inr e ↦ Queues-after c.scheduler s _ e (
        reconcile_with-Queues (replay_job_state round.replay_ctx store row.job_id)
          (record c { scheduler = s }))
  ]

  reconcile_job-Queues :
      (store : TransitionStore) (c : Reconciler)
      → Queues env c.scheduler (reconcile_job env leader store round row c).scheduler
  unfolding reconcile_job
  reconcile_job-Queues store c = tried-Queues store c _ (try_enqueue-Tries row.job_id c.scheduler)

-- A round of a leader that reconciles leaves the job queue as it was or adds one job to its end: one
-- that is in memory after the round, QUEUED there, with no task beyond the empty or PENDING state, and
-- whose tasks all have an agent identifier, an agent name and an input, and a partition key where
-- stickiness is enabled.
pub reconcile_quarantined-Queues :
    (env : ReconcileEnv) (round : RoundInput) (row : DurableJobRecord) (store : TransitionStore)
    (until : Option ℕ) (c : Reconciler)
    → Queues env c.scheduler (reconcile_quarantined env leader store round row until c).scheduler
reconcile_quarantined-Queues env round row store none c = reconcile_job-Queues env round row store c
reconcile_quarantined-Queues env round row store (some until) c =
    elim (Bool-cases (ltb round.now until)) [
      | inl e ↦ rw e (same refl)
      | inr e ↦ rw e (reconcile_job-Queues env round row store _)
    ]
