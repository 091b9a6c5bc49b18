-- ===== src/Recovery/Built.antt =====
-- What holds of every job that RecoverFromTransitions (pkg/scheduler/recovery.go) builds holds of every
-- job that it leaves in memory.
use dagens_public.Prelude.{
  ℕ, suc, ◌≡◌, refl, sym, ap, ◌∙◌, subst, inl, inr, Bool, true, false, Option, none, some, List, [],
  ◌∷◌, ◌==◌, ==_iff, arith, All, Bool-cases,
}
use dagens_public.Prelude.Maps.{lookup, insert, lookup-insert}
use dagens_public.Prelude.Results.{Result, ok, err}
use dagens_public.Store.{TransitionStore}
use dagens_public.Replay.{Context, ReplayError, ReplayedJobState, replay_state_from_store}
use dagens_public.Scheduler.{Scheduler, Job}
use dagens_public.Config.{SchedulerConfig}
use dagens_public.Queue.{is_some}
use dagens_public.Recovery.{
  Decoder, build_recovered_runtime_job, larger_sequence, seed_job_sequence_locked, recover_job,
  recover_jobs, unless_canceled, also_recovered, finish_recovery, recover_replayed,
  recover_from_store, recover_from_transitions, batch_size_of,
}
use dagens_public.Recovery.Seed.{Seeded, seed_at-Seeded}
use dagens_public.Recovery.Resumed.{resume_jobs-Resumes}

module _ (decoder : Decoder) (Q : ℕ → Job → Type 0) where
  -- Every job in memory.
  pub record AllJobs (s : Scheduler) : Type 0 where
    pub all : (j : ℕ) (job : Job) → lookup j s.jobs ≡ some job → Q j job

  -- The job that is built from a view.
  abbrev pub Builds : ReplayedJobState → Type 0
  Builds r = Q r.job.job_id (build_recovered_runtime_job decoder r)

  Seeded-AllJobs : (j n : ℕ) (s t : Scheduler) → Seeded j n s t → AllJobs s → AllJobs t
  Seeded-AllJobs j n s t d a = record {
    all = λ k job h. a.all k job (ap (lookup k) (sym d.same_jobs) ∙ h);
  }

  put-AllJobs :
      (r : ReplayedJobState) (s : Scheduler)
      → Builds r
      → AllJobs s
      → AllJobs
          (record s { jobs = insert r.job.job_id (build_recovered_runtime_job decoder r) s.jobs })
  put-AllJobs r s q a = record { all = put }
    where
      built : Job
      built = build_recovered_runtime_job decoder r

      put : (k : ℕ) (job : Job) → lookup k (insert r.job.job_id built s.jobs) ≡ some job → Q k job
      put k job h =
          let looked = sym (lookup-insert r.job.job_id k built s.jobs) ∙ h in
          elim (Bool-cases (r.job.job_id == k)) [
            | inl e ↦
                let same : built ≡ job = ground (arith, looked) in
                subst (λ (i : ℕ). Q i job) ((==_iff r.job.job_id k).0 e)
                  (subst (Q r.job.job_id) same q)
            | inr e ↦ a.all k job (ground (arith, looked))
          ]

  recover_job-AllJobs :
      (r : ReplayedJobState) (s : Scheduler)
      → Builds r
      → AllJobs s
      → AllJobs (recover_job decoder r s).1
  unfolding recover_job seed_job_sequence_locked
  recover_job-AllJobs r s q a =
      let n = larger_sequence r.job.last_sequence_id r.transitions in
      elim (Bool-cases (is_some (lookup r.job.job_id s.jobs))) [
        | inl e ↦ rw e (Seeded-AllJobs r.job.job_id n s _ (seed_at-Seeded r.job.job_id n s) a)
        | inr e ↦ rw e (
            Seeded-AllJobs r.job.job_id n _ _ (seed_at-Seeded r.job.job_id n _)
              (put-AllJobs r s q a))
      ]

  -- The scheduler that the loops leave.
  record LeavesAll (result : Option ReplayError × (List ℕ × Scheduler)) : Type 0 where
    left : AllJobs result.1.1

  unless-LeavesAll :
      (canceled : Bool) (s : Scheduler) (result : Option ReplayError × (List ℕ × Scheduler))
      → AllJobs s
      → LeavesAll result
      → LeavesAll (unless_canceled canceled s result)
  unless-LeavesAll true s result a b = record { left = a }
  unless-LeavesAll false s result a b = b

  also-LeavesAll :
      (found : List ℕ) (result : Option ReplayError × (List ℕ × Scheduler))
      → LeavesAll result
      → LeavesAll (also_recovered found result)
  also-LeavesAll found (e, (ids, s)) a = record { left = a.left }

  recover_jobs-LeavesAll :
      (batch_size : ℕ) (ctx : Context) (rs : List ReplayedJobState) (k i : ℕ) (s : Scheduler)
      → All Builds rs
      → AllJobs s
      → LeavesAll (recover_jobs decoder batch_size ctx k i rs s)
  unfolding recover_jobs
  recover_jobs-LeavesAll batch_size ctx [] k i s q a = record { left = a }
  recover_jobs-LeavesAll batch_size ctx (r ∷ rs) k i s q a =
      let t = (recover_job decoder r s).1 in
      let b = recover_job-AllJobs r s q.0 a in
      unless-LeavesAll _ s _ a (
        also-LeavesAll _ _
          (unless-LeavesAll _ t _ b (recover_jobs-LeavesAll batch_size ctx rs _ (suc i) t q.1 b)))

  finish_recovery-AllJobs :
      (config : SchedulerConfig) (result : Option ReplayError × (List ℕ × Scheduler))
      → AllJobs result.1.1
      → AllJobs (finish_recovery config result).1
  unfolding finish_recovery
  finish_recovery-AllJobs config (some e, (ids, t)) a = a
  finish_recovery-AllJobs config (none, (ids, t)) a =
      elim (Bool-cases config.enable_resume_recovered_queued_jobs) [
        | inr e ↦ rw e a
        | inl e ↦ rw e (record {
          all = λ k job h.
              a.all k job (ap (lookup k) (sym (resume_jobs-Resumes ids t).same_jobs) ∙ h);
        })
      ]

  recover_replayed-AllJobs :
      (config : SchedulerConfig) (ctx : Context) (r : Result ReplayError (List ReplayedJobState))
      (s : Scheduler)
      → ((rs : List ReplayedJobState) → r ≡ ok rs → All Builds rs)
      → AllJobs s
      → AllJobs (recover_replayed decoder config ctx r s).1
  unfolding recover_replayed
  recover_replayed-AllJobs config ctx (err e) s q a = a
  recover_replayed-AllJobs config ctx (ok rs) s q a =
      finish_recovery-AllJobs config _
        (recover_jobs-LeavesAll (batch_size_of config) ctx rs 0 0 s (q rs refl) a).left

  pub recover_from_transitions-AllJobs :
      (config : SchedulerConfig) (inner : ℕ → Context) (replay_ctx ctx : Context)
      (store : TransitionStore) (s : Scheduler)
      → s.transition_store ≡ some store
      → ((rs : List ReplayedJobState)
          → replay_state_from_store inner replay_ctx store ≡ ok rs
          → All Builds rs)
      → AllJobs s
      → AllJobs (recover_from_transitions decoder config inner replay_ctx ctx s).1
  unfolding recover_from_transitions recover_from_store
  recover_from_transitions-AllJobs config inner replay_ctx ctx store s stored q a =
      subst (λ o. AllJobs (recover_from_store decoder config inner replay_ctx ctx o s).1)
        (sym stored)
        (recover_replayed-AllJobs config ctx (replay_state_from_store inner replay_ctx store) s q a)
