-- ===== src/Reconcile/Follower.antt =====
-- The reconcile loop of pkg/scheduler/scheduler.go on a follower.
use dagens_public.Prelude.{
  ℕ, suc, ◌≤◌, ◌≡◌, refl, ◌∙◌, inl, inr, Bool, true, false, Option, none, some, List, [], ◌∷◌,
  arith, Bool-cases, ltb,
}
use dagens_public.Prelude.Maps.{Map, lookup}
use dagens_public.Prelude.Results.{Result, ok, err}
use dagens_public.Lifecycle.{DurableJobRecord}
use dagens_public.Store.{TransitionStore}
use dagens_public.Replay.{ReplayError, ReplayedJobState, replay_job_state, with_durable_job}
use dagens_public.Scheduler.{Scheduler, Job}
use dagens_public.Scheduler.Writer.Synced.{counter}
use dagens_public.Recovery.{seed_at, seed_job_sequence_locked}
use dagens_public.Recovery.Seed.{seed_at-Seeded}
use dagens_public.Reconcile.{
  ReconcileEnv, RoundInput, Reconciler, follower, warm, warm_replay, reconcile_replayed,
}
use dagens_public.Reconcile.Loop.{
  reconcile_with, reconcile_job, reconcile_quarantined, round_store, reconcile_rows, record_success,
  reconcile_store, reconcile_durable_queued_jobs_once,
}

-- Only the view in memory and the counters change, and no counter falls.
pub record OnlyWatches (s t : Scheduler) : Type 0 where
  pub same_store : t.transition_store ≡ s.transition_store
  pub same_queue : t.job_queue ≡ s.job_queue
  pub same_marks : t.queued_jobs ≡ s.queued_jobs
  pub counted : (j : ℕ) → counter j s ≤ counter j t

watches_nothing : (s : Scheduler) → OnlyWatches s s
watches_nothing s = record {
  same_store = refl;
  same_queue = refl;
  same_marks = refl;
  counted = λ j. omega arith;
}

watches_both : (s t u : Scheduler) → OnlyWatches s t → OnlyWatches t u → OnlyWatches s u
watches_both s t u a b = record {
  same_store = b.same_store ∙ a.same_store;
  same_queue = b.same_queue ∙ a.same_queue;
  same_marks = b.same_marks ∙ a.same_marks;
  counted = λ j. omega (arith, a.counted j, b.counted j);
}

seeds_only :
    (j n : ℕ) (jobs : Map Job) (s : Scheduler)
    → OnlyWatches s (seed_at j n (record s { jobs = jobs })).1
unfolding seed_at
seeds_only j n jobs s = record {
  same_store = ground arith;
  same_queue = ground arith;
  same_marks = ground arith;
  counted = (seed_at-Seeded j n (record s { jobs = jobs })).counted;
}

pub warm-OnlyWatches :
    (env : ReconcileEnv) (r : ReplayedJobState) (o : Option Job) (s : Scheduler)
    → OnlyWatches s (warm env r o s)
unfolding seed_job_sequence_locked
warm-OnlyWatches env r none s = seeds_only _ _ _ s
warm-OnlyWatches env r (some job) s =
    elim (Bool-cases (ltb (counter r.job.job_id s) r.job.last_sequence_id)) [
      | inl e ↦ rw e (seeds_only _ _ _ s)
      | inr e ↦ rw e (watches_nothing s)
    ]

reconcile_with-OnlyWatches :
    (env : ReconcileEnv) (round : RoundInput) (row : DurableJobRecord)
    (r : Result ReplayError ReplayedJobState) (c : Reconciler)
    → OnlyWatches c.scheduler (reconcile_with env follower round row r c).scheduler
unfolding reconcile_with reconcile_replayed warm_replay
reconcile_with-OnlyWatches env round row (err e) c = watches_nothing c.scheduler
reconcile_with-OnlyWatches env round row (ok r) c =
    warm-OnlyWatches env (with_durable_job row r) _ c.scheduler

reconcile_quarantined-OnlyWatches :
    (env : ReconcileEnv) (store : TransitionStore) (round : RoundInput) (row : DurableJobRecord)
    (until : Option ℕ) (c : Reconciler)
    → OnlyWatches c.scheduler (reconcile_quarantined env follower store round row until c).scheduler
unfolding reconcile_job
reconcile_quarantined-OnlyWatches env store round row none c =
    reconcile_with-OnlyWatches env round row (replay_job_state round.replay_ctx store row.job_id) c
reconcile_quarantined-OnlyWatches env store round row (some until) c =
    elim (Bool-cases (ltb round.now until)) [
      | inl e ↦ rw e (watches_nothing c.scheduler)
      | inr e ↦ rw e (
          reconcile_with-OnlyWatches env round row
            (replay_job_state round.replay_ctx store row.job_id) _)
    ]

reconcile_rows-OnlyWatches :
    (env : ReconcileEnv) (listed : TransitionStore) (rounds : ℕ → RoundInput)
    (rows : List DurableJobRecord) (i : ℕ) (c : Reconciler)
    → OnlyWatches c.scheduler (reconcile_rows env follower listed rounds i rows c).1.scheduler
unfolding reconcile_rows
reconcile_rows-OnlyWatches env listed rounds [] i c = watches_nothing c.scheduler
reconcile_rows-OnlyWatches env listed rounds (row ∷ rows) i c =
    let store = round_store listed c.scheduler.transition_store in
    let until = lookup row.job_id c.replay_quarantine in
    let c' = reconcile_quarantined env follower store (rounds i) row until c in
    elim (Bool-cases (rounds i).canceled) [
      | inl e ↦ simp e (watches_nothing c.scheduler)
      | inr e ↦ simp e (
          watches_both c.scheduler c'.scheduler
            (reconcile_rows env follower listed rounds (suc i) rows c').1.scheduler
            (reconcile_quarantined-OnlyWatches env store (rounds i) row until c)
            (reconcile_rows-OnlyWatches env listed rounds rows (suc i) c'))
    ]

record_success-OnlyWatches :
    (s : Scheduler) (at : ℕ) (r : Bool × Reconciler)
    → OnlyWatches s r.1.scheduler
    → OnlyWatches s (record_success at r).1.scheduler
record_success-OnlyWatches s at (true, c) w = w
record_success-OnlyWatches s at (false, c) w = w

reconcile_store-OnlyWatches :
    (env : ReconcileEnv) (rounds : ℕ → RoundInput) (at : ℕ) (o : Option TransitionStore)
    (c : Reconciler)
    → OnlyWatches c.scheduler (reconcile_store env follower rounds at o c).1.scheduler
reconcile_store-OnlyWatches env rounds at none c = watches_nothing c.scheduler
reconcile_store-OnlyWatches env rounds at (some store) c =
    record_success-OnlyWatches c.scheduler at _ (reconcile_rows-OnlyWatches env store rounds _ 0 c)

-- A follower that reconciles writes nothing to the store, puts no job in the queue and marks none as
-- queued, and does not lower the sequence counter of any job.
pub reconcile_durable_queued_jobs_once-OnlyWatches :
    (env : ReconcileEnv) (rounds : ℕ → RoundInput) (at : ℕ) (c : Reconciler)
    → OnlyWatches c.scheduler
        (reconcile_durable_queued_jobs_once env follower rounds at c).1.scheduler
unfolding reconcile_durable_queued_jobs_once
reconcile_durable_queued_jobs_once-OnlyWatches env rounds at c =
    reconcile_store-OnlyWatches env rounds at c.scheduler.transition_store c
