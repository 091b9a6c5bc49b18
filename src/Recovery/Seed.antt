-- ===== src/Recovery/Seed.antt =====
-- The sequence counters after seedJobSequenceLocked of pkg/scheduler/recovery.go.
use dagens_public.Prelude.{ℕ, ◌≤◌, ◌≡◌, List, [], ◌∷◌, ltb, ==_refl, if◌then◌else◌, arith, All}
use dagens_public.Prelude.Maps.{lookup-insert}
use dagens_public.Lifecycle.{TransitionRecord}
use dagens_public.Scheduler.{Scheduler}
use dagens_public.Scheduler.Writer.Synced.{counter}
use dagens_public.Recovery.{larger_sequence, seed_at}

larger_sequence_from : (n : ℕ) (log : List TransitionRecord) → n ≤ larger_sequence n log
larger_sequence_from n [] = omega arith
larger_sequence_from n (r ∷ log) =
    ground (arith, larger_sequence_from (if ltb n r.sequence_id then r.sequence_id else n) log)

pub larger_sequence-All :
    (n : ℕ) (log : List TransitionRecord) → All (λ r. r.sequence_id ≤ larger_sequence n log) log
larger_sequence-All n [] = tt
larger_sequence-All n (r ∷ log) =
    let m = if ltb n r.sequence_id then r.sequence_id else n in
    (ground (arith, larger_sequence_from m log), larger_sequence-All m log)

-- What seeding changes: counters only, which do not fall, and the job's one reaches the number.
pub record Seeded (job_id n : ℕ) (s t : Scheduler) : Type 0 where
  pub same_jobs : t.jobs ≡ s.jobs
  pub same_store : t.transition_store ≡ s.transition_store
  pub counted : (j : ℕ) → counter j s ≤ counter j t
  pub reached : n ≤ counter job_id t

pub seed_at-Seeded : (job_id n : ℕ) (s : Scheduler) → Seeded job_id n s (seed_at job_id n s).1
unfolding seed_at
seed_at-Seeded job_id n s = record {
  same_jobs = ground arith;
  same_store = ground arith;
  counted = λ j. ground (arith, lookup-insert job_id j n s.job_sequences);
  reached = ground (arith, lookup-insert job_id job_id n s.job_sequences, ==_refl job_id);
}
