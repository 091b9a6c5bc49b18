-- ===== src/Recovery/Loop.antt =====
-- The loops of RecoverFromTransitions in pkg/scheduler/recovery.go over the replayed jobs.
use dagens_public.Prelude.{ℕ, suc, ◌≡◌, Bool, true, false, Option, none, List, [], ◌∷◌, arith, All}
use dagens_public.Store.{TransitionStore}
use dagens_public.Store.Log.{IsConsistent}
use dagens_public.Replay.{Context, ReplayError, ReplayedJobState}
use dagens_public.Replay.Restart.{IsOfStore}
use dagens_public.Scheduler.{Scheduler}
use dagens_public.Recovery.{Decoder, recover_job, unless_canceled, also_recovered, recover_jobs}
use dagens_public.Recovery.Recover.{
  IsRecovered, Holds, HoldsOn, Holds-on, RoundKeeps, recover_job-RoundKeeps,
}

module _ (decoder : Decoder) (store : TransitionStore) (c : IsConsistent store) where
  -- What the loops keep, however they end, and what they achieve without an error.
  pub record Recovers (rs : List ReplayedJobState) (s : Scheduler)
      (result : Option ReplayError × (List ℕ × Scheduler)) : Type 0 where
    pub recovered : IsRecovered store result.1.1
    pub on : HoldsOn s result.1.1
    pub all : result.0 ≡ none → All (λ r. Holds result.1.1 r.job.job_id) rs

  Recovers-cons :
      (r : ReplayedJobState) (rs : List ReplayedJobState) (s t : Scheduler) (found : List ℕ)
      (result : Option ReplayError × (List ℕ × Scheduler))
      → RoundKeeps decoder store c r s t
      → Recovers rs t result
      → Recovers (r ∷ rs) s (also_recovered found result)
  Recovers-cons r rs s t found (e, (ids, u)) m l = record {
    recovered = l.recovered;
    on = λ j job h. l.on j job (m.on j job h);
    all = λ n. (Holds-on t u r.job.job_id l.on m.holds, l.all n);
  }

  Recovers-unless :
      (canceled : Bool) (rs : List ReplayedJobState) (s t : Scheduler)
      (result : Option ReplayError × (List ℕ × Scheduler))
      → IsRecovered store t
      → HoldsOn s t
      → Recovers rs s result
      → Recovers rs s (unless_canceled canceled t result)
  Recovers-unless true rs s t result y on l = record {
    recovered = y;
    on = on;
    all = λ n. absurd (ground arith);
  }
  Recovers-unless false rs s t result y on l = l

  pub recover_jobs-Recovers :
      (batch_size : ℕ) (ctx : Context) (rs : List ReplayedJobState) (k i : ℕ) (s : Scheduler)
      → All (IsOfStore store) rs
      → IsRecovered store s
      → Recovers rs s (recover_jobs decoder batch_size ctx k i rs s)
  unfolding recover_jobs
  recover_jobs-Recovers batch_size ctx [] k i s a y = record {
    recovered = y;
    on = λ j job h. h;
    all = λ n. tt;
  }
  recover_jobs-Recovers batch_size ctx (r ∷ rs) k i s a y =
      let m = recover_job-RoundKeeps decoder store c r s a.0 y in
      let t = (recover_job decoder r s).1 in
      Recovers-unless _ (r ∷ rs) s s _ y (λ j job h. h)
        (Recovers-cons r rs s t _ _ m (
          Recovers-unless _ rs t t _ m.recovered (λ j job h. h)
            (recover_jobs-Recovers batch_size ctx rs _ (suc i) t a.1 m.recovered)))
