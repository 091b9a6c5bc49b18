-- ===== src/Recovery/Startup.antt =====
-- RecoverFromTransitions of pkg/scheduler/recovery.go as a whole: a restart of the scheduler.
use dagens_public.Prelude.{
  ℕ, suc, ◌≡◌, refl, sym, ap, ◌∙◌, subst, inl, inr, Bool, true, false, ◌||◌, Option, none, some,
  List, [], ◌∷◌, arith, All, Bool-cases,
}
use dagens_public.Prelude.Maps.{lookup}
use dagens_public.Prelude.Results.{Result, ok, err, Result-cases}
use dagens_public.Store.{TransitionStore, list_unfinished_jobs}
use dagens_public.Store.Log.{IsConsistent}
use dagens_public.Replay.{Context, ReplayError, ReplayedJobState, replay_state_from_store}
use dagens_public.Replay.Restart.{
  IsReplayable, Covers, replay_state_from_store-Covers, replay_state_from_store_total,
}
use dagens_public.Scheduler.{Scheduler, number_or_zero}
use dagens_public.Config.{SchedulerConfig}
use dagens_public.Recovery.{
  Decoder, ask, unless_canceled, recover_job, recover_jobs, batch_size_of,
  resume_recovered_queued_jobs_locked, finish_recovery, recover_replayed, recover_from_transitions,
  is_some, recover_from_store,
}
use dagens_public.Recovery.Recover.{IsRecovered, IsJobSynced, Holds, HoldsOn}
use dagens_public.Recovery.Loop.{Recovers, recover_jobs-Recovers}
use dagens_public.Recovery.Resumed.{Resumes, resume_jobs-Resumes}

-- What recovery leaves in memory, however it ends, and what it achieves without an error.
pub record Restarts (store : TransitionStore) (s : Scheduler)
    (result : Option ReplayError × Scheduler) : Type 0 where
  pub recovered : IsRecovered store result.1
  pub on : HoldsOn s result.1
  pub all : result.0 ≡ none → All (λ row. Holds result.1 row.job_id) (list_unfinished_jobs store)

resumed-IsRecovered :
    (store : TransitionStore) (ids : List ℕ) (s t : Scheduler)
    → Resumes ids s t
    → IsRecovered store s
    → IsRecovered store t
resumed-IsRecovered store ids s t r y = record {
  stored = r.same_store ∙ y.stored;
  synced = λ j job h.
      subst (λ m. IsJobSynced store j (number_or_zero (lookup j m)) job) (sym r.same_sequences)
        (y.synced j job (ap (lookup j) (sym r.same_jobs) ∙ h));
}

module _ (decoder : Decoder) (config : SchedulerConfig) (store : TransitionStore)
    (c : IsConsistent store) where
  finish_recovery-Restarts :
      (rs : List ReplayedJobState) (s : Scheduler)
      (result : Option ReplayError × (List ℕ × Scheduler))
      → Covers store (list_unfinished_jobs store) rs
      → Recovers decoder store c rs s result
      → Restarts store s (finish_recovery config result)
  unfolding finish_recovery
  finish_recovery-Restarts rs s (some e, (ids, t)) cover r = record {
    recovered = r.recovered;
    on = r.on;
    all = λ n. absurd (ground arith);
  }
  finish_recovery-Restarts rs s (none, (ids, t)) cover r =
      let all = cover.covers (Holds t) (r.all refl) in
      elim (Bool-cases config.enable_resume_recovered_queued_jobs) [
        | inr e ↦ rw e (record { recovered = r.recovered; on = r.on; all = λ n. all })
        | inl e ↦
            let m = resume_jobs-Resumes ids t in
            let u = resume_recovered_queued_jobs_locked ids t in
            rw e (record {
              recovered = resumed-IsRecovered store ids t u m r.recovered;
              on = λ j job h. ap (lookup j) m.same_jobs ∙ r.on j job h;
              all = λ n.
                  subst
                    (λ jobs.
                      All (λ row. is_some (lookup row.job_id jobs) ≡ true)
                        (list_unfinished_jobs store))
                    (sym m.same_jobs) all;
            })
      ]

  recover_stored :
      (inner : ℕ → Context) (replay_ctx ctx : Context) (s : Scheduler)
      (r : Result ReplayError (List ReplayedJobState))
      → s.transition_store ≡ some store
      → replay_state_from_store inner replay_ctx store ≡ r
      → recover_from_transitions decoder config inner replay_ctx ctx s
        ≡ recover_replayed decoder config ctx r s
  unfolding recover_from_transitions recover_from_store
  recover_stored inner replay_ctx ctx s r e h =
      ap (λ o. recover_from_store decoder config inner replay_ctx ctx o s) e
      ∙ ap (λ x. recover_replayed decoder config ctx x s) h

  pub recover_from_transitions-Restarts :
      (inner : ℕ → Context) (replay_ctx ctx : Context) (s : Scheduler)
      → IsRecovered store s
      → Restarts store s (recover_from_transitions decoder config inner replay_ctx ctx s)
  unfolding recover_replayed
  recover_from_transitions-Restarts inner replay_ctx ctx s y =
      elim (Result-cases (replay_state_from_store inner replay_ctx store)) [
        | inr (e, h) ↦
            subst (Restarts store s)
              (sym (recover_stored inner replay_ctx ctx s (err e) y.stored h))
              (record { recovered = y; on = λ j job h. h; all = some_error e })
        | inl (rs, h) ↦
            let cover = replay_state_from_store-Covers inner replay_ctx store rs h in
            subst (Restarts store s)
              (sym (recover_stored inner replay_ctx ctx s (ok rs) y.stored h))
              (finish_recovery-Restarts rs s _ cover (
                recover_jobs-Recovers decoder store c (batch_size_of config) ctx rs 0 0 s
                  cover.views y))
      ]
    where
      some_error :
          (e : ReplayError)
          → ◌≡◌ {A = Option ReplayError} (some e) none
          → All (λ row. Holds s row.job_id) (list_unfinished_jobs store)
      some_error e n = absurd (ground arith)

  quiet_unless :
      (canceled : Bool) (s : Scheduler) (r : Option ReplayError × (List ℕ × Scheduler))
      → canceled ≡ false
      → r.0 ≡ none
      → (unless_canceled canceled s r).0 ≡ none
  quiet_unless true s r e h = absurd (ground arith)
  quiet_unless false s r e h = h

  quiet_ask :
      (asked : Bool) (ctx : Context) (k : ℕ)
      → ((i : ℕ) → ctx i ≡ false)
      → (ask asked ctx k).0 ≡ false
  quiet_ask true ctx k q = q k
  quiet_ask false ctx k q = refl

  quiet_or : (a b : Bool) → a ≡ false → b ≡ false → (a || b) ≡ false
  quiet_or a b e h = ground arith

  -- The loops end without an error if the context is never canceled.
  recover_jobs_quiet :
      (batch_size : ℕ) (ctx : Context) (rs : List ReplayedJobState) (k i : ℕ) (s : Scheduler)
      → ((n : ℕ) → ctx n ≡ false)
      → (recover_jobs decoder batch_size ctx k i rs s).0 ≡ none
  unfolding recover_jobs
  recover_jobs_quiet batch_size ctx [] k i s q = refl
  recover_jobs_quiet batch_size ctx (r ∷ rs) k i s q =
      quiet_unless _ s _ (quiet_or _ _ (quiet_ask _ ctx _ q) (quiet_ask _ ctx _ q)) (
        quiet_unless _ (recover_job decoder r s).1 _ (quiet_ask _ ctx _ q)
          (recover_jobs_quiet batch_size ctx rs _ (suc i) (recover_job decoder r s).1 q))

  finish_recovery_quiet :
      (r : Option ReplayError × (List ℕ × Scheduler))
      → r.0 ≡ none
      → (finish_recovery config r).0 ≡ none
  unfolding finish_recovery
  finish_recovery_quiet (none, (ids, t)) h = refl
  finish_recovery_quiet (some e, (ids, t)) h = h

  -- Recovery ends without an error where every unfinished job can be replayed.
  pub recover_quiet :
      (inner : ℕ → Context) (replay_ctx ctx : Context) (s : Scheduler)
      → s.transition_store ≡ some store
      → ((k i : ℕ) → inner k i ≡ false)
      → ((i : ℕ) → replay_ctx i ≡ false)
      → ((i : ℕ) → ctx i ≡ false)
      → All (IsReplayable store) (list_unfinished_jobs store)
      → (recover_from_transitions decoder config inner replay_ctx ctx s).0 ≡ none
  unfolding recover_replayed
  recover_quiet inner replay_ctx ctx s stored qi qr q a =
      let (rs, h) = replay_state_from_store_total inner replay_ctx store qi qr a in
      ap (λ (x : Option ReplayError × Scheduler). x.0)
        (recover_stored inner replay_ctx ctx s (ok rs) stored h)
      ∙ finish_recovery_quiet _ (recover_jobs_quiet (batch_size_of config) ctx rs 0 0 s q)

-- Let the store's logs be sorted and valid, and let every job in memory be in sync with the store: its
-- log replays, is numbered up to the job's counter, and gives the job and each of its tasks the states
-- that they have in memory. After recovery from that store, with or without an error, every job in
-- memory is in sync, and every job that was in memory is there as it was.
pub recover_from_transitions-IsRecovered :
    (decoder : Decoder) (config : SchedulerConfig) (inner : ℕ → Context) (replay_ctx ctx : Context)
    (store : TransitionStore) (s : Scheduler)
    → IsConsistent store
    → IsRecovered store s
    → IsRecovered store (recover_from_transitions decoder config inner replay_ctx ctx s).1
      × HoldsOn s (recover_from_transitions decoder config inner replay_ctx ctx s).1
recover_from_transitions-IsRecovered decoder config inner replay_ctx ctx store s c y =
    let r = recover_from_transitions-Restarts decoder config store c inner replay_ctx ctx s y in
    (r.recovered, r.on)
