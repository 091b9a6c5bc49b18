-- ===== src/Recovery/Recover.antt =====
-- RecoverFromTransitions of pkg/scheduler/recovery.go, up to the resumption of queued jobs.
use dagens_public.Prelude.{
  ℕ, ◌≤◌, ◌≡◌, refl, sym, ap, ◌∙◌, subst, inl, inr, true, false, some, ◌==◌, ==_iff, arith, All,
  Bool-cases, Option-cases, if◌then◌else◌,
}
use dagens_public.Prelude.Maps.{lookup, insert, lookup-insert, lookup-insert_self}
use dagens_public.Lifecycle.{empty}
use dagens_public.Store.{TransitionStore, list_transitions_by_job}
use dagens_public.Store.Log.{IsConsistent}
use dagens_public.Replay.{ReplayedJobState}
use dagens_public.Replay.Chain.{last_of, job_states}
use dagens_public.Replay.Append.{IsLegalLog}
use dagens_public.Replay.Restart.{IsOfStore}
use dagens_public.Scheduler.{Scheduler, Job}
use dagens_public.Scheduler.Writer.Synced.{counter}
use dagens_public.Scheduler.Writer.Extend.{IsNumbered, IsNumbered-mono}
use dagens_public.Queue.{is_some}
use dagens_public.Recovery.{
  Decoder, build_recovered_runtime_job, larger_sequence, seed_job_sequence_locked, recover_job,
}
use dagens_public.Recovery.Build.{AllLogged, recovered_stages-AllLogged}
use dagens_public.Recovery.Seed.{Seeded, seed_at-Seeded, larger_sequence-All}

-- A job in memory against the store: its log replays, is numbered up to the counter `n`, and gives the
-- job and its tasks the states that they have in memory.
pub record IsJobSynced (store : TransitionStore) (j n : ℕ) (job : Job) : Type 0 where
  pub id : job.id ≡ j
  pub legal : IsLegalLog j (list_transitions_by_job j store)
  pub numbered : IsNumbered n (list_transitions_by_job j store)
  pub state : job.lifecycle_state ≡ last_of empty (job_states (list_transitions_by_job j store))
  pub tasks : AllLogged j store job.stages

IsJobSynced-mono :
    (store : TransitionStore) (j m n : ℕ) (job : Job)
    → m ≤ n
    → IsJobSynced store j m job
    → IsJobSynced store j n job
IsJobSynced-mono store j m n job l y = record {
  id = y.id;
  legal = y.legal;
  numbered = IsNumbered-mono m n (list_transitions_by_job j store) l y.numbered;
  state = y.state;
  tasks = y.tasks;
}

-- Every job in memory is in sync with the store.
pub record IsRecovered (store : TransitionStore) (s : Scheduler) : Type 0 where
  pub stored : s.transition_store ≡ some store
  pub synced :
      (j : ℕ) (job : Job) → lookup j s.jobs ≡ some job → IsJobSynced store j (counter j s) job

abbrev pub Holds : Scheduler → ℕ → Type 0
Holds s j = is_some (lookup j s.jobs) ≡ true

-- Jobs in memory stay as they are.
abbrev pub HoldsOn : Scheduler → Scheduler → Type 0
HoldsOn s t = (j : ℕ) (job : Job) → lookup j s.jobs ≡ some job → lookup j t.jobs ≡ some job

pub Holds-on : (s t : Scheduler) (j : ℕ) → HoldsOn s t → Holds s j → Holds t j
Holds-on s t j on h = elim (Option-cases (lookup j s.jobs)) [
  | inl e ↦ absurd (ground arith)
  | inr (job, e) ↦ ground (arith, on j job e)
]

Seeded-IsRecovered :
    (store : TransitionStore) (j n : ℕ) (s t : Scheduler)
    → Seeded j n s t
    → IsRecovered store s
    → IsRecovered store t
Seeded-IsRecovered store j n s t d y = record {
  stored = d.same_store ∙ y.stored;
  synced = λ k job h.
      IsJobSynced-mono store k (counter k s) (counter k t) job (d.counted k)
        (y.synced k job (ap (lookup k) (sym d.same_jobs) ∙ h));
}

module _ (decoder : Decoder) (store : TransitionStore) (c : IsConsistent store) where
  -- A recovered job, once its counter has been seeded.
  built-IsJobSynced :
      (r : ReplayedJobState) (n : ℕ)
      → IsOfStore store r
      → larger_sequence r.job.last_sequence_id r.transitions ≤ n
      → IsJobSynced store r.job.job_id n (build_recovered_runtime_job decoder r)
  unfolding build_recovered_runtime_job
  built-IsJobSynced r n v l =
      let m = larger_sequence r.job.last_sequence_id r.transitions in
      record {
        id = refl;
        legal = v.legal;
        numbered = IsNumbered-mono m n (list_transitions_by_job r.job.job_id store) l (record {
          sorted = c.ordered r.job.job_id;
          below =
              subst (All (λ q. q.sequence_id ≤ m)) v.transitions
                (larger_sequence-All r.job.last_sequence_id r.transitions);
        });
        state = v.state;
        tasks = recovered_stages-AllLogged decoder store r.job.job_id r v;
      }

  -- What a round of the loop keeps.
  pub record RoundKeeps (r : ReplayedJobState) (s t : Scheduler) : Type 0 where
    pub recovered : IsRecovered store t
    pub holds : Holds t r.job.job_id
    pub on : HoldsOn s t

  module _ (r : ReplayedJobState) (s : Scheduler) (v : IsOfStore store r) (y : IsRecovered store s)
      (new : is_some (lookup r.job.job_id s.jobs) ≡ false) where
    abbrev built : Job
    built = build_recovered_runtime_job decoder r

    abbrev put : Scheduler
    put = record s { jobs = insert r.job.job_id built s.jobs }

    abbrev seq : ℕ
    seq = larger_sequence r.job.last_sequence_id r.transitions

    looked :
        (k : ℕ) (job : Job)
        → lookup k put.jobs ≡ some job
        → (if r.job.job_id == k then some built else lookup k s.jobs) ≡ some job
    looked k job h = sym (lookup-insert r.job.job_id k built s.jobs) ∙ h

    put-synced :
        (t : Scheduler) (k : ℕ) (job : Job)
        → Seeded r.job.job_id seq put t
        → lookup k put.jobs ≡ some job
        → IsJobSynced store k (counter k t) job
    put-synced t k job d h = elim (Bool-cases (r.job.job_id == k)) [
      | inl e ↦
          let same : built ≡ job = ground (arith, looked k job h) in
          subst (λ (i : ℕ). IsJobSynced store i (counter i t) job) ((==_iff r.job.job_id k).0 e)
            (subst (IsJobSynced store r.job.job_id (counter r.job.job_id t)) same
              (built-IsJobSynced r (counter r.job.job_id t) v d.reached))
      | inr e ↦
          IsJobSynced-mono store k (counter k s) (counter k t) job (d.counted k)
            (y.synced k job (ground (arith, looked k job h)))
    ]

    put-on : HoldsOn s put
    put-on k job h = elim (Bool-cases (r.job.job_id == k)) [
      | inl e ↦
          let same = ap (λ (i : ℕ). lookup i s.jobs) ((==_iff r.job.job_id k).0 e) in
          absurd (ground (arith, same, new, h))
      | inr e ↦ lookup-insert r.job.job_id k built s.jobs ∙ ground arith
    ]

    put-RoundKeeps : (t : Scheduler) → Seeded r.job.job_id seq put t → RoundKeeps r s t
    put-RoundKeeps t d = record {
      recovered = record {
        stored = d.same_store ∙ y.stored;
        synced = λ k job h. put-synced t k job d (ap (lookup k) (sym d.same_jobs) ∙ h);
      };
      holds =
          ap (λ m. is_some (lookup r.job.job_id m)) d.same_jobs
          ∙ ap is_some (lookup-insert_self r.job.job_id built s.jobs);
      on = λ k job h. ap (lookup k) d.same_jobs ∙ put-on k job h;
    }

  pub recover_job-RoundKeeps :
      (r : ReplayedJobState) (s : Scheduler)
      → IsOfStore store r
      → IsRecovered store s
      → RoundKeeps r s (recover_job decoder r s).1
  unfolding recover_job seed_job_sequence_locked
  recover_job-RoundKeeps r s v y = elim (Bool-cases (is_some (lookup r.job.job_id s.jobs))) [
    | inl e ↦
        let j = r.job.job_id in
        let n = larger_sequence r.job.last_sequence_id r.transitions in
        let d = seed_at-Seeded j n s in
        rw e (record {
          recovered = Seeded-IsRecovered store j n s _ d y;
          holds = ap (λ m. is_some (lookup j m)) d.same_jobs ∙ e;
          on = λ k job h. ap (lookup k) d.same_jobs ∙ h;
        })
    | inr e ↦
        rw e
          (put-RoundKeeps r s v y e _ (seed_at-Seeded r.job.job_id (seq r s v y e) (put r s v y e)))
  ]
