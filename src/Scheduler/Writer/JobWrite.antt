-- ===== src/Scheduler/Writer/JobWrite.antt =====
-- recordJobTransition of pkg/scheduler/scheduler.go keeps the view in memory and the logs together.
use dagens_public.Prelude.{
  ℕ, ◌+◌, ◌<◌, ◌≤◌, ◌≡◌, refl, sym, ap, ◌∙◌, subst, ◌⊎◌, inl, inr, Bool, true, some, arith,
  Option-cases, Bool-cases, ◌==◌, if◌then◌else◌,
}
use native.Mathlib.Decide.{ℕ_discrete}
use dagens_public.Prelude.Maps.{lookup, insert, lookup-insert, lookup-insert_self}
use dagens_public.Lifecycle.{
  State, empty, TransitionType, TransitionRecord, same_state, can_transition_job_state,
}
use dagens_public.Lifecycle.Graph.{same_state-eq}
use dagens_public.Store.{TransitionStore}
use dagens_public.Replay.Chain.{Follows, last_of, job_states, task_states}
use dagens_public.Scheduler.{Scheduler, Codec, Job, number_or_zero, next_number, next_sequence_id}
use dagens_public.Scheduler.Writer.{
  settle_job, job_record, job_row, write_job, may_record_job, record_job, record_job_transition,
}
use dagens_public.Scheduler.Writer.Extend.{IsNumbered, write_job-Extends}
use dagens_public.Scheduler.Writer.Synced.{
  counter, Agrees, last_job_state, last_task_state, IsSynced, persist_cases, Appended,
  Appended-legal, Appended-numbered, Appended-last_job, Appended-last_task, Bumped, counter-insert,
  Keeps, Bumped-Keeps, stored_log, Extends-Appended,
}

Follows-of_may :
    (last previous new_state : State)
    → Agrees last previous
    → may_record_job previous new_state ≡ true
    → Follows can_transition_job_state last new_state
unfolding may_record_job
Follows-of_may last previous new_state (inl e) h = inl e
Follows-of_may last previous new_state (inr e) h = elim (Bool-cases (same_state previous empty)) [
  | inl same ↦ inl (e ∙ same_state-eq previous empty same)
  | inr other ↦ inr (ground arith)
]

module _ (codec : Codec) (done : Bool) (now : ℕ) (job : Job) (transition : TransitionType)
    (new_state : State) (error_summary : ℕ) (s : Scheduler) (store : TransitionStore)
    (stored : s.transition_store ≡ some store) (y : IsSynced s)
    (room : counter job.id s + 1 < 18446744073709551616) where
  abbrev seq : ℕ
  seq = next_number (counter job.id s)

  abbrev written : TransitionRecord
  written = job_record codec now seq job transition new_state error_summary

  abbrev result : Scheduler
  result = record_job codec done now job transition new_state error_summary s

  -- The write is refused or fails, or appends one record and moves the job.
  record_job_cases :
      Bumped s result
      ⊎ (Appended written s result
          × (result.jobs ≡ insert job.id (record job { lifecycle_state = new_state }) s.jobs)
          × (may_record_job job.lifecycle_state new_state ≡ true))
  unfolding record_job job_record
  record_job_cases = elim (Bool-cases (may_record_job job.lifecycle_state new_state)) [
    | inr no_move ↦ inl (
        rw no_move (record { same_logs = λ j. refl; same_jobs = refl; counted = λ j. omega arith }))
    | inl move ↦
        elim (persist_cases done (write_job written (job_row now seq job new_state))
          (record s { job_sequences = insert job.id seq s.job_sequences }) store stored) [
            | inl (t, e, p) ↦
                let x =
                  write_job-Extends written store t (counter job.id s)
                    (subst (IsNumbered (counter job.id s)) (sym (stored_log s store job.id stored))
                      (y.numbered job.id))
                    (omega arith) (job_row now seq job new_state) e in
                inr (
                  rw (move, p)
                    (
                      Extends-Appended written s _ store t stored refl x
                          (λ j. counter-insert job.id j s (some t) room) (omega arith)
                          (ap number_or_zero (lookup-insert_self job.id seq s.job_sequences)),
                      refl,
                      refl,
                    ))
            | inr (x, p) ↦ inl (
                rw (move, p)
                  (record {
                    same_logs = λ j. stored_log s store j stored;
                    same_jobs = refl;
                    counted = λ j. counter-insert job.id j s (some store) room;
                  }))
          ]
  ]

  moved_IsSynced :
      (held : lookup job.id s.jobs ≡ some job)
      → Appended written s result
      → result.jobs ≡ insert job.id (record job { lifecycle_state = new_state }) s.jobs
      → may_record_job job.lifecycle_state new_state ≡ true
      → IsSynced result
  unfolding job_record
  moved_IsSynced held a jobs may = record {
    legal =
        Appended-legal written s result a y
          (Follows-of_may (last_job_state job.id s) job.lifecycle_state new_state
            (y.agrees job.id job held) may)
          (λ k. tt);
    numbered = Appended-numbered written s result a y;
    keyed = λ j q h. ground (arith, looked j, y.keyed j q);
    agrees = λ j q h. elim (ℕ_discrete j job.id) [
      | yes e ↦ inr (last j e ∙ ground (arith, looked j))
      | no n ↦
          subst (λ l. Agrees (last_of empty (job_states l)) q.lifecycle_state) (sym (a.others j n))
            (y.agrees j q (ground (arith, looked j)))
    ];
  }
    where
      looked :
          (j : ℕ)
          → lookup j result.jobs ≡ (
              if job.id == j
              then some (record job { lifecycle_state = new_state })
              else lookup j s.jobs)
      looked j = ap (lookup j) jobs ∙ lookup-insert job.id j _ s.jobs

      last : (j : ℕ) → j ≡ job.id → last_job_state j result ≡ new_state
      last j e = ap (λ (k : ℕ). last_job_state k result) e ∙ Appended-last_job written s result a y

  -- The last state of a task in the logs is not changed by the record of a job.
  same_task :
      Appended written s result → (j k : ℕ) → last_task_state j k result ≡ last_task_state j k s
  unfolding job_record
  same_task a j k = elim (ℕ_discrete j job.id) [
    | yes e ↦
        subst (λ (i : ℕ). last_task_state i k result ≡ last_task_state i k s) (sym e)
          (Appended-last_task written s result a y k)
    | no n ↦ ap (λ l. last_of empty (task_states k l)) (a.others j n)
  ]

  record_job-Keeps : lookup job.id s.jobs ≡ some job → Keeps s result
  record_job-Keeps held = elim record_job_cases [
    | inl b ↦ Bumped-Keeps s result b y
    | inr (a, jobs, may) ↦ (
      moved_IsSynced held a jobs may,
      λ task h.
          subst (λ l. Agrees l task.lifecycle_state) (sym (same_task a task.job_id task.id)) h,
    )
  ]

record_job_transition_cases :
    (codec : Codec) (done : Bool) (now job_id : ℕ) (transition : TransitionType) (new_state : State)
    (error_summary : ℕ) (s : Scheduler)
    → let t = record_job_transition codec done now job_id transition new_state error_summary s in
      (t ≡ s)
      ⊎ ((job : Job) × (store : TransitionStore) × (lookup job_id s.jobs ≡ some job)
          × (s.transition_store ≡ some store)
          × (t ≡ record_job codec done now job transition new_state error_summary s))
unfolding record_job_transition
record_job_transition_cases codec done now job_id transition new_state error_summary s =
    elim (Option-cases s.transition_store) [
      | inl e ↦ inl (ground arith)
      | inr (store, e) ↦ elim (Option-cases (lookup job_id s.jobs)) [
        | inl n ↦ inl (ground arith)
        | inr (job, held) ↦ inr (job, store, held, e, ground arith)
      ]
    ]

-- recordJobTransition keeps the scheduler and its logs together, whatever move it is asked for
-- and whether or not the write succeeds: if every log replays, is numbered in order up to the
-- job's counter, and either has no record of its job or ends in the state that the scheduler
-- holds for the job, then this holds afterwards, and a task that agreed with its log still does.
-- The job's sequence counter must have room for one number.
pub record_job_transition-Keeps :
    (codec : Codec) (done : Bool) (now job_id : ℕ) (transition : TransitionType) (new_state : State)
    (error_summary : ℕ) (s : Scheduler)
    → IsSynced s
    → counter job_id s + 1 < 18446744073709551616
    → Keeps s (record_job_transition codec done now job_id transition new_state error_summary s)
record_job_transition-Keeps codec done now job_id transition new_state error_summary s y room =
    elim (record_job_transition_cases codec done now job_id transition new_state error_summary s) [
      | inl e ↦ subst (Keeps s) (sym e) (y, λ task h. h)
      | inr (job, store, held, stored, e) ↦
          let named = y.keyed job_id job held in
          subst (Keeps s) (sym e) (
            record_job-Keeps codec done now job transition new_state error_summary s store stored y
              (rw named room) (subst (λ (k : ℕ). lookup k s.jobs ≡ some job) (sym named) held))
    ]

record_job-counter :
    (codec : Codec) (done : Bool) (now : ℕ) (job : Job) (transition : TransitionType)
    (new_state : State) (error_summary : ℕ) (s : Scheduler) (store : TransitionStore)
    → s.transition_store ≡ some store
    → counter job.id s + 1 < 18446744073709551616
    → counter job.id (record_job codec done now job transition new_state error_summary s)
      ≤ counter job.id s + 1
unfolding record_job settle_job next_sequence_id
record_job-counter codec done now job transition new_state error_summary s store stored room =
    elim (Bool-cases (may_record_job job.lifecycle_state new_state)) [
      | inr e ↦ rw e (omega arith)
      | inl e ↦
          elim (persist_cases done
            (write_job
              (job_record codec now (next_number (counter job.id s)) job transition new_state
                error_summary)
              (job_row now (next_number (counter job.id s)) job new_state))
            (record s {
              job_sequences = insert job.id (next_number (counter job.id s)) s.job_sequences;
            })
            store stored) [
              | inl (t, w, p) ↦
                  rw (e, p)
                    (ground (
                      arith,
                      lookup-insert_self job.id (next_number (counter job.id s)) s.job_sequences,
                    ))
              | inr (x, p) ↦
                  rw (e, p)
                    (ground (
                      arith,
                      lookup-insert_self job.id (next_number (counter job.id s)) s.job_sequences,
                    ))
            ]
    ]

-- One transition takes at most one number of its job, and none of another.
pub record_job_transition-counter :
    (codec : Codec) (done : Bool) (now job_id : ℕ) (transition : TransitionType) (new_state : State)
    (error_summary : ℕ) (s : Scheduler)
    → IsSynced s
    → counter job_id s + 1 < 18446744073709551616
    → counter job_id
        (record_job_transition codec done now job_id transition new_state error_summary s)
      ≤ counter job_id s + 1
record_job_transition-counter codec done now job_id transition new_state error_summary s y room =
    elim (record_job_transition_cases codec done now job_id transition new_state error_summary s) [
      | inl e ↦ rw e (omega arith)
      | inr (job, store, held, stored, e) ↦
          let named = y.keyed job_id job held in
          subst (λ t. counter job_id t ≤ counter job_id s + 1) (sym e)
            (subst
              (λ (k : ℕ).
                counter k (record_job codec done now job transition new_state error_summary s)
                ≤ counter k s + 1)
              named
              (record_job-counter codec done now job transition new_state error_summary s store
                stored (rw named room)))
    ]
