-- ===== src/Dispatch/Claim.antt =====
-- claimTaskDispatchTransition of pkg/scheduler/scheduler.go keeps the view in memory and the logs
-- together.
use dagens_public.Prelude.{
  ℕ, ◌+◌, ◌≤◌, ◌<◌, ◌≡◌, refl, sym, ap, ◌∙◌, subst, ◌≢◌, inl, inr, Bool, true, none, some, Option,
  [], ◌∷◌, ◌++◌, arith, Option-cases, Bool-cases,
}
use dagens_public.Prelude.Maps.{lookup, insert, lookup-insert_self}
use dagens_public.Prelude.Results.{Result, ok, Result-cases}
use dagens_public.Lifecycle.{
  empty, dispatched, TransitionRecord, DurableJobRecord, TaskDispatchClaim, same_state,
  task_dispatched, can_transition_task_state,
}
use dagens_public.Lifecycle.Graph.{same_state-eq}
use dagens_public.Store.{
  TransitionStore, StoreError, append_transition, upsert_job, claim_task_dispatch, claim_rejected,
  list_transitions_by_job,
}
use dagens_public.Replay.Chain.{Follows}
use dagens_public.Scheduler.{
  Task, Scheduler, Codec, next_number, next_sequence_id, durable_job_snapshot,
}
use dagens_public.Scheduler.Writer.{persist_transition_write, task_record, settle_task}
use dagens_public.Scheduler.Writer.Extend.{
  Extends, IsNumbered, append_transition-Extends, Extends-reindex,
}
use dagens_public.Scheduler.Writer.Synced.{
  counter, last_task_state, IsSynced, IsTaskSynced, Keeps, persist_cases, stored_log,
}
use dagens_public.Scheduler.Writer.TaskWrite.{TaskKeeps, write_TaskKeeps}
use dagens_public.Dispatch.{
  DispatchError, claim_task_dispatch_transition, claim_stored, state_before_claim, settle_claim,
  write_claim, claim_record, dispatch_claim,
}
use dagens_public.Dispatch.Counting.{Carries, Carries-refl, Carries-more, Carries-trans}
use dagens_public.Dispatch.FirstDispatch.{first_dispatch-Keeps, first_dispatch-counter}
use dagens_public.Replay.Chain.{last_of, task_states}
use dagens_public.Scheduler.Writer.Synced.{store_log}

-- A claim leaves the logs alone.
claim_log :
    (c : TaskDispatchClaim) (s : TransitionStore) (j : ℕ)
    → list_transitions_by_job j (claim_task_dispatch c s).1 ≡ list_transitions_by_job j s
unfolding claim_task_dispatch list_transitions_by_job
claim_log c s j = elim (Option-cases (lookup c.task_id s.tasks)) [
  | inl e ↦ ground arith
  | inr (row, e) ↦ ground arith
]

-- The write of a claim extends the log with the claim's record.
write_claim-Extends :
    (c : TaskDispatchClaim) (r : TransitionRecord) (snapshot : Option DurableJobRecord)
    (s t : TransitionStore) (n : ℕ)
    → IsNumbered n (list_transitions_by_job r.job_id s)
    → n ≤ r.sequence_id
    → write_claim c r snapshot s ≡ ok t
    → Extends r s t
unfolding write_claim claim_task_dispatch upsert_job list_transitions_by_job
write_claim-Extends c r snapshot s t n num le h = elim (Bool-cases (claim_task_dispatch c s).0) [
  | inr e ↦ absurd (ground arith)
  | inl e ↦ elim (Result-cases (append_transition r (claim_task_dispatch c s).1)) [
    | inl (u, a) ↦
        let x =
          append_transition-Extends r (claim_task_dispatch c s).1 u n
            (subst (IsNumbered n) (sym (claim_log c s r.job_id)) num) le a in
        Extends-reindex {s = s} {t = u}
          (record {
            accepted = x.accepted;
            mine = x.mine ∙ ap (λ l. l ++ r ∷ []) (claim_log c s r.job_id);
            others = λ j ne. x.others j ne ∙ claim_log c s j;
          })
          (λ j. ground arith)
    | inr (x, a) ↦ absurd (ground arith)
  ]
]

-- A write does not change the counters.
pub persist_counter :
    (done : Bool) (fn : TransitionStore → Result StoreError TransitionStore) (s : Scheduler)
    (store : TransitionStore) (j : ℕ)
    → s.transition_store ≡ some store
    → counter j (persist_transition_write done fn s).0 ≡ counter j s
persist_counter done fn s store j stored = elim (persist_cases done fn s store stored) [
  | inl (t, w, p) ↦ rw p refl
  | inr (x, p) ↦ rw p refl
]

-- What keeps everything and takes `n` numbers more.
Carries-Keeps :
    (m n : ℕ) (task task' : Task) (s t u : Scheduler)
    → Carries m task s task' t
    → Keeps t u
    → counter task'.job_id u ≤ counter task'.job_id t + n
    → Carries (m + n) task s task' u
Carries-Keeps m n task task' s t u c (y, keep) counted =
    Carries-trans m n task task' task' s t u c (record {
      keeps = record {
        scheduler = y;
        same_task = (refl, refl);
        this_task = keep task' c.keeps.this_task;
        other_tasks = λ other d h. keep other h;
      };
      counted = counted;
    })

settle_claim-Carries :
    (codec : Codec) (done : Bool) (now : ℕ) (task : Task) (s : Scheduler)
    (p : Scheduler × Option StoreError)
    → counter task.job_id p.0 ≤ counter task.job_id s + 1
    → counter task.job_id s + 3 < 18446744073709551616
    → TaskKeeps task s (settle_task task dispatched p).1 (settle_task task dispatched p).0
    → Carries 3 task s (settle_claim codec done now task p).2 (settle_claim codec done now task p).1
unfolding settle_claim settle_task
settle_claim-Carries codec done now task s (t, none) le room k =
    Carries-more (1 + 2) 3 task _ s _ (omega arith) (
      Carries-Keeps 1 2 task _ s t _ (record { keeps = k; counted = le })
        (first_dispatch-Keeps codec done now _ t k.scheduler (omega arith))
        (first_dispatch-counter codec done now _ t k.scheduler (omega arith)))
settle_claim-Carries codec done now task s (t, some claim_rejected) le room k =
    Carries-more 1 3 task _ s t (omega arith) (record { keeps = k; counted = le })
settle_claim-Carries codec done now task s (t, some e) le room k =
    Carries-more 1 3 task _ s t (omega arith) (record { keeps = k; counted = le })

module _ (codec : Codec) (done done' : Bool) (now : ℕ) (task : Task) (node_id attempt : ℕ)
    (s : Scheduler) (y : IsSynced s) (room : counter task.job_id s + 3 < 18446744073709551616)
    (k : IsTaskSynced task s) where
  Follows-of_claim :
      can_transition_task_state (state_before_claim task) dispatched ≡ true
      → Follows can_transition_task_state (last_task_state task.job_id task.id s) dispatched
  Follows-of_claim h = elim k [
    | inl e ↦ inl e
    | inr e ↦ elim (Bool-cases (same_state task.lifecycle_state empty)) [
      | inl same ↦ inl (e ∙ same_state-eq task.lifecycle_state empty same)
      | inr other ↦ inr (ground arith)
    ]
  ]

  claim_stored-Carries :
      (store : TransitionStore)
      → s.transition_store ≡ some store
      → let r = claim_stored codec done done' now task node_id attempt s in Carries 3 task s r.2 r.1
  unfolding claim_stored next_sequence_id claim_record task_record
  claim_stored-Carries store stored =
      elim (Bool-cases (can_transition_task_state (state_before_claim task) dispatched)) [
        | inr stay ↦
            rw stay (Carries-more 0 3 task task s s (omega arith) (Carries-refl task s y k))
        | inl move ↦ rw move (
            settle_claim-Carries codec done' now task s _
              (ground (
                arith,
                persist_counter done
                    (write_claim (dispatch_claim now task node_id attempt)
                      (claim_record now (next_number (counter task.job_id s)) task
                        (state_before_claim task) node_id attempt)
                      (durable_job_snapshot task.job_id (next_number (counter task.job_id s)) now
                        (record s {
                          job_sequences =
                              insert task.job_id (next_number (counter task.job_id s))
                                s.job_sequences;
                        })))
                    (record s {
                      job_sequences =
                          insert task.job_id (next_number (counter task.job_id s)) s.job_sequences;
                    })
                    store task.job_id stored,
                lookup-insert_self task.job_id (next_number (counter task.job_id s))
                    s.job_sequences,
              ))
              room
              (write_TaskKeeps plain done now task task_dispatched (state_before_claim task)
                dispatched node_id attempt 0 _ s store stored y (omega arith)
                (λ t e.
                  write_claim-Extends _ _ _ store t (counter task.job_id s)
                    (subst (IsNumbered (counter task.job_id s))
                      (sym (stored_log s store task.job_id stored)) (y.numbered task.job_id))
                    (omega arith) e)
                k (Follows-of_claim move)))
      ]
    where
      plain : Codec
      plain = record codec { normalize_error = λ e. e }

  -- Without a store there are no logs.
  claim_unstored-Carries :
      s.transition_store ≡ none → Carries 3 task s (record task { lifecycle_state = dispatched }) s
  claim_unstored-Carries e = record {
    keeps = record {
      scheduler = y;
      same_task = (refl, refl);
      this_task = inl (ap (λ o. last_of empty (task_states task.id (store_log o task.job_id))) e);
      other_tasks = λ other d h. h;
    };
    counted = omega arith;
  }

  pub claim_task_dispatch_transition-Carries :
      task.job_id ≢ 0
      → let r = claim_task_dispatch_transition codec done done' now task node_id attempt s in
        Carries 3 task s r.2 r.1
  unfolding claim_task_dispatch_transition
  claim_task_dispatch_transition-Carries set = elim (Option-cases s.transition_store) [
    | inl e ↦ subst Carried (sym (unstored e)) (claim_unstored-Carries e)
    | inr (store, e) ↦ subst Carried (sym (with_store store e)) (claim_stored-Carries store e)
  ]
    where
      Carried : Option DispatchError × Scheduler × Task → Type 0
      Carried r = Carries 3 task s r.2 r.1

      unstored :
          s.transition_store ≡ none
          → claim_task_dispatch_transition codec done done' now task node_id attempt s
            ≡ (none, s, record task { lifecycle_state = dispatched })
      unstored e = ground arith

      with_store :
          (store : TransitionStore)
          → s.transition_store ≡ some store
          → claim_task_dispatch_transition codec done done' now task node_id attempt s
            ≡ claim_stored codec done done' now task node_id attempt s
      with_store store e = ground arith

  -- claimTaskDispatchTransition of a task of a job keeps the scheduler and its logs together,
  -- whether the claim is granted, refused or fails: if every log replays, is numbered in order up
  -- to the job's counter, and either has no record of its job or ends in the state that the
  -- scheduler holds for the job, and the task agrees with its log, then this holds afterwards,
  -- the task keeps its identifiers, and every other task that agreed with its log still does. The
  -- job's sequence counter must have room for three numbers.
  pub claim_task_dispatch_transition-TaskKeeps :
      task.job_id ≢ 0
      → let r = claim_task_dispatch_transition codec done done' now task node_id attempt s in
        TaskKeeps task s r.2 r.1
  claim_task_dispatch_transition-TaskKeeps set = (claim_task_dispatch_transition-Carries set).keeps
