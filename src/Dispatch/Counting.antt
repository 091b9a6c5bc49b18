-- ===== src/Dispatch/Counting.antt =====
-- How many sequence numbers one call of pkg/scheduler/scheduler.go takes, and how the calls compose.
use dagens_public.Prelude.{
  ℕ, ◌+◌, ◌≤◌, ◌<◌, ◌≡◌, sym, ◌∙◌, subst, inl, inr, Bool, some, arith, Option-cases, Bool-cases,
}
use dagens_public.Prelude.Maps.{insert, lookup-insert_self}
use dagens_public.Lifecycle.{State, TransitionType}
use dagens_public.Store.{TransitionStore}
use dagens_public.Scheduler.{
  Task, Scheduler, Codec, next_number, next_sequence_id, durable_job_snapshot,
}
use dagens_public.Scheduler.Writer.{
  record_task_transition, record_task, may_record_task, settle_task, write_task, task_record,
  task_row,
}
use dagens_public.Scheduler.Writer.Synced.{counter, IsSynced, IsTaskSynced, persist_cases}
use dagens_public.Scheduler.Writer.TaskWrite.{
  TaskKeeps, TaskKeeps-refl, record_task_transition-TaskKeeps,
}

-- From one scheduler and task to another everything stays synced, and at most `n` numbers of the
-- task's job are taken.
pub record Carries (n : ℕ) (task : Task) (s : Scheduler) (task' : Task) (t : Scheduler)
    : Type 0 where
  pub keeps : TaskKeeps task s task' t
  pub counted : counter task.job_id t ≤ counter task.job_id s + n

pub Carries-refl :
    (task : Task) (s : Scheduler) → IsSynced s → IsTaskSynced task s → Carries 0 task s task s
Carries-refl task s y k = record { keeps = TaskKeeps-refl task s y k; counted = omega arith }

pub Carries-more :
    (m n : ℕ) (task task' : Task) (s t : Scheduler)
    → m ≤ n
    → Carries m task s task' t
    → Carries n task s task' t
Carries-more m n task task' s t le c = record {
  keeps = c.keeps;
  counted = let h = c.counted in omega arith;
}

pub Carries-trans :
    (m n : ℕ) (a b c : Task) (s t u : Scheduler)
    → Carries m a s b t
    → Carries n b t c u
    → Carries (m + n) a s c u
Carries-trans m n a b c s t u f g =
    let (i, j) = f.keeps.same_task in
    let h = f.counted in
    let h' = g.counted in
    record {
      keeps = record {
        scheduler = g.keeps.scheduler;
        same_task = (g.keeps.same_task.0 ∙ i, g.keeps.same_task.1 ∙ j);
        this_task = g.keeps.this_task;
        other_tasks = λ other d k.
            g.keeps.other_tasks other
              (elim d [ inl x ↦ inl (λ e. x (e ∙ j)) | inr x ↦ inr (λ e. x (e ∙ i)) ])
              (f.keeps.other_tasks other d k);
      };
      counted =
          subst (λ (k : ℕ). counter k u ≤ counter a.job_id s + (m + n)) j
            (ground (arith, subst (λ (k : ℕ). counter k t ≤ counter k s + m) (sym j) h));
    }

-- Fields of the task other than its identifiers and its state do not matter.
pub Carries-same :
    (n : ℕ) (a a' b b' : Task) (s t : Scheduler)
    → a'.id ≡ a.id
    → a'.job_id ≡ a.job_id
    → b'.id ≡ b.id
    → b'.job_id ≡ b.job_id
    → b'.lifecycle_state ≡ b.lifecycle_state
    → Carries n a s b t
    → Carries n a' s b' t
Carries-same n a a' b b' s t ai aj bi bj bl c = record {
  keeps = record {
    scheduler = c.keeps.scheduler;
    same_task = (bi ∙ c.keeps.same_task.0 ∙ sym ai, bj ∙ c.keeps.same_task.1 ∙ sym aj);
    this_task = rw (bi, bj, bl) c.keeps.this_task;
    other_tasks = λ other d k.
        c.keeps.other_tasks other
          (elim d [ inl x ↦ inl (λ e. x (e ∙ sym aj)) | inr x ↦ inr (λ e. x (e ∙ sym ai)) ]) k;
  };
  counted = rw aj c.counted;
}

record_task-counter :
    (codec : Codec) (done : Bool) (now : ℕ) (task : Task) (transition : TransitionType)
    (new_state : State) (node_id attempt error_summary : ℕ) (s : Scheduler)
    (store : TransitionStore)
    → s.transition_store ≡ some store
    → counter task.job_id s + 1 < 18446744073709551616
    → counter task.job_id
        (record_task codec done now task transition new_state node_id attempt error_summary s).0
      ≤ counter task.job_id s + 1
unfolding record_task settle_task next_sequence_id
record_task-counter codec done now task transition new_state node_id attempt error_summary s store
      stored room =
    elim (Bool-cases (may_record_task task.lifecycle_state new_state)) [
      | inr e ↦ rw e (omega arith)
      | inl e ↦
          elim (persist_cases done
            (write_task
              (task_record codec now (next_number (counter task.job_id s)) task transition
                task.lifecycle_state new_state node_id attempt error_summary)
              (task_row codec now task new_state node_id attempt)
              (durable_job_snapshot task.job_id (next_number (counter task.job_id s)) now
                (record s {
                  job_sequences =
                      insert task.job_id (next_number (counter task.job_id s)) s.job_sequences;
                })))
            (record s {
              job_sequences =
                  insert task.job_id (next_number (counter task.job_id s)) s.job_sequences;
            })
            store stored) [
              | inl (t, w, p) ↦
                  rw (e, p)
                    (ground (
                      arith,
                      lookup-insert_self task.job_id (next_number (counter task.job_id s))
                          s.job_sequences,
                    ))
              | inr (x, p) ↦
                  rw (e, p)
                    (ground (
                      arith,
                      lookup-insert_self task.job_id (next_number (counter task.job_id s))
                          s.job_sequences,
                    ))
            ]
    ]

pub record_task_transition-Carries :
    (codec : Codec) (done : Bool) (now : ℕ) (task : Task) (transition : TransitionType)
    (new_state : State) (node_id attempt error_summary : ℕ) (s : Scheduler)
    → IsSynced s
    → counter task.job_id s + 1 < 18446744073709551616
    → IsTaskSynced task s
    → let r =
        record_task_transition codec done now task transition new_state node_id attempt
          error_summary s in
      Carries 1 task s r.1 r.0
unfolding record_task_transition
record_task_transition-Carries codec done now task transition new_state node_id attempt
      error_summary s y room k =
    record {
      keeps =
          record_task_transition-TaskKeeps codec done now task transition new_state node_id attempt
            error_summary s y room k;
      counted = counted;
    }
  where
    counted :
        counter task.job_id
          (record_task_transition codec done now task transition new_state node_id attempt
            error_summary s).0
        ≤ counter task.job_id s + 1
    counted = elim (Option-cases s.transition_store) [
      | inl e ↦ ground arith
      | inr (store, e) ↦ ground (
        arith,
        record_task-counter codec done now task transition new_state node_id attempt error_summary s
            store e room,
      )
    ]
