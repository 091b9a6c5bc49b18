-- ===== src/Scheduler/Writer/Queue.antt =====
-- recordJobTransition of pkg/scheduler/scheduler.go and the job queue.
use dagens_public.Prelude.{
  ℕ, ◌≡◌, refl, ◌∙◌, inl, inr, Bool, Option, none, some, arith, Bool-cases, Option-cases,
}
use dagens_public.Prelude.Maps.{lookup}
use dagens_public.Prelude.Results.{Result}
use dagens_public.Lifecycle.{State, TransitionType}
use dagens_public.Store.{TransitionStore, StoreError}
use dagens_public.Scheduler.{Scheduler, Job, Codec, next_sequence_id}
use dagens_public.Scheduler.Writer.{
  persist_transition_write, settle_job, record_job, record_job_transition, may_record_job, on_job,
}

settle_job_queue :
    (job : Job) (state : State) (p : Scheduler × Option StoreError)
    → (settle_job job state p).job_queue ≡ p.0.job_queue
unfolding settle_job
settle_job_queue job state (s, some e) = refl
settle_job_queue job state (s, none) = refl

persist_queue :
    (done : Bool) (fn : TransitionStore → Result StoreError TransitionStore) (s : Scheduler)
    → (persist_transition_write done fn s).0.job_queue ≡ s.job_queue
unfolding persist_transition_write
persist_queue done fn s = elim (Option-cases s.transition_store) [
  | inl e ↦ ground arith
  | inr (store, e) ↦ ground arith
]

record_job_queue :
    (codec : Codec) (done : Bool) (now : ℕ) (job : Job) (transition : TransitionType)
    (state : State) (error_summary : ℕ) (s : Scheduler)
    → (record_job codec done now job transition state error_summary s).job_queue ≡ s.job_queue
unfolding record_job next_sequence_id
record_job_queue codec done now job transition state error_summary s =
    elim (Bool-cases (may_record_job job.lifecycle_state state)) [
      | inl e ↦ rw e (settle_job_queue job state _ ∙ persist_queue done _ _)
      | inr e ↦ rw e refl
    ]

on_job_queue :
    (store : Option TransitionStore) (o : Option Job) (f : Job → Scheduler → Scheduler)
    (s : Scheduler)
    → ((job : Job) → (f job s).job_queue ≡ s.job_queue)
    → (on_job store o f s).job_queue ≡ s.job_queue
unfolding on_job
on_job_queue none o f s h = refl
on_job_queue (some store) none f s h = refl
on_job_queue (some store) (some job) f s h = h job

-- Recording a transition does not touch the queue.
pub record_job_transition_queue :
    (codec : Codec) (done : Bool) (now job_id : ℕ) (transition : TransitionType) (state : State)
    (error_summary : ℕ) (s : Scheduler)
    → (record_job_transition codec done now job_id transition state error_summary s).job_queue
      ≡ s.job_queue
unfolding record_job_transition
record_job_transition_queue codec done now job_id transition state error_summary s =
    on_job_queue s.transition_store (lookup job_id s.jobs) _ s
      (λ job. record_job_queue codec done now job transition state error_summary s)
