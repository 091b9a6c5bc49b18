-- ===== src/Dispatch/Sync.antt =====
-- A whole dispatch of pkg/scheduler/scheduler.go, executeTaskWithRetry, keeps the view in memory and
-- the logs together.
use dagens_public.Prelude.{
  ℕ, zero, suc, ◌+◌, ◌≤◌, ◌<◌, ◌≡◌, refl, sym, ◌∙◌, subst, ◌≢◌, inl, inr, Bool, none, some, Option,
  List, arith, Bool-cases,
}
use dagens_public.Prelude.Results.{Result, ok, err}
use dagens_public.Lifecycle.{State, TransitionType}
use dagens_public.Scheduler.{job_blocked, Task, Scheduler, Codec}
use dagens_public.Scheduler.Writer.{record_task_transition}
use dagens_public.Scheduler.Writer.Synced.{counter, IsSynced, IsTaskSynced}
use dagens_public.Scheduler.Writer.TaskWrite.{TaskKeeps}
use dagens_public.Nodes.{Nodes}
use dagens_public.Nodes.Affinity.{AffinityResult}
use dagens_public.Dispatch.{
  DispatchError, dispatch_claim_rejected, policy_violation, Environment, Authority, Dispatch,
  mark_task, settle_execution, authorized, execute_task, claim_task_dispatch_transition,
}
use dagens_public.Dispatch.Retry.{
  Attempt, final, retryable, executed, claimed, dispatch_attempt, last_round, rerouted, next_round,
  retry_from, execute_task_with_retry,
}
use dagens_public.Dispatch.Counting.{
  Carries, Carries-refl, Carries-more, Carries-trans, Carries-same, record_task_transition-Carries,
}
use dagens_public.Dispatch.Claim.{claim_task_dispatch_transition-Carries}

-- A dispatch that is in sync, whose task has a job with room for `n` numbers.
pub record IsReady (n : ℕ) (d : Dispatch) : Type 0 where
  pub synced : IsSynced d.scheduler
  pub task_synced : IsTaskSynced d.task d.scheduler
  pub has_job : d.task.job_id ≢ 0
  pub room : counter d.task.job_id d.scheduler + n < 18446744073709551616

abbrev Goes : ℕ → Dispatch → Dispatch → Type 0
Goes n d d' = Carries n d.task d.scheduler d'.task d'.scheduler

Goes-IsReady : (m n : ℕ) (d d' : Dispatch) → Goes m d d' → IsReady (m + n) d → IsReady n d'
Goes-IsReady m n d d' g r =
    let same = g.keeps.same_task in
    record {
      synced = g.keeps.scheduler;
      task_synced = g.keeps.this_task;
      has_job = λ e. r.has_job (sym same.1 ∙ e);
      room =
          subst (λ (k : ℕ). counter k d'.scheduler + n < 18446744073709551616) (sym same.1)
            (let c = g.counted in let h = r.room in omega arith);
    }

stay :
    (n : ℕ) (d d' : Dispatch)
    → d'.scheduler ≡ d.scheduler
    → d'.task.id ≡ d.task.id
    → d'.task.job_id ≡ d.task.job_id
    → d'.task.lifecycle_state ≡ d.task.lifecycle_state
    → IsReady n d
    → Goes n d d'
stay n d d' e i j l r =
    subst (λ (s : Scheduler). Carries n d.task d.scheduler d'.task s) (sym e)
      (Carries-same n d.task d.task d.task d'.task d.scheduler d.scheduler refl refl i j l (
        Carries-more 0 n d.task d.task d.scheduler d.scheduler (omega arith)
          (Carries-refl d.task d.scheduler r.synced r.task_synced)))

-- A transition of the task, whose other fields may have changed first.
moved :
    (codec : Codec) (done : Bool) (now : ℕ) (task : Task) (transition : TransitionType)
    (new_state : State) (node_id attempt error_summary : ℕ) (d : Dispatch)
    → task.id ≡ d.task.id
    → task.job_id ≡ d.task.job_id
    → task.lifecycle_state ≡ d.task.lifecycle_state
    → IsReady 1 d
    → let r =
        record_task_transition codec done now task transition new_state node_id attempt
          error_summary d.scheduler in
      Carries 1 d.task d.scheduler r.1 r.0
moved codec done now task transition new_state node_id attempt error_summary d i j l r =
    Carries-same 1 task d.task _ _ d.scheduler _ (sym i) (sym j) refl refl refl (
      record_task_transition-Carries codec done now task transition new_state node_id attempt
        error_summary d.scheduler r.synced (rw j r.room) (rw (i, j, l) r.task_synced))

settle_execution-Goes :
    (env : Environment) (attempt node : ℕ) (r : Result DispatchError (Option ℕ)) (d : Dispatch)
    → IsReady 1 d
    → Goes 1 d (settle_execution env attempt node r d).1
unfolding settle_execution mark_task
settle_execution-Goes env attempt node (ok output) d k = moved _ _ _ _ _ _ _ _ _ d refl refl refl k
settle_execution-Goes env attempt node (err (policy_violation e)) d k =
    stay 1 d (record d { task = record d.task { status = job_blocked } }) refl refl refl refl k
settle_execution-Goes env attempt node (err e) d k = moved _ _ _ _ _ _ _ _ _ d refl refl refl k

authorized-Goes :
    (env : Environment) (attempt node : ℕ) (r : Result ℕ Authority) (d : Dispatch)
    → IsReady 1 d
    → Goes 1 d (authorized env attempt node r d).1
unfolding authorized
authorized-Goes env attempt node (err e) d k = stay 1 d d refl refl refl refl k
authorized-Goes env attempt node (ok authority) d k = elim (Bool-cases authority.is_leader) [
  | inl e ↦ rw e (settle_execution-Goes env attempt node _ d k)
  | inr e ↦ rw e (stay 1 d d refl refl refl refl k)
]

IsReady-less : (m n : ℕ) (d : Dispatch) → n ≤ m → IsReady m d → IsReady n d
IsReady-less m n d le r = record {
  synced = r.synced;
  task_synced = r.task_synced;
  has_job = r.has_job;
  room = let h = r.room in omega arith;
}

execute_task-Goes :
    (env : Environment) (attempt node : ℕ) (d : Dispatch)
    → IsReady 2 d
    → Goes 2 d (execute_task env attempt node d).1
unfolding execute_task mark_task
execute_task-Goes env attempt node d k =
    let g = moved _ _ _ _ _ _ _ _ _ d refl refl refl (IsReady-less 2 1 d (omega arith) k) in
    Carries-more (1 + 1) 2 _ _ _ _ (omega arith) (
      Carries-trans 1 1 _ _ _ _ _ _ g (
        authorized-Goes env attempt node (env.dispatch_authority attempt) _
          (Goes-IsReady 1 1 d _ g (IsReady-less 2 (1 + 1) d (omega arith) k))))

abbrev after_attempt : Attempt → Dispatch
after_attempt (final e d) = d
after_attempt (retryable e d) = d

executed-Goes :
    (n : ℕ) (env : Environment) (d : Dispatch) (r : Option DispatchError × Dispatch)
    → Goes n d r.1
    → Goes n d (after_attempt (executed env r))
unfolding executed
executed-Goes n env d (none, d') g = g
executed-Goes n env d (some e, d') g = elim (Bool-cases (env.mentions_capacity e)) [
  | inl h ↦ rw h g
  | inr h ↦ rw h g
]

claimed-Goes :
    (env : Environment) (attempt node : ℕ) (d : Dispatch) (e : Option DispatchError)
    → IsReady 2 d
    → Goes 2 d (after_attempt (claimed env attempt node d e))
unfolding claimed
claimed-Goes env attempt node d (some dispatch_claim_rejected) k = stay 2 d d refl refl refl refl k
claimed-Goes env attempt node d (some e) k = stay 2 d d refl refl refl refl k
claimed-Goes env attempt node d none k = executed-Goes 2 env d _ (
    execute_task-Goes env attempt node _ (record {
      synced = k.synced;
      task_synced = k.task_synced;
      has_job = k.has_job;
      room = k.room;
    }))

dispatch_attempt-Goes :
    (env : Environment) (attempt node : ℕ) (d : Dispatch)
    → IsReady 5 d
    → Goes 5 d (after_attempt (dispatch_attempt env attempt node d))
unfolding dispatch_attempt
dispatch_attempt-Goes env attempt node d k =
    let task : Task = record d.task { attempts = attempt } in
    let r =
      claim_task_dispatch_transition env.codec (env.done attempt 0) (env.done attempt 1)
        (env.now attempt) task node attempt d.scheduler in
    let after : Dispatch = record d { scheduler = r.1; task = r.2 } in
    let g : Goes 3 d after =
      Carries-same 3 task d.task r.2 r.2 d.scheduler r.1 refl refl refl refl refl (
        claim_task_dispatch_transition-Carries env.codec (env.done attempt 0) (env.done attempt 1)
          (env.now attempt) task node attempt d.scheduler k.synced (let h = k.room in omega arith)
          k.task_synced k.has_job) in
    Carries-more (3 + 2) 5 _ _ _ _ (omega arith) (
      Carries-trans 3 2 _ _ _ _ _ _ g (
        claimed-Goes env attempt node after r.0
          (Goes-IsReady 3 2 d after g (IsReady-less 5 (3 + 2) d (omega arith) k))))

-- The numbers that the first round and `left` more may take: five in each.
abbrev pub rounds : ℕ → ℕ
rounds zero = 5
rounds (suc left) = 5 + rounds left

rerouted-Goes :
    (m n : ℕ) (d a : Dispatch) (again : ℕ → Dispatch → Option DispatchError × Dispatch)
    (choice : Option ℕ × AffinityResult × Nodes)
    → Goes m d a
    → IsReady (m + n) d
    → ((node : ℕ) (b : Dispatch) → IsReady n b → Goes n b (again node b).1)
    → Goes (m + n) d (rerouted again a choice).1
rerouted-Goes m n d a again (none, r, nodes) g k h = Carries-more m (m + n) _ _ _ _ (omega arith) g
rerouted-Goes m n d a again (some next, r, nodes) g k h =
    let ready = Goes-IsReady m n d a g k in
    Carries-trans m n _ _ _ _ _ _ g (
      h next (record a { nodes = nodes })
        (record {
          synced = ready.synced;
          task_synced = ready.task_synced;
          has_job = ready.has_job;
          room = ready.room;
        }))

next_round-Goes :
    (n : ℕ) (env : Environment) (healthy : List ℕ) (attempt : ℕ) (d : Dispatch)
    (again : ℕ → Dispatch → Option DispatchError × Dispatch) (a : Attempt)
    → Goes 5 d (after_attempt a)
    → IsReady (5 + n) d
    → ((node : ℕ) (b : Dispatch) → IsReady n b → Goes n b (again node b).1)
    → Goes (5 + n) d (next_round env healthy attempt again a).1
unfolding next_round
next_round-Goes n env healthy attempt d again (final e a) g k h =
    Carries-more 5 (5 + n) _ _ _ _ (omega arith) g
next_round-Goes n env healthy attempt d again (retryable e a) g k h =
    rerouted-Goes 5 n d a again _ g k h

last_round-Goes :
    (d : Dispatch) (a : Attempt) → Goes 5 d (after_attempt a) → Goes 5 d (last_round a).1
unfolding last_round
last_round-Goes d (final e a) g = g
last_round-Goes d (retryable e a) g = g

retry_from-Goes :
    (env : Environment) (healthy : List ℕ) (left attempt node : ℕ) (d : Dispatch)
    → IsReady (rounds left) d
    → Goes (rounds left) d (retry_from env healthy left attempt node d).1
unfolding retry_from
retry_from-Goes env healthy zero attempt node d k =
    last_round-Goes d _ (dispatch_attempt-Goes env attempt node d k)
retry_from-Goes env healthy (suc left) attempt node d k =
    next_round-Goes (rounds left) env healthy attempt d _ _
      (dispatch_attempt-Goes env attempt node d (IsReady-less _ 5 d (omega arith) k)) k
      (retry_from-Goes env healthy left (suc attempt))

-- A whole dispatch of at least one attempt keeps the view in memory and the logs together, with
-- any executor, leadership and contexts, and however it ends. If before it every log replays, is
-- numbered in order up to the job's counter, and either has no record of its job or ends in the
-- state that the scheduler holds for the job, and the task has a job and agrees with its log in
-- the same way, then all this holds after it, the task keeps its identifiers, and every other
-- task that agreed with its log still does. The job's counter needs room for five numbers an
-- attempt.
pub execute_task_with_retry-TaskKeeps :
    (env : Environment) (healthy : List ℕ) (more node : ℕ) (d : Dispatch)
    → IsReady (rounds more) d
    → let d' = (execute_task_with_retry env healthy (suc more) node d).1 in
      TaskKeeps d.task d.scheduler d'.task d'.scheduler
unfolding execute_task_with_retry
execute_task_with_retry-TaskKeeps env healthy more node d k =
    (retry_from-Goes env healthy more 1 node d k).keeps
