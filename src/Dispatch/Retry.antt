-- ===== src/Dispatch/Retry.antt =====
-- executeTaskWithRetry of pkg/scheduler/scheduler.go.
use dagens_public.Prelude.{ℕ, zero, suc, Option, none, some, List, if◌then◌else◌}
use dagens_public.Nodes.{Nodes, reserve_node_slot, release_node_slot}
use dagens_public.Nodes.Affinity.{AffinityResult, select_node_for_task}
use dagens_public.Dispatch.{
  DispatchError, dispatch_claim_rejected, no_worker_capacity, Environment, Dispatch,
  claim_task_dispatch_transition, execute_task,
}

-- An attempt ends the dispatch with an answer, or leaves an error that another attempt may repair.
pub data Attempt : Type 0 where
  final retryable : Option DispatchError → Dispatch → Attempt

unfoldable pub executed : Environment → Option DispatchError × Dispatch → Attempt
executed env (none, d) = final none d
executed env (some e, d) =
    if env.mentions_capacity e then retryable (some e) d else final (some e) d

unfoldable pub claimed : Environment → ℕ → ℕ → Dispatch → Option DispatchError → Attempt
unfolding executed
claimed env attempt node_id d (some dispatch_claim_rejected) =
    retryable (some dispatch_claim_rejected) d
claimed env attempt node_id d (some e) = final (some e) d
claimed env attempt node_id d none =
    let now = env.now attempt in
    let (e, d') =
      execute_task env attempt node_id
        (record d { nodes = reserve_node_slot node_id now d.nodes }) in
    executed env (e, record d' { nodes = release_node_slot node_id now d'.nodes })

-- One round of the loop, up to its choice of another node.
unfoldable pub dispatch_attempt : Environment → ℕ → ℕ → Dispatch → Attempt
unfolding claimed executed
dispatch_attempt env attempt node_id d =
    let (e, s, task) =
      claim_task_dispatch_transition env.codec (env.done attempt 0) (env.done attempt 1)
        (env.now attempt) (record d.task { attempts = attempt }) node_id attempt d.scheduler in
    claimed env attempt node_id (record d { scheduler = s; task = task }) e

-- The outcome of the last round.
unfoldable pub last_round : Attempt → Option DispatchError × Dispatch
last_round (final e d) = (e, d)
last_round (retryable e d) = (e, d)

abbrev pub rerouted :
    (ℕ → Dispatch → Option DispatchError × Dispatch)
    → Dispatch
    → Option ℕ × AffinityResult × Nodes
    → Option DispatchError × Dispatch
rerouted again d (none, result, nodes) = (some no_worker_capacity, record d { nodes = nodes })
rerouted again d (some next, result, nodes) = again next (record d { nodes = nodes })

-- The outcome of another round, which `again` goes on from at a newly selected node.
unfoldable pub next_round :
    Environment
    → List ℕ
    → ℕ
    → (ℕ → Dispatch → Option DispatchError × Dispatch)
    → Attempt
    → Option DispatchError × Dispatch
next_round env healthy attempt again (final e d) = (e, d)
next_round env healthy attempt again (retryable e d) =
    rerouted again d (select_node_for_task (env.now attempt) healthy d.task.partition_key d.nodes)

-- The rounds from `attempt` on, of which `left` come after the first.
unfoldable pub retry_from :
    Environment → List ℕ → (left attempt node_id : ℕ) → Dispatch → Option DispatchError × Dispatch
retry_from env healthy zero attempt node_id d = last_round (dispatch_attempt env attempt node_id d)
retry_from env healthy (suc left) attempt node_id d =
    next_round env healthy attempt (retry_from env healthy left (suc attempt))
      (dispatch_attempt env attempt node_id d)

-- executeTaskWithRetry: MaxDispatchAttempts rounds, and at least one.
unfoldable pub execute_task_with_retry :
    Environment
    → List ℕ
    → (max_dispatch_attempts node_id : ℕ) → Dispatch
    → Option DispatchError × Dispatch
execute_task_with_retry env healthy zero node_id d = retry_from env healthy 0 1 node_id d
execute_task_with_retry env healthy (suc more) node_id d = retry_from env healthy more 1 node_id d
