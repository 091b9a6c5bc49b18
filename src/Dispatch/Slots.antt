-- ===== src/Dispatch/Slots.antt =====
-- executeTaskWithRetry of pkg/scheduler/scheduler.go gives back every slot that it reserves.
use dagens_public.Prelude.{
  ℕ, zero, suc, ◌≡◌, ◌∙◌, refl, inl, inr, Option, none, some, List, arith, Bool-cases,
}
use dagens_public.Prelude.Results.{Result, ok, err}
use dagens_public.Nodes.{Nodes, reserve_node_slot, release_node_slot, mark_dispatch_cooldown}
use dagens_public.Nodes.Affinity.{AffinityResult}
use dagens_public.Nodes.Slots.{
  reserved, SameSlots, reserve_node_slot-reserved, release_node_slot-reserved,
  select_node_for_task_slots,
}
use dagens_public.Dispatch.{
  DispatchError, dispatch_claim_rejected, policy_violation, Environment, Authority, Dispatch,
  mark_task, settle_execution, execute_task, authorized,
}
use dagens_public.Dispatch.Retry.{
  Attempt, final, retryable, claimed, executed, dispatch_attempt, last_round, rerouted, next_round,
  retry_from, execute_task_with_retry,
}

settle_execution_slots :
    (env : Environment) (attempt node : ℕ) (r : Result DispatchError (Option ℕ)) (d : Dispatch)
    → SameSlots d.nodes (settle_execution env attempt node r d).1.nodes
unfolding settle_execution mark_task mark_dispatch_cooldown
settle_execution_slots env attempt node (ok output) d m = refl
settle_execution_slots env attempt node (err (policy_violation e)) d m = refl
settle_execution_slots env attempt node (err e) d m = ground arith

authorized_slots :
    (env : Environment) (attempt node : ℕ) (r : Result ℕ Authority) (d : Dispatch)
    → SameSlots d.nodes (authorized env attempt node r d).1.nodes
unfolding authorized
authorized_slots env attempt node (err e) d m = refl
authorized_slots env attempt node (ok authority) d m = elim (Bool-cases authority.is_leader) [
  | inl e ↦ rw e (settle_execution_slots env attempt node _ d m)
  | inr e ↦ rw e refl
]

execute_task_slots :
    (env : Environment) (attempt node : ℕ) (d : Dispatch)
    → SameSlots d.nodes (execute_task env attempt node d).1.nodes
unfolding execute_task mark_task
execute_task_slots env attempt node d m =
    authorized_slots env attempt node (env.dispatch_authority attempt) _ m

abbrev after : Attempt → Dispatch
after (final e d) = d
after (retryable e d) = d

executed_slots :
    (env : Environment) (s : Nodes) (r : Option DispatchError × Dispatch)
    → SameSlots s r.1.nodes
    → SameSlots s (after (executed env r)).nodes
unfolding executed
executed_slots env s (none, d) k m = k m
executed_slots env s (some e, d) k m = elim (Bool-cases (env.mentions_capacity e)) [
  | inl h ↦ rw h (k m)
  | inr h ↦ rw h (k m)
]

claimed_slots :
    (env : Environment) (attempt node : ℕ) (d : Dispatch) (e : Option DispatchError)
    → SameSlots d.nodes (after (claimed env attempt node d e)).nodes
unfolding claimed
claimed_slots env attempt node d (some dispatch_claim_rejected) m = refl
claimed_slots env attempt node d (some e) m = refl
claimed_slots env attempt node d none m =
    let now = env.now attempt in
    let start : Dispatch = record d { nodes = reserve_node_slot node now d.nodes } in
    let done : Dispatch = (execute_task env attempt node start).1 in
    executed_slots env d.nodes
      (
        (execute_task env attempt node start).0,
        record done { nodes = release_node_slot node now done.nodes },
      )
      (λ k. ground (
        arith,
        release_node_slot-reserved node now k done.nodes,
        execute_task_slots env attempt node start k,
        reserve_node_slot-reserved node now k d.nodes,
      ))
      m

dispatch_attempt_slots :
    (env : Environment) (attempt node : ℕ) (d : Dispatch)
    → SameSlots d.nodes (after (dispatch_attempt env attempt node d)).nodes
unfolding dispatch_attempt
dispatch_attempt_slots env attempt node d m = claimed_slots env attempt node _ _ m

rerouted_slots :
    (s : Nodes) (d : Dispatch) (again : ℕ → Dispatch → Option DispatchError × Dispatch)
    (choice : Option ℕ × AffinityResult × Nodes)
    → SameSlots s choice.2
    → ((node : ℕ) (d : Dispatch) → SameSlots d.nodes (again node d).1.nodes)
    → SameSlots s (rerouted again d choice).1.nodes
rerouted_slots s d again (none, r, nodes) k h m = k m
rerouted_slots s d again (some next, r, nodes) k h m = h next _ m ∙ k m

next_round_slots :
    (env : Environment) (healthy : List ℕ) (attempt : ℕ) (s : Nodes)
    (again : ℕ → Dispatch → Option DispatchError × Dispatch) (a : Attempt)
    → SameSlots s (after a).nodes
    → ((node : ℕ) (d : Dispatch) → SameSlots d.nodes (again node d).1.nodes)
    → SameSlots s (next_round env healthy attempt again a).1.nodes
unfolding next_round
next_round_slots env healthy attempt s again (final e d) k h m = k m
next_round_slots env healthy attempt s again (retryable e d) k h m =
    rerouted_slots s d again _
      (λ n.
        select_node_for_task_slots (env.now attempt) healthy d.task.partition_key d.nodes n ∙ k n)
      h m

last_round_slots :
    (s : Nodes) (a : Attempt) → SameSlots s (after a).nodes → SameSlots s (last_round a).1.nodes
unfolding last_round
last_round_slots s (final e d) k m = k m
last_round_slots s (retryable e d) k m = k m

retry_from_slots :
    (env : Environment) (healthy : List ℕ) (left attempt node : ℕ) (d : Dispatch)
    → SameSlots d.nodes (retry_from env healthy left attempt node d).1.nodes
unfolding retry_from
retry_from_slots env healthy zero attempt node d =
    last_round_slots d.nodes _ (dispatch_attempt_slots env attempt node d)
retry_from_slots env healthy (suc left) attempt node d =
    next_round_slots env healthy attempt d.nodes _ _ (dispatch_attempt_slots env attempt node d)
      (retry_from_slots env healthy left (suc attempt))

-- However executeTaskWithRetry ends, by success, by an error or without a node, the scheduler holds
-- as many reserved slots on every node as before: each round gives back the slot that it took, and
-- the selection of another node takes none.
pub execute_task_with_retry_slots :
    (env : Environment) (healthy : List ℕ) (max_dispatch_attempts node : ℕ) (d : Dispatch) (m : ℕ)
    → reserved m (execute_task_with_retry env healthy max_dispatch_attempts node d).1.nodes
      ≡ reserved m d.nodes
unfolding execute_task_with_retry
execute_task_with_retry_slots env healthy zero node d = retry_from_slots env healthy 0 1 node d
execute_task_with_retry_slots env healthy (suc more) node d =
    retry_from_slots env healthy more 1 node d
