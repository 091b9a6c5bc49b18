-- ===== src/Lib.antt =====
-- The control plane of dagens: how jobs and tasks move through their lifecycles, how the moves are
-- made durable, how a restart replays them, and how one task is dispatched to a worker node; and the
-- policy engine that its output passes.
--
-- The parts and their files:
--   Prelude          numbers with Boolean tests, lists, maps as association lists, a stable sort,
--                    results and integers.
--   Lifecycle        pkg/scheduler/state_machine.go: states, transition tables, records, Validate.
--   Store            pkg/scheduler/transition_store_memory.go: the in-memory transition store;
--                    Store/Fence the claims among any writes to it.
--   Replay           pkg/scheduler/replay.go: the control-plane view rebuilt from a log.
--   Scheduler        pkg/scheduler/types.go and the state of pkg/scheduler/scheduler.go;
--                    Scheduler/Writer holds recordJobTransition, recordTaskTransition and their
--                    write, Scheduler/Writer/Synced the relation of memory and logs,
--                    Scheduler/Writer/Run a run of writes and its replay.
--   Nodes            capacities, cooldowns and selectNodeByCapacity of pkg/scheduler/scheduler.go;
--                    Nodes/Affinity pkg/scheduler/affinity.go and selectNodeForTask.
--   Dispatch         claimTaskDispatchTransition and executeTask of pkg/scheduler/scheduler.go;
--                    Dispatch/Retry executeTaskWithRetry; Dispatch/Sync a whole dispatch.
--   Queue            SubmitJobWithContext, the job queue and retention of
--                    pkg/scheduler/scheduler.go; Queue/Selectors what reconciliation reads.
--   Policy           pkg/policy/engine.go: the rules that a worker's output passes.
--   Recovery         pkg/scheduler/recovery.go: what a scheduler rebuilds from the store at its start,
--                    on the views of Replay/Restart; Recovery/Restore a whole restart.
--   Reconcile        reconcileDurableQueuedJobsOnce of pkg/scheduler/scheduler.go, on a leader and on a
--                    follower; Reconcile/Loop the loop over the unfinished jobs.
--   Breaker          pkg/resilience/circuit_breaker.go: the circuit breaker and its registry.
--   Window           the sliding window of pkg/resilience/rate_limiter.go.
--   Retrier          the retry loop of pkg/resilience/backoff.go.
--   Config           pkg/scheduler/config.go: the configuration and its Validate.
--   Tests            runs on concrete values.
--
-- A dispatch claims the task in the store (Dispatch, Store), records its moves there (Scheduler,
-- Lifecycle) and picks nodes (Nodes); a restart reads the store back (Replay).
--
-- Strings that only serve as keys are numbers, and 0 is the empty string. A time is a number and 0 is
-- the zero time. A Go map is an association list with one entry for a key. Sequence numbers wrap at
-- 2 ^ 64 in the scheduler's counter; other counters do not wrap. A mutex makes one operation one
-- step, so an interleaving is a sequence of operations. Logging, metrics and trace spans are left
-- out. The retry loop runs on the number of attempts that are left, which is its bound in the source.
--
-- Not modelled: the Postgres store, the poll loops and the resumption of jobs that await a human, the
-- execution of stages, the rules and the audit log of pkg/policy, what counts in floating point (the
-- token and the leaky bucket, the delays between retries), and the rest of the repository.
pub mod Prelude
pub mod Lifecycle
pub mod Store
pub mod Replay
pub mod Scheduler
pub mod Nodes
pub mod Dispatch
pub mod Queue
pub mod Policy
pub mod Breaker
pub mod Config
pub mod Recovery
pub mod Reconcile
pub mod Window
pub mod Retrier
pub mod Tests
