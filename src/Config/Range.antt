-- ===== src/Config/Range.antt =====
-- What Validate of pkg/scheduler/config.go makes of a configuration.
use dagens_public.Prelude.{ℕ, ◌≤◌, arith}
use dagens_public.Prelude.Int.{ℤ, pos, negsuc}
use dagens_public.Config.{
  SchedulerConfig, or_default, capped, raised, adjust_bounded_interval, bounded_interval,
  validate_fields, validate_intervals, validate_config,
}

abbrev pub AtLeast : ℕ → ℤ → Type 0
AtLeast n (pos m) = n ≤ m
AtLeast n (negsuc m) = ⊥

abbrev pub AtMost : ℕ → ℤ → Type 0
AtMost n (pos m) = m ≤ n
AtMost n (negsuc m) = Unit

-- The ranges of the fields.
pub record IsInRange (c : SchedulerConfig) : Type 0 where
  pub affinity_ttl : AtLeast 1 c.affinity_ttl
  pub affinity_cleanup_interval : AtLeast 1 c.affinity_cleanup_interval
  pub job_queue_size : AtLeast 1 c.job_queue_size × AtMost 10000 c.job_queue_size
  pub default_worker_max_concurrency : AtLeast 1 c.default_worker_max_concurrency
  pub max_worker_concurrency_cap :
      AtLeast 1 c.max_worker_concurrency_cap × AtMost 10000 c.max_worker_concurrency_cap
  pub capacity_ttl : AtLeast 1 c.capacity_ttl
  pub dispatch_reject_cooldown : AtLeast 1 c.dispatch_reject_cooldown
  pub max_dispatch_attempts : AtLeast 1 c.max_dispatch_attempts × AtMost 50 c.max_dispatch_attempts
  pub stage_capacity_deferral_timeout : AtLeast 1 c.stage_capacity_deferral_timeout
  pub stage_capacity_deferral_poll_interval : AtLeast 1 c.stage_capacity_deferral_poll_interval
  pub recovery_timeout : AtLeast 1000000000 c.recovery_timeout
  pub recovery_batch_size : AtLeast 1 c.recovery_batch_size × AtMost 4096 c.recovery_batch_size
  pub leadership_retry_interval : AtLeast 1 c.leadership_retry_interval
  pub job_retention_ttl : AtLeast 1 c.job_retention_ttl
  pub job_retention_cleanup_interval : AtLeast 1 c.job_retention_cleanup_interval
  pub leader_durable_requeue_poll_interval : AtLeast 10000000 c.leader_durable_requeue_poll_interval
  pub follower_durable_requeue_poll_interval :
      AtLeast 10000000 c.follower_durable_requeue_poll_interval
  pub reconcile_timeout : AtLeast 100000000 c.reconcile_timeout
  pub alert_request_timeout : AtLeast 1 c.alert_request_timeout
  pub alert_max_attempts : AtLeast 1 c.alert_max_attempts
  pub alert_retry_base_interval : AtLeast 50000000 c.alert_retry_base_interval

or_default-AtLeast : (default : ℕ) (x : ℤ) → 1 ≤ default → AtLeast 1 (or_default default x)
unfolding or_default
or_default-AtLeast default (pos n) l = ground arith
or_default-AtLeast default (negsuc n) l = ground arith

capped-Range :
    (default maximum : ℕ) (x : ℤ)
    → 1 ≤ default
    → default ≤ maximum
    → AtLeast 1 (capped default maximum x) × AtMost maximum (capped default maximum x)
unfolding capped
capped-Range default maximum (pos n) l m = ground arith
capped-Range default maximum (negsuc n) l m = ground arith

raised-AtLeast :
    (default minimum : ℕ) (x : ℤ) → minimum ≤ default → AtLeast minimum (raised default minimum x)
unfolding raised
raised-AtLeast default minimum (pos n) l = ground arith
raised-AtLeast default minimum (negsuc n) l = ground arith

bounded_interval-AtLeast :
    (interval bound : ℤ) (minimum : ℕ)
    → AtLeast 1 interval
    → 1 ≤ minimum
    → AtLeast 1 (bounded_interval interval bound minimum)
unfolding bounded_interval adjust_bounded_interval
bounded_interval-AtLeast (pos i) (pos b) minimum l m = ground arith
bounded_interval-AtLeast (pos i) (negsuc b) minimum l m = ground arith
bounded_interval-AtLeast (negsuc i) b minimum l m = absurd l

-- Validate puts every numeric field in its range: each is at least 1; the queue size and the
-- concurrency cap are at most 10000, the dispatch attempts at most 50 and the recovery batch at most
-- 4096; the recovery timeout is at least a second, the requeue polls 10 ms, the reconcile timeout 100
-- ms and the alert retry base 50 ms.
pub validate_config-IsInRange : (c : SchedulerConfig) → IsInRange (validate_config c)
unfolding validate_config validate_fields validate_intervals
validate_config-IsInRange c = record {
  affinity_ttl = or_default-AtLeast 3600000000000 c.affinity_ttl (omega arith);
  affinity_cleanup_interval =
      bounded_interval-AtLeast _ _ 100000000
        (or_default-AtLeast 300000000000 c.affinity_cleanup_interval (omega arith)) (omega arith);
  job_queue_size = capped-Range 100 10000 c.job_queue_size (omega arith) (omega arith);
  default_worker_max_concurrency =
      or_default-AtLeast 1 c.default_worker_max_concurrency (omega arith);
  max_worker_concurrency_cap =
      capped-Range 100 10000 c.max_worker_concurrency_cap (omega arith) (omega arith);
  capacity_ttl = or_default-AtLeast 5000000000 c.capacity_ttl (omega arith);
  dispatch_reject_cooldown = or_default-AtLeast 5000000000 c.dispatch_reject_cooldown (omega arith);
  max_dispatch_attempts = capped-Range 3 50 c.max_dispatch_attempts (omega arith) (omega arith);
  stage_capacity_deferral_timeout =
      or_default-AtLeast 2000000000 c.stage_capacity_deferral_timeout (omega arith);
  stage_capacity_deferral_poll_interval =
      bounded_interval-AtLeast _ _ 10000000
        (or_default-AtLeast 100000000 c.stage_capacity_deferral_poll_interval (omega arith))
        (omega arith);
  recovery_timeout = raised-AtLeast 300000000000 1000000000 c.recovery_timeout (omega arith);
  recovery_batch_size = capped-Range 128 4096 c.recovery_batch_size (omega arith) (omega arith);
  leadership_retry_interval =
      or_default-AtLeast 200000000 c.leadership_retry_interval (omega arith);
  job_retention_ttl = or_default-AtLeast 86400000000000 c.job_retention_ttl (omega arith);
  job_retention_cleanup_interval =
      bounded_interval-AtLeast _ _ 1000000000
        (or_default-AtLeast 300000000000 c.job_retention_cleanup_interval (omega arith))
        (omega arith);
  leader_durable_requeue_poll_interval =
      raised-AtLeast 500000000 10000000 c.leader_durable_requeue_poll_interval (omega arith);
  follower_durable_requeue_poll_interval =
      raised-AtLeast 5000000000 10000000 c.follower_durable_requeue_poll_interval (omega arith);
  reconcile_timeout = raised-AtLeast 5000000000 100000000 c.reconcile_timeout (omega arith);
  alert_request_timeout = or_default-AtLeast 3000000000 c.alert_request_timeout (omega arith);
  alert_max_attempts = or_default-AtLeast 3 c.alert_max_attempts (omega arith);
  alert_retry_base_interval =
      raised-AtLeast 200000000 50000000 c.alert_retry_base_interval (omega arith);
}
