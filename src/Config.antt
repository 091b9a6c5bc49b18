-- ===== src/Config.antt =====
-- pkg/scheduler/config.go: the configuration of a scheduler and Validate, which puts it in range.
-- A duration is a number of nanoseconds. The constants of the file are written out.
pub mod Range
pub mod Twice
use dagens_public.Prelude.{ℕ, ◌+◌, ◌/◌, Bool, true, false, not, if◌then◌else◌}
use dagens_public.Prelude.Int.{ℤ, pos, negsuc, ltb_ℤ, sub_ℕ}

pub record SchedulerConfig : Type 0 where
  pub affinity_ttl : ℤ
  pub affinity_cleanup_interval : ℤ
  pub enable_stickiness : Bool
  pub job_queue_size : ℤ
  pub default_worker_max_concurrency : ℤ
  pub max_worker_concurrency_cap : ℤ
  pub capacity_ttl : ℤ
  pub dispatch_reject_cooldown : ℤ
  pub max_dispatch_attempts : ℤ
  pub enable_stage_capacity_deferral : Bool
  pub stage_capacity_deferral_timeout : ℤ
  pub stage_capacity_deferral_poll_interval : ℤ
  pub recovery_timeout : ℤ
  pub recovery_batch_size : ℤ
  pub enable_resume_recovered_queued_jobs : Bool
  pub leadership_retry_interval : ℤ
  pub job_retention_ttl : ℤ
  pub job_retention_cleanup_interval : ℤ
  pub enable_job_retention_cleanup : Bool
  pub enable_leader_durable_requeue_loop : Bool
  pub leader_durable_requeue_poll_interval : ℤ
  pub enable_follower_durable_requeue_loop : Bool
  pub follower_durable_requeue_poll_interval : ℤ
  pub reconcile_timeout : ℤ
  pub alert_webhook_url : ℕ
  pub alert_request_timeout : ℤ
  pub alert_max_attempts : ℤ
  pub alert_retry_base_interval : ℤ

unfoldable pub default_scheduler_config : SchedulerConfig
default_scheduler_config = record {
  affinity_ttl = pos 3600000000000;
  affinity_cleanup_interval = pos 300000000000;
  enable_stickiness = true;
  job_queue_size = pos 100;
  default_worker_max_concurrency = pos 1;
  max_worker_concurrency_cap = pos 100;
  capacity_ttl = pos 5000000000;
  dispatch_reject_cooldown = pos 5000000000;
  max_dispatch_attempts = pos 3;
  enable_stage_capacity_deferral = false;
  stage_capacity_deferral_timeout = pos 2000000000;
  stage_capacity_deferral_poll_interval = pos 100000000;
  recovery_timeout = pos 300000000000;
  recovery_batch_size = pos 128;
  enable_resume_recovered_queued_jobs = false;
  leadership_retry_interval = pos 200000000;
  job_retention_ttl = pos 86400000000000;
  job_retention_cleanup_interval = pos 300000000000;
  enable_job_retention_cleanup = true;
  enable_leader_durable_requeue_loop = true;
  leader_durable_requeue_poll_interval = pos 500000000;
  enable_follower_durable_requeue_loop = true;
  follower_durable_requeue_poll_interval = pos 5000000000;
  reconcile_timeout = pos 5000000000;
  alert_webhook_url = 0;
  alert_request_timeout = pos 3000000000;
  alert_max_attempts = pos 3;
  alert_retry_base_interval = pos 200000000;
}

-- A field that is not positive is set to its default.
unfoldable pub or_default : ℕ → ℤ → ℤ
or_default default x = if ltb_ℤ (pos 0) x then x else pos default

-- A field that is not positive is set to its default, and one above the maximum to the maximum.
unfoldable pub capped : ℕ → ℕ → ℤ → ℤ
capped default maximum x =
    if not (ltb_ℤ (pos 0) x) then pos default else if ltb_ℤ (pos maximum) x then pos maximum else x

-- A field that is not positive is set to its default, and one below the minimum to the minimum.
unfoldable pub raised : ℕ → ℕ → ℤ → ℤ
raised default minimum x =
    if not (ltb_ℤ (pos 0) x) then pos default else if ltb_ℤ x (pos minimum) then pos minimum else x

-- `bound / 4`; Go rounds towards zero.
abbrev pub quarter : ℤ → ℤ
quarter (pos n) = pos (n / 4)
quarter (negsuc n) = sub_ℕ 0 ((n + 1) / 4)

unfoldable pub adjust_bounded_interval : (interval bound : ℤ) → (minimum : ℕ) → ℤ
adjust_bounded_interval interval bound minimum =
    if ltb_ℤ interval bound
    then interval
    else if ltb_ℤ (quarter bound) (pos minimum)
    then pos minimum
    else quarter bound

-- The fields one by one.
unfoldable pub validate_fields : SchedulerConfig → SchedulerConfig
validate_fields c = record c {
  affinity_ttl = or_default 3600000000000 c.affinity_ttl;
  affinity_cleanup_interval = or_default 300000000000 c.affinity_cleanup_interval;
  job_queue_size = capped 100 10000 c.job_queue_size;
  default_worker_max_concurrency = or_default 1 c.default_worker_max_concurrency;
  max_worker_concurrency_cap = capped 100 10000 c.max_worker_concurrency_cap;
  capacity_ttl = or_default 5000000000 c.capacity_ttl;
  dispatch_reject_cooldown = or_default 5000000000 c.dispatch_reject_cooldown;
  max_dispatch_attempts = capped 3 50 c.max_dispatch_attempts;
  stage_capacity_deferral_timeout = or_default 2000000000 c.stage_capacity_deferral_timeout;
  stage_capacity_deferral_poll_interval =
      or_default 100000000 c.stage_capacity_deferral_poll_interval;
  recovery_timeout = raised 300000000000 1000000000 c.recovery_timeout;
  recovery_batch_size = capped 128 4096 c.recovery_batch_size;
  leadership_retry_interval = or_default 200000000 c.leadership_retry_interval;
  job_retention_ttl = or_default 86400000000000 c.job_retention_ttl;
  job_retention_cleanup_interval = or_default 300000000000 c.job_retention_cleanup_interval;
  leader_durable_requeue_poll_interval =
      raised 500000000 10000000 c.leader_durable_requeue_poll_interval;
  follower_durable_requeue_poll_interval =
      raised 5000000000 10000000 c.follower_durable_requeue_poll_interval;
  reconcile_timeout = raised 5000000000 100000000 c.reconcile_timeout;
  alert_request_timeout = or_default 3000000000 c.alert_request_timeout;
  alert_max_attempts = or_default 3 c.alert_max_attempts;
  alert_retry_base_interval = raised 200000000 50000000 c.alert_retry_base_interval;
}

-- An interval that is not below its bound is adjusted.
unfoldable pub bounded_interval : (interval bound : ℤ) → (minimum : ℕ) → ℤ
bounded_interval interval bound minimum =
    if not (ltb_ℤ interval bound) then adjust_bounded_interval interval bound minimum else interval

-- The intervals against their bounds.
unfoldable pub validate_intervals : SchedulerConfig → SchedulerConfig
validate_intervals c = record c {
  affinity_cleanup_interval = bounded_interval c.affinity_cleanup_interval c.affinity_ttl 100000000;
  stage_capacity_deferral_poll_interval =
      bounded_interval c.stage_capacity_deferral_poll_interval c.stage_capacity_deferral_timeout
        10000000;
  job_retention_cleanup_interval =
      bounded_interval c.job_retention_cleanup_interval c.job_retention_ttl 1000000000;
}

-- Validate, and Validated, which gives the value back.
unfoldable pub validate_config : SchedulerConfig → SchedulerConfig
validate_config c = validate_intervals (validate_fields c)
