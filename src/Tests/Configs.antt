-- ===== src/Tests/Configs.antt =====
-- The configuration of pkg/scheduler/config.go at concrete values.
use dagens_public.Prelude.{◌≡◌, refl}
use dagens_public.Prelude.Int.{pos, negsuc}
use dagens_public.Config.{
  SchedulerConfig, default_scheduler_config, or_default, capped, raised, bounded_interval,
  adjust_bounded_interval, validate_config, validate_fields, validate_intervals,
}
use dagens_public.Config.Range.{IsInRange, validate_config-IsInRange}
use dagens_public.Config.Twice.{
  HasBoundedIntervals, validate_config-HasBoundedIntervals, validate_config_twice,
}

-- Out of range in several ways.
abbrev odd_config : SchedulerConfig
odd_config = record default_scheduler_config {
  affinity_ttl = pos 1;
  job_queue_size = pos 20000;
  max_dispatch_attempts = negsuc 4;
  recovery_timeout = pos 5;
  job_retention_ttl = pos 8000000000;
}

-- The defaults are in range.
default_validated : validate_config default_scheduler_config ≡ default_scheduler_config
unfolding validate_config validate_fields validate_intervals default_scheduler_config or_default
    capped raised bounded_interval
default_validated = refl

-- The affinities are cleaned up every 100 ms where they live for 1 ns.
odd_cleanup : (validate_config odd_config).affinity_cleanup_interval ≡ pos 100000000
unfolding validate_config validate_fields validate_intervals default_scheduler_config or_default
    capped raised bounded_interval adjust_bounded_interval
odd_cleanup = refl

odd_retention : (validate_config odd_config).job_retention_cleanup_interval ≡ pos 2000000000
unfolding validate_config validate_fields validate_intervals default_scheduler_config or_default
    capped raised bounded_interval adjust_bounded_interval
odd_retention = refl

validate_config-IsInRange_example : IsInRange (validate_config odd_config)
validate_config-IsInRange_example = validate_config-IsInRange odd_config

validate_config-HasBoundedIntervals_example : HasBoundedIntervals (validate_config odd_config)
validate_config-HasBoundedIntervals_example = validate_config-HasBoundedIntervals odd_config

validate_config_twice_example :
    validate_config (validate_config odd_config) ≡ validate_config odd_config
validate_config_twice_example = validate_config_twice odd_config
