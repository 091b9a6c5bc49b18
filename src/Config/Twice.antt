-- ===== src/Config/Twice.antt =====
-- Validate of pkg/scheduler/config.go a second time, and the intervals that it adjusts.
use dagens_public.Prelude.{
  ℕ, ◌≤◌, ◌/◌, ◌≡◌, refl, ap, ◌∙◌, inl, inr, true, false, arith, ltb, ◌⊎◌, Bool-cases, sym,
}
use dagens_public.Prelude.Int.{ℤ, pos, negsuc, ltb_ℤ}
use dagens_public.Config.{
  SchedulerConfig, or_default, capped, raised, adjust_bounded_interval, bounded_interval,
  validate_fields, validate_intervals, validate_config,
}
use dagens_public.Config.Range.{AtLeast, AtMost, IsInRange, validate_config-IsInRange}

or_default_id : (default : ℕ) (x : ℤ) → AtLeast 1 x → or_default default x ≡ x
unfolding or_default
or_default_id default (pos n) l = ground arith
or_default_id default (negsuc n) l = absurd l

capped_id :
    (default maximum : ℕ) (x : ℤ) → AtLeast 1 x × AtMost maximum x → capped default maximum x ≡ x
unfolding capped
capped_id default maximum (pos n) l = ground arith
capped_id default maximum (negsuc n) l = absurd l.0

raised_id :
    (default minimum : ℕ) (x : ℤ) → 1 ≤ minimum → AtLeast minimum x → raised default minimum x ≡ x
unfolding raised
raised_id default minimum (pos n) m l = ground arith
raised_id default minimum (negsuc n) m l = absurd l

validate_fields_id : (c : SchedulerConfig) → IsInRange c → validate_fields c ≡ c
unfolding validate_fields
validate_fields_id c r = λ i. record c {
  affinity_ttl = or_default_id 3600000000000 c.affinity_ttl r.affinity_ttl i;
  affinity_cleanup_interval =
      or_default_id 300000000000 c.affinity_cleanup_interval r.affinity_cleanup_interval i;
  job_queue_size = capped_id 100 10000 c.job_queue_size r.job_queue_size i;
  default_worker_max_concurrency =
      or_default_id 1 c.default_worker_max_concurrency r.default_worker_max_concurrency i;
  max_worker_concurrency_cap =
      capped_id 100 10000 c.max_worker_concurrency_cap r.max_worker_concurrency_cap i;
  capacity_ttl = or_default_id 5000000000 c.capacity_ttl r.capacity_ttl i;
  dispatch_reject_cooldown =
      or_default_id 5000000000 c.dispatch_reject_cooldown r.dispatch_reject_cooldown i;
  max_dispatch_attempts = capped_id 3 50 c.max_dispatch_attempts r.max_dispatch_attempts i;
  stage_capacity_deferral_timeout =
      or_default_id 2000000000 c.stage_capacity_deferral_timeout r.stage_capacity_deferral_timeout
        i;
  stage_capacity_deferral_poll_interval =
      or_default_id 100000000 c.stage_capacity_deferral_poll_interval
        r.stage_capacity_deferral_poll_interval i;
  recovery_timeout =
      raised_id 300000000000 1000000000 c.recovery_timeout (omega arith) r.recovery_timeout i;
  recovery_batch_size = capped_id 128 4096 c.recovery_batch_size r.recovery_batch_size i;
  leadership_retry_interval =
      or_default_id 200000000 c.leadership_retry_interval r.leadership_retry_interval i;
  job_retention_ttl = or_default_id 86400000000000 c.job_retention_ttl r.job_retention_ttl i;
  job_retention_cleanup_interval =
      or_default_id 300000000000 c.job_retention_cleanup_interval r.job_retention_cleanup_interval
        i;
  leader_durable_requeue_poll_interval =
      raised_id 500000000 10000000 c.leader_durable_requeue_poll_interval (omega arith)
        r.leader_durable_requeue_poll_interval i;
  follower_durable_requeue_poll_interval =
      raised_id 5000000000 10000000 c.follower_durable_requeue_poll_interval (omega arith)
        r.follower_durable_requeue_poll_interval i;
  reconcile_timeout =
      raised_id 5000000000 100000000 c.reconcile_timeout (omega arith) r.reconcile_timeout i;
  alert_request_timeout =
      or_default_id 3000000000 c.alert_request_timeout r.alert_request_timeout i;
  alert_max_attempts = or_default_id 3 c.alert_max_attempts r.alert_max_attempts i;
  alert_retry_base_interval =
      raised_id 200000000 50000000 c.alert_retry_base_interval (omega arith)
        r.alert_retry_base_interval i;
}

-- Where an interval ends up: below its bound, or at a minimum that the bound does not exceed.
abbrev pub IsBounded : (interval bound : ℤ) → (minimum : ℕ) → Type 0
IsBounded interval bound minimum =
    (ltb_ℤ interval bound ≡ true) ⊎ ((interval ≡ pos minimum) × (ltb_ℤ (pos minimum) bound ≡ false))

bounded_interval-IsBounded :
    (interval bound : ℤ) (minimum : ℕ)
    → AtLeast 1 bound
    → IsBounded (bounded_interval interval bound minimum) bound minimum
unfolding bounded_interval adjust_bounded_interval
bounded_interval-IsBounded interval (negsuc b) minimum l = absurd l
bounded_interval-IsBounded interval (pos b) minimum l = elim (Bool-cases (ltb_ℤ interval (pos b))) [
  | inl e ↦ rw e (inl e)
  | inr e ↦ elim (Bool-cases (ltb (b / 4) minimum)) [
    | inr q ↦ inl (ground arith)
    | inl q ↦ elim (Bool-cases (ltb minimum b)) [
      | inl m ↦ inl (ground arith)
      | inr m ↦ inr (ground arith, ground arith)
    ]
  ]
]

at_minimum :
    (bound : ℤ) (minimum : ℕ)
    → AtLeast 1 bound
    → ltb_ℤ (pos minimum) bound ≡ false
    → bounded_interval (pos minimum) bound minimum ≡ pos minimum
unfolding bounded_interval adjust_bounded_interval
at_minimum (pos b) minimum l h = ground arith
at_minimum (negsuc b) minimum l h = absurd l

bounded_interval_id :
    (interval bound : ℤ) (minimum : ℕ)
    → AtLeast 1 bound
    → IsBounded interval bound minimum
    → bounded_interval interval bound minimum ≡ interval
unfolding bounded_interval
bounded_interval_id interval bound minimum l (inl e) = rw e refl
bounded_interval_id interval bound minimum l (inr (e, m)) =
    ap (λ (x : ℤ). bounded_interval x bound minimum) e ∙ (at_minimum bound minimum l m ∙ sym e)

-- The intervals of a configuration against their bounds.
pub record HasBoundedIntervals (c : SchedulerConfig) : Type 0 where
  pub affinities : IsBounded c.affinity_cleanup_interval c.affinity_ttl 100000000
  pub poll :
      IsBounded c.stage_capacity_deferral_poll_interval c.stage_capacity_deferral_timeout 10000000
  pub retention : IsBounded c.job_retention_cleanup_interval c.job_retention_ttl 1000000000

validate_intervals_id :
    (c : SchedulerConfig) → IsInRange c → HasBoundedIntervals c → validate_intervals c ≡ c
unfolding validate_intervals
validate_intervals_id c r h = λ i. record c {
  affinity_cleanup_interval = bounded_interval_id _ c.affinity_ttl _ r.affinity_ttl h.affinities i;
  stage_capacity_deferral_poll_interval =
      bounded_interval_id _ c.stage_capacity_deferral_timeout _ r.stage_capacity_deferral_timeout
        h.poll i;
  job_retention_cleanup_interval =
      bounded_interval_id _ c.job_retention_ttl _ r.job_retention_ttl h.retention i;
}

-- After Validate the clean-up interval of affinities is below their time to live, the poll of deferred
-- stages below its timeout and the clean-up interval of jobs below their retention, or else the
-- interval is the minimum it is adjusted to (100 ms, 10 ms and 1 s) and its bound is no more than that.
pub validate_config-HasBoundedIntervals :
    (c : SchedulerConfig) → HasBoundedIntervals (validate_config c)
unfolding validate_config validate_intervals
validate_config-HasBoundedIntervals c =
    let r = validate_config-IsInRange c in
    record {
      affinities = bounded_interval-IsBounded _ (validate_fields c).affinity_ttl _ r.affinity_ttl;
      poll =
          bounded_interval-IsBounded _ (validate_fields c).stage_capacity_deferral_timeout _
            r.stage_capacity_deferral_timeout;
      retention =
          bounded_interval-IsBounded _ (validate_fields c).job_retention_ttl _ r.job_retention_ttl;
    }

-- Validate changes nothing in a configuration that it has already put in range.
pub validate_config_twice :
    (c : SchedulerConfig) → validate_config (validate_config c) ≡ validate_config c
unfolding validate_config
validate_config_twice c =
    let r = validate_config-IsInRange c in
    ap validate_intervals (validate_fields_id (validate_config c) r)
    ∙ validate_intervals_id (validate_config c) r (validate_config-HasBoundedIntervals c)
