-- ===== src/Tests/Breakers.antt =====
-- The circuit breaker of pkg/resilience/circuit_breaker.go at concrete values.
use dagens_public.Prelude.{
  ℕ, ◌+◌, ◌≤◌, ◌≡◌, refl, true, false, ◌&&◌, Option, none, some, List, [], ◌∷◌, leb, arith, inl,
  length, if◌then◌else◌, All,
}
use dagens_public.Breaker.{
  state_closed, state_open, state_half_open, CircuitBreakerConfig, CircuitBreaker, circuit_open,
  before_request, before_in, to_half_open,
}
use dagens_public.Breaker.Steps.{
  BreakerOp, start, finish, IsBreaker, breaker_run, breaker_step, breaker_run-IsBreaker,
}
use dagens_public.Breaker.Opening.{finishes, answers, state-breaker_run_failures, breaker_run-open}
use dagens_public.Breaker.HalfOpen.{admitted_half_open, timed_out-admitted_half_open}
use dagens_public.Breaker.Recovering.{Call, execute_run, state-execute_run_successes}

abbrev config : CircuitBreakerConfig
config = record {
  name = 7;
  failure_threshold = 2;
  success_threshold = 2;
  timeout = 10;
  half_open_max_requests = 1;
  is_failure = none;
}

abbrev fresh : CircuitBreaker
fresh = record {
  config = config;
  is_failure = λ e. elim e [ none ↦ false | some x ↦ true ];
  state = state_closed;
  failure_count = 0;
  success_count = 0;
  half_open_count = 0;
  last_failure_time = 0;
  notified = [];
}

abbrev tripped : CircuitBreaker
tripped = record fresh { state = state_open; failure_count = 2; last_failure_time = 5 }

abbrev busy : List BreakerOp
busy =
    start 1
    ∷ start 2
    ∷ finish 3 (some 4)
    ∷ finish 5 (some 4)
    ∷ start 20
    ∷ finish 21 none
    ∷ start 22
    ∷ finish 23 none
    ∷ []

breaker_run-IsBreaker_example : IsBreaker (breaker_run busy fresh)
breaker_run-IsBreaker_example =
    breaker_run-IsBreaker busy fresh (record { counts = (inl refl, refl, refl); edges = tt })

abbrev failures : List (ℕ × Option ℕ)
failures = (3, some 4) ∷ (5, some 4) ∷ []

state-breaker_run_failures_example : (breaker_run (finishes failures) fresh).state ≡ (
    if leb fresh.config.failure_threshold (fresh.failure_count + length failures)
    then state_open
    else state_closed)
state-breaker_run_failures_example =
    state-breaker_run_failures failures fresh refl (omega arith) (refl, (refl, tt))

breaker_run-open_example :
    (breaker_run (start 6 ∷ finish 7 none ∷ start 15 ∷ []) tripped ≡ tripped)
    × All
        (λ answer. answer ≡ some circuit_open)
        (answers (start 6 ∷ finish 7 none ∷ start 15 ∷ []) tripped)
breaker_run-open_example =
    breaker_run-open (start 6 ∷ finish 7 none ∷ start 15 ∷ []) tripped refl
      (omega arith, (tt, (omega arith, tt)))

timed_out-admitted_half_open_example :
    ((before_request 16 tripped).0 ≡ none)
    × ((before_request 16 tripped).1.state ≡ state_half_open)
    × (admitted_half_open (start 17 ∷ start 18 ∷ []) (before_request 16 tripped).1
        ≤ tripped.config.half_open_max_requests)
timed_out-admitted_half_open_example =
    timed_out-admitted_half_open 16 (start 17 ∷ start 18 ∷ []) tripped refl refl

-- With the request that made it half-open, two are let through where the maximum is one.
one_more : admitted_half_open (start 17 ∷ start 18 ∷ []) (before_request 16 tripped).1 ≡ 1
unfolding admitted_half_open before_request before_in to_half_open breaker_step
one_more = refl

abbrev later : List Call
later = (18, 19, none) ∷ (20, 21, none) ∷ []

state-execute_run_successes_example : (execute_run ((16, 17, none) ∷ later) tripped).state ≡ (
    if leb tripped.config.success_threshold (1 + length later)
      && leb tripped.config.success_threshold (tripped.config.half_open_max_requests + 1)
    then state_closed
    else state_half_open)
state-execute_run_successes_example =
    state-execute_run_successes 16 17 none later tripped refl refl (refl, (refl, (refl, tt)))
