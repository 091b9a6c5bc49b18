-- ===== src/Breaker.antt =====
-- The circuit breaker of pkg/resilience/circuit_breaker.go. A call of the wrapped function runs
-- outside the mutex, so the request is two steps, one before and one after it. Times are numbers and
-- `time.Since` is a difference; an error is a number and `none` the nil error. Thresholds and the
-- timeout are not negative: a negative threshold acts as 0.
pub mod Steps
pub mod Opening
pub mod HalfOpen
pub mod Recovering
pub mod Registry
use dagens_public.Prelude.{
  ℕ, ◌+◌, ◌-◌, Bool, true, false, Option, none, some, List, [], ◌∷◌, ◌++◌, ltb, leb, if◌then◌else◌,
}

pub data CircuitState : Type 0 where
  state_closed state_open state_half_open : CircuitState

-- CircuitBreakerConfig without the callback, whose calls are `notified` below.
pub record CircuitBreakerConfig : Type 0 where
  pub name : ℕ
  pub failure_threshold : ℕ
  pub success_threshold : ℕ
  pub timeout : ℕ
  pub half_open_max_requests : ℕ
  pub is_failure : Option (Option ℕ → Bool)

-- `err != nil`.
abbrev pub is_error : Option ℕ → Bool
is_error none = false
is_error (some e) = true

-- 30 seconds, in nanoseconds.
unfoldable pub default_circuit_breaker_config : ℕ → CircuitBreakerConfig
default_circuit_breaker_config name = record {
  name = name;
  failure_threshold = 5;
  success_threshold = 2;
  timeout = 30000000000;
  half_open_max_requests = 3;
  is_failure = some is_error;
}

-- `is_failure` is the one of the configuration, never nil; `notified` has the state changes that
-- recordStateTransition and the callback are told, in order.
pub record CircuitBreaker : Type 0 where
  pub config : CircuitBreakerConfig
  pub is_failure : Option ℕ → Bool
  pub state : CircuitState
  pub failure_count : ℕ
  pub success_count : ℕ
  pub half_open_count : ℕ
  pub last_failure_time : ℕ
  pub notified : List (CircuitState × CircuitState)

-- A nil IsFailure is replaced by the test for an error.
abbrev pub or_is_error : Option (Option ℕ → Bool) → Option ℕ → Bool
or_is_error none = is_error
or_is_error (some f) = f

unfoldable pub new_circuit_breaker : CircuitBreakerConfig → CircuitBreaker
new_circuit_breaker config = record {
  config = config;
  is_failure = or_is_error config.is_failure;
  state = state_closed;
  failure_count = 0;
  success_count = 0;
  half_open_count = 0;
  last_failure_time = 0;
  notified = [];
}

-- `time.Since(lastFailureTime) > Timeout`.
abbrev pub is_timed_out : ℕ → CircuitBreaker → Bool
is_timed_out now cb = ltb cb.config.timeout (now - cb.last_failure_time)

-- State.
unfoldable pub current_state : ℕ → CircuitBreaker → CircuitState
current_state now cb = elim cb.state [
  | state_open ↦ if is_timed_out now cb then state_half_open else state_open
  | state_closed ↦ state_closed
  | state_half_open ↦ state_half_open
]

unfoldable pub to_open : ℕ → CircuitBreaker → CircuitBreaker
to_open now cb = record cb {
  state = state_open;
  last_failure_time = now;
  half_open_count = 0;
  success_count = 0;
  notified = cb.notified ++ (cb.state, state_open) ∷ [];
}

unfoldable pub to_half_open : CircuitBreaker → CircuitBreaker
to_half_open cb = record cb {
  state = state_half_open;
  half_open_count = 0;
  success_count = 0;
  failure_count = 0;
  notified = cb.notified ++ (cb.state, state_half_open) ∷ [];
}

unfoldable pub to_closed : CircuitBreaker → CircuitBreaker
to_closed cb = record cb {
  state = state_closed;
  failure_count = 0;
  success_count = 0;
  half_open_count = 0;
  notified = cb.notified ++ (cb.state, state_closed) ∷ [];
}

-- Reset; it tells nobody.
unfoldable pub reset : CircuitBreaker → CircuitBreaker
reset cb = record cb {
  state = state_closed;
  failure_count = 0;
  success_count = 0;
  half_open_count = 0;
}

pub data BreakerError : Type 0 where
  circuit_open too_many_requests : BreakerError

-- The `switch` of beforeRequest.
unfoldable pub before_in : CircuitState → ℕ → CircuitBreaker → Option BreakerError × CircuitBreaker
before_in state_closed now cb = (none, cb)
before_in state_open now cb =
    if is_timed_out now cb then (none, to_half_open cb) else (some circuit_open, cb)
before_in state_half_open now cb =
    if leb cb.config.half_open_max_requests cb.half_open_count
    then (some too_many_requests, cb)
    else (none, record cb { half_open_count = cb.half_open_count + 1 })

unfoldable pub before_request : ℕ → CircuitBreaker → Option BreakerError × CircuitBreaker
before_request now cb = before_in cb.state now cb

-- A failure in the closed state, counted.
abbrev pub counted_failure : ℕ → CircuitBreaker → CircuitBreaker
counted_failure now cb = record cb { failure_count = cb.failure_count + 1; last_failure_time = now }

-- A success in the half-open state, counted.
abbrev pub counted_success : CircuitBreaker → CircuitBreaker
counted_success cb = record cb { success_count = cb.success_count + 1 }

-- The `switch` of afterRequest, for a result that is a failure or not.
unfoldable pub after_in : CircuitState → Bool → ℕ → CircuitBreaker → CircuitBreaker
after_in state_closed true now cb =
    if leb cb.config.failure_threshold (cb.failure_count + 1)
    then to_open now (counted_failure now cb)
    else counted_failure now cb
after_in state_closed false now cb = record cb { failure_count = 0 }
after_in state_half_open true now cb = to_open now cb
after_in state_half_open false now cb =
    if leb cb.config.success_threshold (cb.success_count + 1)
    then to_closed (counted_success cb)
    else counted_success cb
after_in state_open failure now cb = cb

unfoldable pub after_request : ℕ → Option ℕ → CircuitBreaker → CircuitBreaker
after_request now e cb = after_in cb.state (cb.is_failure e) now cb

pub data ExecuteError : Type 0 where
  rejected : BreakerError → ExecuteError
  call_failed : ℕ → ExecuteError

-- The error of the call itself, passed on.
abbrev pub call_error : Option ℕ → Option ExecuteError
call_error none = none
call_error (some e) = some (call_failed e)

-- Execute after beforeRequest.
unfoldable pub admitted_call :
    (finish : ℕ)
    → Option ℕ
    → Option BreakerError × CircuitBreaker
    → Option ExecuteError × CircuitBreaker
admitted_call finish e (some refusal, cb) = (some (rejected refusal), cb)
admitted_call finish e (none, cb) = (call_error e, after_request finish e cb)

-- Execute when no other request comes between. The wrapped function returns `e`; `start` and `finish`
-- are the times around it.
unfoldable pub execute :
    (start finish : ℕ) → Option ℕ → CircuitBreaker → Option ExecuteError × CircuitBreaker
execute start finish e cb = admitted_call finish e (before_request start cb)

-- ExecuteWithResult after beforeRequest.
unfoldable pub admitted_result {ℓ} :
    {A : Type ℓ}
    → A
    → (finish : ℕ) → A × Option ℕ
    → Option BreakerError × CircuitBreaker
    → (A × Option ExecuteError) × CircuitBreaker
admitted_result zero_value finish call (some refusal, cb) =
    ((zero_value, some (rejected refusal)), cb)
admitted_result zero_value finish call (none, cb) =
    ((call.0, call_error call.1), after_request finish call.1 cb)

-- ExecuteWithResult, for a function that returns `call`.
unfoldable pub execute_with_result {ℓ} :
    {A : Type ℓ}
    → A
    → (start finish : ℕ) → A × Option ℕ
    → CircuitBreaker
    → (A × Option ExecuteError) × CircuitBreaker
execute_with_result zero_value start finish call cb =
    admitted_result zero_value finish call (before_request start cb)
