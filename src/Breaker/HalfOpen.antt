-- ===== src/Breaker/HalfOpen.antt =====
-- The half-open state of the circuit breaker of pkg/resilience/circuit_breaker.go.
use dagens_public.Prelude.{
  ℕ, ◌+◌, ◌≤◌, ◌≡◌, refl, sym, subst, inl, inr, Bool, true, false, Option, none, some, List, [],
  ◌∷◌, leb, arith, Bool-cases, if◌then◌else◌, ap,
}
use dagens_public.Breaker.{
  CircuitState, state_open, state_half_open, CircuitBreaker, before_in, BreakerError,
  before_request, after_in, after_request, to_open, is_timed_out, to_half_open, to_closed, reset,
  CircuitBreakerConfig,
}
use dagens_public.Breaker.Steps.{BreakerOp, start, finish, manual_reset, breaker_step}

-- Whether a start was let through.
abbrev pub is_admitted : Option BreakerError → ℕ
is_admitted none = 1
is_admitted (some e) = 0

-- The requests that a step lets through.
abbrev pub op_admits : BreakerOp → CircuitBreaker → ℕ
op_admits (start now) cb = is_admitted (before_request now cb).0
op_admits (finish now e) cb = 0
op_admits manual_reset cb = 0

abbrev pub is_half_open : CircuitState → Bool
is_half_open state_half_open = true
is_half_open _ = false

-- The requests let through while the breaker is half-open, until it first leaves that state.
unfoldable pub admitted_half_open : List BreakerOp → CircuitBreaker → ℕ
admitted_half_open [] cb = 0
admitted_half_open (op ∷ ops) cb =
    let rest = admitted_half_open ops (breaker_step op cb) in
    if is_half_open cb.state then op_admits op cb + rest else 0

-- What a step does to the count of a half-open breaker.
record Counted (op : BreakerOp) (cb cb' : CircuitBreaker) : Type 0 where
  within : cb.half_open_count + op_admits op cb ≤ cb.config.half_open_max_requests
  config : cb'.config ≡ cb.config
  stays : is_half_open cb'.state ≡ true → cb'.half_open_count ≡ cb.half_open_count + op_admits op cb

half_open_start :
    (now : ℕ) (cb : CircuitBreaker)
    → cb.state ≡ state_half_open
    → cb.half_open_count ≤ cb.config.half_open_max_requests
    → Counted (start now) cb (before_request now cb).1
unfolding before_request before_in
half_open_start now cb e l =
    elim (Bool-cases (leb cb.config.half_open_max_requests cb.half_open_count)) [
      | inl t ↦
          simp (e, t)
            (record {
              within = simp (e, t) (omega arith);
              config = refl;
              stays = λ h. simp (e, t) (omega arith);
            })
      | inr t ↦
          simp (e, t)
            (record {
              within = simp (e, t) (ground arith);
              config = refl;
              stays = λ h. simp (e, t) refl;
            })
    ]

half_open_finish :
    (now : ℕ) (err : Option ℕ) (cb : CircuitBreaker)
    → cb.state ≡ state_half_open
    → cb.half_open_count ≤ cb.config.half_open_max_requests
    → Counted (finish now err) cb (after_request now err cb)
unfolding after_request after_in to_open to_closed
half_open_finish now err cb e l = elim (Bool-cases (cb.is_failure err)) [
  | inl f ↦
      simp (e, f)
        (record { within = omega arith; config = refl; stays = λ h. absurd (ground arith) })
  | inr f ↦ elim (Bool-cases (leb cb.config.success_threshold (cb.success_count + 1))) [
    | inl t ↦
        simp (e, f, t)
          (record { within = omega arith; config = refl; stays = λ h. absurd (ground arith) })
    | inr t ↦
        simp (e, f, t) (record { within = omega arith; config = refl; stays = λ h. omega arith })
  ]
]

half_open_step :
    (op : BreakerOp) (cb : CircuitBreaker)
    → cb.state ≡ state_half_open
    → cb.half_open_count ≤ cb.config.half_open_max_requests
    → Counted op cb (breaker_step op cb)
unfolding breaker_step reset
half_open_step (start now) cb e l = half_open_start now cb e l
half_open_step (finish now err) cb e l = half_open_finish now err cb e l
half_open_step manual_reset cb e l = record {
  within = omega arith;
  config = refl;
  stays = λ h. absurd (ground arith);
}

half_open_state : (cb : CircuitBreaker) → is_half_open cb.state ≡ true → cb.state ≡ state_half_open
half_open_state cb h = ground arith

admitted_elsewhere :
    (ops : List BreakerOp) (cb : CircuitBreaker)
    → is_half_open cb.state ≡ false
    → admitted_half_open ops cb ≡ 0
unfolding admitted_half_open
admitted_elsewhere [] cb h = refl
admitted_elsewhere (op ∷ ops) cb h = rw h refl

admitted_half_open_from :
    (ops : List BreakerOp) (cb : CircuitBreaker)
    → cb.half_open_count ≤ cb.config.half_open_max_requests
    → cb.half_open_count + admitted_half_open ops cb ≤ cb.config.half_open_max_requests
unfolding admitted_half_open
admitted_half_open_from [] cb l = omega arith
admitted_half_open_from (op ∷ ops) cb l = elim (Bool-cases (is_half_open cb.state)) [
  | inr n ↦ rw n (omega arith)
  | inl h ↦
      let cb' = breaker_step op cb in
      let step = half_open_step op cb (half_open_state cb h) l in
      rw h (elim (Bool-cases (is_half_open cb'.state)) [
        | inr n ↦ omega (arith, step.within, admitted_elsewhere ops cb' n)
        | inl h' ↦
            let max_same =
              ap (λ (c : CircuitBreakerConfig). c.half_open_max_requests) step.config in
            omega (
              arith,
              step.stays h',
              max_same,
              admitted_half_open_from ops cb' (omega (arith, step.within, step.stays h', max_same)),
            )
      ])
]

probe :
    (now : ℕ) (cb : CircuitBreaker)
    → cb.state ≡ state_open
    → is_timed_out now cb ≡ true
    → before_request now cb ≡ (none, to_half_open cb)
unfolding before_request before_in
probe now cb o t = simp (o, t) refl

-- An open breaker that has timed out lets the next request through and is then half-open. Whatever
-- starts, ends and resets follow, until it leaves that state it lets at most the maximum of further
-- requests through.
pub timed_out-admitted_half_open :
    (now : ℕ) (ops : List BreakerOp) (cb : CircuitBreaker)
    → cb.state ≡ state_open
    → is_timed_out now cb ≡ true
    → ((before_request now cb).0 ≡ none)
      × ((before_request now cb).1.state ≡ state_half_open)
      × (admitted_half_open ops (before_request now cb).1 ≤ cb.config.half_open_max_requests)
unfolding to_half_open
timed_out-admitted_half_open now ops cb o t =
    subst
      (λ (x : Option BreakerError × CircuitBreaker).
        (x.0 ≡ none)
        × (x.1.state ≡ state_half_open)
        × (admitted_half_open ops x.1 ≤ cb.config.half_open_max_requests))
      (sym (probe now cb o t))
      (refl, refl, omega (arith, admitted_half_open_from ops (to_half_open cb) (omega arith)))
