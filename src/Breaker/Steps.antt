-- ===== src/Breaker/Steps.antt =====
-- The circuit breaker of pkg/resilience/circuit_breaker.go under any interleaving of requests.
use dagens_public.Prelude.{
  ℕ, ◌+◌, ◌≤◌, ◌<◌, ◌≡◌, refl, subst, ◌⊎◌, inl, inr, Bool, true, false, Option, List, [], ◌∷◌, leb,
  arith, Bool-cases, All, All-append,
}
use dagens_public.Breaker.{
  CircuitState, state_closed, state_open, state_half_open, CircuitBreaker, before_in,
  before_request, after_in, after_request, reset, to_open, to_closed, to_half_open, is_timed_out,
}

-- One step of a goroutine that works with the breaker: the start of a request, its end with an error
-- or none, and Reset. A request that ends need not have been started in the same run.
pub data BreakerOp : Type 0 where
  start : ℕ → BreakerOp
  finish : ℕ → Option ℕ → BreakerOp
  manual_reset : BreakerOp

unfoldable pub breaker_step : BreakerOp → CircuitBreaker → CircuitBreaker
breaker_step (start now) cb = (before_request now cb).1
breaker_step (finish now e) cb = after_request now e cb
breaker_step manual_reset cb = reset cb

unfoldable pub breaker_run : List BreakerOp → CircuitBreaker → CircuitBreaker
breaker_run [] cb = cb
breaker_run (op ∷ ops) cb = breaker_run ops (breaker_step op cb)

-- A counter that is 0 or has not reached its threshold.
abbrev pub Below : ℕ → ℕ → Type 0
Below threshold n = (n ≡ 0) ⊎ (n < threshold)

-- What the counters may be in each state.
abbrev pub Counts : CircuitState → CircuitBreaker → Type 0
Counts state_closed cb =
    Below cb.config.failure_threshold cb.failure_count
    × (cb.success_count ≡ 0)
    × (cb.half_open_count ≡ 0)
Counts state_open cb = (cb.success_count ≡ 0) × (cb.half_open_count ≡ 0)
Counts state_half_open cb =
    (cb.failure_count ≡ 0)
    × Below cb.config.success_threshold cb.success_count
    × (cb.half_open_count ≤ cb.config.half_open_max_requests)

-- The changes of state that the breaker tells of.
pub data IsEdge : CircuitState × CircuitState → Type 0 where
  opened : IsEdge (state_closed, state_open)
  probed : IsEdge (state_open, state_half_open)
  reopened : IsEdge (state_half_open, state_open)
  recovered : IsEdge (state_half_open, state_closed)

pub record IsBreaker (cb : CircuitBreaker) : Type 0 where
  pub counts : Counts cb.state cb
  pub edges : All IsEdge cb.notified

before_in-IsBreaker :
    (now : ℕ) (st : CircuitState) (cb : CircuitBreaker)
    → cb.state ≡ st
    → IsBreaker cb
    → IsBreaker (before_in st now cb).1
unfolding before_in to_half_open
before_in-IsBreaker now state_closed cb e b = b
before_in-IsBreaker now state_open cb e b = elim (Bool-cases (is_timed_out now cb)) [
  | inr t ↦ rw t b
  | inl t ↦ rw t (record {
    counts = (refl, inl refl, omega arith);
    edges = All-append IsEdge cb.notified _ b.edges (simp e probed, tt);
  })
]
before_in-IsBreaker now state_half_open cb e b =
    elim (Bool-cases (leb cb.config.half_open_max_requests cb.half_open_count)) [
      | inl t ↦ rw t b
      | inr t ↦ rw t (record {
        counts = let c = subst (λ s. Counts s cb) e b.counts in simp e (c.0, c.1, ground arith);
        edges = b.edges;
      })
    ]

next_Below : (threshold n : ℕ) → leb threshold (n + 1) ≡ false → Below threshold (n + 1)
next_Below threshold n h = inr (ground arith)

after_in-IsBreaker :
    (failure : Bool) (now : ℕ) (st : CircuitState) (cb : CircuitBreaker)
    → cb.state ≡ st
    → IsBreaker cb
    → IsBreaker (after_in st failure now cb)
unfolding after_in to_open to_closed
after_in-IsBreaker true now state_closed cb e b =
    let c = subst (λ s. Counts s cb) e b.counts in
    elim (Bool-cases (leb cb.config.failure_threshold (cb.failure_count + 1))) [
      | inl t ↦ rw t (record {
        counts = (refl, refl);
        edges = All-append IsEdge cb.notified _ b.edges (simp e opened, tt);
      })
      | inr t ↦ rw t (record {
        counts = simp e (next_Below cb.config.failure_threshold cb.failure_count t, c.1, c.2);
        edges = b.edges;
      })
    ]
after_in-IsBreaker false now state_closed cb e b =
    let c = subst (λ s. Counts s cb) e b.counts in
    record { counts = simp e (inl refl, c.1, c.2); edges = b.edges }
after_in-IsBreaker true now state_half_open cb e b = record {
  counts = (refl, refl);
  edges = All-append IsEdge cb.notified _ b.edges (simp e reopened, tt);
}
after_in-IsBreaker false now state_half_open cb e b =
    let c = subst (λ s. Counts s cb) e b.counts in
    elim (Bool-cases (leb cb.config.success_threshold (cb.success_count + 1))) [
      | inl t ↦ rw t (record {
        counts = (inl refl, refl, refl);
        edges = All-append IsEdge cb.notified _ b.edges (simp e recovered, tt);
      })
      | inr t ↦ rw t (record {
        counts = simp e (c.0, next_Below cb.config.success_threshold cb.success_count t, c.2);
        edges = b.edges;
      })
    ]
after_in-IsBreaker failure now state_open cb e b = b

breaker_step-IsBreaker :
    (op : BreakerOp) (cb : CircuitBreaker) → IsBreaker cb → IsBreaker (breaker_step op cb)
unfolding breaker_step before_request after_request reset
breaker_step-IsBreaker (start now) cb b = before_in-IsBreaker now cb.state cb refl b
breaker_step-IsBreaker (finish now e) cb b =
    after_in-IsBreaker (cb.is_failure e) now cb.state cb refl b
breaker_step-IsBreaker manual_reset cb b = record {
  counts = (inl refl, refl, refl);
  edges = b.edges;
}

-- If the counters fit the state and every change of state told so far is one of closed to open, open
-- to half-open, half-open to open and half-open to closed, then both hold after any interleaving of
-- starts and ends of requests and resets. The counters fit: in the closed state the failures are none
-- or below their threshold, in the half-open state the successes are none or below theirs and the
-- requests counted are at most the maximum, and the counters of the other states are 0.
pub breaker_run-IsBreaker :
    (ops : List BreakerOp) (cb : CircuitBreaker) → IsBreaker cb → IsBreaker (breaker_run ops cb)
unfolding breaker_run
breaker_run-IsBreaker [] cb b = b
breaker_run-IsBreaker (op ∷ ops) cb b =
    breaker_run-IsBreaker ops (breaker_step op cb) (breaker_step-IsBreaker op cb b)
