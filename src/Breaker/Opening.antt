-- ===== src/Breaker/Opening.antt =====
-- When the circuit breaker of pkg/resilience/circuit_breaker.go opens, and what an open one does.
use dagens_public.Prelude.{
  ℕ, ◌+◌, ◌≤◌, ◌<◌, ◌≡◌, refl, subst, inl, inr, true, false, Option, some, List, [], ◌∷◌, leb,
  arith, Bool-cases, All, length, if◌then◌else◌, ap, sym, ◌∙◌,
}
use dagens_public.Breaker.{
  state_closed, state_open, CircuitBreaker, before_in, circuit_open, before_request, after_in,
  after_request, to_open, counted_failure, BreakerError,
}
use dagens_public.Breaker.Steps.{BreakerOp, start, finish, manual_reset, breaker_step, breaker_run}

-- The ends of requests, each with its time and error.
abbrev pub finishes : List (ℕ × Option ℕ) → List BreakerOp
finishes [] = []
finishes ((now, e) ∷ ends) = finish now e ∷ finishes ends

-- A failure in the closed state that reaches the threshold.
closed_failure_opens :
    (now : ℕ) (e : Option ℕ) (cb : CircuitBreaker)
    → cb.state ≡ state_closed
    → cb.is_failure e ≡ true
    → leb cb.config.failure_threshold (cb.failure_count + 1) ≡ true
    → breaker_step (finish now e) cb ≡ to_open now (counted_failure now cb)
unfolding breaker_step after_request after_in
closed_failure_opens now e cb c f t = simp (c, f, t) refl

-- A failure in the closed state that does not reach the threshold.
closed_failure_counts :
    (now : ℕ) (e : Option ℕ) (cb : CircuitBreaker)
    → cb.state ≡ state_closed
    → cb.is_failure e ≡ true
    → leb cb.config.failure_threshold (cb.failure_count + 1) ≡ false
    → breaker_step (finish now e) cb ≡ counted_failure now cb
unfolding breaker_step after_request after_in
closed_failure_counts now e cb c f t = simp (c, f, t) refl

-- An open breaker stays as it is when a request ends.
open_finish :
    (now : ℕ) (e : Option ℕ) (cb : CircuitBreaker)
    → cb.state ≡ state_open
    → breaker_step (finish now e) cb ≡ cb
unfolding breaker_step after_request after_in
open_finish now e cb o = simp o refl

open_finishes :
    (ends : List (ℕ × Option ℕ)) (cb : CircuitBreaker)
    → cb.state ≡ state_open
    → breaker_run (finishes ends) cb ≡ cb
unfolding breaker_run
open_finishes [] cb o = refl
open_finishes ((now, e) ∷ ends) cb o =
    ap (breaker_run (finishes ends)) (open_finish now e cb o) ∙ open_finishes ends cb o

-- Let the breaker be closed, with fewer failures than the threshold. After requests that all end with
-- a failure it is open if their number and the failures before add up to the threshold or more, and
-- closed otherwise.
pub state-breaker_run_failures :
    (ends : List (ℕ × Option ℕ)) (cb : CircuitBreaker)
    → cb.state ≡ state_closed
    → cb.failure_count < cb.config.failure_threshold
    → All (λ end. cb.is_failure end.1 ≡ true) ends
    → (breaker_run (finishes ends) cb).state ≡ (
        if leb cb.config.failure_threshold (cb.failure_count + length ends)
        then state_open
        else state_closed)
unfolding breaker_run to_open
state-breaker_run_failures [] cb c l a = ground arith
state-breaker_run_failures ((now, e) ∷ ends) cb c l a =
    elim (Bool-cases (leb cb.config.failure_threshold (cb.failure_count + 1))) [
      | inl t ↦
          let opened = to_open now (counted_failure now cb) in
          let same =
            ap (breaker_run (finishes ends)) (closed_failure_opens now e cb c a.0 t)
            ∙ open_finishes ends opened refl in
          ap (λ (x : CircuitBreaker). x.state) same ∙ ground arith
      | inr t ↦
          ap (λ (x : CircuitBreaker). (breaker_run (finishes ends) x).state)
            (closed_failure_counts now e cb c a.0 t)
          ∙ (state-breaker_run_failures ends (counted_failure now cb) c (ground arith) a.1
              ∙ ground arith)
    ]

-- While an open breaker has not timed out: every request of a run starts too early.
abbrev pub IsEarly : CircuitBreaker → BreakerOp → Type 0
IsEarly cb (start now) = now ≤ cb.last_failure_time + cb.config.timeout
IsEarly cb (finish now e) = Unit
IsEarly cb manual_reset = ⊥

-- What the starts of a run are answered.
abbrev pub answers : List BreakerOp → CircuitBreaker → List (Option BreakerError)
answers [] cb = []
answers (start now ∷ ops) cb = (before_request now cb).0 ∷ answers ops (before_request now cb).1
answers (finish now e ∷ ops) cb = answers ops (breaker_step (finish now e) cb)
answers (manual_reset ∷ ops) cb = answers ops (breaker_step manual_reset cb)

-- An open breaker rejects a request that starts too early, and stays as it is.
open_start :
    (now : ℕ) (cb : CircuitBreaker)
    → cb.state ≡ state_open
    → now ≤ cb.last_failure_time + cb.config.timeout
    → before_request now cb ≡ (some circuit_open, cb)
unfolding before_request before_in
open_start now cb o l = simp o (ground arith)

-- An open breaker rejects with ErrCircuitOpen every request that starts no later than the timeout
-- after the last failure, whatever requests end in between, and is not changed by all of it. It is not
-- reset by hand.
pub breaker_run-open :
    (ops : List BreakerOp) (cb : CircuitBreaker)
    → cb.state ≡ state_open
    → All (IsEarly cb) ops
    → (breaker_run ops cb ≡ cb) × All (λ answer. answer ≡ some circuit_open) (answers ops cb)
unfolding breaker_run breaker_step
breaker_run-open [] cb o a = (refl, tt)
breaker_run-open (start now ∷ ops) cb o a =
    let (same, answered) = breaker_run-open ops cb o a.1 in
    subst
      (λ (x : Option BreakerError × CircuitBreaker).
        (breaker_run ops x.1 ≡ cb)
        × ((x.0 ≡ some circuit_open)
            × All (λ answer. answer ≡ some circuit_open) (answers ops x.1)))
      (sym (open_start now cb o a.0)) (same, (refl, answered))
breaker_run-open (finish now e ∷ ops) cb o a =
    subst
      (λ (x : CircuitBreaker).
        (breaker_run ops x ≡ cb) × All (λ answer. answer ≡ some circuit_open) (answers ops x))
      (sym (open_finish now e cb o)) (breaker_run-open ops cb o a.1)
breaker_run-open (manual_reset ∷ ops) cb o a = absurd a.0
