-- ===== src/Breaker/Recovering.antt =====
-- How the circuit breaker of pkg/resilience/circuit_breaker.go closes again, when requests are made
-- one after another and succeed.
use dagens_public.Prelude.{
  ℕ, ◌+◌, ◌≤◌, ◌<◌, ◌≡◌, refl, ap, ◌∙◌, inl, inr, Bool, true, false, ◌&&◌, Option, List, [], ◌∷◌,
  leb, arith, Bool-cases, All, length, if◌then◌else◌,
}
use dagens_public.Breaker.{
  CircuitState, state_closed, state_open, state_half_open, CircuitBreaker, before_in,
  before_request, after_in, after_request, is_timed_out, to_half_open, to_closed, counted_success,
  execute, admitted_call,
}

-- A request that no other one overlaps: the times of its start and end, and its error.
abbrev pub Call : Type 0
Call = ℕ × ℕ × Option ℕ

unfoldable pub execute_run : List Call → CircuitBreaker → CircuitBreaker
execute_run [] cb = cb
execute_run ((from, to, e) ∷ calls) cb = execute_run calls (execute from to e cb).1

abbrev pub Succeeds : CircuitBreaker → Call → Type 0
Succeeds cb (from, to, e) = cb.is_failure e ≡ false

execute_closed :
    (from to : ℕ) (e : Option ℕ) (cb : CircuitBreaker)
    → cb.state ≡ state_closed
    → cb.is_failure e ≡ false
    → (execute from to e cb).1 ≡ record cb { failure_count = 0 }
unfolding execute admitted_call before_request before_in after_request after_in
execute_closed from to e cb c f = simp (c, f) refl

-- A closed breaker stays closed.
closed-execute_run :
    (calls : List Call) (cb : CircuitBreaker)
    → cb.state ≡ state_closed
    → All (Succeeds cb) calls
    → (execute_run calls cb).state ≡ state_closed
unfolding execute_run
closed-execute_run [] cb c a = c
closed-execute_run ((from, to, e) ∷ calls) cb c a =
    ap (λ (x : CircuitBreaker). (execute_run calls x).state) (execute_closed from to e cb c a.0)
    ∙ closed-execute_run calls (record cb { failure_count = 0 }) c a.1

-- After an admitted success in the half-open state.
succeeded_once : CircuitBreaker → CircuitBreaker
succeeded_once cb =
    if leb cb.config.success_threshold (cb.success_count + 1)
    then to_closed (counted_success cb)
    else counted_success cb

execute_rejected :
    (from to : ℕ) (e : Option ℕ) (cb : CircuitBreaker)
    → cb.state ≡ state_half_open
    → leb cb.config.half_open_max_requests cb.half_open_count ≡ true
    → (execute from to e cb).1 ≡ cb
unfolding execute admitted_call before_request before_in
execute_rejected from to e cb c f = simp (c, f) refl

execute_counted :
    (from to : ℕ) (e : Option ℕ) (cb : CircuitBreaker)
    → cb.state ≡ state_half_open
    → leb cb.config.half_open_max_requests cb.half_open_count ≡ false
    → cb.is_failure e ≡ false
    → (execute from to e cb).1
      ≡ succeeded_once (record cb { half_open_count = cb.half_open_count + 1 })
unfolding execute admitted_call before_request before_in after_request after_in succeeded_once
execute_counted from to e cb c f g = simp (c, f, g) refl

execute_probe :
    (from to : ℕ) (e : Option ℕ) (cb : CircuitBreaker)
    → cb.state ≡ state_open
    → is_timed_out from cb ≡ true
    → cb.is_failure e ≡ false
    → (execute from to e cb).1 ≡ succeeded_once (to_half_open cb)
unfolding execute admitted_call before_request before_in after_request after_in succeeded_once
    to_half_open
execute_probe from to e cb c f g = simp (c, f, g) refl

-- Where a run of `n` more successes ends, from the counts of successes and requests.
abbrev pub closes : ℕ → ℕ → ℕ → Bool
closes threshold max_requests total = leb threshold total && leb threshold (max_requests + 1)

-- The state after `calls` more successes than `successes`.
abbrev pub state_after : CircuitBreaker → ℕ → CircuitState
state_after cb total =
    if closes cb.config.success_threshold cb.config.half_open_max_requests total
    then state_closed
    else state_half_open

-- Where the calls lead from a half-open breaker that has counted one success more than requests.
abbrev RunsFrom : List Call → CircuitBreaker → Type 0
RunsFrom calls cb =
    cb.state ≡ state_half_open
    → cb.success_count ≡ cb.half_open_count + 1
    → cb.half_open_count ≤ cb.config.half_open_max_requests
    → cb.success_count < cb.config.success_threshold
    → All (Succeeds cb) calls
    → (execute_run calls cb).state ≡ state_after cb (cb.success_count + length calls)

-- What follows an admitted success.
after_success :
    (calls : List Call) (cb : CircuitBreaker)
    → RunsFrom calls (counted_success cb)
    → cb.state ≡ state_half_open
    → cb.success_count ≡ cb.half_open_count
    → cb.half_open_count ≤ cb.config.half_open_max_requests
    → All (Succeeds cb) calls
    → (execute_run calls (succeeded_once cb)).state
      ≡ state_after cb (cb.success_count + 1 + length calls)
unfolding succeeded_once to_closed
after_success calls cb runs h same l a =
    elim (Bool-cases (leb cb.config.success_threshold (cb.success_count + 1))) [
      | inl t ↦
          rw t (closed-execute_run calls (to_closed (counted_success cb)) refl a ∙ ground arith)
      | inr t ↦ rw t (runs h (omega arith) l (ground arith) a)
    ]

half_open-execute_run : (calls : List Call) (cb : CircuitBreaker) → RunsFrom calls cb
unfolding execute_run
half_open-execute_run [] cb h same l s a = h ∙ ground arith
half_open-execute_run ((from, to, e) ∷ calls) cb h same l s a =
    elim (Bool-cases (leb cb.config.half_open_max_requests cb.half_open_count)) [
      | inl t ↦
          ap (λ (x : CircuitBreaker). (execute_run calls x).state)
            (execute_rejected from to e cb h t)
          ∙ (half_open-execute_run calls cb h same l s a.1 ∙ ground arith)
      | inr t ↦
          let next = record cb { half_open_count = cb.half_open_count + 1 } in
          ap (λ (x : CircuitBreaker). (execute_run calls x).state)
            (execute_counted from to e cb h t a.0)
          ∙ (after_success calls next (half_open-execute_run calls (counted_success next)) h
                (omega arith) (ground arith) a.1
              ∙ ground arith)
    ]

-- Let requests that do not overlap be made of an open breaker, the first of them after the timeout,
-- and let none of them fail. The breaker is then closed exactly if the success threshold is at most
-- their number and at most one more than the maximum of half-open requests; it is half-open otherwise.
pub state-execute_run_successes :
    (from to : ℕ) (e : Option ℕ) (calls : List Call) (cb : CircuitBreaker)
    → cb.state ≡ state_open
    → is_timed_out from cb ≡ true
    → All (Succeeds cb) ((from, to, e) ∷ calls)
    → (execute_run ((from, to, e) ∷ calls) cb).state ≡ (
        if leb cb.config.success_threshold (1 + length calls)
          && leb cb.config.success_threshold (cb.config.half_open_max_requests + 1)
        then state_closed
        else state_half_open)
unfolding execute_run to_half_open
state-execute_run_successes from to e calls cb o t a =
    let next = to_half_open cb in
    ap (λ (x : CircuitBreaker). (execute_run calls x).state) (execute_probe from to e cb o t a.0)
    ∙ (after_success calls next (half_open-execute_run calls (counted_success next)) refl refl
          (omega arith) a.1
        ∙ ground arith)
