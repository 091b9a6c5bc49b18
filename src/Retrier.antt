-- ===== src/Retrier.antt =====
-- Retrier.Do and DoWithResult of pkg/resilience/backoff.go, which loop alike. What the loop meets is an
-- argument: the operation's answers, the context, and the delays, which are computed in floating
-- point. The loop without a limit runs on fuel.
pub mod Limit
use dagens_public.Prelude.{
  ℕ, zero, suc, ◌+◌, Bool, true, false, not, ◌&&◌, ◌||◌, Option, none, some, List, [], ◌∷◌,
  if◌then◌else◌,
}
use dagens_public.Prelude.Int.{ℤ, pos, negsuc, ltb_ℤ, eqb_ℤ, sub_ℕ}

-- Of attempt `k`: whether the context is done before it, the error of the operation, the delay after
-- it, and whether the context is done in the wait. `is_retryable` is the option or its default.
pub record Conditions : Type 0 where
  pub done_before : ℕ → Bool
  pub operation : ℕ → Option ℕ
  pub is_retryable : ℕ → Bool
  pub next_delay : ℕ → ℕ
  pub done_waiting : ℕ → Bool

-- DefaultIsRetryable, of an error that is not nil.
unfoldable pub default_is_retryable : ℕ → Bool
default_is_retryable e = true

-- What the loop returns; `retry_error` is a RetryError with its attempts and last error.
pub data Outcome : Type 0 where
  succeeded context_canceled out_of_fuel : Outcome
  not_retried : ℕ → Outcome
  retry_error : ℤ → Option ℕ → Outcome

-- An outcome, the number of calls of the operation, and the calls of the retry callback: the attempt,
-- the error and the delay.
pub record Retried : Type 0 where
  pub outcome : Outcome
  pub calls : ℕ
  pub retries : List (ℕ × ℕ × ℕ)

abbrev pub returns : Outcome → ℕ → Retried
returns outcome calls = record { outcome = outcome; calls = calls; retries = [] }

-- `MaxRetries + 1`.
abbrev pub attempts_of : ℤ → ℤ
attempts_of (pos n) = pos (n + 1)
attempts_of (negsuc n) = sub_ℕ 0 n

-- A call and a retry before what follows.
abbrev pub after_retry : ℕ × ℕ × ℕ → Retried → Retried
after_retry retry r = record {
  outcome = r.outcome;
  calls = suc r.calls;
  retries = retry ∷ r.retries;
}

-- A round after the operation has been called, `again` being the next rounds.
unfoldable pub called : Conditions → ℤ → ℕ → Retried → Option ℕ → Retried
called c max_retries attempt again none = returns succeeded 1
called c max_retries attempt again (some e) =
    if not (c.is_retryable e)
    then returns (not_retried e) 1
    else if ltb_ℤ (pos 0) max_retries && not (ltb_ℤ (pos attempt) max_retries)
    then returns (retry_error (attempts_of max_retries) (some e)) 1
    else if c.done_waiting attempt
    then record {
      outcome = context_canceled;
      calls = 1;
      retries = (attempt, e, c.next_delay attempt) ∷ [];
    }
    else after_retry (attempt, e, c.next_delay attempt) again

-- The loop from an attempt on, with the last error.
unfoldable pub attempt_from : Conditions → ℤ → (fuel attempt : ℕ) → Option ℕ → Retried
attempt_from c max_retries zero attempt last_err = returns out_of_fuel 0
attempt_from c max_retries (suc fuel) attempt last_err =
    let again = attempt_from c max_retries fuel (suc attempt) (c.operation attempt) in
    if not (eqb_ℤ max_retries (pos 0) || not (ltb_ℤ max_retries (pos attempt)))
    then returns (retry_error (attempts_of max_retries) last_err) 0
    else if c.done_before attempt
    then returns context_canceled 0
    else called c max_retries attempt again (c.operation attempt)

-- Do.
unfoldable pub retry_do : Conditions → ℤ → ℕ → Retried
retry_do c max_retries fuel = attempt_from c max_retries fuel 0 none
