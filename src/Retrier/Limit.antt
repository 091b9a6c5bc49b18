-- ===== src/Retrier/Limit.antt =====
-- The loop of Retrier.Do in pkg/resilience/backoff.go under a limit.
use dagens_public.Prelude.{
  ℕ, zero, suc, ◌+◌, ◌≤◌, ◌<◌, ◌≡◌, ◌⊎◌, inl, inr, Bool, true, false, not, ◌&&◌, Option, none, some,
  arith, Option-cases,
}
use dagens_public.Prelude.Int.{pos}
use dagens_public.Retrier.{
  Conditions, Outcome, out_of_fuel, retry_error, Retried, called, attempt_from, retry_do,
}

abbrev pub is_retry_error : Outcome → Bool
is_retry_error (retry_error a e) = true
is_retry_error _ = false

abbrev pub is_out_of_fuel : Outcome → Bool
is_out_of_fuel out_of_fuel = true
is_out_of_fuel _ = false

-- An error that may be retried.
abbrev pub fails_with : Conditions → Option ℕ → Bool
fails_with c none = false
fails_with c (some e) = c.is_retryable e

-- Whether an attempt is made and fails with an error that may be retried.
abbrev pub fails : Conditions → ℕ → Bool
fails c attempt = not (c.done_before attempt) && fails_with c (c.operation attempt)

-- Whether an attempt and the `more` after it fail so, with no context done between them.
abbrev pub all_fail : Conditions → (attempt more : ℕ) → Bool
all_fail c attempt zero = fails c attempt
all_fail c attempt (suc more) =
    fails c attempt && (not (c.done_waiting attempt) && all_fail c (suc attempt) more)

-- A loop that returns after at most `n` calls, with a RetryError exactly if `b`, which is then `final`.
pub record Ends (b : Bool) (n : ℕ) (final : Outcome) (r : Retried) : Type 0 where
  pub fuelled : is_out_of_fuel r.outcome ≡ false
  pub within : r.calls ≤ n
  pub exhausted : is_retry_error r.outcome ≡ b
  pub reported : (r.outcome ≡ final) ⊎ (b ≡ false)

attempt_from-Ends :
    (c : Conditions) (more attempt max fuel : ℕ) (last_err : Option ℕ)
    → attempt + more ≡ max
    → 0 < max
    → more < fuel
    → Ends
        (all_fail c attempt more)
        (suc more)
        (retry_error (pos (max + 1)) (c.operation max))
        (attempt_from c (pos max) fuel attempt last_err)
unfolding attempt_from called
attempt_from-Ends c more attempt max zero last_err e l f = absurd (omega arith)
attempt_from-Ends c zero attempt max (suc fuel) last_err e l f =
    elim (Option-cases (c.operation attempt)) [
      | inl o ↦ record {
        fuelled = ground arith;
        within = ground arith;
        exhausted = ground arith;
        reported = ground arith;
      }
      | inr (x, o) ↦ record {
        fuelled = ground arith;
        within = ground arith;
        exhausted = ground arith;
        reported = ground arith;
      }
    ]
attempt_from-Ends c (suc more) attempt max (suc fuel) last_err e l f =
    let r =
      attempt_from-Ends c more (suc attempt) max fuel (c.operation attempt) (omega arith) l
        (omega arith) in
    elim (Option-cases (c.operation attempt)) [
      | inl o ↦ record {
        fuelled = ground arith;
        within = ground arith;
        exhausted = ground arith;
        reported = ground arith;
      }
      | inr (x, o) ↦ record {
        fuelled = ground (arith, r.fuelled);
        within = ground (arith, r.within);
        exhausted = ground (arith, r.exhausted);
        reported = ground (arith, r.reported);
      }
    ]

-- With a positive limit and more fuel than it, the retry loop returns after at most one call more than
-- the limit. It returns a RetryError exactly if the attempts up to the limit are all made and fail with
-- an error that may be retried and the context is not done in between; the RetryError then has the
-- number of the attempts and the error of the last one.
pub retry_do-Ends :
    (c : Conditions) (limit fuel : ℕ)
    → 0 < limit
    → limit < fuel
    → Ends
        (all_fail c 0 limit)
        (suc limit)
        (retry_error (pos (limit + 1)) (c.operation limit))
        (retry_do c (pos limit) fuel)
unfolding retry_do
retry_do-Ends c limit fuel l f = attempt_from-Ends c limit 0 limit fuel none (omega arith) l f
