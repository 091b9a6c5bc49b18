-- ===== src/Tests/Retriers.antt =====
-- The retry loop of pkg/resilience/backoff.go at concrete values.
use dagens_public.Prelude.{
  ℕ, suc, ◌+◌, ◌≡◌, refl, false, none, some, [], ◌∷◌, arith, leb, if◌then◌else◌,
}
use dagens_public.Prelude.Int.{pos, negsuc}
use dagens_public.Retrier.{
  Conditions, retry_error, retry_do, attempt_from, called, default_is_retryable, returns,
}
use dagens_public.Retrier.Limit.{all_fail, Ends, retry_do-Ends}

-- An operation that fails in its first attempts.
abbrev failing : ℕ → Conditions
failing n = record {
  done_before = λ k. false;
  operation = λ k. if leb n k then none else some k;
  is_retryable = default_is_retryable;
  next_delay = λ k. k;
  done_waiting = λ k. false;
}

retry_do-Ends_example :
    Ends
      (all_fail (failing 9) 0 2)
      (suc 2)
      (retry_error (pos (2 + 1)) ((failing 9).operation 2))
      (retry_do (failing 9) (pos 2) 3)
retry_do-Ends_example = retry_do-Ends (failing 9) 2 3 (omega arith) (omega arith)

-- Three calls and two retries, with the error of the third call.
three_calls : retry_do (failing 9) (pos 2) 3 ≡ record {
  outcome = retry_error (pos 3) (some 2);
  calls = 3;
  retries = (0, 0, 0) ∷ (1, 1, 1) ∷ [];
}
unfolding retry_do attempt_from called default_is_retryable
three_calls = refl

-- A negative limit: no call, and a RetryError without an error.
no_calls : retry_do (failing 9) (negsuc 0) 3 ≡ returns (retry_error (pos 0) none) 0
unfolding retry_do attempt_from called
no_calls = refl
