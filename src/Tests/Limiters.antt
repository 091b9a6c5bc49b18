-- ===== src/Tests/Limiters.antt =====
-- The sliding window of pkg/resilience/rate_limiter.go at concrete values.
use dagens_public.Prelude.{ℕ, ◌+◌, ◌≤◌, ◌≡◌, refl, true, false, List, [], ◌∷◌, arith}
use dagens_public.Prelude.Int.{pos}
use dagens_public.Window.{
  new_sliding_window_limiter, allow_n, take_if_within, cleanup, drop_expired, WaitRound, waiting,
  wait_n,
}
use dagens_public.Window.History.{count}
use dagens_public.Window.Step.{Request, is_inside}
use dagens_public.Window.Bound.{answers, admissions, counter_answers, answers_of_new}

abbrev at : ℕ → ℕ → Request
at now n = record { cleaned = now; now = now + 1; n = pos n }

abbrev requests : List Request
requests = at 1 1 ∷ at 3 1 ∷ at 5 1 ∷ at 12 1 ∷ at 13 2 ∷ []

-- Two of them pass at once, the fourth when the first is older than the window.
some_refused :
    answers requests (new_sliding_window_limiter 2 9) ≡ true ∷ true ∷ false ∷ true ∷ false ∷ []
unfolding answers new_sliding_window_limiter allow_n take_if_within cleanup drop_expired
some_refused = refl

answers_of_new_example :
    (answers requests (new_sliding_window_limiter 2 9) ≡ counter_answers 9 2 requests [])
    × ((from : ℕ)
        → count (is_inside 9 from) (admissions requests (new_sliding_window_limiter 2 9)) ≤ 2)
answers_of_new_example = answers_of_new 2 9 requests (
  (omega arith, omega arith),
  (
    (omega arith, omega arith),
    ((omega arith, omega arith), ((omega arith, omega arith), ((omega arith, omega arith), tt))),
  ),
)

abbrev round : ℕ → WaitRound
round now = record { cleaned = now; now = now; canceled = false }

-- A wait for more than the rate is not granted even by an empty window.
oversized_wait :
    (wait_n (round 1 ∷ round 50 ∷ []) (pos 3) (new_sliding_window_limiter 2 9)).0 ≡ waiting
unfolding wait_n new_sliding_window_limiter allow_n take_if_within cleanup drop_expired
oversized_wait = refl
