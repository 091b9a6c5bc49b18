-- ===== src/Window.antt =====
-- SlidingWindowLimiter of pkg/resilience/rate_limiter.go. The rate is not negative, since a negative
-- one panics in the constructor, and neither is the window; the number of requests may be. Times are
-- numbers of nanoseconds, and each `time.Now()` is an argument.
pub mod History
pub mod Step
pub mod Bound
use dagens_public.Prelude.{
  ℕ, zero, suc, ◌+◌, ◌-◌, ◌≤◌, Bool, true, false, not, Option, none, some, List, [], ◌∷◌, ◌++◌, ltb,
  leb, length, if◌then◌else◌,
}
use dagens_public.Prelude.Int.{ℤ, pos, negsuc}

pub record SlidingWindowLimiter : Type 0 where
  pub rate : ℕ
  pub window : ℕ
  pub timestamps : List ℕ

unfoldable pub new_sliding_window_limiter : ℕ → ℕ → SlidingWindowLimiter
new_sliding_window_limiter rate window = record { rate = rate; window = window; timestamps = [] }

-- The loop of cleanup: the timestamps from the first on that is not before `now - window`.
unfoldable pub drop_expired : (now window : ℕ) → List ℕ → List ℕ
drop_expired now window [] = []
drop_expired now window (t ∷ ts) =
    if ltb (t + window) now then drop_expired now window ts else t ∷ ts

unfoldable pub cleanup : ℕ → SlidingWindowLimiter → SlidingWindowLimiter
cleanup now sw = record sw { timestamps = drop_expired now sw.window sw.timestamps }

-- `count + n <= rate`.
abbrev pub is_within : ℕ → ℤ → ℕ → Bool
is_within count (pos n) rate = leb (count + n) rate
is_within count (negsuc n) rate = leb count (rate + suc n)

-- The timestamps that the loop appends.
abbrev pub repeated : ℕ → ℕ → List ℕ
repeated now zero = []
repeated now (suc n) = now ∷ repeated now n

abbrev pub stamps : ℕ → ℤ → List ℕ
stamps now (pos n) = repeated now n
stamps now (negsuc n) = []

abbrev pub with_stamps : List ℕ → SlidingWindowLimiter → SlidingWindowLimiter
with_stamps more sw = record sw { timestamps = sw.timestamps ++ more }

-- AllowN after its cleanup, which is also what a round of WaitN does first.
unfoldable pub take_if_within : ℕ → ℤ → SlidingWindowLimiter → Bool × SlidingWindowLimiter
take_if_within now n sw =
    if is_within (length sw.timestamps) n sw.rate
    then (true, with_stamps (stamps now n) sw)
    else (false, sw)

-- AllowN; `cleaned` is the time of cleanup and `now` the time of the request.
unfoldable pub allow_n : (cleaned now : ℕ) → ℤ → SlidingWindowLimiter → Bool × SlidingWindowLimiter
allow_n cleaned now n sw = take_if_within now n (cleanup cleaned sw)

unfoldable pub allow : (cleaned now : ℕ) → SlidingWindowLimiter → Bool × SlidingWindowLimiter
allow cleaned now sw = allow_n cleaned now (pos 1) sw

-- One round of WaitN: its times, and whether the context is done while it waits.
pub record WaitRound : Type 0 where
  pub cleaned : ℕ
  pub now : ℕ
  pub canceled : Bool

-- What WaitN answers: a grant, the error of the context, or that it still waits after these rounds.
pub data WaitResult : Type 0 where
  granted canceled_wait waiting : WaitResult

-- The rest of WaitN after a try, `again` being its next rounds.
abbrev pub wait_on :
    Bool
    → (SlidingWindowLimiter → WaitResult × SlidingWindowLimiter)
    → Bool × SlidingWindowLimiter
    → WaitResult × SlidingWindowLimiter
wait_on canceled again (true, sw) = (granted, sw)
wait_on true again (false, sw) = (canceled_wait, sw)
wait_on false again (false, sw) = again sw

unfoldable pub wait_n :
    List WaitRound → ℤ → SlidingWindowLimiter → WaitResult × SlidingWindowLimiter
wait_n [] n sw = (waiting, sw)
wait_n (round ∷ rounds) n sw =
    wait_on round.canceled (wait_n rounds n) (allow_n round.cleaned round.now n sw)
