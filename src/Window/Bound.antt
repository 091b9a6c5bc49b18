-- ===== src/Window/Bound.antt =====
-- What the sliding window of pkg/resilience/rate_limiter.go lets through in any window of time.
use dagens_public.Prelude.{ℕ, ◌≤◌, ◌≡◌, refl, sym, ap, ◌∙◌, subst, Bool, List, [], ◌∷◌, ◌++◌, arith}
use mathlib.Core.List.{append-nil, append_assoc}
use dagens_public.Window.{SlidingWindowLimiter, new_sliding_window_limiter, allow_n}
use dagens_public.Window.History.{count}
use dagens_public.Window.Step.{
  Request, granted_stamps, counter_allows, IsInOrder, is_inside, IsWindow, allow_n-IsWindow,
}

-- The answers of a run, and the timestamps of what it let through.
unfoldable pub answers : List Request → SlidingWindowLimiter → List Bool
answers [] sw = []
answers (r ∷ rs) sw =
    (allow_n r.cleaned r.now r.n sw).0 ∷ answers rs (allow_n r.cleaned r.now r.n sw).1

unfoldable pub admissions : List Request → SlidingWindowLimiter → List ℕ
admissions [] sw = []
admissions (r ∷ rs) sw =
    granted_stamps r (allow_n r.cleaned r.now r.n sw).0
    ++ admissions rs (allow_n r.cleaned r.now r.n sw).1

abbrev pub counter_answers : (window rate : ℕ) → List Request → List ℕ → List Bool
counter_answers window rate [] history = []
counter_answers window rate (r ∷ rs) history =
    counter_allows window rate r history
    ∷ counter_answers window rate rs
        (history ++ granted_stamps r (counter_allows window rate r history))

-- The run is the counter's, and no window of time has more than the rate.
record Bounded (window rate : ℕ) (history : List ℕ) (rs : List Request) (sw : SlidingWindowLimiter)
    : Type 0 where
  counted : answers rs sw ≡ counter_answers window rate rs history
  bounded : (from : ℕ) → count (is_inside window from) (history ++ admissions rs sw) ≤ rate

run-Bounded :
    (window rate : ℕ) (rs : List Request) (clock : ℕ) (history : List ℕ) (sw : SlidingWindowLimiter)
    → sw.window ≡ window
    → sw.rate ≡ rate
    → IsWindow clock history sw
    → IsInOrder clock rs
    → Bounded window rate history rs sw
unfolding answers admissions
run-Bounded window rate [] clock history sw ew er w o = record {
  counted = refl;
  bounded = λ from.
      subst (λ h. count (is_inside window from) h ≤ rate) (sym (append-nil history))
        (subst (λ (n : ℕ). count (is_inside n from) history ≤ rate) ew
          (subst (λ (n : ℕ). count (is_inside sw.window from) history ≤ n) er (w.bounded from)));
}
run-Bounded window rate (r ∷ rs) clock history sw ew er w o =
    let (answer, w', same_window, same_rate) = allow_n-IsWindow clock r history sw w o.0.0 o.0.1 in
    let a = allow_n r.cleaned r.now r.n sw in
    let counted : a.0 ≡ counter_allows window rate r history =
      answer
      ∙ ap (λ (n : ℕ). counter_allows n sw.rate r history) ew
      ∙ ap (λ (n : ℕ). counter_allows window n r history) er in
    let rest =
      run-Bounded window rate rs r.now (history ++ granted_stamps r a.0) a.1 (same_window ∙ ew)
        (same_rate ∙ er) w' o.1 in
    record {
      counted =
          ap (λ l. a.0 ∷ l) rest.counted
          ∙ ap (λ (b : Bool). b ∷ counter_answers window rate rs (history ++ granted_stamps r b))
              counted;
      bounded = λ from.
          subst (λ h. count (is_inside window from) h ≤ rate)
            (append_assoc history (granted_stamps r a.0) (admissions rs a.1)) (rest.bounded from);
    }

fresh-IsWindow : (rate window : ℕ) → IsWindow 0 [] (new_sliding_window_limiter rate window)
unfolding new_sliding_window_limiter
fresh-IsWindow rate window = record {
  ordered = tt;
  past = tt;
  same = λ later l. refl;
  bounded = λ from. omega arith;
}

-- Let the clock not go back over a run of requests on a new limiter. Each request is granted exactly
-- if those granted before it that are not older than the window, with its own number, are at most the
-- rate; and no window of time has more granted requests than the rate.
pub answers_of_new :
    (rate window : ℕ) (rs : List Request)
    → IsInOrder 0 rs
    → (answers rs (new_sliding_window_limiter rate window) ≡ counter_answers window rate rs [])
      × ((from : ℕ)
          → count (is_inside window from) (admissions rs (new_sliding_window_limiter rate window))
            ≤ rate)
answers_of_new rate window rs o =
    let b =
      run-Bounded window rate rs 0 [] (new_sliding_window_limiter rate window)
        (unfold new_sliding_window_limiter in refl) (unfold new_sliding_window_limiter in refl)
        (fresh-IsWindow rate window) o in
    (b.counted, b.bounded)
