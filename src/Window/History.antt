-- ===== src/Window/History.antt =====
-- The sliding window of pkg/resilience/rate_limiter.go against the whole history of what it let
-- through.
use dagens_public.Prelude.{
  ℕ, ◌+◌, ◌≤◌, ◌≡◌, refl, ap, inl, inr, Bool, List, [], ◌∷◌, ◌++◌, ltb, leb, length, arith, All,
  Bool-cases, if◌then◌else◌,
}
use dagens_public.Window.{drop_expired}

-- The number of timestamps that pass a test.
abbrev pub count : (ℕ → Bool) → List ℕ → ℕ
count p [] = 0
count p (t ∷ ts) = (if p t then 1 else 0) + count p ts

pub count-append : (p : ℕ → Bool) (ts us : List ℕ) → count p (ts ++ us) ≡ count p ts + count p us
count-append p [] us = omega arith
count-append p (t ∷ ts) us = omega (arith, count-append p ts us)

pub count-length : (p : ℕ → Bool) (ts : List ℕ) → count p ts ≤ length ts
count-length p [] = omega arith
count-length p (t ∷ ts) = ground (arith, count-length p ts)

pub count-same : (p q : ℕ → Bool) (ts : List ℕ) → All (λ t. p t ≡ q t) ts → count p ts ≡ count q ts
count-same p q [] a = refl
count-same p q (t ∷ ts) a = rw (a.0) (ap (λ n. (if q t then 1 else 0) + n) (count-same p q ts a.1))

-- Not before the start of the window that ends now.
abbrev pub is_recent : (window now : ℕ) → ℕ → Bool
is_recent window now t = leb now (t + window)

-- Each timestamp is at least the ones before it, and at most the clock.
abbrev pub IsOrdered : ℕ → List ℕ → Type 0
IsOrdered clock [] = Unit
IsOrdered clock (t ∷ ts) = ((t ≤ clock) × All (λ u. t ≤ u) ts) × IsOrdered clock ts

-- cleanup keeps what is recent, and all of it.
pub drop_expired-count :
    (now later window : ℕ) (ts : List ℕ)
    → now ≤ later
    → count (is_recent window later) (drop_expired now window ts)
      ≡ count (is_recent window later) ts
unfolding drop_expired
drop_expired-count now later window [] l = refl
drop_expired-count now later window (t ∷ ts) l =
    ground (arith, drop_expired-count now later window ts l)

pub drop_expired-IsOrdered :
    (now window clock : ℕ) (ts : List ℕ)
    → IsOrdered clock ts
    → IsOrdered clock (drop_expired now window ts)
unfolding drop_expired
drop_expired-IsOrdered now window clock [] o = tt
drop_expired-IsOrdered now window clock (t ∷ ts) o = elim (Bool-cases (ltb (t + window) now)) [
  | inl e ↦ rw e (drop_expired-IsOrdered now window clock ts o.1)
  | inr e ↦ rw e o
]

All-recent :
    (now window t : ℕ) (ts : List ℕ)
    → now ≤ t + window
    → All (λ u. t ≤ u) ts
    → count (is_recent window now) ts ≡ length ts
All-recent now window t [] l a = refl
All-recent now window t (u ∷ ts) l a = ground (arith, All-recent now window t ts l a.1, a.0)

pub drop_expired-length :
    (now window clock : ℕ) (ts : List ℕ)
    → IsOrdered clock ts
    → length (drop_expired now window ts) ≡ count (is_recent window now) ts
unfolding drop_expired
drop_expired-length now window clock [] o = refl
drop_expired-length now window clock (t ∷ ts) o = elim (Bool-cases (ltb (t + window) now)) [
  | inl e ↦ ground (arith, drop_expired-length now window clock ts o.1)
  | inr e ↦ ground (arith, All-recent now window t ts (ground arith) o.0.1)
]
