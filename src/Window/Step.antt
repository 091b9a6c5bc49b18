-- ===== src/Window/Step.antt =====
-- One request of the sliding window of pkg/resilience/rate_limiter.go, against a counter that forgets
-- nothing.
use dagens_public.Prelude.{
  ℕ, zero, suc, ◌+◌, ◌≤◌, ◌≡◌, refl, sym, ap, ◌∙◌, subst, inl, inr, Bool, true, false, ◌&&◌, List,
  [], ◌∷◌, ◌++◌, leb, leb→le, length, ◌<◌, length-append, arith, All, All-append, All-map,
  Bool-cases,
}
use mathlib.Core.List.{append-nil}
use dagens_public.Prelude.Int.{ℤ, pos, negsuc}
use dagens_public.Window.{
  SlidingWindowLimiter, drop_expired, cleanup, is_within, repeated, stamps, with_stamps,
  take_if_within, allow_n,
}
use dagens_public.Window.History.{
  count, count-append, count-length, count-same, is_recent, IsOrdered, drop_expired-count,
  drop_expired-IsOrdered, drop_expired-length,
}

-- A call of AllowN: the times of its cleanup and of the request, and its number.
pub record Request : Type 0 where
  pub cleaned : ℕ
  pub now : ℕ
  pub n : ℤ

-- The timestamps of a request if it is granted.
abbrev pub granted_stamps : Request → Bool → List ℕ
granted_stamps r true = stamps r.now r.n
granted_stamps r false = []

-- A window counter that forgets nothing: what it let through so far decides.
abbrev pub counter_allows : (window rate : ℕ) → Request → List ℕ → Bool
counter_allows window rate r history =
    is_within (count (is_recent window r.cleaned) history) r.n rate

-- The clock does not go back.
abbrev pub IsInOrder : ℕ → List Request → Type 0
IsInOrder clock [] = Unit
IsInOrder clock (r ∷ rs) = ((clock ≤ r.cleaned) × (r.cleaned ≤ r.now)) × IsInOrder r.now rs

-- Inside the window that starts at `from`.
abbrev pub is_inside : (window from : ℕ) → ℕ → Bool
is_inside window from t = leb from t && leb t (from + window)

-- The limiter against the history.
pub record IsWindow (clock : ℕ) (history : List ℕ) (sw : SlidingWindowLimiter) : Type 0 where
  pub ordered : IsOrdered clock sw.timestamps
  pub past : All (λ t. t ≤ clock) history
  pub same :
      (later : ℕ)
      → clock ≤ later
      → count (is_recent sw.window later) history ≡ count (is_recent sw.window later) sw.timestamps
  pub bounded : (from : ℕ) → count (is_inside sw.window from) history ≤ sw.rate

IsOrdered-weaken :
    (clock now : ℕ) (ts : List ℕ) → clock ≤ now → IsOrdered clock ts → IsOrdered now ts
IsOrdered-weaken clock now [] l o = tt
IsOrdered-weaken clock now (t ∷ ts) l o =
    ((omega arith, o.0.1), IsOrdered-weaken clock now ts l o.1)

All-repeated : (t now n : ℕ) → t ≤ now → All (λ u. t ≤ u) (repeated now n)
All-repeated t now zero l = tt
All-repeated t now (suc n) l = (l, All-repeated t now n l)

All-at_most : (now n : ℕ) → All (λ u. u ≤ now) (repeated now n)
All-at_most now zero = tt
All-at_most now (suc n) = (omega arith, All-at_most now n)

length-repeated : (now n : ℕ) → length (repeated now n) ≡ n
length-repeated now zero = refl
length-repeated now (suc n) = ap suc (length-repeated now n)

IsOrdered-repeated : (now n : ℕ) → IsOrdered now (repeated now n)
IsOrdered-repeated now zero = tt
IsOrdered-repeated now (suc n) =
    ((omega arith, All-repeated now now n (omega arith)), IsOrdered-repeated now n)

IsOrdered-append :
    (clock now n : ℕ) (ts : List ℕ)
    → clock ≤ now
    → IsOrdered clock ts
    → IsOrdered now (ts ++ repeated now n)
IsOrdered-append clock now n [] l o = IsOrdered-repeated now n
IsOrdered-append clock now n (t ∷ ts) l o = (
  (
    omega arith,
    All-append (λ u. t ≤ u) ts (repeated now n) o.0.1 (All-repeated t now n (omega arith)),
  ),
  IsOrdered-append clock now n ts l o.1,
)

module _ (clock : ℕ) (r : Request) (history : List ℕ) (sw : SlidingWindowLimiter)
    (w : IsWindow clock history sw) (forward : clock ≤ r.cleaned) (onward : r.cleaned ≤ r.now) where
  abbrev cleaned : SlidingWindowLimiter
  cleaned = cleanup r.cleaned sw

  cleaned_length :
      length (drop_expired r.cleaned sw.window sw.timestamps)
      ≡ count (is_recent sw.window r.cleaned) history
  cleaned_length =
      drop_expired-length r.cleaned sw.window clock sw.timestamps w.ordered
      ∙ sym (w.same r.cleaned forward)

  took :
      is_within (length (drop_expired r.cleaned sw.window sw.timestamps)) r.n sw.rate ≡ true
      → allow_n r.cleaned r.now r.n sw ≡ (true, with_stamps (stamps r.now r.n) cleaned)
  unfolding allow_n take_if_within cleanup
  took e = rw e refl

  took_nothing :
      is_within (length (drop_expired r.cleaned sw.window sw.timestamps)) r.n sw.rate ≡ false
      → allow_n r.cleaned r.now r.n sw ≡ (false, cleaned)
  unfolding allow_n take_if_within cleanup
  took_nothing e = rw e refl

  refused-IsWindow : IsWindow r.now history cleaned
  unfolding cleanup
  refused-IsWindow = record {
    ordered =
        IsOrdered-weaken clock r.now _ (omega arith)
          (drop_expired-IsOrdered r.cleaned sw.window clock sw.timestamps w.ordered);
    past = All-map (λ t. t ≤ clock) (λ t. t ≤ r.now) (λ t l. omega arith) history w.past;
    same = λ later l.
        w.same later (omega arith)
        ∙ sym (drop_expired-count r.cleaned later sw.window sw.timestamps (omega arith));
    bounded = w.bounded;
  }

  -- The timestamps that are inside a window that has not ended are the recent ones.
  count-inside :
      (from : ℕ) (ts : List ℕ)
      → r.now ≤ from + sw.window
      → All (λ t. t ≤ r.now) ts
      → count (is_inside sw.window from) ts ≡ count (is_recent sw.window (from + sw.window)) ts
  count-inside from ts l a =
      count-same (is_inside sw.window from) (is_recent sw.window (from + sw.window)) ts
        (All-map (λ t. t ≤ r.now) _ (λ t m. ground arith) ts a)

  -- The ones of a request after the window are outside it.
  count-outside :
      (from n : ℕ)
      → from + sw.window < r.now
      → count (is_inside sw.window from) (repeated r.now n) ≡ 0
  count-outside from zero l = refl
  count-outside from (suc n) l = ground (arith, count-outside from n l)

  granted-IsWindow :
      (n : ℕ)
      → length (drop_expired r.cleaned sw.window sw.timestamps) + n ≤ sw.rate
      → IsWindow r.now (history ++ repeated r.now n) (with_stamps (repeated r.now n) cleaned)
  unfolding cleanup
  granted-IsWindow n room = record {
    ordered =
        IsOrdered-append clock r.now n _ (omega arith)
          (drop_expired-IsOrdered r.cleaned sw.window clock sw.timestamps w.ordered);
    past = past;
    same = same;
    bounded = λ from. elim (Bool-cases (leb r.now (from + sw.window))) [
      | inl e ↦ omega (
        arith,
        count-inside from (history ++ repeated r.now n) (leb→le r.now (from + sw.window) e) past,
        same (from + sw.window) (leb→le r.now (from + sw.window) e),
        count-length (is_recent sw.window (from + sw.window))
            (drop_expired r.cleaned sw.window sw.timestamps ++ repeated r.now n),
        length-append (drop_expired r.cleaned sw.window sw.timestamps) (repeated r.now n),
        length-repeated r.now n,
      )
      | inr e ↦ omega (
        arith,
        count-append (is_inside sw.window from) history (repeated r.now n),
        count-outside from n (ground arith),
        w.bounded from,
      )
    ];
  }
    where
      past : All (λ t. t ≤ r.now) (history ++ repeated r.now n)
      past =
          All-append (λ t. t ≤ r.now) history (repeated r.now n) refused-IsWindow.past
            (All-at_most r.now n)

      same :
          (later : ℕ)
          → r.now ≤ later
          → count (is_recent sw.window later) (history ++ repeated r.now n)
            ≡ count
                (is_recent sw.window later)
                (drop_expired r.cleaned sw.window sw.timestamps ++ repeated r.now n)
      same later l = omega (
        arith,
        count-append (is_recent sw.window later) history (repeated r.now n),
        count-append (is_recent sw.window later) (drop_expired r.cleaned sw.window sw.timestamps)
            (repeated r.now n),
        refused-IsWindow.same later l,
      )

  granted_at :
      (n : ℤ)
      → is_within (length (drop_expired r.cleaned sw.window sw.timestamps)) n sw.rate ≡ true
      → IsWindow r.now (history ++ stamps r.now n) (with_stamps (stamps r.now n) cleaned)
  granted_at (pos n) e = granted-IsWindow n (leb→le _ _ e)
  granted_at (negsuc n) e =
      subst (λ h. IsWindow r.now h (with_stamps [] cleaned)) (sym (append-nil history))
        (subst (λ ts. IsWindow r.now history (record cleaned { timestamps = ts }))
          (sym (append-nil cleaned.timestamps)) refused-IsWindow)

  abbrev Stepped : Bool × SlidingWindowLimiter → Type 0
  Stepped a =
      (a.0 ≡ counter_allows sw.window sw.rate r history)
      × IsWindow r.now (history ++ granted_stamps r a.0) a.1
      × (a.1.window ≡ sw.window)
      × (a.1.rate ≡ sw.rate)

  -- The answer is that of the counter, and the limiter agrees with the history that follows.
  pub allow_n-IsWindow :
      ((allow_n r.cleaned r.now r.n sw).0 ≡ counter_allows sw.window sw.rate r history)
      × IsWindow r.now
          (history ++ granted_stamps r (allow_n r.cleaned r.now r.n sw).0)
          (allow_n r.cleaned r.now r.n sw).1
      × ((allow_n r.cleaned r.now r.n sw).1.window ≡ sw.window)
      × ((allow_n r.cleaned r.now r.n sw).1.rate ≡ sw.rate)
  allow_n-IsWindow =
      let counted = ap (λ c. is_within c r.n sw.rate) cleaned_length in
      elim (Bool-cases
        (is_within (length (drop_expired r.cleaned sw.window sw.timestamps)) r.n sw.rate)) [
          | inl e ↦
              subst Stepped (sym (took e))
                (sym e ∙ counted, granted_at r.n e, unfold cleanup in refl, unfold cleanup in refl)
          | inr e ↦ subst Stepped (sym (took_nothing e)) (
            sym e ∙ counted,
            subst (λ h. IsWindow r.now h cleaned) (sym (append-nil history)) refused-IsWindow,
            unfold cleanup in refl,
            unfold cleanup in refl,
          )
        ]
