-- ===== src/Prelude/Sort.antt =====
-- `sort.Slice` by a numeric key, as a stable insertion sort. The Go sort is not stable: entries with
-- equal keys may come in any order there, and keep their order here.
use Prim.Native.Nat.{ℕ, ◌≤◌}
use mathlib.Core.Path.{◌≡◌, refl}
use mathlib.Core.List.{List, [], ◌∷◌, ◌++◌, Perm}
use mathlib.Core.List.Perm
use mathlib.Core.Logic.{inl, inr}
use native.Mathlib.Omega.{arith}
use dagens_public.Prelude.Tests.{leb, if◌then◌else◌, Bool-cases}
use dagens_public.Prelude.Lists.{All, All-append, Any}

module _ {ℓ} {A : Type ℓ} (key : A → ℕ) where
  unfoldable pub insert_sorted : A → List A → List A
  insert_sorted x [] = x ∷ []
  insert_sorted x (y ∷ ys) = if leb (key x) (key y) then x ∷ y ∷ ys else y ∷ insert_sorted x ys

  unfoldable pub sort_by : List A → List A
  sort_by [] = []
  sort_by (x ∷ xs) = insert_sorted x (sort_by xs)

  -- Keys do not fall along the list.
  abbrev pub IsSorted : List A → Type 0
  IsSorted [] = Unit
  IsSorted (x ∷ xs) = All (λ y. key x ≤ key y) xs × IsSorted xs

  All-insert_sorted :
      (n : ℕ) (x : A) (xs : List A)
      → n ≤ key x
      → All (λ y. n ≤ key y) xs
      → All (λ y. n ≤ key y) (insert_sorted x xs)
  unfolding insert_sorted
  All-insert_sorted n x [] h a = (h, tt)
  All-insert_sorted n x (y ∷ ys) h a = ground (arith, All-insert_sorted n x ys h a.1)

  All-weaken : (m n : ℕ) (xs : List A) → m ≤ n → All (λ y. n ≤ key y) xs → All (λ y. m ≤ key y) xs
  All-weaken m n [] h a = tt
  All-weaken m n (x ∷ xs) h a = (omega arith, All-weaken m n xs h a.1)

  pub insert_sorted-IsSorted : (x : A) (xs : List A) → IsSorted xs → IsSorted (insert_sorted x xs)
  unfolding insert_sorted
  insert_sorted-IsSorted x [] s = (tt, tt)
  insert_sorted-IsSorted x (y ∷ ys) s = ground (
    arith,
    insert_sorted-IsSorted x ys s.1,
    All-insert_sorted (key y) x ys,
    All-weaken (key x) (key y) ys,
  )

  pub sort_by-IsSorted : (xs : List A) → IsSorted (sort_by xs)
  unfolding sort_by
  sort_by-IsSorted [] = tt
  sort_by-IsSorted (x ∷ xs) = insert_sorted-IsSorted x (sort_by xs) (sort_by-IsSorted xs)

  insert_sorted-Any :
      (P : A → Type 0) (x : A) (xs : List A) → Any P (x ∷ xs) → Any P (insert_sorted x xs)
  unfolding insert_sorted
  insert_sorted-Any P x [] h = h
  insert_sorted-Any P x (y ∷ ys) h = elim (Bool-cases (leb (key x) (key y))) [
    | inl e ↦ rw e h
    | inr e ↦ rw e (elim h [
      | inl p ↦ inr (insert_sorted-Any P x ys (inl p))
      | inr (inl q) ↦ inl q
      | inr (inr q) ↦ inr (insert_sorted-Any P x ys (inr q))
    ])
  ]

  pub sort_by-Any : (P : A → Type 0) (xs : List A) → Any P xs → Any P (sort_by xs)
  unfolding sort_by
  sort_by-Any P [] h = h
  sort_by-Any P (x ∷ xs) h =
      insert_sorted-Any P x (sort_by xs)
        (elim h [ inl p ↦ inl p | inr q ↦ inr (sort_by-Any P xs q) ])

  pub insert_sorted-perm : (x : A) (xs : List A) → Perm (insert_sorted x xs) (x ∷ xs)
  unfolding insert_sorted
  insert_sorted-perm x [] = Perm.refl _
  insert_sorted-perm x (y ∷ ys) = elim (Bool-cases (leb (key x) (key y))) [
    | inl e ↦ rw e (Perm.refl _)
    | inr e ↦ rw e (Perm.trans (Perm.cons y (insert_sorted-perm x ys)) (Perm.swap x y ys))
  ]

  pub sort_by-perm : (xs : List A) → Perm (sort_by xs) xs
  unfolding sort_by
  sort_by-perm [] = Perm.refl _
  sort_by-perm (x ∷ xs) =
      Perm.trans (insert_sorted-perm x (sort_by xs)) (Perm.cons x (sort_by-perm xs))

  insert_sorted-All {κ} :
      (P : A → Type κ) (x : A) (xs : List A) → P x → All P xs → All P (insert_sorted x xs)
  unfolding insert_sorted
  insert_sorted-All P x [] h a = (h, tt)
  insert_sorted-All P x (y ∷ ys) h a = elim (Bool-cases (leb (key x) (key y))) [
    | inl e ↦ rw e (h, a)
    | inr e ↦ rw e (a.0, insert_sorted-All P x ys h a.1)
  ]

  pub sort_by-All {κ} : (P : A → Type κ) (xs : List A) → All P xs → All P (sort_by xs)
  unfolding sort_by
  sort_by-All P [] a = tt
  sort_by-All P (x ∷ xs) a = insert_sorted-All P x (sort_by xs) a.0 (sort_by-All P xs a.1)

  insert_sorted-All_back {κ} :
      (P : A → Type κ) (x : A) (xs : List A) → All P (insert_sorted x xs) → P x × All P xs
  unfolding insert_sorted
  insert_sorted-All_back P x [] a = a
  insert_sorted-All_back P x (y ∷ ys) a = elim (Bool-cases (leb (key x) (key y))) [
    | inl e ↦ rw e at a
    | inr e ↦
        let b : P y × All P (insert_sorted x ys) = rw e at a in
        let (px, rest) = insert_sorted-All_back P x ys b.1 in (px, (b.0, rest))
  ]

  pub sort_by-All_back {κ} : (P : A → Type κ) (xs : List A) → All P (sort_by xs) → All P xs
  unfolding sort_by
  sort_by-All_back P [] a = tt
  sort_by-All_back P (x ∷ xs) a =
      let (px, rest) = insert_sorted-All_back P x (sort_by xs) a in (px, sort_by-All_back P xs rest)

  insert_sorted_first :
      (x : A) (xs : List A) → All (λ y. key x ≤ key y) xs → insert_sorted x xs ≡ x ∷ xs
  unfolding insert_sorted
  insert_sorted_first x [] a = refl
  insert_sorted_first x (y ∷ ys) a = ground arith

  -- A sorted list stays as it is.
  pub sort_by_sorted : (xs : List A) → IsSorted xs → sort_by xs ≡ xs
  unfolding sort_by
  sort_by_sorted [] a = refl
  sort_by_sorted (x ∷ xs) a = rw (sort_by_sorted xs a.1) (insert_sorted_first x xs a.0)

  pub IsSorted-append :
      (xs : List A) (x : A) → IsSorted xs → All (λ y. key y ≤ key x) xs → IsSorted (xs ++ x ∷ [])
  IsSorted-append [] x s a = (tt, tt)
  IsSorted-append (y ∷ ys) x s a =
      (All-append (λ z. key y ≤ key z) ys (x ∷ []) s.0 (a.0, tt), IsSorted-append ys x s.1 a.1)
