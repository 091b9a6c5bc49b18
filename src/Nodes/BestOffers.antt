-- ===== src/Nodes/BestOffers.antt =====
-- The loop of selectNodeByCapacity (pkg/scheduler/scheduler.go) finds the best offers.
use dagens_public.Prelude.{
  ℕ, suc, ◌≡◌, ◌≢◌, ◌<◌, inl, inr, refl, sym, ap, ◌∙◌, subst, Bool, true, false, Option, some, List,
  [], ◌∷◌, ◌++◌, arith, Option-cases, Bool-cases, All, All-append,
}
use native.Mathlib.Decide.{ℕ_discrete}
use dagens_public.Prelude.Int.{ℤ, pos, negsuc, ltb_ℤ, eqb_ℤ}
use dagens_public.Nodes.{Scan, start_scan, scan_node}
use dagens_public.Nodes.Selection.{scan_offer}

-- `best` and `indexes` are right for the offers of one kind among the first `n`.
pub record IsBest (o : ℕ → Option (ℤ × Bool)) (n : ℕ) (fresh : Bool) (best : ℤ) (indexes : List ℕ)
    : Type 0 where
  pub attained : All (λ i. (i < n) × (o i ≡ some (best, fresh))) indexes
  pub upper : (i : ℕ) (a : ℤ) → i < n → o i ≡ some (a, fresh) → ltb_ℤ best a ≡ false
  pub unset : indexes ≡ [] → best ≡ negsuc 0
  pub missed :
      indexes ≡ [] → (i : ℕ) (a : ℤ) → i < n → o i ≡ some (a, fresh) → ltb_ℤ a (negsuc 0) ≡ true

pub IsBest-start : (o : ℕ → Option (ℤ × Bool)) (fresh : Bool) → IsBest o 0 fresh (negsuc 0) []
IsBest-start o fresh = record {
  attained = tt;
  upper = λ i a lt e. absurd (omega arith);
  unset = λ e. refl;
  missed = λ none i a lt e. absurd (omega arith);
}

All-attained :
    (o : ℕ → Option (ℤ × Bool)) (n : ℕ) (fresh : Bool) (best : ℤ) (indexes : List ℕ)
    → All (λ i. (i < n) × (o i ≡ some (best, fresh))) indexes
    → All (λ i. (i < suc n) × (o i ≡ some (best, fresh))) indexes
All-attained o n fresh best [] h = tt
All-attained o n fresh best (i ∷ is) h = ((omega arith, h.0.1), All-attained o n fresh best is h.1)

-- An offer that is not of this kind changes nothing.
IsBest-other :
    (o : ℕ → Option (ℤ × Bool)) (n : ℕ) (fresh : Bool) (best : ℤ) (indexes : List ℕ)
    → ((a : ℤ) → o n ≢ some (a, fresh))
    → IsBest o n fresh best indexes
    → IsBest o (suc n) fresh best indexes
IsBest-other o n fresh best indexes ne k = record {
  attained = All-attained o n fresh best indexes k.attained;
  upper = λ i a lt e. elim (ℕ_discrete i n) [
    | yes p ↦ absurd (ne a (subst (λ (j : ℕ). o j ≡ some (a, fresh)) p e))
    | no q ↦ k.upper i a (omega arith) e
  ];
  unset = k.unset;
  missed = λ none i a lt e. elim (ℕ_discrete i n) [
    | yes p ↦ absurd (ne a (subst (λ (j : ℕ). o j ≡ some (a, fresh)) p e))
    | no q ↦ k.missed none i a (omega arith) e
  ];
}

some_inj : (p q : ℤ × Bool) → some p ≡ some q → p.0 ≡ q.0
some_inj p q e = ground arith

eqb_ℤ-eq : (a b : ℤ) → eqb_ℤ a b ≡ true → a ≡ b
eqb_ℤ-eq (pos a) (pos b) h = ap pos (ground arith)
eqb_ℤ-eq (pos a) (negsuc b) h = absurd (ground arith)
eqb_ℤ-eq (negsuc a) (pos b) h = absurd (ground arith)
eqb_ℤ-eq (negsuc a) (negsuc b) h = ap negsuc (ground arith)

append-nonempty : (xs : List ℕ) (n : ℕ) → xs ++ n ∷ [] ≢ []
append-nonempty [] n e = ground arith
append-nonempty (x ∷ xs) n e = ground arith

module _ (o : ℕ → Option (ℤ × Bool)) (n : ℕ) (fresh : Bool) (best available : ℤ) (indexes : List ℕ)
    (here : o n ≡ some (available, fresh)) (k : IsBest o n fresh best indexes) where
  abbrev Offered : ℕ → ℤ → Type 0
  Offered i a = o i ≡ some (a, fresh)

  -- The offer of the last of the first `suc n` is the one at hand.
  last_offer : (i : ℕ) (a : ℤ) → i ≡ n → Offered i a → available ≡ a
  last_offer i a p e =
      some_inj (available, fresh) (a, fresh) (sym here ∙ subst (λ (j : ℕ). Offered j a) p e)

  IsBest-better : ltb_ℤ best available ≡ true → IsBest o (suc n) fresh available (n ∷ [])
  IsBest-better h = record {
    attained = ((omega arith, here), tt);
    upper = λ i a lt e. elim (ℕ_discrete i n) [
      | yes p ↦ ground (arith, last_offer i a p e)
      | no q ↦ ground (arith, k.upper i a (omega arith) e)
    ];
    unset = λ e. absurd (ground arith);
    missed = λ e i a lt e'. absurd (ground arith);
  }

  IsBest-equal : eqb_ℤ available best ≡ true → IsBest o (suc n) fresh best (indexes ++ n ∷ [])
  IsBest-equal h = record {
    attained =
        All-append _ indexes (n ∷ []) (All-attained o n fresh best indexes k.attained)
          ((omega arith, here ∙ ap (λ a. some (a, fresh)) (eqb_ℤ-eq available best h)), tt);
    upper = λ i a lt e. elim (ℕ_discrete i n) [
      | yes p ↦ ground (arith, last_offer i a p e)
      | no q ↦ k.upper i a (omega arith) e
    ];
    unset = λ e. absurd (append-nonempty indexes n e);
    missed = λ e i a lt e'. absurd (append-nonempty indexes n e);
  }

  IsBest-worse :
      ltb_ℤ best available ≡ false
      → eqb_ℤ available best ≡ false
      → IsBest o (suc n) fresh best indexes
  IsBest-worse h h' = record {
    attained = All-attained o n fresh best indexes k.attained;
    upper = λ i a lt e. elim (ℕ_discrete i n) [
      | yes p ↦ ground (arith, last_offer i a p e)
      | no q ↦ k.upper i a (omega arith) e
    ];
    unset = k.unset;
    missed = λ none i a lt e. elim (ℕ_discrete i n) [
      | yes p ↦ ground (arith, last_offer i a p e, k.unset none)
      | no q ↦ k.missed none i a (omega arith) e
    ];
  }

-- The scan is right for the first `n` offers.
pub record IsScan (o : ℕ → Option (ℤ × Bool)) (n : ℕ) (c : Scan) : Type 0 where
  pub fresh : IsBest o n true c.fresh_best_available c.fresh_best_indexes
  pub stale : IsBest o n false c.stale_best_available c.stale_best_indexes

pub IsScan-start : (o : ℕ → Option (ℤ × Bool)) → IsScan o 0 start_scan
unfolding start_scan
IsScan-start o = record { fresh = IsBest-start o true; stale = IsBest-start o false }

scan_node-IsScan :
    (o : ℕ → Option (ℤ × Bool)) (n : ℕ) (c : Scan) (available : ℤ) (fresh : Bool)
    → o n ≡ some (available, fresh)
    → IsScan o n c
    → IsScan o (suc n) (scan_node n available fresh c)
unfolding scan_node
scan_node-IsScan o n c available true e k =
    elim (Bool-cases (ltb_ℤ c.fresh_best_available available)) [
      | inl h ↦ rw h (record {
        fresh = IsBest-better o n true _ available _ e k.fresh h;
        stale = IsBest-other o n false _ _ (λ a e'. ground arith) k.stale;
      })
      | inr h ↦ elim (Bool-cases (eqb_ℤ available c.fresh_best_available)) [
        | inl h' ↦
            rw (h, h')
              (record {
                fresh = IsBest-equal o n true _ available _ e k.fresh h';
                stale = IsBest-other o n false _ _ (λ a e'. ground arith) k.stale;
              })
        | inr h' ↦
            rw (h, h')
              (record {
                fresh = IsBest-worse o n true _ available _ e k.fresh h h';
                stale = IsBest-other o n false _ _ (λ a e'. ground arith) k.stale;
              })
      ]
    ]
scan_node-IsScan o n c available false e k =
    elim (Bool-cases (ltb_ℤ c.stale_best_available available)) [
      | inl h ↦ rw h (record {
        stale = IsBest-better o n false _ available _ e k.stale h;
        fresh = IsBest-other o n true _ _ (λ a e'. ground arith) k.fresh;
      })
      | inr h ↦ elim (Bool-cases (eqb_ℤ available c.stale_best_available)) [
        | inl h' ↦
            rw (h, h')
              (record {
                stale = IsBest-equal o n false _ available _ e k.stale h';
                fresh = IsBest-other o n true _ _ (λ a e'. ground arith) k.fresh;
              })
        | inr h' ↦
            rw (h, h')
              (record {
                stale = IsBest-worse o n false _ available _ e k.stale h h';
                fresh = IsBest-other o n true _ _ (λ a e'. ground arith) k.fresh;
              })
      ]
    ]

-- One offer more.
pub scan_offer-IsScan :
    (o : ℕ → Option (ℤ × Bool)) (n : ℕ) (c : Scan)
    → IsScan o n c
    → IsScan o (suc n) (scan_offer n (o n) c)
unfolding scan_offer
scan_offer-IsScan o n c k = elim (Option-cases (o n)) [
  | inl e ↦
      subst (λ x. IsScan o (suc n) (scan_offer n x c)) (sym e)
        (record {
          fresh = IsBest-other o n true _ _ (λ a e'. ground arith) k.fresh;
          stale = IsBest-other o n false _ _ (λ a e'. ground arith) k.stale;
        })
  | inr ((available, fresh), e) ↦
      subst (λ x. IsScan o (suc n) (scan_offer n x c)) (sym e)
        (scan_node-IsScan o n c available fresh e k)
]
