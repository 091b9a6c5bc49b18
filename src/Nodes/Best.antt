-- ===== src/Nodes/Best.antt =====
-- selectNodeByCapacity of pkg/scheduler/scheduler.go selects a best node.
use dagens_public.Prelude.{
  ℕ, zero, suc, ◌%◌, ◌&&◌, ◌+◌, ◌≡◌, ◌<◌, inl, inr, refl, sym, ap, ◌∙◌, subst, Bool, true, false,
  Option, none, some, List, [], ◌∷◌, arith, Option-cases, Bool-cases, All, length, get_elem?, ltb,
}
use dagens_public.Prelude.Int.{ℤ, pos, negsuc, ltb_ℤ}
use dagens_public.Nodes.{
  Nodes, Scan, start_scan, scan_step, scan_nodes, select_node_by_capacity, choose, pick,
  select_among, select_single, node_has_available_capacity, is_in_dispatch_cooldown,
  get_or_create_node_capacity, available_capacity, is_capacity_fresh, lookup,
}
use dagens_public.Nodes.Selection.{offer, scan_offer, scan_step-offer, offer-scan_step}
use dagens_public.Nodes.BestOffers.{IsBest, IsScan, IsScan-start, scan_offer-IsScan}

abbrev offer_of : ℕ → Nodes → Option ℕ → Option (ℤ × Bool)
offer_of now s none = none
offer_of now s (some node) = offer now node s

-- What the i-th node of a list offers.
abbrev offer_at : ℕ → List ℕ → Nodes → ℕ → Option (ℤ × Bool)
offer_at now nodes s i = offer_of now s (get_elem? nodes i)

offer_at-scan_step :
    (now i node : ℕ) (c : Scan) (s : Nodes) (o : Option ℕ)
    → offer_of now (scan_step now i node c s).1 o ≡ offer_of now s o
offer_at-scan_step now i node c s none = refl
offer_at-scan_step now i node c s (some m) = offer-scan_step now i node c s m

-- From a scan that is right for the first nodes the loop goes on to one that is right for all.
scan_nodes-IsScan :
    (now : ℕ) (o : ℕ → Option (ℤ × Bool)) (nodes : List ℕ) (i : ℕ) (c : Scan) (s : Nodes)
    → ((j : ℕ) → o (i + j) ≡ offer_at now nodes s j)
    → IsScan o i c
    → IsScan o (i + length nodes) (scan_nodes now i nodes c s).0
unfolding scan_nodes
scan_nodes-IsScan now o [] i c s same k = subst (λ (n : ℕ). IsScan o n c) (omega arith) k
scan_nodes-IsScan now o (node ∷ nodes) i c s same k =
    subst (λ (n : ℕ). IsScan o n (scan_nodes now i (node ∷ nodes) c s).0) (omega arith)
      (scan_nodes-IsScan now o nodes (suc i) (scan_step now i node c s).0
        (scan_step now i node c s).1
        (λ j.
          ap o (omega arith)
          ∙ same (suc j)
          ∙ sym (offer_at-scan_step now i node c s (get_elem? nodes j)))
        (subst (IsScan o (suc i)) (sym (scan_step-offer now i node c s)) (
          subst (λ x. IsScan o (suc i) (scan_offer i x c)) (ap o (omega arith) ∙ same 0)
            (scan_offer-IsScan o i c k))))

-- The whole loop.
start_scan-IsScan :
    (now : ℕ) (nodes : List ℕ) (s : Nodes)
    → IsScan (offer_at now nodes s) (length nodes) (scan_nodes now 0 nodes start_scan s).0
start_scan-IsScan now nodes s =
    subst (λ (n : ℕ). IsScan (offer_at now nodes s) n (scan_nodes now 0 nodes start_scan s).0)
      (omega arith)
      (scan_nodes-IsScan now (offer_at now nodes s) nodes 0 start_scan s
        (λ j. ap (offer_at now nodes s) (omega arith)) (IsScan-start (offer_at now nodes s)))

-- A node that may be selected: it is one of the nodes and has free capacity, no node of its kind,
-- fresh or stale, has more, and if it is stale then a fresh node is short of two slots or more.
pub record IsChoice (now : ℕ) (nodes : List ℕ) (s : Nodes) (node : ℕ) : Type 0 where
  pub at : ℕ
  pub available : ℤ
  pub fresh : Bool
  pub listed : get_elem? nodes at ≡ some node
  pub offered : offer now node s ≡ some (available, fresh)
  pub positive : ltb_ℤ (pos 0) available ≡ true
  pub best :
      (j m : ℕ) (a : ℤ)
      → get_elem? nodes j ≡ some m
      → offer now m s ≡ some (a, fresh)
      → ltb_ℤ available a ≡ false
  pub fresh_first :
      fresh ≡ false
      → (j m : ℕ) (a : ℤ) → get_elem? nodes j ≡ some m
      → offer now m s ≡ some (a, true)
      → ltb_ℤ a (negsuc 0) ≡ true

get_elem?_below : (l : List ℕ) (i x : ℕ) → get_elem? l i ≡ some x → i < length l
get_elem?_below [] i x h = absurd (ground arith)
get_elem?_below (y ∷ l) zero x h = omega arith
get_elem?_below (y ∷ l) (suc i) x h = omega (arith, get_elem?_below l i x h)

All-get_elem? : (P : ℕ → Type 0) (l : List ℕ) (i x : ℕ) → All P l → get_elem? l i ≡ some x → P x
All-get_elem? P [] i x a h = absurd (ground arith)
All-get_elem? P (y ∷ l) zero x a h = subst P (ground arith) a.0
All-get_elem? P (y ∷ l) (suc i) x a h = All-get_elem? P l i x a.1 h

-- A node that is picked from the best of one kind.
module _ (now : ℕ) (nodes : List ℕ) (s : Nodes) (fresh : Bool) (best : ℤ) (indexes : List ℕ)
    (k : IsBest (offer_at now nodes s) (length nodes) fresh best indexes) where
  at_node :
      (j m : ℕ) (a : ℤ) (f : Bool)
      → get_elem? nodes j ≡ some m
      → offer now m s ≡ some (a, f)
      → offer_at now nodes s j ≡ some (a, f)
  at_node j m a f e h = ap (offer_of now s) e ∙ h

  pick-IsChoice :
      (n node : ℕ)
      → pick nodes indexes n ≡ some node
      → ltb_ℤ (pos 0) best ≡ true
      → (fresh ≡ false
          → (j m : ℕ) (a : ℤ) → get_elem? nodes j ≡ some m
          → offer now m s ≡ some (a, true)
          → ltb_ℤ a (negsuc 0) ≡ true)
      → IsChoice now nodes s node
  unfolding pick
  pick-IsChoice n node h positive first =
      elim (Option-cases (get_elem? indexes (n % length indexes))) [
        | inl e ↦ absurd (ground arith)
        | inr (i, e) ↦
            let listed : get_elem? nodes i ≡ some node = ground arith in
            record {
              at = i;
              available = best;
              fresh = fresh;
              listed = listed;
              offered =
                  ap (offer_of now s) (sym listed) ∙ (All-get_elem? _ indexes _ i k.attained e).1;
              positive = positive;
              best = λ j m a e' h'.
                  k.upper j a (get_elem?_below nodes j m e') (at_node j m a fresh e' h');
              fresh_first = first;
            }
      ]

none_long : (l : List ℕ) → ltb 0 (length l) ≡ false → l ≡ []
none_long [] h = refl
none_long (x ∷ l) h = absurd (ground arith)

choose-IsChoice :
    (now : ℕ) (nodes : List ℕ) (s s' : Nodes) (c : Scan) (node : ℕ)
    → IsScan (offer_at now nodes s) (length nodes) c
    → (choose nodes c s').0 ≡ some node
    → IsChoice now nodes s node
unfolding choose
choose-IsChoice now nodes s s' c node k h =
    elim (Bool-cases
      (ltb_ℤ (pos 0) c.fresh_best_available && ltb 0 (length c.fresh_best_indexes))) [
        | inl e ↦
            pick-IsChoice now nodes s true _ _ k.fresh s'.node_index node (ground arith)
              (ground arith) (λ e'. absurd (ground arith))
        | inr e ↦ elim (Bool-cases (ltb 0 (length c.fresh_best_indexes))) [
          | inl e' ↦ absurd (ground arith)
          | inr e' ↦
              pick-IsChoice now nodes s false _ _ k.stale s'.node_index node (ground arith)
                (ground arith)
                (λ e'' j m a at offered.
                  k.fresh.missed (none_long c.fresh_best_indexes e') j a
                    (get_elem?_below nodes j m at)
                    (at_node now nodes s true _ _ k.fresh j m a true at offered))
        ]
      ]

select_single_offer :
    (now only node : ℕ) (s : Nodes)
    → (select_single now only s).0 ≡ some node
    → let capacity = (get_or_create_node_capacity only now s).0 in
      (only ≡ node)
      × ltb_ℤ (pos 0) (available_capacity capacity) ≡ true
      × offer_of now s (some only)
        ≡ some (available_capacity capacity, is_capacity_fresh now s.config capacity)
unfolding select_single node_has_available_capacity offer is_in_dispatch_cooldown
    get_or_create_node_capacity
select_single_offer now only node s h = elim (Option-cases (lookup only s.dispatch_cooldowns)) [
  | inl e ↦ elim (Option-cases (lookup only s.capacities)) [
    | inl n ↦ (ground arith, ground arith, ground arith)
    | inr (c, n) ↦ (ground arith, ground arith, ground arith)
  ]
  | inr (x, e) ↦ elim (Option-cases (lookup only s.capacities)) [
    | inl n ↦ (ground arith, ground arith, ground arith)
    | inr (c, n) ↦ (ground arith, ground arith, ground arith)
  ]
]

alone :
    (now only j m : ℕ) (s : Nodes) (a : ℤ) (f : Bool)
    → get_elem? (only ∷ []) j ≡ some m
    → offer now m s ≡ some (a, f)
    → offer now only s ≡ some (a, f)
alone now only zero m s a f e h = subst (λ (k : ℕ). offer now k s ≡ some (a, f)) (ground arith) h
alone now only (suc j) m s a f e h = absurd (ground arith)

alone-IsChoice :
    (now only : ℕ) (s : Nodes) (available : ℤ) (fresh : Bool)
    → offer now only s ≡ some (available, fresh)
    → ltb_ℤ (pos 0) available ≡ true
    → IsChoice now (only ∷ []) s only
alone-IsChoice now only s available fresh offered positive = record {
  at = 0;
  available = available;
  fresh = fresh;
  listed = refl;
  offered = offered;
  positive = positive;
  best = λ j m a e h'. let h'' = alone now only j m s a fresh e h' in ground arith;
  fresh_first =
      λ stale j m a e h'. let h'' = alone now only j m s a true e h' in absurd (ground arith);
}

select_single-IsChoice :
    (now only node : ℕ) (s : Nodes)
    → (select_single now only s).0 ≡ some node
    → IsChoice now (only ∷ []) s node
select_single-IsChoice now only node s h =
    let (same, positive, offered) = select_single_offer now only node s h in
    subst (IsChoice now (only ∷ []) s) same (alone-IsChoice now only s _ _ offered positive)

-- A node that selectNodeByCapacity answers is one of the nodes, does not cool down, and has free
-- capacity. Of the nodes that do not cool down, it has the most free capacity among those with a
-- fresh report, or among those with a stale one; and if its own report is stale, then each of
-- them with a fresh report has at least two more tasks than slots.
pub select_node_by_capacity-IsChoice :
    (now : ℕ) (nodes : List ℕ) (s : Nodes) (node : ℕ)
    → (select_node_by_capacity now nodes s).0 ≡ some node
    → IsChoice now nodes s node
unfolding select_node_by_capacity select_among
select_node_by_capacity-IsChoice now [] s node h =
    choose-IsChoice now [] s _ _ node (start_scan-IsScan now [] s) h
select_node_by_capacity-IsChoice now (only ∷ []) s node h = select_single-IsChoice now only node s h
select_node_by_capacity-IsChoice now (first ∷ second ∷ nodes) s node h =
    choose-IsChoice now (first ∷ second ∷ nodes) s _ _ node
      (start_scan-IsScan now (first ∷ second ∷ nodes) s) h
