-- ===== src/Nodes/Selection.antt =====
-- The scan of selectNodeByCapacity (pkg/scheduler/scheduler.go) against what every node offers.
use dagens_public.Prelude.{
  ℕ, ◌≡◌, inl, inr, Bool, Option, none, some, if◌then◌else◌, arith, Option-cases,
}
use dagens_public.Prelude.Maps.{lookup, lookup-insert, lookup-delete}
use dagens_public.Prelude.Int.{ℤ}
use dagens_public.Nodes.{
  Nodes, available_capacity, is_capacity_fresh, default_capacity, get_or_create_node_capacity,
  is_in_dispatch_cooldown, Scan, scan_node, scan_step,
}

-- What a node offers at a time: nothing while it cools down, else its free capacity and whether its
-- report is fresh. A node without an entry offers the default.
unfoldable pub offer : ℕ → ℕ → Nodes → Option (ℤ × Bool)
offer now node s =
    if (is_in_dispatch_cooldown node now s).0
    then none
    else let capacity = (get_or_create_node_capacity node now s).0 in
      some (available_capacity capacity, is_capacity_fresh now s.config capacity)

unfoldable pub scan_offer : ℕ → Option (ℤ × Bool) → Scan → Scan
scan_offer i none c = c
scan_offer i (some (available, fresh)) c = scan_node i available fresh c

-- A round scans what its node offers.
pub scan_step-offer :
    (now i node : ℕ) (c : Scan) (s : Nodes)
    → (scan_step now i node c s).0 ≡ scan_offer i (offer now node s) c
unfolding scan_step offer is_in_dispatch_cooldown get_or_create_node_capacity scan_offer
scan_step-offer now i node c s = elim (Option-cases (lookup node s.dispatch_cooldowns)) [
  | inl e ↦ elim (Option-cases (lookup node s.capacities)) [
    | inl n ↦ ground arith
    | inr (c, n) ↦ ground arith
  ]
  | inr (x, e) ↦ elim (Option-cases (lookup node s.capacities)) [
    | inl n ↦ ground arith
    | inr (c, n) ↦ ground arith
  ]
]

-- A round does not change what any node offers.
pub offer-scan_step :
    (now i node : ℕ) (c : Scan) (s : Nodes) (m : ℕ)
    → offer now m (scan_step now i node c s).1 ≡ offer now m s
unfolding scan_step offer is_in_dispatch_cooldown get_or_create_node_capacity scan_offer
offer-scan_step now i node c s m = ground (
  arith,
  lookup-delete node m s.dispatch_cooldowns,
  lookup-insert node m (default_capacity now s.config) s.capacities,
)
