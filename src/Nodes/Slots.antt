-- ===== src/Nodes/Slots.antt =====
-- The slots that pkg/scheduler/scheduler.go reserves on the nodes, and their reported capacities.
use dagens_public.Prelude.{
  ℕ, suc, ◌+◌, ◌-◌, ◌≡◌, ◌∙◌, refl, inl, inr, not, Option, none, some, List, [], ◌∷◌, ◌==◌, ◌||◌,
  if◌then◌else◌, arith, Option-cases, Bool-cases, ltb,
}
use dagens_public.Prelude.Maps.{lookup, lookup-insert}
use dagens_public.Nodes.{
  Nodes, NodeCapacity, default_capacity, get_or_create_node_capacity, reserve_node_slot,
  release_node_slot, is_in_dispatch_cooldown, Scan, scan_step, scan_nodes, start_scan, choose,
  select_single, select_among, select_node_by_capacity, node_has_available_capacity,
}
use dagens_public.Nodes.{AffinityEntry}
use dagens_public.Nodes.Affinity.{
  AffinityResult, start_result, is_healthy, select_free, select_miss, select_sticky,
  select_node_for_task, affinity_set, affinity_touch, affinity_delete, affinity_get,
}

abbrev slots : Option NodeCapacity → ℕ
slots none = 0
slots (some c) = c.reserved_in_flight

-- The slots that the scheduler holds on a node.
abbrev pub reserved : ℕ → Nodes → ℕ
reserved node s = slots (lookup node s.capacities)

-- The reserved slots of every node are the same.
abbrev pub SameSlots : Nodes → Nodes → Type 0
SameSlots s t = (m : ℕ) → reserved m t ≡ reserved m s

reserved_default :
    (now node : ℕ) (s : Nodes) → SameSlots s (get_or_create_node_capacity node now s).1
unfolding get_or_create_node_capacity default_capacity
reserved_default now node s m = elim (Option-cases (lookup node s.capacities)) [
  | inl e ↦ ground (arith, lookup-insert node m (default_capacity now s.config) s.capacities)
  | inr (c, e) ↦ ground arith
]

capacity_slots :
    (now node : ℕ) (s : Nodes)
    → (get_or_create_node_capacity node now s).0.reserved_in_flight ≡ reserved node s
unfolding get_or_create_node_capacity default_capacity
capacity_slots now node s = elim (Option-cases (lookup node s.capacities)) [
  | inl e ↦ ground arith
  | inr (c, e) ↦ ground arith
]

pub reserve_node_slot-reserved :
    (node now m : ℕ) (s : Nodes)
    → reserved m (reserve_node_slot node now s)
      ≡ (if node == m then reserved m s + 1 else reserved m s)
unfolding reserve_node_slot
reserve_node_slot-reserved node now m s = ground (
  arith,
  capacity_slots now node s,
  reserved_default now node s m,
  lookup-insert node m
      (record (get_or_create_node_capacity node now s).0 {
        reserved_in_flight = (get_or_create_node_capacity node now s).0.reserved_in_flight + 1;
        last_updated = now;
      })
      (get_or_create_node_capacity node now s).1.capacities,
)

pub release_node_slot-reserved :
    (node now m : ℕ) (s : Nodes)
    → reserved m (release_node_slot node now s)
      ≡ (if node == m then reserved m s - 1 else reserved m s)
unfolding release_node_slot
release_node_slot-reserved node now m s = ground (
  arith,
  capacity_slots now node s,
  reserved_default now node s m,
  lookup-insert node m
      (record (get_or_create_node_capacity node now s).0 {
        reserved_in_flight =
            if ltb 0 (get_or_create_node_capacity node now s).0.reserved_in_flight
            then (get_or_create_node_capacity node now s).0.reserved_in_flight - 1
            else (get_or_create_node_capacity node now s).0.reserved_in_flight;
        last_updated = now;
      })
      (get_or_create_node_capacity node now s).1.capacities,
)

cooldown_slots : (node now : ℕ) (s : Nodes) → SameSlots s (is_in_dispatch_cooldown node now s).1
unfolding is_in_dispatch_cooldown
cooldown_slots node now s m = elim (Option-cases (lookup node s.dispatch_cooldowns)) [
  | inl e ↦ ground arith
  | inr (c, e) ↦ ground arith
]

scan_step_slots : (now i node : ℕ) (c : Scan) (s : Nodes) → SameSlots s (scan_step now i node c s).1
unfolding scan_step
scan_step_slots now i node c s m = elim (Bool-cases (is_in_dispatch_cooldown node now s).0) [
  | inl e ↦ rw e (cooldown_slots node now s m)
  | inr e ↦ rw e (
      reserved_default now node (is_in_dispatch_cooldown node now s).1 m
      ∙ cooldown_slots node now s m)
]

scan_nodes_slots :
    (now i : ℕ) (nodes : List ℕ) (c : Scan) (s : Nodes) → SameSlots s (scan_nodes now i nodes c s).1
unfolding scan_nodes
scan_nodes_slots now i [] c s m = refl
scan_nodes_slots now i (node ∷ nodes) c s m =
    scan_nodes_slots now (suc i) nodes (scan_step now i node c s).0 (scan_step now i node c s).1 m
    ∙ scan_step_slots now i node c s m

free_slots : (node now : ℕ) (s : Nodes) → SameSlots s (node_has_available_capacity node now s).1
unfolding node_has_available_capacity
free_slots node now s m = elim (Bool-cases (is_in_dispatch_cooldown node now s).0) [
  | inl e ↦ rw e (cooldown_slots node now s m)
  | inr e ↦ rw e (
      reserved_default now node (is_in_dispatch_cooldown node now s).1 m
      ∙ cooldown_slots node now s m)
]

choose_slots : (nodes : List ℕ) (c : Scan) (s : Nodes) → SameSlots s (choose nodes c s).1
unfolding choose
choose_slots nodes c s m = ground arith

among_slots : (now : ℕ) (nodes : List ℕ) (s : Nodes) → SameSlots s (select_among now nodes s).1
unfolding select_among
among_slots now nodes s m =
    choose_slots nodes (scan_nodes now 0 nodes start_scan s).0
      (scan_nodes now 0 nodes start_scan s).1 m
    ∙ scan_nodes_slots now 0 nodes start_scan s m

pub select_node_by_capacity_slots :
    (now : ℕ) (nodes : List ℕ) (s : Nodes) → SameSlots s (select_node_by_capacity now nodes s).1
unfolding select_node_by_capacity select_single
select_node_by_capacity_slots now [] s m = among_slots now [] s m
select_node_by_capacity_slots now (only ∷ []) s m = free_slots only now s m
select_node_by_capacity_slots now (first ∷ second ∷ nodes) s m =
    among_slots now (first ∷ second ∷ nodes) s m

select_free_slots :
    (keep : ℕ → Nodes → Nodes) (r : AffinityResult) (c : Option ℕ × Nodes) (s : Nodes)
    → ((node : ℕ) (t : Nodes) → SameSlots t (keep node t))
    → SameSlots s c.1
    → SameSlots s (select_free keep r c).2
unfolding select_free
select_free_slots keep r (none, t) s h k m = k m
select_free_slots keep r (some node, t) s h k m = h node t m ∙ k m

select_miss_slots :
    (now : ℕ) (nodes : List ℕ) (key : ℕ) (r : AffinityResult) (s : Nodes)
    → SameSlots s (select_miss now nodes key r s).2
unfolding select_miss affinity_set
select_miss_slots now nodes key r s =
    select_free_slots (λ node. affinity_set key node now) r (select_node_by_capacity now nodes s) s
      (λ node t m. refl) (select_node_by_capacity_slots now nodes s)

touch_slots : (key now : ℕ) (s : Nodes) → SameSlots s (affinity_touch key now s).1
unfolding affinity_touch
touch_slots key now s m = elim (Option-cases (lookup key s.affinity)) [
  | inl e ↦ ground arith
  | inr (entry, e) ↦ ground arith
]

select_sticky_slots :
    (o : Option AffinityEntry) (now : ℕ) (nodes : List ℕ) (key : ℕ) (s : Nodes)
    → SameSlots s (select_sticky o now nodes key s).2
unfolding select_sticky affinity_delete
select_sticky_slots none now nodes key s m = select_miss_slots now nodes key _ s m
select_sticky_slots (some entry) now nodes key s m =
    elim (Bool-cases (is_healthy entry.node_id nodes)) [
      | inr e ↦ rw e (select_miss_slots now nodes key _ _ m)
      | inl e ↦ elim (Bool-cases (node_has_available_capacity entry.node_id now s).0) [
        | inr e' ↦
            rw (e, e')
              (select_miss_slots now nodes key _ (node_has_available_capacity entry.node_id now s).1
                  m
                ∙ free_slots entry.node_id now s m)
        | inl e' ↦
            rw (e, e')
              (touch_slots key now (node_has_available_capacity entry.node_id now s).1 m
                ∙ free_slots entry.node_id now s m)
      ]
    ]

pub select_node_for_task_slots :
    (now : ℕ) (nodes : List ℕ) (key : ℕ) (s : Nodes)
    → SameSlots s (select_node_for_task now nodes key s).2
unfolding select_node_for_task
select_node_for_task_slots now nodes key s m =
    elim (Bool-cases (not s.config.enable_stickiness || key == 0)) [
      | inl e ↦ rw e (
          select_free_slots (λ node s'. s') (start_result key) (select_node_by_capacity now nodes s)
            s (λ node t n. refl) (select_node_by_capacity_slots now nodes s) m)
      | inr e ↦ rw e (select_sticky_slots (affinity_get key s) now nodes key s m)
    ]
