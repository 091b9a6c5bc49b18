-- ===== src/Nodes.antt =====
-- The worker nodes as pkg/scheduler/scheduler.go sees them: capacities, dispatch cooldowns and the
-- affinity of partitions (pkg/scheduler/affinity.go). A node is its identifier. The time of a call is
-- its argument `now`, one time for all the clock readings of the call, later than the zero time 0.
-- The counter `node_index` is an unbounded number.
pub mod Affinity
pub mod BestOffers
pub mod Best
pub mod Slots
pub mod Sticky
pub mod Selection
use dagens_public.Prelude.{
  ℕ, suc, ◌+◌, ◌-◌, ◌%◌, Bool, true, false, not, ◌&&◌, ◌||◌, Option, none, some, List, [], ◌∷◌,
  ◌++◌, ltb, leb, ◌==◌, if◌then◌else◌, length, get_elem?,
}
use dagens_public.Prelude.Maps.{Map, lookup, insert, delete}
use dagens_public.Prelude.Int.{ℤ, pos, negsuc, sub_ℕ, ltb_ℤ, eqb_ℤ, pos_part, neg_part}

pub record NodeCapacity : Type 0 where
  pub reserved_in_flight : ℕ
  pub reported_in_flight : ℕ
  pub max_concurrency : ℕ
  pub last_updated : ℕ

-- The hit counter is an unbounded number.
pub record AffinityEntry : Type 0 where
  pub node_id : ℕ
  pub created_at : ℕ
  pub last_used_at : ℕ
  pub hit_count : ℕ

pub record NodesConfig : Type 0 where
  pub default_worker_max_concurrency : ℕ
  pub max_worker_concurrency_cap : ℕ
  pub capacity_ttl : ℕ
  pub dispatch_reject_cooldown : ℕ
  pub affinity_ttl : ℕ
  pub enable_stickiness : Bool

pub record Nodes : Type 0 where
  pub config : NodesConfig
  pub capacities : Map NodeCapacity
  pub dispatch_cooldowns : Map ℕ
  pub node_index : ℕ
  pub affinity : Map AffinityEntry

-- The entry that a node gets when it is first met.
unfoldable pub default_capacity : ℕ → NodesConfig → NodeCapacity
default_capacity now config = record {
  reserved_in_flight = 0;
  reported_in_flight = 0;
  max_concurrency = config.default_worker_max_concurrency;
  last_updated = now;
}

unfoldable pub get_or_create : Option NodeCapacity → ℕ → ℕ → Nodes → NodeCapacity × Nodes
get_or_create (some capacity) node_id now s = (capacity, s)
get_or_create none node_id now s =
    let capacity = default_capacity now s.config in
    (capacity, record s { capacities = insert node_id capacity s.capacities })

unfoldable pub get_or_create_node_capacity : ℕ → ℕ → Nodes → NodeCapacity × Nodes
unfolding get_or_create
get_or_create_node_capacity node_id now s =
    get_or_create (lookup node_id s.capacities) node_id now s

-- UpdateNodeCapacityAt: a negative report counts as 0, and one without a positive maximum gets the
-- default.
unfoldable pub update_node_capacity_at : ℕ → ℤ → ℤ → ℕ → ℕ → Nodes → Nodes
update_node_capacity_at node_id in_flight max_concurrency reported_at now s =
    let (capacity, s') = get_or_create_node_capacity node_id now s in
    let wanted : ℕ =
      if ltb_ℤ (pos 0) max_concurrency
      then pos_part max_concurrency
      else s.config.default_worker_max_concurrency in
    record s' {
      capacities =
          insert node_id
            (record capacity {
              reported_in_flight = pos_part in_flight;
              max_concurrency =
                  if ltb s.config.max_worker_concurrency_cap wanted
                  then s.config.max_worker_concurrency_cap
                  else wanted;
              last_updated = if reported_at == 0 then now else reported_at;
            })
            s'.capacities;
    }

unfoldable pub reserve_node_slot : ℕ → ℕ → Nodes → Nodes
reserve_node_slot node_id now s =
    let (capacity, s') = get_or_create_node_capacity node_id now s in
    record s' {
      capacities =
          insert node_id
            (record capacity {
              reserved_in_flight = capacity.reserved_in_flight + 1;
              last_updated = now;
            })
            s'.capacities;
    }

-- The count is not taken below 0.
unfoldable pub release_node_slot : ℕ → ℕ → Nodes → Nodes
release_node_slot node_id now s =
    let (capacity, s') = get_or_create_node_capacity node_id now s in
    record s' {
      capacities =
          insert node_id
            (record capacity {
              reserved_in_flight =
                  if ltb 0 capacity.reserved_in_flight
                  then capacity.reserved_in_flight - 1
                  else capacity.reserved_in_flight;
              last_updated = now;
            })
            s'.capacities;
    }

-- Free slots, negative where the node reports more work than its maximum.
unfoldable pub available_capacity : NodeCapacity → ℤ
available_capacity c = sub_ℕ c.max_concurrency (
    if ltb c.reserved_in_flight c.reported_in_flight
    then c.reported_in_flight
    else c.reserved_in_flight)

-- `now - last_updated` is at most the TTL; a report from the future is fresh.
unfoldable pub is_capacity_fresh : ℕ → NodesConfig → NodeCapacity → Bool
is_capacity_fresh now config c =
    if c.last_updated == 0 then false else leb (now - c.last_updated) config.capacity_ttl

in_cooldown : Option ℕ → ℕ → ℕ → Nodes → Bool × Nodes
in_cooldown none node_id now s = (false, s)
in_cooldown (some expiry) node_id now s =
    if ltb expiry now
    then (false, record s { dispatch_cooldowns = delete node_id s.dispatch_cooldowns })
    else (true, s)

-- An expired cooldown is removed when it is read.
unfoldable pub is_in_dispatch_cooldown : ℕ → ℕ → Nodes → Bool × Nodes
unfolding in_cooldown
is_in_dispatch_cooldown node_id now s =
    in_cooldown (lookup node_id s.dispatch_cooldowns) node_id now s

unfoldable pub mark_dispatch_cooldown : ℕ → ℕ → Nodes → Nodes
mark_dispatch_cooldown node_id now s = record s {
  dispatch_cooldowns =
      insert node_id (now + s.config.dispatch_reject_cooldown) s.dispatch_cooldowns;
}

unfoldable pub node_has_available_capacity : ℕ → ℕ → Nodes → Bool × Nodes
node_has_available_capacity node_id now s =
    let (cooling, s') = is_in_dispatch_cooldown node_id now s in
    if cooling
    then (false, s')
    else let (capacity, s'') = get_or_create_node_capacity node_id now s' in
      (ltb_ℤ (pos 0) (available_capacity capacity), s'')

-- The best free capacity so far among the fresh and the stale nodes, with the positions of the nodes
-- that have it.
pub record Scan : Type 0 where
  pub fresh_best_available : ℤ
  pub fresh_best_indexes : List ℕ
  pub stale_best_available : ℤ
  pub stale_best_indexes : List ℕ

unfoldable pub start_scan : Scan
start_scan = record {
  fresh_best_available = negsuc 0;
  fresh_best_indexes = [];
  stale_best_available = negsuc 0;
  stale_best_indexes = [];
}

-- One node that is not cooling down.
unfoldable pub scan_node : ℕ → ℤ → Bool → Scan → Scan
scan_node i available true c =
    if ltb_ℤ c.fresh_best_available available
    then record c { fresh_best_available = available; fresh_best_indexes = i ∷ [] }
    else if eqb_ℤ available c.fresh_best_available
    then record c { fresh_best_indexes = c.fresh_best_indexes ++ i ∷ [] }
    else c
scan_node i available false c =
    if ltb_ℤ c.stale_best_available available
    then record c { stale_best_available = available; stale_best_indexes = i ∷ [] }
    else if eqb_ℤ available c.stale_best_available
    then record c { stale_best_indexes = c.stale_best_indexes ++ i ∷ [] }
    else c

-- One round of the loop over the nodes.
unfoldable pub scan_step : ℕ → ℕ → ℕ → Scan → Nodes → Scan × Nodes
scan_step now i node c s =
    let (cooling, s') = is_in_dispatch_cooldown node now s in
    if cooling
    then (c, s')
    else let (capacity, s'') = get_or_create_node_capacity node now s' in
      (scan_node i (available_capacity capacity) (is_capacity_fresh now s''.config capacity) c, s'')

unfoldable pub scan_nodes : ℕ → ℕ → List ℕ → Scan → Nodes → Scan × Nodes
scan_nodes now i [] c s = (c, s)
scan_nodes now i (node ∷ nodes) c s =
    let (c', s') = scan_step now i node c s in scan_nodes now (suc i) nodes c' s'

-- `nodes[indexes[nodeIndex % len(indexes)]]`; `none` would be an index out of range.
unfoldable pub pick : List ℕ → List ℕ → ℕ → Option ℕ
pick nodes indexes k = elim (get_elem? indexes (k % length indexes)) [
  | none ↦ none
  | some i ↦ get_elem? nodes i
]

unfoldable pub choose : List ℕ → Scan → Nodes → Option ℕ × Nodes
unfolding pick
choose nodes c s =
    if ltb_ℤ (pos 0) c.fresh_best_available && ltb 0 (length c.fresh_best_indexes)
    then (pick nodes c.fresh_best_indexes s.node_index, record s { node_index = s.node_index + 1 })
    else if ltb 0 (length c.fresh_best_indexes)
    then (none, s)
    else if not (ltb_ℤ (pos 0) c.stale_best_available) || length c.stale_best_indexes == 0
    then (none, s)
    else (pick nodes c.stale_best_indexes s.node_index, record s { node_index = s.node_index + 1 })

unfoldable pub select_single : ℕ → ℕ → Nodes → Option ℕ × Nodes
select_single now node s =
    let (free, s') = node_has_available_capacity node now s in
    (if free then some node else none, s')

unfoldable pub select_among : ℕ → List ℕ → Nodes → Option ℕ × Nodes
select_among now nodes s = let (c, s') = scan_nodes now 0 nodes start_scan s in choose nodes c s'

-- selectNodeByCapacity: `none` is the answer false.
unfoldable pub select_node_by_capacity : ℕ → List ℕ → Nodes → Option ℕ × Nodes
unfolding select_single select_among choose pick
select_node_by_capacity now (node ∷ []) s = select_single now node s
select_node_by_capacity now nodes s = select_among now nodes s
