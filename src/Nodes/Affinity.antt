-- ===== src/Nodes/Affinity.antt =====
-- Sticky scheduling: AffinityMap of pkg/scheduler/affinity.go and selectNodeForTask of
-- pkg/scheduler/scheduler.go. The map is there exactly when stickiness is enabled.
use dagens_public.Prelude.{
  ℕ, ◌+◌, ◌-◌, Bool, true, false, not, ◌||◌, Option, none, some, List, [], ◌∷◌, ltb, ◌==◌,
  if◌then◌else◌,
}
use dagens_public.Prelude.Maps.{Map, lookup, insert, delete}
use dagens_public.Nodes.{AffinityEntry, Nodes, node_has_available_capacity, select_node_by_capacity}

unfoldable pub affinity_get : ℕ → Nodes → Option AffinityEntry
affinity_get key s = lookup key s.affinity

unfoldable pub affinity_set : ℕ → ℕ → ℕ → Nodes → Nodes
affinity_set key node now s = record s {
  affinity =
      insert key (record { node_id = node; created_at = now; last_used_at = now; hit_count = 1 })
        s.affinity;
}

touch : Option AffinityEntry → ℕ → ℕ → Nodes → Bool × Nodes
touch none key now s = (false, s)
touch (some entry) key now s = (
  true,
  record s {
    affinity =
        insert key (record entry { last_used_at = now; hit_count = entry.hit_count + 1 })
          s.affinity;
  },
)

unfoldable pub affinity_touch : ℕ → ℕ → Nodes → Bool × Nodes
unfolding touch
affinity_touch key now s = touch (lookup key s.affinity) key now s

unfoldable pub affinity_delete : ℕ → Nodes → Nodes
affinity_delete key s = record s { affinity = delete key s.affinity }

-- The entries that have not been idle for longer than the TTL.
keep_fresh : ℕ → ℕ → Map AffinityEntry → Map AffinityEntry
keep_fresh now ttl [] = []
keep_fresh now ttl ((key, entry) ∷ entries) =
    if ltb ttl (now - entry.last_used_at)
    then keep_fresh now ttl entries
    else (key, entry) ∷ keep_fresh now ttl entries

unfoldable pub cleanup_expired : ℕ → Nodes → Nodes
unfolding keep_fresh
cleanup_expired now s = record s { affinity = keep_fresh now s.config.affinity_ttl s.affinity }

-- Membership in `healthyNodeSet`.
unfoldable pub is_healthy : ℕ → List ℕ → Bool
is_healthy node [] = false
is_healthy node (n ∷ nodes) = if node == n then true else is_healthy node nodes

pub record AffinityResult : Type 0 where
  pub node_id : ℕ
  pub is_hit : Bool
  pub is_stale : Bool
  pub partition_key : ℕ

abbrev pub start_result : ℕ → AffinityResult
start_result key = record { node_id = 0; is_hit = false; is_stale = false; partition_key = key }

-- A node that selectNodeByCapacity found; `none` is the answer false.
unfoldable pub select_free :
    (ℕ → Nodes → Nodes) → AffinityResult → Option ℕ × Nodes → Option ℕ × AffinityResult × Nodes
select_free keep r (none, s) = (none, r, s)
select_free keep r (some node, s) = (some node, record r { node_id = node }, keep node s)

-- No usable affinity: select a node and remember it.
unfoldable pub select_miss :
    ℕ → List ℕ → ℕ → AffinityResult → Nodes → Option ℕ × AffinityResult × Nodes
select_miss now nodes key r s =
    select_free (λ node. affinity_set key node now) r (select_node_by_capacity now nodes s)

unfoldable pub select_sticky :
    Option AffinityEntry → ℕ → List ℕ → ℕ → Nodes → Option ℕ × AffinityResult × Nodes
select_sticky none now nodes key s = select_miss now nodes key (start_result key) s
select_sticky (some entry) now nodes key s =
    if not (is_healthy entry.node_id nodes)
    then select_miss now nodes key (record (start_result key) { is_stale = true })
        (affinity_delete key s)
    else let (free, s') = node_has_available_capacity entry.node_id now s in
      if not free
      then select_miss now nodes key (start_result key) s'
      else let (touched, s'') = affinity_touch key now s' in
        (
          some entry.node_id,
          record (start_result key) { node_id = entry.node_id; is_hit = true },
          s'',
        )

-- The partition key 0 is the empty one.
unfoldable pub select_node_for_task : ℕ → List ℕ → ℕ → Nodes → Option ℕ × AffinityResult × Nodes
unfolding select_sticky select_miss select_free
select_node_for_task now nodes key s =
    if not s.config.enable_stickiness || key == 0
    then select_free (λ node s'. s') (start_result key) (select_node_by_capacity now nodes s)
    else select_sticky (affinity_get key s) now nodes key s
