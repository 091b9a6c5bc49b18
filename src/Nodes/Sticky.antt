-- ===== src/Nodes/Sticky.antt =====
-- What selectNodeForTask of pkg/scheduler/scheduler.go promises of sticky scheduling.
use dagens_public.Prelude.{
  ℕ, zero, suc, ◌+◌, ◌≡◌, ◌≢◌, ◌∙◌, refl, sym, ap, subst, inl, inr, true, Option, none, some, List,
  [], ◌∷◌, ==_refl, arith, Option-cases, Bool-cases, get_elem?,
}
use dagens_public.Prelude.Maps.{lookup, lookup-insert_self}
use dagens_public.Nodes.{
  Nodes, AffinityEntry, node_has_available_capacity, select_node_by_capacity,
  is_in_dispatch_cooldown, get_or_create_node_capacity,
}
use dagens_public.Nodes.Affinity.{
  AffinityResult, is_healthy, select_free, select_miss, select_sticky, select_node_for_task,
  affinity_set, affinity_touch, affinity_get,
}
use dagens_public.Nodes.Best.{select_node_by_capacity-IsChoice}

get_elem?-is_healthy :
    (nodes : List ℕ) (i node : ℕ) → get_elem? nodes i ≡ some node → is_healthy node nodes ≡ true
unfolding is_healthy
get_elem?-is_healthy [] i node h = absurd (ground arith)
get_elem?-is_healthy (n ∷ nodes) zero node h = ground (arith, ==_refl node)
get_elem?-is_healthy (n ∷ nodes) (suc i) node h =
    ground (arith, get_elem?-is_healthy nodes i node h)

-- The node of an answer is one of the nodes.
abbrev Listed : List ℕ → Option ℕ → Type 0
Listed nodes none = Unit
Listed nodes (some node) = is_healthy node nodes ≡ true

select_node_by_capacity-Listed :
    (now : ℕ) (nodes : List ℕ) (s : Nodes) → Listed nodes (select_node_by_capacity now nodes s).0
select_node_by_capacity-Listed now nodes s =
    elim (Option-cases (select_node_by_capacity now nodes s).0) [
      | inl e ↦ rw e tt
      | inr (node, e) ↦
          let c = select_node_by_capacity-IsChoice now nodes s node e in
          rw e (get_elem?-is_healthy nodes c.at node c.listed)
    ]

-- What a sticky selection leaves: the answer is listed and the key is bound to it.
abbrev Bound : List ℕ → ℕ → Option ℕ → Nodes → Type 0
Bound nodes key none s = Unit
Bound nodes key (some node) s =
    (is_healthy node nodes ≡ true)
    × ((entry : AffinityEntry) × (affinity_get key s ≡ some entry) × (entry.node_id ≡ node))

select_free-Bound :
    (now : ℕ) (nodes : List ℕ) (key : ℕ) (r : AffinityResult) (c : Option ℕ × Nodes)
    → Listed nodes c.0
    → let t = select_free (λ node. affinity_set key node now) r c in Bound nodes key t.0 t.2
unfolding select_free affinity_set affinity_get
select_free-Bound now nodes key r (none, s) l = tt
select_free-Bound now nodes key r (some node, s) l =
    (l, (_, lookup-insert_self key _ s.affinity, refl))

select_miss-Bound :
    (now : ℕ) (nodes : List ℕ) (key : ℕ) (r : AffinityResult) (s : Nodes)
    → let t = select_miss now nodes key r s in Bound nodes key t.0 t.2
unfolding select_miss
select_miss-Bound now nodes key r s =
    select_free-Bound now nodes key r (select_node_by_capacity now nodes s)
      (select_node_by_capacity-Listed now nodes s)

free_affinity :
    (node now : ℕ) (s : Nodes) → (node_has_available_capacity node now s).1.affinity ≡ s.affinity
unfolding node_has_available_capacity is_in_dispatch_cooldown get_or_create_node_capacity
free_affinity node now s = elim (Option-cases (lookup node s.dispatch_cooldowns)) [
  | inl e ↦ elim (Option-cases (lookup node s.capacities)) [
    | inl n ↦ ground arith
    | inr (c, n) ↦ ground arith
  ]
  | inr (x, e) ↦ elim (Option-cases (lookup node s.capacities)) [
    | inl n ↦ ground arith
    | inr (c, n) ↦ ground arith
  ]
]

touched_entry :
    (key now : ℕ) (s : Nodes) (entry : AffinityEntry)
    → lookup key s.affinity ≡ some entry
    → (e : AffinityEntry) × (affinity_get key (affinity_touch key now s).1 ≡ some e)
      × (e.node_id ≡ entry.node_id)
unfolding affinity_touch affinity_get
touched_entry key now s entry h = (
  record entry { last_used_at = now; hit_count = entry.hit_count + 1 },
  rw h (lookup-insert_self key _ s.affinity),
  refl,
)

select_sticky-Bound :
    (o : Option AffinityEntry) (now : ℕ) (nodes : List ℕ) (key : ℕ) (s : Nodes)
    → affinity_get key s ≡ o
    → let t = select_sticky o now nodes key s in Bound nodes key t.0 t.2
unfolding select_sticky affinity_get
select_sticky-Bound none now nodes key s h = select_miss-Bound now nodes key _ s
select_sticky-Bound (some entry) now nodes key s h =
    elim (Bool-cases (is_healthy entry.node_id nodes)) [
      | inr e ↦ rw e (select_miss-Bound now nodes key _ _)
      | inl e ↦ elim (Bool-cases (node_has_available_capacity entry.node_id now s).0) [
        | inr e' ↦ rw (e, e') (select_miss-Bound now nodes key _ _)
        | inl e' ↦
            rw (e, e')
              (
                e,
                touched_entry key now (node_has_available_capacity entry.node_id now s).1 entry
                    (ap (lookup key) (free_affinity entry.node_id now s) ∙ h),
              )
      ]
    ]

-- With stickiness and a partition key, a node that selectNodeForTask answers is one of the healthy
-- nodes, and the key is bound to that node afterwards, whether by a hit, after a stale or a full
-- binding, or by a new one.
pub select_node_for_task-Bound :
    (now : ℕ) (nodes : List ℕ) (key : ℕ) (s : Nodes) (node : ℕ)
    → s.config.enable_stickiness ≡ true
    → key ≢ 0
    → (select_node_for_task now nodes key s).0 ≡ some node
    → (is_healthy node nodes ≡ true)
      × ((entry : AffinityEntry) × (affinity_get key (select_node_for_task now nodes key s).2
            ≡ some entry)
          × (entry.node_id ≡ node))
unfolding select_node_for_task
select_node_for_task-Bound now nodes key s node on set h =
    subst (λ (o : Option ℕ). Bound nodes key o (select_node_for_task now nodes key s).2) h
      (subst (λ (t : Option ℕ × AffinityResult × Nodes). Bound nodes key t.0 t.2) (sym sticky)
        (select_sticky-Bound (affinity_get key s) now nodes key s refl))
  where
    sticky :
        select_node_for_task now nodes key s ≡ select_sticky (affinity_get key s) now nodes key s
    sticky = ground arith
