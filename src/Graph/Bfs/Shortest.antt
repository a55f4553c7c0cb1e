-- ===== src/Graph/Bfs/Shortest.antt =====
-- The hops that `compute_distance` of src/graph/bfs.rs answers, against walks.
use nostr_wot_oracle.Prelude.{
  ℕ, zero, suc, ◌≤◌, ◌<◌, ◌≡◌, ◌≢◌, List, Bool, true, false, ◌&&◌, Option, none, some, nat_eq,
  arith, refl, sym, inl, inr, Bool-cases, leb, ltb, ◌∙◌,
}
use nostr_wot_oracle.Prelude.Str.{str_key, str_eq, str_eq_iff}
use nostr_wot_oracle.Prelude.Dict.{lookup}
use nostr_wot_oracle.Prelude.Sorted.{member, binary_search-member}
use nostr_wot_oracle.Graph.Adjacency.{row}
use nostr_wot_oracle.Graph.Store.Types.{WotGraph}
use nostr_wot_oracle.Graph.Store.Nodes.{get_node_id_and_arc}
use nostr_wot_oracle.Graph.Store.Invariant.{WellFormed}
use nostr_wot_oracle.Graph.Bfs.Types.{DistanceQuery, Meeting, not_found}
use nostr_wot_oracle.Graph.Bfs.Walk.{Walk}
use nostr_wot_oracle.Graph.Bfs.Search.{search_loop, start_state}
use nostr_wot_oracle.Graph.Bfs.Distance.{
  is_direct, conclude, bidirectional_bfs, distance_between, compute_distance,
}
use nostr_wot_oracle.Graph.Bfs.Meet.{Met}
use nostr_wot_oracle.Graph.Bfs.Loop.{search-Met}

-- The number of hops from `a` to `b`: a walk has that length, within the limit, and none is shorter;
-- or no walk is within the limit.
abbrev pub Hops : List (List ℕ) → ℕ → ℕ → ℕ → Option ℕ → Type 0
Hops rows a b limit none = (n : ℕ) → Walk rows a n b → limit < n
Hops rows a b limit (some t) = Walk rows a t b × (t ≤ limit) × ((n : ℕ) → Walk rows a n b → t ≤ n)

Hops-of_none :
    (rows : List (List ℕ)) (a b limit : ℕ) → Met rows a b limit none → Hops rows a b limit none
Hops-of_none rows a b limit met n w = elim (Bool-cases (leb n limit)) [
  | inl small ↦ absurd (met.complete n (ground arith) w)
  | inr large ↦ ground arith
]

Hops-of_far :
    (rows : List (List ℕ)) (a b limit t : ℕ)
    → Met rows a b limit (some t)
    → limit < t
    → Hops rows a b limit none
Hops-of_far rows a b limit t met far n w = elim (Bool-cases (leb n limit)) [
  | inl small ↦ absurd (ground (arith, met.complete n (ground arith) w))
  | inr large ↦ ground arith
]

Hops-of_some :
    (rows : List (List ℕ)) (a b limit t : ℕ)
    → Met rows a b limit (some t)
    → t ≤ limit
    → Hops rows a b limit (some t)
Hops-of_some rows a b limit t met near = (met.sound t refl, near, least)
  where
    least : (n : ℕ) → Walk rows a n b → t ≤ n
    least n w = elim (Bool-cases (leb n limit)) [
      | inl small ↦ met.complete n (ground arith) w
      | inr large ↦ ground arith
    ]

module _ (g : WotGraph) (w : WellFormed g) (query : DistanceQuery) where
  conclude-Hops :
      (i j : ℕ) (both : Bool) (m : Meeting) (o : Option ℕ)
      → m.best_distance ≡ o
      → Met g.follows i j query.max_hops o
      → Hops g.follows i j query.max_hops (conclude g query i j both m).hops
  unfolding conclude not_found
  conclude-Hops i j both m none e met = rw e (Hops-of_none g.follows i j query.max_hops met)
  conclude-Hops i j both m (some t) e met = elim (Bool-cases (leb t query.max_hops)) [
    | inl near ↦ rw (e, near) (Hops-of_some g.follows i j query.max_hops t met (ground arith))
    | inr far ↦ rw (e, far) (Hops-of_far g.follows i j query.max_hops t met (ground arith))
  ]

  direct_edge : (i j : ℕ) → is_direct g.follows i j ≡ member j (row g.follows i)
  unfolding is_direct
  direct_edge i j = binary_search-member (row g.follows i) j (w.follows_sorted i)

  one_hop :
      (i j : ℕ)
      → i ≢ j
      → 0 < query.max_hops
      → member j (row g.follows i) ≡ true
      → Hops g.follows i j query.max_hops (some 1)
  one_hop i j differ room edge = ((i, refl, edge), omega arith, least)
    where
      least : (n : ℕ) → Walk g.follows i n j → 1 ≤ n
      least zero walk = absurd (differ walk)
      least (suc n) walk = omega arith

  distance_between-Hops :
      (i j : ℕ) → i ≢ j → Hops g.follows i j query.max_hops (distance_between g query i j).hops
  unfolding distance_between bidirectional_bfs
  distance_between-Hops i j differ =
      let both = is_direct g.follows i j && is_direct g.follows j i in
      elim (Bool-cases (ltb 0 query.max_hops && is_direct g.follows i j)) [
        | inl e ↦ rw e (one_hop i j differ (ground arith) (sym (direct_edge i j) ∙ ground arith))
        | inr e ↦ rw e (
            conclude-Hops i j both
              (search_loop query.max_hops query.max_hops g.follows g.followers
                (start_state i j)).meeting
              _ refl (search-Met g.follows g.followers w.mirrored i j query.max_hops differ))
      ]

  -- Two keys with one id are one key.
  same_id :
      (i j : ℕ)
      → lookup query.from g.pubkey_to_id ≡ some i
      → lookup query.to g.pubkey_to_id ≡ some j
      → query.from ≢ query.to
      → i ≢ j
  same_id i j from to differ same =
      differ (ground (arith, (w.named query.from i).0 from, (w.named query.to j).0 to))

  -- In a well-formed graph, for two different keys that are nodes, the hops that
  -- compute_distance answers are exact: if it answers a number, a walk along follows has that
  -- length, the number is within max_hops and no walk is shorter; if it answers none, every
  -- walk is longer than max_hops.
  pub compute_distance-Hops :
      (i j : ℕ)
      → query.from ≢ query.to
      → lookup query.from g.pubkey_to_id ≡ some i
      → lookup query.to g.pubkey_to_id ≡ some j
      → Hops g.follows i j query.max_hops (compute_distance g query).hops
  unfolding compute_distance get_node_id_and_arc
  compute_distance-Hops i j differ from to =
      let not_same : str_eq query.from query.to ≡ false =
        ground (arith, str_eq_iff query.from query.to) in
      rw (not_same, from, to) (distance_between-Hops i j (same_id i j from to differ))
