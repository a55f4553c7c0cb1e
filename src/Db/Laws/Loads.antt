-- ===== src/Db/Laws/Loads.antt =====
-- `load_graph` of src/db/sqlite.rs on well-formed tables.
use nostr_wot_oracle.Db.Laws.Load.{
  node_indices-lt, order_by-Each, length-order_by, has_id, Each, some_of, some_of-order_by,
  known-some_of, is_some-node_indices,
}
use nostr_wot_oracle.Prelude.{
  inl, inr, ◌-◌, ◌<◌, ◌^◌, leb, map, Option-cases, length, length-map, arith, some, ℕ, ◌≡◌, List,
  [], ◌∷◌, Bool, true, is_some, ◌==◌, nat_eq, refl,
}
use nostr_wot_oracle.Graph.Store.Types.{WotGraph, SnapshotNode}
use nostr_wot_oracle.Db.View.{KnownEdges, WellFormed, Known}
use nostr_wot_oracle.Db.Load.{
  order_by, pair_before, author_before, to_snapshot, load_snapshot, load_graph, id_before,
  node_indices,
}
use nostr_wot_oracle.Db.Laws.Load.Snapshot.{
  in_both, from_listed, listed_at, load_edges_lem, load_mute_lists_lem, load_mute_edges_lem,
}
use nostr_wot_oracle.Prelude.Str.{Str, str_key}
use nostr_wot_oracle.Prelude.Dict.{Dict, lookup}
use nostr_wot_oracle.Db.Tables.{Tables, NodeRow, MuteRow, has_pair}

Each-edges :
    (P : ℕ × ℕ → Bool) (es : List (ℕ × ℕ))
    → ((a b : ℕ) → has_pair a b es ≡ true → P (a, b) ≡ true)
    → Each P es
Each-edges P [] h = tt
Each-edges P ((a, b) ∷ es) h =
    (h a b (ground arith), Each-edges P es (λ i j k. h i j (ground arith)))

Each-keys :
    (P : ℕ → Bool) (d : Dict ℕ MuteRow)
    → ((i : ℕ) → is_some (lookup i d) ≡ true → P i ≡ true)
    → Each (λ (row : ℕ × MuteRow). P row.0) d
unfolding lookup
Each-keys P [] h = tt
Each-keys P ((i, m) ∷ d) h = (h i (ground arith), Each-keys P d (λ j k. h j (ground arith)))

some_of-keys :
    (a : ℕ) (d : Dict ℕ MuteRow)
    → some_of (λ (row : ℕ × MuteRow). row.0 == a) d ≡ is_some (lookup a d)
unfolding lookup
some_of-keys a [] = refl
some_of-keys a ((i, m) ∷ d) = ground (arith, some_of-keys a d)

module _ (t : Tables) (ok : WellFormed t) where
  abbrev nodes : List (Str × NodeRow)
  nodes = order_by id_before t.nodes

  abbrev indices : Dict ℕ ℕ
  indices = node_indices nodes 0 []

  found : (i : ℕ) → Known t.nodes i → is_some (lookup i indices) ≡ true
  found i (p, e) = ground (
    arith,
    is_some-node_indices (order_by id_before t.nodes) 0 [] i,
    known-some_of i t.nodes p e,
    some_of-order_by (has_id i) id_before t.nodes,
  )

  both_found : (es : List (ℕ × ℕ)) → KnownEdges t.nodes es → Each (in_both indices) es
  both_found es known =
      Each-edges (in_both indices) es
        (λ a b h. let (ka, kb) = known a b h in ground (arith, found a ka, found b kb))

  author_known :
      (i : ℕ) → is_some (lookup i t.mute_lists) ≡ true → is_some (lookup i indices) ≡ true
  author_known i h = elim (Option-cases (lookup i t.mute_lists)) [
    | inl x ↦ absurd (ground arith)
    | inr (m, x) ↦ found i (ok.mute_authors i m x)
  ]

  in_range : (i j : ℕ) → lookup i indices ≡ some j → j < length nodes
  unfolding lookup
  in_range i j h = omega (arith, node_indices-lt nodes 0 [] (λ a b e. absurd (ground arith)) i j h)

  -- The mute edges, once the lists are there.
  from_lists :
      (s : List SnapshotNode)
      → ((a i : ℕ)
          → lookup a indices ≡ some i
          → some_of (λ (row : ℕ × MuteRow). row.0 == a) (order_by author_before t.mute_lists) ≡ true
          → listed_at s i ≡ true)
      → Each (from_listed indices s) t.mute_edges
  from_lists s finds = Each-edges (from_listed indices s) t.mute_edges (λ a b h.
      elim (Option-cases (lookup a indices)) [
        | inl x ↦ absurd (ground (arith, author_known a (ok.mute_listed a b h)))
        | inr (i, x) ↦ ground (
          arith,
          ok.mute_listed a b h,
          finds a i x,
          some_of-keys a t.mute_lists,
          some_of-order_by (λ (row : ℕ × MuteRow). row.0 == a) author_before t.mute_lists,
        )
      ])

  -- On well-formed tables with fewer than 2^32 nodes, loading them into any graph answers a
  -- graph: no edge, mute list or mute edge refers to a missing node or to a missing mute list.
  pub load_graph_answers :
      (g : WotGraph) → length t.nodes < 2 ^ 32 → is_some (load_graph t g) ≡ true
  unfolding load_graph load_snapshot
  load_graph_answers g room =
      let start = map to_snapshot nodes in
      let (s1, run1, size1) =
        load_edges_lem indices (order_by pair_before t.edges) start (
          order_by-Each (in_both indices) pair_before t.edges (both_found t.edges ok.follow_ids)) in
      let (s2, run2, keeps, finds) =
        load_mute_lists_lem indices (order_by author_before t.mute_lists) s1
          (order_by-Each (λ (row : ℕ × MuteRow). is_some (lookup row.0 indices)) author_before
            t.mute_lists (Each-keys (λ i. is_some (lookup i indices)) t.mute_lists author_known))
          (λ i j h. omega (arith, in_range i j h, size1, length-map to_snapshot nodes)) in
      let last =
        load_mute_edges_lem indices (order_by pair_before t.mute_edges) s2
          (order_by-Each (in_both indices) pair_before t.mute_edges
            (both_found t.mute_edges ok.mute_ids))
          (order_by-Each (from_listed indices s2) pair_before t.mute_edges (from_lists s2 finds)) in
      let few : leb (length nodes) (2 ^ 32 - 1) ≡ true =
        ground (arith, length-order_by id_before t.nodes) in
      rw (few, run1, run2, load_graph) (ground (arith, last))
