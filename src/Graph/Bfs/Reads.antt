-- ===== src/Graph/Bfs/Reads.antt =====
-- What `compute_distance` of src/graph/bfs.rs reads of the graph, and the names in its results.
use nostr_wot_oracle.Prelude.{
  ℕ, ◌≡◌, List, [], ◌∷◌, ◌&&◌, Option, none, some, get_elem?, refl, Option-cases, Bool-cases, inl,
  inr, if◌then◌else◌, leb, ltb, Bool, true, false,
}
use nostr_wot_oracle.Prelude.Str.{Str, str_key, str_eq, str_eq_iff}
use nostr_wot_oracle.Prelude.Dict.{lookup}
use nostr_wot_oracle.Graph.Store.Types.{WotGraph, new}
use nostr_wot_oracle.Graph.Store.Nodes.{
  get_node_id_and_arc, get_pubkey_arc_by_str, resolve_pubkeys_arc,
}
use nostr_wot_oracle.Graph.Store.Invariant.{WellFormed}
use nostr_wot_oracle.Graph.Bfs.Types.{DistanceQuery, DistanceResult, Meeting, same_node, not_found}
use nostr_wot_oracle.Graph.Bfs.Search.{search_loop, start_state}
use nostr_wot_oracle.Graph.Bfs.Distance.{
  is_direct, bridge_ids, conclude, bidirectional_bfs, distance_between, compute_distance,
}

-- Every name in the list is a node.
abbrev pub Known : WotGraph → List Str → Type 0
Known g [] = Unit
Known g (p ∷ ps) = ((i : ℕ) × (lookup p g.pubkey_to_id ≡ some i)) × Known g ps

abbrev pub KnownBridges : WotGraph → Option (List Str) → Type 0
KnownBridges g none = Unit
KnownBridges g (some ps) = Known g ps

-- A result about the two keys of a query, with nodes as bridges.
pub record About (g : WotGraph) (from to : Str) (r : DistanceResult) : Type 0 where
  pub from_is : r.from ≡ from
  pub to_is : r.to ≡ to
  pub bridges_known : KnownBridges g r.bridges

module _ (g : WotGraph) (w : WellFormed g) (query : DistanceQuery) where
  resolved-Known : (ids : List ℕ) → Known g (resolve_pubkeys_arc g ids)
  unfolding resolve_pubkeys_arc
  resolved-Known [] = tt
  resolved-Known (i ∷ ids) = elim (Option-cases (get_elem? g.id_to_pubkey i)) [
    | inl out ↦ rw (out, resolve_pubkeys_arc, Known) (resolved-Known ids)
    | inr (p, e) ↦ rw (e, resolve_pubkeys_arc, Known) ((i, (w.named p i).1 e), resolved-Known ids)
  ]

  abbrev pub Fits : DistanceResult → Type 0
  Fits = About g query.from query.to

  not_found-About : Fits (not_found query.from query.to)
  unfolding not_found
  not_found-About = record { from_is = refl; to_is = refl; bridges_known = tt }

  bridges-Known :
      (b : Bool) (ids : List ℕ)
      → KnownBridges g (if b then some (resolve_pubkeys_arc g ids) else none)
  bridges-Known true ids = resolved-Known ids
  bridges-Known false ids = tt

  no_bridges-Known : (b : Bool) → KnownBridges g (if b then some [] else none)
  no_bridges-Known true = tt
  no_bridges-Known false = tt

  conclude-About : (i j : ℕ) (both : Bool) (m : Meeting) → Fits (conclude g query i j both m)
  unfolding conclude
  conclude-About i j both m = elim (Option-cases m.best_distance) [
    | inl e ↦ rw (e, conclude) not_found-About
    | inr (hops, e) ↦ elim (Bool-cases (leb hops query.max_hops)) [
      | inl short ↦
          let known = bridges-Known query.include_bridges (bridge_ids i j [] m.meeting_nodes) in
          rw (e, conclude)
            (rw short (record { from_is = refl; to_is = refl; bridges_known = known }))
      | inr long ↦ rw (e, conclude) (rw long not_found-About)
    ]
  ]

  distance_between-About : (i j : ℕ) → Fits (distance_between g query i j)
  unfolding distance_between bidirectional_bfs
  distance_between-About i j =
      let both = is_direct g.follows i j && is_direct g.follows j i in
      elim (Bool-cases (ltb 0 query.max_hops && is_direct g.follows i j)) [
        | inl e ↦
            let known = no_bridges-Known query.include_bridges in
            rw e (record { from_is = refl; to_is = refl; bridges_known = known })
        | inr e ↦
            let searched =
              search_loop query.max_hops query.max_hops g.follows g.followers (start_state i j) in
            rw e (conclude-About i j both searched.meeting)
      ]

  pub compute_distance-About : Fits (compute_distance g query)
  unfolding compute_distance get_node_id_and_arc get_pubkey_arc_by_str same_node
  compute_distance-About = elim (Bool-cases (str_eq query.from query.to)) [
    | inl same ↦
        let own : Fits (same_node query.from) = record {
          from_is = refl;
          to_is = (str_eq_iff query.from query.to).0 same;
          bridges_known = tt;
        } in
        rw same (elim (Option-cases (lookup query.from g.pubkey_to_id)) [
          | inl x ↦ rw x own
          | inr (i, x) ↦ rw x own
        ])
    | inr differ ↦ rw differ (elim (Option-cases (lookup query.from g.pubkey_to_id)) [
      | inl x ↦ rw x not_found-About
      | inr (i, x) ↦ elim (Option-cases (lookup query.to g.pubkey_to_id)) [
        | inl y ↦ rw (x, y) not_found-About
        | inr (j, y) ↦ rw (x, y) (distance_between-About i j)
      ]
    ])
  ]

-- The parts of the graph that the search reads.
abbrev pub topology_of : WotGraph → WotGraph
topology_of g = record new {
  revision = g.revision;
  pubkey_to_id = g.pubkey_to_id;
  id_to_pubkey = g.id_to_pubkey;
  follows = g.follows;
  followers = g.followers;
}

pub topology_of_lem :
    (g : WotGraph) (query : DistanceQuery)
    → compute_distance (topology_of g) query ≡ compute_distance g query
unfolding compute_distance get_node_id_and_arc get_pubkey_arc_by_str distance_between
    bidirectional_bfs conclude resolve_pubkeys_arc
topology_of_lem g query = refl
