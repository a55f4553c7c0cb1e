-- ===== src/Graph/Bfs/Distance.antt =====
-- `compute_distance` of src/graph/bfs.rs.
use nostr_wot_oracle.Prelude.{
  ℕ, List, [], ◌∷◌, Bool, not, ◌&&◌, none, some, if◌then◌else◌, ltb, leb, ◌==◌, unwrap_or,
}
use nostr_wot_oracle.Prelude.Str.{str_eq}
use nostr_wot_oracle.Prelude.Sorted.{member, binary_search, is_found}
use nostr_wot_oracle.Graph.Adjacency.{row}
use nostr_wot_oracle.Graph.Store.Types.{WotGraph}
use nostr_wot_oracle.Graph.Store.Nodes.{
  get_node_id_and_arc, get_pubkey_arc_by_str, resolve_pubkeys_arc,
}
use nostr_wot_oracle.Graph.Bfs.Types.{
  DistanceQuery, DistanceResult, not_found, same_node, MeetingNode, Meeting, saturating_add,
  saturating_mul,
}
use nostr_wot_oracle.Graph.Bfs.Search.{search_loop, start_state}

-- The closure `is_direct`.
unfoldable pub is_direct : List (List ℕ) → ℕ → ℕ → Bool
unfolding binary_search
is_direct follows from to = is_found (binary_search (row follows from) to)

-- `map(saturating_mul).fold(0, saturating_add)`
unfoldable pub total_paths : ℕ → List MeetingNode → ℕ
total_paths acc [] = acc
total_paths acc (m ∷ ms) =
    total_paths (saturating_add acc (saturating_mul m.fwd_paths m.bwd_paths)) ms

-- The meeting nodes without the ends and without repeats, in the order they were met.
unfoldable pub bridge_ids : ℕ → ℕ → List ℕ → List MeetingNode → List ℕ
bridge_ids from_id to_id seen [] = []
bridge_ids from_id to_id seen (m ∷ ms) =
    let fresh = m.id ∷ bridge_ids from_id to_id (m.id ∷ seen) ms in
    let rest = bridge_ids from_id to_id seen ms in
    if not (m.id == from_id) && (not (m.id == to_id) && not (member m.id seen)) then fresh else rest

-- What follows the search loop.
unfoldable pub conclude : WotGraph → DistanceQuery → ℕ → ℕ → Bool → Meeting → DistanceResult
unfolding total_paths bridge_ids not_found
conclude g query from_id to_id mutual_follow m = elim m.best_distance [
  | none ↦ not_found query.from query.to
  | some hops ↦
      if leb hops query.max_hops
      then record {
        from = query.from;
        to = query.to;
        hops = some hops;
        path_count = total_paths 0 m.meeting_nodes;
        mutual_follow = mutual_follow;
        bridges =
            if query.include_bridges
            then some (resolve_pubkeys_arc g (bridge_ids from_id to_id [] m.meeting_nodes))
            else none;
      }
      else not_found query.from query.to
]

-- The scratch state is cleared before each query, so each search starts afresh.
unfoldable pub bidirectional_bfs : WotGraph → DistanceQuery → ℕ → ℕ → Bool → DistanceResult
unfolding search_loop conclude
bidirectional_bfs g query from_id to_id mutual_follow =
    conclude g query from_id to_id mutual_follow
      (search_loop query.max_hops query.max_hops g.follows g.followers
        (start_state from_id to_id)).meeting

-- The part under the adjacency lock.
unfoldable pub distance_between : WotGraph → DistanceQuery → ℕ → ℕ → DistanceResult
unfolding is_direct bidirectional_bfs
distance_between g query from_id to_id =
    let mutual_follow = is_direct g.follows from_id to_id && is_direct g.follows to_id from_id in
    if ltb 0 query.max_hops && is_direct g.follows from_id to_id
    then record {
      from = query.from;
      to = query.to;
      hops = some 1;
      path_count = 1;
      mutual_follow = mutual_follow;
      bridges = if query.include_bridges then some [] else none;
    }
    else bidirectional_bfs g query from_id to_id mutual_follow

-- The interned names `from_arc` and `to_arc` are the texts of the query.
unfoldable pub compute_distance : WotGraph → DistanceQuery → DistanceResult
unfolding distance_between same_node not_found get_pubkey_arc_by_str get_node_id_and_arc
compute_distance g query =
    if str_eq query.from query.to
    then same_node (unwrap_or (get_pubkey_arc_by_str g query.from) query.from)
    else elim (get_node_id_and_arc g query.from) [
      | none ↦ not_found query.from query.to
      | some source ↦ elim (get_node_id_and_arc g query.to) [
        | none ↦ not_found source.1 query.to
        | some target ↦ distance_between g query source.0 target.0
      ]
    ]
