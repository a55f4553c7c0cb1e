-- ===== src/Tests/Distance.antt =====
-- The distance between two keys that are two hops apart.
use nostr_wot_oracle.Graph.Adjacency.{
  diff, diff_loop, remove_from_all, add_to_all, remove_id, add_id,
}
use nostr_wot_oracle.Graph.Bfs.Search
use nostr_wot_oracle.Graph.Bfs.Path
use nostr_wot_oracle.Graph.Bfs.Stops.{path_ends, search_loops_stop}
use nostr_wot_oracle.Prelude.{true, ◌≡◌, ◌≢◌, some, refl, arith}
use nostr_wot_oracle.Prelude.Sorted.{sort, dedup, binary_search}
use nostr_wot_oracle.Graph.Bfs.Distance.{
  distance_between, bidirectional_bfs, conclude, is_direct, compute_distance,
}
use nostr_wot_oracle.Graph.Bfs.Search.{
  search_loop, round, expand_forward, expand_backward, expand, scan_level, scan_neighbors, visit,
  check_met, note_meeting,
}
use nostr_wot_oracle.Graph.Store.Nodes.{
  get_node_id_and_arc, create_node, get_or_create_node_locked, get_or_create_all,
}
use nostr_wot_oracle.Prelude.Str.{str_eq, str_key}
use nostr_wot_oracle.Prelude.Dict.{lookup, insert}
use nostr_wot_oracle.Graph.Interner.{intern}
use nostr_wot_oracle.Graph.Store.Update.{update_follows, rejects_follows, publish_follows}
use nostr_wot_oracle.Graph.Bfs.Types.{DistanceQuery}
use nostr_wot_oracle.Graph.Bfs.Shortest.{Hops, compute_distance-Hops}
use nostr_wot_oracle.Tests.Samples.{ann, cat, chain, chain-WellFormed}

abbrev query : DistanceQuery
query = record { from = ann; to = cat; max_hops = 3; include_bridges = true }

ids_known : (lookup ann chain.pubkey_to_id ≡ some 0) × (lookup cat chain.pubkey_to_id ≡ some 2)
unfolding update_follows get_or_create_node_locked create_node get_or_create_all rejects_follows
    publish_follows intern lookup insert str_eq
ids_known = (refl, refl)

ann_not_cat : ann ≢ cat
ann_not_cat h = ground arith

compute_distance-Hops_example : Hops chain.follows 0 2 3 (compute_distance chain query).hops
compute_distance-Hops_example =
    compute_distance-Hops chain chain-WellFormed query 0 2 ann_not_cat ids_known.0 ids_known.1

two_hops : (compute_distance chain query).hops ≡ some 2
unfolding update_follows get_or_create_node_locked create_node get_or_create_all rejects_follows
    publish_follows intern lookup insert str_eq diff diff_loop sort dedup remove_from_all add_to_all
    remove_id add_id binary_search compute_distance distance_between bidirectional_bfs conclude
    search_loop round expand_forward expand_backward expand scan_level scan_neighbors visit
    check_met note_meeting is_direct get_node_id_and_arc
two_hops = refl

search_loops_stop_example :
    (Search.stops 3 (Search.search_loop 3 3 chain.follows chain.followers (Search.start_state 0 2))
      ≡ true)
    × (path_ends 3 (Path.search_loop 3 3 chain.follows chain.followers (Path.start_state 0 2))
        ≡ true)
search_loops_stop_example = search_loops_stop chain.follows chain.followers 3 0 2
