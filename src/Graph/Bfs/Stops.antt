-- ===== src/Graph/Bfs/Stops.antt =====
-- The ends of the loops of src/graph/bfs.rs.
use nostr_wot_oracle.Prelude.{
  ℕ, zero, suc, ◌+◌, ◌≤◌, ◌≡◌, ◌||◌, List, Bool, true, arith, inl, inr, Bool-cases,
}
use nostr_wot_oracle.Graph.Bfs.Types.{BfsState}
use nostr_wot_oracle.Graph.Bfs.Search
use nostr_wot_oracle.Graph.Bfs.Search.{expand_forward, expand_backward}
use nostr_wot_oracle.Graph.Bfs.Path
use nostr_wot_oracle.Graph.Bfs.Path.{PathState}

-- The path search also leaves when a round has met.
abbrev pub path_ends : ℕ → PathState → Bool
path_ends max_hops s = Path.has_met s.meeting_node || Path.stops max_hops s

module _ (follows followers : List (List ℕ)) where
  distance_depth :
      (s : BfsState)
      → (Search.round follows followers s).fwd_dist + (Search.round follows followers s).bwd_dist
        ≡ suc (s.fwd_dist + s.bwd_dist)
  unfolding Search.round expand_forward expand_backward
  distance_depth s = ground arith

  path_depth :
      (s : PathState)
      → (Path.round follows followers s).fwd_dist + (Path.round follows followers s).bwd_dist
        ≡ suc (s.fwd_dist + s.bwd_dist)
  unfolding Path.round
  path_depth s = ground arith

  distance_stops :
      (fuel max_hops : ℕ) (s : BfsState)
      → max_hops ≤ fuel + (s.fwd_dist + s.bwd_dist)
      → Search.stops max_hops (Search.search_loop fuel max_hops follows followers s) ≡ true
  unfolding Search.search_loop
  distance_stops zero max_hops s enough = ground arith
  distance_stops (suc fuel) max_hops s enough =
      let rest =
        distance_stops fuel max_hops (Search.round follows followers s)
          (omega (arith, distance_depth s)) in
      elim (Bool-cases (Search.stops max_hops s)) [ inl e ↦ rw e e | inr e ↦ rw e rest ]

  path_stops :
      (fuel max_hops : ℕ) (s : PathState)
      → max_hops ≤ fuel + (s.fwd_dist + s.bwd_dist)
      → path_ends max_hops (Path.search_loop fuel max_hops follows followers s) ≡ true
  unfolding Path.search_loop
  path_stops zero max_hops s enough = ground arith
  path_stops (suc fuel) max_hops s enough =
      let rest =
        path_stops fuel max_hops (Path.round follows followers s) (omega (arith, path_depth s)) in
      elim (Bool-cases (path_ends max_hops s)) [ inl e ↦ rw e e | inr e ↦ rw e rest ]

  -- For any rows, any hop limit and any two ids, both search loops, given the hop limit as
  -- fuel, end at a state at which the source's loop leaves: a frontier is empty, the meeting
  -- is settled or made, or the depths have reached the hop limit.
  pub search_loops_stop :
      (max_hops from_id to_id : ℕ)
      → (Search.stops max_hops (
            Search.search_loop max_hops max_hops follows followers
              (Search.start_state from_id to_id))
          ≡ true)
        × (path_ends max_hops (
              Path.search_loop max_hops max_hops follows followers (Path.start_state from_id to_id))
            ≡ true)
  search_loops_stop max_hops from_id to_id = (
    distance_stops max_hops max_hops (Search.start_state from_id to_id) (omega arith),
    path_stops max_hops max_hops (Path.start_state from_id to_id) (omega arith),
  )
