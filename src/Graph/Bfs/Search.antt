-- ===== src/Graph/Bfs/Search.antt =====
-- The search loop of `bidirectional_bfs`. Its forward and its backward branch are one text with the
-- sides exchanged, so a level is expanded by one function that is given the side that grows, the
-- visited nodes of the other, and the order of the two path counts in a meeting.
pub mod Level
pub mod Sweep
use nostr_wot_oracle.Prelude.{
  nat_eq, ℕ, zero, suc, ◌+◌, List, [], ◌∷◌, ◌++◌, Bool, true, false, ◌||◌, Option, none, some,
  length, is_empty, if◌then◌else◌, ltb, leb, ◌==◌, unwrap_or,
}
use nostr_wot_oracle.Prelude.Dict.{Dict, lookup, insert}
use nostr_wot_oracle.Graph.Adjacency.{row}
use nostr_wot_oracle.Graph.Bfs.Types.{Side, MeetingNode, Meeting, BfsState, saturating_add}

-- `best_distance.is_none_or(|best| total_dist < best)`
abbrev pub improves : ℕ → Option ℕ → Bool
improves total none = true
improves total (some best) = ltb total best

-- `best_distance == Some(total_dist)`
abbrev pub is_best : ℕ → Option ℕ → Bool
is_best total none = false
is_best total (some best) = best == total

unfoldable pub note_meeting : ℕ → MeetingNode → Meeting → Meeting
note_meeting total node m =
    let m' =
      (if improves total m.best_distance
        then record m { best_distance = some total; meeting_nodes = [] }
        else m) in
    if is_best total m'.best_distance
    then record m' { meeting_nodes = m'.meeting_nodes ++ node ∷ [] }
    else m'

-- The check of one neighbor against the other side's visited nodes.
unfoldable pub check_met :
    (ℕ → ℕ → ℕ → MeetingNode) → Dict ℕ (ℕ × ℕ) → ℕ → ℕ → ℕ → Meeting → Meeting
unfolding note_meeting
check_met meet other dist node_paths neighbor m = elim (lookup neighbor other) [
  | none ↦ m
  | some e ↦ note_meeting (dist + e.0) (meet neighbor node_paths e.1) m
]

-- The entry of one neighbor: new nodes join the next frontier, and nodes of this level add paths.
unfoldable pub visit : ℕ → ℕ → ℕ → Side → Side
visit dist node_paths neighbor side = elim (lookup neighbor side.visited) [
  | none ↦ record side {
    visited = insert neighbor (dist, node_paths) side.visited;
    next = side.next ++ neighbor ∷ [];
  }
  | some e ↦
      if e.0 == dist
      then record side {
        visited = insert neighbor (e.0, saturating_add e.1 node_paths) side.visited;
      }
      else side
]

module _ (meet : ℕ → ℕ → ℕ → MeetingNode) (other : Dict ℕ (ℕ × ℕ)) (dist : ℕ) where
  -- `for &neighbor in &adjacency[node]`
  unfoldable pub scan_neighbors : ℕ → List ℕ → Side × Meeting → Side × Meeting
  scan_neighbors node_paths [] s = s
  scan_neighbors node_paths (neighbor ∷ neighbors) (side, m) =
      scan_neighbors node_paths neighbors
        (visit dist node_paths neighbor side, check_met meet other dist node_paths neighbor m)

  -- `self.visited[&node].1`: every node of a frontier is visited, so the default, where the source
  -- would panic, is never read.
  abbrev pub paths_of : Side → ℕ → ℕ
  paths_of side node = (unwrap_or (lookup node side.visited) (0, 0)).1

  -- `for i in 0..current.len()`
  unfoldable pub scan_level : List (List ℕ) → List ℕ → Side × Meeting → Side × Meeting
  unfolding scan_neighbors
  scan_level rows [] s = s
  scan_level rows (node ∷ nodes) (side, m) =
      scan_level rows nodes (scan_neighbors (paths_of side node) (row rows node) (side, m))

  -- A level, and then `current.clear(); swap(current, next)`.
  unfoldable pub expand : List (List ℕ) → Side → Meeting → Side × Meeting
  unfolding scan_level
  expand rows side m =
      let (side', m') = scan_level rows side.current (side, m) in
      (record side' { current = side'.next; next = [] }, m')

abbrev pub meet_forward : ℕ → ℕ → ℕ → MeetingNode
meet_forward neighbor node_paths bwd_paths = record {
  id = neighbor;
  fwd_paths = node_paths;
  bwd_paths = bwd_paths;
}

abbrev pub meet_backward : ℕ → ℕ → ℕ → MeetingNode
meet_backward neighbor node_paths fwd_paths = record {
  id = neighbor;
  fwd_paths = fwd_paths;
  bwd_paths = node_paths;
}

unfoldable pub expand_forward : List (List ℕ) → BfsState → BfsState
unfolding expand
expand_forward follows s =
    let (side, m) = expand meet_forward s.bwd.visited (s.fwd_dist + 1) follows s.fwd s.meeting in
    record s { fwd = side; fwd_dist = s.fwd_dist + 1; meeting = m }

unfoldable pub expand_backward : List (List ℕ) → BfsState → BfsState
unfolding expand
expand_backward followers s =
    let (side, m) = expand meet_backward s.fwd.visited (s.bwd_dist + 1) followers s.bwd s.meeting in
    record s { bwd = side; bwd_dist = s.bwd_dist + 1; meeting = m }

-- The two `break`s at the head of the loop.
abbrev pub settled : ℕ → Option ℕ → Bool
settled current_min none = false
settled current_min (some best) = leb best current_min

abbrev pub stops : ℕ → BfsState → Bool
stops max_hops s =
    (is_empty s.fwd.current || is_empty s.bwd.current)
    || (settled (s.fwd_dist + s.bwd_dist) s.meeting.best_distance
        || leb max_hops (s.fwd_dist + s.bwd_dist))

-- The smaller frontier grows.
unfoldable pub round : List (List ℕ) → List (List ℕ) → BfsState → BfsState
unfolding expand_forward expand_backward
round follows followers s =
    if leb (length s.fwd.current) (length s.bwd.current)
    then expand_forward follows s
    else expand_backward followers s

-- A round raises the sum of the distances, and the loop ends when it reaches `max_hops`, so
-- `max_hops` rounds of fuel are enough.
unfoldable pub search_loop : ℕ → ℕ → List (List ℕ) → List (List ℕ) → BfsState → BfsState
unfolding round
search_loop zero max_hops follows followers s = s
search_loop (suc fuel) max_hops follows followers s =
    let rest = search_loop fuel max_hops follows followers (round follows followers s) in
    if stops max_hops s then s else rest

abbrev pub start_side : ℕ → Side
start_side id = record { visited = (id, (0, 1)) ∷ []; current = id ∷ []; next = [] }

abbrev pub start_state : ℕ → ℕ → BfsState
start_state from_id to_id = record {
  fwd = start_side from_id;
  bwd = start_side to_id;
  fwd_dist = 0;
  bwd_dist = 0;
  meeting = record { best_distance = none; meeting_nodes = [] };
}
