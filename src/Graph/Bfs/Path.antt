-- ===== src/Graph/Bfs/Path.antt =====
-- `compute_path` of src/graph/bfs.rs: the search with parents, and the path read back from them.
use nostr_wot_oracle.Prelude.{
  nat_eq, ℕ, zero, suc, ◌+◌, List, [], ◌∷◌, ◌++◌, Bool, true, false, ◌&&◌, ◌||◌, Option, none, some,
  length, is_empty, if◌then◌else◌, ltb, leb, ◌==◌, unwrap_or,
}
use mathlib.Core.Option
use mathlib.Core.List.{reverse}
use nostr_wot_oracle.Prelude.Str.{str_eq}
use nostr_wot_oracle.Prelude.Dict.{Dict, lookup, insert}
use nostr_wot_oracle.Prelude.Sorted.{member}
use nostr_wot_oracle.Graph.Adjacency.{row}
use nostr_wot_oracle.Graph.Store.Types.{WotGraph}
use nostr_wot_oracle.Graph.Store.Nodes.{
  get_node_id_and_arc, get_pubkey_arc_by_str, resolve_pubkeys_arc,
}
use nostr_wot_oracle.Graph.Bfs.Types.{PathQuery, PathResult}
use nostr_wot_oracle.Graph.Bfs.Distance.{is_direct}

-- One direction: parents, the set of visited nodes, and the two buffers of the frontier.
pub record PathSide : Type 0 where
  pub parent : Dict ℕ ℕ
  pub visited : List ℕ
  pub current : List ℕ
  pub next : List ℕ

pub record PathState : Type 0 where
  pub fwd : PathSide
  pub bwd : PathSide
  pub fwd_dist : ℕ
  pub bwd_dist : ℕ
  pub meeting_node : Option ℕ

-- `for &neighbor in &adjacency[node]`; a value in the second place is the `break 'outer`.
unfoldable pub scan_neighbors : List ℕ → ℕ → List ℕ → PathSide → PathSide × Option ℕ
scan_neighbors other node [] side = (side, none)
scan_neighbors other node (neighbor ∷ neighbors) side =
    let entered = record side { parent = insert neighbor node side.parent } in
    let rest = scan_neighbors other node neighbors (
      if member neighbor side.visited then side else record entered {
        visited = neighbor ∷ side.visited;
        next = side.next ++ neighbor ∷ [];
      }) in
    if member neighbor other then (entered, some neighbor) else rest

-- `for &node in &current`
unfoldable pub scan_level : List ℕ → List (List ℕ) → List ℕ → PathSide → PathSide × Option ℕ
unfolding scan_neighbors
scan_level other rows [] side = (side, none)
scan_level other rows (node ∷ nodes) side =
    let (side', met) = scan_neighbors other node (row rows node) side in
    elim met [ some m ↦ (side', some m) | none ↦ scan_level other rows nodes side' ]

-- A level; the buffers are swapped unless the loop was left.
unfoldable pub expand : List ℕ → List (List ℕ) → PathSide → PathSide × Option ℕ
unfolding scan_level
expand other rows side =
    let (side', met) = scan_level other rows side.current side in
    elim met [
      | some m ↦ (side', some m)
      | none ↦ (record side' { current = side'.next; next = [] }, none)
    ]

unfoldable pub round : List (List ℕ) → List (List ℕ) → PathState → PathState
unfolding expand
round follows followers s =
    if leb (length s.fwd.current) (length s.bwd.current)
    then (let (side, met) = expand s.bwd.visited follows s.fwd in
        record s { fwd = side; fwd_dist = s.fwd_dist + 1; meeting_node = met })
    else (let (side, met) = expand s.fwd.visited followers s.bwd in
        record s { bwd = side; bwd_dist = s.bwd_dist + 1; meeting_node = met })

-- The loop condition, the depth bound, and `break 'outer` of the round before.
abbrev pub stops : ℕ → PathState → Bool
stops max_hops s =
    (is_empty s.fwd.current || is_empty s.bwd.current) || leb max_hops (s.fwd_dist + s.bwd_dist)

abbrev pub has_met : Option ℕ → Bool
has_met none = false
has_met (some m) = true

-- As in the distance search, `max_hops` rounds are enough.
unfoldable pub search_loop : ℕ → ℕ → List (List ℕ) → List (List ℕ) → PathState → PathState
unfolding round
search_loop zero max_hops follows followers s = s
search_loop (suc fuel) max_hops follows followers s =
    let rest = search_loop fuel max_hops follows followers (round follows followers s) in
    if has_met s.meeting_node || stops max_hops s then s else rest

abbrev pub start_side : ℕ → PathSide
start_side id = record { parent = []; visited = id ∷ []; current = id ∷ []; next = [] }

abbrev pub start_state : ℕ → ℕ → PathState
start_state from_id to_id = record {
  fwd = start_side from_id;
  bwd = start_side to_id;
  fwd_dist = 0;
  bwd_dist = 0;
  meeting_node = none;
}

-- `while current != from_id`: the nodes from the meeting back to the source, in that order. A round
-- climbs one level of the forward search, so `fwd_dist` rounds are enough.
unfoldable pub climb : ℕ → Dict ℕ ℕ → ℕ → ℕ → ℕ → List ℕ
climb zero parents from_id to_id current = []
climb (suc fuel) parents from_id to_id current = elim (current == from_id) [
  | true ↦ []
  | false ↦ elim (lookup current parents) [
    | none ↦ []
    | some parent ↦
        let rest = climb fuel parents from_id to_id parent in
        if current == to_id then rest else current ∷ rest
  ]
]

-- `while current != to_id`: the nodes after the meeting up to the target, which is left out.
unfoldable pub descend : ℕ → Dict ℕ ℕ → ℕ → ℕ → List ℕ
descend zero children to_id current = []
descend (suc fuel) children to_id current = elim (current == to_id) [
  | true ↦ []
  | false ↦ elim (lookup current children) [
    | none ↦ []
    | some child ↦
        let rest = descend fuel children to_id child in
        if child == to_id then rest else child ∷ rest
  ]
]

unfoldable pub path_ids : ℕ → ℕ → PathState → ℕ → List ℕ
unfolding climb descend
path_ids from_id to_id s meet =
    reverse (climb (suc s.fwd_dist) s.fwd.parent from_id to_id meet)
    ++ descend (suc s.bwd_dist) s.bwd.parent to_id meet

-- The part under the adjacency lock.
unfoldable pub path_between : WotGraph → PathQuery → ℕ → ℕ → PathResult
unfolding search_loop path_ids is_direct
path_between g query from_id to_id =
    if ltb 0 query.max_hops && is_direct g.follows from_id to_id
    then record { from = query.from; to = query.to; path = some [] }
    else (let s =
          search_loop query.max_hops query.max_hops g.follows g.followers
            (start_state from_id to_id) in
        record {
          from = query.from;
          to = query.to;
          path =
              Option.map (λ meet. resolve_pubkeys_arc g (path_ids from_id to_id s meet))
                s.meeting_node;
        })

unfoldable pub compute_path : WotGraph → PathQuery → PathResult
unfolding path_between get_pubkey_arc_by_str get_node_id_and_arc
compute_path g query =
    if str_eq query.from query.to
    then (let pubkey = unwrap_or (get_pubkey_arc_by_str g query.from) query.from in
        record { from = pubkey; to = pubkey; path = some [] })
    else elim (get_node_id_and_arc g query.from) [
      | none ↦ record { from = query.from; to = query.to; path = none }
      | some source ↦ elim (get_node_id_and_arc g query.to) [
        | none ↦ record { from = source.1; to = query.to; path = none }
        | some target ↦ path_between g query source.0 target.0
      ]
    ]
