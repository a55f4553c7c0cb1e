-- ===== src/Db/Load.antt =====
-- `load_graph` of src/db/sqlite.rs. `none` is one of its three errors, and leaves the graph as it was.
use nostr_wot_oracle.Prelude.{
  ℕ, suc, ◌-◌, ◌%◌, ◌^◌, List, [], ◌∷◌, ◌++◌, Bool, not, ◌&&◌, ◌||◌, Option, none, some,
  if◌then◌else◌, ltb, leb, ◌==◌, length, map, set, nat_eq, get_elem?,
}
use nostr_wot_oracle.Prelude.Str.{Str, str_key}
use nostr_wot_oracle.Prelude.Dict.{Dict, lookup, insert}
use nostr_wot_oracle.Graph.Store.Types.{WotGraph, SnapshotNode}
use nostr_wot_oracle.Graph.Store.Restore.{restore_nodes}
use nostr_wot_oracle.Db.Tables.{Tables, NodeRow, MuteRow}

-- `ORDER BY`, with the order of the keys.
module _ {ℓ} {A : Type ℓ} (before : A → A → Bool) where
  abbrev pub place : A → List A → List A
  place x [] = x ∷ []
  place x (y ∷ ys) = if before y x then y ∷ place x ys else x ∷ y ∷ ys

  abbrev pub order_by : List A → List A
  order_by [] = []
  order_by (x ∷ xs) = place x (order_by xs)

abbrev pub pair_before : ℕ × ℕ → ℕ × ℕ → Bool
pair_before a b = ltb a.0 b.0 || ((a.0 == b.0) && ltb a.1 b.1)

abbrev pub id_before : Str × NodeRow → Str × NodeRow → Bool
id_before a b = ltb a.1.id b.1.id

abbrev pub author_before : ℕ × MuteRow → ℕ × MuteRow → Bool
author_before a b = ltb a.0 b.0

-- `nodes.iter().enumerate().map(..).collect()`: the index of each id.
unfoldable pub node_indices : List (Str × NodeRow) → ℕ → Dict ℕ ℕ → Dict ℕ ℕ
node_indices [] index indices = indices
node_indices ((p, r) ∷ nodes) index indices =
    node_indices nodes (suc index) (insert r.id index indices)

abbrev pub to_snapshot : Str × NodeRow → SnapshotNode
to_snapshot (p, r) = record {
  pubkey = p;
  info = record { kind3_event_id = r.kind3_event_id; kind3_created_at = r.kind3_created_at };
  follows = [];
  mutes = none;
}

-- A write to `snapshot[i]`, where `node_indices` gave the index.
abbrev pub update_at : List SnapshotNode → ℕ → (SnapshotNode → SnapshotNode) → List SnapshotNode
update_at snapshot i f = elim (get_elem? snapshot i) [
  | none ↦ snapshot
  | some node ↦ set snapshot i (f node)
]

-- `to as u32`
abbrev pub as_u32 : ℕ → ℕ
as_u32 n = n % 2 ^ 32

abbrev pub push_follow : ℕ → SnapshotNode → SnapshotNode
push_follow to node = record node { follows = node.follows ++ as_u32 to ∷ [] }

-- The edges of both tables are read through the indices.
abbrev pub indexed : Dict ℕ ℕ → ℕ × ℕ → Option (ℕ × ℕ)
indexed indices e = elim (lookup e.0 indices) [
  | none ↦ none
  | some from ↦ elim (lookup e.1 indices) [ none ↦ none | some to ↦ some (from, to) ]
]

unfoldable pub load_edges : Dict ℕ ℕ → List (ℕ × ℕ) → List SnapshotNode → Option (List SnapshotNode)
load_edges indices [] snapshot = some snapshot
load_edges indices (e ∷ es) snapshot = elim (indexed indices e) [
  | none ↦ none
  | some (from, to) ↦ load_edges indices es (update_at snapshot from (push_follow to))
]

abbrev pub start_mutes : MuteRow → SnapshotNode → SnapshotNode
start_mutes m node = record node {
  mutes = some (record { ids = []; event_id = m.event_id; created_at = m.created_at });
}

unfoldable pub load_mute_lists :
    Dict ℕ ℕ → List (ℕ × MuteRow) → List SnapshotNode → Option (List SnapshotNode)
load_mute_lists indices [] snapshot = some snapshot
load_mute_lists indices ((author, m) ∷ rows) snapshot = elim (lookup author indices) [
  | none ↦ none
  | some i ↦ load_mute_lists indices rows (update_at snapshot i (start_mutes m))
]

-- `snapshot[from].mutes.as_mut()`, and the push.
abbrev pub push_mute : ℕ → SnapshotNode → Option SnapshotNode
push_mute to node = elim node.mutes [
  | none ↦ none
  | some l ↦ some (record node { mutes = some (record l { ids = l.ids ++ as_u32 to ∷ [] }) })
]

abbrev pub mute_at : List SnapshotNode → ℕ → ℕ → Option (List SnapshotNode)
mute_at snapshot from to = elim (get_elem? snapshot from) [
  | none ↦ none
  | some node ↦ elim (push_mute to node) [
    | none ↦ none
    | some node' ↦ some (set snapshot from node')
  ]
]

unfoldable pub load_mute_edges :
    Dict ℕ ℕ → List (ℕ × ℕ) → List SnapshotNode → Option (List SnapshotNode)
load_mute_edges indices [] snapshot = some snapshot
load_mute_edges indices (e ∷ es) snapshot = elim (indexed indices e) [
  | none ↦ none
  | some (from, to) ↦ elim (mute_at snapshot from to) [
    | none ↦ none
    | some snapshot' ↦ load_mute_edges indices es snapshot'
  ]
]

-- The snapshot that the tables make.
unfoldable pub load_snapshot : Tables → Option (List SnapshotNode)
unfolding node_indices load_edges load_mute_lists load_mute_edges
load_snapshot t =
    let nodes = order_by id_before t.nodes in
    let indices = node_indices nodes 0 [] in
    if not (leb (length nodes) (2 ^ 32 - 1))
    then none
    else (elim (load_edges indices (order_by pair_before t.edges) (map to_snapshot nodes)) [
      | none ↦ none
      | some s1 ↦ elim (load_mute_lists indices (order_by author_before t.mute_lists) s1) [
        | none ↦ none
        | some s2 ↦ load_mute_edges indices (order_by pair_before t.mute_edges) s2
      ]
    ])

unfoldable pub load_graph : Tables → WotGraph → Option WotGraph
unfolding load_snapshot restore_nodes
load_graph t g = elim (load_snapshot t) [
  | none ↦ none
  | some snapshot ↦ some (restore_nodes g snapshot)
]
