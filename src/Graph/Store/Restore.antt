-- ===== src/Graph/Store/Restore.antt =====
-- `restore_nodes` of src/graph/store.rs: a database snapshot merged into the live graph.
use nostr_wot_oracle.Prelude.{
  nat_eq, ℕ, suc, List, [], ◌∷◌, ◌++◌, Bool, true, false, not, ◌||◌, none, some, get_or, set, map,
  if◌then◌else◌,
}
use nostr_wot_oracle.Prelude.Str.{str_eq}
use nostr_wot_oracle.Prelude.Dict.{lookup, insert}
use nostr_wot_oracle.Prelude.Sorted.{sort, dedup}
use nostr_wot_oracle.Graph.Events.{accepts_event}
use nostr_wot_oracle.Graph.Adjacency.{row}
use nostr_wot_oracle.Graph.Store.Types.{NodeInfo, MuteList, SnapshotNode, WotGraph, next_revision}
use nostr_wot_oracle.Graph.Store.Nodes.{get_or_create_all}

-- `ids[target as usize]` for each target, then `sort_unstable` and `dedup`. Loading checks that
-- every target indexes the snapshot, so the default, where the source would panic, is never read.
abbrev pub snapshot_targets : List ℕ → List ℕ → List ℕ
snapshot_targets ids targets = dedup (sort (map (λ t. get_or ids t 0) targets))

-- `Vec<u32>` equality
abbrev pub same_ids : List ℕ → List ℕ → Bool
same_ids = str_eq

-- The state of the loop: the graph and the flags `topology_changed` and `mutes_changed`.
pub record Merge : Type 0 where
  pub graph : WotGraph
  pub topology_changed : Bool
  pub mutes_changed : Bool

unfoldable pub takes_follows : WotGraph → ℕ → NodeInfo → Bool
takes_follows g id info = elim (get_or g.node_info id none) [
  | none ↦ true
  | some old ↦
      accepts_event old.kind3_created_at old.kind3_event_id info.kind3_created_at
        info.kind3_event_id
]

unfoldable pub merge_follows : List ℕ → ℕ → SnapshotNode → Merge → Merge
unfolding takes_follows
merge_follows ids id node m =
    let targets = snapshot_targets ids node.follows in
    if takes_follows m.graph id node.info
    then record m {
      graph = record m.graph {
        follows = set m.graph.follows id targets;
        node_info = set m.graph.node_info id (some node.info);
      };
      topology_changed = m.topology_changed || not (same_ids (row m.graph.follows id) targets);
    }
    else m

unfoldable pub takes_mutes : WotGraph → ℕ → MuteList → Bool
takes_mutes g id list = elim (lookup id g.mutes) [
  | none ↦ true
  | some old ↦ accepts_event old.created_at old.event_id list.created_at list.event_id
]

unfoldable pub merge_mutes : List ℕ → ℕ → SnapshotNode → Merge → Merge
unfolding takes_mutes
merge_mutes ids id node m = elim node.mutes [
  | none ↦ m
  | some list ↦
      if takes_mutes m.graph id list
      then record m {
        graph = record m.graph {
          mutes = insert id (record list { ids = snapshot_targets ids list.ids }) m.graph.mutes;
        };
        mutes_changed = true;
      }
      else m
]

-- `for (index, node) in nodes.into_iter().enumerate()`, with the ids that are still to come.
unfoldable pub merge_loop : List ℕ → List ℕ → List SnapshotNode → Merge → Merge
unfolding merge_follows merge_mutes
merge_loop ids [] nodes m = m
merge_loop ids (id ∷ rest) [] m = m
merge_loop ids (id ∷ rest) (node ∷ nodes) m =
    merge_loop ids rest nodes (merge_mutes ids id node (merge_follows ids id node m))

-- `followers[target].push(source)` for each target of a row
unfoldable pub push_source : ℕ → List ℕ → List (List ℕ) → List (List ℕ)
push_source source [] rows = rows
push_source source (target ∷ targets) rows =
    push_source source targets (set rows target (row rows target ++ source ∷ []))

-- The reverse adjacency, rebuilt in source-id order.
unfoldable pub rebuild_followers : ℕ → List (List ℕ) → List (List ℕ) → List (List ℕ)
unfolding push_source
rebuild_followers source [] rows = rows
rebuild_followers source (targets ∷ follows) rows =
    rebuild_followers (suc source) follows (push_source source targets rows)

abbrev pub cleared : List (List ℕ) → List (List ℕ)
cleared = map (λ _. [])

unfoldable pub finish_merge : Merge → WotGraph
unfolding rebuild_followers
finish_merge m = record m.graph {
  followers =
      if m.topology_changed
      then rebuild_followers 0 m.graph.follows (cleared m.graph.followers)
      else m.graph.followers;
  revision =
      if m.topology_changed || m.mutes_changed
      then next_revision m.graph.revision
      else m.graph.revision;
}

unfoldable pub restore_nodes : WotGraph → List SnapshotNode → WotGraph
unfolding merge_loop finish_merge
restore_nodes g nodes =
    let (g', ids) = get_or_create_all g (map (λ (n : SnapshotNode). n.pubkey) nodes) in
    finish_merge (
      merge_loop ids ids nodes
        (record { graph = g'; topology_changed = false; mutes_changed = false }))
