-- ===== src/Graph/Store/Update.antt =====
-- `update_follows` and `update_mutes` of src/graph/store.rs.
use nostr_wot_oracle.Prelude.{
  nat_eq, ℕ, List, Bool, true, false, not, ◌&&◌, Option, none, some, get_or, set, is_empty,
  if◌then◌else◌,
}
use nostr_wot_oracle.Prelude.Int.{ℤ}
use nostr_wot_oracle.Prelude.Str.{Str}
use nostr_wot_oracle.Prelude.Dict.{lookup, insert}
use nostr_wot_oracle.Prelude.Sorted.{sort, dedup}
use nostr_wot_oracle.Graph.Events.{accepts_event}
use nostr_wot_oracle.Graph.Adjacency.{row, diff, remove_from_all, add_to_all}
use nostr_wot_oracle.Graph.Store.Types.{WotGraph, next_revision}
use nostr_wot_oracle.Graph.Store.Nodes.{get_or_create_node_locked, get_or_create_all}

-- The first guard: the node has metadata that the event does not replace.
unfoldable pub rejects_follows : WotGraph → ℕ → Option Str → Option ℤ → Bool
rejects_follows g node_id event_id created_at = elim (get_or g.node_info node_id none) [
  | none ↦ false
  | some info ↦ not (accepts_event info.kind3_created_at info.kind3_event_id created_at event_id)
]

-- The part after the targets have ids: difference, both adjacency lists, revision, metadata.
unfoldable pub publish_follows : WotGraph → ℕ → List ℕ → Option Str → Option ℤ → WotGraph
publish_follows g node_id new_follow_ids event_id created_at =
    let d = diff (row g.follows node_id) new_follow_ids in
    record g {
      followers = add_to_all node_id d.to_add (remove_from_all node_id d.to_remove g.followers);
      follows = set g.follows node_id new_follow_ids;
      revision =
          if is_empty d.to_remove && is_empty d.to_add
          then g.revision
          else next_revision g.revision;
      node_info =
          set g.node_info node_id
            (some (record { kind3_event_id = event_id; kind3_created_at = created_at }));
    }

unfoldable pub update_follows : WotGraph → Str → List Str → Option Str → Option ℤ → WotGraph × Bool
update_follows g pubkey follow_pubkeys event_id created_at =
    let (g', node_id) = get_or_create_node_locked g pubkey in
    if rejects_follows g' node_id event_id created_at
    then (g', false)
    else (let (g'', ids) = get_or_create_all g' follow_pubkeys in
        (publish_follows g'' node_id (dedup (sort ids)) event_id created_at, true))

unfoldable pub rejects_mutes : WotGraph → ℕ → Option Str → Option ℤ → Bool
rejects_mutes g node_id event_id created_at = elim (lookup node_id g.mutes) [
  | none ↦ false
  | some old ↦ not (accepts_event old.created_at old.event_id created_at event_id)
]

unfoldable pub publish_mutes : WotGraph → ℕ → List ℕ → Option Str → Option ℤ → WotGraph
publish_mutes g node_id mute_ids event_id created_at = record g {
  mutes =
      insert node_id (record { ids = mute_ids; event_id = event_id; created_at = created_at })
        g.mutes;
  revision = next_revision g.revision;
}

unfoldable pub update_mutes : WotGraph → Str → List Str → Option Str → Option ℤ → WotGraph × Bool
update_mutes g pubkey mute_pubkeys event_id created_at =
    let (g', node_id) = get_or_create_node_locked g pubkey in
    if rejects_mutes g' node_id event_id created_at
    then (g', false)
    else (let (g'', ids) = get_or_create_all g' mute_pubkeys in
        (publish_mutes g'' node_id (dedup (sort ids)) event_id created_at, true))
