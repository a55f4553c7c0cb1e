-- ===== src/Graph/Store/Query.antt =====
-- The read operations of src/graph/store.rs.
use nostr_wot_oracle.Prelude.{
  nat_eq, ℕ, List, [], Bool, false, not, Option, none, some, length, get_or, get_elem?, is_empty,
  is_some, keep, filter_map, take, drop, map, sum,
}
use mathlib.Core.Option
use nostr_wot_oracle.Prelude.Str.{Str}
use nostr_wot_oracle.Prelude.Dict.{lookup}
use nostr_wot_oracle.Prelude.Sorted.{binary_search, is_found}
use nostr_wot_oracle.Graph.Adjacency.{row, intersect}
use nostr_wot_oracle.Graph.Store.Types.{WotGraph, NodeInfo, MuteList, MuteEvidence, GraphStats}
use nostr_wot_oracle.Graph.Store.Nodes.{get_node_id}

-- `pubkeys[id as usize]`; the invariant keeps every stored id in range, so the default, where the
-- source would panic, is never read.
abbrev pub name_of : WotGraph → ℕ → Str
name_of g id = get_or g.id_to_pubkey id []

-- `iter().skip(offset).take(limit).map(..)` with the length of the whole list
abbrev pub page_of : WotGraph → ℕ → ℕ → List ℕ → List Str × ℕ
page_of g offset limit ids = (map (name_of g) (take limit (drop offset ids)), length ids)

unfoldable pub get_mutes_page : WotGraph → Str → ℕ → ℕ → Option (List Str × ℕ)
get_mutes_page g pubkey offset limit = elim (get_node_id g pubkey) [
  | none ↦ none
  | some id ↦ Option.map (λ (l : MuteList). page_of g offset limit l.ids) (lookup id g.mutes)
]

-- the closure `has_edge`
unfoldable pub has_edge : WotGraph → Option ℕ → Option ℕ → Bool
unfolding binary_search
has_edge g none target = false
has_edge g (some source) none = false
has_edge g (some source) (some target) = elim (lookup source g.mutes) [
  | none ↦ false
  | some list ↦ is_found (binary_search list.ids target)
]

abbrev pub mute_list_known : WotGraph → Option ℕ → Bool
mute_list_known g none = false
mute_list_known g (some id) = is_some (lookup id g.mutes)

abbrev pub muters_of : WotGraph → Option ℕ → Option ℕ → List Str
muters_of g none to = []
muters_of g (some from) to =
    map (name_of g) (keep (λ id. has_edge g (some id) to) (row g.follows from))

unfoldable pub mute_evidence : WotGraph → Str → Str → MuteEvidence
unfolding has_edge
mute_evidence g from_pubkey to_pubkey =
    let from = get_node_id g from_pubkey in
    let to = get_node_id g to_pubkey in
    record {
      source_mutes_target = has_edge g from to;
      target_mutes_source = has_edge g to from;
      followed_muters = muters_of g from to;
      source_mute_list_known = mute_list_known g from;
      target_mute_list_known = mute_list_known g to;
    }

unfoldable pub get_follows_page : WotGraph → Str → ℕ → ℕ → Option (List Str × ℕ)
get_follows_page g pubkey offset limit = elim (get_node_id g pubkey) [
  | none ↦ none
  | some id ↦ Option.map (page_of g offset limit) (get_elem? g.follows id)
]

unfoldable pub common_follows : WotGraph → Str → Str → List Str
unfolding intersect
common_follows g from_pubkey to_pubkey = elim (get_node_id g from_pubkey) [
  | none ↦ []
  | some from ↦ elim (get_node_id g to_pubkey) [
    | none ↦ []
    | some to ↦ map (name_of g) (intersect (row g.follows from) (row g.follows to))
  ]
]

unfoldable pub get_follows : WotGraph → Str → Option (List Str)
get_follows g pubkey = elim (get_node_id g pubkey) [
  | none ↦ none
  | some id ↦ Option.map (filter_map (get_elem? g.id_to_pubkey)) (get_elem? g.follows id)
]

unfoldable pub get_followers : WotGraph → Str → Option (List Str)
get_followers g pubkey = elim (get_node_id g pubkey) [
  | none ↦ none
  | some id ↦ Option.map (filter_map (get_elem? g.id_to_pubkey)) (get_elem? g.followers id)
]

unfoldable pub get_node_info : WotGraph → Str → Option NodeInfo
get_node_info g pubkey = elim (get_node_id g pubkey) [
  | none ↦ none
  | some id ↦ get_or g.node_info id none
]

unfoldable pub stats : WotGraph → GraphStats
stats g = record {
  node_count = length g.id_to_pubkey;
  edge_count = sum (map length g.follows);
  nodes_with_follows = length (keep (λ list. not (is_empty list)) g.follows);
  mute_edge_count = sum (map (λ (e : ℕ × MuteList). length e.1.ids) g.mutes);
  nodes_with_mute_lists = length g.mutes;
}
