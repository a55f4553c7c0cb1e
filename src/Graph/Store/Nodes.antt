-- ===== src/Graph/Store/Nodes.antt =====
-- Creating and naming nodes: `get_or_create_node` and the id lookups of src/graph/store.rs.
use nostr_wot_oracle.Prelude.{
  ℕ, ◌%◌, ◌^◌, List, [], ◌∷◌, ◌++◌, Option, none, some, length, get_elem?, filter_map,
}
use mathlib.Core.Option
use nostr_wot_oracle.Prelude.Str.{Str, str_key}
use nostr_wot_oracle.Prelude.Dict.{lookup, insert}
use nostr_wot_oracle.Graph.Interner.{intern}
use nostr_wot_oracle.Graph.Store.Types.{WotGraph, next_revision}

-- The part below the locks: the node is new.
unfoldable pub create_node : WotGraph → Str → WotGraph × ℕ
create_node g pubkey =
    let id = length g.id_to_pubkey % 2 ^ 32 in
    (
      record g {
        interner = (intern g.interner pubkey).0;
        id_to_pubkey = g.id_to_pubkey ++ (intern g.interner pubkey).1.text ∷ [];
        follows = g.follows ++ [] ∷ [];
        followers = g.followers ++ [] ∷ [];
        node_info = g.node_info ++ none ∷ [];
        pubkey_to_id = insert (intern g.interner pubkey).1.text id g.pubkey_to_id;
        revision = next_revision g.revision;
      },
      id,
    )

-- The checks before and after the locks see the same map, since writers are serialised.
unfoldable pub get_or_create_node_locked : WotGraph → Str → WotGraph × ℕ
unfolding create_node
get_or_create_node_locked g pubkey = elim (lookup pubkey g.pubkey_to_id) [
  | some id ↦ (g, id)
  | none ↦ create_node g pubkey
]

unfoldable pub get_or_create_node : WotGraph → Str → WotGraph × ℕ
unfolding get_or_create_node_locked
get_or_create_node g pubkey = elim (lookup pubkey g.pubkey_to_id) [
  | some id ↦ (g, id)
  | none ↦ get_or_create_node_locked g pubkey
]

-- `iter().map(|pk| self.get_or_create_node_locked(pk)).collect()`
unfoldable pub get_or_create_all : WotGraph → List Str → WotGraph × List ℕ
get_or_create_all g [] = (g, [])
get_or_create_all g (pk ∷ pks) =
    let (g', id) = get_or_create_node_locked g pk in
    let (g'', ids) = get_or_create_all g' pks in (g'', id ∷ ids)

abbrev pub get_node_id : WotGraph → Str → Option ℕ
get_node_id g pubkey = lookup pubkey g.pubkey_to_id

unfoldable pub get_node_id_and_arc : WotGraph → Str → Option (ℕ × Str)
get_node_id_and_arc g pubkey = Option.map (λ id. (id, pubkey)) (lookup pubkey g.pubkey_to_id)

unfoldable pub get_pubkey_arc_by_str : WotGraph → Str → Option Str
get_pubkey_arc_by_str g pubkey = Option.map (λ id. pubkey) (lookup pubkey g.pubkey_to_id)

unfoldable pub get_pubkey_arc : WotGraph → ℕ → Option Str
get_pubkey_arc g id = get_elem? g.id_to_pubkey id

unfoldable pub resolve_pubkeys_arc : WotGraph → List ℕ → List Str
resolve_pubkeys_arc g ids = filter_map (get_elem? g.id_to_pubkey) ids
