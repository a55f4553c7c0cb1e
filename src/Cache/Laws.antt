-- ===== src/Cache/Laws.antt =====
-- Results through the cache of src/cache.rs.
pub mod History
use nostr_wot_oracle.Prelude.{
  ℕ, ◌≡◌, List, [], ◌∷◌, Option, none, some, refl, arith, filter_map, ap,
}
use mathlib.Core.Option
use nostr_wot_oracle.Prelude.Str.{Str, str_key}
use nostr_wot_oracle.Prelude.Dict.{lookup}
use nostr_wot_oracle.Graph.Store.Types.{WotGraph}
use nostr_wot_oracle.Graph.Store.Nodes.{get_node_id, get_pubkey_arc, resolve_pubkeys_arc}
use nostr_wot_oracle.Graph.Store.Invariant.{WellFormed}
use nostr_wot_oracle.Graph.Bfs.Types.{DistanceResult}
use nostr_wot_oracle.Graph.Bfs.Reads.{Known, KnownBridges}
use nostr_wot_oracle.Cache.{from_result, to_result}

module _ (g : WotGraph) (w : WellFormed g) where
  names_roundtrip :
      (ps : List Str) → Known g ps → resolve_pubkeys_arc g (filter_map (get_node_id g) ps) ≡ ps
  unfolding resolve_pubkeys_arc
  names_roundtrip [] h = refl
  names_roundtrip (p ∷ ps) h =
      ground (arith, h.0.1, (w.named p h.0.0).0 h.0.1, names_roundtrip ps h.1)

  bridges_roundtrip :
      (o : Option (List Str))
      → KnownBridges g o
      → Option.map (resolve_pubkeys_arc g) (Option.map (filter_map (get_node_id g)) o) ≡ o
  bridges_roundtrip none h = refl
  bridges_roundtrip (some ps) h = ap some (names_roundtrip ps h)

  -- In a well-formed graph, a result about two nodes, whose bridges are all nodes, is stored
  -- as ids and read back unchanged.
  pub to_result-from_result :
      (r : DistanceResult) (i j revision : ℕ)
      → lookup r.from g.pubkey_to_id ≡ some i
      → lookup r.to g.pubkey_to_id ≡ some j
      → KnownBridges g r.bridges
      → to_result (from_result r g revision) g g g i j ≡ some r
  unfolding to_result from_result get_pubkey_arc
  to_result-from_result r i j revision from to known =
      ground
        (arith, (w.named r.from i).0 from, (w.named r.to j).0 to, bridges_roundtrip r.bridges known)
