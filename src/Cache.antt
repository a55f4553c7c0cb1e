-- ===== src/Cache.antt =====
-- src/cache.rs: distance results by node ids, tied to the revision of the graph.
-- The store behind it is the crate moka: a parameter, with what the program relies on as its laws.
pub mod Laws
use nostr_wot_oracle.Prelude.{
  ℕ, ◌≡◌, ◌≢◌, ◌↔◌, ◌⊎◌, Eq, arith, List, [], ◌∷◌, Bool, true, false, ◌&&◌, Option, none, some,
  if◌then◌else◌, ◌==◌, filter_map, unwrap_or,
}
use mathlib.Core.Option
use nostr_wot_oracle.Prelude.Str.{Str}
use nostr_wot_oracle.Graph.Store.Types.{WotGraph}
use nostr_wot_oracle.Graph.Store.Nodes.{get_node_id, get_pubkey_arc, resolve_pubkeys_arc}
use nostr_wot_oracle.Graph.Bfs.Types.{DistanceResult}

pub record CacheKey : Type 0 where
  pub from_id : ℕ
  pub to_id : ℕ
  pub max_hops : ℕ
  pub include_bridges : Bool

-- The derived `PartialEq` of keys.
abbrev pub same_flag : Bool → Bool → Bool
same_flag true b = b
same_flag false true = false
same_flag false false = true

abbrev pub same_key : CacheKey → CacheKey → Bool
same_key j k =
    (j.from_id == k.from_id)
    && ((j.to_id == k.to_id)
        && ((j.max_hops == k.max_hops) && same_flag j.include_bridges k.include_bridges))

pub same_key_iff : (j k : CacheKey) → (same_key j k ≡ true) ↔ (j ≡ k)
same_key_iff j k = ground arith

instance abbrev pub cache_key : Eq CacheKey
cache_key = record { beq = same_key; beq_iff = same_key_iff }

pub record CachedDistance : Type 0 where
  pub revision : ℕ
  pub hops : Option ℕ
  pub path_count : ℕ
  pub mutual_follow : Bool
  pub bridge_ids : Option (List ℕ)

unfoldable pub from_result : DistanceResult → WotGraph → ℕ → CachedDistance
from_result result graph revision = record {
  revision = revision;
  hops = result.hops;
  path_count = result.path_count;
  mutual_follow = result.mutual_follow;
  bridge_ids = Option.map (filter_map (get_node_id graph)) result.bridges;
}

-- `to_result` locks the names three times: for each end, and for the bridges.
unfoldable pub to_result :
    CachedDistance → WotGraph → WotGraph → WotGraph → ℕ → ℕ → Option DistanceResult
unfolding get_pubkey_arc resolve_pubkeys_arc
to_result c at_from at_to at_bridges from_id to_id = elim (get_pubkey_arc at_from from_id) [
  | none ↦ none
  | some from ↦ elim (get_pubkey_arc at_to to_id) [
    | none ↦ none
    | some to ↦ some (record {
      from = from;
      to = to;
      hops = c.hops;
      path_count = c.path_count;
      mutual_follow = c.mutual_follow;
      bridges = Option.map (resolve_pubkeys_arc at_bridges) c.bridge_ids;
    })
  ]
]

-- `moka::sync::Cache<CacheKey, CachedDistance>`. Entries may be evicted at any time, so a read that
-- finds something finds what was written last under that key, and a read may find nothing.
pub record Moka : Type 1 where
  pub Entries : Type 0
  pub build : ℕ → ℕ → Entries
  pub read : Entries → CacheKey → Option CachedDistance
  pub write : Entries → CacheKey → CachedDistance → Entries
  pub clear : Entries → Entries
  pub entry_count : Entries → ℕ
  pub max_capacity : Entries → Option ℕ
  pub read-build : (capacity ttl : ℕ) (k : CacheKey) → read (build capacity ttl) k ≡ none
  pub read-write :
      (c : Entries) (j k : CacheKey) (v w : CachedDistance)
      → read (write c k v) j ≡ some w
      → ((j ≡ k) × (w ≡ v)) ⊎ ((j ≢ k) × (read c j ≡ some w))
  pub read-clear : (c : Entries) (k : CacheKey) → read (clear c) k ≡ none

pub record CacheStats : Type 0 where
  pub size : ℕ
  pub capacity : ℕ
  pub ttl_secs : ℕ

module _ (moka : Moka) where
  open moka use {Entries, build, read, write, clear, entry_count, max_capacity}

  pub record QueryCache : Type 0 where
    pub entries : Entries
    pub ttl_secs : ℕ

  unfoldable pub new : ℕ → ℕ → QueryCache
  new max_capacity ttl_secs = record { entries = build max_capacity ttl_secs; ttl_secs = ttl_secs }

  -- `get` reads the graph five times while writers may run: the revision when it starts, the names
  -- of the two ends and of the bridges, and the revision again.
  unfoldable pub get_during :
      QueryCache
      → CacheKey
      → WotGraph
      → WotGraph
      → WotGraph
      → WotGraph
      → WotGraph
      → Option DistanceResult
  unfolding to_result
  get_during c key at_start at_from at_to at_bridges at_end = elim (read c.entries key) [
    | none ↦ none
    | some cached ↦
        if cached.revision == at_start.revision
        then elim (to_result cached at_from at_to at_bridges key.from_id key.to_id) [
          | none ↦ none
          | some result ↦ if at_end.revision == at_start.revision then some result else none
        ]
        else none
  ]

  -- `get` when no writer runs.
  unfoldable pub get : QueryCache → CacheKey → WotGraph → Option DistanceResult
  unfolding get_during
  get c key g = get_during c key g g g g g

  unfoldable pub insert : QueryCache → CacheKey → DistanceResult → WotGraph → ℕ → QueryCache
  unfolding from_result
  insert c key result g revision =
      if g.revision == revision
      then record c { entries = write c.entries key (from_result result g revision) }
      else c

  unfoldable pub invalidate_all : QueryCache → QueryCache
  invalidate_all c = record c { entries = clear c.entries }

  unfoldable pub stats : QueryCache → CacheStats
  stats c = record {
    size = entry_count c.entries;
    capacity = unwrap_or (max_capacity c.entries) 0;
    ttl_secs = c.ttl_secs;
  }
