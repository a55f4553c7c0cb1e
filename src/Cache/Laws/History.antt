-- ===== src/Cache/Laws/History.antt =====
-- Reads of the cache of src/cache.rs after any insertions and invalidations.
use nostr_wot_oracle.Prelude.{
  ℕ, ◌≡◌, List, [], ◌∷◌, ◌&&◌, Option, none, some, arith, filter_map, if◌then◌else◌, ◌==◌,
  Bool-cases, inl, inr,
}
use mathlib.Core.Option
use nostr_wot_oracle.Prelude.Str.{str_key}
use nostr_wot_oracle.Graph.Store.Types.{WotGraph}
use nostr_wot_oracle.Graph.Store.Nodes.{get_node_id, get_pubkey_arc, resolve_pubkeys_arc}
use nostr_wot_oracle.Graph.Bfs.Types.{DistanceResult}
use nostr_wot_oracle.Cache.{
  CacheKey, CachedDistance, same_key, same_key_iff, from_result, to_result, Moka, QueryCache, new,
  insert, invalidate_all, get_during,
}

-- A call of `insert`, with the graph that it meets.
pub record Insertion : Type 0 where
  pub key : CacheKey
  pub result : DistanceResult
  pub graph : WotGraph
  pub revision : ℕ

pub data Use : Type 0 where
  inserts : Insertion → Use
  invalidates : Use

-- The last insertion under a key whose computation was not outdated, since the last invalidation.
abbrev pub last_insertion : CacheKey → List Use → Option Insertion → Option Insertion
last_insertion key [] held = held
last_insertion key (inserts i ∷ uses) held =
    last_insertion key uses
      (if same_key key i.key && (i.graph.revision == i.revision) then some i else held)
last_insertion key (invalidates ∷ uses) held = last_insertion key uses none

-- What a read is to answer from an insertion under `key`.
pub record Answers (key : CacheKey) (i : Insertion)
    (at_start at_from at_to at_bridges at_end : WotGraph) (r : DistanceResult) : Type 0 where
  pub current : at_start.revision ≡ i.graph.revision
  pub still_current : at_end.revision ≡ i.graph.revision
  pub hops : r.hops ≡ i.result.hops
  pub path_count : r.path_count ≡ i.result.path_count
  pub mutual_follow : r.mutual_follow ≡ i.result.mutual_follow
  pub from : get_pubkey_arc at_from key.from_id ≡ some r.from
  pub to : get_pubkey_arc at_to key.to_id ≡ some r.to
  pub bridges :
      r.bridges
      ≡ Option.map
          (resolve_pubkeys_arc at_bridges)
          (Option.map (filter_map (get_node_id i.graph)) i.result.bridges)

read_back :
    (i : Insertion) (g0 g1 g2 g3 g4 : WotGraph) (e : CachedDistance) (key : CacheKey)
    (r : DistanceResult)
    → i.graph.revision ≡ i.revision
    → e ≡ from_result i.result i.graph i.revision
    → e.revision ≡ g0.revision
    → g4.revision ≡ g0.revision
    → to_result e g1 g2 g3 key.from_id key.to_id ≡ some r
    → Answers key i g0 g1 g2 g3 g4 r
unfolding to_result from_result
read_back i g0 g1 g2 g3 g4 e key r accepted stored at_start at_end resolved = record {
  current = ground arith;
  still_current = ground arith;
  hops = ground arith;
  path_count = ground arith;
  mutual_follow = ground arith;
  from = ground arith;
  to = ground arith;
  bridges = ground arith;
}

module _ (moka : Moka) where
  abbrev pub use_cache : List Use → QueryCache moka → QueryCache moka
  use_cache [] c = c
  use_cache (inserts i ∷ uses) c = use_cache uses (insert moka c i.key i.result i.graph i.revision)
  use_cache (invalidates ∷ uses) c = use_cache uses (invalidate_all moka c)

  -- An entry is that of the insertion, or gone.
  abbrev From : QueryCache moka → CacheKey → Option Insertion → Type 0
  From c key held =
      (e : CachedDistance)
      → moka.read c.entries key ≡ some e
      → (i : Insertion) × (held ≡ some i)
        × (i.graph.revision ≡ i.revision)
        × (e ≡ from_result i.result i.graph i.revision)

  insert-From :
      (c : QueryCache moka) (key : CacheKey) (held : Option Insertion) (i : Insertion)
      → From c key held
      → From
          (insert moka c i.key i.result i.graph i.revision)
          key
          (if same_key key i.key && (i.graph.revision == i.revision) then some i else held)
  unfolding insert
  insert-From c key held i h e found = elim (Bool-cases (i.graph.revision == i.revision)) [
    | inr outdated ↦
        let (k, kept, fresh, stored) = h e (ground arith) in (k, ground arith, fresh, stored)
    | inl fresh ↦
        elim (moka.read-write c.entries key i.key (from_result i.result i.graph i.revision) e
          (ground arith)) [
            | inl (same, stored) ↦ (i, ground (arith, same_key_iff key i.key), ground arith, stored)
            | inr (other, old) ↦
                let (k, kept, accepted, stored) = h e old in
                (k, ground (arith, same_key_iff key i.key), accepted, stored)
          ]
  ]

  use_cache-From :
      (uses : List Use) (c : QueryCache moka) (key : CacheKey) (held : Option Insertion)
      → From c key held
      → From (use_cache uses c) key (last_insertion key uses held)
  unfolding invalidate_all
  use_cache-From [] c key held h = h
  use_cache-From (inserts i ∷ uses) c key held h =
      use_cache-From uses (insert moka c i.key i.result i.graph i.revision) key
        (if same_key key i.key && (i.graph.revision == i.revision) then some i else held)
        (insert-From c key held i h)
  use_cache-From (invalidates ∷ uses) c key held h =
      use_cache-From uses (invalidate_all moka c) key none
        (λ e found. absurd (ground (arith, moka.read-clear c.entries key)))

  -- What a read checks before it answers.
  pub get_during_hit :
      (c : QueryCache moka) (key : CacheKey) (g0 g1 g2 g3 g4 : WotGraph) (r : DistanceResult)
      → get_during moka c key g0 g1 g2 g3 g4 ≡ some r
      → (e : CachedDistance) × (moka.read c.entries key ≡ some e)
        × (e.revision ≡ g0.revision)
        × (g4.revision ≡ g0.revision)
        × (to_result e g1 g2 g3 key.from_id key.to_id ≡ some r)
  unfolding get_during
  get_during_hit c key g0 g1 g2 g3 g4 r h = ground arith

  new-From : (capacity ttl_secs : ℕ) (key : CacheKey) → From (new moka capacity ttl_secs) key none
  unfolding new
  new-From capacity ttl_secs key e found =
      absurd (ground (arith, moka.read-build capacity ttl_secs key))

  -- From a new cache, after any insertions and invalidations, and whatever graphs a read then
  -- sees while writers run, a read that answers does so from the last insertion under its key
  -- that was not too late and that no invalidation followed. The graph had that insertion's
  -- revision when the read started and again when it ended; hops, path count and mutual follow
  -- are those inserted, the two names are those of the key's ids, and the bridges are the
  -- inserted ones, taken to ids and back to names.
  pub get_during-Answers :
      (capacity ttl_secs : ℕ) (uses : List Use) (key : CacheKey)
      (at_start at_from at_to at_bridges at_end : WotGraph) (r : DistanceResult)
      → get_during moka
          (use_cache uses (new moka capacity ttl_secs))
          key
          at_start
          at_from
          at_to
          at_bridges
          at_end
        ≡ some r
      → (i : Insertion) × (last_insertion key uses none ≡ some i)
        × Answers key i at_start at_from at_to at_bridges at_end r
  get_during-Answers capacity ttl_secs uses key g0 g1 g2 g3 g4 r h =
      let c = use_cache uses (new moka capacity ttl_secs) in
      let (e, found, at_start, at_end, resolved) = get_during_hit c key g0 g1 g2 g3 g4 r h in
      let (i, last, accepted, stored) =
        use_cache-From uses (new moka capacity ttl_secs) key none (new-From capacity ttl_secs key) e
          found in
      (i, last, read_back i g0 g1 g2 g3 g4 e key r accepted stored at_start at_end resolved)
