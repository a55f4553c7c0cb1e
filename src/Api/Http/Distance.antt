-- ===== src/Api/Http/Distance.antt =====
-- `get_distance` of src/api/http.rs.
pub mod Entries
pub mod Coherent
use nostr_wot_oracle.Prelude.{ℕ, Bool, Option, none, some, if◌then◌else◌}
use nostr_wot_oracle.Graph.Store.Types.{WotGraph}
use nostr_wot_oracle.Graph.Store.Nodes.{get_node_id}
use nostr_wot_oracle.Graph.Bfs.Types.{DistanceQuery, DistanceResult}
use nostr_wot_oracle.Graph.Bfs.Distance.{compute_distance}
use nostr_wot_oracle.Cache
use nostr_wot_oracle.Cache.{CacheKey, Moka, QueryCache}
use nostr_wot_oracle.Api.Http.Types.{
  Result, ok, err, ◌>>◌, DistanceQueryParams, validate_pubkey, validate_max_hops, query_permit,
  join, AppState,
}

-- Writers may run between the parts of a request: the graph when the blocking task reads the
-- revision, when it searches, and when the result is inserted.
pub record Moments : Type 0 where
  pub at_revision : WotGraph
  pub at_search : WotGraph
  pub at_insert : WotGraph

-- No writer runs during a request.
abbrev pub still : WotGraph → Moments
still g = record { at_revision = g; at_search = g; at_insert = g }

abbrev pub query_of : DistanceQueryParams → DistanceQuery
query_of params = record {
  from = params.from;
  to = params.to;
  max_hops = params.max_hops;
  include_bridges = params.include_bridges;
}

-- `from_id.zip(to_id)` as a key
abbrev pub key_of : Option ℕ → Option ℕ → ℕ → Bool → Option CacheKey
key_of none to_id max_hops include_bridges = none
key_of (some from_id) none max_hops include_bridges = none
key_of (some from_id) (some to_id) max_hops include_bridges = some (record {
  from_id = from_id;
  to_id = to_id;
  max_hops = max_hops;
  include_bridges = include_bridges;
})

-- `a.or_else(|| b)`
abbrev pub or_else : Option ℕ → Option ℕ → Option ℕ
or_else none b = b
or_else (some a) b = some a

module _ (moka : Moka) where
  -- The lookup before the search.
  unfoldable pub cached_answer :
      WotGraph → QueryCache moka → Bool → Option CacheKey → Option DistanceResult
  cached_answer g cache bypass_cache none = none
  cached_answer g cache bypass_cache (some key) =
      if bypass_cache then none else Cache.get moka cache key g

  -- The insert after the search.
  unfoldable pub remember :
      QueryCache moka → Option CacheKey → DistanceResult → WotGraph → ℕ → QueryCache moka
  remember cache none result g revision = cache
  remember cache (some key) result g revision = Cache.insert moka cache key result g revision

  -- The search on a blocking thread, and the insert.
  unfoldable pub search_and_remember :
      AppState moka → DistanceQueryParams → Moments → AppState moka × DistanceResult
  unfolding compute_distance remember
  search_and_remember state params m =
      let result = compute_distance m.at_search (query_of params) in
      let from_id =
        or_else (get_node_id state.graph params.from) (get_node_id m.at_insert params.from) in
      let to_id = or_else (get_node_id state.graph params.to) (get_node_id m.at_insert params.to) in
      (
        record state {
          cache =
              remember state.cache (key_of from_id to_id params.max_hops params.include_bridges)
                result m.at_insert m.at_revision.revision;
        },
        result,
      )

  abbrev pub validate_distance : DistanceQueryParams → Result (Unit {0})
  validate_distance params = do
    validate_pubkey params.from
    validate_pubkey params.to
    validate_max_hops params.max_hops

  unfoldable pub get_distance :
      AppState moka → DistanceQueryParams → Moments → Bool → AppState moka × Result DistanceResult
  unfolding cached_answer search_and_remember query_permit validate_pubkey validate_max_hops
  get_distance state params m joined =
      let key =
        key_of (get_node_id state.graph params.from) (get_node_id state.graph params.to)
          params.max_hops params.include_bridges in
      let (state', result) = search_and_remember state params m in
      elim (validate_distance params) [
        | err e ↦ (state, err e)
        | ok _ ↦ elim (cached_answer state.graph state.cache params.bypass_cache key) [
          | some hit ↦ (state, ok hit)
          | none ↦ elim (query_permit state.query_slots >> join joined) [
            | err e ↦ (state, err e)
            | ok _ ↦ (state', ok result)
          ]
        ]
      ]
