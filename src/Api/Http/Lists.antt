-- ===== src/Api/Http/Lists.antt =====
-- The other read handlers of src/api/http.rs.
use nostr_wot_oracle.Prelude.{ℕ, List, [], Bool, Option, if◌then◌else◌, min, unwrap_or, is_some}
use nostr_wot_oracle.Prelude.Str.{Str}
use nostr_wot_oracle.Graph.Store.Types.{WotGraph, MuteEvidence}
use nostr_wot_oracle.Graph.Store.Query.{
  get_follows_page, get_mutes_page, common_follows, mute_evidence, stats,
}
use nostr_wot_oracle.Graph.Bfs.Types.{DistanceResult, PathQuery}
use nostr_wot_oracle.Graph.Bfs.Path.{compute_path}
use nostr_wot_oracle.Cache
use nostr_wot_oracle.Cache.{Moka, CacheStats}
use nostr_wot_oracle.Graph.Metrics
use nostr_wot_oracle.Graph.Metrics.{LockMetrics, LockMetricsSnapshot}
use nostr_wot_oracle.Sync.Status.{SyncSnapshot, ready, snapshot}
use nostr_wot_oracle.Api.Http.Types.{
  Result, ok, ◌>>=◌, ◌>>◌, DistanceQueryParams, validate_pubkey, validate_max_hops, query_permit,
  join, AppState,
}
use nostr_wot_oracle.Api.Http.Distance.{Moments, get_distance}

pub record FollowsQueryParams : Type 0 where
  pub pubkey : Str
  pub limit : ℕ
  pub offset : ℕ

abbrev pub default_follows_limit : ℕ
default_follows_limit = 500

pub record CommonFollowsQueryParams : Type 0 where
  pub from : Str
  pub to : Str

pub record PathQueryParams : Type 0 where
  pub from : Str
  pub to : Str
  pub max_hops : ℕ

pub record FollowsResponse : Type 0 where
  pub pubkey : Str
  pub follows : List Str
  pub total : ℕ

pub record CommonFollowsResponse : Type 0 where
  pub from : Str
  pub to : Str
  pub common_follows : List Str

pub record PathResponse : Type 0 where
  pub from : Str
  pub to : Str
  pub path : Option (List Str)

pub record MutesResponse : Type 0 where
  pub pubkey : Str
  pub mutes : List Str
  pub total : ℕ
  pub public_list_known : Bool

pub record TrustResponse : Type 0 where
  pub follow_distance : DistanceResult
  pub public_mute_evidence : MuteEvidence

pub record StatsResponse : Type 0 where
  pub node_count : ℕ
  pub edge_count : ℕ
  pub nodes_with_follows : ℕ
  pub mute_edge_count : ℕ
  pub nodes_with_mute_lists : ℕ
  pub sync : SyncSnapshot
  pub cache : CacheStats
  pub locks : LockMetricsSnapshot

-- `limit.min(5000)`
abbrev pub page_limit : ℕ → ℕ
page_limit limit = min limit 5000

module _ (moka : Moka) where
  unfoldable pub get_follows : AppState moka → FollowsQueryParams → Result FollowsResponse
  unfolding validate_pubkey get_follows_page
  get_follows state params = do
    validate_pubkey params.pubkey
    let page =
        unwrap_or
          (get_follows_page state.graph params.pubkey params.offset (page_limit params.limit))
          ([], 0)
    ok (record { pubkey = params.pubkey; follows = page.0; total = page.1 })

  unfoldable pub get_common_follows :
      AppState moka → CommonFollowsQueryParams → Bool → Result CommonFollowsResponse
  unfolding validate_pubkey query_permit common_follows
  get_common_follows state params joined = do
    validate_pubkey params.from
    validate_pubkey params.to
    query_permit state.query_slots
    join joined
    ok (record {
      from = params.from;
      to = params.to;
      common_follows = common_follows state.graph params.from params.to;
    })

  unfoldable pub get_path : AppState moka → PathQueryParams → Bool → Result PathResponse
  unfolding validate_pubkey validate_max_hops query_permit compute_path
  get_path state params joined = do
    validate_pubkey params.from
    validate_pubkey params.to
    validate_max_hops params.max_hops
    query_permit state.query_slots
    join joined
    let query : PathQuery = record {
      from = params.from;
      to = params.to;
      max_hops = params.max_hops;
    }
    ok (record { from = params.from; to = params.to; path = (compute_path state.graph query).path })

  unfoldable pub get_mutes : AppState moka → FollowsQueryParams → Result MutesResponse
  unfolding validate_pubkey get_mutes_page
  get_mutes state params = do
    validate_pubkey params.pubkey
    let page = get_mutes_page state.graph params.pubkey params.offset (page_limit params.limit)
    ok (record {
      pubkey = params.pubkey;
      mutes = (unwrap_or page ([], 0)).0;
      total = (unwrap_or page ([], 0)).1;
      public_list_known = is_some page;
    })

  -- The distance first, with its own permit, and then the evidence with another; the graph may have
  -- changed in between.
  unfoldable pub get_trust :
      AppState moka
      → DistanceQueryParams
      → Moments
      → WotGraph
      → Bool
      → Bool
      → AppState moka × Result TrustResponse
  unfolding get_distance query_permit mute_evidence
  get_trust state params m later joined_distance joined_evidence =
      let (state', distance) = get_distance moka state params m joined_distance in
      (
        state',
        do
          follow_distance ← distance
          query_permit state'.query_slots
          join joined_evidence
          ok (record {
            follow_distance = follow_distance;
            public_mute_evidence = mute_evidence later params.from params.to;
          }),
      )

  -- The status code and the snapshot of `/ready`.
  unfoldable pub ready_response : AppState moka → ℕ → ℕ × SyncSnapshot
  unfolding ready snapshot
  ready_response state now = (if ready state.sync now then 200 else 503, snapshot state.sync now)

  -- The counters of the graph's locks are an argument.
  unfoldable pub get_stats : AppState moka → LockMetrics → ℕ → StatsResponse
  unfolding stats snapshot Cache.stats Metrics.snapshot
  get_stats state metrics now =
      let graph_stats = stats state.graph in
      record {
        node_count = graph_stats.node_count;
        edge_count = graph_stats.edge_count;
        nodes_with_follows = graph_stats.nodes_with_follows;
        mute_edge_count = graph_stats.mute_edge_count;
        nodes_with_mute_lists = graph_stats.nodes_with_mute_lists;
        sync = snapshot state.sync now;
        cache = Cache.stats moka state.cache;
        locks = Metrics.snapshot metrics;
      }
