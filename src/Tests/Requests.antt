-- ===== src/Tests/Requests.antt =====
-- A follow list, a query, a mute list, and the query again.
use nostr_wot_oracle.Prelude.{◌≡◌, List, [], ◌∷◌, true, false, some, refl, arith}
use nostr_wot_oracle.Prelude.Str.{Str, lit, str_eq}
use nostr_wot_oracle.Prelude.Int.{ltbℤ}
use nostr_wot_oracle.Graph.Events.{accepts_event}
use nostr_wot_oracle.Prelude.Dict.{lookup, insert}
use nostr_wot_oracle.Graph.Interner.{intern}
use nostr_wot_oracle.Graph.Store.Types.{new}
use nostr_wot_oracle.Graph.Store.Nodes.{
  create_node, get_or_create_node_locked, get_or_create_all, get_pubkey_arc, resolve_pubkeys_arc,
}
use nostr_wot_oracle.Graph.Store.Update.{update_follows, rejects_follows, publish_follows}
use nostr_wot_oracle.Graph.Store.Invariant.{new-WellFormed}
use nostr_wot_oracle.Graph.Bfs.Types.{DistanceResult}
use nostr_wot_oracle.Graph.Bfs.Distance.{compute_distance, distance_between, is_direct}
use nostr_wot_oracle.Graph.Adjacency.{diff, diff_loop}
use nostr_wot_oracle.Prelude.Sorted.{sort, dedup, binary_search}
use nostr_wot_oracle.Cache
use nostr_wot_oracle.Cache.{get_during, from_result, to_result}
use nostr_wot_oracle.Sync.Status.{default_status}
use nostr_wot_oracle.Api.Http.Types.{
  AppState, ok, DistanceQueryParams, validate_pubkey, validate_max_hops, query_permit,
}
use nostr_wot_oracle.Api.Http.Distance.{
  still, query_of, get_distance, cached_answer, search_and_remember, remember,
}
use nostr_wot_oracle.Api.Http.Distance.Coherent.{
  Event, follows_event, query_event, happen_all, get_distance-current,
}
use nostr_wot_oracle.Tests.Cached.{eternal, long_key}
use nostr_wot_oracle.Tests.Samples.{first_id, second_id, at_ten, at_twenty}

abbrev target : Str
target = lit "f123456789abcdef0123456789abcdef0123456789abcdef0123456789abcdef"

abbrev asks : DistanceQueryParams
asks = record {
  from = long_key;
  to = target;
  max_hops = 3;
  include_bridges = true;
  bypass_cache = false;
}

abbrev events : List (Event eternal)
events =
    follows_event long_key (target ∷ []) first_id at_ten
    ∷ query_event asks true
    ∷ follows_event long_key (target ∷ []) second_id at_twenty
    ∷ []

abbrev later : AppState eternal
later = happen_all eternal events (record {
  graph = new;
  cache = Cache.new eternal 100 300;
  query_slots = 1;
  sync = default_status;
})

abbrev answer : DistanceResult
answer = record {
  from = long_key;
  to = target;
  hops = some 1;
  path_count = 1;
  mutual_follow = false;
  bridges = some [];
}

-- The newer list names the same key, so the entry still serves.
cached :
    cached_answer eternal later.graph later.cache false
      (some (record { from_id = 0; to_id = 1; max_hops = 3; include_bridges = true }))
    ≡ some answer
unfolding get_distance cached_answer search_and_remember remember query_permit validate_pubkey
    validate_max_hops Cache.get Cache.new Cache.insert update_follows get_or_create_node_locked
    create_node get_or_create_all rejects_follows publish_follows intern lookup insert str_eq
    get_during from_result to_result diff diff_loop sort dedup get_pubkey_arc resolve_pubkeys_arc
    compute_distance distance_between is_direct binary_search accepts_event ltbℤ
cached = refl

answered : (get_distance eternal later asks (still later.graph) true).1 ≡ ok answer
unfolding get_distance cached_answer search_and_remember remember query_permit validate_pubkey
    validate_max_hops Cache.get Cache.new Cache.insert update_follows get_or_create_node_locked
    create_node get_or_create_all rejects_follows publish_follows intern lookup insert str_eq
    get_during from_result to_result diff diff_loop sort dedup get_pubkey_arc resolve_pubkeys_arc
    compute_distance distance_between is_direct binary_search accepts_event ltbℤ
answered = refl

get_distance-current_example : answer ≡ compute_distance later.graph (query_of asks)
get_distance-current_example =
    get_distance-current eternal new 100 300 1 default_status events asks true answer new-WellFormed
      (omega arith) (omega arith) answered
