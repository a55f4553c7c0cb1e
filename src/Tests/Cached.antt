-- ===== src/Tests/Cached.antt =====
-- A cache that never evicts, and what it hands back.
use nostr_wot_oracle.Prelude.{
  List, length, ◌≢◌, none, ℕ, ◌≡◌, [], true, false, refl, arith, nat_eq, ◌⊎◌, ◌∷◌, some,
}
use nostr_wot_oracle.Prelude.Str.{Str, lit, str_eq, str_key}
use nostr_wot_oracle.Sync.Status.{default_status}
use nostr_wot_oracle.Api.Http.Types.{AppState}
use nostr_wot_oracle.Api.Http.Distance.{Moments}
use nostr_wot_oracle.Api.Http.Batch.{BatchDistanceRequest, batch_distance}
use nostr_wot_oracle.Api.Http.Batch.Total.{Complete, batch_distance-Complete}
use nostr_wot_oracle.Prelude.Dict.{Dict, lookup, insert, lookup-insert}
use nostr_wot_oracle.Graph.Adjacency.{diff, diff_loop}
use nostr_wot_oracle.Prelude.Sorted.{sort, dedup}
use nostr_wot_oracle.Graph.Interner.{intern}
use nostr_wot_oracle.Graph.Store.Update.{update_follows, rejects_follows, publish_follows}
use nostr_wot_oracle.Graph.Store.Nodes.{
  create_node, get_or_create_node_locked, get_or_create_all, get_pubkey_arc, resolve_pubkeys_arc,
}
use nostr_wot_oracle.Graph.Bfs.Types.{DistanceResult, same_node}
use nostr_wot_oracle.Cache.{
  QueryCache, get_during, invalidate_all, same_key, same_key_iff, cache_key, from_result, to_result,
  CacheKey, CachedDistance, Moka,
}
use nostr_wot_oracle.Cache
use nostr_wot_oracle.Cache.Laws.{to_result-from_result}
use nostr_wot_oracle.Cache.Laws.History.{
  Insertion, Use, inserts, invalidates, last_insertion, Answers, use_cache, get_during-Answers,
}
use nostr_wot_oracle.Tests.Samples.{ann, bob, cat, small, small-WellFormed}

pub read-write :
    (c : Dict CacheKey CachedDistance) (j k : CacheKey) (v w : CachedDistance)
    → lookup j (insert k v c) ≡ some w
    → ((j ≡ k) × (w ≡ v)) ⊎ ((j ≢ k) × (lookup j c ≡ some w))
read-write c j k v w h = ground (arith, lookup-insert k j v c, same_key_iff k j)

pub nothing_cached : (k : CacheKey) → lookup {V = CachedDistance} k [] ≡ none
unfolding lookup
nothing_cached k = refl

abbrev pub eternal : Moka
eternal = record {
  Entries = Dict CacheKey CachedDistance;
  build = λ n t. [];
  read = λ c k. lookup k c;
  write = λ c k v. insert k v c;
  clear = λ c. [];
  entry_count = length;
  max_capacity = λ c. none;
  read-build = λ n t k. nothing_cached k;
  read-write = read-write;
  read-clear = λ c k. nothing_cached k;
}

-- `ann` reaches `bob` in two hops over `cat`, say.
abbrev result : DistanceResult
result = record {
  from = ann;
  to = bob;
  hops = some 2;
  path_count = 1;
  mutual_follow = false;
  bridges = some (cat ∷ []);
}

abbrev key : CacheKey
key = record { from_id = 0; to_id = 1; max_hops = 3; include_bridges = true }

abbrev pub cached : CachedDistance
cached = record {
  revision = 4;
  hops = some 2;
  path_count = 1;
  mutual_follow = false;
  bridge_ids = some (2 ∷ []);
}

abbrev pub warm : QueryCache eternal
warm = record { entries = (key, cached) ∷ []; ttl_secs = 300 }

names_known :
    (lookup ann small.pubkey_to_id ≡ some 0)
    × (lookup bob small.pubkey_to_id ≡ some 1)
    × (lookup cat small.pubkey_to_id ≡ some 2)
unfolding update_follows get_or_create_node_locked create_node get_or_create_all rejects_follows
    publish_follows intern lookup insert str_eq
names_known = (refl, refl, refl)

to_result-from_result_example :
    to_result (from_result result small 4) small small small 0 1 ≡ some result
to_result-from_result_example =
    to_result-from_result small small-WellFormed result 0 1 4 names_known.0 names_known.1
      ((2, names_known.2), tt)

-- The result is inserted, invalidated, and inserted again, beside one that came too late.
abbrev uses : List Use
uses =
    inserts (record { key = key; result = same_node ann; graph = small; revision = 4 })
    ∷ invalidates
    ∷ inserts (record { key = key; result = result; graph = small; revision = 4 })
    ∷ inserts (record { key = key; result = same_node ann; graph = small; revision = 3 })
    ∷ []

hit :
    get_during eternal
      (use_cache eternal uses (Cache.new eternal 100 300))
      key
      small
      small
      small
      small
      small
    ≡ some result
unfolding update_follows get_or_create_node_locked create_node get_or_create_all rejects_follows
    publish_follows intern lookup insert str_eq get_during to_result diff diff_loop sort dedup
    get_pubkey_arc resolve_pubkeys_arc Cache.new Cache.insert invalidate_all from_result
hit = refl

get_during-Answers_example :
    (i : Insertion) × (last_insertion key uses none ≡ some i)
    × Answers key i small small small small small result
get_during-Answers_example =
    get_during-Answers eternal 100 300 uses key small small small small small result hit

-- 64 digits.
abbrev pub long_key : Str
long_key = lit "0123456789abcdef0123456789abcdef0123456789abcdef0123456789abcdef"

abbrev pub state : AppState eternal
state = record { graph = small; cache = warm; query_slots = 1; sync = default_status }

abbrev request : BatchDistanceRequest
request = record {
  from = long_key;
  targets = long_key ∷ long_key ∷ [];
  max_hops = 3;
  include_bridges = true;
  bypass_cache = false;
}

abbrev quiet : ℕ → Moments
quiet i = record { at_revision = small; at_search = small; at_insert = small }

batch_distance-Complete_example :
    Complete eternal request (batch_distance eternal state request quiet true).1
batch_distance-Complete_example = batch_distance-Complete eternal request state quiet true
