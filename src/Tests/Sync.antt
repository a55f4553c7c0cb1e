-- ===== src/Tests/Sync.antt =====
-- The configuration of an environment, and ingestion over a small database and cache.
use nostr_wot_oracle.Sync.Ingest.{
  start, SeenCache, Ingestion, Input, event, tick, shutdown, flush, run_loop, batch_size,
}
use nostr_wot_oracle.Sync.Ending.{start_ends}
use nostr_wot_oracle.Prelude.{
  is_some, ◌++◌, false, ℕ, ◌+◌, ◌<◌, ◌≡◌, ◌⊎◌, ◌&&◌, ◌==◌, Bool, true, List, [], ◌∷◌, Option, ltb,
  length, refl, arith, ◌≤◌, none, some, if◌then◌else◌,
}
use nostr_wot_oracle.Prelude.Dict.{lookup}
use nostr_wot_oracle.Sync.Persist.{
  winners_loop, update_key, Database, FollowUpdateBatch, apply_all, select,
}
use nostr_wot_oracle.Sync.Winners.{Wins, winners_loop-Wins}
use nostr_wot_oracle.Prelude.Int.{pos}
use nostr_wot_oracle.Prelude.Str.{Str, str_eq_iff, str_eq, lit}
use nostr_wot_oracle.Graph.Store.Types.{new}
use nostr_wot_oracle.Sync.Status.{default_status}
use nostr_wot_oracle.Sync.Events.{ListUpdate, SeenEvent}
use nostr_wot_oracle.Sync.Flush.{flush_lem, run_loop-Bounded}
use nostr_wot_oracle.Tests.Samples.{ann, bob}
use nostr_wot_oracle.Config.{Env, from_env, from_env_bounds}

abbrev environment : Env
environment name =
    if str_eq name (lit "MAX_HOPS")
    then some (lit "9")
    else if str_eq name (lit "CACHE_SIZE")
    then some (lit "7")
    else none

from_env_bounds_example :
    ((1 ≤ (from_env environment).rate_limit_per_minute)
      × ((from_env environment).rate_limit_per_minute ≤ 1000))
    × ((1 ≤ (from_env environment).max_hops) × ((from_env environment).max_hops ≤ 5))
    × ((100 ≤ (from_env environment).cache_size) × ((from_env environment).cache_size ≤ 100_000))
    × ((10 ≤ (from_env environment).cache_ttl_secs)
        × ((from_env environment).cache_ttl_secs ≤ 3600))
from_env_bounds_example = from_env_bounds environment

abbrev count_batch : ℕ → List FollowUpdateBatch → ℕ × Option ℕ
count_batch s b = if ltb 2 (length b) then (s, none) else (s + length b, some (length b))

count_failed :
    (s : ℕ) (b : List FollowUpdateBatch) → (count_batch s b).1 ≡ none → (count_batch s b).0 ≡ s
count_failed s b h = ground arith

-- A database that counts what it was given, and refuses a batch of more than two items.
abbrev small_database : Database
small_database = record {
  State = ℕ;
  Committed = ℕ;
  committed = λ s. s;
  update_follows_batch = count_batch;
  update_mutes_batch = count_batch;
  follows_failed = count_failed;
  mutes_failed = count_failed;
}

abbrev same_slot : Str × ℕ → Str × ℕ → Bool
same_slot j k = str_eq j.0 k.0 && (j.1 == k.1)

abbrev read_slot : Option ((Str × ℕ) × SeenEvent) → Str × ℕ → Option SeenEvent
read_slot none k = none
read_slot (some (j, v)) k = if same_slot j k then some v else none

read_put :
    (c : Option ((Str × ℕ) × SeenEvent)) (j k : Str × ℕ) (v w : SeenEvent)
    → read_slot (some (k, v)) j ≡ some w
    → ((j ≡ k) × (w ≡ v)) ⊎ (read_slot c j ≡ some w)
read_put c j k v w h = ground (arith, str_eq_iff k.0 j.0)

-- A cache of one entry.
abbrev one_slot : SeenCache
one_slot = record {
  Seen = Option ((Str × ℕ) × SeenEvent);
  empty = none;
  get = read_slot;
  put = λ c k v. some (k, v);
  get-empty = λ k. refl;
  get-put = read_put;
}

abbrev pending : ListUpdate
pending = record {
  kind = 3;
  pubkey = ann;
  follows = bob ∷ [];
  event_id = lit "e1";
  created_at = pos 10;
}

abbrev idle : Ingestion small_database one_slot
idle = record { db = 0; graph = new; status = default_status; seen = none; batch = pending ∷ [] }

abbrev always : ℕ → Bool
always attempt = true

flush_lem_example :
    ((flush small_database one_slot always 1000 idle).0.graph ≡ (
      if (flush small_database one_slot always 1000 idle).1
      then apply_all new (select (pending ∷ []))
      else new))
    × ((flush small_database one_slot always 1000 idle).0.batch ≡ [])
flush_lem_example = flush_lem small_database one_slot always 1000 idle

abbrev arrivals : List (Input × ℕ × (ℕ → Bool))
arrivals =
    (
      event (record { id = lit "e2"; pubkey = bob; kind = 3; created_at = 900; tags = [] }),
      1000,
      always,
    )
    ∷ (tick, 1010, always)
    ∷ (shutdown true, 1020, always)
    ∷ []

run_loop-Bounded_example :
    length (run_loop small_database one_slot arrivals idle).0.batch < batch_size
run_loop-Bounded_example = run_loop-Bounded small_database one_slot arrivals idle (omega arith)

-- A later event of the same author, and one of another author.
abbrev received : List ListUpdate
received =
    pending
    ∷ record pending { follows = []; created_at = pos 20; event_id = lit "e3" }
    ∷ record pending { pubkey = bob }
    ∷ []

winners_loop-Wins_example :
    Wins received (3, ann) (lookup (3, ann) (winners_loop received 0 received []))
winners_loop-Wins_example = winners_loop-Wins received (3, ann)

start_ends_example :
    let result =
      start small_database one_slot
        (lit "wss://relay" ∷ [])
        true
        true
        (((tick, 1000, always) ∷ []) ++ (shutdown true, 1010, always) ∷ [])
        idle in
    (is_some result.1 ≡ true) × (result.0.status.running ≡ false)
start_ends_example =
    start_ends small_database one_slot (shutdown true) refl 1010 always [] (lit "wss://relay" ∷ [])
      true true ((tick, 1000, always) ∷ []) idle
