-- ===== src/Api/Http/Distance/Coherent.antt =====
-- `get_distance` of src/api/http.rs after any updates of the graph and any earlier queries: the
-- cache of src/cache.rs, the revisions of src/graph/store.rs and the search together.
use nostr_wot_oracle.Prelude.{
  ℕ, ◌+◌, ◌⊎◌, ◌≡◌, List, [], ◌∷◌, Bool, Option, none, some, arith, refl, sym, length, inl, inr,
}
use mathlib.Core.Path.{subst}
use nostr_wot_oracle.Prelude.Int.{ℤ}
use nostr_wot_oracle.Prelude.Str.{Str, str_key}
use nostr_wot_oracle.Graph.Store.Types.{WotGraph}
use nostr_wot_oracle.Graph.Store.Nodes.{get_node_id}
use nostr_wot_oracle.Graph.Store.Update.{update_follows, update_mutes}
use nostr_wot_oracle.Graph.Store.Invariant.{WellFormed, HasRoom}
use nostr_wot_oracle.Graph.Store.Invariant.Follows.{update_follows-WellFormed, update_follows_size}
use nostr_wot_oracle.Graph.Store.Invariant.Mutes.{update_mutes-WellFormed, update_mutes_size}
use nostr_wot_oracle.Graph.Store.Invariant.Revision.{
  HasRevisions, update_follows-Grows, update_mutes-Grows, update_follows_same_revision,
  update_mutes_same_revision, SameTopology-of_eq,
}
use nostr_wot_oracle.Graph.Bfs.Types.{DistanceResult}
use nostr_wot_oracle.Graph.Bfs.Distance.{compute_distance}
use nostr_wot_oracle.Cache
use nostr_wot_oracle.Cache.{CacheKey, CachedDistance, Moka, QueryCache, from_result, to_result}
use nostr_wot_oracle.Api.Http.Types.{ok, DistanceQueryParams, AppState}
use nostr_wot_oracle.Sync.Status.{SyncStatus}
use nostr_wot_oracle.Api.Http.Distance.{
  still, or_else, query_of, key_of, get_distance, cached_answer, search_and_remember,
}
use nostr_wot_oracle.Api.Http.Distance.Entries.{
  Coherent, Coherent-changed, Coherent-remember, cached_answer-current,
}

or_else_same : (o : Option ℕ) → or_else o o ≡ o
or_else_same none = refl
or_else_same (some i) = refl

module _ (moka : Moka) where
  -- One turn of the service: an update of the graph, or a query, with whether its task ran.
  pub data Event : Type 0 where
    follows_event mutes_event : Str → List Str → Option Str → Option ℤ → Event
    query_event : DistanceQueryParams → Bool → Event

  abbrev pub happen : Event → AppState moka → AppState moka
  happen (follows_event p ps i t) s = record s { graph = (update_follows s.graph p ps i t).0 }
  happen (mutes_event p ps i t) s = record s { graph = (update_mutes s.graph p ps i t).0 }
  happen (query_event params joined) s = (get_distance moka s params (still s.graph) joined).0

  abbrev pub happen_all : List Event → AppState moka → AppState moka
  happen_all [] s = s
  happen_all (e ∷ es) s = happen_all es (happen e s)

  -- The nodes and revisions that an event takes, at most.
  abbrev pub cost : List Event → ℕ
  cost [] = 0
  cost (follows_event p ps i t ∷ es) = (length ps + 2) + cost es
  cost (mutes_event p ps i t ∷ es) = (length ps + 2) + cost es
  cost (query_event params joined ∷ es) = cost es

  -- A state with room for `n` nodes and revisions.
  record Ready (s : AppState moka) (n : ℕ) : Type 0 where
    valid : WellFormed s.graph
    room : HasRoom s.graph n
    revisions : HasRevisions s.graph n
    coherent : Coherent s.cache s.graph

  -- A query leaves the state or remembers its search.
  state_after :
      (s : AppState moka) (params : DistanceQueryParams) (joined : Bool)
      → ((get_distance moka s params (still s.graph) joined).0 ≡ s)
        ⊎ ((get_distance moka s params (still s.graph) joined).0
            ≡ (search_and_remember moka s params (still s.graph)).0)
  unfolding get_distance
  state_after s params joined = ground arith

  -- An answer is a cached one or that of the search.
  answer_from :
      (s : AppState moka) (params : DistanceQueryParams) (joined : Bool) (d : DistanceResult)
      → (get_distance moka s params (still s.graph) joined).1 ≡ ok d
      → (cached_answer moka s.graph s.cache params.bypass_cache (
            key_of
              (get_node_id s.graph params.from)
              (get_node_id s.graph params.to)
              params.max_hops
              params.include_bridges)
          ≡ some d)
        ⊎ ((search_and_remember moka s params (still s.graph)).1 ≡ d)
  unfolding get_distance
  answer_from s params joined d h = ground arith

  query-Ready :
      (s : AppState moka) (params : DistanceQueryParams) (joined : Bool) (n : ℕ)
      → Ready s n
      → Ready (get_distance moka s params (still s.graph) joined).0 n
  unfolding search_and_remember
  query-Ready s params joined n r = elim (state_after s params joined) [
    | inl same ↦ subst (λ x. Ready x n) (sym same) r
    | inr searched ↦
        subst (λ x. Ready x n) (sym searched)
          (record {
            valid = r.valid;
            room = r.room;
            revisions = r.revisions;
            coherent =
                rw
                  (
                    or_else_same (get_node_id s.graph params.from),
                    or_else_same (get_node_id s.graph params.to),
                  )
                  (Coherent-remember moka s.cache s.graph params r.coherent);
          })
  ]

  follows-Ready :
      (s : AppState moka) (p : Str) (ps : List Str) (i : Option Str) (t : Option ℤ) (n : ℕ)
      → Ready s ((length ps + 2) + n)
      → Ready (record s { graph = (update_follows s.graph p ps i t).0 }) n
  follows-Ready s p ps i t n r =
      let room : HasRoom s.graph (length ps + 1) = omega (arith, r.room) in
      let revisions : HasRevisions s.graph (length ps + 2) = omega (arith, r.revisions) in
      let grows = update_follows-Grows s.graph p ps i t r.valid room revisions in
      record {
        valid = update_follows-WellFormed s.graph p ps i t r.valid room;
        room = omega (arith, r.room, update_follows_size s.graph p ps i t r.valid room);
        revisions = omega (arith, r.revisions, grows);
        coherent =
            Coherent-changed moka s.cache s.graph (update_follows s.graph p ps i t).0 r.coherent
              grows.0 (update_follows_same_revision s.graph p ps i t r.valid room revisions);
      }

  mutes-Ready :
      (s : AppState moka) (p : Str) (ps : List Str) (i : Option Str) (t : Option ℤ) (n : ℕ)
      → Ready s ((length ps + 2) + n)
      → Ready (record s { graph = (update_mutes s.graph p ps i t).0 }) n
  mutes-Ready s p ps i t n r =
      let room : HasRoom s.graph (length ps + 1) = omega (arith, r.room) in
      let revisions : HasRevisions s.graph (length ps + 2) = omega (arith, r.revisions) in
      let grows = update_mutes-Grows s.graph p ps i t r.valid room revisions in
      record {
        valid = update_mutes-WellFormed s.graph p ps i t r.valid room;
        room = omega (arith, r.room, update_mutes_size s.graph p ps i t r.valid room);
        revisions = omega (arith, r.revisions, grows);
        coherent =
            Coherent-changed moka s.cache s.graph (update_mutes s.graph p ps i t).0 r.coherent
              grows.0
              (λ e.
                SameTopology-of_eq s.graph (update_mutes s.graph p ps i t).0
                  (update_mutes_same_revision s.graph p ps i t r.valid room revisions e));
      }

  happen_all-Ready :
      (es : List Event) (s : AppState moka) → Ready s (cost es) → Ready (happen_all es s) 0
  happen_all-Ready [] s r = r
  happen_all-Ready (follows_event p ps i t ∷ es) s r =
      happen_all-Ready es (happen (follows_event p ps i t) s) (follows-Ready s p ps i t (cost es) r)
  happen_all-Ready (mutes_event p ps i t ∷ es) s r =
      happen_all-Ready es (happen (mutes_event p ps i t) s) (mutes-Ready s p ps i t (cost es) r)
  happen_all-Ready (query_event params joined ∷ es) s r =
      happen_all-Ready es (happen (query_event params joined) s)
        (query-Ready s params joined (cost es) r)

  -- A new cache holds nothing.
  new-Coherent :
      (capacity ttl_secs : ℕ) (g : WotGraph) → Coherent (Cache.new moka capacity ttl_secs) g
  unfolding Cache.new
  new-Coherent capacity ttl_secs g key e found =
      absurd (ground (arith, moka.read-build capacity ttl_secs key))

  -- From a well-formed graph and a new cache, with room for the nodes and the revisions, after
  -- any follow updates, mute updates and distance queries one after the other, whatever
  -- get_distance then answers, from the cache or not, is what compute_distance answers on the
  -- graph as it is.
  pub get_distance-current :
      (g : WotGraph) (capacity ttl_secs query_slots : ℕ) (sync : SyncStatus) (es : List Event)
      (params : DistanceQueryParams) (joined : Bool) (d : DistanceResult)
      → WellFormed g
      → HasRoom g (cost es)
      → HasRevisions g (cost es)
      → let s = happen_all es (record {
        graph = g;
        cache = Cache.new moka capacity ttl_secs;
        query_slots = query_slots;
        sync = sync;
      }) in
        (get_distance moka s params (still s.graph) joined).1 ≡ ok d
        → d ≡ compute_distance s.graph (query_of params)
  unfolding search_and_remember
  get_distance-current g capacity ttl_secs query_slots sync es params joined d w room revisions h =
      let s = happen_all es (record {
        graph = g;
        cache = Cache.new moka capacity ttl_secs;
        query_slots = query_slots;
        sync = sync;
      }) in
      let r = happen_all-Ready es _ (record {
        valid = w;
        room = room;
        revisions = revisions;
        coherent = new-Coherent capacity ttl_secs g;
      }) in
      elim (answer_from s params joined d h) [
        | inl hit ↦
            cached_answer-current moka s.cache s.graph params params.bypass_cache d r.valid
              r.coherent hit
        | inr searched ↦ sym searched
      ]
