-- ===== src/Api/Dvm/Laws.antt =====
-- The requests of src/api/dvm.rs: their hop limit, and their answers against those of src/api/http.rs.
use nostr_wot_oracle.Api.Dvm.{
  two_inputs, DvmService, Request, find, handle_request, send_result, is_valid_pubkey, clamp_hops,
  read_param, read_tag, read_tags,
}
use nostr_wot_oracle.Graph.Store.Nodes.{get_node_id}
use nostr_wot_oracle.Graph.Bfs.Types.{DistanceResult}
use nostr_wot_oracle.Cache
use nostr_wot_oracle.Cache.{CacheKey, Moka}
use nostr_wot_oracle.Api.Http.Types.{ok, DistanceQueryParams, AppState, validate_pubkey}
use nostr_wot_oracle.Api.Http.Distance.{
  still, get_distance, cached_answer, search_and_remember, remember,
}
use nostr_wot_oracle.Prelude.{
  refl, ◌∷◌, [], true, false, ◌≡◌, Option, none, some, Option-cases, inl, inr, List, ℕ, ◌≤◌, arith,
}
use nostr_wot_oracle.Prelude.Str.{Str}
use nostr_wot_oracle.Config.{parse}

abbrev pub InLimit : ℕ → Type 0
InLimit h = (1 ≤ h) × (h ≤ 5)

clamp_hops-InLimit : (default : ℕ) (o : Option ℕ) → InLimit default → InLimit (clamp_hops default o)
clamp_hops-InLimit default none h = h
clamp_hops-InLimit default (some x) h = ground arith

read_tag-InLimit :
    (default : ℕ) (tag : List Str) (inputs : List Str) (max_hops : ℕ)
    → InLimit default
    → InLimit max_hops
    → InLimit (read_tag default tag (inputs, max_hops)).1
unfolding read_tag read_param
read_tag-InLimit default [] inputs max_hops d h = h
read_tag-InLimit default (name ∷ []) inputs max_hops d h = h
read_tag-InLimit default (name ∷ value ∷ []) inputs max_hops d h = h
read_tag-InLimit default (name ∷ value ∷ third ∷ rest) inputs max_hops d h =
    ground (arith, clamp_hops-InLimit default (parse 256 third) d)

-- If the configured hop limit and the one so far are from 1 to 5, so is the hop limit after any
-- tags of a job request.
pub read_tags-InLimit :
    (default : ℕ) (tags : List (List Str)) (inputs : List Str) (max_hops : ℕ)
    → InLimit default
    → InLimit max_hops
    → InLimit (read_tags default tags (inputs, max_hops)).1
unfolding read_tags
read_tags-InLimit default [] inputs max_hops d h = h
read_tags-InLimit default (tag ∷ tags) inputs max_hops d h =
    let next = read_tag default tag (inputs, max_hops) in
    read_tags-InLimit default tags next.0 next.1 d
      (read_tag-InLimit default tag inputs max_hops d h)

module _ (moka : Moka) where
  abbrev pub params_of : Str → Str → ℕ → DistanceQueryParams
  params_of from to max_hops = record {
    from = from;
    to = to;
    max_hops = max_hops;
    include_bridges = true;
    bypass_cache = false;
  }

  -- What `get_distance` does after its checks.
  find-search :
      (service : DvmService moka) (state : AppState moka) (from to : Str) (max_hops : ℕ)
      → service.graph ≡ state.graph
      → service.cache ≡ state.cache
      → (d : DistanceResult)
      → (get_distance moka state (params_of from to max_hops) (still state.graph) true).1 ≡ ok d
      → ((find moka service from to max_hops (still state.graph) true).1 ≡ some d)
        × ((find moka service from to max_hops (still state.graph) true).0.cache
            ≡ (get_distance moka state
                (params_of from to max_hops)
                (still state.graph)
                true).0.cache)
  unfolding find get_distance cached_answer search_and_remember remember
  find-search service state from to max_hops eg ec d h =
      elim (Option-cases (get_node_id state.graph from)) [
        | inl x ↦ ground arith
        | inr (i, x) ↦ elim (Option-cases (get_node_id state.graph to)) [
          | inl y ↦ ground arith
          | inr (j, y) ↦
              let key : CacheKey = record {
                from_id = i;
                to_id = j;
                max_hops = max_hops;
                include_bridges = true;
              } in
              elim (Option-cases (Cache.get moka state.cache key state.graph)) [
                | inl miss ↦ ground arith
                | inr (hit, z) ↦ ground arith
              ]
        ]
      ]

  -- An answer passed the checks.
  get_distance-checked :
      (state : AppState moka) (from to : Str) (max_hops : ℕ) (d : DistanceResult)
      → (get_distance moka state (params_of from to max_hops) (still state.graph) true).1 ≡ ok d
      → (is_valid_pubkey from ≡ true) × (is_valid_pubkey to ≡ true)
  unfolding get_distance validate_pubkey
  get_distance-checked state from to max_hops d h = ground arith

  module _ (service : DvmService moka) (state : AppState moka) (request : Request) where
    -- The inputs and the hop limit that a request asks for.
    abbrev pub asked : List Str × ℕ
    asked = read_tags service.max_hops request.tags ([], service.max_hops)

    -- With the graph and the cache of the HTTP state, and no writer in between, a job
    -- request that names two keys gets the result that get_distance answers for these keys
    -- with bridges and the request's hop limit, where it answers one, and the cache is left
    -- as get_distance leaves it.
    pub handle_request-get_distance :
        (from to : Str) (d : DistanceResult)
        → service.graph ≡ state.graph
        → service.cache ≡ state.cache
        → two_inputs asked.0 ≡ some (from, to)
        → (get_distance moka state (params_of from to asked.1) (still state.graph) true).1 ≡ ok d
        → let job = handle_request moka service request (still state.graph) true in
          (job.1 ≡ some (send_result request d))
          × (job.0.cache
              ≡ (get_distance moka state
                  (params_of from to asked.1)
                  (still state.graph)
                  true).0.cache)
    unfolding handle_request
    handle_request-get_distance from to d eg ec inputs h =
        let (found, cache) = find-search service state from to asked.1 eg ec d h in
        let (valid_from, valid_to) = get_distance-checked state from to asked.1 d h in
        rw (inputs, handle_request) (rw (valid_from, valid_to, found) (refl, cache))
