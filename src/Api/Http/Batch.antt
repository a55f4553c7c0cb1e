-- ===== src/Api/Http/Batch.antt =====
-- `batch_distance` of src/api/http.rs.
pub mod Total
use nostr_wot_oracle.Prelude.{
  ℕ, suc, List, [], ◌∷◌, ◌++◌, Bool, Option, none, some, if◌then◌else◌, ltb, length, set, get_or,
  is_empty,
}
use mathlib.Core.Option
use nostr_wot_oracle.Prelude.Str.{Str, str_key}
use nostr_wot_oracle.Prelude.Dict.{Dict, lookup, insert}
use nostr_wot_oracle.Graph.Store.Nodes.{get_node_id}
use nostr_wot_oracle.Graph.Bfs.Types.{DistanceQuery, DistanceResult}
use nostr_wot_oracle.Graph.Bfs.Distance.{compute_distance}
use nostr_wot_oracle.Cache.{Moka, QueryCache}
use nostr_wot_oracle.Api.Http.Types.{
  Result, ok, err, ◌>>◌, too_many_targets, validate_pubkey, validate_all, validate_max_hops,
  query_permit, join, AppState,
}
use nostr_wot_oracle.Api.Http.Distance.{Moments, key_of, cached_answer, remember}

pub record BatchDistanceRequest : Type 0 where
  pub from : Str
  pub targets : List Str
  pub max_hops : ℕ
  pub include_bridges : Bool
  pub bypass_cache : Bool

pub record BatchDistanceResponse : Type 0 where
  pub from : Str
  pub results : List DistanceResult

-- The distinct targets, the place of each, and the place of every target of the request.
pub record Targets : Type 0 where
  pub unique : List Str
  pub indices : Dict Str ℕ
  pub order : List ℕ

abbrev pub no_targets : Targets
no_targets = record { unique = []; indices = []; order = [] }

unfoldable pub add_target : Targets → Str → Targets
add_target t target = elim (lookup target t.indices) [
  | some index ↦ record t { order = t.order ++ index ∷ [] }
  | none ↦ record {
    unique = t.unique ++ target ∷ [];
    indices = insert target (length t.unique) t.indices;
    order = t.order ++ length t.unique ∷ [];
  }
]

unfoldable pub index_targets : Targets → List Str → Targets
unfolding add_target
index_targets t [] = t
index_targets t (target ∷ targets) = index_targets (add_target t target) targets

abbrev pub query_for : BatchDistanceRequest → Str → DistanceQuery
query_for request target = record {
  from = request.from;
  to = target;
  max_hops = request.max_hops;
  include_bridges = request.include_bridges;
}

-- `vec![None; n]`
abbrev pub no_results : List Str → List (Option DistanceResult)
no_results [] = []
no_results (t ∷ ts) = none ∷ no_results ts

-- `for (index, result) in results { computed[index] = Some(result); }`
abbrev pub fill :
    List (ℕ × DistanceResult) → List (Option DistanceResult) → List (Option DistanceResult)
fill [] computed = computed
fill ((index, result) ∷ results) computed = fill results (set computed index (some result))

-- `order.map(|index| computed[index].expect("every target resolved"))`; `none` is the panic.
abbrev pub collect : List (Option DistanceResult) → List ℕ → Option (List DistanceResult)
collect computed [] = some []
collect computed (index ∷ order) = elim (get_or computed index none) [
  | none ↦ none
  | some result ↦ Option.map (λ rs. result ∷ rs) (collect computed order)
]

-- A handler's answer, or its panic.
pub data Answer : Type 0 where
  answer : Result BatchDistanceResponse → Answer
  panic : Answer

abbrev pub respond : BatchDistanceRequest → Option (List DistanceResult) → Answer
respond request none = panic
respond request (some results) = answer (ok (record { from = request.from; results = results }))

module _ (moka : Moka) where
  -- The first pass: hits are entered, and the others are left to be computed.
  unfoldable pub look_up :
      AppState moka
      → BatchDistanceRequest
      → ℕ
      → List Str
      → List (ℕ × DistanceResult) × List (ℕ × Str)
  unfolding cached_answer
  look_up state request index [] = ([], [])
  look_up state request index (target ∷ targets) =
      let rest = look_up state request (suc index) targets in
      elim (cached_answer moka state.graph state.cache request.bypass_cache (
        key_of (get_node_id state.graph request.from) (get_node_id state.graph target)
          request.max_hops request.include_bridges)) [
            | some hit ↦ ((index, hit) ∷ rest.0, rest.1)
            | none ↦ (rest.0, (index, target) ∷ rest.1)
          ]

  -- The blocking task: one search and one insert for each miss. Writers may run in between, so each
  -- has its own moments.
  unfoldable pub compute_misses :
      BatchDistanceRequest
      → (ℕ → Moments)
      → List (ℕ × Str)
      → QueryCache moka
      → QueryCache moka × List (ℕ × DistanceResult)
  unfolding compute_distance remember
  compute_misses request moments [] cache = (cache, [])
  compute_misses request moments ((index, target) ∷ misses) cache =
      let m = moments index in
      let result = compute_distance m.at_search (query_for request target) in
      let cache' =
        remember moka cache
          (key_of (get_node_id m.at_insert request.from) (get_node_id m.at_insert target)
            request.max_hops request.include_bridges)
          result m.at_insert m.at_revision.revision in
      let (cache'', results) = compute_misses request moments misses cache' in
      (cache'', (index, result) ∷ results)

  abbrev pub validate_batch : BatchDistanceRequest → Result (Unit {0})
  validate_batch request = do
    validate_pubkey request.from
    validate_max_hops request.max_hops
    if ltb 100 (length request.targets) then err too_many_targets else validate_all request.targets

  -- What follows the validation.
  unfoldable pub run_batch :
      AppState moka → BatchDistanceRequest → (ℕ → Moments) → Bool → AppState moka × Answer
  unfolding look_up compute_misses index_targets query_permit
  run_batch state request moments joined =
      let t = index_targets no_targets request.targets in
      let (hits, misses) = look_up state request 0 t.unique in
      let computed = fill hits (no_results t.unique) in
      let (cache, results) = compute_misses request moments misses state.cache in
      if is_empty misses
      then (state, respond request (collect computed t.order))
      else elim (query_permit state.query_slots >> join joined) [
        | err e ↦ (state, answer (err e))
        | ok _ ↦ (
          record state { cache = cache },
          respond request (collect (fill results computed) t.order),
        )
      ]

  unfoldable pub batch_distance :
      AppState moka → BatchDistanceRequest → (ℕ → Moments) → Bool → AppState moka × Answer
  unfolding run_batch validate_pubkey validate_max_hops validate_all
  batch_distance state request moments joined = elim (validate_batch request) [
    | err e ↦ (state, answer (err e))
    | ok _ ↦ run_batch state request moments joined
  ]
