-- ===== src/Api/Http/Batch/Total.antt =====
-- The results of `batch_distance`, and the `expect` at its end.
use nostr_wot_oracle.Prelude.{
  ℕ, zero, suc, ◌+◌, ◌<◌, ◌≤◌, ◌≡◌, ◌∙◌, List, [], ◌∷◌, ◌++◌, Bool, true, false, ◌||◌, Option, none,
  some, arith, refl, sym, inl, inr, Bool-cases, Option-cases, length, is_empty, set, get_or,
  length-append, length-set, is_some, ◌==◌, nat_eq,
}
use mathlib.Core.Path.{subst}
use nostr_wot_oracle.Prelude.Str.{Str, str_key}
use nostr_wot_oracle.Prelude.Dict.{lookup, lookup-insert}
use nostr_wot_oracle.Prelude.Sorted.{Below, Below-mono}
use nostr_wot_oracle.Graph.Bfs.Types.{DistanceResult}
use nostr_wot_oracle.Cache.{Moka, QueryCache}
use nostr_wot_oracle.Api.Http.Types.{Result, ok, err, ◌>>◌, query_permit, join, AppState}
use nostr_wot_oracle.Api.Http.Distance.{Moments}
use nostr_wot_oracle.Api.Http.Batch.{
  BatchDistanceRequest, Targets, no_targets, add_target, index_targets, no_results, fill, collect,
  respond, Answer, answer, panic, look_up, compute_misses, run_batch, batch_distance,
  validate_batch,
}

abbrev filled : List (Option DistanceResult) → ℕ → Bool
filled c i = is_some (get_or c i none)

abbrev listed {ℓ} : {A : Type ℓ} → ℕ → List (ℕ × A) → Bool
listed i [] = false
listed i ((j, x) ∷ xs) = (j == i) || listed i xs

filled-set :
    (c : List (Option DistanceResult)) (i j : ℕ) (r : DistanceResult)
    → i < length c
    → filled (set c j (some r)) i ≡ ((j == i) || filled c i)
filled-set [] i j r h = absurd (omega arith)
filled-set (x ∷ c) zero zero r h = refl
filled-set (x ∷ c) zero (suc j) r h = ground arith
filled-set (x ∷ c) (suc i) zero r h = ground arith
filled-set (x ∷ c) (suc i) (suc j) r h = ground (arith, filled-set c i j r)

filled-fill :
    (rs : List (ℕ × DistanceResult)) (c : List (Option DistanceResult)) (i : ℕ)
    → i < length c
    → filled (fill rs c) i ≡ (listed i rs || filled c i)
filled-fill [] c i h = refl
filled-fill ((j, r) ∷ rs) c i h = ground (
  arith,
  filled-fill rs (set c j (some r)) i (omega (arith, length-set c j (some r))),
  filled-set c i j r h,
)

length-fill :
    (rs : List (ℕ × DistanceResult)) (c : List (Option DistanceResult))
    → length (fill rs c) ≡ length c
length-fill [] c = refl
length-fill ((j, r) ∷ rs) c = length-fill rs (set c j (some r)) ∙ length-set c j (some r)

length-no_results : (ts : List Str) → length (no_results ts) ≡ length ts
length-no_results [] = refl
length-no_results (t ∷ ts) = omega (arith, length-no_results ts)

-- With every place of the order filled, all results are collected.
collect_total :
    (c : List (Option DistanceResult)) (order : List ℕ)
    → ((i : ℕ) → i < length c → filled c i ≡ true)
    → Below (length c) order
    → (rs : List DistanceResult) × (collect c order ≡ some rs) × (length rs ≡ length order)
collect_total c [] all h = ([], refl, refl)
collect_total c (i ∷ order) all h =
    let (rs, e, l) = collect_total c order all h.1 in
    elim (Option-cases (get_or c i none)) [
      | inl none_there ↦ let t = all i h.0 in absurd (ground arith)
      | inr (r, there) ↦ (r ∷ rs, ground (arith, there, e), omega (arith, l))
    ]

Below-push : (n v : ℕ) (xs : List ℕ) → Below n xs → v < n → Below n (xs ++ v ∷ [])
Below-push n v [] h k = (k, tt)
Below-push n v (x ∷ xs) h k = (h.0, Below-push n v xs h.1 k)

-- Every place is one of a distinct target.
record Indexed (t : Targets) : Type 0 where
  places : (s : Str) (i : ℕ) → lookup s t.indices ≡ some i → i < length t.unique
  order : Below (length t.unique) t.order

add_target-Indexed : (t : Targets) (s : Str) → Indexed t → Indexed (add_target t s)
unfolding add_target
add_target-Indexed t s x = elim (Option-cases (lookup s t.indices)) [
  | inl e ↦
      rw (e, add_target)
        (record {
          places = λ r i h. ground (
            arith,
            lookup-insert s r (length t.unique) t.indices,
            x.places r i,
            length-append t.unique (s ∷ []),
          );
          order =
              Below-push _ (length t.unique) t.order
                (Below-mono (length t.unique) _ t.order
                  (omega (arith, length-append t.unique (s ∷ []))) x.order)
                (omega (arith, length-append t.unique (s ∷ [])));
        })
  | inr (i, e) ↦
      rw (e, add_target)
        (record { places = x.places; order = Below-push _ i t.order x.order (x.places s i e) })
]

index_targets-Indexed : (ts : List Str) (t : Targets) → Indexed t → Indexed (index_targets t ts)
unfolding index_targets
index_targets-Indexed [] t x = x
index_targets-Indexed (s ∷ ts) t x =
    index_targets-Indexed ts (add_target t s) (add_target-Indexed t s x)

length-add_target : (t : Targets) (s : Str) → length (add_target t s).order ≡ length t.order + 1
unfolding add_target
length-add_target t s = elim (Option-cases (lookup s t.indices)) [
  | inl e ↦ rw (e, add_target) (length-append t.order (length t.unique ∷ []))
  | inr (i, e) ↦ rw (e, add_target) (length-append t.order (i ∷ []))
]

length-index_targets :
    (ts : List Str) (t : Targets) → length (index_targets t ts).order ≡ length t.order + length ts
unfolding index_targets
length-index_targets [] t = omega arith
length-index_targets (s ∷ ts) t =
    omega (arith, length-index_targets ts (add_target t s), length-add_target t s)

module _ (moka : Moka) (request : BatchDistanceRequest) where
  -- Every distinct target is a hit or a miss,
  listed-look_up :
      (state : AppState moka) (ts : List Str) (index i : ℕ)
      → index ≤ i
      → i < index + length ts
      → (listed i (look_up moka state request index ts).0
          || listed i (look_up moka state request index ts).1)
        ≡ true
  unfolding look_up
  listed-look_up state [] index i h k = absurd (omega arith)
  listed-look_up state (t ∷ ts) index i h k = elim (Bool-cases (index == i)) [
    | inl e ↦ ground arith
    | inr e ↦ ground (arith, listed-look_up state ts (suc index) i)
  ]

  -- and every miss is computed.
  listed-compute_misses :
      (moments : ℕ → Moments) (misses : List (ℕ × Str)) (cache : QueryCache moka) (i : ℕ)
      → listed i (compute_misses moka request moments misses cache).1 ≡ listed i misses
  unfolding compute_misses
  listed-compute_misses moments [] cache i = refl
  listed-compute_misses moments ((j, t) ∷ misses) cache i = ground (
    arith,
    listed-compute_misses moments misses (compute_misses moka request moments ((j, t) ∷ []) cache).0
        i,
  )

  -- An answer with as many results as the request has targets, or an error.
  abbrev pub Complete : Answer → Type 0
  Complete panic = ⊥
  Complete (answer (err e)) = Unit
  Complete (answer (ok r)) = length r.results ≡ length request.targets

  respond-Complete :
      (c : List (Option DistanceResult)) (order : List ℕ)
      → ((i : ℕ) → i < length c → filled c i ≡ true)
      → Below (length c) order
      → length order ≡ length request.targets
      → Complete (respond request (collect c order))
  respond-Complete c order all h l =
      let (rs, e, same) = collect_total c order all h in rw e (same ∙ l)

  after-Complete :
      (p : Result (Unit {0})) (s : AppState moka) (r : AppState moka × Answer)
      → Complete r.1
      → Complete
          (elim p as (λ x. AppState moka × Answer) [ err e ↦ (s, answer (err e)) | ok _ ↦ r ]).1
  after-Complete (err e) s r h = tt
  after-Complete (ok u) s r h = h

  module _ (state : AppState moka) (moments : ℕ → Moments) (joined : Bool) where
    abbrev t : Targets
    t = index_targets no_targets request.targets

    abbrev hits : List (ℕ × DistanceResult)
    hits = (look_up moka state request 0 t.unique).0

    abbrev misses : List (ℕ × Str)
    misses = (look_up moka state request 0 t.unique).1

    abbrev computed : List (Option DistanceResult)
    computed = fill hits (no_results t.unique)

    abbrev results : List (ℕ × DistanceResult)
    results = (compute_misses moka request moments misses state.cache).1

    t-Indexed : Indexed t
    unfolding lookup
    t-Indexed =
        index_targets-Indexed request.targets no_targets
          (record { places = λ s i h. cc; order = tt })

    length-computed : length computed ≡ length t.unique
    length-computed = length-fill hits (no_results t.unique) ∙ length-no_results t.unique

    length-order : length t.order ≡ length request.targets
    length-order = omega (arith, length-index_targets request.targets no_targets)

    hit_or_miss : (i : ℕ) → i < length t.unique → (listed i hits || listed i misses) ≡ true
    hit_or_miss i h = listed-look_up state t.unique 0 i (omega arith) (omega arith)

    filled-computed :
        (i : ℕ) → i < length t.unique → listed i hits ≡ true → filled computed i ≡ true
    filled-computed i h e =
        rw (filled-fill hits (no_results t.unique) i (omega (arith, length-no_results t.unique)))
          (ground arith)

    run_batch-Complete : Complete (run_batch moka state request moments joined).1
    unfolding run_batch
    run_batch-Complete = elim (Bool-cases (is_empty misses)) [
      | inl e ↦ rw e (
          respond-Complete computed t.order
            (λ i h.
              filled-computed i (omega (arith, length-computed))
                (no_miss i misses e (hit_or_miss i (omega (arith, length-computed)))))
            (subst (λ n. Below n t.order) (sym length-computed) t-Indexed.order) length-order)
      | inr e ↦ rw e (
          after-Complete (query_permit state.query_slots >> join joined) state
            (
              record state { cache = (compute_misses moka request moments misses state.cache).0 },
              respond request (collect (fill results computed) t.order),
            )
            (respond-Complete (fill results computed) t.order
              (λ i h. all_filled i (omega (arith, length-fill results computed, length-computed)))
              (subst (λ n. Below n t.order) (sym (length-fill results computed ∙ length-computed))
                t-Indexed.order)
              length-order))
    ]
      where
        no_miss :
            (i : ℕ) (ms : List (ℕ × Str))
            → is_empty ms ≡ true
            → (listed i hits || listed i ms) ≡ true
            → listed i hits ≡ true
        no_miss i [] e h = ground arith
        no_miss i (m ∷ ms) e h = cc

        all_filled : (i : ℕ) → i < length t.unique → filled (fill results computed) i ≡ true
        all_filled i h = rw (filled-fill results computed i (omega (arith, length-computed))) (
            rw (listed-compute_misses moments misses state.cache i)
              (elim (Bool-cases (listed i hits)) [
                | inl hit ↦ ground (arith, filled-computed i h hit)
                | inr miss ↦ ground (arith, hit_or_miss i h)
              ]))

    -- Whatever the request, the state and the writers in between, batch_distance answers an
    -- error, or as many results as the request has targets; it never reaches the panic of a
    -- target that has no result.
    pub batch_distance-Complete : Complete (batch_distance moka state request moments joined).1
    unfolding batch_distance
    batch_distance-Complete =
        after-Complete (validate_batch moka request) state
          (run_batch moka state request moments joined) run_batch-Complete
