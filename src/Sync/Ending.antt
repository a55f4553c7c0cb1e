-- ===== src/Sync/Ending.antt =====
-- The end of the loop of ingestion, src/sync/ingestion.rs.
use nostr_wot_oracle.Prelude.{
  [], ◌∷◌, ◌++◌, List, ◌||◌, refl, ℕ, ◌≡◌, Bool, true, false, is_some, arith,
}
use nostr_wot_oracle.Sync.Ingest.{
  run_loop, start, run, step, Control, continue, break, fail, SeenCache, Ingestion, Input, shutdown,
  sender_gone, tick, event, other, lagged, closed,
}
use nostr_wot_oracle.Prelude.Str.{Str}
use nostr_wot_oracle.Sync.Persist.{Database}

-- The inputs that end the loop.
abbrev pub is_final : Input → Bool
is_final sender_gone = true
is_final (shutdown stop) = stop
is_final tick = false
is_final (event e) = false
is_final other = false
is_final (lagged n r) = false
is_final closed = true

abbrev is_last : Control → Bool
is_last continue = false
is_last break = true
is_last fail = true

module _ (database : Database) (cache : SeenCache) where
  abbrev pub Arrivals : Type 0
  Arrivals = List (Input × ℕ × (ℕ → Bool))

  step_leaves :
      (input : Input) (now : ℕ) (joined : ℕ → Bool) (s : Ingestion database cache)
      → is_final input ≡ true
      → is_last (step database cache joined now input s).1 ≡ true
  unfolding step
  step_leaves sender_gone now joined s h = refl
  step_leaves (shutdown true) now joined s h = refl
  step_leaves (shutdown false) now joined s h = absurd (ground arith)
  step_leaves tick now joined s h = absurd (ground arith)
  step_leaves (event e) now joined s h = absurd (ground arith)
  step_leaves other now joined s h = absurd (ground arith)
  step_leaves (lagged n r) now joined s h = absurd (ground arith)
  step_leaves closed now joined s h = ground arith

  -- A turn that leaves the loop, or one after which it ends.
  run_loop_turn :
      (input : Input) (now : ℕ) (joined : ℕ → Bool) (rest : Arrivals) (s : Ingestion database cache)
      → (is_last (step database cache joined now input s).1
          || is_some (run_loop database cache rest (step database cache joined now input s).0).1)
        ≡ true
      → is_some (run_loop database cache ((input, now, joined) ∷ rest) s).1 ≡ true
  unfolding run_loop
  run_loop_turn input now joined rest s h = ground arith

  module _ (input : Input) (ending : is_final input ≡ true) (now : ℕ) (joined : ℕ → Bool)
      (after : Arrivals) where
    run_loop_ends :
        (before : Arrivals) (s : Ingestion database cache)
        → is_some (run_loop database cache (before ++ (input, now, joined) ∷ after) s).1 ≡ true
    run_loop_ends [] s =
        run_loop_turn input now joined after s
          (ground (arith, step_leaves input now joined s ending))
    run_loop_ends ((i, n, j) ∷ before) s =
        run_loop_turn i n j (before ++ (input, now, joined) ∷ after) s
          (ground (arith, run_loop_ends before (step database cache j n i s).0))

    -- Whatever arrives before and whatever fails, once a shutdown, the loss of its sender or
    -- the end of the notifications is delivered, ingestion returns a result, and its status
    -- is no longer running.
    pub start_ends :
        (relays : List Str) (connects disconnects : Bool) (before : Arrivals)
        (s : Ingestion database cache)
        → let result =
            start database cache relays connects disconnects
              (before ++ (input, now, joined) ∷ after)
              s in
          (is_some result.1 ≡ true) × (result.0.status.running ≡ false)
    unfolding start run
    start_ends relays connects disconnects before s =
        let begun : Ingestion database cache = record s {
          status = record s.status { running = true };
          seen = cache.empty;
          batch = [];
        } in
        ground (arith, run_loop_ends before begun)
