-- ===== src/Sync/Flush.antt =====
-- What a flush of ingestion leaves behind: the graph, the batch, and its bound in the loop.
use nostr_wot_oracle.Sync.Status.{fetch_add}
use nostr_wot_oracle.Prelude.{
  ℕ, zero, suc, ◌<◌, ◌≡◌, List, [], ◌∷◌, ◌++◌, Bool, true, false, Option, none, some, arith, refl,
  inl, inr, Bool-cases, Option-cases, if◌then◌else◌, length, is_empty,
}
use nostr_wot_oracle.Prelude.Sorted.{sort}
use nostr_wot_oracle.Graph.Store.Types.{WotGraph}
use nostr_wot_oracle.Sync.Events.{Event, ListUpdate, process_event}
use nostr_wot_oracle.Sync.Persist.{Database, persist_and_apply, apply_all, select, winners_loop}
use nostr_wot_oracle.Sync.Ingest.{
  SeenCache, Ingestion, attempts, flush, receive, step, run_loop, Input, sender_gone, shutdown,
  tick, event, other, lagged, closed, batch_size, on_failure,
}

module _ (database : Database) (cache : SeenCache) (joined : ℕ → Bool) (now : ℕ) where
  open cache use {put}
  open database use {State, update_follows_batch, update_mutes_batch}

  -- The graph of a call that commits, and of one that fails.
  persist-graph :
      (db : State) (g : WotGraph) (us : List ListUpdate) (o : Option ℕ)
      → (persist_and_apply database db g us).2 ≡ o
      → (persist_and_apply database db g us).1
        ≡ elim o [ none ↦ g | some n ↦ apply_all g (select us) ]
  unfolding persist_and_apply
  persist-graph db g us o h = ground arith

  attempts_lem :
      (left : ℕ) (us : List ListUpdate) (s : Ingestion database cache)
      → ((attempts database cache left joined now us s).0.graph ≡ (
          if (attempts database cache left joined now us s).1
          then apply_all s.graph (select us)
          else s.graph))
        × ((attempts database cache left joined now us s).0.batch ≡ s.batch)
  unfolding attempts
  attempts_lem zero us s = (refl, refl)
  attempts_lem (suc left) us s =
      let (db, graph, result) = persist_and_apply database s.db s.graph us in
      let retry : Ingestion database cache = record s {
        db = db;
        graph = graph;
        status = on_failure database cache s.status;
      } in
      elim (Option-cases (persist_and_apply database s.db s.graph us).2) [
        | inl failed ↦
            ground (arith, persist-graph s.db s.graph us none failed, attempts_lem left us retry)
        | inr (n, committed) ↦ ground (arith, persist-graph s.db s.graph us (some n) committed)
      ]

  apply_nothing :
      (g : WotGraph) (us : List ListUpdate) → is_empty us ≡ true → apply_all g (select us) ≡ g
  unfolding select winners_loop sort apply_all
  apply_nothing g [] h = refl
  apply_nothing g (u ∷ us) h = cc

  -- Whatever attempts fail, a flush that reports success leaves the graph with the winners of
  -- the batch applied once, a flush that reports an error leaves the graph untouched, and
  -- either leaves the batch empty.
  pub flush_lem :
      (s : Ingestion database cache)
      → ((flush database cache joined now s).0.graph ≡ (
          if (flush database cache joined now s).1
          then apply_all s.graph (select s.batch)
          else s.graph))
        × ((flush database cache joined now s).0.batch ≡ [])
  unfolding flush
  flush_lem s = elim (Bool-cases (is_empty s.batch)) [
    | inl e ↦ ground (arith, apply_nothing s.graph s.batch e)
    | inr e ↦ ground (arith, attempts_lem 3 s.batch (record s { batch = [] }))
  ]

  -- The batch of the loop stays below the size at which it is flushed.
  abbrev Bounded : Ingestion database cache → Type 0
  Bounded s = length s.batch < batch_size

  flush-Bounded : (s : Ingestion database cache) → Bounded (flush database cache joined now s).0
  flush-Bounded s = rw ((flush_lem s).1) (omega arith)

  receive-Bounded :
      (e : Event) (s : Ingestion database cache)
      → Bounded s
      → Bounded (receive database cache joined now e s).0
  unfolding receive
  receive-Bounded e s h = elim (Option-cases (process_event e)) [
    | inl none_there ↦ ground arith
    | inr (u, e') ↦
        let s' : Ingestion database cache = record s {
          status = record s.status { last_event_received_at = now };
          seen =
              put s.seen (e.pubkey, e.kind) (record { created_at = e.created_at; event_id = e.id });
          batch = s.batch ++ u ∷ [];
        } in
        ground (arith, flush-Bounded s')
  ]

  step-Bounded :
      (input : Input) (s : Ingestion database cache)
      → Bounded s
      → Bounded (step database cache joined now input s).0
  unfolding step
  step-Bounded sender_gone s h = h
  step-Bounded (shutdown true) s h = h
  step-Bounded (shutdown false) s h = h
  step-Bounded tick s h = flush-Bounded s
  step-Bounded (event e) s h = ground (arith, receive-Bounded e s)
  step-Bounded other s h = h
  step-Bounded (lagged count restarted) s h =
      let counted : Ingestion database cache = record s {
        status = record s.status {
          lagged_notifications = fetch_add s.status.lagged_notifications count;
        };
      } in
      ground (arith, flush-Bounded counted)
  step-Bounded closed s h = flush-Bounded s

-- From a batch of fewer than 100 updates, whatever inputs arrive and whatever attempts fail, the
-- loop is left, or waits, with a batch of fewer than 100 updates.
pub run_loop-Bounded :
    (database : Database) (cache : SeenCache) (inputs : List (Input × ℕ × (ℕ → Bool)))
    (s : Ingestion database cache)
    → length s.batch < batch_size
    → length (run_loop database cache inputs s).0.batch < batch_size
unfolding run_loop
run_loop-Bounded database cache [] s h = h
run_loop-Bounded database cache ((input, now, joined) ∷ inputs) s h =
    let s' = (step database cache joined now input s).0 in
    ground (
      arith,
      step-Bounded database cache joined now input s h,
      run_loop-Bounded database cache inputs s',
      flush-Bounded database cache joined now s',
    )
