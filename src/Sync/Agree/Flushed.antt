-- ===== src/Sync/Agree/Flushed.antt =====
-- `flush` of src/sync/ingestion.rs on the tables of src/db/sqlite.rs, retries included.
use nostr_wot_oracle.Sync.Persist.{Database, select, persist_and_apply}
use mathlib.Core.Path.{subst}
use nostr_wot_oracle.Db.Tables.{empty, Tables, Rowids}
use nostr_wot_oracle.Graph.Store.Types.{new, WotGraph}
use nostr_wot_oracle.Graph.Store.Invariant.{new-WellFormed, HasRoom}
use nostr_wot_oracle.Graph.Store.View.{follows, mutes}
use nostr_wot_oracle.Sync.Agree.{names, edition, Agrees}
use nostr_wot_oracle.Db.View.{listed, version, empty-WellFormed, WellFormed}
use nostr_wot_oracle.Prelude.Dict.{lookup}
use nostr_wot_oracle.Prelude.{
  ℕ, zero, suc, ◌≡◌, sym, Bool, true, false, List, [], inl, inr, Bool-cases, Option-cases, refl,
  is_empty,
}
use nostr_wot_oracle.Prelude.Int.{ℤ}
use nostr_wot_oracle.Graph.Store.Invariant
use nostr_wot_oracle.Sync.Events.{ListUpdate}
use nostr_wot_oracle.Sync.Ingest.{SeenCache, Ingestion, attempts, flush, on_failure}
use nostr_wot_oracle.Db.Batch.{Hashing}
use nostr_wot_oracle.Sync.Agree.Stored.{Pending}
use nostr_wot_oracle.Sync.Agree.Attempt.{sqlite, Attempted, persist_and_apply_lem}
use nostr_wot_oracle.Sync.Agree.Published.{AllLists, nodes_of, select-AllLists}

-- Well-formed tables and a well-formed graph with the same lists from the same events.
pub record Consistent (t : Tables) (g : WotGraph) : Type 0 where
  pub tables : WellFormed t
  pub graph : Invariant.WellFormed g
  pub agrees : Agrees t g

pub Consistent-Pending :
    (us : List ListUpdate) (t : Tables) (g : WotGraph) → Consistent t g → Pending us t g
Consistent-Pending us t g c = record {
  well_formed = c.tables;
  follows = inl (λ p q. sym (c.agrees.lists false p q), λ p. sym (c.agrees.versions false p));
  mutes = (λ p q. sym (c.agrees.lists true p q), λ p. sym (c.agrees.versions true p));
}

module _ (rowids : Rowids) (hashing : Hashing) (runs : ℕ → ℤ × Bool) (cache : SeenCache) where
  abbrev pub database : Database
  database = sqlite rowids hashing runs

  -- A flush that succeeds leaves the two consistent; one that fails leaves the graph as it was, and
  -- tables that the same updates can still be persisted to.
  abbrev pub Ended : List ListUpdate → WotGraph → Ingestion database cache × Bool → Type 0
  Ended us g (s, true) = Consistent s.db.0 s.graph
  Ended us g (s, false) = (s.graph ≡ g) × Pending us s.db.0 g

  attempts_lem :
      (left : ℕ) (joined : ℕ → Bool) (now : ℕ) (us : List ListUpdate) (s : Ingestion database cache)
      → Pending (select us) s.db.0 s.graph
      → Invariant.WellFormed s.graph
      → HasRoom s.graph (nodes_of (select us))
      → AllLists (select us)
      → Ended (select us) s.graph (attempts database cache left joined now us s)
  unfolding attempts
  attempts_lem zero joined now us s pending valid room all = (refl, pending)
  attempts_lem (suc left) joined now us s pending valid room all =
      let result = persist_and_apply database s.db s.graph us in
      let tried =
        persist_and_apply_lem rowids hashing runs us s.db s.graph pending valid room all in
      elim (Bool-cases (joined (suc left))) [
        | inr cancelled ↦ rw (cancelled, attempts) (refl, pending)
        | inl ran ↦ elim (Option-cases result.2) [
          | inl failed ↦
              let again : Ingestion database cache = record s {
                db = result.0;
                graph = result.1;
                status = on_failure database cache s.status;
              } in
              let (same, left_pending) =
                subst
                  (λ o. Attempted rowids hashing runs (select us) s.graph (result.0, result.1, o))
                  failed tried in
              let retried =
                attempts_lem left joined now us again
                  (subst (Pending (select us) result.0.0) (sym same) left_pending)
                  (subst Invariant.WellFormed (sym same) valid)
                  (subst (λ g. HasRoom g (nodes_of (select us))) (sym same) room) all in
              rw (ran, failed, attempts)
                (subst (λ g. Ended (select us) g (attempts database cache left joined now us again))
                  same retried)
          | inr (n, done) ↦
              let (tables, graph, agrees) =
                subst
                  (λ o. Attempted rowids hashing runs (select us) s.graph (result.0, result.1, o))
                  done tried in
              rw (ran, done, attempts) (record { tables = tables; graph = graph; agrees = agrees })
        ]
      ]

  -- From well-formed tables and a well-formed graph that hold the same lists from the same
  -- events, with room for the winners of the batch and only list events in the batch,
  -- whichever transactions fail: a flush that succeeds leaves tables and graph well formed and
  -- again with the same follow and mute lists from the same events; one that fails leaves the
  -- graph as it was, and tables from which the same updates can be persisted again.
  pub flush-Ended :
      (joined : ℕ → Bool) (now : ℕ) (s : Ingestion database cache)
      → Consistent s.db.0 s.graph
      → HasRoom s.graph (nodes_of (select s.batch))
      → AllLists s.batch
      → Ended (select s.batch) s.graph (flush database cache joined now s)
  unfolding flush
  flush-Ended joined now s ok room all = elim (Bool-cases (is_empty s.batch)) [
    | inl nothing ↦ rw (nothing, flush) ok
    | inr some_there ↦
        rw (some_there, flush)
          (attempts_lem 3 joined now s.batch (record s { batch = [] })
            (Consistent-Pending (select s.batch) s.db.0 s.graph ok) ok.graph room
            (select-AllLists s.batch all))
  ]

-- Nothing stored and nothing indexed.
pub empty-Consistent : Consistent empty new
unfolding names listed edition version follows mutes lookup
empty-Consistent = record {
  tables = empty-WellFormed;
  graph = new-WellFormed;
  agrees = record {
    lists = λ k p q. elim k as (λ k. names k new p q ≡ listed k empty p q) [
      | false ↦ refl
      | true ↦ refl
    ];
    versions =
        λ k p. elim k as (λ k. edition k new p ≡ version k empty p) [ false ↦ refl | true ↦ refl ];
  };
}
