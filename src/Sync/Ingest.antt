-- ===== src/Sync/Ingest.antt =====
-- The ingestion loop of src/sync/ingestion.rs: what `select!` delivers is a sequence of inputs.
-- The relay client, the clock and the task runtime enter as what they delivered.
use nostr_wot_oracle.Prelude.{
  ℕ, zero, suc, ◌+◌, ◌≡◌, ◌⊎◌, List, [], ◌∷◌, ◌++◌, Bool, true, false, not, ◌&&◌, ◌||◌, Option,
  none, some, if◌then◌else◌, ltb, leb, length, is_empty,
}
use nostr_wot_oracle.Prelude.Str.{Str}
use nostr_wot_oracle.Graph.Store.Types.{WotGraph}
use nostr_wot_oracle.Sync.Status.{SyncStatus, fetch_add}
use nostr_wot_oracle.Sync.Events.{
  Event, ListUpdate, is_list_kind, process_event, SeenEvent, dominates,
}
use nostr_wot_oracle.Sync.Persist.{Database, persist_and_apply}

abbrev pub batch_size : ℕ
batch_size = 100

-- The crate lru: a read finds what was written last under its key, or nothing.
pub record SeenCache : Type 1 where
  pub Seen : Type 0
  pub empty : Seen
  pub get : Seen → Str × ℕ → Option SeenEvent
  pub put : Seen → Str × ℕ → SeenEvent → Seen
  pub get-empty : (k : Str × ℕ) → get empty k ≡ none
  pub get-put :
      (c : Seen) (j k : Str × ℕ) (v w : SeenEvent)
      → get (put c k v) j ≡ some w
      → ((j ≡ k) × (w ≡ v)) ⊎ (get c j ≡ some w)

pub data Input : Type 0 where
  -- `shutdown.changed()`: the sender is gone, or the value that was sent
  sender_gone : Input
  shutdown : Bool → Input
  tick : Input
  event : Event → Input
  other : Input
  -- the count, and whether the client was made again
  lagged : ℕ → Bool → Input
  closed : Input

-- What the loop does next: go on, leave by `break`, or return an error.
pub data Control : Type 0 where
  continue break fail : Control

module _ (database : Database) (cache : SeenCache) where
  open database use {State}
  open cache use {Seen, empty, get, put}

  pub record Ingestion : Type 0 where
    pub db : State
    pub graph : WotGraph
    pub status : SyncStatus
    pub seen : Seen
    pub batch : List ListUpdate

  abbrev pub on_persisted : SyncStatus → ℕ → ℕ → SyncStatus
  on_persisted s count now = record s {
    persisted_events = fetch_add s.persisted_events count;
    last_persisted_at = now;
    failed = false;
  }

  abbrev pub on_failure : SyncStatus → SyncStatus
  on_failure s = record s { persistence_errors = fetch_add s.persistence_errors 1; failed = true }

  -- `for attempt in 0..3`, with the attempts left and the updates taken from the batch. The flag
  -- says whether the blocking task of an attempt ran; one that the runtime cancels before it starts
  -- changes nothing, and its error ends the flush.
  unfoldable pub attempts : ℕ → (ℕ → Bool) → ℕ → List ListUpdate → Ingestion → Ingestion × Bool
  unfolding persist_and_apply
  attempts zero joined now updates s = (s, false)
  attempts (suc left) joined now updates s =
      let (db, graph, result) = persist_and_apply database s.db s.graph updates in
      let retry =
        attempts left joined now updates
          (record s { db = db; graph = graph; status = on_failure s.status }) in
      if joined (suc left)
      then elim result [
        | some count ↦
            (record s { db = db; graph = graph; status = on_persisted s.status count now }, true)
        | none ↦ retry
      ]
      else (s, false)

  unfoldable pub flush : (ℕ → Bool) → ℕ → Ingestion → Ingestion × Bool
  unfolding attempts
  flush joined now s =
      if is_empty s.batch
      then (s, true)
      else attempts 3 joined now s.batch (record s { batch = [] })

  -- `self.flush(&mut batch).await?`, and then another control.
  abbrev pub flush_then : Control → (ℕ → Bool) → ℕ → Ingestion → Ingestion × Control
  flush_then next joined now s =
      let (s', done) = flush joined now s in (s', if done then next else fail)

  -- A list event that is not from the far future.
  unfoldable pub receive : (ℕ → Bool) → ℕ → Event → Ingestion → Ingestion × Control
  unfolding flush process_event dominates
  receive joined now e s =
      let noted = record s { status = record s.status { last_event_received_at = now } } in
      let key : Str × ℕ = (e.pubkey, e.kind) in
      let accepted : Ingestion × Control = elim (process_event e) [
        | none ↦ (noted, continue)
        | some update ↦
            let s' = record noted {
              seen = put s.seen key (record { created_at = e.created_at; event_id = e.id });
              batch = s.batch ++ update ∷ [];
            } in
            if leb batch_size (length s'.batch)
            then flush_then continue joined now s'
            else (s', continue)
      ] in
      elim (get s.seen key) [
        | none ↦ accepted
        | some entry ↦ if dominates entry e then (noted, continue) else accepted
      ]

  -- One turn of the loop.
  unfoldable pub step : (ℕ → Bool) → ℕ → Input → Ingestion → Ingestion × Control
  unfolding receive
  step joined now sender_gone s = (s, break)
  step joined now (shutdown true) s = (s, break)
  step joined now (shutdown false) s = (s, continue)
  step joined now tick s = flush_then continue joined now s
  step joined now (event e) s =
      if not (is_list_kind e.kind)
      then (s, continue)
      else if ltb (now + 600) e.created_at
      then (s, continue)
      else receive joined now e s
  step joined now other s = (s, continue)
  step joined now (lagged count restarted) s =
      let counted = record s {
        status = record s.status {
          lagged_notifications = fetch_add s.status.lagged_notifications count;
        };
      } in
      let (s', done) = flush joined now counted in
      if done
      then (record s' { seen = empty }, if restarted then continue else fail)
      else (s', fail)
  step joined now closed s = flush_then fail joined now s

  -- The loop over the inputs delivered so far; `none` while it waits for the next one.
  unfoldable pub run_loop : List (Input × ℕ × (ℕ → Bool)) → Ingestion → Ingestion × Option Bool
  unfolding step
  run_loop [] s = (s, none)
  run_loop ((input, now, joined) ∷ inputs) s =
      let (s', control) = step joined now input s in
      elim control [
        | continue ↦ run_loop inputs s'
        | break ↦ let (s'', done) = flush joined now s' in (s'', some done)
        | fail ↦ (s', some false)
      ]

  -- `run`: at least one relay, a client that connects, then the loop, and a client that
  -- disconnects after the last flush.
  unfoldable pub run :
      List Str → Bool → Bool → List (Input × ℕ × (ℕ → Bool)) → Ingestion → Ingestion × Option Bool
  unfolding run_loop
  run relays connects disconnects inputs s =
      if is_empty relays || not connects
      then (s, some false)
      else (let (s', result) =
            run_loop inputs (record s {
              status = record s.status { running = true };
              seen = empty;
              batch = [];
            }) in
          (s', elim result [ none ↦ none | some done ↦ some (done && disconnects) ]))

  -- `start`: an ended run is no longer running, and a failed one is marked.
  unfoldable pub start :
      List Str → Bool → Bool → List (Input × ℕ × (ℕ → Bool)) → Ingestion → Ingestion × Option Bool
  unfolding run
  start relays connects disconnects inputs s =
      let (s', result) = run relays connects disconnects inputs s in
      elim result [
        | none ↦ (s', none)
        | some done ↦ (
          record s' {
            status = record s'.status {
              running = false;
              failed = if done then s'.status.failed else true;
            };
          },
          some done,
        )
      ]
