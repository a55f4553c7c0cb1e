-- ===== src/Sync/Status.antt =====
-- `SyncStatus` of src/sync/ingestion.rs. Times are seconds since 1970 of a clock that is past it;
-- counters are `AtomicU64`.
use nostr_wot_oracle.Prelude.{ℕ, ◌+◌, ◌-◌, ◌%◌, ◌^◌, Bool, false, not, ◌&&◌, ltb, leb}
use nostr_wot_oracle.Prelude.Str.{Str, lit}

pub record SyncStatus : Type 0 where
  pub running : Bool
  pub failed : Bool
  pub last_event_received_at : ℕ
  pub last_persisted_at : ℕ
  pub persisted_events : ℕ
  pub lagged_notifications : ℕ
  pub persistence_errors : ℕ

pub record SyncSnapshot : Type 0 where
  pub running : Bool
  pub ready : Bool
  pub last_event_received_at : ℕ
  pub last_persisted_at : ℕ
  pub persisted_events : ℕ
  pub lagged_notifications : ℕ
  pub persistence_errors : ℕ
  pub coverage : Str

abbrev pub default_status : SyncStatus
default_status = record {
  running = false;
  failed = false;
  last_event_received_at = 0;
  last_persisted_at = 0;
  persisted_events = 0;
  lagged_notifications = 0;
  persistence_errors = 0;
}

-- `fetch_add` on an `AtomicU64`.
abbrev pub fetch_add : ℕ → ℕ → ℕ
fetch_add a n = (a + n) % 2 ^ 64

-- Where the event time is ahead of the clock the difference is negative in the source, and 0 here:
-- both are within the bound.
unfoldable pub ready : SyncStatus → ℕ → Bool
ready s now =
    s.running
    && (not s.failed
        && (ltb 0 s.last_event_received_at && leb (now - s.last_event_received_at) 300))

unfoldable pub snapshot : SyncStatus → ℕ → SyncSnapshot
unfolding ready
snapshot s now = record {
  running = s.running;
  ready = ready s now;
  last_event_received_at = s.last_event_received_at;
  last_persisted_at = s.last_persisted_at;
  persisted_events = s.persisted_events;
  lagged_notifications = s.lagged_notifications;
  persistence_errors = s.persistence_errors;
  coverage = lit "configured_relays_only";
}
