-- ===== src/Db/Rows.antt =====
-- The single-row operations of src/db/sqlite.rs: `upsert_node`, the sync state and the counts.
use nostr_wot_oracle.Prelude.{ℕ, Option, none, some, length}
use nostr_wot_oracle.Prelude.Int.{ℤ}
use nostr_wot_oracle.Prelude.Str.{Str, str_key}
use nostr_wot_oracle.Prelude.Dict.{lookup, insert}
use nostr_wot_oracle.Db.Tables.{Tables, NodeRow, SyncState, Rowids, coalesce, id_of}

module _ (rowids : Rowids) (now : ℤ) where
  -- `ON CONFLICT(pubkey) DO UPDATE SET ..` with `COALESCE`
  abbrev pub coalesced : Option NodeRow → Option Str → Option ℤ → ℕ → NodeRow
  coalesced none event_id created_at id = record {
    id = id;
    kind3_event_id = event_id;
    kind3_created_at = created_at;
    updated_at = now;
  }
  coalesced (some old) event_id created_at id = record {
    id = old.id;
    kind3_event_id = coalesce event_id old.kind3_event_id;
    kind3_created_at = coalesce created_at old.kind3_created_at;
    updated_at = now;
  }

  -- The tables and the id of the row.
  unfoldable pub upsert_node : Str → Option Str → Option ℤ → Tables → Tables × Option ℕ
  upsert_node pubkey kind3_event_id kind3_created_at t =
      let row =
        coalesced (lookup pubkey t.nodes) kind3_event_id kind3_created_at (rowids.next t.nodes) in
      let nodes = insert pubkey row t.nodes in (record t { nodes = nodes }, id_of nodes pubkey)

unfoldable pub get_sync_state : Str → Tables → Option SyncState
get_sync_state relay_url t = lookup relay_url t.sync_state

unfoldable pub set_sync_state : ℤ → Str → Option ℤ → Tables → Tables
set_sync_state now relay_url last_event_time t = record t {
  sync_state =
      insert relay_url
        (record {
          relay_url = relay_url;
          last_event_time = last_event_time;
          last_sync_at = some now;
        })
        t.sync_state;
}

-- `SELECT COUNT(*)` of the nodes and of the edges.
unfoldable pub get_stats : Tables → ℕ × ℕ
get_stats t = (length t.nodes, length t.edges)
