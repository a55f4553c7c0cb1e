-- ===== src/Db/Tables.antt =====
-- The tables of src/db/sqlite.rs and the statements on them. A table with a unique column is a
-- dictionary under that column. What SQLite leaves open, the id of a new row, is a parameter.
use nostr_wot_oracle.Prelude.{
  nat_eq, ℕ, ◌≡◌, ◌≢◌, List, [], ◌∷◌, Bool, false, not, ◌&&◌, ◌||◌, Option, none, some,
  if◌then◌else◌, ◌==◌, keep, unwrap_or,
}
use mathlib.Core.Option
use nostr_wot_oracle.Prelude.Int.{ℤ}
use nostr_wot_oracle.Prelude.Str.{Str, str_key}
use nostr_wot_oracle.Prelude.Dict.{Dict, lookup, insert}

-- A row of `nodes`, without its pubkey.
pub record NodeRow : Type 0 where
  pub id : ℕ
  pub kind3_event_id : Option Str
  pub kind3_created_at : Option ℤ
  pub updated_at : ℤ

-- A row of `mute_lists`, without its follower_id.
pub record MuteRow : Type 0 where
  pub event_id : Option Str
  pub created_at : Option ℤ
  pub updated_at : ℤ

pub record SyncState : Type 0 where
  pub relay_url : Str
  pub last_event_time : Option ℤ
  pub last_sync_at : Option ℤ

pub record Tables : Type 0 where
  pub nodes : Dict Str NodeRow
  pub edges : List (ℕ × ℕ)
  pub mute_lists : Dict ℕ MuteRow
  pub mute_edges : List (ℕ × ℕ)
  pub sync_state : Dict Str SyncState

-- What `init_schema` leaves in a new file.
abbrev pub empty : Tables
empty = record { nodes = []; edges = []; mute_lists = []; mute_edges = []; sync_state = [] }

-- The id that SQLite gives to a new row of `nodes` is that of no row.
pub record Rowids : Type 0 where
  pub next : Dict Str NodeRow → ℕ
  pub next-fresh :
      (nodes : Dict Str NodeRow) (p : Str) (r : NodeRow)
      → lookup p nodes ≡ some r
      → r.id ≢ next nodes

abbrev pub has_pair : ℕ → ℕ → List (ℕ × ℕ) → Bool
has_pair a b [] = false
has_pair a b (e ∷ es) = ((e.0 == a) && (e.1 == b)) || has_pair a b es

-- `DELETE FROM .. WHERE follower_id = ?1 AND followed_id = ?2`
unfoldable pub delete_edge : ℕ → ℕ → List (ℕ × ℕ) → List (ℕ × ℕ)
delete_edge a b es = keep (λ (e : ℕ × ℕ). not ((e.0 == a) && (e.1 == b))) es

-- `INSERT INTO .. (follower_id, followed_id)`: the primary key refuses a second row.
unfoldable pub insert_edge : ℕ → ℕ → List (ℕ × ℕ) → Option (List (ℕ × ℕ))
insert_edge a b es = if has_pair a b es then none else some ((a, b) ∷ es)

-- `SELECT id FROM nodes WHERE pubkey = ?1`
abbrev pub id_of : Dict Str NodeRow → Str → Option ℕ
id_of nodes p = Option.map (λ (r : NodeRow). r.id) (lookup p nodes)

-- `SELECT n.pubkey, e.followed_id FROM edges e JOIN nodes n ON n.id = e.followed_id WHERE ..`
unfoldable pub old_edges : ℕ → Dict Str NodeRow → List (ℕ × ℕ) → Dict Str ℕ
old_edges a [] es = []
old_edges a ((p, r) ∷ nodes) es =
    let rest = old_edges a nodes es in if has_pair a r.id es then (p, r.id) ∷ rest else rest

module _ (rowids : Rowids) (now : ℤ) where
  -- `INSERT INTO nodes (pubkey, updated_at) .. ON CONFLICT(pubkey) DO NOTHING`
  unfoldable pub insert_node : Str → Dict Str NodeRow → Dict Str NodeRow
  insert_node p nodes = elim (lookup p nodes) [
    | some row ↦ nodes
    | none ↦
        insert p
          (record {
            id = rowids.next nodes;
            kind3_event_id = none;
            kind3_created_at = none;
            updated_at = now;
          })
          nodes
  ]

  -- `INSERT INTO nodes .. ON CONFLICT(pubkey) DO UPDATE SET ..`: a row that exists keeps its id.
  unfoldable pub upsert_kind3 : Str → Option Str → Option ℤ → Dict Str NodeRow → Dict Str NodeRow
  upsert_kind3 p event_id created_at nodes =
      insert p
        (record {
          id = unwrap_or (id_of nodes p) (rowids.next nodes);
          kind3_event_id = event_id;
          kind3_created_at = created_at;
          updated_at = now;
        })
        nodes

-- `COALESCE(?2, column)`
abbrev pub coalesce {ℓ} : {A : Type ℓ} → Option A → Option A → Option A
coalesce none old = old
coalesce (some new) old = some new
