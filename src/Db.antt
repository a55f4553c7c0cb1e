-- ===== src/Db.antt =====
-- The database of src/db/sqlite.rs; here `event_wins`, the order in which it replaces lists.
pub mod Tables
pub mod Batch
pub mod Load
pub mod Rows
pub mod View
pub mod Laws
use nostr_wot_oracle.Prelude.{◌≡◌, Bool, true, false, not, Option, none, some, arith, if◌then◌else◌}
use nostr_wot_oracle.Prelude.Int.{ℤ, ltbℤ, eqbℤ, eqbℤ_iff, ltbℤ_irrefl}
use nostr_wot_oracle.Prelude.Str.{Str, str_lt}
use nostr_wot_oracle.Graph.Events.{accepts_event}

-- `match (new_id, old_id)`
abbrev pub lower_id : Option Str → Option Str → Bool
lower_id none old = false
lower_id (some new) none = true
lower_id (some new) (some old) = str_lt new old

unfoldable pub event_wins : Option ℤ → Option Str → Option ℤ → Option Str → Bool
event_wins none new_id none old_id = true
event_wins none new_id (some old) old_id = false
event_wins (some new) new_id none old_id = true
event_wins (some new) new_id (some old) old_id =
    if not (eqbℤ new old) then ltbℤ old new else lower_id new_id old_id

-- For all times and ids, present or not, the database's test of whether an event wins over a
-- stored one is the graph's test of whether it accepts the event over the indexed one.
pub event_wins-accepts_event :
    (new_ts : Option ℤ) (new_id : Option Str) (old_ts : Option ℤ) (old_id : Option Str)
    → event_wins new_ts new_id old_ts old_id ≡ accepts_event old_ts old_id new_ts new_id
unfolding event_wins accepts_event
event_wins-accepts_event none new_id none old_id = ground arith
event_wins-accepts_event none new_id (some o) old_id = ground arith
event_wins-accepts_event (some n) new_id none old_id = ground arith
event_wins-accepts_event (some n) none (some o) none = ground (arith, eqbℤ_iff n o, ltbℤ_irrefl n)
event_wins-accepts_event (some n) none (some o) (some j) =
    ground (arith, eqbℤ_iff n o, ltbℤ_irrefl n)
event_wins-accepts_event (some n) (some i) (some o) none =
    ground (arith, eqbℤ_iff n o, ltbℤ_irrefl n)
event_wins-accepts_event (some n) (some i) (some o) (some j) =
    ground (arith, eqbℤ_iff n o, ltbℤ_irrefl n)
