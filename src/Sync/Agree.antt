-- ===== src/Sync/Agree.antt =====
-- The lists of the database beside those of the graph, for `persist_and_apply` of
-- src/sync/ingestion.rs. `false` stands for follow lists and `true` for mute lists.
pub mod Order
pub mod Applied
pub mod Published
pub mod Stored
pub mod Attempt
pub mod Flushed
use nostr_wot_oracle.Prelude.{
  nat_eq, get_or, List, ℕ, ◌≡◌, Bool, true, false, Option, none, some, not,
}
use nostr_wot_oracle.Prelude.Int.{ℤ}
use nostr_wot_oracle.Prelude.Str.{Str, str_key}
use nostr_wot_oracle.Prelude.Dict.{Dict, lookup}
use nostr_wot_oracle.Graph.Store.Types.{WotGraph, NodeInfo, MuteList}
use nostr_wot_oracle.Graph.Store.View.{follows, mutes}
use nostr_wot_oracle.Graph.Store.Invariant.Follows.{follow_version}
use nostr_wot_oracle.Graph.Store.Invariant.Mutes.{mute_version}
use nostr_wot_oracle.Db.Tables.{Tables}
use nostr_wot_oracle.Db.View.{listed, version}

unfoldable pub names : Bool → WotGraph → Str → Str → Bool
names false g p q = follows g p q
names true g p q = mutes g p q

abbrev pub info_event : Option NodeInfo → Option Str × Option ℤ
info_event none = (none, none)
info_event (some info) = (info.kind3_event_id, info.kind3_created_at)

abbrev pub list_event : Option MuteList → Option Str × Option ℤ
list_event none = (none, none)
list_event (some l) = (l.event_id, l.created_at)

abbrev pub info_at : List (Option NodeInfo) → Option ℕ → Option Str × Option ℤ
info_at infos none = (none, none)
info_at infos (some i) = info_event (get_or infos i none)

abbrev pub list_at : Dict ℕ MuteList → Option ℕ → Option Str × Option ℤ
list_at lists none = (none, none)
list_at lists (some i) = list_event (lookup i lists)

-- The event that a list in the graph comes from.
unfoldable pub edition : Bool → WotGraph → Str → Option Str × Option ℤ
edition false g p = info_at g.node_info (lookup p g.pubkey_to_id)
edition true g p = list_at g.mutes (lookup p g.pubkey_to_id)

-- The tables and the graph have the same lists, from the same events.
pub record Agrees (t : Tables) (g : WotGraph) : Type 0 where
  pub lists : (k : Bool) (p q : Str) → names k g p q ≡ listed k t p q
  pub versions : (k : Bool) (p : Str) → edition k g p ≡ version k t p
