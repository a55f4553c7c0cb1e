-- ===== src/Graph/Store/Types.antt =====
-- The state of `WotGraph`. Its locks serialise writers, so an operation here is one step on the
-- whole state; the lock timers are those of `Graph/Metrics.antt`.
use nostr_wot_oracle.Prelude.{ℕ, ◌+◌, ◌%◌, ◌^◌, List, [], Bool, Option}
use nostr_wot_oracle.Prelude.Int.{ℤ}
use nostr_wot_oracle.Prelude.Str.{Str}
use nostr_wot_oracle.Prelude.Dict.{Dict}
use nostr_wot_oracle.Graph.Interner
use nostr_wot_oracle.Graph.Interner.{PubkeyInterner}

pub record NodeInfo : Type 0 where
  pub kind3_event_id : Option Str
  pub kind3_created_at : Option ℤ

pub record GraphStats : Type 0 where
  pub node_count : ℕ
  pub edge_count : ℕ
  pub nodes_with_follows : ℕ
  pub mute_edge_count : ℕ
  pub nodes_with_mute_lists : ℕ

pub record MuteEvidence : Type 0 where
  pub source_mutes_target : Bool
  pub target_mutes_source : Bool
  pub followed_muters : List Str
  pub source_mute_list_known : Bool
  pub target_mute_list_known : Bool

pub record MuteList : Type 0 where
  pub ids : List ℕ
  pub event_id : Option Str
  pub created_at : Option ℤ

-- A database snapshot; `follows` and the ids of `mutes` index the vector of nodes.
pub record SnapshotNode : Type 0 where
  pub pubkey : Str
  pub info : NodeInfo
  pub follows : List ℕ
  pub mutes : Option MuteList

pub record WotGraph : Type 0 where
  pub revision : ℕ
  pub interner : PubkeyInterner
  pub pubkey_to_id : Dict Str ℕ
  pub id_to_pubkey : List Str
  pub follows : List (List ℕ)
  pub followers : List (List ℕ)
  pub node_info : List (Option NodeInfo)
  pub mutes : Dict ℕ MuteList

abbrev pub new : WotGraph
new = record {
  revision = 0;
  interner = Interner.new;
  pubkey_to_id = [];
  id_to_pubkey = [];
  follows = [];
  followers = [];
  node_info = [];
  mutes = [];
}

-- `self.revision.fetch_add(1, Ordering::Release)` on an `AtomicU64`.
abbrev pub next_revision : ℕ → ℕ
next_revision r = (r + 1) % 2 ^ 64
