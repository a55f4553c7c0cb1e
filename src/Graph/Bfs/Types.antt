-- ===== src/Graph/Bfs/Types.antt =====
-- Queries, results and the scratch state of src/graph/bfs.rs.
use nostr_wot_oracle.Prelude.{ℕ, ◌+◌, ◌*◌, ◌-◌, ◌^◌, min, List, Bool, false, Option, none, some}
use nostr_wot_oracle.Prelude.Str.{Str}
use nostr_wot_oracle.Prelude.Dict.{Dict}

pub record DistanceQuery : Type 0 where
  pub from : Str
  pub to : Str
  pub max_hops : ℕ
  pub include_bridges : Bool

pub record DistanceResult : Type 0 where
  pub from : Str
  pub to : Str
  pub hops : Option ℕ
  pub path_count : ℕ
  pub mutual_follow : Bool
  pub bridges : Option (List Str)

unfoldable pub not_found : Str → Str → DistanceResult
not_found from to = record {
  from = from;
  to = to;
  hops = none;
  path_count = 0;
  mutual_follow = false;
  bridges = none;
}

unfoldable pub same_node : Str → DistanceResult
same_node pubkey = record {
  from = pubkey;
  to = pubkey;
  hops = some 0;
  path_count = 1;
  mutual_follow = false;
  bridges = none;
}

pub record PathQuery : Type 0 where
  pub from : Str
  pub to : Str
  pub max_hops : ℕ

pub record PathResult : Type 0 where
  pub from : Str
  pub to : Str
  pub path : Option (List Str)

-- `u64::MAX` and the saturating operations.
abbrev pub u64_max : ℕ
u64_max = 2 ^ 64 - 1

abbrev pub saturating_add : ℕ → ℕ → ℕ
saturating_add a b = min (a + b) u64_max

abbrev pub saturating_mul : ℕ → ℕ → ℕ
saturating_mul a b = min (a * b) u64_max

-- One direction of the search: the visited nodes with their distance and path count, and the two
-- buffers of the frontier.
pub record Side : Type 0 where
  pub visited : Dict ℕ (ℕ × ℕ)
  pub current : List ℕ
  pub next : List ℕ

-- A node where the two searches met, with the path counts on the forward and the backward side.
pub record MeetingNode : Type 0 where
  pub id : ℕ
  pub fwd_paths : ℕ
  pub bwd_paths : ℕ

pub record Meeting : Type 0 where
  pub best_distance : Option ℕ
  pub meeting_nodes : List MeetingNode

pub record BfsState : Type 0 where
  pub fwd : Side
  pub bwd : Side
  pub fwd_dist : ℕ
  pub bwd_dist : ℕ
  pub meeting : Meeting
