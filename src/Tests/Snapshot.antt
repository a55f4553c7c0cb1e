-- ===== src/Tests/Snapshot.antt =====
-- A database snapshot merged into a sample graph.
use nostr_wot_oracle.Prelude.{◌≡◌, sym, ℕ, List, [], ◌∷◌, none, some, arith}
use mathlib.Core.Path.{subst}
use nostr_wot_oracle.Prelude.Sorted.{member, Sorted, Below}
use nostr_wot_oracle.Graph.Adjacency.{row}
use nostr_wot_oracle.Graph.Store.Types.{SnapshotNode}
use nostr_wot_oracle.Graph.Store.Restore.{restore_nodes, rebuild_followers, cleared}
use nostr_wot_oracle.Graph.Store.Rebuild.{rebuild_followers_lem}
use nostr_wot_oracle.Graph.Store.Invariant.{WellFormed}
use nostr_wot_oracle.Graph.Store.Invariant.Restored.{restore_nodes-WellFormed}
use nostr_wot_oracle.Tests.Samples.{
  bob, dan, first_id, second_id, at_ten, at_twenty, small, small-WellFormed, small-HasRoom,
}

-- `dan` follows `bob`, and `bob` mutes `dan`: ids are places in the snapshot.
abbrev snapshot : List SnapshotNode
snapshot =
    record {
      pubkey = dan;
      info = record { kind3_event_id = first_id; kind3_created_at = at_ten };
      follows = 1 ∷ [];
      mutes = none;
    }
    ∷ record {
      pubkey = bob;
      info = record { kind3_event_id = none; kind3_created_at = none };
      follows = [];
      mutes = some (record { ids = 0 ∷ []; event_id = second_id; created_at = at_twenty });
    }
    ∷ []

restore_nodes-WellFormed_example : WellFormed (restore_nodes small snapshot)
restore_nodes-WellFormed_example =
    restore_nodes-WellFormed small snapshot small-WellFormed (omega (arith, small-HasRoom))

rebuild_followers_lem_example :
    ((a b : ℕ)
      → member b (row small.follows a)
        ≡ member a (row (rebuild_followers 0 small.follows (cleared small.followers)) b))
    × ((b : ℕ) → Sorted (row (rebuild_followers 0 small.follows (cleared small.followers)) b))
rebuild_followers_lem_example =
    rebuild_followers_lem small.follows small.followers small-WellFormed.follows_sorted (λ a.
      subst (λ n. Below n (row small.follows a)) (sym small-WellFormed.size_followers)
        (small-WellFormed.follows_below a))
