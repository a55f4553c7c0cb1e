-- ===== src/Tests/Samples.antt =====
-- The keys and graphs that the tests share.
use nostr_wot_oracle.Graph.Store.Update.{
  update_mutes, rejects_follows, publish_follows, update_follows, rejects_mutes, publish_mutes,
}
use nostr_wot_oracle.Prelude.{◌≡◌, List, [], ◌∷◌, Option, some, length, refl, arith}
use nostr_wot_oracle.Prelude.Int.{ℤ, pos}
use nostr_wot_oracle.Prelude.Str.{str_eq, Str, lit}
use nostr_wot_oracle.Prelude.Dict.{lookup, insert}
use nostr_wot_oracle.Graph.Interner.{intern}
use nostr_wot_oracle.Graph.Store.Types.{WotGraph, new}
use nostr_wot_oracle.Graph.Store.Nodes.{create_node, get_or_create_node_locked, get_or_create_all}
use nostr_wot_oracle.Graph.Store.Invariant.{WellFormed, HasRoom, new-WellFormed}
use nostr_wot_oracle.Graph.Store.Invariant.Follows.{update_follows-WellFormed}
use nostr_wot_oracle.Graph.Adjacency.{diff, diff_loop}
use nostr_wot_oracle.Prelude.Sorted.{sort, dedup}
use nostr_wot_oracle.Graph.Store.Invariant.Mutes.{update_mutes-WellFormed}
use nostr_wot_oracle.Graph.Store.Invariant.Revision.{HasRevisions}

abbrev pub ann : Str
ann = lit "a"

abbrev pub bob : Str
bob = lit "b"

abbrev pub cat : Str
cat = lit "c"

abbrev pub dan : Str
dan = lit "d"

abbrev pub bob_cat : List Str
bob_cat = bob ∷ cat ∷ []

abbrev pub first_id : Option Str
first_id = some (lit "e1")

abbrev pub second_id : Option Str
second_id = some (lit "e2")

abbrev pub at_ten : Option ℤ
at_ten = some (pos 10)

abbrev pub at_twenty : Option ℤ
at_twenty = some (pos 20)

-- `ann` follows `bob` and `cat`.
abbrev pub small : WotGraph
small = (update_follows new ann bob_cat first_id at_ten).0

small-nodes : length small.id_to_pubkey ≡ 3
unfolding update_follows get_or_create_node_locked create_node get_or_create_all rejects_follows
    publish_follows intern lookup insert str_eq
small-nodes = refl

pub small-WellFormed : WellFormed small
small-WellFormed =
    update_follows-WellFormed new ann bob_cat first_id at_ten new-WellFormed (omega arith)

pub small-HasRoom : HasRoom small 10
small-HasRoom = omega (arith, small-nodes)

-- There `bob` mutes `cat`.
abbrev pub muted : WotGraph
muted = (update_mutes small bob (cat ∷ []) second_id at_twenty).0

pub muted-WellFormed : WellFormed muted
muted-WellFormed =
    update_mutes-WellFormed small bob (cat ∷ []) second_id at_twenty small-WellFormed
      (omega (arith, small-HasRoom))

small-revision : small.revision ≡ 4
unfolding update_follows get_or_create_node_locked create_node get_or_create_all rejects_follows
    publish_follows diff diff_loop sort dedup intern lookup insert str_eq
small-revision = refl

pub small-HasRevisions : HasRevisions small 10
small-HasRevisions = omega (arith, small-revision)

muted_sizes : (length muted.id_to_pubkey ≡ 3) × (muted.revision ≡ 5)
unfolding update_follows get_or_create_node_locked create_node get_or_create_all rejects_follows
    publish_follows diff diff_loop sort dedup intern lookup insert str_eq update_mutes publish_mutes
    rejects_mutes
muted_sizes = (refl, refl)

pub muted-HasRoom : HasRoom muted 10
muted-HasRoom = omega (arith, muted_sizes)

pub muted-HasRevisions : HasRevisions muted 10
muted-HasRevisions = omega (arith, muted_sizes)

-- `ann` follows `bob`, who follows `cat`.
abbrev pub chain : WotGraph
chain =
    (update_follows (update_follows new ann (bob ∷ []) first_id at_ten).0 bob (cat ∷ []) second_id
      at_twenty).0

chain-nodes : length (update_follows new ann (bob ∷ []) first_id at_ten).0.id_to_pubkey ≡ 2
unfolding update_follows get_or_create_node_locked create_node get_or_create_all rejects_follows
    publish_follows intern lookup insert str_eq
chain-nodes = refl

pub chain-WellFormed : WellFormed chain
chain-WellFormed =
    update_follows-WellFormed (update_follows new ann (bob ∷ []) first_id at_ten).0 bob (cat ∷ [])
      second_id at_twenty
      (update_follows-WellFormed new ann (bob ∷ []) first_id at_ten new-WellFormed (omega arith))
      (omega (arith, chain-nodes))
