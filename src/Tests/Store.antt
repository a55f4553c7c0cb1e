-- ===== src/Tests/Store.antt =====
-- Updates of the graph.
use nostr_wot_oracle.Prelude.{◌≡◌, ◌&&◌, [], ◌∷◌, false, some, refl, arith, if◌then◌else◌, nat_eq}
use nostr_wot_oracle.Prelude.Str.{Str, contains, str_eq, str_key, str_lt}
use nostr_wot_oracle.Prelude.Dict.{lookup, insert}
use nostr_wot_oracle.Graph.Events.{accepts_event}
use nostr_wot_oracle.Graph.Interner.{intern}
use nostr_wot_oracle.Graph.Store.Nodes.{create_node, get_or_create_node_locked, get_or_create_all}
use nostr_wot_oracle.Graph.Store.Update.{
  rejects_follows, publish_follows, update_follows, update_mutes, rejects_mutes, publish_mutes,
}
use nostr_wot_oracle.Graph.Store.View.{follows, mutes}
use nostr_wot_oracle.Graph.Store.Invariant.{WellFormed}
use nostr_wot_oracle.Graph.Store.Invariant.Create.{CreatedAll, get_or_create_all-CreatedAll}
use nostr_wot_oracle.Graph.Store.Invariant.Follows.{
  follow_version, accepts_over, update_follows-WellFormed, update_follows_refines,
  update_follows_rejected,
}
use nostr_wot_oracle.Graph.Store.Invariant.Mutes.{
  mute_version, mutes_accept_over, update_mutes-WellFormed, update_mutes_refines,
}
use nostr_wot_oracle.Graph.Store.Invariant.Revision.{
  SameTopology, update_follows_same_revision, update_mutes_same_revision,
}
use nostr_wot_oracle.Tests.Samples.{
  ann, bob, dan, bob_cat, first_id, second_id, at_ten, at_twenty, small, small-WellFormed,
  small-HasRoom, small-HasRevisions, muted, muted-WellFormed, muted-HasRoom, muted-HasRevisions,
}
use nostr_wot_oracle.Prelude.Int.{pos, ltbℤ, eqbℤ}
use nostr_wot_oracle.Graph.Adjacency.{diff, diff_loop}
use nostr_wot_oracle.Prelude.Sorted.{sort, dedup}

update_follows_refines_example :
    ((update_follows small bob (dan ∷ []) second_id at_twenty).1
      ≡ accepts_over (follow_version small bob) second_id at_twenty)
    × ((r q : Str)
        → follows (update_follows small bob (dan ∷ []) second_id at_twenty).0 r q ≡ (
            if accepts_over (follow_version small bob) second_id at_twenty && str_eq bob r
            then contains q (dan ∷ [])
            else follows small r q))
update_follows_refines_example =
    update_follows_refines small bob (dan ∷ []) second_id at_twenty small-WellFormed
      (omega (arith, small-HasRoom))

update_follows-WellFormed_example :
    WellFormed (update_follows small ann (dan ∷ []) second_id at_twenty).0
update_follows-WellFormed_example =
    update_follows-WellFormed small ann (dan ∷ []) second_id at_twenty small-WellFormed
      (omega (arith, small-HasRoom))

-- The list that is indexed is newer.
older_rejected : accepts_over (follow_version small ann) first_id (some (pos 5)) ≡ false
unfolding update_follows get_or_create_node_locked create_node get_or_create_all rejects_follows
    publish_follows intern lookup insert str_eq accepts_event ltbℤ eqbℤ str_lt
older_rejected = refl

update_follows_rejected_example :
    update_follows small ann (dan ∷ []) first_id (some (pos 5)) ≡ (small, false)
update_follows_rejected_example =
    update_follows_rejected small ann (dan ∷ []) first_id (some (pos 5)) small-WellFormed
      (omega (arith, small-HasRoom)) older_rejected

update_mutes_refines_example :
    ((update_mutes small bob (dan ∷ []) second_id at_twenty).1
      ≡ mutes_accept_over (mute_version small bob) second_id at_twenty)
    × ((r q : Str)
        → mutes (update_mutes small bob (dan ∷ []) second_id at_twenty).0 r q ≡ (
            if mutes_accept_over (mute_version small bob) second_id at_twenty && str_eq bob r
            then contains q (dan ∷ [])
            else mutes small r q))
update_mutes_refines_example =
    update_mutes_refines small bob (dan ∷ []) second_id at_twenty small-WellFormed
      (omega (arith, small-HasRoom))

update_mutes-WellFormed_example :
    WellFormed (update_mutes small ann (dan ∷ []) second_id at_twenty).0
update_mutes-WellFormed_example =
    update_mutes-WellFormed small ann (dan ∷ []) second_id at_twenty small-WellFormed
      (omega (arith, small-HasRoom))

-- The same list under a newer event takes no revision.
same_list : (update_follows small ann bob_cat second_id at_twenty).0.revision ≡ small.revision
unfolding update_follows get_or_create_node_locked create_node get_or_create_all rejects_follows
    publish_follows intern lookup insert str_eq accepts_event ltbℤ eqbℤ str_lt diff diff_loop sort
    dedup
same_list = refl

update_follows_same_revision_example :
    SameTopology small (update_follows small ann bob_cat second_id at_twenty).0
update_follows_same_revision_example =
    update_follows_same_revision small ann bob_cat second_id at_twenty small-WellFormed
      (omega (arith, small-HasRoom)) (omega (arith, small-HasRevisions)) same_list

get_or_create_all-CreatedAll_example :
    CreatedAll small
      (dan ∷ bob ∷ [])
      (get_or_create_all small (dan ∷ bob ∷ [])).0
      (get_or_create_all small (dan ∷ bob ∷ [])).1
get_or_create_all-CreatedAll_example =
    get_or_create_all-CreatedAll small (dan ∷ bob ∷ []) small-WellFormed
      (omega (arith, small-HasRoom))

-- An older mute list is rejected.
older_mutes : (update_mutes muted bob (dan ∷ []) first_id at_ten).0.revision ≡ muted.revision
unfolding update_follows get_or_create_node_locked create_node get_or_create_all rejects_follows
    publish_follows diff diff_loop sort dedup intern lookup insert str_eq update_mutes publish_mutes
    rejects_mutes accepts_event ltbℤ eqbℤ str_lt
older_mutes = refl

update_mutes_same_revision_example : (update_mutes muted bob (dan ∷ []) first_id at_ten).0 ≡ muted
update_mutes_same_revision_example =
    update_mutes_same_revision muted bob (dan ∷ []) first_id at_ten muted-WellFormed
      (omega (arith, muted-HasRoom)) (omega (arith, muted-HasRevisions)) older_mutes
