-- ===== src/Graph/Store/Invariant/Publish.antt =====
-- The invariant under the publication of a follow row or a mute list, in src/graph/store.rs.
use nostr_wot_oracle.Prelude.{
  ℕ, ◌<◌, ◌≡◌, List, [], true, Option, some, length, nat_eq, arith, inl, inr, Bool-cases,
  get_or-set, length-set, if◌then◌else◌, ◌==◌, ==_iff,
}
use nostr_wot_oracle.Prelude.Int.{ℤ}
use nostr_wot_oracle.Prelude.Str.{Str, str_key}
use nostr_wot_oracle.Prelude.Dict.{lookup, lookup-insert}
use nostr_wot_oracle.Prelude.Sorted.{Sorted, Below, member, Below-member, Below-of_members}
use nostr_wot_oracle.Graph.Adjacency.{row, diff, remove_from_all}
use nostr_wot_oracle.Graph.Adjacency.Merge.{diff_lem}
use nostr_wot_oracle.Graph.Adjacency.Rows.{
  length-remove_from_all, length-add_to_all, remove_from_all_lem, add_to_all_lem,
}
use nostr_wot_oracle.Graph.Store.Types.{WotGraph, MuteList}
use nostr_wot_oracle.Graph.Store.Update.{publish_follows, publish_mutes}
use nostr_wot_oracle.Graph.Store.Invariant.{WellFormed}

module _ (g : WotGraph) (a : ℕ) (targets : List ℕ) (event_id : Option Str) (created_at : Option ℤ)
    (w : WellFormed g) (inside : a < length g.id_to_pubkey) (asc : Sorted targets)
    (known : Below (length g.id_to_pubkey) targets) where
  -- The author's row is the new one, and no other row changes.
  pub row-publish_follows :
      (b : ℕ)
      → row (publish_follows g a targets event_id created_at).follows b
        ≡ (if a == b then targets else row g.follows b)
  unfolding publish_follows
  row-publish_follows b = get_or-set g.follows a b targets [] (omega (arith, w.size_follows))

  leaving : Below (length g.followers) (diff (row g.follows a) targets).to_remove
  leaving =
      let d = diff_lem (row g.follows a) targets (w.follows_sorted a) asc in
      Below-of_members (length g.followers) (diff (row g.follows a) targets).to_remove (λ v m.
        let old : member v (row g.follows a) ≡ true = ground (arith, d.0 v) in
        omega (arith, w.size_followers, Below-member _ v (row g.follows a) (w.follows_below a) old))

  joining : Below (length g.followers) (diff (row g.follows a) targets).to_add
  joining =
      let d = diff_lem (row g.follows a) targets (w.follows_sorted a) asc in
      Below-of_members (length g.followers) (diff (row g.follows a) targets).to_add (λ v m.
        let fresh : member v targets ≡ true = ground (arith, d.1 v) in
        omega (arith, w.size_followers, Below-member _ v targets known fresh))

  joining_after :
      Below
        (length (remove_from_all a (diff (row g.follows a) targets).to_remove g.followers))
        (diff (row g.follows a) targets).to_add
  joining_after = rw length-remove_from_all joining

  -- Each follower row stays ascending and has the author exactly if the new row names it.
  followers_lem :
      (b v : ℕ)
      → Sorted (row (publish_follows g a targets event_id created_at).followers b)
        × (member v (row (publish_follows g a targets event_id created_at).followers b)
            ≡ (if a == v then member b targets else member v (row g.followers b)))
  unfolding publish_follows
  followers_lem b v =
      let old = row g.follows a in
      let d = diff_lem old targets (w.follows_sorted a) asc in
      let r =
        remove_from_all_lem a (diff old targets).to_remove g.followers b v d.2 leaving
          (w.followers_sorted b) in
      let s =
        add_to_all_lem a (diff old targets).to_add
          (remove_from_all a (diff old targets).to_remove g.followers) b v d.3 joining_after r.0 in
      (s.0, ground (arith, s.1, r.1, d.0 b, d.1 b, w.mirrored a b, ==_iff a v))

  pub publish_follows-WellFormed : WellFormed (publish_follows g a targets event_id created_at)
  publish_follows-WellFormed = record {
    size_follows = unfold publish_follows in rw length-set w.size_follows;
    size_followers =
        unfold publish_follows in rw length-add_to_all (rw length-remove_from_all w.size_followers);
    size_info = unfold publish_follows in rw length-set w.size_info;
    named = unfold publish_follows in w.named;
    follows_sorted = λ b.
        rw (row-publish_follows b)
          (elim (Bool-cases (a == b)) [ inl e ↦ rw e asc | inr e ↦ rw e (w.follows_sorted b) ]);
    followers_sorted = λ b. (followers_lem b 0).0;
    follows_below = λ b. rw (row-publish_follows b) (elim (Bool-cases (a == b)) [
      | inl e ↦ rw e (unfold publish_follows in known)
      | inr e ↦ rw e (unfold publish_follows in w.follows_below b)
    ]);
    mirrored = λ c b. rw (row-publish_follows c) (
        rw ((followers_lem b c).1)
          (elim (Bool-cases (a == c)) [ inl e ↦ rw e | inr e ↦ rw e (w.mirrored c b) ]));
    mute_authors = unfold publish_follows in w.mute_authors;
    mutes_sorted = unfold publish_follows in w.mutes_sorted;
    mutes_below = unfold publish_follows in w.mutes_below;
  }

  pub lookup-publish_mutes :
      (b : ℕ)
      → lookup b (publish_mutes g a targets event_id created_at).mutes ≡ (
          if a == b
          then some (record { ids = targets; event_id = event_id; created_at = created_at })
          else lookup b g.mutes)
  unfolding publish_mutes
  lookup-publish_mutes b =
      lookup-insert a b (record { ids = targets; event_id = event_id; created_at = created_at })
        g.mutes

  mutes_lem :
      (b : ℕ) (l : MuteList)
      → lookup b (publish_mutes g a targets event_id created_at).mutes ≡ some l
      → (b < length g.id_to_pubkey) × Sorted l.ids × Below (length g.id_to_pubkey) l.ids
  mutes_lem b l h = elim (Bool-cases (a == b)) [
    | inl e ↦
        let ids : targets ≡ l.ids = ground (arith, lookup-publish_mutes b) in
        (ground arith, rw (← ids) asc, rw (← ids) known)
    | inr e ↦
        let old : lookup b g.mutes ≡ some l = ground (arith, lookup-publish_mutes b) in
        (w.mute_authors b l old, w.mutes_sorted b l old, w.mutes_below b l old)
  ]

  pub publish_mutes-WellFormed : WellFormed (publish_mutes g a targets event_id created_at)
  publish_mutes-WellFormed = record {
    size_follows = unfold publish_mutes in w.size_follows;
    size_followers = unfold publish_mutes in w.size_followers;
    size_info = unfold publish_mutes in w.size_info;
    named = unfold publish_mutes in w.named;
    follows_sorted = unfold publish_mutes in w.follows_sorted;
    followers_sorted = unfold publish_mutes in w.followers_sorted;
    follows_below = unfold publish_mutes in w.follows_below;
    mirrored = unfold publish_mutes in w.mirrored;
    mute_authors = λ b l h. unfold publish_mutes in (mutes_lem b l h).0;
    mutes_sorted = λ b l h. (mutes_lem b l h).1;
    mutes_below = λ b l h. unfold publish_mutes in (mutes_lem b l h).2;
  }
