-- ===== src/Graph/Store/Invariant/Restored.antt =====
-- The invariant under `restore_nodes` of src/graph/store.rs.
use nostr_wot_oracle.Prelude.{
  ℕ, zero, suc, ◌<◌, ◌≡◌, ◌∙◌, sym, ap, List, [], ◌∷◌, false, some, length, nat_eq, arith, refl,
  inl, inr, Bool-cases, Option-cases, get_or-set, length-set, if◌then◌else◌, ◌==◌, get_or, map,
  length-map, set, get_elem?, ◌↔◌,
}
use nostr_wot_oracle.Prelude.Str.{Str, str_key, str_eq_iff}
use nostr_wot_oracle.Prelude.Dict.{lookup, insert, lookup-insert}
use nostr_wot_oracle.Prelude.Sorted.{Sorted, Below, member, dedup-sort-Sorted}
use nostr_wot_oracle.Graph.Adjacency.{row}
use nostr_wot_oracle.Graph.Store.Types.{WotGraph, MuteList, SnapshotNode}
use nostr_wot_oracle.Graph.Store.Nodes.{get_or_create_all}
use nostr_wot_oracle.Graph.Store.Restore.{
  Merge, merge_follows, merge_mutes, merge_loop, finish_merge, restore_nodes, snapshot_targets,
  takes_follows, takes_mutes, cleared,
}
use nostr_wot_oracle.Graph.Store.Rebuild.{
  rebuild_followers_lem, length-rebuild_followers, length-cleared,
}
use nostr_wot_oracle.Graph.Store.Invariant.{WellFormed, HasRoom}
use nostr_wot_oracle.Graph.Store.Invariant.Create.{get_or_create_all-CreatedAll}
use nostr_wot_oracle.Graph.Store.Invariant.Names.{Below-Resolves}
use nostr_wot_oracle.Graph.Store.Invariant.Replace.{Below-dedup-sort}
use nostr_wot_oracle.Graph.Store.Invariant.Revision.{set_same}

-- The invariant while a snapshot is merged into a graph of `n` nodes: the reverse adjacency is only
-- right as long as no row has changed.
record Merging (n : ℕ) (m : Merge) : Type 0 where
  size : length m.graph.id_to_pubkey ≡ n
  size_follows : length m.graph.follows ≡ n
  size_followers : length m.graph.followers ≡ n
  size_info : length m.graph.node_info ≡ n
  named :
      (p : Str) (i : ℕ)
      → (lookup p m.graph.pubkey_to_id ≡ some i) ↔ (get_elem? m.graph.id_to_pubkey i ≡ some p)
  follows_sorted : (a : ℕ) → Sorted (row m.graph.follows a)
  follows_below : (a : ℕ) → Below n (row m.graph.follows a)
  mute_rows :
      (a : ℕ) (l : MuteList)
      → lookup a m.graph.mutes ≡ some l
      → (a < n) × Sorted l.ids × Below n l.ids
  kept :
      m.topology_changed ≡ false
      → ((a b : ℕ) → member b (row m.graph.follows a) ≡ member a (row m.graph.followers b))
        × ((b : ℕ) → Sorted (row m.graph.followers b))

targets-Below :
    (n : ℕ) (ids targets : List ℕ) → 0 < n → Below n ids → Below n (snapshot_targets ids targets)
targets-Below n ids targets pos h =
    Below-dedup-sort n (map (λ t. get_or ids t 0) targets) (all targets)
  where
    at : (ids : List ℕ) (t : ℕ) → Below n ids → get_or ids t 0 < n
    at [] t h = pos
    at (i ∷ ids) zero h = h.0
    at (i ∷ ids) (suc t) h = at ids t h.1

    all : (ts : List ℕ) → Below n (map (λ t. get_or ids t 0) ts)
    all [] = tt
    all (t ∷ ts) = (at ids t h, all ts)

module _ (n : ℕ) (ids : List ℕ) (id : ℕ) (node : SnapshotNode) (known : Below n ids)
    (inside : id < n) where
  abbrev targets : List ℕ
  targets = snapshot_targets ids node.follows

  targets-ok : Sorted targets × Below n targets
  targets-ok = (
    dedup-sort-Sorted (map (λ t. get_or ids t 0) node.follows),
    targets-Below n ids node.follows (omega arith) known,
  )

  merge_follows-Merging : (m : Merge) → Merging n m → Merging n (merge_follows ids id node m)
  unfolding merge_follows
  merge_follows-Merging m r = elim (Bool-cases (takes_follows m.graph id node.info)) [
    | inr e ↦ rw e r
    | inl e ↦
        let rows : (b : ℕ)
            → row (set m.graph.follows id targets) b
              ≡ (if id == b then targets else row m.graph.follows b) =
          λ b. get_or-set m.graph.follows id b targets [] (omega (arith, r.size_follows)) in
        rw e (record {
          size = r.size;
          size_follows = length-set m.graph.follows id targets ∙ r.size_follows;
          size_followers = r.size_followers;
          size_info = length-set m.graph.node_info id (some node.info) ∙ r.size_info;
          named = r.named;
          follows_sorted = λ b. rw (rows b) (elim (Bool-cases (id == b)) [
            | inl x ↦ rw x targets-ok.0
            | inr x ↦ rw x (r.follows_sorted b)
          ]);
          follows_below = λ b. rw (rows b) (elim (Bool-cases (id == b)) [
            | inl x ↦ rw x targets-ok.1
            | inr x ↦ rw x (r.follows_below b)
          ]);
          mute_rows = r.mute_rows;
          kept = λ h.
              let old : row m.graph.follows id ≡ targets =
                (str_eq_iff (row m.graph.follows id) targets).0 (ground arith) in
              let unchanged : set m.graph.follows id targets ≡ m.graph.follows =
                ap (set m.graph.follows id) (sym old) ∙ set_same m.graph.follows id in
              let k = r.kept (ground arith) in
              (λ a b. ap (λ xs. member b (row xs a)) unchanged ∙ k.0 a b, k.1);
        })
  ]

  merge_mutes-Merging : (m : Merge) → Merging n m → Merging n (merge_mutes ids id node m)
  unfolding merge_mutes
  merge_mutes-Merging m r = elim (Option-cases node.mutes) [
    | inl e ↦ rw e r
    | inr (list, e) ↦ elim (Bool-cases (takes_mutes m.graph id list)) [
      | inr x ↦ rw (e, x) r
      | inl x ↦
          rw (e, x)
            (record {
              size = r.size;
              size_follows = r.size_follows;
              size_followers = r.size_followers;
              size_info = r.size_info;
              named = r.named;
              follows_sorted = r.follows_sorted;
              follows_below = r.follows_below;
              mute_rows = λ b l h. merged_rows m r list b l h;
              kept = r.kept;
            })
    ]
  ]
    where
      merged_rows :
          (m : Merge)
          → Merging n m
          → (list : MuteList) (b : ℕ) (l : MuteList)
          → lookup b (insert id (record list { ids = snapshot_targets ids list.ids }) m.graph.mutes)
            ≡ some l
          → (b < n) × Sorted l.ids × Below n l.ids
      merged_rows m r list b l h =
          let stored : MuteList = record list { ids = snapshot_targets ids list.ids } in
          let found = lookup-insert id b stored m.graph.mutes in
          elim (Bool-cases (id == b)) [
            | inr other ↦ r.mute_rows b l (ground (arith, found))
            | inl same ↦
                let here : snapshot_targets ids list.ids ≡ l.ids = ground (arith, found) in
                (
                  ground arith,
                  rw (← here) (dedup-sort-Sorted (map (λ t. get_or ids t 0) list.ids)),
                  rw (← here) (targets-Below n ids list.ids (omega arith) known),
                )
          ]

merge_loop-Merging :
    (n : ℕ) (ids rest : List ℕ) (nodes : List SnapshotNode) (m : Merge)
    → Below n ids
    → Below n rest
    → Merging n m
    → Merging n (merge_loop ids rest nodes m)
unfolding merge_loop
merge_loop-Merging n ids [] nodes m known inside r = r
merge_loop-Merging n ids (id ∷ rest) [] m known inside r = r
merge_loop-Merging n ids (id ∷ rest) (node ∷ nodes) m known inside r =
    merge_loop-Merging n ids rest nodes (merge_mutes ids id node (merge_follows ids id node m))
      known inside.1
      (merge_mutes-Merging n ids id node known inside.0 (merge_follows ids id node m)
        (merge_follows-Merging n ids id node known inside.0 m r))

start-Merging :
    (g : WotGraph)
    → WellFormed g
    → Merging
        (length g.id_to_pubkey)
        (record { graph = g; topology_changed = false; mutes_changed = false })
start-Merging g w = record {
  size = refl;
  size_follows = w.size_follows;
  size_followers = w.size_followers;
  size_info = w.size_info;
  named = w.named;
  follows_sorted = w.follows_sorted;
  follows_below = w.follows_below;
  mute_rows = λ a l h. (w.mute_authors a l h, w.mutes_sorted a l h, w.mutes_below a l h);
  kept = λ h. (w.mirrored, w.followers_sorted);
}

-- The last step makes the reverse adjacency right again.
finished :
    (n : ℕ) (m : Merge)
    → Merging n m
    → (length (finish_merge m).followers ≡ n)
      × ((a b : ℕ) → member b (row m.graph.follows a) ≡ member a (row (finish_merge m).followers b))
      × ((b : ℕ) → Sorted (row (finish_merge m).followers b))
unfolding finish_merge
finished n m r = elim (Bool-cases m.topology_changed) [
  | inr e ↦ rw e (r.size_followers, (r.kept e).0, (r.kept e).1)
  | inl e ↦
      let built =
        rebuild_followers_lem m.graph.follows m.graph.followers r.follows_sorted
          (λ a. rw r.size_followers (r.follows_below a)) in
      rw e (
        length-rebuild_followers 0 m.graph.follows (cleared m.graph.followers)
            ∙ (length-cleared m.graph.followers ∙ r.size_followers),
        built.0,
        built.1,
      )
]

finish_merge-WellFormed : (n : ℕ) (m : Merge) → Merging n m → WellFormed (finish_merge m)
finish_merge-WellFormed n m r =
    let f = finished n m r in
    record {
      size_follows = unfold finish_merge in r.size_follows ∙ sym r.size;
      size_followers = f.0 ∙ sym (unfold finish_merge in r.size);
      size_info = unfold finish_merge in r.size_info ∙ sym r.size;
      named = unfold finish_merge in r.named;
      follows_sorted = unfold finish_merge in r.follows_sorted;
      followers_sorted = f.2;
      follows_below = unfold finish_merge in λ a. rw r.size (r.follows_below a);
      mirrored = λ a b. unfold finish_merge in f.1 a b;
      mute_authors = unfold finish_merge in λ a l h. rw r.size (r.mute_rows a l h).0;
      mutes_sorted = unfold finish_merge in λ a l h. (r.mute_rows a l h).1;
      mutes_below = unfold finish_merge in λ a l h. rw r.size (r.mute_rows a l h).2;
    }

-- In a well-formed graph with room for the keys of a snapshot, merging the snapshot leaves a
-- well-formed graph, with the followers again the mirror image of the follows.
pub restore_nodes-WellFormed :
    (g : WotGraph) (nodes : List SnapshotNode)
    → WellFormed g
    → HasRoom g (length nodes)
    → WellFormed (restore_nodes g nodes)
unfolding restore_nodes
restore_nodes-WellFormed g nodes w room =
    let names : List Str = map (λ (x : SnapshotNode). x.pubkey) nodes in
    let g' = (get_or_create_all g names).0 in
    let ids = (get_or_create_all g names).1 in
    let c =
      get_or_create_all-CreatedAll g names w
        (omega (arith, length-map (λ (x : SnapshotNode). x.pubkey) nodes)) in
    let known = Below-Resolves g' c.valid names ids c.names in
    finish_merge-WellFormed (length g'.id_to_pubkey) _ (
      merge_loop-Merging (length g'.id_to_pubkey) ids ids nodes _ known known
        (start-Merging g' c.valid))
