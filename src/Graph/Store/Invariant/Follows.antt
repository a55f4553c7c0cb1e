-- ===== src/Graph/Store/Invariant/Follows.antt =====
-- `update_follows` of src/graph/store.rs: the invariant, the guard, and the abstract view.
use nostr_wot_oracle.Prelude.{
  ◌≤◌, ℕ, ◌+◌, ◌≡◌, ◌∙◌, sym, ap, List, Bool, true, false, not, Option, none, some, length, get_or,
  refl, arith, inl, inr, Bool-cases, if◌then◌else◌, get_or_of_ge, ◌&&◌,
}
use nostr_wot_oracle.Prelude.Int.{ℤ}
use nostr_wot_oracle.Prelude.Str.{Str, str_key, str_eq, contains}
use nostr_wot_oracle.Prelude.Dict.{lookup}
use nostr_wot_oracle.Prelude.Sorted.{sort, dedup, dedup-sort-Sorted}
use nostr_wot_oracle.Graph.Adjacency.{row}
use nostr_wot_oracle.Graph.Events.{accepts_event}
use nostr_wot_oracle.Graph.Store.Types.{WotGraph, NodeInfo}
use nostr_wot_oracle.Graph.Store.Nodes.{get_or_create_node_locked, get_or_create_all}
use nostr_wot_oracle.Graph.Store.Update.{rejects_follows, publish_follows, update_follows}
use nostr_wot_oracle.Graph.Store.View.{follows, follows-Extends}
use nostr_wot_oracle.Graph.Store.Invariant.{WellFormed, HasRoom}
use nostr_wot_oracle.Graph.Store.Invariant.Create.{
  Created, CreatedAll, Extends-trans, get_or_create_node-Created, get_or_create_all-CreatedAll,
  get_or_create_node_known, get_or_create_all_grown, Staged, Resolves,
}
use nostr_wot_oracle.Graph.Store.Invariant.Names.{fresh-ge, lookup-lt, Below-Resolves}
use nostr_wot_oracle.Graph.Store.Invariant.Replace.{Below-dedup-sort, linked-replace}
use nostr_wot_oracle.Graph.Store.Invariant.Publish.{row-publish_follows, publish_follows-WellFormed}

module _ (h : WotGraph) (p : Str) (a : ℕ) (ps : List Str) (ids : List ℕ) (i : Option Str)
    (t : Option ℤ) (w : WellFormed h) (name : lookup p h.pubkey_to_id ≡ some a)
    (res : Resolves h ps ids) where
  abbrev published : WotGraph
  published = publish_follows h a (dedup (sort ids)) i t

  published-WellFormed : WellFormed published
  published-WellFormed =
      publish_follows-WellFormed h a (dedup (sort ids)) i t w (lookup-lt h w p a name)
        (dedup-sort-Sorted ids) (Below-dedup-sort _ ids (Below-Resolves h w ps ids res))

  follows-published :
      (r q : Str) → follows published r q ≡ (if str_eq p r then contains q ps else follows h r q)
  unfolding follows
  follows-published r q =
      let rows =
        row-publish_follows h a (dedup (sort ids)) i t w (lookup-lt h w p a name)
          (dedup-sort-Sorted ids) (Below-dedup-sort _ ids (Below-Resolves h w ps ids res)) in
      unfold publish_follows in
      linked-replace h p a ps ids (row h.follows) (row published.follows) w name res rows r q

-- The version of an author's follow list, if one is indexed.
abbrev pub follow_version : WotGraph → Str → Option NodeInfo
follow_version g p = elim (lookup p g.pubkey_to_id) [
  | none ↦ none
  | some i ↦ get_or g.node_info i none
]

-- Does the event replace the indexed follow list of its author?
abbrev pub accepts_over : Option NodeInfo → Option Str → Option ℤ → Bool
accepts_over none i t = true
accepts_over (some info) i t = accepts_event info.kind3_created_at info.kind3_event_id t i

module _ (g : WotGraph) (p : Str) (ps : List Str) (i : Option Str) (t : Option ℤ) (w : WellFormed g)
    (room : HasRoom g (length ps + 1)) where
  abbrev g' : WotGraph
  g' = (get_or_create_node_locked g p).0

  abbrev node : ℕ
  node = (get_or_create_node_locked g p).1

  abbrev g'' : WotGraph
  g'' = (get_or_create_all g' ps).0

  abbrev ids : List ℕ
  ids = (get_or_create_all g' ps).1

  created : Created g p g' node
  created = get_or_create_node-Created g p w (omega arith)

  created_all : CreatedAll g' ps g'' ids
  created_all = get_or_create_all-CreatedAll g' ps created.valid (omega (arith, created.grown))

  info_cases :
      (o : Option ℕ)
      → lookup p g.pubkey_to_id ≡ o
      → get_or g'.node_info node none ≡ follow_version g p
  info_cases none e =
      created.extends.info node
      ∙ get_or_of_ge g.node_info node none (
          omega (
            arith,
            w.size_info,
            fresh-ge g g' p node w created.valid created.extends e created.name,
          ))
      ∙ sym (rw (e, follow_version))
  info_cases (some a) e =
      let same : node ≡ a = ap (λ (x : WotGraph × ℕ). x.1) (get_or_create_node_known g p a e) in
      created.extends.info node
      ∙ (ap (λ k. get_or g.node_info k none) same ∙ sym (rw (e, follow_version)))

  -- The guard tests the indexed version.
  rejects-version : rejects_follows g' node i t ≡ not (accepts_over (follow_version g p) i t)
  unfolding rejects_follows
  rejects-version =
      rw (← info_cases (lookup p g.pubkey_to_id) refl) (go (get_or g'.node_info node none))
    where
      go :
          (o : Option NodeInfo)
          → elim o [
            | none ↦ false
            | some info ↦ not (accepts_event info.kind3_created_at info.kind3_event_id t i)
          ]
            ≡ not (accepts_over o i t)
      go none = refl
      go (some info) = refl

  update_follows-eq : update_follows g p ps i t ≡ (
      if accepts_over (follow_version g p) i t
      then (publish_follows g'' node (dedup (sort ids)) i t, true)
      else (g', false))
  unfolding update_follows
  update_follows-eq = ground (arith, rejects-version)

  name'' : lookup p g''.pubkey_to_id ≡ some node
  name'' = created_all.extends.names p node created.name

  -- In a well-formed graph with room for the author and the listed keys, a follow update,
  -- accepted or not, leaves a well-formed graph: vectors of one length, ids and names inverse,
  -- ascending rows in range, and followers the mirror image of follows.
  pub update_follows-WellFormed : WellFormed (update_follows g p ps i t).0
  update_follows-WellFormed =
      rw update_follows-eq (elim (Bool-cases (accepts_over (follow_version g p) i t)) [
        | inl e ↦
            rw e (
              published-WellFormed g'' p node ps ids i t created_all.valid name'' created_all.names)
        | inr e ↦ rw e created.valid
      ])

  -- In a well-formed graph with room for the author and the listed keys, a follow update
  -- reports exactly whether its event replaces the indexed version of the author (true if none
  -- is indexed). If it does, the author then follows exactly the listed keys; for every other
  -- follower, and for every pair of keys if it does not, who follows whom is as before.
  pub update_follows_refines :
      ((update_follows g p ps i t).1 ≡ accepts_over (follow_version g p) i t)
      × ((r q : Str)
          → follows (update_follows g p ps i t).0 r q ≡ (
              if accepts_over (follow_version g p) i t && str_eq p r
              then contains q ps
              else follows g r q))
  update_follows_refines = (
    rw update_follows-eq (ground arith),
    λ r q. rw update_follows-eq (elim (Bool-cases (accepts_over (follow_version g p) i t)) [
      | inl e ↦
          rw (e, ← kept'' r q)
            (follows-published g'' p node ps ids i t created_all.valid name'' created_all.names r q)
      | inr e ↦ rw e (follows-Extends g g' r q w created.valid created.extends)
    ]),
  )
    where
      kept'' : (r q : Str) → follows g'' r q ≡ follows g r q
      kept'' r q =
          follows-Extends g g'' r q w created_all.valid
            (Extends-trans g g' g'' created.extends created_all.extends)

  old_node :
      (o : Option ℕ)
      → lookup p g.pubkey_to_id ≡ o
      → accepts_over (follow_version g p) i t ≡ false
      → g' ≡ g
  old_node none h e = let c : true ≡ false = rw (h, follow_version) at e in cc
  old_node (some a) h e = ap (λ (x : WotGraph × ℕ). x.0) (get_or_create_node_known g p a h)

  -- In a well-formed graph with room for the author and the listed keys, a follow update whose
  -- event does not replace the indexed version returns false and leaves the whole state as it
  -- was.
  pub update_follows_rejected :
      accepts_over (follow_version g p) i t ≡ false → update_follows g p ps i t ≡ (g, false)
  update_follows_rejected e =
      rw update_follows-eq (rw e (ap (λ x. (x, false)) (old_node (lookup p g.pubkey_to_id) refl e)))

  -- The graph after the author and the listed keys have nodes, and what the update makes of it.
  pub update_follows_stages :
      (h : WotGraph) × (a : ℕ) × (targets : List ℕ) × Staged g p (length ps + 1) h a
      × (update_follows g p ps i t ≡ (
          if accepts_over (follow_version g p) i t
          then (publish_follows h a targets i t, true)
          else (g, false)))
  update_follows_stages = (
    g'',
    node,
    dedup (sort ids),
    record {
      valid = created_all.valid;
      extends = Extends-trans g g' g'' created.extends created_all.extends;
      name = name'';
      grown = omega (
        arith,
        created.grown,
        get_or_create_all_grown g' ps created.valid (omega (arith, created.grown)),
      );
    },
    update_follows-eq ∙ elim (Bool-cases (accepts_over (follow_version g p) i t)) [
      | inl e ↦ rw e refl
      | inr e ↦ rw e (ap (λ x. (x, false)) (old_node (lookup p g.pubkey_to_id) refl e))
    ],
  )

  -- An update makes a node for each key at most.
  pub update_follows_size :
      length (update_follows g p ps i t).0.id_to_pubkey ≤ length g.id_to_pubkey + (length ps + 1)
  unfolding publish_follows
  update_follows_size =
      let (h, a, targets, staged, run) = update_follows_stages in
      elim (Bool-cases (accepts_over (follow_version g p) i t)) [
        | inl wins ↦ rw run (rw wins staged.grown)
        | inr loses ↦ rw run (rw loses (omega arith))
      ]
