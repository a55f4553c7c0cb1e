-- ===== src/Graph/Store/Invariant/Mutes.antt =====
-- `update_mutes` of src/graph/store.rs: the invariant, the guard, and the abstract view.
use nostr_wot_oracle.Prelude.{
  ℕ, ◌+◌, ◌≤◌, ◌≡◌, ◌∙◌, ◌&&◌, sym, ap, List, Bool, true, false, not, Option, none, some, length,
  refl, arith, Option-cases, inl, inr, Bool-cases, if◌then◌else◌, ◌==◌, nat_eq,
}
use nostr_wot_oracle.Prelude.Int.{ℤ}
use nostr_wot_oracle.Prelude.Str.{Str, str_key, str_eq, contains}
use nostr_wot_oracle.Prelude.Dict.{lookup}
use nostr_wot_oracle.Prelude.Sorted.{Below, sort, dedup, dedup-sort-Sorted}
use nostr_wot_oracle.Graph.Events.{accepts_event}
use nostr_wot_oracle.Graph.Store.Types.{WotGraph, MuteList}
use nostr_wot_oracle.Graph.Store.Nodes.{get_or_create_node_locked, get_or_create_all}
use nostr_wot_oracle.Graph.Store.Update.{rejects_mutes, publish_mutes, update_mutes}
use nostr_wot_oracle.Graph.Store.View.{mutes, mute_row, mutes-Extends}
use nostr_wot_oracle.Graph.Store.Invariant.{WellFormed, HasRoom}
use nostr_wot_oracle.Graph.Store.Invariant.Create.{
  Created, CreatedAll, Extends-trans, get_or_create_node-Created, get_or_create_all-CreatedAll,
  get_or_create_node_known, get_or_create_all_grown, Staged, get_or_create_all_grown, Staged,
  Resolves,
}
use nostr_wot_oracle.Graph.Store.Invariant.Names.{fresh-ge, lookup-lt, Below-Resolves}
use nostr_wot_oracle.Graph.Store.Invariant.Replace.{Below-dedup-sort, linked-replace}
use nostr_wot_oracle.Graph.Store.Invariant.Publish.{lookup-publish_mutes, publish_mutes-WellFormed}

module _ (h : WotGraph) (p : Str) (a : ℕ) (ps : List Str) (ids : List ℕ) (i : Option Str)
    (t : Option ℤ) (w : WellFormed h) (name : lookup p h.pubkey_to_id ≡ some a)
    (res : Resolves h ps ids) where
  abbrev published : WotGraph
  published = publish_mutes h a (dedup (sort ids)) i t

  targets-Below : Below (length h.id_to_pubkey) (dedup (sort ids))
  targets-Below = Below-dedup-sort _ ids (Below-Resolves h w ps ids res)

  published-WellFormed : WellFormed published
  published-WellFormed =
      publish_mutes-WellFormed h a (dedup (sort ids)) i t w (lookup-lt h w p a name)
        (dedup-sort-Sorted ids) targets-Below

  mute_row-published :
      (b : ℕ) → mute_row published b ≡ (if a == b then dedup (sort ids) else mute_row h b)
  mute_row-published b = ground (
    arith,
    lookup-publish_mutes h a (dedup (sort ids)) i t w (lookup-lt h w p a name)
        (dedup-sort-Sorted ids) targets-Below b,
  )

  mutes-published :
      (r q : Str) → mutes published r q ≡ (if str_eq p r then contains q ps else mutes h r q)
  unfolding mutes
  mutes-published r q =
      let rows = mute_row-published in
      unfold publish_mutes in
      linked-replace h p a ps ids (mute_row h) (mute_row published) w name res rows r q

-- The indexed mute list of an author, if there is one.
abbrev pub mute_version : WotGraph → Str → Option MuteList
mute_version g p = elim (lookup p g.pubkey_to_id) [ none ↦ none | some i ↦ lookup i g.mutes ]

-- Does the event replace the indexed mute list of its author?
abbrev pub mutes_accept_over : Option MuteList → Option Str → Option ℤ → Bool
mutes_accept_over none i t = true
mutes_accept_over (some l) i t = accepts_event l.created_at l.event_id t i

module _ (g : WotGraph) (p : Str) (ps : List Str) (i : Option Str) (t : Option ℤ) (w : WellFormed g)
    (room : HasRoom g (length ps + 1)) where
  abbrev g' : WotGraph
  g' = (get_or_create_node_locked g p).0

  abbrev node : ℕ
  node = (get_or_create_node_locked g p).1

  abbrev g'' : WotGraph
  g'' = (get_or_create_all g' ps).0

  abbrev ids : List ℕ
  ids = (get_or_create_all g' ps).1

  created : Created g p g' node
  created = get_or_create_node-Created g p w (omega arith)

  created_all : CreatedAll g' ps g'' ids
  created_all = get_or_create_all-CreatedAll g' ps created.valid (omega (arith, created.grown))

  -- No mute list belongs to an id that no node has.
  unknown_list : length g.id_to_pubkey ≤ node → lookup node g.mutes ≡ none
  unknown_list le = elim (Option-cases (lookup node g.mutes)) [
    | inl e ↦ e
    | inr (l, e) ↦ absurd (omega (arith, w.mute_authors node l e))
  ]

  list_cases :
      (o : Option ℕ) → lookup p g.pubkey_to_id ≡ o → lookup node g'.mutes ≡ mute_version g p
  list_cases none e =
      ap (λ m. lookup node m) created.extends.mutes
      ∙ (unknown_list (fresh-ge g g' p node w created.valid created.extends e created.name)
          ∙ sym (rw (e, mute_version)))
  list_cases (some a) e =
      let same : node ≡ a = ap (λ (x : WotGraph × ℕ). x.1) (get_or_create_node_known g p a e) in
      ap (λ m. lookup node m) created.extends.mutes
      ∙ (ap (λ k. lookup k g.mutes) same ∙ sym (rw (e, mute_version)))

  -- The guard tests the indexed version.
  rejects-version : rejects_mutes g' node i t ≡ not (mutes_accept_over (mute_version g p) i t)
  unfolding rejects_mutes
  rejects-version = rw (← list_cases (lookup p g.pubkey_to_id) refl) (go (lookup node g'.mutes))
    where
      go :
          (o : Option MuteList)
          → elim o [ none ↦ false | some l ↦ not (accepts_event l.created_at l.event_id t i) ]
            ≡ not (mutes_accept_over o i t)
      go none = refl
      go (some l) = refl

  update_mutes-eq : update_mutes g p ps i t ≡ (
      if mutes_accept_over (mute_version g p) i t
      then (publish_mutes g'' node (dedup (sort ids)) i t, true)
      else (g', false))
  unfolding update_mutes
  update_mutes-eq = ground (arith, rejects-version)

  name'' : lookup p g''.pubkey_to_id ≡ some node
  name'' = created_all.extends.names p node created.name

  -- In a well-formed graph with room for the author and the listed keys, a mute update,
  -- accepted or not, leaves a well-formed graph.
  pub update_mutes-WellFormed : WellFormed (update_mutes g p ps i t).0
  update_mutes-WellFormed =
      rw update_mutes-eq (elim (Bool-cases (mutes_accept_over (mute_version g p) i t)) [
        | inl e ↦
            rw e (
              published-WellFormed g'' p node ps ids i t created_all.valid name'' created_all.names)
        | inr e ↦ rw e created.valid
      ])

  -- In a well-formed graph with room for the author and the listed keys, a mute update reports
  -- exactly whether its event replaces the indexed mute list of the author (true if none is
  -- indexed). If it does, the author then mutes exactly the listed keys; for every other
  -- author, and for every pair of keys if it does not, who mutes whom is as before.
  pub update_mutes_refines :
      ((update_mutes g p ps i t).1 ≡ mutes_accept_over (mute_version g p) i t)
      × ((r q : Str)
          → mutes (update_mutes g p ps i t).0 r q ≡ (
              if mutes_accept_over (mute_version g p) i t && str_eq p r
              then contains q ps
              else mutes g r q))
  update_mutes_refines = (
    rw update_mutes-eq (ground arith),
    λ r q. rw update_mutes-eq (elim (Bool-cases (mutes_accept_over (mute_version g p) i t)) [
      | inl e ↦
          rw (e, ← kept'' r q)
            (mutes-published g'' p node ps ids i t created_all.valid name'' created_all.names r q)
      | inr e ↦ rw e (mutes-Extends g g' r q w created.valid created.extends)
    ]),
  )
    where
      kept'' : (r q : Str) → mutes g'' r q ≡ mutes g r q
      kept'' r q =
          mutes-Extends g g'' r q w created_all.valid
            (Extends-trans g g' g'' created.extends created_all.extends)

  old_node :
      (o : Option ℕ)
      → lookup p g.pubkey_to_id ≡ o
      → mutes_accept_over (mute_version g p) i t ≡ false
      → g' ≡ g
  old_node none h e = let c : true ≡ false = rw (h, mute_version) at e in cc
  old_node (some a) h e = ap (λ (x : WotGraph × ℕ). x.0) (get_or_create_node_known g p a h)

  -- The graph after the author and the listed keys have nodes, and what the update makes of it.
  pub update_mutes_stages :
      (h : WotGraph) × (a : ℕ) × (targets : List ℕ) × Staged g p (length ps + 1) h a
      × (update_mutes g p ps i t ≡ (
          if mutes_accept_over (mute_version g p) i t
          then (publish_mutes h a targets i t, true)
          else (g, false)))
  update_mutes_stages = (
    g'',
    node,
    dedup (sort ids),
    record {
      valid = created_all.valid;
      extends = Extends-trans g g' g'' created.extends created_all.extends;
      name = name'';
      grown = omega (
        arith,
        created.grown,
        get_or_create_all_grown g' ps created.valid (omega (arith, created.grown)),
      );
    },
    update_mutes-eq ∙ elim (Bool-cases (mutes_accept_over (mute_version g p) i t)) [
      | inl e ↦ rw e refl
      | inr e ↦ rw e (ap (λ x. (x, false)) (old_node (lookup p g.pubkey_to_id) refl e))
    ],
  )

  -- An update makes a node for each key at most.
  pub update_mutes_size :
      length (update_mutes g p ps i t).0.id_to_pubkey ≤ length g.id_to_pubkey + (length ps + 1)
  unfolding publish_mutes
  update_mutes_size =
      let (h, a, targets, staged, run) = update_mutes_stages in
      elim (Bool-cases (mutes_accept_over (mute_version g p) i t)) [
        | inl wins ↦ rw run (rw wins staged.grown)
        | inr loses ↦ rw run (rw loses (omega arith))
      ]
