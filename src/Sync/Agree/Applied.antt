-- ===== src/Sync/Agree/Applied.antt =====
-- What `update_follows` and `update_mutes` of src/graph/store.rs do to the lists and to their versions.
use nostr_wot_oracle.Prelude.{
  not, ap, Bool-cases, sym, get_or, ◌&&◌, ◌≤◌, ◌∙◌, ◌+◌, length, ℕ, ◌≡◌, Bool, true, false, Option,
  none, some, arith, List, if◌then◌else◌, inl, inr, Option-cases, refl, nat_eq, get_or-set,
  get_or_of_ge,
}
use nostr_wot_oracle.Prelude.Str.{contains, Str, str_eq, str_eq_iff, str_key}
use nostr_wot_oracle.Graph.Store.View.{follows, mutes, follows-Extends, mutes-Extends}
use nostr_wot_oracle.Graph.Store.Update.{
  update_follows, update_mutes, publish_mutes, publish_follows,
}
use nostr_wot_oracle.Graph.Store.Invariant.{HasRoom, WellFormed, Extends}
use nostr_wot_oracle.Graph.Store.Invariant.Create.{Staged}
use nostr_wot_oracle.Graph.Store.Invariant.Follows.{
  follow_version, accepts_over, update_follows_stages, update_follows_refines,
  update_follows-WellFormed,
}
use nostr_wot_oracle.Graph.Store.Invariant.Mutes.{
  mute_version, mutes_accept_over, update_mutes_stages, update_mutes_refines,
  update_mutes-WellFormed,
}
use nostr_wot_oracle.Db.{event_wins, event_wins-accepts_event}
use nostr_wot_oracle.Sync.Agree.{names, edition}
use nostr_wot_oracle.Prelude.Int.{ℤ}
use nostr_wot_oracle.Prelude.Dict.{lookup, lookup-insert}
use nostr_wot_oracle.Graph.Store.Types.{WotGraph}
use nostr_wot_oracle.Graph.Store.Invariant.Names.{fresh-ge, lookup-lt, id_eq}
use nostr_wot_oracle.Db.Laws.Author.{same_kind}

-- Creating nodes gives nobody a version.
edition-Extends :
    (g h : WotGraph) (k : Bool) (p : Str)
    → WellFormed g
    → WellFormed h
    → Extends g h
    → edition k h p ≡ edition k g p
unfolding edition
edition-Extends g h false p w v e = elim (Option-cases (lookup p g.pubkey_to_id)) [
  | inr (i, old) ↦ rw (old, e.names p i old, e.info i) refl
  | inl new ↦ elim (Option-cases (lookup p h.pubkey_to_id)) [
    | inl x ↦ rw (new, x) refl
    | inr (i, x) ↦
        rw
          (
            new,
            x,
            e.info i,
            get_or_of_ge g.node_info i none
                (omega (arith, w.size_info, fresh-ge g h p i w v e new x)),
          )
          refl
  ]
]
edition-Extends g h true p w v e = elim (Option-cases (lookup p g.pubkey_to_id)) [
  | inr (i, old) ↦ rw (old, e.names p i old, e.mutes) refl
  | inl new ↦ elim (Option-cases (lookup p h.pubkey_to_id)) [
    | inl x ↦ rw (new, x) refl
    | inr (i, x) ↦ elim (Option-cases (lookup i g.mutes)) [
      | inl y ↦ rw (new, x, e.mutes, y) refl
      | inr (l, y) ↦ absurd (omega (arith, w.mute_authors i l y, fresh-ge g h p i w v e new x))
    ]
  ]
]

module _ (h : WotGraph) (p : Str) (a : ℕ) (targets : List ℕ) (i : Option Str) (t : Option ℤ)
    (w : WellFormed h) (name : lookup p h.pubkey_to_id ≡ some a) where
  edition-publish_follows :
      (r : Str)
      → edition false (publish_follows h a targets i t) r
        ≡ (if str_eq p r then (i, t) else edition false h r)
  unfolding edition publish_follows
  edition-publish_follows r = elim (Option-cases (lookup r h.pubkey_to_id)) [
    | inl x ↦ ground (arith, str_eq_iff p r)
    | inr (b, x) ↦ rw x (
        ground (
          arith,
          id_eq h w p r a b name x,
          get_or-set h.node_info a b (some (record { kind3_event_id = i; kind3_created_at = t }))
              none (omega (arith, w.size_info, lookup-lt h w p a name)),
        ))
  ]

  edition-publish_mutes :
      (r : Str)
      → edition true (publish_mutes h a targets i t) r
        ≡ (if str_eq p r then (i, t) else edition true h r)
  unfolding edition publish_mutes
  edition-publish_mutes r = elim (Option-cases (lookup r h.pubkey_to_id)) [
    | inl x ↦ ground (arith, str_eq_iff p r)
    | inr (b, x) ↦ rw x (
        ground (
          arith,
          id_eq h w p r a b name x,
          lookup-insert a b (record { ids = targets; event_id = i; created_at = t }) h.mutes,
        ))
  ]

-- The graph's tests are the database's on the versions.
accepts_over-edition :
    (g : WotGraph) (p : Str) (i : Option Str) (t : Option ℤ)
    → accepts_over (follow_version g p) i t
      ≡ event_wins t i (edition false g p).1 (edition false g p).0
unfolding edition event_wins
accepts_over-edition g p i t = elim (Option-cases (lookup p g.pubkey_to_id)) [
  | inl x ↦ rw (x, follow_version) (ground arith)
  | inr (a, x) ↦
      rw (x, follow_version)
        (elim (Option-cases (get_or g.node_info a none)) [
          | inl y ↦ rw y (ground arith)
          | inr (info, y) ↦
              rw y (sym (event_wins-accepts_event t i info.kind3_created_at info.kind3_event_id))
        ])
]

mutes_accept_over-edition :
    (g : WotGraph) (p : Str) (i : Option Str) (t : Option ℤ)
    → mutes_accept_over (mute_version g p) i t
      ≡ event_wins t i (edition true g p).1 (edition true g p).0
unfolding edition event_wins
mutes_accept_over-edition g p i t = elim (Option-cases (lookup p g.pubkey_to_id)) [
  | inl x ↦ rw (x, mute_version) (ground arith)
  | inr (a, x) ↦
      rw (x, mute_version)
        (elim (Option-cases (lookup a g.mutes)) [
          | inl y ↦ rw y (ground arith)
          | inr (l, y) ↦ rw y (sym (event_wins-accepts_event t i l.created_at l.event_id))
        ])
]

-- The graph after a list update of a kind: the list and the version in place if the event wins.
pub record Applied (wins k : Bool) (p : Str) (ps : List Str) (i : Option Str) (t : Option ℤ)
    (g g' : WotGraph) : Type 0 where
  pub valid : WellFormed g'
  pub grown : length g'.id_to_pubkey ≤ length g.id_to_pubkey + (length ps + 1)
  pub lists :
      (j : Bool) (r q : Str)
      → names j g' r q
        ≡ (if wins && (same_kind k j && str_eq p r) then contains q ps else names j g r q)
  pub versions :
      (j : Bool) (r : Str)
      → edition j g' r ≡ (if wins && (same_kind k j && str_eq p r) then (i, t) else edition j g r)

Applied-refl :
    (k : Bool) (p : Str) (ps : List Str) (i : Option Str) (t : Option ℤ) (g : WotGraph)
    → WellFormed g
    → Applied false k p ps i t g g
Applied-refl k p ps i t g w = record {
  valid = w;
  grown = omega arith;
  lists = λ j r q. refl;
  versions = λ j r. refl;
}

module _ (g : WotGraph) (p : Str) (ps : List Str) (i : Option Str) (t : Option ℤ) (w : WellFormed g)
    (room : HasRoom g (length ps + 1)) where
  module _ (h : WotGraph) (a : ℕ) (targets : List ℕ) (staged : Staged g p (length ps + 1) h a) where
    -- The kind that the update leaves alone has its lists and versions, and the other its versions.
    follow_versions :
        (j : Bool) (r : Str)
        → edition j (publish_follows h a targets i t) r
          ≡ (if not j && str_eq p r then (i, t) else edition j g r)
    unfolding edition publish_follows
    follow_versions false r =
        edition-publish_follows h p a targets i t staged.valid staged.name r
        ∙ ap (λ v. if str_eq p r then (i, t) else v)
            (edition-Extends g h false r w staged.valid staged.extends)
    follow_versions true r = edition-Extends g h true r w staged.valid staged.extends

    mute_versions :
        (j : Bool) (r : Str)
        → edition j (publish_mutes h a targets i t) r
          ≡ (if j && str_eq p r then (i, t) else edition j g r)
    unfolding edition publish_mutes
    mute_versions true r =
        edition-publish_mutes h p a targets i t staged.valid staged.name r
        ∙ ap (λ v. if str_eq p r then (i, t) else v)
            (edition-Extends g h true r w staged.valid staged.extends)
    mute_versions false r = edition-Extends g h false r w staged.valid staged.extends

    follows_keep_mutes : (r q : Str) → mutes (publish_follows h a targets i t) r q ≡ mutes g r q
    unfolding mutes publish_follows
    follows_keep_mutes r q = mutes-Extends g h r q w staged.valid staged.extends

    mutes_keep_follows : (r q : Str) → follows (publish_mutes h a targets i t) r q ≡ follows g r q
    unfolding follows publish_mutes
    mutes_keep_follows r q = follows-Extends g h r q w staged.valid staged.extends

  abbrev beats : Bool → Bool
  beats k = event_wins t i (edition k g p).1 (edition k g p).0

  pub update_follows-Applied : Applied (beats false) false p ps i t g (update_follows g p ps i t).0
  unfolding names
  update_follows-Applied =
      let (h, a, targets, staged, eq) = update_follows_stages g p ps i t w room in
      let valid = update_follows-WellFormed g p ps i t w room in
      let refines = (update_follows_refines g p ps i t w room).1 in
      rw (← accepts_over-edition g p i t)
        (elim (Bool-cases (accepts_over (follow_version g p) i t)) [
          | inr loses ↦ rw (loses, eq) (rw loses (Applied-refl false p ps i t g w))
          | inl wins ↦
              let done : update_follows g p ps i t ≡ (publish_follows h a targets i t, true) =
                rw (eq, wins) refl in
              rw wins (record {
                valid = valid;
                grown = rw done (unfold publish_follows in staged.grown);
                lists = λ j r q.
                    elim j
                      as (λ j.
                        names j (update_follows g p ps i t).0 r q
                        ≡ (if not j && str_eq p r then contains q ps else names j g r q)) [
                          | false ↦ rw (refines r q, wins) refl
                          | true ↦ rw done (follows_keep_mutes h a targets staged r q)
                        ];
                versions = λ j r. rw done (follow_versions h a targets staged j r);
              })
        ])

  pub update_mutes-Applied : Applied (beats true) true p ps i t g (update_mutes g p ps i t).0
  unfolding names
  update_mutes-Applied =
      let (h, a, targets, staged, eq) = update_mutes_stages g p ps i t w room in
      let valid = update_mutes-WellFormed g p ps i t w room in
      let refines = (update_mutes_refines g p ps i t w room).1 in
      rw (← mutes_accept_over-edition g p i t)
        (elim (Bool-cases (mutes_accept_over (mute_version g p) i t)) [
          | inr loses ↦ rw (loses, eq) (rw loses (Applied-refl true p ps i t g w))
          | inl wins ↦
              let done : update_mutes g p ps i t ≡ (publish_mutes h a targets i t, true) =
                rw (eq, wins) refl in
              rw wins (record {
                valid = valid;
                grown = rw done (unfold publish_mutes in staged.grown);
                lists = λ j r q.
                    elim j
                      as (λ j.
                        names j (update_mutes g p ps i t).0 r q
                        ≡ (if j && str_eq p r then contains q ps else names j g r q)) [
                          | true ↦ rw (refines r q, wins) refl
                          | false ↦ rw done (mutes_keep_follows h a targets staged r q)
                        ];
                versions = λ j r. rw done (mute_versions h a targets staged j r);
              })
        ])
