-- ===== src/Sync/Agree/Published.antt =====
-- `for update in selected` of `persist_and_apply`, src/sync/ingestion.rs: the graph after the updates.
use nostr_wot_oracle.Db.Laws.Author.{same_kind, stamp, wins_over}
use nostr_wot_oracle.Prelude.{
  zero, suc, get_elem?, filter_map, ℕ, ◌+◌, ◌≡◌, ◌==◌, Bool, true, false, Option, none, some, arith,
  List, [], ◌∷◌, length, inl, inr, Bool-cases, refl,
}
use nostr_wot_oracle.Prelude.Int.{ℤ}
use nostr_wot_oracle.Prelude.Str.{Str, str_eq_iff, contains}
use nostr_wot_oracle.Graph.Store.Types.{WotGraph}
use nostr_wot_oracle.Graph.Store.Invariant.{WellFormed, HasRoom}
use nostr_wot_oracle.Sync.Events.{ListUpdate, mute_kind, is_list_kind}
use nostr_wot_oracle.Sync.Persist.{select, FollowUpdateBatch, to_item, apply_update, apply_all}
use nostr_wot_oracle.Db.Laws.Fold.{targets_or, stamp_or}
use nostr_wot_oracle.Sync.Agree.{names, edition}
use nostr_wot_oracle.Sync.Agree.Order.{kind_of, carried}
use nostr_wot_oracle.Sync.Agree.Applied.{Applied, update_follows-Applied, update_mutes-Applied}

-- Every update is a follow list or a mute list, as `process_event` makes them.
abbrev pub AllLists : List ListUpdate → Type 0
AllLists [] = Unit
AllLists (u ∷ us) = (is_list_kind u.kind ≡ true) × AllLists us

AllLists-get :
    (us : List ListUpdate) (i : ℕ) (u : ListUpdate)
    → AllLists us
    → get_elem? us i ≡ some u
    → is_list_kind u.kind ≡ true
AllLists-get [] i u all h = absurd (ground arith)
AllLists-get (v ∷ us) zero u all h = ground (arith, all.0)
AllLists-get (v ∷ us) (suc i) u all h = AllLists-get us i u all.1 h

pick-AllLists :
    (us : List ListUpdate) (slots : List ℕ)
    → AllLists us
    → AllLists (filter_map (get_elem? us) slots)
pick-AllLists us [] all = tt
pick-AllLists us (i ∷ slots) all =
    let rest = filter_map (get_elem? us) slots in
    elim (get_elem? us i)
        as (λ o. get_elem? us i ≡ o → AllLists (elim o [ none ↦ rest | some u ↦ u ∷ rest ])) [
          | none ↦ λ e. pick-AllLists us slots all
          | some u ↦ λ e. (AllLists-get us i u all e, pick-AllLists us slots all)
        ]
      refl

-- The winners of a batch of lists are lists.
pub select-AllLists : (us : List ListUpdate) → AllLists us → AllLists (select us)
unfolding select
select-AllLists us all = pick-AllLists us _ all

-- The nodes that updates can create.
abbrev pub nodes_of : List ListUpdate → ℕ
nodes_of [] = 0
nodes_of (u ∷ us) = (length u.follows + 1) + nodes_of us

targets_or-held :
    (k : Bool) (p : Str) (us : List ListUpdate) (v : Option Str × Option ℤ) (x : FollowUpdateBatch)
    (q : Str) (old : Bool)
    → targets_or (carried k p us v (some x)) q old
      ≡ targets_or (carried k p us v none) q (contains q x.follows)
targets_or-held k p [] v x q old = refl
targets_or-held k p (u ∷ us) v x q old = ground (
  arith,
  targets_or-held k p us v x q old,
  targets_or-held k p us (stamp (to_item u)) (to_item u) q old,
  targets_or-held k p us (stamp (to_item u)) (to_item u) q (contains q x.follows),
)

stamp_or-held :
    (k : Bool) (p : Str) (us : List ListUpdate) (v : Option Str × Option ℤ) (x : FollowUpdateBatch)
    (old : Option Str × Option ℤ)
    → stamp_or (carried k p us v (some x)) old ≡ stamp_or (carried k p us v none) (stamp x)
stamp_or-held k p [] v x old = refl
stamp_or-held k p (u ∷ us) v x old = ground (
  arith,
  stamp_or-held k p us v x old,
  stamp_or-held k p us (stamp (to_item u)) (to_item u) old,
  stamp_or-held k p us (stamp (to_item u)) (to_item u) (stamp x),
)

-- The graph after updates: its lists are the old ones with what the updates carry.
pub record Published (us : List ListUpdate) (g g' : WotGraph) : Type 0 where
  pub valid : WellFormed g'
  pub lists :
      (k : Bool) (p q : Str)
      → names k g' p q ≡ targets_or (carried k p us (edition k g p) none) q (names k g p q)
  pub versions :
      (k : Bool) (p : Str)
      → edition k g' p ≡ stamp_or (carried k p us (edition k g p) none) (edition k g p)

kind_of_eq : (k j : Bool) → (kind_of k == kind_of j) ≡ same_kind k j
kind_of_eq false false = refl
kind_of_eq false true = refl
kind_of_eq true false = refl
kind_of_eq true true = refl

-- One update of either kind.
apply_update_lem :
    (u : ListUpdate) (g : WotGraph)
    → WellFormed g
    → HasRoom g (length u.follows + 1)
    → is_list_kind u.kind ≡ true
    → (k : Bool) × (u.kind ≡ kind_of k)
      × Applied
          (wins_over (to_item u) (edition k g u.pubkey))
          k
          u.pubkey
          u.follows
          (some u.event_id)
          (some u.created_at)
          g
          (apply_update g u)
apply_update_lem u g w room list = elim (Bool-cases (u.kind == mute_kind)) [
  | inl mute ↦ (
    true,
    ground arith,
    rw mute
        (update_mutes-Applied g u.pubkey u.follows (some u.event_id) (some u.created_at) w room),
  )
  | inr follow ↦ (
    false,
    ground arith,
    rw follow
        (update_follows-Applied g u.pubkey u.follows (some u.event_id) (some u.created_at) w room),
  )
]

-- An update, and then the others.
module _ (u : ListUpdate) (us : List ListUpdate) (g g1 g2 : WotGraph) (k : Bool)
    (kind : u.kind ≡ kind_of k)
    (applied : Applied
      (wins_over (to_item u) (edition k g u.pubkey))
      k
      u.pubkey
      u.follows
      (some u.event_id)
      (some u.created_at)
      g
      g1)
    (rest : Published us g1 g2) where
  lists_then :
      (j : Bool) (p q : Str)
      → names j g2 p q ≡ targets_or (carried j p (u ∷ us) (edition j g p) none) q (names j g p q)
  lists_then j p q = ground (
    arith,
    rest.lists j p q,
    applied.lists j p q,
    applied.versions j p,
    str_eq_iff u.pubkey p,
    kind_of_eq k j,
    targets_or-held j p us (stamp (to_item u)) (to_item u) q (names j g p q),
  )

  versions_then :
      (j : Bool) (p : Str)
      → edition j g2 p ≡ stamp_or (carried j p (u ∷ us) (edition j g p) none) (edition j g p)
  versions_then j p = ground (
    arith,
    rest.versions j p,
    applied.versions j p,
    str_eq_iff u.pubkey p,
    kind_of_eq k j,
    stamp_or-held j p us (stamp (to_item u)) (to_item u) (edition j g p),
  )

  cons-Published : Published (u ∷ us) g g2
  cons-Published = record { valid = rest.valid; lists = lists_then; versions = versions_then }

pub apply_all-Published :
    (us : List ListUpdate) (g : WotGraph)
    → WellFormed g
    → HasRoom g (nodes_of us)
    → AllLists us
    → Published us g (apply_all g us)
unfolding apply_all
apply_all-Published [] g w room all = record {
  valid = w;
  lists = λ k p q. refl;
  versions = λ k p. refl;
}
apply_all-Published (u ∷ us) g w room all =
    let g1 = apply_update g u in
    let (k, kind, applied) = apply_update_lem u g w (omega arith) all.0 in
    cons-Published u us g g1 (apply_all g1 us) k kind applied
      (apply_all-Published us g1 applied.valid (omega (arith, applied.grown)) all.1)
