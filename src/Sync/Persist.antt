-- ===== src/Sync/Persist.antt =====
-- `persist_and_apply` of src/sync/ingestion.rs: one winner for each author and kind is persisted,
-- and only then published to the graph.
use nostr_wot_oracle.Prelude.{
  nat_eq, ℕ, suc, ◌+◌, ◌≡◌, ◌↔◌, List, [], ◌∷◌, Bool, true, ◌&&◌, ◌||◌, Option, none, some, arith,
  if◌then◌else◌, ◌==◌, keep, filter_map, map, get_elem?, Eq,
}
use nostr_wot_oracle.Prelude.Int.{ℤ, ltbℤ, eqbℤ}
use nostr_wot_oracle.Prelude.Str.{Str, str_eq, str_eq_iff, str_lt}
use nostr_wot_oracle.Prelude.Dict.{Dict, lookup, insert}
use nostr_wot_oracle.Prelude.Sorted.{sort}
use nostr_wot_oracle.Graph.Store.Types.{WotGraph}
use nostr_wot_oracle.Graph.Store.Update.{update_follows, update_mutes}
use nostr_wot_oracle.Sync.Events.{ListUpdate, mute_kind}

-- The key `(kind, pubkey)` of the map of winners.
abbrev pub key_eq : ℕ × Str → ℕ × Str → Bool
key_eq a b = (a.0 == b.0) && str_eq a.1 b.1

pub key_eq_iff : (a b : ℕ × Str) → (key_eq a b ≡ true) ↔ (a ≡ b)
key_eq_iff a b = ground (arith, str_eq_iff a.1 b.1)

instance abbrev pub update_key : Eq (ℕ × Str)
update_key = record { beq = key_eq; beq_iff = key_eq_iff }

-- The test of the loop: newer, or as new with a lower id.
unfoldable pub supersedes : ListUpdate → ListUpdate → Bool
supersedes update previous =
    ltbℤ previous.created_at update.created_at
    || (eqbℤ update.created_at previous.created_at && str_lt update.event_id previous.event_id)

-- The slot of the update's key after the update at `index` is seen.
abbrev pub next_winner : List ListUpdate → ℕ → ListUpdate → Option ℕ → ℕ
next_winner updates index update none = index
next_winner updates index update (some slot) = elim (get_elem? updates slot) [
  | none ↦ slot
  | some previous ↦ if supersedes update previous then index else slot
]

-- `for (index, update) in updates.iter().enumerate()`
unfoldable pub winners_loop :
    List ListUpdate → ℕ → List ListUpdate → Dict (ℕ × Str) ℕ → Dict (ℕ × Str) ℕ
unfolding supersedes
winners_loop updates index [] winners = winners
winners_loop updates index (update ∷ rest) winners = winners_loop updates (suc index) rest (
    insert (update.kind, update.pubkey)
      (next_winner updates index update (lookup (update.kind, update.pubkey) winners)) winners)

abbrev pub values : Dict (ℕ × Str) ℕ → List ℕ
values = map (λ (e : (ℕ × Str) × ℕ). e.1)

unfoldable pub select : List ListUpdate → List ListUpdate
unfolding winners_loop
select updates = filter_map (get_elem? updates) (sort (values (winners_loop updates 0 updates [])))

pub record FollowUpdateBatch : Type 0 where
  pub pubkey : Str
  pub follows : List Str
  pub event_id : Option Str
  pub created_at : Option ℤ

abbrev pub to_item : ListUpdate → FollowUpdateBatch
to_item u = record {
  pubkey = u.pubkey;
  follows = u.follows;
  event_id = some u.event_id;
  created_at = some u.created_at;
}

-- the closure `items`
abbrev pub items : ℕ → List ListUpdate → List FollowUpdateBatch
items kind selected = map to_item (keep (λ u. u.kind == kind) selected)

-- The database as ingestion uses it: each batch is one transaction that either commits and counts
-- the accepted authors, or fails and leaves what was committed before. What else the state holds is
-- what the coming transactions meet.
pub record Database : Type 1 where
  pub State : Type 0
  pub Committed : Type 0
  pub committed : State → Committed
  pub update_follows_batch : State → List FollowUpdateBatch → State × Option ℕ
  pub update_mutes_batch : State → List FollowUpdateBatch → State × Option ℕ
  pub follows_failed :
      (s : State) (b : List FollowUpdateBatch)
      → (update_follows_batch s b).1 ≡ none
      → committed (update_follows_batch s b).0 ≡ committed s
  pub mutes_failed :
      (s : State) (b : List FollowUpdateBatch)
      → (update_mutes_batch s b).1 ≡ none
      → committed (update_mutes_batch s b).0 ≡ committed s

abbrev pub apply_update : WotGraph → ListUpdate → WotGraph
apply_update g u =
    if u.kind == mute_kind
    then (update_mutes g u.pubkey u.follows (some u.event_id) (some u.created_at)).0
    else (update_follows g u.pubkey u.follows (some u.event_id) (some u.created_at)).0

-- `for update in selected`
unfoldable pub apply_all : WotGraph → List ListUpdate → WotGraph
apply_all g [] = g
apply_all g (u ∷ us) = apply_all (apply_update g u) us

module _ (database : Database) where
  open database use {State, update_follows_batch, update_mutes_batch}

  -- The database, the graph, and the count or the error.
  unfoldable pub persist_and_apply :
      State → WotGraph → List ListUpdate → State × WotGraph × Option ℕ
  unfolding select apply_all
  persist_and_apply db g updates =
      let selected = select updates in
      let (db', follows_count) = update_follows_batch db (items 3 selected) in
      elim follows_count [
        | none ↦ (db', g, none)
        | some n ↦
            let (db'', mutes_count) = update_mutes_batch db' (items mute_kind selected) in
            elim mutes_count [
              | none ↦ (db'', g, none)
              | some m ↦ (db'', apply_all g selected, some (n + m))
            ]
      ]
