-- ===== src/Sync/Agree/Order.antt =====
-- One batch against the same updates in turn, under `event_wins` of src/db/sqlite.rs.
use nostr_wot_oracle.Prelude.{
  [], ◌∷◌, if◌then◌else◌, ◌&&◌, List, ℕ, Bool, ◌≡◌, true, false, Option, none, some, arith, ◌==◌,
  refl,
}
use nostr_wot_oracle.Prelude.Str.{str_eq, str_lt_total, Str, str_lt_trans}
use nostr_wot_oracle.Prelude.Int.{ltbℤ_asymm, ltbℤ_total, ltbℤ_irrefl, ℤ, ltbℤ_trans, eqbℤ_iff}
use nostr_wot_oracle.Sync.Events.{ListUpdate, mute_kind}
use nostr_wot_oracle.Sync.Persist.{FollowUpdateBatch, to_item, items}
use nostr_wot_oracle.Db.{event_wins}
use nostr_wot_oracle.Db.Laws.Author.{stamp, wins_over}
use nostr_wot_oracle.Db.Laws.Fold.{winning, stamp_or}
use nostr_wot_oracle.Db.Laws.Commit.{latest}

wins_trans :
    (c d : ℤ) (i j : Str) (e : Option ℤ) (k : Option Str)
    → event_wins (some c) (some i) (some d) (some j) ≡ true
    → event_wins (some d) (some j) e k ≡ true
    → event_wins (some c) (some i) e k ≡ true
unfolding event_wins
wins_trans c d i j none k h g = ground arith
wins_trans c d i j (some e) none h g = ground (
  arith,
  ltbℤ_trans e d c,
  ltbℤ_irrefl c,
  ltbℤ_irrefl d,
  eqbℤ_iff c d,
  eqbℤ_iff d e,
  eqbℤ_iff c e,
  ltbℤ_asymm c d,
)
wins_trans c d i j (some e) (some k) h g = ground (
  arith,
  ltbℤ_trans e d c,
  ltbℤ_irrefl c,
  ltbℤ_irrefl d,
  eqbℤ_iff c d,
  eqbℤ_iff d e,
  eqbℤ_iff c e,
  ltbℤ_asymm c d,
  str_lt_trans i j k,
)

loses_trans :
    (c d : ℤ) (i j : Str) (e : Option ℤ) (k : Option Str)
    → event_wins (some c) (some i) (some d) (some j) ≡ false
    → event_wins (some d) (some j) e k ≡ false
    → event_wins (some c) (some i) e k ≡ false
unfolding event_wins
loses_trans c d i j none none h g = ground arith
loses_trans c d i j none (some k) h g = ground arith
loses_trans c d i j (some e) none h g = ground (
  arith,
  ltbℤ_trans d e c,
  ltbℤ_total d e,
  ltbℤ_total c d,
  ltbℤ_irrefl c,
  eqbℤ_iff c d,
  eqbℤ_iff d e,
  eqbℤ_iff c e,
)
loses_trans c d i j (some e) (some k) h g = ground (
  arith,
  ltbℤ_trans d e c,
  ltbℤ_total d e,
  ltbℤ_total c d,
  ltbℤ_irrefl c,
  ltbℤ_irrefl e,
  eqbℤ_iff c d,
  eqbℤ_iff d e,
  eqbℤ_iff c e,
  str_lt_trans i k j,
  str_lt_total j k,
)

-- A list kind: 3 for follow lists and 10000 for mute lists.
abbrev pub kind_of : Bool → ℕ
kind_of false = 3
kind_of true = mute_kind

-- The update that holds a list of a kind of `p` after the updates have come in turn.
abbrev pub carried :
    Bool
    → Str
    → List ListUpdate
    → Option Str × Option ℤ
    → Option FollowUpdateBatch
    → Option FollowUpdateBatch
carried k p [] v held = held
carried k p (u ∷ us) v held =
    if (u.kind == kind_of k) && (str_eq u.pubkey p && wins_over (to_item u) v)
    then carried k p us (stamp (to_item u)) (some (to_item u))
    else carried k p us v held

-- An update of a batch has a time and an id.
abbrev Timed : Option FollowUpdateBatch → Type 0
Timed none = Unit
Timed (some w) = (i : Str) × (c : ℤ) × (w.event_id ≡ some i) × (w.created_at ≡ some c)

-- The order against a stored version, through the held update.
order :
    (u : ListUpdate) (w : FollowUpdateBatch) (v : Option Str × Option ℤ)
    → Timed (some w)
    → (wins_over (to_item u) (stamp w) ≡ true
        → wins_over w v ≡ true
        → wins_over (to_item u) v ≡ true)
      × (wins_over (to_item u) (stamp w) ≡ false
          → wins_over w v ≡ false
          → wins_over (to_item u) v ≡ false)
order u w v (i, c, ei, ec) =
    rw (ei, ec)
      (
        wins_trans u.created_at c u.event_id i v.1 v.0,
        loses_trans u.created_at c u.event_id i v.1 v.0,
      )

-- Taking the updates in turn is taking the latest of them, if that wins.
pub carried-latest :
    (k : Bool) (p : Str) (us : List ListUpdate) (v : Option Str × Option ℤ)
    (o : Option FollowUpdateBatch)
    → Timed o
    → carried k p us (stamp_or (winning o v) v) (winning o v)
      ≡ winning (latest p (items (kind_of k) us) o) v
carried-latest k p [] v o timed = refl
carried-latest k p (u ∷ us) v none timed = ground (
  arith,
  carried-latest k p us v none tt,
  carried-latest k p us v (some (to_item u)) (u.event_id, u.created_at, refl, refl),
)
carried-latest k p (u ∷ us) v (some w) timed = ground (
  arith,
  carried-latest k p us v (some w) timed,
  order u w v timed,
  carried-latest k p us v (some (to_item u)) (u.event_id, u.created_at, refl, refl),
)
