-- ===== src/Graph/Events.antt =====
-- The order of replaceable events: `accepts_event` of src/graph/store.rs.
use nostr_wot_oracle.Prelude.{◌≡◌, Bool, true, false, ◌&&◌, ◌||◌, Option, none, some, arith}
use nostr_wot_oracle.Prelude.Int.{
  ℤ, ltbℤ, eqbℤ, eqbℤ_iff, ltbℤ_irrefl, ltbℤ_asymm, ltbℤ_trans, ltbℤ_total,
}
use nostr_wot_oracle.Prelude.Str.{Str, str_lt, str_lt_asymm, str_lt_trans, str_lt_total}

-- `new_id.is_some_and(|new| old_id.is_none_or(|old| new < old))`
abbrev pub id_wins : Option Str → Option Str → Bool
id_wins old none = false
id_wins none (some new) = true
id_wins (some old) (some new) = str_lt new old

unfoldable pub accepts_event : Option ℤ → Option Str → Option ℤ → Option Str → Bool
accepts_event none old_id new_ts new_id = true
accepts_event (some old) old_id none new_id = false
accepts_event (some old) old_id (some new) new_id =
    ltbℤ old new || (eqbℤ new old && id_wins old_id new_id)

-- Of two events with times, if the second replaces the first, then the first does not replace
-- the second.
pub accepts_event_asymm :
    (t u : ℤ) (i j : Option Str)
    → accepts_event (some t) i (some u) j ≡ true
    → accepts_event (some u) j (some t) i ≡ false
unfolding accepts_event
accepts_event_asymm t u none none h = ground (arith, ltbℤ_asymm t u, eqbℤ_iff t u, eqbℤ_iff u t)
accepts_event_asymm t u none (some j) h =
    ground (arith, ltbℤ_asymm t u, eqbℤ_iff t u, eqbℤ_iff u t, ltbℤ_irrefl t)
accepts_event_asymm t u (some i) none h = ground (arith, ltbℤ_asymm t u, eqbℤ_iff t u, eqbℤ_iff u t)
accepts_event_asymm t u (some i) (some j) h =
    ground (arith, ltbℤ_asymm t u, eqbℤ_iff t u, eqbℤ_iff u t, ltbℤ_irrefl t, str_lt_asymm j i)

-- If an event with a time is replaced by a second one with a time, and that by a third, then the
-- third replaces the first.
pub accepts_event_trans :
    (t u v : ℤ) (i j k : Option Str)
    → accepts_event (some t) i (some u) j ≡ true
    → accepts_event (some u) j (some v) k ≡ true
    → accepts_event (some t) i (some v) k ≡ true
unfolding accepts_event
accepts_event_trans t u v i none none h g =
    ground (arith, ltbℤ_trans t u v, eqbℤ_iff u t, eqbℤ_iff v u, eqbℤ_iff v t)
accepts_event_trans t u v i (some j) none h g =
    ground (arith, ltbℤ_trans t u v, eqbℤ_iff u t, eqbℤ_iff v u, eqbℤ_iff v t)
accepts_event_trans t u v none none (some k) h g =
    ground (arith, ltbℤ_trans t u v, eqbℤ_iff u t, eqbℤ_iff v u, eqbℤ_iff v t)
accepts_event_trans t u v (some i) none (some k) h g =
    ground (arith, ltbℤ_trans t u v, eqbℤ_iff u t, eqbℤ_iff v u, eqbℤ_iff v t)
accepts_event_trans t u v none (some j) (some k) h g =
    ground (arith, ltbℤ_trans t u v, eqbℤ_iff u t, eqbℤ_iff v u, eqbℤ_iff v t)
accepts_event_trans t u v (some i) (some j) (some k) h g =
    ground (arith, ltbℤ_trans t u v, eqbℤ_iff u t, eqbℤ_iff v u, eqbℤ_iff v t, str_lt_trans k j i)

-- Two events with times and ids, neither of which replaces the other, have the same time and the
-- same id.
pub accepts_event_total :
    (t u : ℤ) (i j : Str)
    → accepts_event (some t) (some i) (some u) (some j) ≡ false
    → accepts_event (some u) (some j) (some t) (some i) ≡ false
    → (t ≡ u) × (i ≡ j)
unfolding accepts_event
accepts_event_total t u i j h g =
    ground (arith, ltbℤ_total t u, eqbℤ_iff t u, eqbℤ_iff u t, str_lt_total i j)
