-- ===== src/Tests/Rows.antt =====
-- The merge loops, the rows and the order of events.
use nostr_wot_oracle.Db.{event_wins, event_wins-accepts_event}
use nostr_wot_oracle.Prelude.{
  ◌≡◌, ◌&&◌, not, ℕ, List, [], ◌∷◌, true, false, none, some, refl, arith, if◌then◌else◌, ◌==◌,
  nat_eq,
}
use nostr_wot_oracle.Prelude.Int.{pos, negsuc, ltbℤ, eqbℤ}
use nostr_wot_oracle.Prelude.Str.{str_lt}
use nostr_wot_oracle.Prelude.Sorted.{member, Sorted}
use nostr_wot_oracle.Graph.Adjacency.{row, diff, intersect, remove_from_all, add_to_all}
use nostr_wot_oracle.Graph.Adjacency.Merge.{diff_lem, intersect_lem}
use nostr_wot_oracle.Graph.Adjacency.Rows.{remove_from_all_lem, add_to_all_lem}
use nostr_wot_oracle.Graph.Events.{
  accepts_event, accepts_event_asymm, accepts_event_trans, accepts_event_total,
}
use nostr_wot_oracle.Tests.Samples.{ann, bob}

abbrev odd : List ℕ
odd = 1 ∷ 3 ∷ 5 ∷ []

abbrev low : List ℕ
low = 1 ∷ 2 ∷ 3 ∷ []

odd-Sorted : Sorted (1 ∷ 3 ∷ 5 ∷ [])
odd-Sorted = ground arith

low-Sorted : Sorted (1 ∷ 2 ∷ 3 ∷ [])
low-Sorted = ground arith

diff_lem_example :
    ((v : ℕ) → member v (diff odd low).to_remove ≡ member v odd && not (member v low))
    × ((v : ℕ) → member v (diff odd low).to_add ≡ member v low && not (member v odd))
    × Sorted (diff odd low).to_remove
    × Sorted (diff odd low).to_add
diff_lem_example = diff_lem odd low odd-Sorted low-Sorted

intersect_lem_example :
    Sorted (intersect odd low)
    × ((v : ℕ) → member v (intersect odd low) ≡ member v odd && member v low)
intersect_lem_example = intersect_lem odd low odd-Sorted low-Sorted

abbrev rows : List (List ℕ)
rows = low ∷ odd ∷ [] ∷ []

remove_from_all_lem_example :
    Sorted (row (remove_from_all 3 (0 ∷ 2 ∷ []) rows) 0)
    × (member 3 (row (remove_from_all 3 (0 ∷ 2 ∷ []) rows) 0)
        ≡ (if member 0 (0 ∷ 2 ∷ []) && (3 == 3) then false else member 3 (row rows 0)))
remove_from_all_lem_example =
    remove_from_all_lem 3 (0 ∷ 2 ∷ []) rows 0 3 (ground arith) (ground arith) low-Sorted

add_to_all_lem_example :
    Sorted (row (add_to_all 4 (0 ∷ 2 ∷ []) rows) 0)
    × (member 4 (row (add_to_all 4 (0 ∷ 2 ∷ []) rows) 0)
        ≡ (if member 0 (0 ∷ 2 ∷ []) && (4 == 4) then true else member 4 (row rows 0)))
add_to_all_lem_example =
    add_to_all_lem 4 (0 ∷ 2 ∷ []) rows 0 4 (ground arith) (ground arith) low-Sorted

accepts_event_asymm_example :
    accepts_event (some (pos 7)) (some ann) (some (pos 7)) (some bob) ≡ false
unfolding accepts_event ltbℤ eqbℤ str_lt
accepts_event_asymm_example = accepts_event_asymm (pos 7) (pos 7) (some bob) (some ann) refl

accepts_event_trans_example : accepts_event (some (negsuc 2)) none (some (pos 7)) (some ann) ≡ true
unfolding accepts_event ltbℤ eqbℤ str_lt
accepts_event_trans_example =
    accepts_event_trans (negsuc 2) (pos 7) (pos 7) none (some bob) (some ann) refl refl

accepts_event_total_example : (pos 7 ≡ pos 7) × (ann ≡ ann)
unfolding accepts_event ltbℤ eqbℤ str_lt
accepts_event_total_example = accepts_event_total (pos 7) (pos 7) ann ann refl refl

event_wins-accepts_event_example :
    event_wins (some (pos 7)) (some ann) (some (pos 7)) (some bob)
    ≡ accepts_event (some (pos 7)) (some bob) (some (pos 7)) (some ann)
event_wins-accepts_event_example =
    event_wins-accepts_event (some (pos 7)) (some ann) (some (pos 7)) (some bob)
