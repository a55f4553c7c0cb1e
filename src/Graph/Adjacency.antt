-- ===== src/Graph/Adjacency.antt =====
-- The list work of src/graph/store.rs on ascending adjacency rows: one follower added or removed,
-- the merge that finds what a new row removes and adds, and the merge that intersects two rows.
pub mod Laws
pub mod Rows
pub mod Merge
use nostr_wot_oracle.Prelude.{
  ℕ, zero, suc, ◌+◌, List, [], ◌∷◌, ◌++◌, Bool, true, false, if◌then◌else◌, ltb, ◌==◌, get_or, set,
  length,
}
use nostr_wot_oracle.Prelude.Sorted.{Slot, found, missing, binary_search, insert_at, remove_at}

-- A row of an adjacency list; there is none out of range.
abbrev pub row : List (List ℕ) → ℕ → List ℕ
row rows i = get_or rows i []

-- `if let Ok(pos) = list.binary_search(&v) { list.remove(pos); }`
unfoldable pub remove_id : ℕ → List ℕ → List ℕ
unfolding binary_search
remove_id v list = elim (binary_search list v) [
  | found pos ↦ remove_at pos list
  | missing pos ↦ list
]

-- `match list.binary_search(&v) { Ok(_) => {}, Err(pos) => list.insert(pos, v) }`
unfoldable pub add_id : ℕ → List ℕ → List ℕ
unfolding binary_search
add_id v list = elim (binary_search list v) [
  | found pos ↦ list
  | missing pos ↦ insert_at pos v list
]

-- The loops over `to_remove` and `to_add`: `source` leaves, or joins, the row of each target.
unfoldable pub remove_from_all : ℕ → List ℕ → List (List ℕ) → List (List ℕ)
unfolding remove_id
remove_from_all source [] rows = rows
remove_from_all source (target ∷ targets) rows =
    remove_from_all source targets (set rows target (remove_id source (row rows target)))

unfoldable pub add_to_all : ℕ → List ℕ → List (List ℕ) → List (List ℕ)
unfolding add_id
add_to_all source [] rows = rows
add_to_all source (target ∷ targets) rows =
    add_to_all source targets (set rows target (add_id source (row rows target)))

pub record Diff : Type 0 where
  pub to_remove : List ℕ
  pub to_add : List ℕ

abbrev pub removing : ℕ → Diff → Diff
removing v d = record d { to_remove = v ∷ d.to_remove }

abbrev pub adding : ℕ → Diff → Diff
adding v d = record d { to_add = v ∷ d.to_add }

-- The merge loop over the old and the new row; a round drops the head of one or of both, so their
-- lengths bound the rounds.
unfoldable pub diff_loop : ℕ → List ℕ → List ℕ → Diff
diff_loop fuel [] new = record { to_remove = []; to_add = new }
diff_loop fuel (o ∷ old) [] = record { to_remove = o ∷ old; to_add = [] }
diff_loop zero (o ∷ old) (n ∷ new) = record { to_remove = []; to_add = [] }
diff_loop (suc fuel) (o ∷ old) (n ∷ new) =
    let less = removing o (diff_loop fuel old (n ∷ new)) in
    let greater = adding n (diff_loop fuel (o ∷ old) new) in
    let equal = diff_loop fuel old new in
    if ltb o n then less else if ltb n o then greater else equal

unfoldable pub diff : List ℕ → List ℕ → Diff
unfolding diff_loop
diff old new = diff_loop (length old + length new) old new

-- The merge loop of `common_follows`.
unfoldable pub intersect_loop : ℕ → List ℕ → List ℕ → List ℕ
intersect_loop fuel [] b = []
intersect_loop fuel (x ∷ a) [] = []
intersect_loop zero (x ∷ a) (y ∷ b) = []
intersect_loop (suc fuel) (x ∷ a) (y ∷ b) =
    let less = intersect_loop fuel a (y ∷ b) in
    let greater = intersect_loop fuel (x ∷ a) b in
    let equal = x ∷ intersect_loop fuel a b in
    if ltb x y then less else if ltb y x then greater else equal

unfoldable pub intersect : List ℕ → List ℕ → List ℕ
unfolding intersect_loop
intersect a b = intersect_loop (length a + length b) a b
