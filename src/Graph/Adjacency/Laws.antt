-- ===== src/Graph/Adjacency/Laws.antt =====
-- What the row operations do to membership and order.
use nostr_wot_oracle.Prelude.{
  ℕ, ◌<◌, ◌≡◌, List, [], ◌∷◌, true, false, if◌then◌else◌, ltb, ◌==◌, arith,
}
use nostr_wot_oracle.Prelude.Sorted.{member, Above, Sorted, Above-member, member-Above, Above-trans}
use nostr_wot_oracle.Graph.Adjacency.{remove_id, add_id}

-- One step of each row operation, with the slot gone.
add_id-cons :
    (v x : ℕ) (xs : List ℕ)
    → add_id v (x ∷ xs)
      ≡ (if x == v then x ∷ xs else if ltb x v then x ∷ add_id v xs else v ∷ x ∷ xs)
unfolding add_id
add_id-cons v x xs = ground arith

remove_id-cons :
    (v x : ℕ) (xs : List ℕ)
    → remove_id v (x ∷ xs) ≡ (if x == v then xs else if ltb x v then x ∷ remove_id v xs else x ∷ xs)
unfolding remove_id
remove_id-cons v x xs = ground arith

pub member-add_id :
    (v w : ℕ) (xs : List ℕ) → member w (add_id v xs) ≡ (if v == w then true else member w xs)
unfolding add_id
member-add_id v w [] = ground arith
member-add_id v w (x ∷ xs) = rw add_id-cons (ground (arith, member-add_id v w xs))

pub add_id-Above : (a v : ℕ) (xs : List ℕ) → a < v → Above a xs → Above a (add_id v xs)
unfolding add_id
add_id-Above a v [] h k = ground arith
add_id-Above a v (x ∷ xs) h k = rw add_id-cons (ground (arith, add_id-Above a v xs))

pub add_id-Sorted : (v : ℕ) (xs : List ℕ) → Sorted xs → Sorted (add_id v xs)
unfolding add_id
add_id-Sorted v [] h = ground arith
add_id-Sorted v (x ∷ xs) h =
    rw add_id-cons (ground (arith, add_id-Sorted v xs, add_id-Above x v xs, Above-trans v x xs))

pub member-remove_id :
    (v w : ℕ) (xs : List ℕ)
    → Sorted xs
    → member w (remove_id v xs) ≡ (if v == w then false else member w xs)
unfolding remove_id
member-remove_id v w [] h = ground arith
member-remove_id v w (x ∷ xs) h =
    rw remove_id-cons
      (ground (arith, member-remove_id v w xs, member-Above x xs h.0, Above-member x v xs h.0))

pub remove_id-Above : (a v : ℕ) (xs : List ℕ) → Above a xs → Above a (remove_id v xs)
unfolding remove_id
remove_id-Above a v [] h = ground arith
remove_id-Above a v (x ∷ xs) h = rw remove_id-cons (ground (arith, remove_id-Above a v xs))

pub remove_id-Sorted : (v : ℕ) (xs : List ℕ) → Sorted xs → Sorted (remove_id v xs)
unfolding remove_id
remove_id-Sorted v [] h = ground arith
remove_id-Sorted v (x ∷ xs) h =
    rw remove_id-cons (ground (arith, remove_id-Sorted v xs, remove_id-Above x v xs))
