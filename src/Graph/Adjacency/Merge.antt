-- ===== src/Graph/Adjacency/Merge.antt =====
-- The merge loops: the difference and the intersection of two ascending rows.
use nostr_wot_oracle.Prelude.{
  ℕ, zero, suc, ◌+◌, ◌≤◌, ◌≡◌, List, [], ◌∷◌, false, not, ◌&&◌, length, arith, inl, inr, Bool-cases,
}
use nostr_wot_oracle.Prelude.Sorted.{member, Above, Sorted, Above-member}
use nostr_wot_oracle.Graph.Adjacency.{diff_loop, diff, intersect_loop, intersect}

-- A list above `a` has no member at or below `a`.
not-member_of_le : (a v : ℕ) (xs : List ℕ) → Above a xs → v ≤ a → member v xs ≡ false
not-member_of_le a v xs h le = elim (Bool-cases (member v xs)) [
  | inl e ↦ absurd (omega (arith, Above-member a v xs h e))
  | inr e ↦ e
]

diff_loop-member :
    (fuel : ℕ) (old new : List ℕ) (v : ℕ)
    → length old + length new ≤ fuel
    → Sorted old
    → Sorted new
    → (member v (diff_loop fuel old new).to_remove ≡ member v old && not (member v new))
      × (member v (diff_loop fuel old new).to_add ≡ member v new && not (member v old))
unfolding diff_loop
diff_loop-member fuel [] new v f h k = ground arith
diff_loop-member fuel (o ∷ old) [] v f h k = ground arith
diff_loop-member zero (o ∷ old) (n ∷ new) v f h k = absurd (omega arith)
diff_loop-member (suc fuel) (o ∷ old) (n ∷ new) v f h k = ground (
  arith,
  diff_loop-member fuel old (n ∷ new) v (omega arith) h.1 k,
  diff_loop-member fuel (o ∷ old) new v (omega arith) h k.1,
  diff_loop-member fuel old new v (omega arith) h.1 k.1,
  not-member_of_le o v old h.0,
  not-member_of_le n v new k.0,
)

diff_loop-Above :
    (fuel : ℕ) (a : ℕ) (old new : List ℕ)
    → (Above a old → Above a (diff_loop fuel old new).to_remove)
      × (Above a new → Above a (diff_loop fuel old new).to_add)
unfolding diff_loop
diff_loop-Above fuel a [] new = ground arith
diff_loop-Above fuel a (o ∷ old) [] = ground arith
diff_loop-Above zero a (o ∷ old) (n ∷ new) = ground arith
diff_loop-Above (suc fuel) a (o ∷ old) (n ∷ new) = ground (
  arith,
  diff_loop-Above fuel a old (n ∷ new),
  diff_loop-Above fuel a (o ∷ old) new,
  diff_loop-Above fuel a old new,
)

diff_loop-Sorted :
    (fuel : ℕ) (old new : List ℕ)
    → Sorted old
    → Sorted new
    → Sorted (diff_loop fuel old new).to_remove × Sorted (diff_loop fuel old new).to_add
unfolding diff_loop
diff_loop-Sorted fuel [] new h k = ground arith
diff_loop-Sorted fuel (o ∷ old) [] h k = ground arith
diff_loop-Sorted zero (o ∷ old) (n ∷ new) h k = ground arith
diff_loop-Sorted (suc fuel) (o ∷ old) (n ∷ new) h k = ground (
  arith,
  diff_loop-Sorted fuel old (n ∷ new) h.1 k,
  diff_loop-Sorted fuel (o ∷ old) new h k.1,
  diff_loop-Sorted fuel old new h.1 k.1,
  diff_loop-Above fuel o old (n ∷ new),
  diff_loop-Above fuel n (o ∷ old) new,
)

-- For two ascending rows, the merge loop finds in ascending order exactly the ids that only the
-- old row has, and exactly those that only the new row has.
pub diff_lem :
    (old new : List ℕ)
    → Sorted old
    → Sorted new
    → ((v : ℕ) → member v (diff old new).to_remove ≡ member v old && not (member v new))
      × ((v : ℕ) → member v (diff old new).to_add ≡ member v new && not (member v old))
      × Sorted (diff old new).to_remove
      × Sorted (diff old new).to_add
unfolding diff
diff_lem old new h k =
    let fuel = length old + length new in
    (
      λ v. (diff_loop-member fuel old new v (omega arith) h k).0,
      λ v. (diff_loop-member fuel old new v (omega arith) h k).1,
      (diff_loop-Sorted fuel old new h k).0,
      (diff_loop-Sorted fuel old new h k).1,
    )

intersect_loop-member :
    (fuel : ℕ) (a b : List ℕ) (v : ℕ)
    → length a + length b ≤ fuel
    → Sorted a
    → Sorted b
    → member v (intersect_loop fuel a b) ≡ member v a && member v b
unfolding intersect_loop
intersect_loop-member fuel [] b v f h k = ground arith
intersect_loop-member fuel (x ∷ a) [] v f h k = ground arith
intersect_loop-member zero (x ∷ a) (y ∷ b) v f h k = absurd (omega arith)
intersect_loop-member (suc fuel) (x ∷ a) (y ∷ b) v f h k = ground (
  arith,
  intersect_loop-member fuel a (y ∷ b) v (omega arith) h.1 k,
  intersect_loop-member fuel (x ∷ a) b v (omega arith) h k.1,
  intersect_loop-member fuel a b v (omega arith) h.1 k.1,
  not-member_of_le x v a h.0,
  not-member_of_le y v b k.0,
)

intersect_loop-Above :
    (fuel : ℕ) (c : ℕ) (a b : List ℕ) → Above c a → Above c (intersect_loop fuel a b)
unfolding intersect_loop
intersect_loop-Above fuel c [] b h = tt
intersect_loop-Above fuel c (x ∷ a) [] h = tt
intersect_loop-Above zero c (x ∷ a) (y ∷ b) h = tt
intersect_loop-Above (suc fuel) c (x ∷ a) (y ∷ b) h = ground (
  arith,
  intersect_loop-Above fuel c a (y ∷ b),
  intersect_loop-Above fuel c (x ∷ a) b,
  intersect_loop-Above fuel c a b,
)

intersect_loop-Sorted : (fuel : ℕ) (a b : List ℕ) → Sorted a → Sorted (intersect_loop fuel a b)
unfolding intersect_loop
intersect_loop-Sorted fuel [] b h = tt
intersect_loop-Sorted fuel (x ∷ a) [] h = tt
intersect_loop-Sorted zero (x ∷ a) (y ∷ b) h = tt
intersect_loop-Sorted (suc fuel) (x ∷ a) (y ∷ b) h = ground (
  arith,
  intersect_loop-Sorted fuel a (y ∷ b),
  intersect_loop-Sorted fuel (x ∷ a) b,
  intersect_loop-Sorted fuel a b,
  intersect_loop-Above fuel x a b,
)

-- For two ascending rows, the merge loop yields in ascending order exactly the ids that both
-- have.
pub intersect_lem :
    (a b : List ℕ)
    → Sorted a
    → Sorted b
    → Sorted (intersect a b) × ((v : ℕ) → member v (intersect a b) ≡ member v a && member v b)
unfolding intersect
intersect_lem a b h k =
    let fuel = length a + length b in
    (intersect_loop-Sorted fuel a b h, λ v. intersect_loop-member fuel a b v (omega arith) h k)
