-- ===== src/Prelude/Sorted.antt =====
-- Lists of ids in ascending order without repeats, as the graph keeps them.
-- `sort`, `dedup`, `binary_search`, `insert_at` and `remove_at` are the slice and `Vec` methods of
-- these names; `binary_search` is used on ascending lists only, where its result is determined.
use Prim.Native.Nat.{ℕ, zero, suc, ◌<◌, ◌≤◌}
use mathlib.Core.Path.{◌≡◌, refl}
use mathlib.Core.Logic.{inl, inr}
use mathlib.Core.Bool.{Bool, true, false}
use mathlib.Core.List.{List, [], ◌∷◌}
use native.Mathlib.Omega.{arith}
use nostr_wot_oracle.Prelude.Tests.{◌==◌, ltb, leb, if◌then◌else◌, Bool-cases}

abbrev pub member : ℕ → List ℕ → Bool
member v [] = false
member v (x ∷ xs) = if x == v then true else member v xs

abbrev pub Above : ℕ → List ℕ → Type 0
Above a [] = Unit
Above a (x ∷ xs) = (a < x) × Above a xs

abbrev pub Sorted : List ℕ → Type 0
Sorted [] = Unit
Sorted (x ∷ xs) = Above x xs × Sorted xs

-- Every element is below the bound.
abbrev pub Below : ℕ → List ℕ → Type 0
Below n [] = Unit
Below n (x ∷ xs) = (x < n) × Below n xs

pub Above-member : (a v : ℕ) (xs : List ℕ) → Above a xs → member v xs ≡ true → a < v
Above-member a v [] h m = cc
Above-member a v (x ∷ xs) h m = ground (arith, Above-member a v xs h.1)

pub Above-of_members : (a : ℕ) (xs : List ℕ) → ((v : ℕ) → member v xs ≡ true → a < v) → Above a xs
Above-of_members a [] h = tt
Above-of_members a (x ∷ xs) h =
    (h x (ground arith), Above-of_members a xs (λ v m. h v (ground arith)))

pub Above-trans : (a b : ℕ) (xs : List ℕ) → a ≤ b → Above b xs → Above a xs
Above-trans a b [] le h = tt
Above-trans a b (x ∷ xs) le h = (omega arith, Above-trans a b xs le h.1)

pub Below-member : (n v : ℕ) (xs : List ℕ) → Below n xs → member v xs ≡ true → v < n
Below-member n v [] h m = cc
Below-member n v (x ∷ xs) h m = ground (arith, Below-member n v xs h.1)

pub Below-of_members : (n : ℕ) (xs : List ℕ) → ((v : ℕ) → member v xs ≡ true → v < n) → Below n xs
Below-of_members n [] h = tt
Below-of_members n (x ∷ xs) h =
    (h x (ground arith), Below-of_members n xs (λ v m. h v (ground arith)))

pub Below-mono : (n m : ℕ) (xs : List ℕ) → n ≤ m → Below n xs → Below m xs
Below-mono n m [] le h = tt
Below-mono n m (x ∷ xs) le h = (omega arith, Below-mono n m xs le h.1)

-- Not a member of a list that lies above it.
pub member-Above : (a : ℕ) (xs : List ℕ) → Above a xs → member a xs ≡ false
member-Above a [] h = refl
member-Above a (x ∷ xs) h = ground (arith, member-Above a xs h.1)

-- An ascending list is determined by its members.
pub Sorted-ext :
    (xs ys : List ℕ) → Sorted xs → Sorted ys → ((v : ℕ) → member v xs ≡ member v ys) → xs ≡ ys
Sorted-ext [] [] hx hy e = refl
Sorted-ext [] (y ∷ ys) hx hy e = ground (arith, e y)
Sorted-ext (x ∷ xs) [] hx hy e = ground (arith, e x)
Sorted-ext (x ∷ xs) (y ∷ ys) hx hy e =
    let same : x ≡ y =
      ground (arith, e x, e y, Above-member y x ys hy.0, Above-member x y xs hx.0) in
    let tails : xs ≡ ys =
      Sorted-ext xs ys hx.1 hy.1
        (λ v. ground (arith, e v, member-Above x xs hx.0, member-Above y ys hy.0)) in
    ground arith

-- `sort_unstable` on integers, where equal elements cannot be told apart.
pub insert_sorted : ℕ → List ℕ → List ℕ
insert_sorted v [] = v ∷ []
insert_sorted v (x ∷ xs) = if leb v x then v ∷ x ∷ xs else x ∷ insert_sorted v xs

unfoldable pub sort : List ℕ → List ℕ
unfolding insert_sorted
sort [] = []
sort (x ∷ xs) = insert_sorted x (sort xs)

-- `dedup`: drops an element that equals the one before it.
dedup_from : ℕ → List ℕ → List ℕ
dedup_from a [] = []
dedup_from a (x ∷ xs) = if a == x then dedup_from a xs else x ∷ dedup_from x xs

unfoldable pub dedup : List ℕ → List ℕ
unfolding dedup_from
dedup [] = []
dedup (x ∷ xs) = x ∷ dedup_from x xs

-- Ascending with repeats, from a bound on.
abbrev From : ℕ → List ℕ → Type 0
From a [] = Unit
From a (x ∷ xs) = (a ≤ x) × From x xs

insert_sorted-From : (a v : ℕ) (xs : List ℕ) → a ≤ v → From a xs → From a (insert_sorted v xs)
unfolding insert_sorted
insert_sorted-From a v [] le h = (le, tt)
insert_sorted-From a v (x ∷ xs) le h = ground (arith, insert_sorted-From x v xs)

sort-From : (xs : List ℕ) → From 0 (sort xs)
unfolding sort
sort-From [] = tt
sort-From (x ∷ xs) = insert_sorted-From 0 x (sort xs) (omega arith) (sort-From xs)

member-insert_sorted :
    (v w : ℕ) (xs : List ℕ) → member w (insert_sorted v xs) ≡ (if v == w then true else member w xs)
unfolding insert_sorted
member-insert_sorted v w [] = refl
member-insert_sorted v w (x ∷ xs) = ground (arith, member-insert_sorted v w xs)

member-sort : (w : ℕ) (xs : List ℕ) → member w (sort xs) ≡ member w xs
unfolding sort
member-sort w [] = refl
member-sort w (x ∷ xs) = rw member-insert_sorted (rw (member-sort w xs))

member-dedup_from : (a w : ℕ) (xs : List ℕ) → member w (a ∷ dedup_from a xs) ≡ member w (a ∷ xs)
unfolding dedup_from
member-dedup_from a w [] = refl
member-dedup_from a w (x ∷ xs) = ground (arith, member-dedup_from a w xs, member-dedup_from x w xs)

dedup_from-Sorted :
    (a : ℕ) (xs : List ℕ) → From a xs → Above a (dedup_from a xs) × Sorted (dedup_from a xs)
unfolding dedup_from
dedup_from-Sorted a [] h = (tt, tt)
dedup_from-Sorted a (x ∷ xs) h = elim (Bool-cases (a == x)) [
  | inl e ↦ rw e (dedup_from-Sorted a xs (ground arith))
  | inr e ↦
      let ih = dedup_from-Sorted x xs h.1 in
      rw e ((ground arith, Above-trans a x (dedup_from x xs) h.0 ih.0), ih)
]

-- Sorting and removing repeats keeps the members.
pub member-dedup-sort : (w : ℕ) (xs : List ℕ) → member w (dedup (sort xs)) ≡ member w xs
unfolding dedup
member-dedup-sort w xs = go (sort xs) refl
  where
    go : (ys : List ℕ) → sort xs ≡ ys → member w (dedup ys) ≡ member w xs
    go [] e = ground (arith, member-sort w xs)
    go (y ∷ ys) e = ground (arith, member-sort w xs, member-dedup_from y w ys)

-- Sorting and removing repeats gives an ascending list.
pub dedup-sort-Sorted : (xs : List ℕ) → Sorted (dedup (sort xs))
unfolding dedup
dedup-sort-Sorted xs = go (sort xs) (sort-From xs)
  where
    go : (ys : List ℕ) → From 0 ys → Sorted (dedup ys)
    go [] h = tt
    go (y ∷ ys) h = dedup_from-Sorted y ys h.1

-- `Result<usize, usize>` of `slice::binary_search`.
pub data Slot : Type 0 where
  found : ℕ → Slot
  missing : ℕ → Slot

abbrev pub next_slot : Slot → Slot
next_slot (found i) = found (suc i)
next_slot (missing i) = missing (suc i)

unfoldable pub binary_search : List ℕ → ℕ → Slot
binary_search [] v = missing 0
binary_search (x ∷ xs) v =
    if x == v then found 0 else if ltb x v then next_slot (binary_search xs v) else missing 0

abbrev pub is_found : Slot → Bool
is_found (found i) = true
is_found (missing i) = false

abbrev pub insert_at : ℕ → ℕ → List ℕ → List ℕ
insert_at zero v xs = v ∷ xs
insert_at (suc i) v [] = v ∷ []
insert_at (suc i) v (x ∷ xs) = x ∷ insert_at i v xs

abbrev pub remove_at : ℕ → List ℕ → List ℕ
remove_at i [] = []
remove_at zero (x ∷ xs) = xs
remove_at (suc i) (x ∷ xs) = x ∷ remove_at i xs

-- On an ascending list, binary search finds exactly the members.
pub binary_search-member :
    (xs : List ℕ) (v : ℕ) → Sorted xs → is_found (binary_search xs v) ≡ member v xs
unfolding binary_search
binary_search-member [] v h = refl
binary_search-member (x ∷ xs) v h =
    elim (binary_search xs v)
        as (λ s.
          is_found s ≡ member v xs
          → is_found (if x == v then found 0 else if ltb x v then next_slot s else missing 0)
            ≡ member v (x ∷ xs)) [
              | found i ↦ λ ih. ground (arith, Above-member x v xs h.0)
              | missing i ↦ λ ih. ground (arith, Above-member x v xs h.0)
            ]
      (binary_search-member xs v h.1)
