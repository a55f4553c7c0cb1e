-- ===== src/Db/Laws/Load.antt =====
-- `load_graph` of src/db/sqlite.rs: orders, indices and the ids that references name.
pub mod Snapshot
use nostr_wot_oracle.Prelude.{
  ℕ, suc, ◌+◌, ◌<◌, ◌≡◌, List, [], ◌∷◌, Bool, true, false, ◌||◌, some, arith, inl, inr, is_some,
  ◌==◌, length, nat_eq, refl, Bool-cases,
}
use nostr_wot_oracle.Prelude.Str.{Str, str_key}
use nostr_wot_oracle.Prelude.Dict.{Dict, lookup, insert, lookup-insert}
use nostr_wot_oracle.Db.Tables.{NodeRow, id_of}
use nostr_wot_oracle.Db.Load.{place, order_by, node_indices}

-- What holds of the elements of a list, in any order.
module _ {ℓ} {A : Type ℓ} (P : A → Bool) where
  abbrev pub Each : List A → Type 0
  Each [] = Unit
  Each (x ∷ xs) = (P x ≡ true) × Each xs

  abbrev pub some_of : List A → Bool
  some_of [] = false
  some_of (x ∷ xs) = P x || some_of xs

  module _ (before : A → A → Bool) where
    place-Each : (x : A) (xs : List A) → P x ≡ true → Each xs → Each (place before x xs)
    place-Each x [] h hs = (h, tt)
    place-Each x (y ∷ ys) h hs = elim (Bool-cases (before y x)) [
      | inl e ↦ rw e (hs.0, place-Each x ys h hs.1)
      | inr e ↦ rw e (h, hs)
    ]

    pub order_by-Each : (xs : List A) → Each xs → Each (order_by before xs)
    order_by-Each [] h = tt
    order_by-Each (x ∷ xs) h = place-Each x (order_by before xs) h.0 (order_by-Each xs h.1)

    some_of-place : (x : A) (xs : List A) → some_of (place before x xs) ≡ P x || some_of xs
    some_of-place x [] = refl
    some_of-place x (y ∷ ys) = ground (arith, some_of-place x ys)

    pub some_of-order_by : (xs : List A) → some_of (order_by before xs) ≡ some_of xs
    some_of-order_by [] = refl
    some_of-order_by (x ∷ xs) =
        ground (arith, some_of-place x (order_by before xs), some_of-order_by xs)

module _ {ℓ} {A : Type ℓ} (before : A → A → Bool) where
  length-place : (x : A) (xs : List A) → length (place before x xs) ≡ suc (length xs)
  length-place x [] = refl
  length-place x (y ∷ ys) = ground (arith, length-place x ys)

  pub length-order_by : (xs : List A) → length (order_by before xs) ≡ length xs
  length-order_by [] = refl
  length-order_by (x ∷ xs) = omega (arith, length-place x (order_by before xs), length-order_by xs)

-- A row of `nodes` with an id.
abbrev pub has_id : ℕ → Str × NodeRow → Bool
has_id i (p, r) = r.id == i

pub known-some_of :
    (i : ℕ) (nodes : Dict Str NodeRow) (p : Str)
    → id_of nodes p ≡ some i
    → some_of (has_id i) nodes ≡ true
unfolding lookup
known-some_of i [] p h = absurd (ground arith)
known-some_of i ((q, r) ∷ nodes) p h = ground (arith, known-some_of i nodes p)

pub is_some-node_indices :
    (nodes : List (Str × NodeRow)) (k : ℕ) (d : Dict ℕ ℕ) (i : ℕ)
    → is_some (lookup i (node_indices nodes k d)) ≡ some_of (has_id i) nodes || is_some (lookup i d)
unfolding node_indices
is_some-node_indices [] k d i = ground arith
is_some-node_indices ((p, r) ∷ nodes) k d i =
    ground (arith, is_some-node_indices nodes (suc k) (insert r.id k d) i, lookup-insert r.id i k d)

pub node_indices-lt :
    (nodes : List (Str × NodeRow)) (k : ℕ) (d : Dict ℕ ℕ)
    → ((i j : ℕ) → lookup i d ≡ some j → j < k)
    → (i j : ℕ) → lookup i (node_indices nodes k d) ≡ some j
    → j < k + length nodes
unfolding node_indices
node_indices-lt [] k d low i j h = omega (arith, low i j h)
node_indices-lt ((p, r) ∷ nodes) k d low i j h = omega (
  arith,
  node_indices-lt nodes (suc k) (insert r.id k d)
      (λ a b e. ground (arith, lookup-insert r.id a k d, low a b)) i j h,
)
