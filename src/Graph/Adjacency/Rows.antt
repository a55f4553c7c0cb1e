-- ===== src/Graph/Adjacency/Rows.antt =====
-- What the loops over `to_remove` and `to_add` do to the rows.
use nostr_wot_oracle.Prelude.{
  ◌∙◌, ℕ, ◌≡◌, refl, List, [], ◌∷◌, true, false, ◌&&◌, if◌then◌else◌, ◌==◌, set, length, arith, inl,
  inr, Bool-cases, get_or-set, length-set,
}
use nostr_wot_oracle.Prelude.Sorted.{member, Sorted, Below, member-Above}
use nostr_wot_oracle.Graph.Adjacency.{row, remove_id, add_id, remove_from_all, add_to_all}
use nostr_wot_oracle.Graph.Adjacency.Laws.{
  member-add_id, add_id-Sorted, member-remove_id, remove_id-Sorted,
}

pub length-remove_from_all :
    (s : ℕ) (ts : List ℕ) (rows : List (List ℕ)) → length (remove_from_all s ts rows) ≡ length rows
unfolding remove_from_all
length-remove_from_all s [] rows = refl
length-remove_from_all s (t ∷ ts) rows =
    length-remove_from_all s ts (set rows t (remove_id s (row rows t)))
    ∙ length-set rows t (remove_id s (row rows t))

pub length-add_to_all :
    (s : ℕ) (ts : List ℕ) (rows : List (List ℕ)) → length (add_to_all s ts rows) ≡ length rows
unfolding add_to_all
length-add_to_all s [] rows = refl
length-add_to_all s (t ∷ ts) rows =
    length-add_to_all s ts (set rows t (add_id s (row rows t)))
    ∙ length-set rows t (add_id s (row rows t))

Below-set :
    (ts : List ℕ) (rows : List (List ℕ)) (t : ℕ) (r : List ℕ)
    → Below (length rows) ts
    → Below (length (set rows t r)) ts
Below-set ts rows t r h = rw (length-set rows t r) h

pub row-remove_from_all :
    (s : ℕ) (ts : List ℕ) (rows : List (List ℕ)) (b : ℕ)
    → Sorted ts
    → Below (length rows) ts
    → row (remove_from_all s ts rows) b
      ≡ (if member b ts then remove_id s (row rows b) else row rows b)
unfolding remove_from_all
row-remove_from_all s [] rows b h k = refl
row-remove_from_all s (t ∷ ts) rows b h k =
    let rows' = set rows t (remove_id s (row rows t)) in
    ground (
      arith,
      row-remove_from_all s ts rows' b h.1 (Below-set ts rows t (remove_id s (row rows t)) k.1),
      get_or-set rows t b (remove_id s (row rows t)) [],
      member-Above t ts h.0,
    )

pub row-add_to_all :
    (s : ℕ) (ts : List ℕ) (rows : List (List ℕ)) (b : ℕ)
    → Sorted ts
    → Below (length rows) ts
    → row (add_to_all s ts rows) b ≡ (if member b ts then add_id s (row rows b) else row rows b)
unfolding add_to_all
row-add_to_all s [] rows b h k = refl
row-add_to_all s (t ∷ ts) rows b h k =
    let rows' = set rows t (add_id s (row rows t)) in
    ground (
      arith,
      row-add_to_all s ts rows' b h.1 (Below-set ts rows t (add_id s (row rows t)) k.1),
      get_or-set rows t b (add_id s (row rows t)) [],
      member-Above t ts h.0,
    )

-- For ascending targets in range, removing a source from the rows of all targets keeps a row
-- ascending that was, and takes the source out of exactly the targets' rows.
pub remove_from_all_lem :
    (s : ℕ) (ts : List ℕ) (rows : List (List ℕ)) (b v : ℕ)
    → Sorted ts
    → Below (length rows) ts
    → Sorted (row rows b)
    → Sorted (row (remove_from_all s ts rows) b)
      × (member v (row (remove_from_all s ts rows) b)
          ≡ (if member b ts && (s == v) then false else member v (row rows b)))
remove_from_all_lem s ts rows b v h k r =
    rw (row-remove_from_all s ts rows b h k) (elim (Bool-cases (member b ts)) [
      | inl e ↦
          rw e
            (remove_id-Sorted s (row rows b) r, ground (arith, member-remove_id s v (row rows b) r))
      | inr e ↦ rw e (r, ground arith)
    ])

-- For ascending targets in range, adding a source to the rows of all targets keeps a row
-- ascending that was, and puts the source into exactly the targets' rows.
pub add_to_all_lem :
    (s : ℕ) (ts : List ℕ) (rows : List (List ℕ)) (b v : ℕ)
    → Sorted ts
    → Below (length rows) ts
    → Sorted (row rows b)
    → Sorted (row (add_to_all s ts rows) b)
      × (member v (row (add_to_all s ts rows) b)
          ≡ (if member b ts && (s == v) then true else member v (row rows b)))
add_to_all_lem s ts rows b v h k r =
    rw (row-add_to_all s ts rows b h k) (elim (Bool-cases (member b ts)) [
      | inl e ↦
          rw e (add_id-Sorted s (row rows b) r, ground (arith, member-add_id s v (row rows b)))
      | inr e ↦ rw e (r, ground arith)
    ])
