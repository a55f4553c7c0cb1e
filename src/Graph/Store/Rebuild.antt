-- ===== src/Graph/Store/Rebuild.antt =====
-- The reverse adjacency that `restore_nodes` of src/graph/store.rs rebuilds.
use nostr_wot_oracle.Prelude.{
  ℕ, zero, suc, ◌-◌, ◌<◌, ◌≡◌, ◌∙◌, ap, List, [], ◌∷◌, ◌++◌, ◌||◌, ◌&&◌, arith, refl, sym, inl, inr,
  Bool-cases, if◌then◌else◌, length, set, ltb, leb, ◌==◌, nat_eq, get_or-set, length-set,
}
use nostr_wot_oracle.Prelude.Sorted.{member, Sorted, Above, Below, Below-mono, member-Above}
use nostr_wot_oracle.Graph.Adjacency.{row}
use nostr_wot_oracle.Graph.Bfs.Search.Level.{member-push}
use nostr_wot_oracle.Graph.Store.Restore.{push_source, rebuild_followers, cleared}

Sorted-push : (k : ℕ) (xs : List ℕ) → Sorted xs → Below k xs → Sorted (xs ++ k ∷ [])
Sorted-push k [] h b = (tt, tt)
Sorted-push k (x ∷ xs) h b = (Above-push x xs h.0 b.0, Sorted-push k xs h.1 b.1)
  where
    Above-push : (a : ℕ) (xs : List ℕ) → Above a xs → a < k → Above a (xs ++ k ∷ [])
    Above-push a [] h l = (l, tt)
    Above-push a (y ∷ ys) h l = (h.0, Above-push a ys h.1 l)

Below-push_self : (k : ℕ) (xs : List ℕ) → Below k xs → Below (suc k) (xs ++ k ∷ [])
Below-push_self k [] h = (omega arith, tt)
Below-push_self k (x ∷ xs) h = (omega (arith, h.0), Below-push_self k xs h.1)

length-push_source :
    (k : ℕ) (ts : List ℕ) (rows : List (List ℕ)) → length (push_source k ts rows) ≡ length rows
unfolding push_source
length-push_source k [] rows = refl
length-push_source k (t ∷ ts) rows =
    length-push_source k ts (set rows t (row rows t ++ k ∷ []))
    ∙ length-set rows t (row rows t ++ k ∷ [])

row-push_source :
    (k : ℕ) (ts : List ℕ) (rows : List (List ℕ)) (b : ℕ)
    → Sorted ts
    → Below (length rows) ts
    → row (push_source k ts rows) b ≡ (if member b ts then row rows b ++ k ∷ [] else row rows b)
unfolding push_source
row-push_source k [] rows b h l = refl
row-push_source k (t ∷ ts) rows b h l =
    let rows' = set rows t (row rows t ++ k ∷ []) in
    ground (
      arith,
      row-push_source k ts rows' b h.1 (rw (length-set rows t (row rows t ++ k ∷ [])) l.1),
      get_or-set rows t b (row rows t ++ k ∷ []) [],
      member-Above t ts h.0,
    )

-- Rows that a rebuild can start from.
record Rows (n : ℕ) (follows : List (List ℕ)) : Type 0 where
  ascending : (a : ℕ) → Sorted (row follows a)
  below : (a : ℕ) → Below n (row follows a)

tail-Rows : (n : ℕ) (ts : List ℕ) (follows : List (List ℕ)) → Rows n (ts ∷ follows) → Rows n follows
tail-Rows n ts follows r = record {
  ascending = λ a. r.ascending (suc a);
  below = λ a. r.below (suc a);
}

rebuild-member :
    (k n : ℕ) (follows rows : List (List ℕ)) (v b : ℕ)
    → n ≡ length rows
    → Rows n follows
    → member v (row (rebuild_followers k follows rows) b)
      ≡ (member v (row rows b) || leb k v && member b (row follows (v - k)))
unfolding rebuild_followers
rebuild-member k n [] rows v b e r = ground arith
rebuild-member k n (ts ∷ follows) rows v b e r =
    let ih =
      rebuild-member (suc k) n follows (push_source k ts rows) v b
        (omega (arith, e, length-push_source k ts rows)) (tail-Rows n ts follows r) in
    let step =
      row-push_source k ts rows b (r.ascending 0)
        (Below-mono n (length rows) ts (omega arith) (r.below 0)) in
    let push = member-push k v (row rows b) in
    ih ∙ elim (Bool-cases (ltb k v)) [
      | inl later ↦
          let shift : row (ts ∷ follows) (v - k) ≡ row follows (v - suc k) =
            ap (row (ts ∷ follows)) {x = v - k} {y = suc (v - suc k)} (ground arith) in
          ground (arith, step, push, shift)
      | inr x ↦ elim (Bool-cases (k == v)) [
        | inl now ↦
            let here : row (ts ∷ follows) (v - k) ≡ ts =
              ap (row (ts ∷ follows)) {x = v - k} {y = 0} (ground arith) in
            ground (arith, step, push, here)
        | inr earlier ↦ ground (arith, step, push)
      ]
    ]

rebuild-Sorted :
    (k n : ℕ) (follows rows : List (List ℕ)) (b : ℕ)
    → n ≡ length rows
    → Rows n follows
    → Sorted (row rows b)
    → Below k (row rows b)
    → Sorted (row (rebuild_followers k follows rows) b)
unfolding rebuild_followers
rebuild-Sorted k n [] rows b e r s l = s
rebuild-Sorted k n (ts ∷ follows) rows b e r s l =
    let step =
      row-push_source k ts rows b (r.ascending 0)
        (Below-mono n (length rows) ts (omega arith) (r.below 0)) in
    let next =
      rebuild-Sorted (suc k) n follows (push_source k ts rows) b
        (omega (arith, e, length-push_source k ts rows)) (tail-Rows n ts follows r) in
    elim (Bool-cases (member b ts)) [
      | inl there ↦
          next (rw (step, there) (Sorted-push k (row rows b) s l))
            (rw (step, there) (Below-push_self k (row rows b) l))
      | inr absent ↦
          next (rw (step, absent) s)
            (rw (step, absent) (Below-mono k (suc k) (row rows b) (omega arith) l))
    ]

row-cleared : (rows : List (List ℕ)) (b : ℕ) → row (cleared rows) b ≡ []
row-cleared [] b = refl
row-cleared (r ∷ rows) zero = refl
row-cleared (r ∷ rows) (suc b) = row-cleared rows b

pub length-cleared : (rows : List (List ℕ)) → length (cleared rows) ≡ length rows
length-cleared [] = refl
length-cleared (r ∷ rows) = ap suc (length-cleared rows)

pub length-rebuild_followers :
    (k : ℕ) (follows rows : List (List ℕ)) → length (rebuild_followers k follows rows) ≡ length rows
unfolding rebuild_followers
length-rebuild_followers k [] rows = refl
length-rebuild_followers k (ts ∷ follows) rows =
    length-rebuild_followers (suc k) follows (push_source k ts rows) ∙ length-push_source k ts rows

-- From ascending rows of follows with ids in range, the rebuilt followers, started from empty
-- rows, are the mirror image of the follows, and their rows are ascending without a sort.
pub rebuild_followers_lem :
    (follows followers : List (List ℕ))
    → ((a : ℕ) → Sorted (row follows a))
    → ((a : ℕ) → Below (length followers) (row follows a))
    → ((a b : ℕ)
        → member b (row follows a)
          ≡ member a (row (rebuild_followers 0 follows (cleared followers)) b))
      × ((b : ℕ) → Sorted (row (rebuild_followers 0 follows (cleared followers)) b))
rebuild_followers_lem follows followers asc below =
    let rows = cleared followers in
    let n = length followers in
    let r : Rows n follows = record { ascending = asc; below = below } in
    let size : n ≡ length rows = omega (arith, length-cleared followers) in
    (
      λ a b. sym (
          rebuild-member 0 n follows rows a b size r ∙ rw (row-cleared followers b) (ground arith)),
      λ b.
          rebuild-Sorted 0 n follows rows b size r (rw (row-cleared followers b) tt)
            (rw (row-cleared followers b) tt),
    )
