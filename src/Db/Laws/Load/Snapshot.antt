-- ===== src/Db/Laws/Load/Snapshot.antt =====
-- The loops of `load_graph` in src/db/sqlite.rs over the edges and the mute lists.
use nostr_wot_oracle.Prelude.{
  zero, suc, ℕ, suc, ◌<◌, ◌≡◌, ◌∙◌, List, [], ◌∷◌, Bool, true, false, ◌&&◌, ◌||◌, Option, none,
  some, if◌then◌else◌, arith, inl, inr, is_some, ◌==◌, length, set, nat_eq, get_elem?, refl,
  Bool-cases, Option-cases, length-set, get_elem?_of_lt,
}
use nostr_wot_oracle.Prelude.Dict.{Dict, lookup}
use nostr_wot_oracle.Graph.Store.Types.{SnapshotNode}
use nostr_wot_oracle.Db.Tables.{MuteRow}
use nostr_wot_oracle.Db.Load.{
  update_at, push_follow, indexed, load_edges, start_mutes, load_mute_lists, push_mute, mute_at,
  load_mute_edges,
}
use nostr_wot_oracle.Db.Laws.Load.{Each, some_of}

-- The node at an index has a mute list.
abbrev pub has_list : Option SnapshotNode → Bool
has_list none = false
has_list (some node) = is_some node.mutes

abbrev pub listed_at : List SnapshotNode → ℕ → Bool
listed_at s i = has_list (get_elem? s i)

get_elem?-set :
    (s : List SnapshotNode) (i j : ℕ) (v : SnapshotNode)
    → get_elem? (set s i v) j
      ≡ (if (i == j) && is_some (get_elem? s j) then some v else get_elem? s j)
get_elem?-set [] i j v = ground arith
get_elem?-set (x ∷ s) zero zero v = refl
get_elem?-set (x ∷ s) zero (suc j) v = ground arith
get_elem?-set (x ∷ s) (suc i) zero v = ground arith
get_elem?-set (x ∷ s) (suc i) (suc j) v = ground (arith, get_elem?-set s i j v)

length-update_at :
    (s : List SnapshotNode) (i : ℕ) (f : SnapshotNode → SnapshotNode)
    → length (update_at s i f) ≡ length s
length-update_at s i f = elim (Option-cases (get_elem? s i)) [
  | inl e ↦ ground arith
  | inr (node, e) ↦ ground (arith, length-set s i (f node))
]

abbrev pub in_both : Dict ℕ ℕ → ℕ × ℕ → Bool
in_both indices e = is_some (lookup e.0 indices) && is_some (lookup e.1 indices)

module _ (indices : Dict ℕ ℕ) where
  indexed_lem :
      (e : ℕ × ℕ)
      → in_both indices e ≡ true
      → (i : ℕ) × (j : ℕ) × (lookup e.0 indices ≡ some i) × (indexed indices e ≡ some (i, j))
  indexed_lem e h = elim (Option-cases (lookup e.0 indices)) [
    | inl x ↦ absurd (ground arith)
    | inr (i, x) ↦ elim (Option-cases (lookup e.1 indices)) [
      | inl y ↦ absurd (ground arith)
      | inr (j, y) ↦ (i, j, x, ground arith)
    ]
  ]

  pub load_edges_lem :
      (es : List (ℕ × ℕ)) (s : List SnapshotNode)
      → Each (in_both indices) es
      → (s' : List SnapshotNode) × (load_edges indices es s ≡ some s') × (length s' ≡ length s)
  unfolding load_edges
  load_edges_lem [] s h = (s, refl, refl)
  load_edges_lem (e ∷ es) s h =
      let (i, j, x, at) = indexed_lem e h.0 in
      let (s', run, same) = load_edges_lem es (update_at s i (push_follow j)) h.1 in
      (s', rw (at, load_edges) run, same ∙ length-update_at s i (push_follow j))

  listed_at-start_mutes :
      (s : List SnapshotNode) (i j : ℕ) (m : MuteRow)
      → i < length s
      → listed_at (update_at s i (start_mutes m)) j ≡ (i == j) || listed_at s j
  listed_at-start_mutes s i j m h =
      let (node, at) = get_elem?_of_lt s i h in
      rw (at, update_at) (ground (arith, get_elem?-set s i j (start_mutes m node)))

  pub load_mute_lists_lem :
      (rows : List (ℕ × MuteRow)) (s : List SnapshotNode)
      → Each (λ row. is_some (lookup row.0 indices)) rows
      → ((i j : ℕ) → lookup i indices ≡ some j → j < length s)
      → (s' : List SnapshotNode) × (load_mute_lists indices rows s ≡ some s')
        × ((j : ℕ) → listed_at s j ≡ true → listed_at s' j ≡ true)
        × ((a i : ℕ)
            → lookup a indices ≡ some i
            → some_of (λ row. row.0 == a) rows ≡ true
            → listed_at s' i ≡ true)
  unfolding load_mute_lists
  load_mute_lists_lem [] s h low = (s, refl, λ j k. k, λ a i x y. absurd (ground arith))
  load_mute_lists_lem ((author, m) ∷ rows) s h low = elim (Option-cases (lookup author indices)) [
    | inl x ↦ absurd (ground (arith, h.0))
    | inr (i, x) ↦
        let s1 = update_at s i (start_mutes m) in
        let (s', run, keeps, finds) =
          load_mute_lists_lem rows s1 h.1
            (λ a b e. ground (arith, low a b e, length-update_at s i (start_mutes m))) in
        let begun = λ (j : ℕ). listed_at-start_mutes s i j m (low author i x) in
        (
          s',
          rw (x, load_mute_lists) run,
          λ j k. keeps j (ground (arith, begun j)),
          λ a j y z. elim (Bool-cases (author == a)) [
            | inl same ↦ keeps j (ground (arith, begun j))
            | inr other ↦ finds a j y (ground arith)
          ],
        )
  ]

  abbrev pub from_listed : List SnapshotNode → ℕ × ℕ → Bool
  from_listed s e = elim (lookup e.0 indices) [ none ↦ false | some i ↦ listed_at s i ]

  mute_at_lem :
      (s : List SnapshotNode) (i j : ℕ)
      → listed_at s i ≡ true
      → (s' : List SnapshotNode) × (mute_at s i j ≡ some s')
        × ((k : ℕ) → listed_at s' k ≡ listed_at s k)
  mute_at_lem s i j h = elim (Option-cases (get_elem? s i)) [
    | inl x ↦ absurd (ground arith)
    | inr (node, x) ↦ elim (Option-cases (push_mute j node)) [
      | inl y ↦ absurd (ground arith)
      | inr (node', y) ↦
          (set s i node', rw (x, y, mute_at) refl, λ k. ground (arith, get_elem?-set s i k node'))
    ]
  ]

  Each-still :
      (es : List (ℕ × ℕ)) (s s' : List SnapshotNode)
      → ((k : ℕ) → listed_at s' k ≡ listed_at s k)
      → Each (from_listed s) es
      → Each (from_listed s') es
  Each-still [] s s' same h = tt
  Each-still (e ∷ es) s s' same h = (
    elim (Option-cases (lookup e.0 indices)) [
      | inl x ↦ absurd (ground (arith, h.0))
      | inr (i, x) ↦ ground (arith, h.0, same i)
    ],
    Each-still es s s' same h.1,
  )

  pub load_mute_edges_lem :
      (es : List (ℕ × ℕ)) (s : List SnapshotNode)
      → Each (in_both indices) es
      → Each (from_listed s) es
      → is_some (load_mute_edges indices es s) ≡ true
  unfolding load_mute_edges
  load_mute_edges_lem [] s h l = refl
  load_mute_edges_lem (e ∷ es) s h l =
      let (i, j, x, at) = indexed_lem e h.0 in
      let (s', pushed, same) = mute_at_lem s i j (ground (arith, l.0)) in
      rw (at, load_mute_edges)
        (rw (pushed, load_mute_edges) (load_mute_edges_lem es s' h.1 (Each-still es s s' same l.1)))
