-- ===== src/Graph/Bfs/Search/Level.antt =====
-- What the scan of one level does to the distances, the next frontier and the best meeting.
use nostr_wot_oracle.Prelude.{
  nat_eq, ℕ, ◌+◌, ◌≤◌, ◌≡◌, ◌⊎◌, List, [], ◌∷◌, ◌++◌, Bool, true, not, ◌&&◌, ◌||◌, Option, none,
  some, arith, refl, inl, inr, Option-cases, Bool-cases, if◌then◌else◌, ◌==◌, is_some,
}
use nostr_wot_oracle.Prelude.Dict.{Dict, lookup, lookup-insert}
use nostr_wot_oracle.Prelude.Sorted.{member}
use nostr_wot_oracle.Graph.Bfs.Types.{saturating_add, Side, MeetingNode, Meeting}
use nostr_wot_oracle.Graph.Bfs.Search.{improves, check_met, visit, scan_neighbors}

-- The recorded distance of a node.
abbrev pub first_of : Option (ℕ × ℕ) → Option ℕ
first_of none = none
first_of (some e) = some e.0

abbrev pub dist_of : Side → ℕ → Option ℕ
dist_of s v = first_of (lookup v s.visited)

-- There is a value, and it is at most `m`.
abbrev pub AtMost : Option ℕ → ℕ → Type 0
AtMost none m = ⊥
AtMost (some t) m = t ≤ m

-- A node whose distance is set keeps it.
abbrev pub or_set : Option ℕ → Bool → ℕ → Option ℕ
or_set none b d = if b then some d else none
or_set (some k) b d = some k

pub member-push :
    (v w : ℕ) (xs : List ℕ) → member w (xs ++ v ∷ []) ≡ (if v == w then true else member w xs)
member-push v w [] = refl
member-push v w (x ∷ xs) = ground (arith, member-push v w xs)

dist_of-visit :
    (d p n w : ℕ) (s : Side) → dist_of (visit d p n s) w ≡ or_set (dist_of s w) (n == w) d
unfolding visit
dist_of-visit d p n w s = elim (Option-cases (lookup n s.visited)) [
  | inl e ↦ ground (arith, lookup-insert n w (d, p) s.visited)
  | inr (x, e) ↦ ground (arith, lookup-insert n w (x.0, saturating_add x.1 p) s.visited)
]

member-visit :
    (d p n w : ℕ) (s : Side)
    → member w (visit d p n s).next ≡ (member w s.next || (n == w) && not (is_some (dist_of s w)))
unfolding visit
member-visit d p n w s = elim (Option-cases (lookup n s.visited)) [
  | inl e ↦ ground (arith, member-push n w s.next)
  | inr (x, e) ↦ ground arith
]

-- Checking a neighbor against the other side never worsens the best distance.
check_met_mono :
    (meet : ℕ → ℕ → ℕ → MeetingNode) (other : Dict ℕ (ℕ × ℕ)) (d p n : ℕ) (m : Meeting) (k : ℕ)
    → AtMost m.best_distance k
    → AtMost (check_met meet other d p n m).best_distance k
unfolding check_met
check_met_mono meet other d p n m k h = ground arith

-- A neighbor that the other side visited is a meeting.
check_met_hit :
    (meet : ℕ → ℕ → ℕ → MeetingNode) (other : Dict ℕ (ℕ × ℕ)) (d p n : ℕ) (m : Meeting) (k t : ℕ)
    → first_of (lookup n other) ≡ some t
    → d + t ≤ k
    → AtMost (check_met meet other d p n m).best_distance k
unfolding check_met
check_met_hit meet other d p n m k t e h = ground arith

-- A new best distance comes from such a neighbor.
check_met_sound :
    (meet : ℕ → ℕ → ℕ → MeetingNode) (other : Dict ℕ (ℕ × ℕ)) (d p n : ℕ) (m : Meeting) (k : ℕ)
    → (check_met meet other d p n m).best_distance ≡ some k
    → (m.best_distance ≡ some k) ⊎ ((t : ℕ) × (first_of (lookup n other) ≡ some t) × (k ≡ d + t))
unfolding check_met
check_met_sound meet other d p n m k h = elim (Option-cases (lookup n other)) [
  | inl e ↦ inl (ground arith)
  | inr (x, e) ↦ elim (Bool-cases (improves (d + x.0) m.best_distance)) [
    | inl better ↦ inr (x.0, ground arith, ground arith)
    | inr worse ↦ inl (ground arith)
  ]
]

module _ (meet : ℕ → ℕ → ℕ → MeetingNode) (other : Dict ℕ (ℕ × ℕ)) (d : ℕ) where
  pub dist_of-scan_neighbors :
      (p : ℕ) (ns : List ℕ) (s : Side) (m : Meeting) (w : ℕ)
      → dist_of (scan_neighbors meet other d p ns (s, m)).0 w ≡ or_set (dist_of s w) (member w ns) d
  unfolding scan_neighbors
  dist_of-scan_neighbors p [] s m w = ground arith
  dist_of-scan_neighbors p (n ∷ ns) s m w = ground (
    arith,
    dist_of-scan_neighbors p ns (visit d p n s) (check_met meet other d p n m) w,
    dist_of-visit d p n w s,
  )

  pub member-scan_neighbors :
      (p : ℕ) (ns : List ℕ) (s : Side) (m : Meeting) (w : ℕ)
      → member w (scan_neighbors meet other d p ns (s, m)).0.next
        ≡ (member w s.next || member w ns && not (is_some (dist_of s w)))
  unfolding scan_neighbors
  member-scan_neighbors p [] s m w = ground arith
  member-scan_neighbors p (n ∷ ns) s m w = ground (
    arith,
    member-scan_neighbors p ns (visit d p n s) (check_met meet other d p n m) w,
    member-visit d p n w s,
    dist_of-visit d p n w s,
  )

  pub scan_neighbors_mono :
      (p : ℕ) (ns : List ℕ) (s : Side) (m : Meeting) (k : ℕ)
      → AtMost m.best_distance k
      → AtMost (scan_neighbors meet other d p ns (s, m)).1.best_distance k
  unfolding scan_neighbors
  scan_neighbors_mono p [] s m k h = h
  scan_neighbors_mono p (n ∷ ns) s m k h =
      scan_neighbors_mono p ns (visit d p n s) (check_met meet other d p n m) k
        (check_met_mono meet other d p n m k h)

  pub scan_neighbors_hit :
      (p : ℕ) (ns : List ℕ) (s : Side) (m : Meeting) (k t w : ℕ)
      → member w ns ≡ true
      → first_of (lookup w other) ≡ some t
      → d + t ≤ k
      → AtMost (scan_neighbors meet other d p ns (s, m)).1.best_distance k
  unfolding scan_neighbors
  scan_neighbors_hit p [] s m k t w e f h = cc
  scan_neighbors_hit p (n ∷ ns) s m k t w e f h = elim (Bool-cases (n == w)) [
    | inl same ↦
        scan_neighbors_mono p ns (visit d p n s) (check_met meet other d p n m) k
          (check_met_hit meet other d p n m k t (ground arith) h)
    | inr differ ↦
        scan_neighbors_hit p ns (visit d p n s) (check_met meet other d p n m) k t w (ground arith)
          f h
  ]

  pub scan_neighbors_sound :
      (p : ℕ) (ns : List ℕ) (s : Side) (m : Meeting) (k : ℕ)
      → (scan_neighbors meet other d p ns (s, m)).1.best_distance ≡ some k
      → (m.best_distance ≡ some k)
        ⊎ ((w : ℕ) × (t : ℕ) × (member w ns ≡ true)
            × (first_of (lookup w other) ≡ some t)
            × (k ≡ d + t))
  unfolding scan_neighbors
  scan_neighbors_sound p [] s m k h = inl h
  scan_neighbors_sound p (n ∷ ns) s m k h =
      elim (scan_neighbors_sound p ns (visit d p n s) (check_met meet other d p n m) k h) [
        | inl first ↦ elim (check_met_sound meet other d p n m k first) [
          | inl old ↦ inl old
          | inr (t, e, f) ↦ inr (n, t, ground arith, e, f)
        ]
        | inr (w, t, e, f, q) ↦ inr (w, t, ground arith, f, q)
      ]
