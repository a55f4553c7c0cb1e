-- ===== src/Graph/Bfs/Search/Sweep.antt =====
-- The scan of a whole frontier: the lemmas on one row, lifted.
use nostr_wot_oracle.Prelude.{
  nat_eq, ℕ, ◌+◌, ◌≤◌, ◌≡◌, ◌⊎◌, List, [], ◌∷◌, Bool, true, false, not, ◌&&◌, ◌||◌, some, arith,
  inl, inr, Bool-cases, is_some,
}
use nostr_wot_oracle.Prelude.Dict.{Dict, lookup}
use nostr_wot_oracle.Prelude.Sorted.{member}
use nostr_wot_oracle.Graph.Adjacency.{row}
use nostr_wot_oracle.Graph.Bfs.Types.{Side, MeetingNode, Meeting}
use nostr_wot_oracle.Graph.Bfs.Search.{scan_neighbors, scan_level, paths_of}
use nostr_wot_oracle.Graph.Bfs.Search.Level.{
  first_of, dist_of, AtMost, or_set, dist_of-scan_neighbors, member-scan_neighbors,
  scan_neighbors_mono, scan_neighbors_hit, scan_neighbors_sound,
}

-- Does a row of one of the nodes hold the id?
abbrev pub touches : List (List ℕ) → List ℕ → ℕ → Bool
touches rows [] w = false
touches rows (u ∷ us) w = member w (row rows u) || touches rows us w

pub touches_from :
    (rows : List (List ℕ)) (us : List ℕ) (w : ℕ)
    → touches rows us w ≡ true
    → (u : ℕ) × (member u us ≡ true) × (member w (row rows u) ≡ true)
touches_from rows [] w h = cc
touches_from rows (u ∷ us) w h = elim (Bool-cases (member w (row rows u))) [
  | inl e ↦ (u, ground arith, e)
  | inr e ↦ let (v, m, f) = touches_from rows us w (ground arith) in (v, ground arith, f)
]

pub touches_to :
    (rows : List (List ℕ)) (us : List ℕ) (u w : ℕ)
    → member u us ≡ true
    → member w (row rows u) ≡ true
    → touches rows us w ≡ true
touches_to rows [] u w m e = cc
touches_to rows (x ∷ us) u w m e = ground (arith, touches_to rows us u w)

module _ (meet : ℕ → ℕ → ℕ → MeetingNode) (other : Dict ℕ (ℕ × ℕ)) (d : ℕ)
    (rows : List (List ℕ)) where
  pub dist_of-scan_level :
      (us : List ℕ) (s : Side) (m : Meeting) (w : ℕ)
      → dist_of (scan_level meet other d rows us (s, m)).0 w
        ≡ or_set (dist_of s w) (touches rows us w) d
  unfolding scan_level
  dist_of-scan_level [] s m w = ground arith
  dist_of-scan_level (u ∷ us) s m w =
      let p = paths_of meet other d s u in
      let next = scan_neighbors meet other d p (row rows u) (s, m) in
      ground (
        arith,
        dist_of-scan_level us next.0 next.1 w,
        dist_of-scan_neighbors meet other d p (row rows u) s m w,
      )

  pub member-scan_level :
      (us : List ℕ) (s : Side) (m : Meeting) (w : ℕ)
      → member w (scan_level meet other d rows us (s, m)).0.next
        ≡ (member w s.next || touches rows us w && not (is_some (dist_of s w)))
  unfolding scan_level
  member-scan_level [] s m w = ground arith
  member-scan_level (u ∷ us) s m w =
      let p = paths_of meet other d s u in
      let next = scan_neighbors meet other d p (row rows u) (s, m) in
      ground (
        arith,
        member-scan_level us next.0 next.1 w,
        member-scan_neighbors meet other d p (row rows u) s m w,
        dist_of-scan_neighbors meet other d p (row rows u) s m w,
      )

  pub scan_level_mono :
      (us : List ℕ) (s : Side) (m : Meeting) (k : ℕ)
      → AtMost m.best_distance k
      → AtMost (scan_level meet other d rows us (s, m)).1.best_distance k
  unfolding scan_level
  scan_level_mono [] s m k h = h
  scan_level_mono (u ∷ us) s m k h =
      let p = paths_of meet other d s u in
      let next = scan_neighbors meet other d p (row rows u) (s, m) in
      scan_level_mono us next.0 next.1 k (scan_neighbors_mono meet other d p (row rows u) s m k h)

  pub scan_level_hit :
      (us : List ℕ) (s : Side) (m : Meeting) (k t w : ℕ)
      → touches rows us w ≡ true
      → first_of (lookup w other) ≡ some t
      → d + t ≤ k
      → AtMost (scan_level meet other d rows us (s, m)).1.best_distance k
  unfolding scan_level
  scan_level_hit [] s m k t w e f h = cc
  scan_level_hit (u ∷ us) s m k t w e f h =
      let p = paths_of meet other d s u in
      let next = scan_neighbors meet other d p (row rows u) (s, m) in
      elim (Bool-cases (member w (row rows u))) [
        | inl here ↦
            scan_level_mono us next.0 next.1 k
              (scan_neighbors_hit meet other d p (row rows u) s m k t w here f h)
        | inr there ↦ scan_level_hit us next.0 next.1 k t w (ground arith) f h
      ]

  pub scan_level_sound :
      (us : List ℕ) (s : Side) (m : Meeting) (k : ℕ)
      → (scan_level meet other d rows us (s, m)).1.best_distance ≡ some k
      → (m.best_distance ≡ some k)
        ⊎ ((w : ℕ) × (t : ℕ) × (touches rows us w ≡ true)
            × (first_of (lookup w other) ≡ some t)
            × (k ≡ d + t))
  unfolding scan_level
  scan_level_sound [] s m k h = inl h
  scan_level_sound (u ∷ us) s m k h =
      let p = paths_of meet other d s u in
      let next = scan_neighbors meet other d p (row rows u) (s, m) in
      elim (scan_level_sound us next.0 next.1 k h) [
        | inl first ↦ elim (scan_neighbors_sound meet other d p (row rows u) s m k first) [
          | inl old ↦ inl old
          | inr (w, t, e, f, q) ↦ inr (w, t, ground arith, f, q)
        ]
        | inr (w, t, e, f, q) ↦ inr (w, t, ground arith, f, q)
      ]
