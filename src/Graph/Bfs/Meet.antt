-- ===== src/Graph/Bfs/Meet.antt =====
-- The invariant of the best meeting of the two directions of the search in src/graph/bfs.rs.
use nostr_wot_oracle.Prelude.{
  ℕ, zero, suc, ◌+◌, ◌-◌, ◌≤◌, ◌<◌, ◌≡◌, List, true, Option, none, some, arith, refl, sym, inl, inr,
  Bool-cases, nat_eq, leb, is_empty,
}
use nostr_wot_oracle.Prelude.Sorted.{member}
use nostr_wot_oracle.Graph.Adjacency.{row}
use nostr_wot_oracle.Graph.Bfs.Types.{Side, MeetingNode, Meeting}
use nostr_wot_oracle.Graph.Bfs.Walk.{Walk, Walk-concat, Walk-split, Walk-reverse}
use nostr_wot_oracle.Graph.Bfs.Search.{expand}
use nostr_wot_oracle.Graph.Bfs.Search.Level.{dist_of, AtMost}
use nostr_wot_oracle.Graph.Bfs.Search.Sweep.{
  touches, touches_to, scan_level_mono, scan_level_hit, scan_level_sound,
}
use nostr_wot_oracle.Graph.Bfs.Reach.{Reach, touched-Walk, closer_or_frontier, AtMost-mono}

abbrev pub Mirror : List (List ℕ) → List (List ℕ) → Type 0
Mirror rows back = (a b : ℕ) → member b (row rows a) ≡ member a (row back b)

-- The best distance is the length of a walk, and no walk of at most `n` edges is shorter.
pub record Met (rows : List (List ℕ)) (a b n : ℕ) (best : Option ℕ) : Type 0 where
  pub sound : (t : ℕ) → best ≡ some t → Walk rows a t b
  pub complete : (k : ℕ) → k ≤ n → Walk rows a k b → AtMost best k

pub Met-reverse :
    (rows back : List (List ℕ)) (a b n m : ℕ) (best : Option ℕ)
    → Mirror rows back
    → m ≡ n
    → Met rows a b n best
    → Met back b a m best
Met-reverse rows back a b n m best mirror e r = record {
  sound = λ t h. Walk-reverse back rows (λ x y. sym (mirror y x)) t b a (r.sound t h);
  complete = λ k h w. r.complete k (omega arith) (Walk-reverse rows back mirror k a b w);
}

module _ (rows back : List (List ℕ)) (mirror : Mirror rows back) (a b d e : ℕ) (s o : Side)
    (m : Meeting) (r : Reach rows a d s) (q : Reach back b e o)
    (met : Met rows a b (d + e) m.best_distance) where
  module _ (meet : ℕ → ℕ → ℕ → MeetingNode) where
    abbrev m' : Meeting
    m' = (expand meet o.visited (d + 1) rows s m).1

    grow_sound : (t : ℕ) → m'.best_distance ≡ some t → Walk rows a t b
    unfolding expand
    grow_sound t h = elim (scan_level_sound meet o.visited (d + 1) rows s.current s m t h) [
      | inl old ↦ met.sound t old
      | inr (w, x, hit, f, total) ↦
          Walk-concat rows (suc d) x t a w b (omega arith)
            (touched-Walk meet o.visited rows a d s m r w hit)
            (Walk-reverse rows back mirror x w b (q.sound w x f))
    ]

    grow_mono : (k : ℕ) → AtMost m.best_distance k → AtMost m'.best_distance k
    unfolding expand
    grow_mono k h = scan_level_mono meet o.visited (d + 1) rows s.current s m k h

    grow_hit :
        (k v : ℕ) (x : Option ℕ)
        → k ≡ e + suc d
        → touches rows s.current v ≡ true
        → dist_of o v ≡ x
        → AtMost x e
        → AtMost m'.best_distance k
    unfolding expand
    grow_hit k v none eq t f h = absurd h
    grow_hit k v (some x) eq t f h =
        scan_level_hit meet o.visited (d + 1) rows s.current s m k x v t f (omega arith)

    -- A walk one edge longer than before is met at the new level, or there is a shorter one.
    grow_last : (k : ℕ) → k ≡ e + suc d → Walk rows a k b → AtMost m'.best_distance k
    grow_last k eq w =
        let (v, (c, first, edge), second) = Walk-split rows (suc d) e k a b eq w in
        elim (closer_or_frontier rows a d c s r first) [
          | inr here ↦
              grow_hit k v (dist_of o v) eq (touches_to rows s.current c v here edge) refl (
                q.complete v e (omega arith)
                  (Walk-reverse back rows (λ x y. sym (mirror y x)) e b v second))
          | inl (j, shorter, less) ↦
              let n : ℕ = e + suc j in
              grow_mono k (
                AtMost-mono m.best_distance n k (omega arith) (
                  met.complete n (omega arith)
                    (Walk-concat rows (suc j) e n a v b refl (c, shorter, edge) second)))
        ]

    pub grow-Met : Met rows a b (d + 1 + e) m'.best_distance
    grow-Met = record {
      sound = grow_sound;
      complete = λ k h w. elim (Bool-cases (leb k (d + e))) [
        | inl small ↦ grow_mono k (met.complete k (ground arith) w)
        | inr large ↦ grow_last k (ground arith) w
      ];
    }

  -- With an empty frontier a walk beyond the depths has a shorter one beside it,
  shorten :
      (k : ℕ)
      → is_empty s.current ≡ true
      → d + e < k
      → Walk rows a k b
      → (n : ℕ) × (n < k) × Walk rows a n b
  shorten k empty large w =
      let rest : ℕ = k - d in
      let (c, first, second) = Walk-split rows d rest k a b (omega arith) w in
      elim (closer_or_frontier rows a d c s r first) [
        | inr here ↦ absurd (ground arith)
        | inl (j, shorter, less) ↦
            (rest + j, omega arith, Walk-concat rows j rest (rest + j) a c b refl shorter second)
      ]

  -- so every walk has been met.
  pub exhausted :
      is_empty s.current ≡ true
      → (fuel k : ℕ) → k ≤ fuel
      → Walk rows a k b
      → AtMost m.best_distance k
  exhausted empty zero k h w = met.complete k (omega arith) w
  exhausted empty (suc fuel) k h w = elim (Bool-cases (leb k (d + e))) [
    | inl small ↦ met.complete k (ground arith) w
    | inr large ↦
        let (n, less, walk) = shorten k empty (ground arith) w in
        AtMost-mono m.best_distance n k (omega arith) (exhausted empty fuel n (omega arith) walk)
  ]
