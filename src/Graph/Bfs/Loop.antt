-- ===== src/Graph/Bfs/Loop.antt =====
-- The search loop: what it has found when it stops.
use nostr_wot_oracle.Prelude.{
  ℕ, zero, suc, ◌+◌, ◌≤◌, ◌≡◌, ◌≢◌, List, true, false, Option, none, some, nat_eq, arith, sym, inl,
  inr, Bool-cases, leb, is_empty, length, if◌then◌else◌,
}
use nostr_wot_oracle.Graph.Bfs.Types.{BfsState}
use nostr_wot_oracle.Graph.Bfs.Walk.{Walk, Walk-reverse}
use nostr_wot_oracle.Graph.Bfs.Search.{
  start_state, round, expand_forward, expand_backward, search_loop, stops, settled, meet_forward,
  meet_backward,
}
use nostr_wot_oracle.Graph.Bfs.Search.Level.{AtMost}
use nostr_wot_oracle.Graph.Bfs.Reach.{Reach, start-Reach, expand-Reach}
use nostr_wot_oracle.Graph.Bfs.Meet.{Mirror, Met, Met-reverse, grow-Met, exhausted}

-- Both directions are exact up to their depths, and so is the best meeting up to the sum.
pub record Searched (follows followers : List (List ℕ)) (a b : ℕ) (s : BfsState) : Type 0 where
  pub forward : Reach follows a s.fwd_dist s.fwd
  pub backward : Reach followers b s.bwd_dist s.bwd
  pub met : Met follows a b (s.fwd_dist + s.bwd_dist) s.meeting.best_distance

module _ (follows followers : List (List ℕ)) (mirror : Mirror follows followers) (a b : ℕ) where
  start-Searched : a ≢ b → Searched follows followers a b (start_state a b)
  start-Searched differ = record {
    forward = start-Reach follows a;
    backward = start-Reach followers b;
    met = record { sound = λ t h. absurd (ground arith); complete = no_walk };
  }
    where
      no_walk : (k : ℕ) → k ≤ 0 → Walk follows a k b → AtMost none k
      no_walk zero h w = absurd (differ w)
      no_walk (suc k) h w = absurd (omega arith)

  forward-Searched :
      (s : BfsState)
      → Searched follows followers a b s
      → Searched follows followers a b (expand_forward follows s)
  unfolding expand_forward
  forward-Searched s r = record {
    forward =
        expand-Reach meet_forward s.bwd.visited follows a s.fwd_dist s.fwd s.meeting r.forward;
    backward = r.backward;
    met =
        grow-Met follows followers mirror a b s.fwd_dist s.bwd_dist s.fwd s.bwd s.meeting r.forward
          r.backward r.met meet_forward;
  }

  backward-Searched :
      (s : BfsState)
      → Searched follows followers a b s
      → Searched follows followers a b (expand_backward followers s)
  unfolding expand_backward
  backward-Searched s r =
      let back : Mirror followers follows = λ x y. sym (mirror y x) in
      record {
        forward = r.forward;
        backward =
            expand-Reach meet_backward s.fwd.visited followers b s.bwd_dist s.bwd s.meeting
              r.backward;
        met =
            Met-reverse followers follows b a (s.bwd_dist + 1 + s.fwd_dist)
              (s.fwd_dist + (s.bwd_dist + 1)) _ back (omega arith)
              (grow-Met followers follows back b a s.bwd_dist s.fwd_dist s.bwd s.fwd s.meeting
                r.backward r.forward
                (Met-reverse follows followers a b (s.fwd_dist + s.bwd_dist)
                  (s.bwd_dist + s.fwd_dist) s.meeting.best_distance mirror (omega arith) r.met)
                meet_backward);
      }

  round-Searched :
      (s : BfsState)
      → Searched follows followers a b s
      → Searched follows followers a b (round follows followers s)
  unfolding round
  round-Searched s r =
      elim (leb (length s.fwd.current) (length s.bwd.current))
        as (λ c.
          Searched follows followers a b
            (if c then expand_forward follows s else expand_backward followers s)) [
              | true ↦ forward-Searched s r
              | false ↦ backward-Searched s r
            ]

  -- A round deepens one side by one.
  round-depth :
      (s : BfsState)
      → (round follows followers s).fwd_dist + (round follows followers s).bwd_dist
        ≡ s.fwd_dist + s.bwd_dist + 1
  unfolding round expand_forward expand_backward
  round-depth s = elim (Bool-cases (leb (length s.fwd.current) (length s.bwd.current))) [
    | inl e ↦ rw e (omega arith)
    | inr e ↦ rw e (omega arith)
  ]

  settled_complete :
      (n t : ℕ) (best : Option ℕ)
      → Met follows a b n best
      → settled n best ≡ true
      → (k : ℕ) → Walk follows a k b
      → AtMost best k
  settled_complete n t none met h k w = cc
  settled_complete n t (some x) met h k w = elim (Bool-cases (leb k n)) [
    | inl small ↦ met.complete k (ground arith) w
    | inr large ↦ ground arith
  ]

  -- When the loop stops, no walk within the limit is shorter than the best meeting.
  stop-Met :
      (s : BfsState) (max_hops : ℕ)
      → Searched follows followers a b s
      → stops max_hops s ≡ true
      → Met follows a b max_hops s.meeting.best_distance
  stop-Met s max_hops r h = record { sound = r.met.sound; complete = complete }
    where
      back : Mirror followers follows
      back x y = sym (mirror y x)

      complete : (k : ℕ) → k ≤ max_hops → Walk follows a k b → AtMost s.meeting.best_distance k
      complete k le w = elim (Bool-cases (is_empty s.fwd.current)) [
        | inl empty ↦
            exhausted follows followers mirror a b s.fwd_dist s.bwd_dist s.fwd s.bwd s.meeting
              r.forward r.backward r.met empty k k (omega arith) w
        | inr x ↦ elim (Bool-cases (is_empty s.bwd.current)) [
          | inl empty ↦
              exhausted followers follows back b a s.bwd_dist s.fwd_dist s.bwd s.fwd s.meeting
                r.backward r.forward
                (Met-reverse follows followers a b (s.fwd_dist + s.bwd_dist)
                  (s.bwd_dist + s.fwd_dist) s.meeting.best_distance mirror (omega arith) r.met)
                empty k k (omega arith) (Walk-reverse followers follows back k b a w)
          | inr y ↦ elim (Bool-cases (settled (s.fwd_dist + s.bwd_dist) s.meeting.best_distance)) [
            | inl done ↦ settled_complete (s.fwd_dist + s.bwd_dist) 0 _ r.met done k w
            | inr z ↦ r.met.complete k (ground arith) w
          ]
        ]
      ]

  loop-Met :
      (fuel max_hops : ℕ) (s : BfsState)
      → max_hops ≤ fuel + (s.fwd_dist + s.bwd_dist)
      → Searched follows followers a b s
      → Met follows a b max_hops
          (search_loop fuel max_hops follows followers s).meeting.best_distance
  unfolding search_loop
  loop-Met zero max_hops s enough r = stop-Met s max_hops r (ground arith)
  loop-Met (suc fuel) max_hops s enough r =
      let next = round follows followers s in
      let rest = loop-Met fuel max_hops next (omega (arith, round-depth s)) (round-Searched s r) in
      elim (Bool-cases (stops max_hops s)) [
        | inl e ↦ rw e (stop-Met s max_hops r e)
        | inr e ↦ rw e rest
      ]

  -- The fuel that the search is given is enough.
  pub search-Met :
      (max_hops : ℕ)
      → a ≢ b
      → Met follows a b max_hops
          (search_loop max_hops max_hops follows followers (start_state a b)).meeting.best_distance
  search-Met max_hops differ =
      loop-Met max_hops max_hops (start_state a b) (omega arith) (start-Searched differ)
