-- ===== src/Graph/Bfs/Reach.antt =====
-- The invariant of one direction of the search in src/graph/bfs.rs.
use nostr_wot_oracle.Prelude.{
  ℕ, zero, suc, ◌+◌, ◌≤◌, ◌<◌, ◌≡◌, ◌⊎◌, List, [], Bool, true, false, not, ◌&&◌, ◌||◌, Option, none,
  some, arith, refl, sym, inl, inr, Bool-cases, is_some, nat_eq, ◌==◌, ◌∙◌, ap,
}
use mathlib.Core.Path.{subst}
use nostr_wot_oracle.Prelude.Dict.{Dict, lookup}
use nostr_wot_oracle.Prelude.Sorted.{member}
use nostr_wot_oracle.Graph.Bfs.Types.{Side, MeetingNode, Meeting}
use nostr_wot_oracle.Graph.Bfs.Walk.{Walk}
use nostr_wot_oracle.Graph.Bfs.Search.{expand, start_side}
use nostr_wot_oracle.Graph.Bfs.Search.Level.{dist_of, AtMost, or_set}
use nostr_wot_oracle.Graph.Bfs.Search.Sweep.{
  touches, touches_from, touches_to, dist_of-scan_level, member-scan_level,
}

-- Recorded distances are lengths of walks from `a` up to the depth `d`, no walk of such a length is
-- missed, and the frontier holds the nodes at the depth itself.
pub record Reach (rows : List (List ℕ)) (a d : ℕ) (s : Side) : Type 0 where
  pub sound : (v k : ℕ) → dist_of s v ≡ some k → Walk rows a k v
  pub within : (v k : ℕ) → dist_of s v ≡ some k → k ≤ d
  pub complete : (v k : ℕ) → k ≤ d → Walk rows a k v → AtMost (dist_of s v) k
  pub frontier : (v : ℕ) → dist_of s v ≡ some d → member v s.current ≡ true
  pub level : (v : ℕ) → member v s.current ≡ true → dist_of s v ≡ some d
  pub cleared : s.next ≡ []

pub start-Reach : (rows : List (List ℕ)) (a : ℕ) → Reach rows a 0 (start_side a)
unfolding lookup
start-Reach rows a = record {
  sound = λ v k h. start_sound v k h;
  within = λ v k h. ground arith;
  complete = λ v k h w. start_complete v k h w;
  frontier = λ v h. ground arith;
  level = λ v h. ground arith;
  cleared = refl;
}
  where
    start_sound : (v k : ℕ) → dist_of (start_side a) v ≡ some k → Walk rows a k v
    start_sound v zero h = ground arith
    start_sound v (suc k) h = absurd (ground arith)

    start_complete : (v k : ℕ) → k ≤ 0 → Walk rows a k v → AtMost (dist_of (start_side a) v) k
    start_complete v zero h w = ground arith
    start_complete v (suc k) h w = absurd (omega arith)

-- A node at the end of a walk of length `d` is closer, or on the frontier.
pub closer_or_frontier :
    (rows : List (List ℕ)) (a d c : ℕ) (s : Side)
    → Reach rows a d s
    → Walk rows a d c
    → ((k : ℕ) × Walk rows a k c × (k < d)) ⊎ (member c s.current ≡ true)
closer_or_frontier rows a d c s r w = go (dist_of s c) refl (r.complete c d (omega arith) w)
  where
    go :
        (o : Option ℕ)
        → dist_of s c ≡ o
        → AtMost o d
        → ((k : ℕ) × Walk rows a k c × (k < d)) ⊎ (member c s.current ≡ true)
    go none e h = absurd h
    go (some k) e h = elim (Bool-cases (k == d)) [
      | inl same ↦ let at_depth : k ≡ d = ground arith in inr (r.frontier c (e ∙ ap some at_depth))
      | inr differ ↦ inl (k, r.sound c k e, ground arith)
    ]

pub AtMost-mono : (o : Option ℕ) (k m : ℕ) → k ≤ m → AtMost o k → AtMost o m
AtMost-mono none k m h q = q
AtMost-mono (some t) k m h q = omega arith

AtMost-or_set : (o : Option ℕ) (b : Bool) (d k : ℕ) → AtMost o k → AtMost (or_set o b d) k
AtMost-or_set none b d k h = absurd h
AtMost-or_set (some t) b d k h = h

AtMost-set : (o : Option ℕ) (d : ℕ) → ((k : ℕ) → o ≡ some k → k ≤ d) → AtMost (or_set o true d) d
AtMost-set none d h = ground arith
AtMost-set (some t) d h = h t refl

module _ (meet : ℕ → ℕ → ℕ → MeetingNode) (other : Dict ℕ (ℕ × ℕ)) (rows : List (List ℕ)) (a d : ℕ)
    (s : Side) (m : Meeting) (r : Reach rows a d s) where
  abbrev s' : Side
  s' = (expand meet other (d + 1) rows s m).0

  dist' : (v : ℕ) → dist_of s' v ≡ or_set (dist_of s v) (touches rows s.current v) (d + 1)
  unfolding expand
  dist' v = dist_of-scan_level meet other (d + 1) rows s.current s m v

  member' :
      (v : ℕ) → member v s'.current ≡ (touches rows s.current v && not (is_some (dist_of s v)))
  unfolding expand
  member' v =
      member-scan_level meet other (d + 1) rows s.current s m v
      ∙ ap (λ xs. member v xs || (touches rows s.current v && not (is_some (dist_of s v))))
          r.cleared

  -- A touched node is one step behind the frontier.
  pub touched-Walk : (v : ℕ) → touches rows s.current v ≡ true → Walk rows a (suc d) v
  touched-Walk v h =
      let (u, m', e) = touches_from rows s.current v h in (u, r.sound u d (r.level u m'), e)

  expand_sound :
      (v k : ℕ) (o : Option ℕ) (b : Bool)
      → dist_of s v ≡ o
      → touches rows s.current v ≡ b
      → or_set o b (d + 1) ≡ some k
      → Walk rows a k v × (k ≤ d + 1)
  expand_sound v k none true e t h =
      let same : suc d ≡ k = ground arith in
      (subst (λ x. Walk rows a x v) same (touched-Walk v t), omega arith)
  expand_sound v k none false e t h = cc
  expand_sound v k (some j) b e t h = (r.sound v k (e ∙ h), omega (arith, r.within v k (e ∙ h)))

  expand_complete : (v k : ℕ) → k ≤ d + 1 → Walk rows a k v → AtMost (dist_of s' v) k
  expand_complete v k h w = rw (dist' v) (elim (Bool-cases (k == d + 1)) [
    | inr differ ↦
        AtMost-or_set (dist_of s v) (touches rows s.current v) (d + 1) k
          (r.complete v k (ground arith) w)
    | inl same ↦
        let last : k ≡ suc d = ground arith in
        subst (λ x. AtMost (or_set (dist_of s v) (touches rows s.current v) (d + 1)) x) (sym last)
          (last_step v (subst (λ x. Walk rows a x v) last w))
  ])
    where
      last_step :
          (v : ℕ)
          → Walk rows a (suc d) v
          → AtMost (or_set (dist_of s v) (touches rows s.current v) (d + 1)) (suc d)
      last_step v (c, w, e) = elim (closer_or_frontier rows a d c s r w) [
        | inr here ↦ rw (touches_to rows s.current c v here e) (
            AtMost-mono _ (d + 1) (suc d) (omega arith)
              (AtMost-set (dist_of s v) (d + 1) (λ j q. omega (arith, r.within v j q))))
        | inl (j, shorter, less) ↦ AtMost-mono _ (suc j) (suc d) (omega arith) (
            AtMost-or_set (dist_of s v) (touches rows s.current v) (d + 1) (suc j)
              (r.complete v (suc j) (omega arith) (c, shorter, e)))
      ]

  pub expand-Reach : Reach rows a (d + 1) s'
  expand-Reach = record {
    sound = λ v k h.
        (expand_sound v k (dist_of s v) (touches rows s.current v) refl refl (sym (dist' v) ∙ h)).0;
    within = λ v k h.
        (expand_sound v k (dist_of s v) (touches rows s.current v) refl refl (sym (dist' v) ∙ h)).1;
    complete = expand_complete;
    frontier = λ v h. ground (arith, dist' v, member' v, r.within v (d + 1));
    level = λ v h. ground (arith, dist' v, member' v);
    cleared = unfold expand in refl;
  }
