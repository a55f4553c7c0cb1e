-- ===== src/Graph/Bfs/Walk.antt =====
-- Walks of the follow graph: the independent notion of distance.
use nostr_wot_oracle.Prelude.{ℕ, zero, suc, ◌+◌, ◌≡◌, sym, List, true, arith, refl, ◌∙◌}
use mathlib.Core.Path.{subst}
use nostr_wot_oracle.Prelude.Sorted.{member}
use nostr_wot_oracle.Graph.Adjacency.{row}

-- A walk of `n` edges from `a` to `b`.
abbrev pub Walk : List (List ℕ) → ℕ → ℕ → ℕ → Type 0
Walk rows a zero b = a ≡ b
Walk rows a (suc n) b = (c : ℕ) × Walk rows a n c × (member b (row rows c) ≡ true)

module _ (rows : List (List ℕ)) where
  pub Walk-prepend :
      (k a c b : ℕ) → member c (row rows a) ≡ true → Walk rows c k b → Walk rows a (suc k) b
  Walk-prepend zero a c b e w = (a, refl, subst (λ x. member x (row rows a) ≡ true) w e)
  Walk-prepend (suc k) a c b e w = (w.0, Walk-prepend k a c w.0 e w.1, w.2)

  pub Walk-concat :
      (n m k a v b : ℕ) → k ≡ m + n → Walk rows a n v → Walk rows v m b → Walk rows a k b
  Walk-concat n zero k a v b e w x =
      let same : n ≡ k = omega arith in
      subst (λ (y : ℕ). Walk rows a k y) x (subst (λ (y : ℕ). Walk rows a y v) same w)
  Walk-concat n (suc m) zero a v b e w x = absurd (omega arith)
  Walk-concat n (suc m) (suc k) a v b e w x =
      (x.0, Walk-concat n m k a v x.0 (omega arith) w x.1, x.2)

  pub Walk-split :
      (n m k a b : ℕ) → k ≡ m + n → Walk rows a k b → (v : ℕ) × Walk rows a n v × Walk rows v m b
  Walk-split n zero k a b e w =
      let same : k ≡ n = omega arith in (b, subst (λ (y : ℕ). Walk rows a y b) same w, refl)
  Walk-split n (suc m) zero a b e w = absurd (omega arith)
  Walk-split n (suc m) (suc k) a b e w =
      let (v, first, second) = Walk-split n m k a w.0 (omega arith) w.1 in
      (v, first, (w.0, second, w.2))

-- In the mirror image of the graph the walks run backwards.
pub Walk-reverse :
    (rows back : List (List ℕ))
    → ((a b : ℕ) → member b (row rows a) ≡ member a (row back b))
    → (k a b : ℕ) → Walk back b k a
    → Walk rows a k b
Walk-reverse rows back mirror zero a b w = sym w
Walk-reverse rows back mirror (suc k) a b w =
    Walk-prepend rows k a w.0 b (mirror a w.0 ∙ w.2) (Walk-reverse rows back mirror k w.0 b w.1)
