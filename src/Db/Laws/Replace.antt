-- ===== src/Db/Laws/Replace.antt =====
-- `update_lists_batch` of src/db/sqlite.rs for one author: its insertions and the author's links.
use mathlib.Core.Path.{subst}
use nostr_wot_oracle.Prelude.{
  ◌∙◌, ℕ, ◌≡◌, List, [], ◌∷◌, Bool, true, false, not, ◌&&◌, ◌||◌, none, some, arith, if◌then◌else◌,
  inl, inr, is_some, ◌==◌, Bool-cases, Option-cases, refl,
}
use nostr_wot_oracle.Prelude.Int.{ℤ}
use nostr_wot_oracle.Prelude.Str.{Str, str_eq, str_eq_iff, str_key, contains}
use nostr_wot_oracle.Prelude.Dict.{Dict, lookup, insert, lookup-insert, DistinctKeys}
use nostr_wot_oracle.Db.Tables.{
  NodeRow, Rowids, id_of, has_pair, insert_node, insert_edge, old_edges,
}
use nostr_wot_oracle.Db.Batch.{
  Links, Hashing, Nodup, resolve, insert_target, insert_loop, delete_loop, replace_edges,
}
use nostr_wot_oracle.Db.View.{Unique, Known, KnownEdges, linked, node_version}
use nostr_wot_oracle.Db.Laws.Nodes.{
  Grows, Grows-refl, Grows-trans, Grows-KnownEdges, Grows-linked, Adds-Unique, Adds-Grows,
  insert_node-Adds, insert_node-DistinctKeys, insert_node-version,
}
use nostr_wot_oracle.Db.Laws.Edges.{is_some-previous, linked-delete_loop, KnownEdges-delete_loop}

-- The constraints, and a cache of ids that agrees with the table.
pub record Sound (s : Links) : Type 0 where
  pub distinct : DistinctKeys s.nodes
  pub unique : Unique s.nodes
  pub edge_ids : KnownEdges s.nodes s.edges
  pub cached : (p : Str) (i : ℕ) → lookup p s.node_ids ≡ some i → id_of s.nodes p ≡ some i

-- The rows of `nodes` after a step: more of them, with the versions they had.
pub record Later (nodes nodes' : Dict Str NodeRow) : Type 0 where
  pub grows : Grows nodes nodes'
  pub versions : (p : Str) → node_version (lookup p nodes') ≡ node_version (lookup p nodes)

Later-refl : (nodes : Dict Str NodeRow) → Later nodes nodes
Later-refl nodes = record { grows = Grows-refl nodes; versions = λ p. refl }

Later-trans : (l m n : Dict Str NodeRow) → Later l m → Later m n → Later l n
Later-trans l m n g h = record {
  grows = Grows-trans l m n g.grows h.grows;
  versions = λ p. h.versions p ∙ g.versions p;
}

-- What one step of the insertions gives.
pub record Reached (s s' : Links) : Type 0 where
  pub sound : Sound s'
  pub later : Later s.nodes s'.nodes

linked-insert :
    (nodes : Dict Str NodeRow) (es : List (ℕ × ℕ)) (p q : Str) (a b : ℕ)
    → Unique nodes
    → id_of nodes p ≡ some a
    → id_of nodes q ≡ some b
    → (r t : Str)
    → linked nodes ((a, b) ∷ es) r t ≡ linked nodes es r t || (str_eq p r && str_eq q t)
linked-insert nodes es p q a b unique hp hq r t = elim (Option-cases (id_of nodes r)) [
  | inl x ↦ ground (arith, str_eq_iff p r)
  | inr (i, x) ↦ elim (Option-cases (id_of nodes t)) [
    | inl y ↦ ground (arith, str_eq_iff q t)
    | inr (j, y) ↦
        rw (x, y) (ground (arith, str_eq_iff p r, str_eq_iff q t, unique p r a, unique q t b))
  ]
]

KnownEdges-insert :
    (nodes : Dict Str NodeRow) (es : List (ℕ × ℕ)) (a b : ℕ)
    → KnownEdges nodes es
    → Known nodes a
    → Known nodes b
    → KnownEdges nodes ((a, b) ∷ es)
KnownEdges-insert nodes es a b known ka kb i j h = elim (Bool-cases ((a == i) && (b == j))) [
  | inl same ↦
      let ea : a ≡ i = ground arith in
      let eb : b ≡ j = ground arith in (subst (Known nodes) ea ka, subst (Known nodes) eb kb)
  | inr other ↦ known i j (ground arith)
]

module _ (rowids : Rowids) (now : ℤ) where
  insert_node-Later :
      (p : Str) (nodes : Dict Str NodeRow)
      → Unique nodes
      → Later nodes (insert_node rowids now p nodes)
  insert_node-Later p nodes u = record {
    grows =
        Adds-Grows rowids p nodes (insert_node rowids now p nodes)
          (insert_node-Adds rowids now p nodes) u;
    versions = λ q. insert_node-version rowids now p q nodes;
  }

  -- The target has a row afterwards, and its id is the answer.
  abbrev Resolved : Str → Links → Links × ℕ → Type 0
  Resolved p s r = Reached s r.0 × (r.0.edges ≡ s.edges) × (id_of r.0.nodes p ≡ some r.1)

  resolve_lem :
      (p : Str) (s : Links)
      → Sound s
      → (r : Links × ℕ) × (resolve rowids now p s ≡ some r) × Resolved p s r
  unfolding resolve
  resolve_lem p s ok = elim (Option-cases (lookup p s.node_ids)) [
    | inr (i, hit) ↦ (
      (s, i),
      rw (hit, resolve) refl,
      (record { sound = ok; later = Later-refl s.nodes }, refl, ok.cached p i hit),
    )
    | inl miss ↦
        let nodes = insert_node rowids now p s.nodes in
        let adds = insert_node-Adds rowids now p s.nodes in
        let later = insert_node-Later p s.nodes ok.unique in
        elim (Option-cases (id_of nodes p)) [
          | inl x ↦ absurd (ground (arith, adds p, str_eq_iff p p))
          | inr (i, x) ↦ (
            (record s { nodes = nodes; node_ids = insert p i s.node_ids }, i),
            ground (arith, miss, x),
            (
              record {
                sound = record {
                  distinct = insert_node-DistinctKeys rowids now p s.nodes ok.distinct;
                  unique = Adds-Unique rowids p s.nodes nodes adds ok.unique;
                  edge_ids = Grows-KnownEdges s.nodes nodes later.grows s.edges ok.edge_ids;
                  cached = λ q j h. ground (
                    arith,
                    lookup-insert p q i s.node_ids,
                    str_eq_iff p q,
                    ok.cached q j,
                    later.grows.keeps q j,
                  );
                };
                later = later;
              },
              refl,
              x,
            ),
          )
        ]
  ]

  module _ (author : Str) (f : ℕ) where
    -- The author's links to a list of names are there as well.
    abbrev More : (Str → Bool) → Links → Links → Type 0
    More new s s' =
        (p q : Str)
        → linked s'.nodes s'.edges p q ≡ linked s.nodes s.edges p q || (str_eq author p && new q)

    insert_target_lem :
        (p : Str) (s : Links)
        → Sound s
        → id_of s.nodes author ≡ some f
        → linked s.nodes s.edges author p ≡ false
        → (s' : Links) × (insert_target rowids now f p s ≡ some s')
          × Reached s s'
          × More (str_eq p) s s'
    unfolding insert_target insert_edge
    insert_target_lem p s ok id new =
        let (r, found, (step, same, target)) = resolve_lem p s ok in
        let s1 = r.0 in
        let follower = step.later.grows.keeps author f id in
        let old = Grows-linked s.nodes s1.nodes step.later.grows s.edges author p ok.edge_ids in
        let absent : has_pair f r.1 s1.edges ≡ false = ground arith in
        (
          record s1 { edges = (f, r.1) ∷ s1.edges },
          rw (found, insert_target) (rw (absent, insert_edge) refl),
          record {
            sound = record {
              distinct = step.sound.distinct;
              unique = step.sound.unique;
              cached = step.sound.cached;
              edge_ids =
                  KnownEdges-insert s1.nodes s1.edges f r.1 step.sound.edge_ids (author, follower)
                    (p, target);
            };
            later = step.later;
          },
          λ q t. ground (
            arith,
            linked-insert s1.nodes s1.edges author p f r.1 step.sound.unique follower target q t,
            Grows-linked s.nodes s1.nodes step.later.grows s.edges q t ok.edge_ids,
          ),
        )

    insert_loop_lem :
        (previous : Dict Str ℕ) (ps : List Str) (s : Links)
        → Sound s
        → id_of s.nodes author ≡ some f
        → Nodup ps
        → ((p : Str)
            → contains p ps ≡ true
            → lookup p previous ≡ none
            → linked s.nodes s.edges author p ≡ false)
        → (s' : Links) × (insert_loop rowids now f previous ps s ≡ some s')
          × Reached s s'
          × More (λ q. contains q ps && not (is_some (lookup q previous))) s s'
    unfolding insert_loop
    insert_loop_lem previous [] s ok id nodup new =
        (s, refl, record { sound = ok; later = Later-refl s.nodes }, λ q t. ground arith)
    insert_loop_lem previous (p ∷ ps) s ok id nodup new = elim (Option-cases (lookup p previous)) [
      | inr (i, present) ↦
          let (s', run, reached, more) =
            insert_loop_lem previous ps s ok id nodup.1
              (λ q c. new q (ground (arith, str_eq_iff p q))) in
          (
            s',
            rw (present, insert_loop) run,
            reached,
            λ q t. ground (arith, more q t, str_eq_iff p t),
          )
      | inl missing ↦
          let (s1, step, r1, more1) =
            insert_target_lem p s ok id (new p (ground (arith, str_eq_iff p p)) missing) in
          let (s', run, r2, more2) =
            insert_loop_lem previous ps s1 r1.sound (r1.later.grows.keeps author f id) nodup.1
              (λ q c h. ground (arith, new q, more1 author q, str_eq_iff p q, nodup.0)) in
          (
            s',
            rw (missing, step, insert_loop) run,
            record {
              sound = r2.sound;
              later = Later-trans s.nodes s1.nodes s'.nodes r1.later r2.later;
            },
            λ q t. ground (arith, more1 q t, more2 q t, str_eq_iff p t),
          )
    ]

    -- The author's edges become the desired ones, and the others stay.
    pub replace_edges_lem :
        (hashing : Hashing) (follows : List Str) (s : Links)
        → Sound s
        → id_of s.nodes author ≡ some f
        → (s' : Links) × (replace_edges rowids now hashing f follows s ≡ some s')
          × Reached s s'
          × ((p q : Str)
              → linked s'.nodes s'.edges p q
                ≡ (if str_eq author p then contains q follows else linked s.nodes s.edges p q))
    unfolding replace_edges
    replace_edges_lem hashing follows s ok id =
        let previous = old_edges f s.nodes s.edges in
        let left = delete_loop f follows previous s.edges in
        let was = is_some-previous author f s.nodes s.edges ok.distinct ok.unique id in
        let kept = linked-delete_loop author f s.nodes s.edges ok.distinct ok.unique id follows in
        let wanted = λ (q : Str). hashing.contains-distinct q follows in
        let (s', run, reached, more) =
          insert_loop_lem previous (hashing.distinct follows) (record s { edges = left })
            (record {
              distinct = ok.distinct;
              unique = ok.unique;
              cached = ok.cached;
              edge_ids =
                  KnownEdges-delete_loop author f s.nodes s.edges ok.distinct ok.unique id follows
                    ok.edge_ids;
            })
            id (hashing.distinct-Nodup follows) (λ q c h. ground (arith, kept author q, was q)) in
        (
          s',
          run,
          record { sound = reached.sound; later = reached.later },
          λ p q. ground (arith, more p q, kept p q, was q, wanted q, str_eq_iff author p),
        )
