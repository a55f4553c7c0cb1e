-- ===== src/Graph/Store/Invariant/Revision.antt =====
-- The revision of the graph of src/graph/store.rs, and what an update does that does not raise it.
use nostr_wot_oracle.Graph.Store.Invariant.{Bool, true, false, HasRoom, WellFormed}
use nostr_wot_oracle.Graph.Store.Invariant.Create.{
  get_or_create_all-CreatedAll, get_or_create_node-Created,
}
use nostr_wot_oracle.Prelude.Sorted.{dedup-sort-Sorted, sort, dedup, Sorted, member, Sorted-ext}
use nostr_wot_oracle.Graph.Store.Update.{
  rejects_follows, update_follows, update_mutes, publish_mutes, rejects_mutes, publish_follows,
}
use nostr_wot_oracle.Prelude.{
  ℕ, ◌+◌, ◌≤◌, ◌<◌, ◌^◌, ◌≡◌, ◌∙◌, ap, List, [], ◌∷◌, Option, length, refl, arith, if◌then◌else◌,
  zero, suc, set, is_some,
}
use mathlib.Core.Path.{subst}
use nostr_wot_oracle.Prelude.Int.{ℤ}
use nostr_wot_oracle.Prelude.Str.{Str, str_key}
use nostr_wot_oracle.Prelude.Dict.{lookup}
use nostr_wot_oracle.Graph.Adjacency.{row, diff, remove_from_all, add_to_all}
use nostr_wot_oracle.Graph.Adjacency.Merge.{diff_lem}
use nostr_wot_oracle.Graph.Store.Types.{WotGraph}
use nostr_wot_oracle.Graph.Store.Nodes.{get_or_create_node_locked, get_or_create_all}

-- So many more revisions fit the 64-bit counter.
abbrev pub HasRevisions : WotGraph → ℕ → Type 0
HasRevisions g n = g.revision + n < 2 ^ 64

-- Creating a node takes one revision, and finding it none.
pub get_or_create_node-revision :
    (g : WotGraph) (p : Str)
    → HasRevisions g 1
    → (get_or_create_node_locked g p).0.revision
      ≡ (if is_some (lookup p g.pubkey_to_id) then g.revision else g.revision + 1)
unfolding get_or_create_node_locked
get_or_create_node-revision g p h = ground arith

pub get_or_create_node_same :
    (g : WotGraph) (p : Str)
    → HasRevisions g 1
    → (get_or_create_node_locked g p).0.revision ≡ g.revision
    → (get_or_create_node_locked g p).0 ≡ g
unfolding get_or_create_node_locked
get_or_create_node_same g p h e = ground arith

pub get_or_create_all-revision :
    (g : WotGraph) (ps : List Str)
    → HasRevisions g (length ps)
    → (g.revision ≤ (get_or_create_all g ps).0.revision)
      × ((get_or_create_all g ps).0.revision ≤ g.revision + length ps)
unfolding get_or_create_all
get_or_create_all-revision g [] h = omega arith
get_or_create_all-revision g (p ∷ ps) h =
    let g' = (get_or_create_node_locked g p).0 in
    let step = get_or_create_node-revision g p (omega arith) in
    let bound : (g.revision ≤ g'.revision) × (g'.revision ≤ g.revision + 1) = ground arith in
    let ih = get_or_create_all-revision g' ps (omega arith) in omega (arith, bound, ih)

pub get_or_create_all_same :
    (g : WotGraph) (ps : List Str)
    → HasRevisions g (length ps)
    → (get_or_create_all g ps).0.revision ≡ g.revision
    → (get_or_create_all g ps).0 ≡ g
unfolding get_or_create_all
get_or_create_all_same g [] h e = refl
get_or_create_all_same g (p ∷ ps) h e =
    let g' = (get_or_create_node_locked g p).0 in
    let step = get_or_create_node-revision g p (omega arith) in
    let bound : (g.revision ≤ g'.revision) × (g'.revision ≤ g.revision + 1) = ground arith in
    let rest = get_or_create_all-revision g' ps (omega arith) in
    let same : g'.revision ≡ g.revision = omega (arith, bound, rest) in
    get_or_create_all_same g' ps (omega arith) (omega arith)
    ∙ get_or_create_node_same g p (omega arith) same

pub set_same : (rows : List (List ℕ)) (i : ℕ) → set rows i (row rows i) ≡ rows
set_same [] i = refl
set_same (r ∷ rows) zero = refl
set_same (r ∷ rows) (suc i) = ap (◌∷◌ r) (set_same rows i)

-- What a distance, path or follow query reads.
pub record SameTopology (g h : WotGraph) : Type 0 where
  pub ids : h.pubkey_to_id ≡ g.pubkey_to_id
  pub pubkeys : h.id_to_pubkey ≡ g.id_to_pubkey
  pub follows : h.follows ≡ g.follows
  pub followers : h.followers ≡ g.followers
  pub mutes : h.mutes ≡ g.mutes

module _ (g : WotGraph) (a : ℕ) (targets : List ℕ) (i : Option Str) (t : Option ℤ)
    (w : WellFormed g) (asc : Sorted targets) (room : HasRevisions g 1) where
  -- Publishing takes no revision exactly if the row is what it was.
  publish_same :
      (publish_follows g a targets i t).revision ≡ g.revision
      → SameTopology g (publish_follows g a targets i t)
  unfolding publish_follows remove_from_all add_to_all
  publish_same e =
      let old = row g.follows a in
      let d = diff_lem old targets (w.follows_sorted a) asc in
      let none_left : (diff old targets).to_remove ≡ [] = ground arith in
      let none_new : (diff old targets).to_add ≡ [] = ground arith in
      let same : targets ≡ old =
        Sorted-ext targets old asc (w.follows_sorted a)
          (λ v. ground (arith, d.0 v, d.1 v, ap (member v) none_left, ap (member v) none_new)) in
      record {
        ids = refl;
        pubkeys = refl;
        follows = ap (set g.follows a) same ∙ set_same g.follows a;
        followers = rw (none_left, none_new, remove_from_all, add_to_all);
        mutes = refl;
      }

  publish-revision :
      (g.revision ≤ (publish_follows g a targets i t).revision)
      × ((publish_follows g a targets i t).revision ≤ g.revision + 1)
  unfolding publish_follows
  publish-revision = ground arith

pub SameTopology-of_eq : (g h : WotGraph) → h ≡ g → SameTopology g h
SameTopology-of_eq g h e = record {
  ids = ap (λ (x : WotGraph). x.pubkey_to_id) e;
  pubkeys = ap (λ (x : WotGraph). x.id_to_pubkey) e;
  follows = ap (λ (x : WotGraph). x.follows) e;
  followers = ap (λ (x : WotGraph). x.followers) e;
  mutes = ap (λ (x : WotGraph). x.mutes) e;
}

module _ (g : WotGraph) (p : Str) (ps : List Str) (i : Option Str) (t : Option ℤ) (w : WellFormed g)
    (room : HasRoom g (length ps + 1)) (revisions : HasRevisions g (length ps + 2)) where
  abbrev g' : WotGraph
  g' = (get_or_create_node_locked g p).0

  abbrev node : ℕ
  node = (get_or_create_node_locked g p).1

  abbrev g'' : WotGraph
  g'' = (get_or_create_all g' ps).0

  abbrev targets : List ℕ
  targets = dedup (sort (get_or_create_all g' ps).1)

  first : (g.revision ≤ g'.revision) × (g'.revision ≤ g.revision + 1)
  first = ground (arith, get_or_create_node-revision g p (omega arith))

  second : (g'.revision ≤ g''.revision) × (g''.revision ≤ g'.revision + length ps)
  second = get_or_create_all-revision g' ps (omega (arith, first))

  unchanged : g''.revision ≡ g.revision → g'' ≡ g
  unchanged e =
      get_or_create_all_same g' ps (omega (arith, first)) (omega (arith, first, second))
      ∙ get_or_create_node_same g p (omega arith) (omega (arith, first, second))

  valid'' : WellFormed g''
  valid'' =
      let c = get_or_create_node-Created g p w (omega arith) in
      (get_or_create_all-CreatedAll g' ps c.valid (omega (arith, c.grown))).valid

  abbrev Keeps : WotGraph × Bool → Type 0
  Keeps r = r.0.revision ≡ g.revision → SameTopology g r.0

  abbrev Fixes : WotGraph × Bool → Type 0
  Fixes r = r.0.revision ≡ g.revision → r.0 ≡ g

  -- In a well-formed graph with room for the nodes and for the revisions, a follow update
  -- after which the revision is the old one has left ids, names, both adjacency lists and
  -- mutes as they were.
  pub update_follows_same_revision :
      (update_follows g p ps i t).0.revision ≡ g.revision
      → SameTopology g (update_follows g p ps i t).0
  unfolding update_follows
  update_follows_same_revision =
      elim (rejects_follows g' node i t)
        as (λ b. Keeps (if b then (g', false) else (publish_follows g'' node targets i t, true))) [
          | true ↦ λ e. SameTopology-of_eq g g' (get_or_create_node_same g p (omega arith) e)
          | false ↦ λ e.
              let asc = dedup-sort-Sorted (get_or_create_all g' ps).1 in
              let last =
                publish-revision g'' node targets i t valid'' asc (omega (arith, first, second)) in
              let same : g'' ≡ g = unchanged (omega (arith, last, second, first)) in
              subst (λ x. SameTopology x (publish_follows g'' node targets i t)) same
                (publish_same g'' node targets i t valid'' asc (omega (arith, first, second))
                  (omega (arith, last, second, first)))
        ]

  -- In a well-formed graph with room for the nodes and for the revisions, a mute update after
  -- which the revision is the old one has left the whole state as it was.
  pub update_mutes_same_revision :
      (update_mutes g p ps i t).0.revision ≡ g.revision → (update_mutes g p ps i t).0 ≡ g
  unfolding update_mutes publish_mutes
  update_mutes_same_revision =
      elim (rejects_mutes g' node i t)
        as (λ b. Fixes (if b then (g', false) else (publish_mutes g'' node targets i t, true))) [
          | true ↦ λ e. get_or_create_node_same g p (omega arith) e
          | false ↦ λ e. absurd (omega (arith, first, second))
        ]

  abbrev Grows : WotGraph × Bool → Type 0
  Grows r = (g.revision ≤ r.0.revision) × (r.0.revision ≤ g.revision + (length ps + 2))

  pub update_follows-Grows : Grows (update_follows g p ps i t)
  unfolding update_follows
  update_follows-Grows =
      elim (rejects_follows g' node i t)
        as (λ b. Grows (if b then (g', false) else (publish_follows g'' node targets i t, true))) [
          | true ↦ omega (arith, first)
          | false ↦
              let asc = dedup-sort-Sorted (get_or_create_all g' ps).1 in
              let last =
                publish-revision g'' node targets i t valid'' asc (omega (arith, first, second)) in
              omega (arith, first, second, last)
        ]

  pub update_mutes-Grows : Grows (update_mutes g p ps i t)
  unfolding update_mutes publish_mutes
  update_mutes-Grows =
      elim (rejects_mutes g' node i t)
        as (λ b. Grows (if b then (g', false) else (publish_mutes g'' node targets i t, true))) [
          | true ↦ omega (arith, first)
          | false ↦ ground (arith, first, second)
        ]
