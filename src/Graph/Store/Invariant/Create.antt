-- ===== src/Graph/Store/Invariant/Create.antt =====
-- The invariant under the creation of nodes, in src/graph/store.rs.
use nostr_wot_oracle.Prelude.Str.{str_eq_refl, Str, str_key, str_eq, str_eq_iff}
use nostr_wot_oracle.Prelude.{
  Option-cases, ◌∙◌, ◌≤◌, ℕ, ◌+◌, ◌^◌, ◌%◌, ◌≡◌, ◌↔◌, List, [], ◌∷◌, ◌++◌, Option, none, some,
  length, get_or, get_elem?, nat_eq, refl, arith, inl, inr, Bool-cases, length-append, get_or-push,
  get_or_of_ge, get_elem?-push, get_elem?_lt, if◌then◌else◌, ◌==◌,
}
use nostr_wot_oracle.Graph.Store.Nodes.{get_or_create_node_locked, get_or_create_all, create_node}
use nostr_wot_oracle.Prelude.Dict.{lookup, lookup-insert}
use nostr_wot_oracle.Prelude.Sorted.{Below-mono}
use nostr_wot_oracle.Graph.Adjacency.{row}
use nostr_wot_oracle.Graph.Interner.{intern, text-intern}
use nostr_wot_oracle.Graph.Store.Types.{WotGraph, NodeInfo}
use nostr_wot_oracle.Graph.Store.Invariant.{WellFormed, HasRoom, Extends}

row-push : (rows : List (List ℕ)) (a : ℕ) → row (rows ++ [] ∷ []) a ≡ row rows a
row-push rows a = elim (Bool-cases (a == length rows)) [
  | inl e ↦ rw (get_or-push, e) (ground (arith, get_or_of_ge rows a []))
  | inr e ↦ rw (get_or-push, e)
]

info-push :
    (xs : List (Option NodeInfo)) (a : ℕ) → get_or (xs ++ none ∷ []) a none ≡ get_or xs a none
info-push xs a = elim (Bool-cases (a == length xs)) [
  | inl e ↦ rw (get_or-push, e) (ground (arith, get_or_of_ge xs a none))
  | inr e ↦ rw (get_or-push, e)
]

module _ (g : WotGraph) (p : Str) (w : WellFormed g) (room : HasRoom g 1) where
  -- The id is the number of nodes so far: the cast to `u32` loses nothing.
  pub create_node-id : (create_node g p).1 ≡ length g.id_to_pubkey
  unfolding create_node
  create_node-id = omega arith

  pub create_node-names :
      (q : Str)
      → lookup q (create_node g p).0.pubkey_to_id
        ≡ (if str_eq p q then some (length g.id_to_pubkey) else lookup q g.pubkey_to_id)
  unfolding create_node
  create_node-names q = ground (
    arith,
    lookup-insert (intern g.interner p).1.text q (length g.id_to_pubkey % 2 ^ 32) g.pubkey_to_id,
    text-intern g.interner p,
    create_node-id,
  )

  create_node-pubkeys :
      (i : ℕ)
      → get_elem? (create_node g p).0.id_to_pubkey i
        ≡ (if i == length g.id_to_pubkey then some p else get_elem? g.id_to_pubkey i)
  unfolding create_node
  create_node-pubkeys i = rw (text-intern g.interner p) (get_elem?-push g.id_to_pubkey p i)

  create_node-size : length (create_node g p).0.id_to_pubkey ≡ length g.id_to_pubkey + 1
  unfolding create_node
  create_node-size = omega (arith, length-append g.id_to_pubkey ((intern g.interner p).1.text ∷ []))

  module _ (fresh : lookup p g.pubkey_to_id ≡ none) where
    pub create_node-Extends : Extends g (create_node g p).0
    create_node-Extends = record {
      size = omega (arith, create_node-size);
      names = λ q i h. ground (arith, create_node-names q, str_eq_iff p q);
      follows = unfold create_node in row-push g.follows;
      followers = unfold create_node in row-push g.followers;
      info = unfold create_node in info-push g.node_info;
      mutes = unfold create_node in refl;
    }

    create_node-named :
        (q : Str) (i : ℕ)
        → (lookup q (create_node g p).0.pubkey_to_id ≡ some i)
          ↔ (get_elem? (create_node g p).0.id_to_pubkey i ≡ some q)
    create_node-named q i = rw (create_node-names q) (
        rw (create_node-pubkeys i) (
          ground
            (arith, w.named q i, w.named p i, str_eq_iff p q, get_elem?_lt g.id_to_pubkey i q)))

    pub create_node-WellFormed : WellFormed (create_node g p).0
    create_node-WellFormed =
        let e = create_node-Extends in
        record {
          size_follows =
              unfold create_node in
              omega (
                arith,
                w.size_follows,
                length-append g.follows ([] ∷ []),
                length-append g.id_to_pubkey ((intern g.interner p).1.text ∷ []),
              );
          size_followers =
              unfold create_node in
              omega (
                arith,
                w.size_followers,
                length-append g.followers ([] ∷ []),
                length-append g.id_to_pubkey ((intern g.interner p).1.text ∷ []),
              );
          size_info =
              unfold create_node in
              omega (
                arith,
                w.size_info,
                length-append g.node_info (none ∷ []),
                length-append g.id_to_pubkey ((intern g.interner p).1.text ∷ []),
              );
          named = create_node-named;
          follows_sorted = λ a. rw (e.follows a) (w.follows_sorted a);
          followers_sorted = λ a. rw (e.followers a) (w.followers_sorted a);
          follows_below =
              λ a. rw (e.follows a) (Below-mono _ _ (row g.follows a) e.size (w.follows_below a));
          mirrored = λ a b. rw (e.follows a) (rw (e.followers b) (w.mirrored a b));
          mute_authors = λ a l h. omega (arith, w.mute_authors a l (rw e.mutes at h), e.size);
          mutes_sorted = λ a l h. w.mutes_sorted a l (rw e.mutes at h);
          mutes_below = λ a l h. Below-mono _ _ l.ids e.size (w.mutes_below a l (rw e.mutes at h));
        }

pub Extends-refl : (g : WotGraph) → Extends g g
Extends-refl g = record {
  size = omega arith;
  names = λ p i h. h;
  follows = λ a. refl;
  followers = λ a. refl;
  info = λ a. refl;
  mutes = refl;
}

pub Extends-trans : (g h k : WotGraph) → Extends g h → Extends h k → Extends g k
Extends-trans g h k d e = record {
  size = omega (arith, d.size, e.size);
  names = λ p i q. e.names p i (d.names p i q);
  follows = λ a. e.follows a ∙ d.follows a;
  followers = λ a. e.followers a ∙ d.followers a;
  info = λ a. e.info a ∙ d.info a;
  mutes = e.mutes ∙ d.mutes;
}

-- The node of `p` has the id `i` in a state that is well formed and extends `g`.
pub record Created (g : WotGraph) (p : Str) (h : WotGraph) (i : ℕ) : Type 0 where
  pub valid : WellFormed h
  pub extends : Extends g h
  pub name : lookup p h.pubkey_to_id ≡ some i
  pub grown : length h.id_to_pubkey ≤ length g.id_to_pubkey + 1

pub get_or_create_node-Created :
    (g : WotGraph) (p : Str)
    → WellFormed g
    → HasRoom g 1
    → Created g p (get_or_create_node_locked g p).0 (get_or_create_node_locked g p).1
unfolding get_or_create_node_locked
get_or_create_node-Created g p w room = elim (Option-cases (lookup p g.pubkey_to_id)) [
  | inl fresh ↦
      rw (fresh, get_or_create_node_locked)
        (record {
          valid = create_node-WellFormed g p w room fresh;
          extends = create_node-Extends g p w room fresh;
          name =
              ground
                (arith, create_node-names g p w room p, create_node-id g p w room, str_eq_refl p);
          grown = omega (arith, create_node-size g p w room);
        })
  | inr (i, old) ↦
      rw (old, get_or_create_node_locked)
        (record { valid = w; extends = Extends-refl g; name = old; grown = omega arith })
]

-- The ids are those of the names, in order.
abbrev pub Resolves : WotGraph → List Str → List ℕ → Type 0
Resolves g [] [] = Unit
Resolves g [] (i ∷ ids) = ⊥
Resolves g (p ∷ ps) [] = ⊥
Resolves g (p ∷ ps) (i ∷ ids) = (lookup p g.pubkey_to_id ≡ some i) × Resolves g ps ids

pub record CreatedAll (g : WotGraph) (ps : List Str) (h : WotGraph) (ids : List ℕ) : Type 0 where
  pub valid : WellFormed h
  pub extends : Extends g h
  pub names : Resolves h ps ids

-- In a well-formed graph with room for the listed keys, resolving them one after the other
-- leaves a well-formed graph in which every key has the id returned for it, and in which the ids
-- of older keys, the rows, the metadata and the mutes that the graph had are unchanged.
pub get_or_create_all-CreatedAll :
    (g : WotGraph) (ps : List Str)
    → WellFormed g
    → HasRoom g (length ps)
    → CreatedAll g ps (get_or_create_all g ps).0 (get_or_create_all g ps).1
unfolding get_or_create_all
get_or_create_all-CreatedAll g [] w room = record {
  valid = w;
  extends = Extends-refl g;
  names = tt;
}
get_or_create_all-CreatedAll g (p ∷ ps) w room =
    let g' = (get_or_create_node_locked g p).0 in
    let i = (get_or_create_node_locked g p).1 in
    let c = get_or_create_node-Created g p w (omega arith) in
    let d = get_or_create_all-CreatedAll g' ps c.valid (omega (arith, c.grown)) in
    record {
      valid = d.valid;
      extends = Extends-trans g g' (get_or_create_all g' ps).0 c.extends d.extends;
      names = (d.extends.names p i c.name, d.names);
    }

-- The node of `p` has the id `i` in a state that extends `g` by at most `n` nodes.
pub record Staged (g : WotGraph) (p : Str) (n : ℕ) (h : WotGraph) (i : ℕ) : Type 0 where
  pub valid : WellFormed h
  pub extends : Extends g h
  pub name : lookup p h.pubkey_to_id ≡ some i
  pub grown : length h.id_to_pubkey ≤ length g.id_to_pubkey + n

-- There is at most one new node for each key.
pub get_or_create_all_grown :
    (g : WotGraph) (ps : List Str)
    → WellFormed g
    → HasRoom g (length ps)
    → length (get_or_create_all g ps).0.id_to_pubkey ≤ length g.id_to_pubkey + length ps
unfolding get_or_create_all
get_or_create_all_grown g [] w room = omega arith
get_or_create_all_grown g (p ∷ ps) w room =
    let c = get_or_create_node-Created g p w (omega arith) in
    omega (
      arith,
      c.grown,
      get_or_create_all_grown (get_or_create_node_locked g p).0 ps c.valid (omega (arith, c.grown)),
    )

-- Creating names that exist changes nothing.
pub get_or_create_node_known :
    (g : WotGraph) (p : Str) (i : ℕ)
    → lookup p g.pubkey_to_id ≡ some i
    → get_or_create_node_locked g p ≡ (g, i)
unfolding get_or_create_node_locked
get_or_create_node_known g p i h = rw (h, get_or_create_node_locked)
