-- ===== src/Db/Laws/Edges.antt =====
-- The edge statements of src/db/sqlite.rs: what `old_edges` selects and what the deletions leave.
use nostr_wot_oracle.Prelude.{
  ℕ, ◌≡◌, List, [], ◌∷◌, Bool, false, not, ◌&&◌, ◌||◌, Option, none, some, arith, if◌then◌else◌,
  inl, inr, is_some, ◌==◌, Bool-cases, Option-cases, refl,
}
use nostr_wot_oracle.Prelude.Str.{Str, str_eq, str_eq_iff, str_key, contains}
use nostr_wot_oracle.Prelude.Dict.{Dict, lookup, DistinctKeys}
use nostr_wot_oracle.Db.Tables.{NodeRow, id_of, has_pair, delete_edge, old_edges}
use nostr_wot_oracle.Db.Batch.{delete_loop}
use nostr_wot_oracle.Db.View.{Unique, KnownEdges, linked}

pub has_pair-delete_edge :
    (f i a b : ℕ) (es : List (ℕ × ℕ))
    → has_pair a b (delete_edge f i es) ≡ has_pair a b es && not ((f == a) && (i == b))
unfolding delete_edge
has_pair-delete_edge f i a b [] = refl
has_pair-delete_edge f i a b (e ∷ es) = ground (arith, has_pair-delete_edge f i a b es)

-- The pubkey and id that the join gives for one target.
abbrev joined : ℕ → List (ℕ × ℕ) → Option NodeRow → Option ℕ
joined f es none = none
joined f es (some r) = if has_pair f r.id es then some r.id else none

lookup-old_edges :
    (f : ℕ) (nodes : Dict Str NodeRow) (es : List (ℕ × ℕ)) (q : Str)
    → DistinctKeys nodes
    → lookup q (old_edges f nodes es) ≡ joined f es (lookup q nodes)
unfolding lookup old_edges
lookup-old_edges f [] es q h = refl
lookup-old_edges f ((p, r) ∷ nodes) es q h =
    ground (arith, lookup-old_edges f nodes es q h.1, h.0, str_eq_iff p q)

-- Whether the deletions reach an id.
abbrev dropped : List Str → Dict Str ℕ → ℕ → Bool
dropped desired [] b = false
dropped desired ((p, i) ∷ previous) b =
    (not (contains p desired) && (i == b)) || dropped desired previous b

has_pair-delete_loop :
    (f : ℕ) (desired : List Str) (previous : Dict Str ℕ) (es : List (ℕ × ℕ)) (a b : ℕ)
    → has_pair a b (delete_loop f desired previous es)
      ≡ has_pair a b es && not ((f == a) && dropped desired previous b)
unfolding delete_loop
has_pair-delete_loop f desired [] es a b = ground arith
has_pair-delete_loop f desired ((p, i) ∷ previous) es a b = elim (Bool-cases (contains p desired)) [
  | inl c ↦ rw c (ground (arith, has_pair-delete_loop f desired previous es a b))
  | inr c ↦ rw c (
      ground (
        arith,
        has_pair-delete_loop f desired previous (delete_edge f i es) a b,
        has_pair-delete_edge f i a b es,
      ))
]

-- Only `q` has the id `b`.
abbrev OnlyAt : Str → ℕ → Dict Str NodeRow → Type 0
OnlyAt q b [] = Unit
OnlyAt q b ((p, r) ∷ nodes) = ((r.id == b) ≡ str_eq p q) × OnlyAt q b nodes

dropped-old_edges :
    (f : ℕ) (desired : List Str) (nodes : Dict Str NodeRow) (es : List (ℕ × ℕ)) (q : Str) (b : ℕ)
    → DistinctKeys nodes
    → OnlyAt q b nodes
    → dropped desired (old_edges f nodes es) b
      ≡ is_some (lookup q nodes) && (has_pair f b es && not (contains q desired))
unfolding lookup old_edges
dropped-old_edges f desired [] es q b distinct only = refl
dropped-old_edges f desired ((p, r) ∷ nodes) es q b distinct only = ground (
  arith,
  dropped-old_edges f desired nodes es q b distinct.1 only.1,
  distinct.0,
  str_eq_iff p q,
  only.0,
)

OnlyAt-of_lookups :
    (q : Str) (b : ℕ) (nodes : Dict Str NodeRow)
    → DistinctKeys nodes
    → ((p : Str) (r : NodeRow) → lookup p nodes ≡ some r → (r.id == b) ≡ str_eq p q)
    → OnlyAt q b nodes
unfolding lookup
OnlyAt-of_lookups q b [] distinct h = tt
OnlyAt-of_lookups q b ((p, r) ∷ nodes) distinct h = (
  h p r (ground (arith, str_eq_iff p p)),
  OnlyAt-of_lookups q b nodes distinct.1
      (λ s x found. h s x (ground (arith, str_eq_iff p s, distinct.0))),
)

module _ (author : Str) (f : ℕ) (nodes : Dict Str NodeRow) (es : List (ℕ × ℕ)) where
  module _ (distinct : DistinctKeys nodes) (unique : Unique nodes)
      (id : id_of nodes author ≡ some f) where
    -- The previous targets are those that the author is linked to.
    pub is_some-previous :
        (q : Str) → is_some (lookup q (old_edges f nodes es)) ≡ linked nodes es author q
    is_some-previous q = ground (arith, lookup-old_edges f nodes es q distinct)

    same_id :
        (p q : Str) (b : ℕ) (r : NodeRow)
        → id_of nodes q ≡ some b
        → lookup p nodes ≡ some r
        → (r.id == b) ≡ str_eq p q
    same_id p q b r h found = ground (arith, unique p q b, str_eq_iff p q)

    only : (q : Str) (b : ℕ) → id_of nodes q ≡ some b → OnlyAt q b nodes
    only q b h = OnlyAt-of_lookups q b nodes distinct (λ p r. same_id p q b r h)

    -- The deletions leave of the author's links the desired ones, and those of everybody else.
    pub linked-delete_loop :
        (desired : List Str) (p q : Str)
        → linked nodes (delete_loop f desired (old_edges f nodes es) es) p q
          ≡ linked nodes es p q && (not (str_eq author p) || contains q desired)
    linked-delete_loop desired p q = elim (Option-cases (id_of nodes p)) [
      | inl x ↦ rw x refl
      | inr (a, x) ↦ elim (Option-cases (id_of nodes q)) [
        | inl y ↦ rw (x, y) refl
        | inr (b, y) ↦
            rw (x, y)
              (ground (
                arith,
                has_pair-delete_loop f desired (old_edges f nodes es) es a b,
                dropped-old_edges f desired nodes es q b distinct (only q b y),
                str_eq_iff author p,
                unique author p f,
              ))
      ]
    ]

    pub KnownEdges-delete_loop :
        (desired : List Str)
        → KnownEdges nodes es
        → KnownEdges nodes (delete_loop f desired (old_edges f nodes es) es)
    KnownEdges-delete_loop desired known a b h =
        known a b (ground (arith, has_pair-delete_loop f desired (old_edges f nodes es) es a b))
