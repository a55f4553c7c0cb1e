-- ===== src/Db/Laws/Nodes.antt =====
-- A new or a kept row of `nodes`, in src/db/sqlite.rs: its id, and the edges.
use nostr_wot_oracle.Db.View.{node_version, Unique, Known, KnownEdges, linked}
use nostr_wot_oracle.Prelude.{
  refl, Bool-ext, true, none, ℕ, ◌≡◌, ◌≢◌, List, Option, some, arith, if◌then◌else◌, unwrap_or, inl,
  inr, Option-cases,
}
use nostr_wot_oracle.Prelude.Int.{ℤ}
use nostr_wot_oracle.Prelude.Str.{Str, str_eq, str_eq_iff, str_key}
use nostr_wot_oracle.Prelude.Dict.{Dict, lookup, lookup-insert, DistinctKeys, insert-DistinctKeys}
use nostr_wot_oracle.Db.Tables.{NodeRow, Rowids, insert_node, upsert_kind3, id_of, has_pair}

-- Rows are added, never removed, and a new row's id was unknown before.
pub record Grows (nodes nodes' : Dict Str NodeRow) : Type 0 where
  pub keeps : (q : Str) (i : ℕ) → id_of nodes q ≡ some i → id_of nodes' q ≡ some i
  pub fresh : (q : Str) (i : ℕ) → id_of nodes q ≡ none → id_of nodes' q ≡ some i → ¬ Known nodes i

pub Grows-refl : (nodes : Dict Str NodeRow) → Grows nodes nodes
Grows-refl nodes = record { keeps = λ q i h. h; fresh = λ q i new h. absurd (ground arith) }

pub Grows-trans : (l m n : Dict Str NodeRow) → Grows l m → Grows m n → Grows l n
Grows-trans l m n g h = record {
  keeps = λ q i e. h.keeps q i (g.keeps q i e);
  fresh = λ q i new e known. elim (Option-cases (id_of m q)) [
    | inl x ↦ h.fresh q i x e (known.0, g.keeps known.0 i known.1)
    | inr (j, x) ↦ g.fresh q i new (ground (arith, h.keeps q j x)) known
  ];
}

module _ (nodes nodes' : Dict Str NodeRow) (grows : Grows nodes nodes') where
  pub Grows-Known : (i : ℕ) → Known nodes i → Known nodes' i
  Grows-Known i (q, e) = (q, grows.keeps q i e)

  pub Grows-KnownEdges : (es : List (ℕ × ℕ)) → KnownEdges nodes es → KnownEdges nodes' es
  Grows-KnownEdges es known a b h = (Grows-Known a (known a b h).0, Grows-Known b (known a b h).1)

  -- Who is linked to whom stays.
  pub Grows-linked :
      (es : List (ℕ × ℕ)) (r q : Str)
      → KnownEdges nodes es
      → linked nodes' es r q ≡ linked nodes es r q
  Grows-linked es r q known = Bool-ext (linked nodes' es r q) (linked nodes es r q) shrinks stays
    where
      stays : linked nodes es r q ≡ true → linked nodes' es r q ≡ true
      stays h = elim (Option-cases (id_of nodes r)) [
        | inl x ↦ ground arith
        | inr (a, x) ↦ elim (Option-cases (id_of nodes q)) [
          | inl y ↦ ground arith
          | inr (b, y) ↦ rw (grows.keeps r a x, grows.keeps q b y) (ground arith)
        ]
      ]

      shrinks : linked nodes' es r q ≡ true → linked nodes es r q ≡ true
      shrinks h = elim (Option-cases (id_of nodes' r)) [
        | inl x ↦ ground arith
        | inr (a, x) ↦ elim (Option-cases (id_of nodes' q)) [
          | inl y ↦ ground arith
          | inr (b, y) ↦
              let pair : has_pair a b es ≡ true = ground arith in
              rw (old r a x (known a b pair).0, old q b y (known a b pair).1) pair
        ]
      ]
        where
          old : (s : Str) (i : ℕ) → id_of nodes' s ≡ some i → Known nodes i → id_of nodes s ≡ some i
          old s i e k = elim (Option-cases (id_of nodes s)) [
            | inl new ↦ absurd (grows.fresh s i new e k)
            | inr (j, x) ↦ ground (arith, grows.keeps s j x)
          ]

module _ (rowids : Rowids) where
  -- The id of a pubkey's row after a statement that inserts the row if it is missing.
  abbrev pub id_for : Dict Str NodeRow → Str → ℕ
  id_for nodes p = unwrap_or (id_of nodes p) (rowids.next nodes)

  -- The ids after such a statement.
  abbrev pub Adds : Str → Dict Str NodeRow → Dict Str NodeRow → Type 0
  Adds p nodes nodes' =
      (q : Str) → id_of nodes' q ≡ (if str_eq p q then some (id_for nodes p) else id_of nodes q)

  pub insert_node-Adds :
      (now : ℤ) (p : Str) (nodes : Dict Str NodeRow) → Adds p nodes (insert_node rowids now p nodes)
  unfolding insert_node
  insert_node-Adds now p nodes q = elim (Option-cases (lookup p nodes)) [
    | inl missing ↦ rw (missing, insert_node) (rw lookup-insert (ground arith))
    | inr (r, found) ↦ rw (found, insert_node) (ground (arith, str_eq_iff p q))
  ]

  pub upsert_kind3-Adds :
      (now : ℤ) (p : Str) (e : Option Str) (c : Option ℤ) (nodes : Dict Str NodeRow)
      → Adds p nodes (upsert_kind3 rowids now p e c nodes)
  unfolding upsert_kind3
  upsert_kind3-Adds now p e c nodes q = rw lookup-insert (ground arith)

  pub insert_node-DistinctKeys :
      (now : ℤ) (p : Str) (nodes : Dict Str NodeRow)
      → DistinctKeys nodes
      → DistinctKeys (insert_node rowids now p nodes)
  unfolding insert_node
  insert_node-DistinctKeys now p nodes h = elim (Option-cases (lookup p nodes)) [
    | inl missing ↦ rw (missing, insert_node, DistinctKeys) (insert-DistinctKeys p _ nodes h)
    | inr (r, found) ↦ rw (found, insert_node, DistinctKeys) h
  ]

  pub insert_node-version :
      (now : ℤ) (p q : Str) (nodes : Dict Str NodeRow)
      → node_version (lookup q (insert_node rowids now p nodes)) ≡ node_version (lookup q nodes)
  unfolding insert_node
  insert_node-version now p q nodes = elim (Option-cases (lookup p nodes)) [
    | inl missing ↦ rw (missing, insert_node) (rw lookup-insert (ground (arith, str_eq_iff p q)))
    | inr (r, found) ↦ rw (found, insert_node) refl
  ]

  pub upsert_kind3-version :
      (now : ℤ) (p q : Str) (e : Option Str) (c : Option ℤ) (nodes : Dict Str NodeRow)
      → node_version (lookup q (upsert_kind3 rowids now p e c nodes))
        ≡ (if str_eq p q then (e, c) else node_version (lookup q nodes))
  unfolding upsert_kind3
  upsert_kind3-version now p q e c nodes = rw lookup-insert (ground arith)

  next-unused : (nodes : Dict Str NodeRow) (p : Str) → id_of nodes p ≢ some (rowids.next nodes)
  next-unused nodes p e = elim (Option-cases (lookup p nodes)) [
    | inl missing ↦ ground arith
    | inr (r, found) ↦ rowids.next-fresh nodes p r found (ground arith)
  ]

  module _ (p : Str) (nodes nodes' : Dict Str NodeRow) (adds : Adds p nodes nodes')
      (unique : Unique nodes) where
    -- The new row has an id of its own.
    pub Adds-Unique : Unique nodes'
    Adds-Unique r s i hr hs = ground (
      arith,
      adds r,
      adds s,
      str_eq_iff p r,
      str_eq_iff p s,
      unique r s i,
      unique r p i,
      unique p s i,
      next-unused nodes r,
      next-unused nodes s,
    )

    -- Old rows keep their ids, and a new row has an id that was unknown.
    pub Adds-Grows : Grows nodes nodes'
    Adds-Grows = record {
      keeps = λ q i h. ground (arith, adds q, str_eq_iff p q);
      fresh = λ q i new h known.
          next-unused nodes known.0 (ground (arith, adds q, str_eq_iff p q, known.1));
    }
