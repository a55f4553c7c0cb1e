-- ===== src/Graph/Store/Invariant/Names.antt =====
-- Names and ids in a well-formed state.
use nostr_wot_oracle.Prelude.{
  ℕ, ◌<◌, ◌≤◌, ◌≡◌, ◌⊎◌, ap, List, [], ◌∷◌, true, false, none, some, length, refl, arith, inl, inr,
  Bool-cases, get_or_of_ge, ◌==◌, ltb, get_elem?_of_lt, get_elem?_lt, Bool-ext,
}
use nostr_wot_oracle.Prelude.Str.{Str, str_key, str_eq, str_eq_iff, contains}
use nostr_wot_oracle.Prelude.Dict.{lookup}
use nostr_wot_oracle.Prelude.Sorted.{Below, member, Below-member}
use nostr_wot_oracle.Graph.Adjacency.{row}
use nostr_wot_oracle.Graph.Store.Types.{WotGraph}
use nostr_wot_oracle.Graph.Store.Invariant.{WellFormed, Extends}
use nostr_wot_oracle.Graph.Store.Invariant.Create.{Resolves}

module _ (g : WotGraph) (w : WellFormed g) where
  pub lookup-lt : (p : Str) (i : ℕ) → lookup p g.pubkey_to_id ≡ some i → i < length g.id_to_pubkey
  lookup-lt p i h = get_elem?_lt g.id_to_pubkey i p ((w.named p i).0 h)

  -- Two names of one id are one name.
  pub lookup_inj :
      (p q : Str) (i : ℕ)
      → lookup p g.pubkey_to_id ≡ some i
      → lookup q g.pubkey_to_id ≡ some i
      → p ≡ q
  lookup_inj p q i h k = ground (arith, (w.named p i).0 h, (w.named q i).0 k)

  pub named_id :
      (i : ℕ) → i < length g.id_to_pubkey → (p : Str) × (lookup p g.pubkey_to_id ≡ some i)
  named_id i h = let (p, e) = get_elem?_of_lt g.id_to_pubkey i h in (p, (w.named p i).1 e)

  pub row-lt :
      (a b : ℕ)
      → member b (row g.follows a) ≡ true
      → (a < length g.id_to_pubkey) × (b < length g.id_to_pubkey)
  row-lt a b m = (
    omega (arith, w.size_follows, a_lt (Bool-cases (ltb a (length g.follows)))),
    Below-member (length g.id_to_pubkey) b (row g.follows a) (w.follows_below a) m,
  )
    where
      a_lt :
          (ltb a (length g.follows) ≡ true) ⊎ (ltb a (length g.follows) ≡ false)
          → a < length g.follows
      a_lt (inl e) = ground arith
      a_lt (inr e) = ground (arith, get_or_of_ge g.follows a [])

  -- Two ids of names agree exactly if the names do.
  pub id_eq :
      (p q : Str) (i j : ℕ)
      → lookup p g.pubkey_to_id ≡ some i
      → lookup q g.pubkey_to_id ≡ some j
      → (i == j) ≡ str_eq p q
  id_eq p q i j h k =
      Bool-ext (i == j) (str_eq p q) (λ e. (str_eq_iff p q).1 (lookup_inj p q j (ground arith) k))
        (λ e. ground (arith, (str_eq_iff p q).0 e))

  pub member-Resolves :
      (ps : List Str) (ids : List ℕ) (q : Str) (b : ℕ)
      → Resolves g ps ids
      → lookup q g.pubkey_to_id ≡ some b
      → member b ids ≡ contains q ps
  member-Resolves [] [] q b h k = refl
  member-Resolves [] (i ∷ ids) q b h k = absurd h
  member-Resolves (p ∷ ps) [] q b h k = absurd h
  member-Resolves (p ∷ ps) (i ∷ ids) q b h k =
      rw (id_eq p q i b h.0 k) (rw (member-Resolves ps ids q b h.1 k))

  pub contains-Resolves :
      (ps : List Str) (ids : List ℕ) (q : Str)
      → Resolves g ps ids
      → lookup q g.pubkey_to_id ≡ none
      → contains q ps ≡ false
  contains-Resolves [] [] q h k = refl
  contains-Resolves [] (i ∷ ids) q h k = absurd h
  contains-Resolves (p ∷ ps) [] q h k = absurd h
  contains-Resolves (p ∷ ps) (i ∷ ids) q h k =
      ground (arith, str_eq_iff p q, contains-Resolves ps ids q h.1 k)

  pub Below-Resolves :
      (ps : List Str) (ids : List ℕ) → Resolves g ps ids → Below (length g.id_to_pubkey) ids
  Below-Resolves [] [] h = tt
  Below-Resolves [] (i ∷ ids) h = absurd h
  Below-Resolves (p ∷ ps) [] h = absurd h
  Below-Resolves (p ∷ ps) (i ∷ ids) h = (lookup-lt p i h.0, Below-Resolves ps ids h.1)

-- A name that is new in an extension has an id above all the old ones.
pub fresh-ge :
    (g h : WotGraph) (q : Str) (b : ℕ)
    → WellFormed g
    → WellFormed h
    → Extends g h
    → lookup q g.pubkey_to_id ≡ none
    → lookup q h.pubkey_to_id ≡ some b
    → length g.id_to_pubkey ≤ b
fresh-ge g h q b w v e fresh now = elim (Bool-cases (ltb b (length g.id_to_pubkey))) [
  | inl lt ↦
      let (p, old) = named_id g w b (ground arith) in
      let same = lookup_inj h v p q b (e.names p b old) now in
      absurd (ground (arith, ap (λ x. lookup x g.pubkey_to_id) same))
  | inr ge ↦ ground arith
]
