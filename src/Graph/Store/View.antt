-- ===== src/Graph/Store/View.antt =====
-- The abstract view of the graph: who follows whom and who mutes whom, by public key.
use mathlib.Core.Path.{fun_ext}
use nostr_wot_oracle.Prelude.{
  ◌⊎◌, ℕ, ◌<◌, ◌≤◌, ◌≡◌, ◌∙◌, sym, List, [], Bool, true, false, Option, none, some, nat_eq, length,
  refl, arith, Option-cases, inl, inr, Bool-cases,
}
use nostr_wot_oracle.Prelude.Str.{Str, str_key}
use nostr_wot_oracle.Prelude.Dict.{lookup}
use nostr_wot_oracle.Prelude.Sorted.{member, Below-member}
use nostr_wot_oracle.Graph.Adjacency.{row}
use nostr_wot_oracle.Graph.Store.Types.{WotGraph, MuteList}
use nostr_wot_oracle.Graph.Store.Invariant.{WellFormed, Extends}
use nostr_wot_oracle.Graph.Store.Invariant.Names.{row-lt, fresh-ge}

-- Does the list of the first id, if it has one, name the second?
abbrev pub linked : (ℕ → List ℕ) → Option ℕ → Option ℕ → Bool
linked list none b = false
linked list (some a) none = false
linked list (some a) (some b) = member b (list a)

abbrev pub mute_row : WotGraph → ℕ → List ℕ
mute_row g a = elim (lookup a g.mutes) [ none ↦ [] | some l ↦ l.ids ]

unfoldable pub follows : WotGraph → Str → Str → Bool
follows g p q = linked (row g.follows) (lookup p g.pubkey_to_id) (lookup q g.pubkey_to_id)

unfoldable pub mutes : WotGraph → Str → Str → Bool
mutes g p q = linked (mute_row g) (lookup p g.pubkey_to_id) (lookup q g.pubkey_to_id)

-- Creating nodes does not change who is linked to whom, for lists that name old ids only.
linked-Extends :
    (g h : WotGraph) (list : ℕ → List ℕ) (p q : Str)
    → WellFormed g
    → WellFormed h
    → Extends g h
    → ((a b : ℕ)
        → member b (list a) ≡ true
        → (a < length g.id_to_pubkey) × (b < length g.id_to_pubkey))
    → linked list (lookup p h.pubkey_to_id) (lookup q h.pubkey_to_id)
      ≡ linked list (lookup p g.pubkey_to_id) (lookup q g.pubkey_to_id)
linked-Extends g h list p q w v e old =
    split (lookup p g.pubkey_to_id) (lookup q g.pubkey_to_id) refl refl
  where
    -- an id that is too large is in no list
    too_large :
        (a b : ℕ)
        → (length g.id_to_pubkey ≤ a) ⊎ (length g.id_to_pubkey ≤ b)
        → member b (list a) ≡ false
    too_large a b big = elim (Bool-cases (member b (list a))) [
      | inl m ↦ absurd (omega (arith, old a b m))
      | inr m ↦ m
    ]

    fresh_target :
        (a : ℕ) (o : Option ℕ)
        → lookup q g.pubkey_to_id ≡ none
        → lookup q h.pubkey_to_id ≡ o
        → linked list (some a) o ≡ false
    fresh_target a none eq now = refl
    fresh_target a (some b) eq now = too_large a b (inr (fresh-ge g h q b w v e eq now))

    fresh_source :
        (o r : Option ℕ)
        → lookup p g.pubkey_to_id ≡ none
        → lookup p h.pubkey_to_id ≡ o
        → linked list o r ≡ false
    fresh_source none r ep now = refl
    fresh_source (some a) none ep now = refl
    fresh_source (some a) (some b) ep now = too_large a b (inl (fresh-ge g h p a w v e ep now))

    split :
        (o r : Option ℕ)
        → lookup p g.pubkey_to_id ≡ o
        → lookup q g.pubkey_to_id ≡ r
        → linked list (lookup p h.pubkey_to_id) (lookup q h.pubkey_to_id)
          ≡ linked list (lookup p g.pubkey_to_id) (lookup q g.pubkey_to_id)
    split none r ep eq =
        fresh_source (lookup p h.pubkey_to_id) (lookup q h.pubkey_to_id) ep refl ∙ sym (rw ep)
    split (some a) none ep eq =
        rw (e.names p a ep) (fresh_target a (lookup q h.pubkey_to_id) eq refl ∙ sym (rw (ep, eq)))
    split (some a) (some b) ep eq = rw (e.names p a ep, e.names q b eq, ep, eq)

-- Creating nodes changes nobody's follows.
pub follows-Extends :
    (g h : WotGraph) (p q : Str)
    → WellFormed g
    → WellFormed h
    → Extends g h
    → follows h p q ≡ follows g p q
unfolding follows
follows-Extends g h p q w v e =
    rw (fun_ext e.follows) (linked-Extends g h (row g.follows) p q w v e (row-lt g w))

mute_row-lt :
    (g : WotGraph) (a b : ℕ)
    → WellFormed g
    → member b (mute_row g a) ≡ true
    → (a < length g.id_to_pubkey) × (b < length g.id_to_pubkey)
mute_row-lt g a b w m = go (Option-cases (lookup a g.mutes))
  where
    go :
        (lookup a g.mutes ≡ none) ⊎ ((l : MuteList) × (lookup a g.mutes ≡ some l))
        → (a < length g.id_to_pubkey) × (b < length g.id_to_pubkey)
    go (inl e) = ground arith
    go (inr (l, e)) = (
      w.mute_authors a l e,
      Below-member (length g.id_to_pubkey) b l.ids (w.mutes_below a l e) (ground arith),
    )

-- Creating nodes changes nobody's mutes.
pub mutes-Extends :
    (g h : WotGraph) (p q : Str)
    → WellFormed g
    → WellFormed h
    → Extends g h
    → mutes h p q ≡ mutes g p q
unfolding mutes
mutes-Extends g h p q w v e =
    rw e.mutes (linked-Extends g h (mute_row g) p q w v e (λ a b. mute_row-lt g a b w))
