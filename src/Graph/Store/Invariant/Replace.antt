-- ===== src/Graph/Store/Invariant/Replace.antt =====
-- Replacing the list of one author, for follows and mutes alike.
use nostr_wot_oracle.Prelude.{
  ℕ, ◌≡◌, ◌∙◌, sym, List, Option, none, some, refl, arith, inl, inr, Bool-cases, if◌then◌else◌,
  ◌==◌,
}
use nostr_wot_oracle.Prelude.Str.{Str, str_key, str_eq, str_eq_iff, contains}
use nostr_wot_oracle.Prelude.Dict.{lookup}
use nostr_wot_oracle.Prelude.Sorted.{
  Below, Below-member, sort, dedup, member-dedup-sort, Below-of_members,
}
use nostr_wot_oracle.Graph.Store.Types.{WotGraph}
use nostr_wot_oracle.Graph.Store.View.{linked}
use nostr_wot_oracle.Graph.Store.Invariant.{WellFormed}
use nostr_wot_oracle.Graph.Store.Invariant.Create.{Resolves}
use nostr_wot_oracle.Graph.Store.Invariant.Names.{id_eq, member-Resolves, contains-Resolves}

pub Below-dedup-sort : (n : ℕ) (ids : List ℕ) → Below n ids → Below n (dedup (sort ids))
Below-dedup-sort n ids h =
    Below-of_members n (dedup (sort ids))
      (λ v m. Below-member n v ids h (sym (member-dedup-sort v ids) ∙ m))

module _ (h : WotGraph) (p : Str) (a : ℕ) (ps : List Str) (ids : List ℕ) (list list' : ℕ → List ℕ)
    (w : WellFormed h) (name : lookup p h.pubkey_to_id ≡ some a) (res : Resolves h ps ids)
    (replaced : (b : ℕ) → list' b ≡ (if a == b then dedup (sort ids) else list b)) where
  replace_cases :
      (r q : Str) (o s : Option ℕ)
      → lookup r h.pubkey_to_id ≡ o
      → lookup q h.pubkey_to_id ≡ s
      → linked list' o s ≡ (if str_eq p r then contains q ps else linked list o s)
  replace_cases r q none s er es = ground (arith, str_eq_iff p r)
  replace_cases r q (some b) none er es = ground (arith, contains-Resolves h w ps ids q res es)
  replace_cases r q (some b) (some c) er es = rw (replaced b) (
      rw (id_eq h w p r a b name er) (elim (Bool-cases (str_eq p r)) [
        | inl e ↦ rw e (member-dedup-sort c ids ∙ member-Resolves h w ps ids q c res es)
        | inr e ↦ rw e
      ]))

  -- The author is linked to exactly the listed names, and everybody else as before.
  pub linked-replace :
      (r q : Str)
      → linked list' (lookup r h.pubkey_to_id) (lookup q h.pubkey_to_id) ≡ (
          if str_eq p r
          then contains q ps
          else linked list (lookup r h.pubkey_to_id) (lookup q h.pubkey_to_id))
  linked-replace r q =
      replace_cases r q (lookup r h.pubkey_to_id) (lookup q h.pubkey_to_id) refl refl
