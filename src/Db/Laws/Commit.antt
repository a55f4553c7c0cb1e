-- ===== src/Db/Laws/Commit.antt =====
-- `update_lists_batch` of src/db/sqlite.rs as a whole: one transaction, committed or not.
use nostr_wot_oracle.Prelude.{
  false, is_some, ◌+◌, sym, ◌∙◌, ℕ, ◌≡◌, List, [], ◌∷◌, Bool, true, ◌&&◌, Option, none, some, arith,
  if◌then◌else◌, inl, inr, Bool-cases, Option-cases, refl, nat_eq,
}
use mathlib.Core.Path.{subst}
use nostr_wot_oracle.Prelude.Int.{ℤ}
use nostr_wot_oracle.Prelude.Str.{Str, str_eq, str_eq_iff, str_key}
use nostr_wot_oracle.Prelude.Dict.{
  Dict, DistinctKeys, lookup, insert, lookup-insert, insert-DistinctKeys,
}
use nostr_wot_oracle.Sync.Persist.{FollowUpdateBatch}
use nostr_wot_oracle.Db.Tables.{Tables, Rowids}
use nostr_wot_oracle.Db.Batch.{Hashing, author_winners, update_lists_batch}
use nostr_wot_oracle.Db.View.{WellFormed, listed, version}
use nostr_wot_oracle.Db.Laws.Author.{stamp, wins_over, same_kind}
use nostr_wot_oracle.Db.Laws.Fold.{
  Keyed, winning, chosen, targets_or, stamp_or, accepted_in, persist_all_lem,
}

-- The update of an author that stays after a batch, read in order.
abbrev pub latest :
    Str → List FollowUpdateBatch → Option FollowUpdateBatch → Option FollowUpdateBatch
latest p [] o = o
latest p (u ∷ us) none = latest p us (if str_eq u.pubkey p then some u else none)
latest p (u ∷ us) (some v) =
    latest p us (if str_eq u.pubkey p && wins_over u (stamp v) then some u else some v)

abbrev Named : Str → Option FollowUpdateBatch → Type 0
Named p none = Unit
Named p (some u) = u.pubkey ≡ p

latest-Named :
    (p : Str) (updates : List FollowUpdateBatch) (o : Option FollowUpdateBatch)
    → Named p o
    → Named p (latest p updates o)
latest-Named p [] o h = h
latest-Named p (u ∷ us) none h = elim (Bool-cases (str_eq u.pubkey p)) [
  | inl same ↦ rw same (latest-Named p us (some u) (ground (arith, str_eq_iff u.pubkey p)))
  | inr other ↦ rw other (latest-Named p us none h)
]
latest-Named p (u ∷ us) (some v) h =
    elim (Bool-cases (str_eq u.pubkey p && wins_over u (stamp v))) [
      | inl takes ↦ rw takes (latest-Named p us (some u) (ground (arith, str_eq_iff u.pubkey p)))
      | inr keeps ↦ rw keeps (latest-Named p us (some v) h)
    ]

pub lookup-author_winners :
    (p : Str) (updates : List FollowUpdateBatch) (m : Dict Str FollowUpdateBatch)
    → lookup p (author_winners updates m) ≡ latest p updates (lookup p m)
unfolding author_winners
lookup-author_winners p [] m = refl
lookup-author_winners p (u ∷ us) m = elim (Option-cases (lookup u.pubkey m)) [
  | inl new ↦
      rw (new, author_winners)
        (ground (
          arith,
          lookup-author_winners p us (insert u.pubkey u m),
          lookup-insert u.pubkey p u m,
          str_eq_iff u.pubkey p,
        ))
  | inr (v, held) ↦ elim (Bool-cases (wins_over u (stamp v))) [
    | inl wins ↦
        rw (held, wins, author_winners)
          (ground (
            arith,
            lookup-author_winners p us (insert u.pubkey u m),
            lookup-insert u.pubkey p u m,
            str_eq_iff u.pubkey p,
          ))
    | inr loses ↦
        rw (held, loses, author_winners)
          (ground (arith, lookup-author_winners p us m, str_eq_iff u.pubkey p))
  ]
]

author_winners-DistinctKeys :
    (updates : List FollowUpdateBatch) (m : Dict Str FollowUpdateBatch)
    → DistinctKeys m
    → DistinctKeys (author_winners updates m)
unfolding author_winners
author_winners-DistinctKeys [] m h = h
author_winners-DistinctKeys (u ∷ us) m h =
    let put =
      author_winners-DistinctKeys us (insert u.pubkey u m) (insert-DistinctKeys u.pubkey u m h) in
    elim (Option-cases (lookup u.pubkey m)) [
      | inl new ↦ rw (new, author_winners) put
      | inr (v, held) ↦ elim (Bool-cases (wins_over u (stamp v))) [
        | inl wins ↦ rw (held, wins, author_winners) put
        | inr loses ↦ rw (held, loses, author_winners) (author_winners-DistinctKeys us m h)
      ]
    ]

-- The update of a batch that replaces the list of a kind of `p`, if there is one.
unfoldable pub taken :
    Bool → Tables → List FollowUpdateBatch → Bool → Str → Option FollowUpdateBatch
unfolding version
taken mutes t updates k p =
    if same_kind mutes k then winning (latest p updates none) (version mutes t p) else none

-- The tables after a batch.
pub record Updated (mutes : Bool) (updates : List FollowUpdateBatch) (t t' : Tables) : Type 0 where
  pub well_formed : WellFormed t'
  pub lists :
      (k : Bool) (p q : Str)
      → listed k t' p q ≡ targets_or (taken mutes t updates k p) q (listed k t p q)
  pub versions :
      (k : Bool) (p : Str) → version k t' p ≡ stamp_or (taken mutes t updates k p) (version k t p)

module _ (rowids : Rowids) (now : ℤ) (hashing : Hashing) where
  abbrev pub read_winners : List FollowUpdateBatch → Dict Str FollowUpdateBatch
  read_winners updates = hashing.entries (author_winners updates [])

  lookup-read_winners :
      (p : Str) (updates : List FollowUpdateBatch)
      → lookup p (read_winners updates) ≡ latest p updates none
  unfolding lookup
  lookup-read_winners p updates =
      hashing.lookup-entries (author_winners updates []) p
        (author_winners-DistinctKeys updates [] tt)
      ∙ lookup-author_winners p updates []

  read_winners-Keyed : (updates : List FollowUpdateBatch) → Keyed (read_winners updates)
  read_winners-Keyed updates p u h =
      subst (Named p) (sym (lookup-read_winners p updates) ∙ h) (latest-Named p updates none tt)

  Updated-empty : (mutes : Bool) (t : Tables) → WellFormed t → Updated mutes [] t t
  unfolding taken
  Updated-empty mutes t ok = record {
    well_formed = ok;
    lists = λ k p q. ground arith;
    versions = λ k p. ground arith;
  }

  update_lists_batch_lem :
      (mutes : Bool) (updates : List FollowUpdateBatch) (t : Tables)
      → WellFormed t
      → (t' : Tables) × (n : ℕ) × (update_lists_batch rowids now hashing mutes true updates t
          ≡ (t', some n))
        × Updated mutes updates t t'
  unfolding update_lists_batch chosen taken lookup
  update_lists_batch_lem mutes [] t ok = (t, 0, refl, Updated-empty mutes t ok)
  update_lists_batch_lem mutes (u ∷ us) t ok =
      let updates = u ∷ us in
      let d = read_winners updates in
      let (t', run, merged) =
        persist_all_lem rowids now hashing mutes d t [] 0 ok (λ p i h. ground arith)
          (hashing.entries-DistinctKeys (author_winners updates [])
            (author_winners-DistinctKeys updates [] tt))
          (read_winners-Keyed updates) in
      (
        t',
        0 + accepted_in mutes t d,
        rw (run, update_lists_batch) refl,
        record {
          well_formed = merged.well_formed;
          lists = λ k p q. ground (arith, merged.lists k p q, lookup-read_winners p updates);
          versions = λ k p. ground (arith, merged.versions k p, lookup-read_winners p updates);
        },
      )

  -- On well-formed tables, a batch that is committed meets no constraint of the schema and
  -- answers a count. The tables stay well formed, and the list of a pubkey of the batch's kind
  -- is that of the author's winning update if that update wins over the stored version, with
  -- its event as the version; every other list and version is as before.
  pub update_lists_batch-Updated :
      (mutes : Bool) (updates : List FollowUpdateBatch) (t : Tables)
      → WellFormed t
      → let result = update_lists_batch rowids now hashing mutes true updates t in
        (is_some result.1 ≡ true) × Updated mutes updates t result.0
  update_lists_batch-Updated mutes updates t ok =
      let (t', n, run, updated) = update_lists_batch_lem mutes updates t ok in
      rw run (refl, updated)

  -- A batch that answers an error, from a statement or from the commit, leaves the tables as
  -- they were.
  pub update_lists_batch-rollback :
      (mutes commits : Bool) (updates : List FollowUpdateBatch) (t : Tables)
      → (update_lists_batch rowids now hashing mutes commits updates t).1 ≡ none
      → (update_lists_batch rowids now hashing mutes commits updates t).0 ≡ t
  unfolding update_lists_batch
  update_lists_batch-rollback mutes commits updates t h = ground arith

  pub uncommitted :
      (mutes : Bool) (u : FollowUpdateBatch) (us : List FollowUpdateBatch) (t : Tables)
      → (update_lists_batch rowids now hashing mutes false (u ∷ us) t).1 ≡ none
  unfolding update_lists_batch
  uncommitted mutes u us t = ground arith

  -- A batch that answers a count has been merged.
  pub update_lists_batch-committed :
      (mutes commits : Bool) (updates : List FollowUpdateBatch) (t : Tables) (n : ℕ)
      → WellFormed t
      → (update_lists_batch rowids now hashing mutes commits updates t).1 ≡ some n
      → Updated mutes updates t (update_lists_batch rowids now hashing mutes commits updates t).0
  unfolding update_lists_batch
  update_lists_batch-committed mutes true updates t n ok h =
      (update_lists_batch-Updated mutes updates t ok).1
  update_lists_batch-committed mutes false [] t n ok h = Updated-empty mutes t ok
  update_lists_batch-committed mutes false (u ∷ us) t n ok h =
      absurd (ground (arith, uncommitted mutes u us t))
