-- ===== src/Db/Laws/Fold.antt =====
-- The loop of `update_lists_batch`, src/db/sqlite.rs, over the winners of a batch.
use nostr_wot_oracle.Prelude.{
  ◌∙◌, ℕ, ◌+◌, ◌≡◌, [], ◌∷◌, Bool, true, Option, none, some, arith, if◌then◌else◌, is_some, refl,
  nat_eq,
}
use nostr_wot_oracle.Prelude.Int.{ℤ}
use nostr_wot_oracle.Prelude.Str.{Str, str_eq_iff, str_key, contains}
use nostr_wot_oracle.Prelude.Dict.{Dict, DistinctKeys, lookup}
use nostr_wot_oracle.Sync.Persist.{FollowUpdateBatch}
use nostr_wot_oracle.Db.Tables.{Tables, Rowids}
use nostr_wot_oracle.Db.Batch.{Hashing, persist_all, values}
use nostr_wot_oracle.Db.View.{WellFormed, listed, version}
use nostr_wot_oracle.Db.Laws.Author.{stamp, wins_over, same_kind}
use nostr_wot_oracle.Db.Laws.Turn.{Cached, Settled, persist_author_lem}

-- Every update is under its author's key.
abbrev pub Keyed : Dict Str FollowUpdateBatch → Type 0
Keyed d = (p : Str) (u : FollowUpdateBatch) → lookup p d ≡ some u → u.pubkey ≡ p

-- The update that replaces the list of a kind of `p`, if there is one.
abbrev pub winning : Option FollowUpdateBatch → Option Str × Option ℤ → Option FollowUpdateBatch
winning none v = none
winning (some u) v = if wins_over u v then some u else none

unfoldable pub chosen :
    Bool → Tables → Dict Str FollowUpdateBatch → Bool → Str → Option FollowUpdateBatch
unfolding version lookup
chosen mutes t d k p = if same_kind mutes k then winning (lookup p d) (version mutes t p) else none

abbrev pub targets_or : Option FollowUpdateBatch → Str → Bool → Bool
targets_or none q old = old
targets_or (some u) q old = contains q u.follows

abbrev pub stamp_or : Option FollowUpdateBatch → Option Str × Option ℤ → Option Str × Option ℤ
stamp_or none old = old
stamp_or (some u) old = stamp u

-- The authors whose updates win.
abbrev pub accepted_in : Bool → Tables → Dict Str FollowUpdateBatch → ℕ
accepted_in mutes t [] = 0
accepted_in mutes t ((p, u) ∷ d) =
    if wins_over u (version mutes t p) then accepted_in mutes t d + 1 else accepted_in mutes t d

-- The tables after the winners of a batch have had their turns.
pub record Merged (mutes : Bool) (t : Tables) (d : Dict Str FollowUpdateBatch) (t' : Tables)
    : Type 0 where
  pub well_formed : WellFormed t'
  pub lists :
      (k : Bool) (p q : Str)
      → listed k t' p q ≡ targets_or (chosen mutes t d k p) q (listed k t p q)
  pub versions :
      (k : Bool) (p : Str) → version k t' p ≡ stamp_or (chosen mutes t d k p) (version k t p)

-- A version that stays has the same winners.
accepted_in-same :
    (mutes : Bool) (t t' : Tables) (d : Dict Str FollowUpdateBatch)
    → ((p : Str) → is_some (lookup p d) ≡ true → version mutes t' p ≡ version mutes t p)
    → accepted_in mutes t' d ≡ accepted_in mutes t d
unfolding lookup
accepted_in-same mutes t t' [] same = refl
accepted_in-same mutes t t' ((p, u) ∷ d) same =
    rw
      (
        same p (ground (arith, str_eq_iff p p)),
        accepted_in-same mutes t t' d (λ q h. same q (ground arith)),
      )
      refl

-- The turn of the first update, before those of the others.
module _ (mutes : Bool) (a : Str) (u : FollowUpdateBatch) (d : Dict Str FollowUpdateBatch)
    (t t1 : Tables) (named : u.pubkey ≡ a) (new : lookup a d ≡ none)
    (settled : Settled (wins_over u (version mutes t u.pubkey)) mutes u t t1) where
  other : (p : Str) → is_some (lookup p d) ≡ true → version mutes t1 p ≡ version mutes t p
  other p h = ground (arith, settled.versions mutes p, str_eq_iff u.pubkey p)

  lists_first :
      (k : Bool) (p q : Str)
      → targets_or (chosen mutes t1 d k p) q (listed k t1 p q)
        ≡ targets_or (chosen mutes t ((a, u) ∷ d) k p) q (listed k t p q)
  unfolding chosen lookup
  lists_first k p q =
      ground (
        arith,
        settled.lists k p q,
        settled.versions mutes p,
        str_eq_iff u.pubkey p,
        str_eq_iff a p,
      )

  versions_first :
      (k : Bool) (p : Str)
      → stamp_or (chosen mutes t1 d k p) (version k t1 p)
        ≡ stamp_or (chosen mutes t ((a, u) ∷ d) k p) (version k t p)
  unfolding chosen lookup
  versions_first k p =
      ground (
        arith,
        settled.versions k p,
        settled.versions mutes p,
        str_eq_iff u.pubkey p,
        str_eq_iff a p,
      )

module _ (rowids : Rowids) (now : ℤ) (hashing : Hashing) where
  pub persist_all_lem :
      (mutes : Bool) (d : Dict Str FollowUpdateBatch) (t : Tables) (ids : Dict Str ℕ) (n : ℕ)
      → WellFormed t
      → Cached t ids
      → DistinctKeys d
      → Keyed d
      → (t' : Tables) × (persist_all rowids now hashing mutes (values d) t ids n
          ≡ some (t', n + accepted_in mutes t d))
        × Merged mutes t d t'
  unfolding persist_all chosen lookup
  persist_all_lem mutes [] t ids n ok cached distinct keyed = (
    t,
    ground arith,
    record { well_formed = ok; lists = λ k p q. ground arith; versions = λ k p. ground arith },
  )
  persist_all_lem mutes ((a, u) ∷ d) t ids n ok cached distinct keyed =
      let (r, step, cached1, settled) =
        persist_author_lem rowids now hashing mutes u t ids ok cached in
      let t1 = r.0 in
      let named : u.pubkey ≡ a = keyed a u (ground (arith, str_eq_iff a a)) in
      let wins = wins_over u (version mutes t u.pubkey) in
      let (t', run, merged) =
        persist_all_lem mutes d t1 r.1 (if wins then n + 1 else n) settled.well_formed cached1
          distinct.1 (λ p v h. keyed p v (ground (arith, distinct.0, str_eq_iff a p))) in
      let counts =
        accepted_in-same mutes t t1 d
          (λ p h. other mutes a u d t t1 named distinct.0 settled p h) in
      (
        t',
        rw (step, persist_all) (rw run (ground (arith, counts))),
        record {
          well_formed = merged.well_formed;
          lists = λ k p q.
              merged.lists k p q ∙ lists_first mutes a u d t t1 named distinct.0 settled k p q;
          versions = λ k p.
              merged.versions k p ∙ versions_first mutes a u d t t1 named distinct.0 settled k p;
        },
      )
