-- ===== src/Sync/Agree/Stored.antt =====
-- Ingestion of src/sync/ingestion.rs on the tables of src/db/sqlite.rs: one attempt of a flush.
use nostr_wot_oracle.Prelude.{◌∙◌, ◌≡◌, ◌⊎◌, sym, Bool, true, false, none, not, arith, List, refl}
use nostr_wot_oracle.Prelude.Str.{Str}
use nostr_wot_oracle.Graph.Store.Types.{WotGraph}
use nostr_wot_oracle.Sync.Events.{ListUpdate}
use nostr_wot_oracle.Sync.Persist.{FollowUpdateBatch, items}
use nostr_wot_oracle.Db.Tables.{Tables}
use nostr_wot_oracle.Db.View.{WellFormed, listed, version}
use nostr_wot_oracle.Db.Laws.Fold.{targets_or, stamp_or}
use nostr_wot_oracle.Db.Laws.Commit.{taken, Updated}
use nostr_wot_oracle.Sync.Agree.{names, edition}
use nostr_wot_oracle.Sync.Agree.Order.{kind_of, carried, carried-latest}

-- The tables' lists of a kind are those of the graph.
abbrev pub AgreesOn : Bool → Tables → WotGraph → Type 0
AgreesOn k t g =
    ((p q : Str) → listed k t p q ≡ names k g p q) × ((p : Str) → version k t p ≡ edition k g p)

-- The tables' lists of a kind are those that the graph will have after the updates.
abbrev pub AheadOn : Bool → List ListUpdate → Tables → WotGraph → Type 0
AheadOn k us t g =
    ((p q : Str)
      → listed k t p q ≡ targets_or (carried k p us (edition k g p) none) q (names k g p q))
    × ((p : Str) → version k t p ≡ stamp_or (carried k p us (edition k g p) none) (edition k g p))

-- Between attempts: the mutes are those of the graph, and the follows may be committed already.
pub record Pending (us : List ListUpdate) (t : Tables) (g : WotGraph) : Type 0 where
  pub well_formed : WellFormed t
  pub follows : AgreesOn false t g ⊎ AheadOn false us t g
  pub mutes : AgreesOn true t g

-- What a batch takes of the updates of its kind.
taken_lem :
    (k : Bool) (us : List ListUpdate) (t : Tables) (p : Str)
    → taken k t (items (kind_of k) us) k p ≡ carried k p us (version k t p) none
unfolding taken
taken_lem false us t p = sym (carried-latest false p us (version false t p) none tt)
taken_lem true us t p = sym (carried-latest true p us (version true t p) none tt)

-- A batch leaves the other kind alone.
taken_other :
    (k : Bool) (us : List FollowUpdateBatch) (t : Tables) (p : Str) → taken k t us (not k) p ≡ none
unfolding taken
taken_other false us t p = refl
taken_other true us t p = refl

module _ (k : Bool) (us : List ListUpdate) (t t' : Tables) (g : WotGraph)
    (updated : Updated k (items (kind_of k) us) t t') where
  -- The first commit of a batch.
  pub first_commit : AgreesOn k t g → AheadOn k us t' g
  first_commit (lists, versions) = (
    λ p q. ground (arith, updated.lists k p q, taken_lem k us t p, lists p q, versions p),
    λ p. ground (arith, updated.versions k p, taken_lem k us t p, versions p),
  )

  -- A batch that is committed a second time.
  pub second_commit : AheadOn k us t g → AheadOn k us t' g
  second_commit (lists, versions) = (
    λ p q. ground (
      arith,
      updated.lists k p q,
      taken_lem k us t p,
      lists p q,
      versions p,
      carried-latest k p us (version k t p) none tt,
      carried-latest k p us (edition k g p) none tt,
    ),
    λ p. ground (
      arith,
      updated.versions k p,
      taken_lem k us t p,
      versions p,
      carried-latest k p us (version k t p) none tt,
      carried-latest k p us (edition k g p) none tt,
    ),
  )

  -- The other kind.
  untouched :
      ((p q : Str) → listed (not k) t' p q ≡ listed (not k) t p q)
      × ((p : Str) → version (not k) t' p ≡ version (not k) t p)
  untouched = (
    λ p q. ground (arith, updated.lists (not k) p q, taken_other k (items (kind_of k) us) t p),
    λ p. ground (arith, updated.versions (not k) p, taken_other k (items (kind_of k) us) t p),
  )

  pub other_agrees : AgreesOn (not k) t g → AgreesOn (not k) t' g
  other_agrees (lists, versions) =
      (λ p q. untouched.0 p q ∙ lists p q, λ p. untouched.1 p ∙ versions p)

  pub other_ahead : AheadOn (not k) us t g → AheadOn (not k) us t' g
  other_ahead (lists, versions) =
      (λ p q. untouched.0 p q ∙ lists p q, λ p. untouched.1 p ∙ versions p)
