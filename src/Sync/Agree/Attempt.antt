-- ===== src/Sync/Agree/Attempt.antt =====
-- `persist_and_apply` of src/sync/ingestion.rs on the tables of src/db/sqlite.rs.
use mathlib.Core.Path.{subst}
use nostr_wot_oracle.Db.Laws.Fold.{targets_or, stamp_or}
use nostr_wot_oracle.Sync.Agree.Order.{carried}
use nostr_wot_oracle.Db.View.{listed, version, WellFormed}
use nostr_wot_oracle.Sync.Agree.{names, edition, Agrees}
use nostr_wot_oracle.Sync.Agree.Published.{AllLists, nodes_of, Published, apply_all-Published}
use nostr_wot_oracle.Sync.Persist.{
  apply_all, select, persist_and_apply, FollowUpdateBatch, Database, items,
}
use nostr_wot_oracle.Graph.Store.Invariant.{HasRoom}
use nostr_wot_oracle.Prelude.{
  sym, ◌∙◌, ℕ, suc, ◌≡◌, ◌⊎◌, Bool, true, false, Option, none, some, List, inl, inr, Option-cases,
  refl,
}
use nostr_wot_oracle.Prelude.Int.{ℤ}
use nostr_wot_oracle.Graph.Store.Types.{WotGraph}
use nostr_wot_oracle.Graph.Store.Invariant
use nostr_wot_oracle.Sync.Events.{ListUpdate, mute_kind}
use nostr_wot_oracle.Db.Tables.{Tables, Rowids}
use nostr_wot_oracle.Db.Batch.{Hashing, update_lists_batch}
use nostr_wot_oracle.Db.Laws.Commit.{
  Updated, update_lists_batch-committed, update_lists_batch-rollback,
}
use nostr_wot_oracle.Sync.Agree.Stored.{
  AgreesOn, AheadOn, Pending, first_commit, second_commit, other_agrees, other_ahead,
}

module _ (rowids : Rowids) (hashing : Hashing) (runs : ℕ → ℤ × Bool) where
  -- One transaction: the n-th has its clock, and its outcome where SQLite itself can fail.
  abbrev transact : Bool → Tables × ℕ → List FollowUpdateBatch → (Tables × ℕ) × Option ℕ
  transact mutes s b =
      let (t, n) = s in
      let (now, commits) = runs n in
      let (t', result) = update_lists_batch rowids now hashing mutes commits b t in
      ((t', suc n), result)

  -- The database of the tables, with the number of transactions so far.
  abbrev pub sqlite : Database
  sqlite = record {
    State = Tables × ℕ;
    Committed = Tables;
    committed = λ s. s.0;
    update_follows_batch = transact false;
    update_mutes_batch = transact true;
    follows_failed =
        λ s b. update_lists_batch-rollback rowids (runs s.1).0 hashing false (runs s.1).1 b s.0;
    mutes_failed =
        λ s b. update_lists_batch-rollback rowids (runs s.1).0 hashing true (runs s.1).1 b s.0;
  }

  -- A transaction that commits leaves the batch in the tables, and one that fails leaves the tables.
  transact_lem :
      (mutes : Bool) (s : Tables × ℕ) (b : List FollowUpdateBatch)
      → WellFormed s.0
      → (((transact mutes s b).1 ≡ none) × ((transact mutes s b).0.0 ≡ s.0))
        ⊎ ((n : ℕ) × ((transact mutes s b).1 ≡ some n)
            × Updated mutes b s.0 (transact mutes s b).0.0)
  transact_lem mutes s b ok = elim (Option-cases (transact mutes s b).1) [
    | inl failed ↦ inl (
      failed,
      update_lists_batch-rollback rowids (runs s.1).0 hashing mutes (runs s.1).1 b s.0 failed,
    )
    | inr (n, done) ↦ inr (
      n,
      done,
      update_lists_batch-committed rowids (runs s.1).0 hashing mutes (runs s.1).1 b s.0 n ok done,
    )
  ]

  -- The follows of a pending batch, after its commit.
  follows_committed :
      (us : List ListUpdate) (t t' : Tables) (g : WotGraph)
      → Pending us t g
      → Updated false (items 3 us) t t'
      → (AheadOn false us t' g × AgreesOn true t' g)
  follows_committed us t t' g pending updated = (
    elim pending.follows [
      | inl old ↦ first_commit false us t t' g updated old
      | inr ahead ↦ second_commit false us t t' g updated ahead
    ],
    other_agrees false us t t' g updated pending.mutes,
  )

  mutes_committed :
      (us : List ListUpdate) (t t' : Tables) (g : WotGraph)
      → AheadOn false us t g
      → AgreesOn true t g
      → Updated true (items mute_kind us) t t'
      → AheadOn false us t' g × AheadOn true us t' g
  mutes_committed us t t' g follows mutes updated =
      (other_ahead true us t t' g updated follows, first_commit true us t t' g updated mutes)

  -- What an attempt leaves: all agrees, or the attempt can be made again.
  abbrev pub Attempted : List ListUpdate → WotGraph → (Tables × ℕ) × WotGraph × Option ℕ → Type 0
  Attempted us g (db, g', none) = (g' ≡ g) × Pending us db.0 g
  Attempted us g (db, g', some n) = WellFormed db.0 × Invariant.WellFormed g' × Agrees db.0 g'

  -- Publishing makes the graph what the tables are.
  published :
      (us : List ListUpdate) (t : Tables) (g : WotGraph)
      → AheadOn false us t g
      → AheadOn true us t g
      → Published us g (apply_all g us)
      → Agrees t (apply_all g us)
  published us t g follows mutes done = record {
    lists = λ k p q.
        done.lists k p q
        ∙ sym
            (elim k
              as (λ k.
                listed k t p q
                ≡ targets_or (carried k p us (edition k g p) none) q (names k g p q)) [
                  | false ↦ follows.0 p q
                  | true ↦ mutes.0 p q
                ]);
    versions = λ k p.
        done.versions k p
        ∙ sym
            (elim k
              as (λ k.
                version k t p ≡ stamp_or (carried k p us (edition k g p) none) (edition k g p)) [
                  | false ↦ follows.1 p
                  | true ↦ mutes.1 p
                ]);
  }

  pub persist_and_apply_lem :
      (us : List ListUpdate) (s : Tables × ℕ) (g : WotGraph)
      → Pending (select us) s.0 g
      → Invariant.WellFormed g
      → HasRoom g (nodes_of (select us))
      → AllLists (select us)
      → Attempted (select us) g (persist_and_apply sqlite s g us)
  unfolding persist_and_apply
  persist_and_apply_lem us s g pending valid room all =
      let sel = select us in
      let follow_items = items 3 sel in
      let mute_items = items mute_kind sel in
      let s1 = (transact false s follow_items).0 in
      let s2 = (transact true s1 mute_items).0 in
      elim (transact_lem false s follow_items pending.well_formed) [
        | inl (failed, same) ↦
            rw (failed, persist_and_apply) (refl, subst (λ t. Pending sel t g) (sym same) pending)
        | inr (n, done, updated) ↦
            let (follows, mutes) = follows_committed sel s.0 s1.0 g pending updated in
            let between : Pending sel s1.0 g = record {
              well_formed = updated.well_formed;
              follows = inr follows;
              mutes = mutes;
            } in
            elim (transact_lem true s1 mute_items updated.well_formed) [
              | inl (failed, same) ↦
                  rw (done, failed, persist_and_apply)
                    (refl, subst (λ t. Pending sel t g) (sym same) between)
              | inr (m, done2, updated2) ↦
                  let (follows2, mutes2) = mutes_committed sel s1.0 s2.0 g follows mutes updated2 in
                  let result = apply_all-Published sel g valid room all in
                  rw (done, done2, persist_and_apply)
                    (
                      updated2.well_formed,
                      result.valid,
                      published sel s2.0 g follows2 mutes2 result,
                    )
            ]
      ]
