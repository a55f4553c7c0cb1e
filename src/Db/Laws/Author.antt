-- ===== src/Db/Laws/Author.antt =====
-- One turn of the loop of `update_lists_batch`, src/db/sqlite.rs, against the lists that the tables hold.
use nostr_wot_oracle.Prelude.{
  is_some, ℕ, ◌≡◌, Bool, true, false, not, ◌&&◌, Option, some, arith, if◌then◌else◌, inl, inr, ◌==◌,
  Bool-cases, Option-cases, refl, nat_eq,
}
use nostr_wot_oracle.Prelude.Int.{ℤ}
use nostr_wot_oracle.Prelude.Str.{Str, str_eq, str_eq_iff, str_key}
use nostr_wot_oracle.Prelude.Dict.{Dict, lookup, insert, lookup-insert, insert-DistinctKeys}
use nostr_wot_oracle.Sync.Persist.{FollowUpdateBatch}
use nostr_wot_oracle.Db.{event_wins}
use nostr_wot_oracle.Db.Tables.{Tables, NodeRow, MuteRow, Rowids, id_of, insert_node, upsert_kind3}
use nostr_wot_oracle.Db.Batch.{get_node, keeps_existing, upsert_author}
use nostr_wot_oracle.Db.View.{WellFormed, version, version_at}
use nostr_wot_oracle.Db.Laws.Nodes.{
  Grows, Grows-Known, Grows-KnownEdges, Adds-Unique, Adds-Grows, insert_node-Adds,
  insert_node-DistinctKeys, insert_node-version, upsert_kind3-Adds, upsert_kind3-version,
}

-- The event that an update's list comes from.
abbrev pub stamp : FollowUpdateBatch → Option Str × Option ℤ
stamp u = (u.event_id, u.created_at)

-- Whether an update replaces a version.
abbrev pub wins_over : FollowUpdateBatch → Option Str × Option ℤ → Bool
wins_over u v = event_wins u.created_at u.event_id v.1 v.0

pub keeps_existing-version :
    (mutes : Bool) (u : FollowUpdateBatch) (t : Tables)
    → keeps_existing mutes u t ≡ not (wins_over u (version mutes t u.pubkey))
unfolding keeps_existing get_node version event_wins
keeps_existing-version false u t = ground arith
keeps_existing-version true u t = ground arith

abbrev pub same_kind : Bool → Bool → Bool
same_kind false k = not k
same_kind true k = k

-- The rows of `mute_lists` keep their authors when nodes are added.
pub Grows-mute_version :
    (t : Tables) (nodes : Dict Str NodeRow) (p : Str)
    → WellFormed t
    → Grows t.nodes nodes
    → version_at t.mute_lists (id_of nodes p) ≡ version_at t.mute_lists (id_of t.nodes p)
Grows-mute_version t nodes p ok grows = elim (Option-cases (id_of t.nodes p)) [
  | inr (i, x) ↦ rw (x, grows.keeps p i x) refl
  | inl x ↦ elim (Option-cases (id_of nodes p)) [
    | inl y ↦ rw (x, y) refl
    | inr (j, y) ↦ elim (Option-cases (lookup j t.mute_lists)) [
      | inl z ↦ rw (x, y, z) refl
      | inr (m, z) ↦ absurd (grows.fresh p j x y (ok.mute_authors j m z))
    ]
  ]
]

-- The update's version is the author's, and the other versions stay.
abbrev pub Stamped : Bool → FollowUpdateBatch → Tables → Tables → Bool → Str → Type 0
Stamped mutes u t t' k p =
    version k t' p ≡ (if same_kind mutes k && str_eq u.pubkey p then stamp u else version k t p)

-- After the statements that give the author a row and a version.
pub record Upserted (mutes : Bool) (u : FollowUpdateBatch) (t t' : Tables) (follower : ℕ)
    : Type 0 where
  pub well_formed : WellFormed t'
  pub id : id_of t'.nodes u.pubkey ≡ some follower
  pub listed : mutes ≡ true → is_some (lookup follower t'.mute_lists) ≡ true
  pub grows : Grows t.nodes t'.nodes
  pub follow_edges : t'.edges ≡ t.edges
  pub mute_edges : t'.mute_edges ≡ t.mute_edges
  pub versions : (k : Bool) (p : Str) → Stamped mutes u t t' k p

module _ (rowids : Rowids) (now : ℤ) where
  pub upsert_author_lem :
      (mutes : Bool) (u : FollowUpdateBatch) (t : Tables)
      → WellFormed t
      → (r : Tables × ℕ) × (upsert_author rowids now mutes u t ≡ some r)
        × Upserted mutes u t r.0 r.1
  unfolding upsert_author version
  upsert_author_lem false u t ok =
      let nodes = upsert_kind3 rowids now u.pubkey u.event_id u.created_at t.nodes in
      let adds = upsert_kind3-Adds rowids now u.pubkey u.event_id u.created_at t.nodes in
      let grows = Adds-Grows rowids u.pubkey t.nodes nodes adds ok.unique in
      elim (Option-cases (id_of nodes u.pubkey)) [
        | inl x ↦ absurd (ground (arith, adds u.pubkey, str_eq_iff u.pubkey u.pubkey))
        | inr (i, x) ↦ (
          (record t { nodes = nodes }, i),
          rw x refl,
          record {
            well_formed = record {
              distinct = insert-DistinctKeys u.pubkey _ t.nodes ok.distinct;
              unique = Adds-Unique rowids u.pubkey t.nodes nodes adds ok.unique;
              follow_ids = Grows-KnownEdges t.nodes nodes grows t.edges ok.follow_ids;
              mute_ids = Grows-KnownEdges t.nodes nodes grows t.mute_edges ok.mute_ids;
              mute_authors = λ j m h. Grows-Known t.nodes nodes grows j (ok.mute_authors j m h);
              mute_listed = ok.mute_listed;
            };
            id = x;
            listed = λ h. absurd (ground arith);
            grows = grows;
            follow_edges = refl;
            mute_edges = refl;
            versions = λ k p. elim k as (λ x. Stamped false u t (record t { nodes = nodes }) x p) [
              | false ↦ upsert_kind3-version rowids now u.pubkey p u.event_id u.created_at t.nodes
              | true ↦ Grows-mute_version t nodes p ok grows
            ];
          },
        )
      ]
  upsert_author_lem true u t ok =
      let nodes = insert_node rowids now u.pubkey t.nodes in
      let adds = insert_node-Adds rowids now u.pubkey t.nodes in
      let grows = Adds-Grows rowids u.pubkey t.nodes nodes adds ok.unique in
      let unique = Adds-Unique rowids u.pubkey t.nodes nodes adds ok.unique in
      elim (Option-cases (id_of nodes u.pubkey)) [
        | inl x ↦ absurd (ground (arith, adds u.pubkey, str_eq_iff u.pubkey u.pubkey))
        | inr (i, x) ↦
            let row : MuteRow = record {
              event_id = u.event_id;
              created_at = u.created_at;
              updated_at = now;
            } in
            (
              (record t { nodes = nodes; mute_lists = insert i row t.mute_lists }, i),
              rw x refl,
              record {
                well_formed = record {
                  distinct = insert_node-DistinctKeys rowids now u.pubkey t.nodes ok.distinct;
                  unique = unique;
                  follow_ids = Grows-KnownEdges t.nodes nodes grows t.edges ok.follow_ids;
                  mute_ids = Grows-KnownEdges t.nodes nodes grows t.mute_edges ok.mute_ids;
                  mute_authors = λ j m h. elim (Bool-cases (i == j)) [
                    | inl same ↦ (u.pubkey, ground arith)
                    | inr other ↦
                        Grows-Known t.nodes nodes grows j
                          (ok.mute_authors j m (ground (arith, lookup-insert i j row t.mute_lists)))
                  ];
                  mute_listed = λ a b h.
                      ground (arith, ok.mute_listed a b h, lookup-insert i a row t.mute_lists);
                };
                id = x;
                listed = λ h. ground (arith, lookup-insert i i row t.mute_lists);
                grows = grows;
                follow_edges = refl;
                mute_edges = refl;
                versions = λ k p.
                    elim k
                      as (λ x.
                        Stamped true u t
                          (record t { nodes = nodes; mute_lists = insert i row t.mute_lists }) x
                          p) [
                            | false ↦ insert_node-version rowids now u.pubkey p t.nodes
                            | true ↦ elim (Option-cases (id_of nodes p)) [
                              | inl y ↦ ground (
                                arith,
                                str_eq_iff u.pubkey p,
                                Grows-mute_version t nodes p ok grows,
                              )
                              | inr (j, y) ↦ rw y (
                                  ground (
                                    arith,
                                    str_eq_iff u.pubkey p,
                                    Grows-mute_version t nodes p ok grows,
                                    unique u.pubkey p i,
                                    lookup-insert i j row t.mute_lists,
                                  ))
                            ]
                          ];
              },
            )
      ]
