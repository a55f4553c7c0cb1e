-- ===== src/Db/Batch.antt =====
-- `update_lists_batch` of src/db/sqlite.rs. A statement that breaks a constraint is `none`, and rolls
-- the transaction back. The order in which `HashMap` and `HashSet` are read is a parameter.
use nostr_wot_oracle.Prelude.{
  ℕ, ◌+◌, ◌≡◌, List, [], ◌∷◌, Bool, true, false, not, Option, none, some, if◌then◌else◌, is_empty,
  map, is_some, nat_eq,
}
use mathlib.Core.Option
use nostr_wot_oracle.Prelude.Int.{ℤ}
use nostr_wot_oracle.Prelude.Str.{Str, str_key, contains}
use nostr_wot_oracle.Prelude.Dict.{Dict, DistinctKeys, lookup, insert}
use nostr_wot_oracle.Sync.Persist.{FollowUpdateBatch}
use nostr_wot_oracle.Db.{event_wins}
use nostr_wot_oracle.Db.Tables.{
  Tables, NodeRow, Rowids, insert_node, upsert_kind3, id_of, old_edges, delete_edge, insert_edge,
}

abbrev pub Nodup : List Str → Type 0
Nodup [] = Unit
Nodup (p ∷ ps) = (contains p ps ≡ false) × Nodup ps

-- Reading a `HashMap` or collecting a `HashSet`: each entry once, in some order.
pub record Hashing : Type 0 where
  pub entries : Dict Str FollowUpdateBatch → Dict Str FollowUpdateBatch
  pub distinct : List Str → List Str
  pub lookup-entries :
      (m : Dict Str FollowUpdateBatch) (k : Str)
      → DistinctKeys m
      → lookup k (entries m) ≡ lookup k m
  pub entries-DistinctKeys :
      (m : Dict Str FollowUpdateBatch) → DistinctKeys m → DistinctKeys (entries m)
  pub contains-distinct : (p : Str) (ps : List Str) → contains p (distinct ps) ≡ contains p ps
  pub distinct-Nodup : (ps : List Str) → Nodup (distinct ps)

-- `for update in updates`: the winner of each author.
unfoldable pub author_winners :
    List FollowUpdateBatch → Dict Str FollowUpdateBatch → Dict Str FollowUpdateBatch
unfolding event_wins
author_winners [] winners = winners
author_winners (update ∷ updates) winners =
    author_winners updates (elim (lookup update.pubkey winners) [
      | none ↦ insert update.pubkey update winners
      | some previous ↦
          if event_wins update.created_at update.event_id previous.created_at previous.event_id
          then insert update.pubkey update winners
          else winners
    ])

-- `get_node`: the id, and the version of the list in question. A left join has no version where
-- there is no mute list.
unfoldable pub get_node : Bool → Tables → Str → Option (ℕ × Option Str × Option ℤ)
get_node false t p =
    Option.map (λ (r : NodeRow). (r.id, r.kind3_event_id, r.kind3_created_at)) (lookup p t.nodes)
get_node true t p =
    Option.map
      (λ i. elim (lookup i t.mute_lists) as (λ x. ℕ × Option Str × Option ℤ) [
        | none ↦ (i, none, none)
        | some m ↦ (i, m.event_id, m.created_at)
      ])
      (id_of t.nodes p)

-- `if let Some(..) = existing && !event_wins(..) { continue; }`
unfoldable pub keeps_existing : Bool → FollowUpdateBatch → Tables → Bool
unfolding get_node event_wins
keeps_existing mutes update t = elim (get_node mutes t update.pubkey) [
  | none ↦ false
  | some (i, event_id, ts) ↦ not (event_wins update.created_at update.event_id ts event_id)
]

-- The `nodes` table, the edge table of the batch, and the cache `node_ids`.
pub record Links : Type 0 where
  pub nodes : Dict Str NodeRow
  pub edges : List (ℕ × ℕ)
  pub node_ids : Dict Str ℕ

-- `for (pubkey, id) in &previous`
unfoldable pub delete_loop : ℕ → List Str → Dict Str ℕ → List (ℕ × ℕ) → List (ℕ × ℕ)
unfolding delete_edge
delete_loop follower desired [] es = es
delete_loop follower desired ((p, i) ∷ previous) es =
    delete_loop follower desired previous
      (if contains p desired then es else delete_edge follower i es)

abbrev pub edge_table : Bool → Tables → List (ℕ × ℕ)
edge_table false t = t.edges
edge_table true t = t.mute_edges

abbrev pub put_links : Bool → Links → Tables → Tables
put_links false s t = record t { nodes = s.nodes; edges = s.edges }
put_links true s t = record t { nodes = s.nodes; mute_edges = s.edges }

abbrev pub values : Dict Str FollowUpdateBatch → List FollowUpdateBatch
values = map (λ (e : Str × FollowUpdateBatch). e.1)

module _ (rowids : Rowids) (now : ℤ) where
  -- The id of a target, from the cache or after its insert.
  unfoldable pub resolve : Str → Links → Option (Links × ℕ)
  unfolding insert_node
  resolve p s = elim (lookup p s.node_ids) [
    | some i ↦ some (s, i)
    | none ↦
        let nodes = insert_node rowids now p s.nodes in
        Option.map (λ i. (record s { nodes = nodes; node_ids = insert p i s.node_ids }, i))
          (id_of nodes p)
  ]

  unfoldable pub insert_target : ℕ → Str → Links → Option Links
  unfolding resolve insert_edge
  insert_target follower p s = elim (resolve p s) [
    | none ↦ none
    | some (s', i) ↦ Option.map (λ es. record s' { edges = es }) (insert_edge follower i s'.edges)
  ]

  -- `for pubkey in desired`
  unfoldable pub insert_loop : ℕ → Dict Str ℕ → List Str → Links → Option Links
  unfolding insert_target
  insert_loop follower previous [] s = some s
  insert_loop follower previous (p ∷ ps) s =
      if is_some (lookup p previous)
      then insert_loop follower previous ps s
      else (elim (insert_target follower p s) [
        | none ↦ none
        | some s' ↦ insert_loop follower previous ps s'
      ])

  -- `upsert_node` and the `follower_id` after it; a mute list needs its author's node first.
  unfoldable pub upsert_author : Bool → FollowUpdateBatch → Tables → Option (Tables × ℕ)
  unfolding insert_node upsert_kind3
  upsert_author false u t =
      let nodes = upsert_kind3 rowids now u.pubkey u.event_id u.created_at t.nodes in
      Option.map (λ i. (record t { nodes = nodes }, i)) (id_of nodes u.pubkey)
  upsert_author true u t =
      let nodes = insert_node rowids now u.pubkey t.nodes in
      Option.map
        (λ i. (
          record t {
            nodes = nodes;
            mute_lists =
                insert i
                  (record { event_id = u.event_id; created_at = u.created_at; updated_at = now })
                  t.mute_lists;
          },
          i,
        ))
        (id_of nodes u.pubkey)

  module _ (hashing : Hashing) where
    -- The follower's edges become the desired ones.
    unfoldable pub replace_edges : ℕ → List Str → Links → Option Links
    unfolding old_edges delete_loop insert_loop
    replace_edges follower follows s =
        let previous = old_edges follower s.nodes s.edges in
        insert_loop follower previous (hashing.distinct follows)
          (record s { edges = delete_loop follower follows previous s.edges })

    -- One turn of `for update in winners.values()`, with whether it counts as accepted.
    unfoldable pub persist_author :
        Bool → FollowUpdateBatch → Tables → Dict Str ℕ → Option (Tables × Dict Str ℕ × Bool)
    unfolding keeps_existing upsert_author replace_edges
    persist_author mutes u t node_ids =
        if keeps_existing mutes u t
        then some (t, node_ids, false)
        else (elim (upsert_author mutes u t) [
          | none ↦ none
          | some (t', follower) ↦
              Option.map (λ (s : Links). (put_links mutes s t', s.node_ids, true))
                (replace_edges follower u.follows (record {
                  nodes = t'.nodes;
                  edges = edge_table mutes t';
                  node_ids = insert u.pubkey follower node_ids;
                }))
        ])

    unfoldable pub persist_all :
        Bool → List FollowUpdateBatch → Tables → Dict Str ℕ → ℕ → Option (Tables × ℕ)
    unfolding persist_author
    persist_all mutes [] t node_ids accepted = some (t, accepted)
    persist_all mutes (u ∷ us) t node_ids accepted = elim (persist_author mutes u t node_ids) [
      | none ↦ none
      | some (t', ids, counts) ↦
          persist_all mutes us t' ids (if counts then accepted + 1 else accepted)
    ]

    -- `commits`: SQLite runs the statements and the commit without an error of its own.
    unfoldable pub update_lists_batch :
        Bool → Bool → List FollowUpdateBatch → Tables → Tables × Option ℕ
    unfolding persist_all author_winners
    update_lists_batch mutes commits updates t =
        if is_empty updates
        then (t, some 0)
        else (elim (persist_all mutes (values (hashing.entries (author_winners updates []))) t []
            0) [
              | none ↦ (t, none)
              | some (t', accepted) ↦ if commits then (t', some accepted) else (t, none)
            ])

    abbrev pub update_follows_batch : Bool → List FollowUpdateBatch → Tables → Tables × Option ℕ
    update_follows_batch = update_lists_batch false

    abbrev pub update_mutes_batch : Bool → List FollowUpdateBatch → Tables → Tables × Option ℕ
    update_mutes_batch = update_lists_batch true

    -- `update_follows`: a batch of one.
    abbrev pub update_follows :
        Bool → Str → List Str → Option Str → Option ℤ → Tables → Tables × Option ℕ
    update_follows commits pubkey follows event_id created_at = update_follows_batch commits (
        record { pubkey = pubkey; follows = follows; event_id = event_id; created_at = created_at }
        ∷ [])
