-- ===== src/Db/Laws/Turn.antt =====
-- One turn of the loop of `update_lists_batch`, src/db/sqlite.rs, whether its author's update wins or not.
use nostr_wot_oracle.Prelude.{
  Option-cases, is_some, nat_eq, ◌∙◌, ℕ, ◌≡◌, List, Bool, true, false, ◌&&◌, some, arith,
  if◌then◌else◌, inl, inr, Bool-cases, refl,
}
use nostr_wot_oracle.Prelude.Int.{ℤ}
use nostr_wot_oracle.Prelude.Str.{Str, str_eq, str_eq_iff, str_key, contains}
use nostr_wot_oracle.Prelude.Dict.{Dict, lookup, insert, lookup-insert}
use nostr_wot_oracle.Sync.Persist.{FollowUpdateBatch}
use nostr_wot_oracle.Db.Tables.{has_pair, Tables, Rowids, id_of}
use nostr_wot_oracle.Db.Batch.{
  Links, Hashing, keeps_existing, persist_author, edge_table, put_links,
}
use nostr_wot_oracle.Db.View.{KnownEdges, WellFormed, linked, listed, version}
use nostr_wot_oracle.Db.Laws.Nodes.{Grows-KnownEdges, Grows-linked, Grows-Known}
use nostr_wot_oracle.Db.Laws.Replace.{Sound, Later, replace_edges_lem}
use nostr_wot_oracle.Db.Laws.Author.{
  stamp, wins_over, keeps_existing-version, same_kind, Grows-mute_version, Upserted,
  upsert_author_lem,
}

-- The transaction's cache of ids agrees with the table.
abbrev pub Cached : Tables → Dict Str ℕ → Type 0
Cached t ids = (p : Str) (i : ℕ) → lookup p ids ≡ some i → id_of t.nodes p ≡ some i

-- Whether the list of a kind of `p` is the one that an update wins.
abbrev pub hits : Bool → Bool → FollowUpdateBatch → Bool → Str → Bool
hits wins mutes u k p = wins && (same_kind mutes k && str_eq u.pubkey p)

-- The tables after an update's turn: its list and version in place if it wins, all else as it was.
pub record Settled (wins mutes : Bool) (u : FollowUpdateBatch) (t t' : Tables) : Type 0 where
  pub well_formed : WellFormed t'
  pub lists :
      (k : Bool) (p q : Str)
      → listed k t' p q ≡ (if hits wins mutes u k p then contains q u.follows else listed k t p q)
  pub versions :
      (k : Bool) (p : Str)
      → version k t' p ≡ (if hits wins mutes u k p then stamp u else version k t p)

-- The end of a turn that wins: the rows of the author's list are replaced.
module _ (u : FollowUpdateBatch) (t t1 : Tables) (f : ℕ) (s : Links) (old : WellFormed t)
    (later : Later t1.nodes s.nodes) (sound : Sound s) where
  abbrev Replaced : Bool → Type 0
  Replaced mutes =
      (p q : Str)
      → linked s.nodes s.edges p q ≡ (
          if str_eq u.pubkey p
          then contains q u.follows
          else linked t1.nodes (edge_table mutes t1) p q)

  -- The links through a table that neither step touches.
  untouched :
      (mutes : Bool)
      → Upserted mutes u t t1 f
      → (es : List (ℕ × ℕ)) (p q : Str) → KnownEdges t.nodes es
      → (linked s.nodes es p q ≡ linked t.nodes es p q)
        × (linked t1.nodes es p q ≡ linked t.nodes es p q)
  untouched mutes up es p q known =
      let first = Grows-linked t.nodes t1.nodes up.grows es p q known in
      let second =
        Grows-linked t1.nodes s.nodes later.grows es p q
          (Grows-KnownEdges t.nodes t1.nodes up.grows es known) in
      (second ∙ first, first)

  abbrev Lists : Bool → Bool → Str → Str → Type 0
  Lists mutes k p q =
      listed k (put_links mutes s t1) p q
      ≡ (if hits true mutes u k p then contains q u.follows else listed k t p q)

  abbrev Versions : Bool → Bool → Str → Type 0
  Versions mutes k p =
      version k (put_links mutes s t1) p
      ≡ (if hits true mutes u k p then stamp u else version k t p)

  each_version :
      (mutes : Bool) → Upserted mutes u t t1 f → (k : Bool) (p : Str) → Versions mutes k p
  unfolding version
  each_version false up false p = later.versions p ∙ up.versions false p
  each_version true up false p = later.versions p ∙ up.versions false p
  each_version false up true p =
      Grows-mute_version t1 s.nodes p up.well_formed later.grows ∙ up.versions true p
  each_version true up true p =
      Grows-mute_version t1 s.nodes p up.well_formed later.grows ∙ up.versions true p

  each_list :
      (mutes : Bool)
      → Upserted mutes u t t1 f
      → Replaced mutes
      → (k : Bool) (p q : Str) → Lists mutes k p q
  unfolding listed
  each_list false up links false p q =
      links p q
      ∙ rw (up.follow_edges) (ground (arith, untouched false up t.edges p q old.follow_ids))
  each_list true up links true p q =
      links p q
      ∙ rw (up.mute_edges) (ground (arith, untouched true up t.mute_edges p q old.mute_ids))
  each_list false up links true p q =
      rw (up.mute_edges) ((untouched false up t.mute_edges p q old.mute_ids).0)
  each_list true up links false p q =
      rw (up.follow_edges) ((untouched true up t.edges p q old.follow_ids).0)

  -- An edge of the mute table is the author's, or was there before.
  author_or_old :
      Upserted true u t t1 f
      → Replaced true
      → (a b : ℕ) → has_pair a b s.edges ≡ true
      → is_some (lookup a t1.mute_lists) ≡ true
  author_or_old up links a b h =
      let ((p, ep), (q, eq)) = sound.edge_ids a b h in
      let joined : linked s.nodes s.edges p q ≡ true = rw (ep, eq) h in
      elim (Bool-cases (str_eq u.pubkey p)) [
        | inl author ↦
            let same : f ≡ a =
              ground (arith, str_eq_iff u.pubkey p, up.id, later.grows.keeps u.pubkey f) in
            rw (← same) (up.listed refl)
        | inr other ↦
            let old : linked t1.nodes t1.mute_edges p q ≡ true = ground (arith, links p q) in
            elim (Option-cases (id_of t1.nodes p)) [
              | inl x ↦ absurd (ground arith)
              | inr (i, x) ↦ elim (Option-cases (id_of t1.nodes q)) [
                | inl y ↦ absurd (ground arith)
                | inr (j, y) ↦
                    let same : i ≡ a = ground (arith, later.grows.keeps p i x) in
                    rw (← same) (up.well_formed.mute_listed i j (ground arith))
              ]
            ]
      ]

  still_valid :
      (mutes : Bool) → Upserted mutes u t t1 f → Replaced mutes → WellFormed (put_links mutes s t1)
  still_valid false up links = record {
    distinct = sound.distinct;
    unique = sound.unique;
    follow_ids = sound.edge_ids;
    mute_ids = Grows-KnownEdges t1.nodes s.nodes later.grows t1.mute_edges up.well_formed.mute_ids;
    mute_authors =
        λ i m h. Grows-Known t1.nodes s.nodes later.grows i (up.well_formed.mute_authors i m h);
    mute_listed = up.well_formed.mute_listed;
  }
  still_valid true up links = record {
    distinct = sound.distinct;
    unique = sound.unique;
    follow_ids = Grows-KnownEdges t1.nodes s.nodes later.grows t1.edges up.well_formed.follow_ids;
    mute_ids = sound.edge_ids;
    mute_authors =
        λ i m h. Grows-Known t1.nodes s.nodes later.grows i (up.well_formed.mute_authors i m h);
    mute_listed = author_or_old up links;
  }

  finish :
      (mutes : Bool)
      → Upserted mutes u t t1 f
      → Replaced mutes
      → Settled true mutes u t (put_links mutes s t1)
  finish mutes up links = record {
    well_formed = still_valid mutes up links;
    lists = each_list mutes up links;
    versions = each_version mutes up;
  }

module _ (rowids : Rowids) (now : ℤ) (hashing : Hashing) where
  nodes-put_links : (mutes : Bool) (s : Links) (t : Tables) → (put_links mutes s t).nodes ≡ s.nodes
  nodes-put_links false s t = refl
  nodes-put_links true s t = refl

  edge_ids : (mutes : Bool) (t : Tables) → WellFormed t → KnownEdges t.nodes (edge_table mutes t)
  edge_ids false t ok = ok.follow_ids
  edge_ids true t ok = ok.mute_ids

  pub persist_author_lem :
      (mutes : Bool) (u : FollowUpdateBatch) (t : Tables) (ids : Dict Str ℕ)
      → WellFormed t
      → Cached t ids
      → let wins = wins_over u (version mutes t u.pubkey) in
        (r : Tables × Dict Str ℕ) × (persist_author rowids now hashing mutes u t ids
          ≡ some (r.0, r.1, wins))
        × Cached r.0 r.1
        × Settled wins mutes u t r.0
  unfolding persist_author
  persist_author_lem mutes u t ids ok cached =
      elim (Bool-cases (wins_over u (version mutes t u.pubkey))) [
        | inr loses ↦ rw loses (
          (t, ids),
          ground (arith, loses, keeps_existing-version mutes u t),
          cached,
          record { well_formed = ok; lists = λ k p q. refl; versions = λ k p. refl },
        )
        | inl wins ↦
            let (r, upsert, up) = upsert_author_lem rowids now mutes u t ok in
            let t1 = r.0 in
            let start : Links = record {
              nodes = t1.nodes;
              edges = edge_table mutes t1;
              node_ids = insert u.pubkey r.1 ids;
            } in
            let (s, run, reached, links) =
              replace_edges_lem rowids now u.pubkey r.1 hashing u.follows start
                (record {
                  distinct = up.well_formed.distinct;
                  unique = up.well_formed.unique;
                  edge_ids = edge_ids mutes t1 up.well_formed;
                  cached = λ p i h. ground (
                    arith,
                    lookup-insert u.pubkey p r.1 ids,
                    str_eq_iff u.pubkey p,
                    up.id,
                    cached p i,
                    up.grows.keeps p i,
                  );
                })
                up.id in
            let kept : keeps_existing mutes u t ≡ false =
              ground (arith, keeps_existing-version mutes u t) in
            rw wins (
              (put_links mutes s t1, s.node_ids),
              rw (kept, upsert, run, persist_author) refl,
              rw nodes-put_links reached.sound.cached,
              finish u t t1 r.1 s ok reached.later reached.sound mutes up links,
            )
      ]
