-- ===== src/Tests/Tables.antt =====
-- The database's theorems on a small database, with concrete choices for what SQLite leaves open.
use nostr_wot_oracle.Db.Tables.{Tables, NodeRow, Rowids, empty}
use nostr_wot_oracle.Prelude.Str.{str_eq, lit, Str, str_eq_iff, str_key, contains}
use nostr_wot_oracle.Prelude.{
  length, ◌⊎◌, inr, none, Bool, ◌+◌, not, ◌==◌, ℕ, suc, ◌≡◌, ◌≤◌, List, [], ◌∷◌, true, false, some,
  is_some, max, if◌then◌else◌, refl, arith, Bool-cases, inl, ◌∙◌,
}
use nostr_wot_oracle.Sync.Persist.{items, select, winners_loop, supersedes, FollowUpdateBatch}
use nostr_wot_oracle.Db.View.{WellFormed, empty-WellFormed}
use nostr_wot_oracle.Db.Load.{load_graph}
use nostr_wot_oracle.Db.Laws.Loads.{load_graph_answers}
use nostr_wot_oracle.Db.Batch.{
  author_winners, persist_all, persist_author, Hashing, Nodup, update_lists_batch,
}
use nostr_wot_oracle.Sync.Events.{SeenEvent, ListUpdate, mute_kind}
use nostr_wot_oracle.Prelude.Int.{ℤ, pos}
use nostr_wot_oracle.Prelude.Sorted.{sort}
use nostr_wot_oracle.Prelude.Dict.{lookup, insert, Dict}
use nostr_wot_oracle.Sync.Ingest.{Ingestion, SeenCache, flush}
use nostr_wot_oracle.Sync.Status.{default_status}
use nostr_wot_oracle.Graph.Store.Types.{new}
use nostr_wot_oracle.Sync.Agree.Flushed.{database, Ended, empty-Consistent, flush-Ended}
use nostr_wot_oracle.Db.Laws.Commit.{Updated, update_lists_batch-Updated}
use nostr_wot_oracle.Tests.Samples.{ann, bob, dan, bob_cat, first_id, second_id, at_ten, at_twenty}

-- One more than the largest id.
abbrev largest : Dict Str NodeRow → ℕ
largest [] = 0
largest ((p, r) ∷ nodes) = max r.id (largest nodes)

below_largest :
    (nodes : Dict Str NodeRow) (p : Str) (r : NodeRow)
    → lookup p nodes ≡ some r
    → r.id ≤ largest nodes
unfolding lookup
below_largest [] p r h = absurd (ground arith)
below_largest ((q, s) ∷ nodes) p r h = ground (arith, below_largest nodes p r)

abbrev rowids : Rowids
rowids = record {
  next = λ nodes. suc (largest nodes);
  next-fresh = λ nodes p r h e. absurd (omega (arith, below_largest nodes p r h));
}

abbrev unique_strs : List Str → List Str
unique_strs [] = []
unique_strs (p ∷ ps) = if contains p ps then unique_strs ps else p ∷ unique_strs ps

contains-unique_strs : (p : Str) (ps : List Str) → contains p (unique_strs ps) ≡ contains p ps
contains-unique_strs p [] = refl
contains-unique_strs p (q ∷ ps) = ground (arith, contains-unique_strs p ps, str_eq_iff q p)

unique_strs-Nodup : (ps : List Str) → Nodup (unique_strs ps)
unique_strs-Nodup [] = tt
unique_strs-Nodup (p ∷ ps) = elim (Bool-cases (contains p ps)) [
  | inl again ↦ rw again (unique_strs-Nodup ps)
  | inr once ↦ rw once (contains-unique_strs p ps ∙ once, unique_strs-Nodup ps)
]

abbrev in_order : Hashing
in_order = record {
  entries = λ m. m;
  distinct = unique_strs;
  lookup-entries = λ m k d. refl;
  entries-DistinctKeys = λ m d. d;
  contains-distinct = contains-unique_strs;
  distinct-Nodup = unique_strs-Nodup;
}

-- Two versions of a list in one batch.
abbrev ann_first : FollowUpdateBatch
ann_first = record { pubkey = ann; follows = bob_cat; event_id = first_id; created_at = at_ten }

abbrev rest : List FollowUpdateBatch
rest =
    record {
      pubkey = ann;
      follows = bob ∷ bob ∷ dan ∷ [];
      event_id = second_id;
      created_at = at_twenty;
    }
    ∷ record { pubkey = bob; follows = []; event_id = first_id; created_at = at_ten }
    ∷ []

abbrev batch : List FollowUpdateBatch
batch = ann_first ∷ rest

update_lists_batch-Updated_example :
    let result = update_lists_batch rowids (pos 30) in_order false true batch empty in
    (is_some result.1 ≡ true) × Updated false batch empty result.0
update_lists_batch-Updated_example =
    update_lists_batch-Updated rowids (pos 30) in_order false batch empty empty-WellFormed

-- The second transaction fails, and the others commit.
abbrev runs : ℕ → ℤ × Bool
runs n = (pos (30 + n), not (n == 1))

nothing_held :
    (j k : Str × ℕ) (v w : SeenEvent) → none ≡ some w → ((j ≡ k) × (w ≡ v)) ⊎ (none ≡ some w)
nothing_held j k v w h = inr h

-- A cache that forgets.
abbrev no_cache : SeenCache
no_cache = record {
  Seen = Unit;
  empty = tt;
  get = λ c k. none;
  put = λ c k v. tt;
  get-empty = λ k. refl;
  get-put = λ c j k v w. nothing_held j k v w;
}

abbrev two_lists : List ListUpdate
two_lists =
    record { kind = 3; pubkey = ann; follows = bob ∷ []; event_id = lit "e1"; created_at = pos 10 }
    ∷ record {
      kind = mute_kind;
      pubkey = bob;
      follows = ann ∷ [];
      event_id = lit "e2";
      created_at = pos 11;
    }
    ∷ []

both_selected : select two_lists ≡ two_lists
unfolding select winners_loop supersedes lookup insert sort
both_selected = refl

abbrev state : Ingestion (database rowids in_order runs no_cache) no_cache
state = record {
  db = (empty, 0);
  graph = new;
  status = default_status;
  seen = tt;
  batch = two_lists;
}

abbrev always : ℕ → Bool
always attempt = true

flush-Ended_example :
    Ended rowids in_order runs no_cache
      (select two_lists)
      new
      (flush (database rowids in_order runs no_cache) no_cache always 1000 state)
flush-Ended_example =
    flush-Ended rowids in_order runs no_cache always 1000 state empty-Consistent
      (rw both_selected (omega arith)) (refl, (refl, tt))

-- The tables after `two_lists`, loaded into an empty graph.
abbrev stored : Tables
stored = (update_lists_batch rowids (pos 31) in_order true true (items mute_kind two_lists) empty).0

stored-WellFormed : WellFormed stored
stored-WellFormed =
    (update_lists_batch-Updated rowids (pos 31) in_order true (items mute_kind two_lists) empty
      empty-WellFormed).1.well_formed

two_nodes : length stored.nodes ≡ 2
unfolding update_lists_batch author_winners persist_all persist_author lookup insert str_eq
two_nodes = refl

load_graph_answers_example : is_some (load_graph stored new) ≡ true
load_graph_answers_example =
    load_graph_answers stored stored-WellFormed new (omega (arith, two_nodes))
