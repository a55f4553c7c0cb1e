-- ===== src/Db/View.antt =====
-- What the tables of src/db/sqlite.rs say about pubkeys: who is listed by whom, and in which version.
use nostr_wot_oracle.Prelude.{
  is_some, ℕ, ◌≡◌, List, Bool, true, false, Option, none, some, nat_eq, arith,
}
use nostr_wot_oracle.Prelude.Int.{ℤ}
use nostr_wot_oracle.Prelude.Str.{Str, str_key}
use nostr_wot_oracle.Prelude.Dict.{Dict, DistinctKeys, lookup}
use nostr_wot_oracle.Db.Tables.{Tables, empty, NodeRow, MuteRow, id_of, has_pair}

abbrev pub pair_of : Option ℕ → Option ℕ → List (ℕ × ℕ) → Bool
pair_of none b es = false
pair_of (some a) none es = false
pair_of (some a) (some b) es = has_pair a b es

-- An edge between the ids of two pubkeys.
abbrev pub linked : Dict Str NodeRow → List (ℕ × ℕ) → Str → Str → Bool
linked nodes es p q = pair_of (id_of nodes p) (id_of nodes q) es

-- The primary key of `nodes`: an id has one pubkey.
abbrev pub Unique : Dict Str NodeRow → Type 0
Unique nodes = (p q : Str) (i : ℕ) → id_of nodes p ≡ some i → id_of nodes q ≡ some i → p ≡ q

abbrev pub Known : Dict Str NodeRow → ℕ → Type 0
Known nodes i = (p : Str) × (id_of nodes p ≡ some i)

-- The foreign keys of an edge table.
abbrev pub KnownEdges : Dict Str NodeRow → List (ℕ × ℕ) → Type 0
KnownEdges nodes es = (a b : ℕ) → has_pair a b es ≡ true → Known nodes a × Known nodes b

-- The columns and the references that the schema constrains.
pub record WellFormed (t : Tables) : Type 0 where
  pub distinct : DistinctKeys t.nodes
  pub unique : Unique t.nodes
  pub follow_ids : KnownEdges t.nodes t.edges
  pub mute_ids : KnownEdges t.nodes t.mute_edges
  pub mute_authors : (i : ℕ) (m : MuteRow) → lookup i t.mute_lists ≡ some m → Known t.nodes i
  pub mute_listed :
      (a b : ℕ) → has_pair a b t.mute_edges ≡ true → is_some (lookup a t.mute_lists) ≡ true

-- Whether a pubkey's follow list, or its mute list, names another.
unfoldable pub listed : Bool → Tables → Str → Str → Bool
listed false t p q = linked t.nodes t.edges p q
listed true t p q = linked t.nodes t.mute_edges p q

abbrev pub mute_version : Option MuteRow → Option Str × Option ℤ
mute_version none = (none, none)
mute_version (some m) = (m.event_id, m.created_at)

abbrev pub node_version : Option NodeRow → Option Str × Option ℤ
node_version none = (none, none)
node_version (some r) = (r.kind3_event_id, r.kind3_created_at)

abbrev pub version_at : Dict ℕ MuteRow → Option ℕ → Option Str × Option ℤ
version_at m none = (none, none)
version_at m (some i) = mute_version (lookup i m)

-- The event that a pubkey's list of a kind comes from.
unfoldable pub version : Bool → Tables → Str → Option Str × Option ℤ
version false t p = node_version (lookup p t.nodes)
version true t p = version_at t.mute_lists (id_of t.nodes p)

pub empty-WellFormed : WellFormed empty
unfolding lookup
empty-WellFormed = record {
  distinct = tt;
  unique = λ p q i h. absurd (ground arith);
  follow_ids = λ a b h. absurd (ground arith);
  mute_ids = λ a b h. absurd (ground arith);
  mute_authors = λ i m h. absurd (ground arith);
  mute_listed = λ a b h. absurd (ground arith);
}
