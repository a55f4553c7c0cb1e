-- ===== src/Sync/Events.antt =====
-- Parsing list events and the filter of seen ones, of src/sync/ingestion.rs. An event of the Nostr
-- library is what the program reads of it. Its id is its lower-case hexadecimal text, which orders
-- ids as their bytes do.
use nostr_wot_oracle.Prelude.{
  ℕ, ◌-◌, ◌^◌, min, List, ◌∷◌, Bool, not, ◌&&◌, ◌||◌, Option, none, some, if◌then◌else◌, ltb, ◌==◌,
  length, every, filter_map, map,
}
use nostr_wot_oracle.Prelude.Int.{ℤ, pos}
use nostr_wot_oracle.Prelude.Str.{
  Str, lit, str_eq, str_lt, is_hex_digit, lower_byte, sort_strs, dedup_strs,
}

pub record Event : Type 0 where
  pub id : Str
  pub pubkey : Str
  pub kind : ℕ
  pub created_at : ℕ
  pub tags : List (List Str)

pub record ListUpdate : Type 0 where
  pub kind : ℕ
  pub pubkey : Str
  pub follows : List Str
  pub event_id : Str
  pub created_at : ℤ

abbrev pub mute_kind : ℕ
mute_kind = 10000

abbrev pub is_list_kind : ℕ → Bool
is_list_kind kind = (kind == 3) || (kind == mute_kind)

abbrev pub is_pubkey : Str → Bool
is_pubkey pk = (length pk == 64) && every is_hex_digit pk

-- The closure of `filter_map`: the value of a `p` tag, in lower case.
unfoldable pub tag_pubkey : List Str → Option Str
tag_pubkey (name ∷ pk ∷ rest) =
    if str_eq name (lit "p") && is_pubkey pk then some (map lower_byte pk) else none
tag_pubkey values = none

-- `i64::try_from(u64).unwrap_or(i64::MAX)`
abbrev pub to_i64 : ℕ → ℤ
to_i64 n = pos (min n (2 ^ 63 - 1))

unfoldable pub process_event : Event → Option ListUpdate
unfolding tag_pubkey sort_strs dedup_strs
process_event e =
    if is_list_kind e.kind
    then some (record {
      kind = e.kind;
      pubkey = e.pubkey;
      follows = dedup_strs (sort_strs (filter_map tag_pubkey e.tags));
      event_id = e.id;
      created_at = to_i64 e.created_at;
    })
    else none

pub record SeenEvent : Type 0 where
  pub created_at : ℕ
  pub event_id : Str

-- `self.event_id <= event.id` is that the event's id is not below.
unfoldable pub dominates : SeenEvent → Event → Bool
dominates seen e =
    ltb e.created_at seen.created_at
    || ((seen.created_at == e.created_at) && not (str_lt e.id seen.event_id))
