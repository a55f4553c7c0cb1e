-- ===== src/Graph/Store/Invariant.antt =====
-- What the state of `WotGraph` keeps between operations, and creating nodes.
pub mod Create
pub mod Names
pub mod Revision
pub mod Replace
pub mod Publish
pub mod Follows
pub mod Mutes
pub mod Restored
use nostr_wot_oracle.Prelude.{
  ℕ, ◌<◌, ◌≤◌, ◌^◌, ◌+◌, ◌≡◌, ◌↔◌, List, [], Bool, true, false, Option, none, some, length, get_or,
  get_elem?, nat_eq, refl,
}
use nostr_wot_oracle.Prelude.Str.{Str, str_key}
use nostr_wot_oracle.Prelude.Dict.{lookup}
use nostr_wot_oracle.Prelude.Sorted.{Sorted, Below, member}
use nostr_wot_oracle.Graph.Adjacency.{row}
use nostr_wot_oracle.Graph.Store.Types.{WotGraph, MuteList, NodeInfo, new}

-- The vectors agree in length, ids and names are inverse, rows are ascending ids of nodes, and the
-- two adjacency lists are mirror images.
pub record WellFormed (g : WotGraph) : Type 0 where
  pub size_follows : length g.follows ≡ length g.id_to_pubkey
  pub size_followers : length g.followers ≡ length g.id_to_pubkey
  pub size_info : length g.node_info ≡ length g.id_to_pubkey
  pub named :
      (p : Str) (i : ℕ) → (lookup p g.pubkey_to_id ≡ some i) ↔ (get_elem? g.id_to_pubkey i ≡ some p)
  pub follows_sorted : (a : ℕ) → Sorted (row g.follows a)
  pub followers_sorted : (a : ℕ) → Sorted (row g.followers a)
  pub follows_below : (a : ℕ) → Below (length g.id_to_pubkey) (row g.follows a)
  pub mirrored : (a b : ℕ) → member b (row g.follows a) ≡ member a (row g.followers b)
  pub mute_authors : (a : ℕ) (l : MuteList) → lookup a g.mutes ≡ some l → a < length g.id_to_pubkey
  pub mutes_sorted : (a : ℕ) (l : MuteList) → lookup a g.mutes ≡ some l → Sorted l.ids
  pub mutes_below :
      (a : ℕ) (l : MuteList) → lookup a g.mutes ≡ some l → Below (length g.id_to_pubkey) l.ids

-- The ids are `u32`: so many more nodes can be created.
abbrev pub HasRoom : WotGraph → ℕ → Type 0
HasRoom g n = length g.id_to_pubkey + n ≤ 2 ^ 32

-- What creating nodes leaves alone.
pub record Extends (g h : WotGraph) : Type 0 where
  pub size : length g.id_to_pubkey ≤ length h.id_to_pubkey
  pub names :
      (p : Str) (i : ℕ) → lookup p g.pubkey_to_id ≡ some i → lookup p h.pubkey_to_id ≡ some i
  pub follows : (a : ℕ) → row h.follows a ≡ row g.follows a
  pub followers : (a : ℕ) → row h.followers a ≡ row g.followers a
  pub info : (a : ℕ) → get_or h.node_info a none ≡ get_or g.node_info a none
  pub mutes : h.mutes ≡ g.mutes

pub new-WellFormed : WellFormed new
unfolding lookup
new-WellFormed = record {
  size_follows = refl;
  size_followers = refl;
  size_info = refl;
  named = λ p i. (λ h. cc, λ h. cc);
  follows_sorted = λ a. tt;
  followers_sorted = λ a. tt;
  follows_below = λ a. tt;
  mirrored = λ a b. refl;
  mute_authors = λ a l h. cc;
  mutes_sorted = λ a l h. cc;
  mutes_below = λ a l h. cc;
}
