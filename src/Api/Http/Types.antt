-- ===== src/Api/Http/Types.antt =====
-- Requests, errors, validation and permits of src/api/http.rs. A handler's JSON is its data.
use nostr_wot_oracle.Prelude.{
  ℕ, List, [], ◌∷◌, Bool, not, ◌&&◌, if◌then◌else◌, leb, ◌==◌, length, every,
}
use nostr_wot_oracle.Prelude.Str.{Str, lit, str_eq, is_hex_digit}
use nostr_wot_oracle.Config.{max_hops_limit}
use nostr_wot_oracle.Graph.Store.Types.{WotGraph}
use nostr_wot_oracle.Cache.{Moka, QueryCache}
use nostr_wot_oracle.Sync.Status.{SyncStatus}

pub record ErrorResponse : Type 0 where
  pub error : Str
  pub code : Str

-- A handler's `Result<_, ErrorResponse>`.
pub data Result {ℓ} (A : Type ℓ) : Type ℓ where
  err : ErrorResponse → Result A
  ok : A → Result A

infixl 5 ◌>>=◌ ◌>>◌
-- `validate(..)?;`
abbrev pub ◌>>◌ {κ} : {B : Type κ} → Result (Unit {0}) → Result B → Result B
err e >> rest = err e
ok u >> rest = rest

-- `let a = ..?;`
abbrev pub ◌>>=◌ {ℓ κ} : {A : Type ℓ} {B : Type κ} → Result A → (A → Result B) → Result B
err e >>= rest = err e
ok a >>= rest = rest a

pub record DistanceQueryParams : Type 0 where
  pub from : Str
  pub to : Str
  pub max_hops : ℕ
  pub include_bridges : Bool
  pub bypass_cache : Bool

abbrev pub internal : ErrorResponse
internal = record { error = lit "Internal computation error"; code = lit "INTERNAL_ERROR" }

abbrev pub query_busy : ErrorResponse
query_busy = record { error = lit "Query capacity exhausted; retry later"; code = lit "QUERY_BUSY" }

abbrev pub invalid_pubkey : ErrorResponse
invalid_pubkey = record { error = lit "Invalid pubkey format"; code = lit "INVALID_PUBKEY" }

abbrev pub invalid_max_hops : ErrorResponse
invalid_max_hops = record {
  error = lit "max_hops must be between 1 and 5";
  code = lit "INVALID_MAX_HOPS";
}

abbrev pub too_many_targets : ErrorResponse
too_many_targets = record {
  error = lit "Maximum 100 targets allowed per batch";
  code = lit "TOO_MANY_TARGETS";
}

-- The status code of `into_response`.
unfoldable pub status_of : ErrorResponse → ℕ
status_of e =
    if str_eq e.code (lit "INTERNAL_ERROR")
    then 500
    else if str_eq e.code (lit "QUERY_BUSY")
    then 503
    else 400

-- The permits that are free; a handler gives its permit back when its computation ends.
unfoldable pub query_permit : ℕ → Result (Unit {0})
query_permit query_slots = if query_slots == 0 then err query_busy else ok tt

unfoldable pub validate_pubkey : Str → Result (Unit {0})
validate_pubkey pubkey =
    if not (length pubkey == 64)
    then err invalid_pubkey
    else if not (every is_hex_digit pubkey)
    then err invalid_pubkey
    else ok tt

unfoldable pub validate_max_hops : ℕ → Result (Unit {0})
validate_max_hops max_hops =
    if not (leb 1 max_hops && leb max_hops max_hops_limit) then err invalid_max_hops else ok tt

-- `validate_pubkey` on each target
unfoldable pub validate_all : List Str → Result (Unit {0})
unfolding validate_pubkey
validate_all [] = ok tt
validate_all (t ∷ ts) = validate_pubkey t >> validate_all ts

-- `spawn_blocking(..).await.map_err(..)`: whether the task ran to its end.
abbrev pub join : Bool → Result (Unit {0})
join joined = if joined then ok tt else err internal

module _ (moka : Moka) where
  pub record AppState : Type 0 where
    pub graph : WotGraph
    pub cache : QueryCache moka
    pub query_slots : ℕ
    pub sync : SyncStatus
