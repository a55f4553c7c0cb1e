-- ===== src/Config.antt =====
-- src/config.rs: the limits, and the reading of the environment. What the process environment
-- holds is an argument; `str::parse` of integers is written out for unsigned decimals.
use nostr_wot_oracle.Prelude.{
  ℕ, ◌+◌, ◌-◌, ◌*◌, ◌^◌, ◌≤◌, List, [], ◌∷◌, Bool, false, not, ◌&&◌, ◌||◌, Option, none, some,
  arith, if◌then◌else◌, ◌==◌, ltb, leb, unwrap_or, keep, map, is_empty,
}
use mathlib.Core.Option
use nostr_wot_oracle.Prelude.Str.{Str, lit, str_eq}

abbrev pub max_hops_limit : ℕ
max_hops_limit = 5

abbrev pub max_hops_default : ℕ
max_hops_default = 3

abbrev pub cache_size_max : ℕ
cache_size_max = 100_000

abbrev pub cache_size_default : ℕ
cache_size_default = 10_000

abbrev pub rate_limit_max : ℕ
rate_limit_max = 1000

abbrev pub rate_limit_default : ℕ
rate_limit_default = 100

-- `parse::<uN>()`: an optional plus sign, then at least one digit, the value below the bound.
parse_digits : ℕ → ℕ → Str → Option ℕ
parse_digits bound n [] = if ltb n bound then some n else none
parse_digits bound n (c ∷ s) =
    if leb b'0' c && leb c b'9' then parse_digits bound (n * 10 + (c - b'0')) s else none

unfoldable pub parse : ℕ → Str → Option ℕ
unfolding parse_digits
parse bound [] = none
parse bound (c ∷ s) =
    if c == b'+'
    then (if is_empty s then none else parse_digits bound 0 s)
    else parse_digits bound 0 (c ∷ s)

-- `x.clamp(lo, hi)`
abbrev pub clamp : ℕ → ℕ → ℕ → ℕ
clamp lo hi x = if ltb x lo then lo else if ltb hi x then hi else x

-- `s.split(',')`: at least one part.
abbrev pub push_head : ℕ → List Str → List Str
push_head c [] = (c ∷ []) ∷ []
push_head c (p ∷ ps) = (c ∷ p) ∷ ps

unfoldable pub split : ℕ → Str → List Str
split sep [] = [] ∷ []
split sep (c ∷ s) = let rest = split sep s in if c == sep then [] ∷ rest else push_head c rest

-- `trim` over ASCII white space.
abbrev pub is_space : ℕ → Bool
is_space c = (leb 9 c && leb c 13) || (c == b' ')

unfoldable pub trim_start : Str → Str
trim_start [] = []
trim_start (c ∷ s) = let rest = trim_start s in if is_space c then rest else c ∷ s

unfoldable pub trim_end : Str → Str
trim_end [] = []
trim_end (c ∷ s) = let rest = trim_end s in if is_space c && is_empty rest then [] else c ∷ rest

pub record Config : Type 0 where
  pub relays : List Str
  pub http_port : ℕ
  pub db_path : Str
  pub dvm_enabled : Bool
  pub dvm_private_key : Option Str
  pub rate_limit_per_minute : ℕ
  pub max_hops : ℕ
  pub cache_size : ℕ
  pub cache_ttl_secs : ℕ

abbrev pub default_relays : Str
default_relays =
    lit "wss://relay.damus.io,wss://nos.lol,wss://relay.primal.net/,wss://relay.mostr.pub/"

-- `env::var(name).ok()`
abbrev pub Env : Type 0
Env = Str → Option Str

abbrev pub number : Env → Str → ℕ → Option ℕ
number env name bound = elim (env name) [ none ↦ none | some v ↦ parse bound v ]

unfoldable pub from_env : Env → Config
unfolding parse split trim_start trim_end
from_env env = record {
  relays =
      keep (λ s. not (is_empty s))
        (map (λ s. trim_end (trim_start s))
          (split b',' (unwrap_or (env (lit "RELAYS")) default_relays)));
  http_port = unwrap_or (number env (lit "HTTP_PORT") (2 ^ 16)) 8080;
  db_path = unwrap_or (env (lit "DB_PATH")) (lit "wot.db");
  dvm_enabled =
      unwrap_or
        (Option.map (λ v. str_eq v (lit "true") || str_eq v (lit "1")) (env (lit "DVM_ENABLED")))
        false;
  dvm_private_key = env (lit "DVM_PRIVATE_KEY");
  rate_limit_per_minute =
      unwrap_or
        (Option.map (clamp 1 rate_limit_max) (number env (lit "RATE_LIMIT_PER_MINUTE") (2 ^ 32)))
        rate_limit_default;
  max_hops =
      unwrap_or (Option.map (clamp 1 max_hops_limit) (number env (lit "MAX_HOPS") (2 ^ 8)))
        max_hops_default;
  cache_size =
      unwrap_or (Option.map (clamp 100 cache_size_max) (number env (lit "CACHE_SIZE") (2 ^ 64)))
        cache_size_default;
  cache_ttl_secs =
      unwrap_or (Option.map (clamp 10 3600) (number env (lit "CACHE_TTL_SECS") (2 ^ 64))) 300;
}

bounded :
    (o : Option ℕ) (lo hi d : ℕ)
    → lo ≤ hi
    → (lo ≤ d) × (d ≤ hi)
    → (lo ≤ unwrap_or (Option.map (clamp lo hi) o) d)
      × (unwrap_or (Option.map (clamp lo hi) o) d ≤ hi)
bounded none lo hi d h k = k
bounded (some x) lo hi d h k = ground arith

-- Whatever the environment holds, the rate limit is from 1 to 1000, the hop limit from 1 to 5,
-- the cache size from 100 to 100000, and the lifetime of a cache entry from 10 to 3600 seconds.
pub from_env_bounds :
    (env : Env)
    → ((1 ≤ (from_env env).rate_limit_per_minute) × ((from_env env).rate_limit_per_minute ≤ 1000))
      × ((1 ≤ (from_env env).max_hops) × ((from_env env).max_hops ≤ 5))
      × ((100 ≤ (from_env env).cache_size) × ((from_env env).cache_size ≤ 100_000))
      × ((10 ≤ (from_env env).cache_ttl_secs) × ((from_env env).cache_ttl_secs ≤ 3600))
unfolding from_env
from_env_bounds env = (
  bounded (number env (lit "RATE_LIMIT_PER_MINUTE") (2 ^ 32)) 1 1000 100 (omega arith)
      (omega arith),
  bounded (number env (lit "MAX_HOPS") (2 ^ 8)) 1 5 3 (omega arith) (omega arith),
  bounded (number env (lit "CACHE_SIZE") (2 ^ 64)) 100 100_000 10_000 (omega arith) (omega arith),
  bounded (number env (lit "CACHE_TTL_SECS") (2 ^ 64)) 10 3600 300 (omega arith) (omega arith),
)
