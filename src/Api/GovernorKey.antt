-- ===== src/Api/GovernorKey.antt =====
-- The key of the rate limit, src/api/governor_key.rs. The addresses, their parser and that of the
-- header `forwarded` are arguments; a header value is the text that `to_str` gives, if it gives one.
pub mod Laws
use nostr_wot_oracle.Prelude.{
  true, is_some, ◌≡◌, List, [], ◌∷◌, Option, none, some, if◌then◌else◌, arith, refl,
}
use nostr_wot_oracle.Prelude.Str.{Str, lit, str_eq}
use nostr_wot_oracle.Config.{split, trim_start, trim_end}

abbrev pub x_real_ip : Str
x_real_ip = lit "x-real-ip"

abbrev pub x_forwarded_for : Str
x_forwarded_for = lit "x-forwarded-for"

abbrev pub forwarded : Str
forwarded = lit "forwarded"

-- Header fields in order, with names in lower case.
abbrev pub Headers : Type 0
Headers = List (Str × Option Str)

-- `headers.get_all(name)`
unfoldable pub get_all : Str → Headers → List (Option Str)
get_all name [] = []
get_all name ((n, v) ∷ headers) =
    let rest = get_all name headers in if str_eq n name then v ∷ rest else rest

-- `headers.get(name)`, and `to_str`.
abbrev pub first_text : List (Option Str) → Option Str
first_text [] = none
first_text (v ∷ vs) = v

module _ {ℓ κ} {A : Type ℓ} {B : Type κ} where
  -- `iter().find_map(f)`
  abbrev pub find_map : (A → Option B) → List A → Option B
  find_map f [] = none
  find_map f (x ∷ xs) = elim (f x) [ none ↦ find_map f xs | some y ↦ some y ]

  -- `o.and_then(f)`
  abbrev pub and_then : Option A → (A → Option B) → Option B
  and_then none f = none
  and_then (some a) f = f a

-- `a.or_else(|| b)`
abbrev pub otherwise {ℓ} : {A : Type ℓ} → Option A → Option A → Option A
otherwise none b = b
otherwise (some a) b = some a

module _ (IpAddr : Type 0) where
  -- `Identifier` of the crate forwarded-header-value.
  pub data Identifier : Type 0 where
    socket_addr : IpAddr → Identifier
    ip_addr : IpAddr → Identifier
    string unknown : Identifier

  abbrev pub address : Identifier → Option IpAddr
  address (socket_addr ip) = some ip
  address (ip_addr ip) = some ip
  address string = none
  address unknown = none

  module _ (parse_ip : Str → Option IpAddr)
      (from_forwarded : Str → Option (List (Option Identifier))) where
    unfoldable pub maybe_x_forwarded_for : Headers → Option IpAddr
    unfolding get_all
    maybe_x_forwarded_for headers =
        and_then (first_text (get_all x_forwarded_for headers))
          (λ s. find_map (λ part. parse_ip (trim_end (trim_start part))) (split b',' s))

    unfoldable pub maybe_x_real_ip : Headers → Option IpAddr
    unfolding get_all
    maybe_x_real_ip headers = and_then (first_text (get_all x_real_ip headers)) parse_ip

    -- One value of `forwarded`: the first stanza whose `for` is an address.
    abbrev pub forwarded_for : Option Str → Option IpAddr
    forwarded_for v =
        and_then v (λ s. and_then (from_forwarded s) (find_map (λ id. and_then id address)))

    unfoldable pub maybe_forwarded : Headers → Option IpAddr
    unfolding get_all
    maybe_forwarded headers = find_map forwarded_for (get_all forwarded headers)

    -- The connection's address comes last; `none` is `UnableToExtractKey`.
    unfoldable pub extract : Headers → Option IpAddr → Option IpAddr
    unfolding maybe_x_forwarded_for maybe_x_real_ip maybe_forwarded
    extract headers connect_info =
        otherwise
          (otherwise (otherwise (maybe_x_forwarded_for headers) (maybe_x_real_ip headers))
            (maybe_forwarded headers))
          connect_info
