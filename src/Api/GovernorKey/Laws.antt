-- ===== src/Api/GovernorKey/Laws.antt =====
-- The key of the rate limit, src/api/governor_key.rs, against the list of all its candidates.
use nostr_wot_oracle.Prelude.{
  ◌≡◌, List, [], ◌∷◌, ◌++◌, Option, none, some, arith, refl, filter_map, Option-cases,
}
use nostr_wot_oracle.Prelude.Str.{Str}
use nostr_wot_oracle.Config.{split, trim_start, trim_end}
use nostr_wot_oracle.Api.GovernorKey.{
  x_real_ip, x_forwarded_for, forwarded, Headers, get_all, first_text, find_map, and_then,
  otherwise, Identifier, address, maybe_x_forwarded_for, maybe_x_real_ip, maybe_forwarded,
  forwarded_for, extract,
}

module _ {ℓ} {A : Type ℓ} where
  abbrev pub first : List A → Option A
  first [] = none
  first (x ∷ xs) = some x

  abbrev pub listed : Option A → List A
  listed none = []
  listed (some x) = x ∷ []

  first-append : (xs ys : List A) → first (xs ++ ys) ≡ otherwise (first xs) (first ys)
  first-append [] ys = refl
  first-append (x ∷ xs) ys = refl

  first-listed : (o : Option A) → first (listed o) ≡ o
  first-listed none = refl
  first-listed (some x) = refl

module _ {ℓ κ} {A : Type ℓ} {B : Type κ} where
  abbrev pub flat_map : (A → List B) → List A → List B
  flat_map f [] = []
  flat_map f (x ∷ xs) = f x ++ flat_map f xs

  find_map-first : (f : A → Option B) (xs : List A) → find_map f xs ≡ first (filter_map f xs)
  find_map-first f [] = refl
  find_map-first f (x ∷ xs) = ground (arith, find_map-first f xs, Option-cases (f x))

  find_map-flat_map :
      (f : A → Option B) (all : A → List B)
      → ((x : A) → f x ≡ first (all x))
      → (xs : List A) → find_map f xs ≡ first (flat_map all xs)
  find_map-flat_map f all h [] = refl
  find_map-flat_map f all h (x ∷ xs) = ground (
    arith,
    h x,
    find_map-flat_map f all h xs,
    first-append (all x) (flat_map all xs),
    Option-cases (f x),
  )

  and_then-flat_map :
      (f : A → Option B) (all : A → List B)
      → ((x : A) → f x ≡ first (all x))
      → (o : Option A) → and_then o f ≡ first (flat_map all (listed o))
  and_then-flat_map f all h none = refl
  and_then-flat_map f all h (some x) =
      ground (arith, h x, first-append (all x) [], Option-cases (f x))

  and_then-filter_map :
      (f : A → Option B) (o : Option A) → and_then o f ≡ first (filter_map f (listed o))
  and_then-filter_map f none = refl
  and_then-filter_map f (some x) = ground (arith, Option-cases (f x))

module _ (IpAddr : Type 0) (parse_ip : Str → Option IpAddr)
    (from_forwarded : Str → Option (List (Option (Identifier IpAddr)))) where
  -- The addresses in a list of proxies, between commas and without the space around them.
  abbrev proxies : Str → List IpAddr
  proxies s = filter_map (λ part. parse_ip (trim_end (trim_start part))) (split b',' s)

  -- The addresses of the clients in one value of `forwarded`.
  abbrev clients : Option Str → List IpAddr
  clients v =
      flat_map (λ stanzas. filter_map (λ id. and_then id (address IpAddr)) stanzas)
        (listed (and_then v from_forwarded))

  -- Every address that a request gives, in the order of their precedence: those of the first
  -- `x-forwarded-for`, that of the first `x-real-ip`, those of all `forwarded`, the connection's.
  abbrev pub candidates : Headers → Option IpAddr → List IpAddr
  candidates headers connect_info =
      flat_map proxies (listed (first_text (get_all x_forwarded_for headers)))
      ++ (filter_map parse_ip (listed (first_text (get_all x_real_ip headers)))
          ++ (flat_map clients (get_all forwarded headers) ++ listed connect_info))

  x_forwarded_for-first :
      (headers : Headers)
      → maybe_x_forwarded_for IpAddr parse_ip from_forwarded headers
        ≡ first (flat_map proxies (listed (first_text (get_all x_forwarded_for headers))))
  unfolding maybe_x_forwarded_for
  x_forwarded_for-first headers =
      and_then-flat_map
        (λ s. find_map (λ part. parse_ip (trim_end (trim_start part))) (split b',' s)) proxies
        (λ s. find_map-first (λ part. parse_ip (trim_end (trim_start part))) (split b',' s))
        (first_text (get_all x_forwarded_for headers))

  x_real_ip-first :
      (headers : Headers)
      → maybe_x_real_ip IpAddr parse_ip from_forwarded headers
        ≡ first (filter_map parse_ip (listed (first_text (get_all x_real_ip headers))))
  unfolding maybe_x_real_ip
  x_real_ip-first headers = and_then-filter_map parse_ip (first_text (get_all x_real_ip headers))

  clients-first :
      (v : Option Str) → forwarded_for IpAddr parse_ip from_forwarded v ≡ first (clients v)
  clients-first none = refl
  clients-first (some s) =
      and_then-flat_map (find_map (λ id. and_then id (address IpAddr)))
        (filter_map (λ id. and_then id (address IpAddr)))
        (find_map-first (λ id. and_then id (address IpAddr))) (from_forwarded s)

  forwarded-first :
      (headers : Headers)
      → maybe_forwarded IpAddr parse_ip from_forwarded headers
        ≡ first (flat_map clients (get_all forwarded headers))
  unfolding maybe_forwarded
  forwarded-first headers =
      find_map-flat_map (forwarded_for IpAddr parse_ip from_forwarded) clients clients-first
        (get_all forwarded headers)

  -- Whatever the parsers of addresses are, the key of a request is the first of all the
  -- addresses that it gives, in this order: those between the commas of its first x-forwarded-
  -- for, without the space around them, that of its first x-real-ip, those of the clients in
  -- all its forwarded fields, and that of its connection; there is no key if it gives none.
  pub extract-first :
      (headers : Headers) (connect_info : Option IpAddr)
      → extract IpAddr parse_ip from_forwarded headers connect_info
        ≡ first (candidates headers connect_info)
  unfolding extract
  extract-first headers connect_info =
      let proxied = flat_map proxies (listed (first_text (get_all x_forwarded_for headers))) in
      let real = filter_map parse_ip (listed (first_text (get_all x_real_ip headers))) in
      let told = flat_map clients (get_all forwarded headers) in
      ground (
        arith,
        x_forwarded_for-first headers,
        x_real_ip-first headers,
        forwarded-first headers,
        first-append proxied (real ++ (told ++ listed connect_info)),
        first-append real (told ++ listed connect_info),
        first-append told (listed connect_info),
        first-listed connect_info,
      )
