-- ===== src/Api/Dvm.antt =====
-- The job requests of src/api/dvm.rs. Relays deliver a request and take a response; its JSON is data.
pub mod Laws
use nostr_wot_oracle.Prelude.{
  ℕ, ◌+◌, ◌/◌, ◌%◌, List, [], ◌∷◌, ◌++◌, Bool, true, false, not, ◌&&◌, ◌||◌, Option, none, some,
  if◌then◌else◌, ltb, leb, ◌==◌, length, every, is_some,
}
use nostr_wot_oracle.Prelude.Str.{Str, lit, str_eq, is_hex_digit}
use nostr_wot_oracle.Config.{max_hops_limit, parse, clamp, split}
use nostr_wot_oracle.Graph.Store.Types.{WotGraph}
use nostr_wot_oracle.Graph.Store.Nodes.{get_node_id}
use nostr_wot_oracle.Graph.Bfs.Types.{DistanceQuery, DistanceResult}
use nostr_wot_oracle.Graph.Bfs.Distance.{compute_distance}
use nostr_wot_oracle.Cache
use nostr_wot_oracle.Cache.{CacheKey, Moka, QueryCache}
use nostr_wot_oracle.Api.Http.Distance.{Moments, key_of}

abbrev pub dvm_request_kind : ℕ
dvm_request_kind = 5950

abbrev pub dvm_response_kind : ℕ
dvm_response_kind = 6950

-- The request event, as the service reads it.
pub record Request : Type 0 where
  pub id : Str
  pub pubkey : Str
  pub kind : ℕ
  pub tags : List (List Str)

-- The content of a response, before it is written as JSON.
pub data Content : Type 0 where
  failure : Str → Content
  result : DistanceResult → Content

pub record Response : Type 0 where
  pub kind : ℕ
  pub content : Content
  pub tags : List (List Str)

-- `u8::to_string`
abbrev pub digit : ℕ → ℕ
digit n = b'0' + n % 10

unfoldable pub u8_to_string : ℕ → Str
u8_to_string n =
    if ltb n 10
    then digit n ∷ []
    else if ltb n 100
    then digit (n / 10) ∷ digit n ∷ []
    else digit (n / 100) ∷ digit (n / 10) ∷ digit n ∷ []

-- `max_hops = match tag_slice[2].parse::<u8>()`
abbrev pub clamp_hops : ℕ → Option ℕ → ℕ
clamp_hops default none = default
clamp_hops default (some h) =
    if leb 1 h && leb h max_hops_limit then h else clamp 1 max_hops_limit h

-- `value.split(':').collect()`, of which two parts are two inputs.
abbrev pub two_parts : List Str → List Str
two_parts (a ∷ b ∷ []) = a ∷ b ∷ []
two_parts parts = []

-- `value.contains(':')`
abbrev pub has_colon : Str → Bool
has_colon [] = false
has_colon (c ∷ s) = (c == b':') || has_colon s

unfoldable pub read_input : Str → List Str → List Str
read_input value inputs =
    if has_colon value then inputs ++ two_parts (split b':' value) else inputs ++ value ∷ []

unfoldable pub read_param : ℕ → Str → Str → List Str × ℕ → List Str × ℕ
unfolding parse
read_param default name value (inputs, max_hops) =
    if str_eq name (lit "max_hops")
    then (inputs, clamp_hops default (parse 256 value))
    else if str_eq name (lit "from")
    then (value ∷ inputs, max_hops)
    else if str_eq name (lit "to")
    then (inputs ++ value ∷ [], max_hops)
    else (inputs, max_hops)

-- One turn of `for tag in request.tags.iter()`.
unfoldable pub read_tag : ℕ → List Str → List Str × ℕ → List Str × ℕ
unfolding read_input read_param
read_tag default (name ∷ value ∷ third ∷ rest) (inputs, max_hops) =
    if str_eq name (lit "i") && str_eq third (lit "text")
    then (read_input value inputs, max_hops)
    else if str_eq name (lit "param")
    then read_param default value third (inputs, max_hops)
    else (inputs, max_hops)
read_tag default tag (inputs, max_hops) = (inputs, max_hops)

unfoldable pub read_tags : ℕ → List (List Str) → List Str × ℕ → List Str × ℕ
unfolding read_tag
read_tags default [] acc = acc
read_tags default (tag ∷ tags) acc = read_tags default tags (read_tag default tag acc)

-- `match inputs.as_slice()`
abbrev pub two_inputs : List Str → Option (Str × Str)
two_inputs (f ∷ t ∷ []) = some (f, t)
two_inputs inputs = none

abbrev pub is_valid_pubkey : Str → Bool
is_valid_pubkey pubkey = (length pubkey == 64) && every is_hex_digit pubkey

unfoldable pub send_error : Request → Str → Response
send_error request error_msg = record {
  kind = dvm_response_kind;
  content = failure error_msg;
  tags =
      (lit "e" ∷ request.id ∷ [])
      ∷ (lit "p" ∷ request.pubkey ∷ [])
      ∷ (lit "status" ∷ lit "error" ∷ error_msg ∷ [])
      ∷ [];
}

abbrev pub result_tags : Option ℕ → List (List Str)
result_tags none = []
result_tags (some hops) = (lit "result" ∷ u8_to_string hops ∷ lit "hops" ∷ []) ∷ []

unfoldable pub send_result : Request → DistanceResult → Response
unfolding u8_to_string
send_result request found = record {
  kind = dvm_response_kind;
  content = result found;
  tags = (lit "e" ∷ request.id ∷ []) ∷ (lit "p" ∷ request.pubkey ∷ []) ∷ result_tags found.hops;
}

abbrev pub bad_inputs : Str
bad_inputs = lit "Expected two 'i' tags with pubkeys or 'from'/'to' params"

abbrev pub bad_pubkey : Str
bad_pubkey = lit "Invalid pubkey format"

module _ (moka : Moka) where
  pub record DvmService : Type 0 where
    pub graph : WotGraph
    pub cache : QueryCache moka
    pub max_hops : ℕ

  abbrev pub query : Str → Str → ℕ → DistanceQuery
  query from to max_hops = record {
    from = from;
    to = to;
    max_hops = max_hops;
    include_bridges = true;
  }

  -- The cache, or the search on a blocking thread and the insert; only two known keys are cached.
  -- `ran` says whether the permit was given and the task ran to its end.
  unfoldable pub find :
      DvmService → Str → Str → ℕ → Moments → Bool → DvmService × Option DistanceResult
  unfolding compute_distance
  find service from to max_hops m ran =
      let found = compute_distance m.at_search (query from to max_hops) in
      elim (key_of (get_node_id service.graph from) (get_node_id service.graph to) max_hops true) [
        | none ↦ if ran then (service, some found) else (service, none)
        | some key ↦ elim (Cache.get moka service.cache key service.graph) [
          | some hit ↦ (service, some hit)
          | none ↦
              if ran
              then (
                record service {
                  cache =
                      Cache.insert moka service.cache key found m.at_insert m.at_revision.revision;
                },
                some found,
              )
              else (service, none)
        ]
      ]

  -- `none` is an error, which the loop logs.
  unfoldable pub handle_request :
      DvmService → Request → Moments → Bool → DvmService × Option Response
  unfolding read_tags send_error send_result find
  handle_request service request m ran =
      let (inputs, max_hops) = read_tags service.max_hops request.tags ([], service.max_hops) in
      elim (two_inputs inputs) [
        | none ↦ (service, some (send_error request bad_inputs))
        | some (from, to) ↦
            let (service', found) = find service from to max_hops m ran in
            if not (is_valid_pubkey from)
            then (service, some (send_error request bad_pubkey))
            else if not (is_valid_pubkey to)
            then (service, some (send_error request bad_pubkey))
            else (elim found [
              | none ↦ (service', none)
              | some d ↦ (service', some (send_result request d))
            ])
      ]

  -- The loop of `start` on one event: other kinds are passed over.
  unfoldable pub on_event : DvmService → Request → Moments → Bool → DvmService × Option Response
  unfolding handle_request
  on_event service request m ran =
      if request.kind == dvm_request_kind
      then handle_request service request m ran
      else (service, none)
