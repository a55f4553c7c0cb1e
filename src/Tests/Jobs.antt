-- ===== src/Tests/Jobs.antt =====
-- Job requests, the key of the rate limit and the end of the process, on concrete inputs.
use nostr_wot_oracle.Api.GovernorKey.{
  Headers, extract, get_all, Identifier, maybe_x_forwarded_for, maybe_x_real_ip, maybe_forwarded,
}
use nostr_wot_oracle.Api.GovernorKey.Laws.{first, candidates, extract-first}
use nostr_wot_oracle.Config.{parse, split, trim_start, trim_end}
use nostr_wot_oracle.Api.Dvm.{
  DvmService, Request, query, read_tag, read_input, read_param, handle_request, send_result,
  read_tags,
}
use nostr_wot_oracle.Api.Dvm.Laws.{
  asked, params_of, handle_request-get_distance, InLimit, read_tags-InLimit,
}
use nostr_wot_oracle.Api.Http.Types.{AppState, ok, validate_pubkey, validate_max_hops, query_permit}
use nostr_wot_oracle.Api.Http.Distance.{
  still, get_distance, cached_answer, search_and_remember, remember,
}
use nostr_wot_oracle.Graph.Bfs.Types.{DistanceResult}
use nostr_wot_oracle.Graph.Bfs.Distance.{compute_distance}
use nostr_wot_oracle.Graph.Store.Types.{WotGraph, new}
use nostr_wot_oracle.Graph.Store.Update.{update_follows, rejects_follows, publish_follows}
use nostr_wot_oracle.Graph.Store.Nodes.{create_node, get_or_create_node_locked, get_or_create_all}
use nostr_wot_oracle.Graph.Interner.{intern}
use nostr_wot_oracle.Cache
use nostr_wot_oracle.Prelude.Dict.{lookup, insert}
use nostr_wot_oracle.Prelude.Str.{str_eq, Str, lit}
use nostr_wot_oracle.Tests.Cached.{eternal, long_key, state}
use nostr_wot_oracle.Tests.Samples.{ann, first_id, at_ten}
use nostr_wot_oracle.Prelude.{ℕ, ◌≡◌, List, [], ◌∷◌, true, Option, none, some, refl, arith}
use nostr_wot_oracle.Process
use nostr_wot_oracle.Process.{First, signal, Joined, ended, finish, finish_ok, outcome}

stopped : finish (signal Process.ok) (ended Process.ok) (ended Process.ok) ≡ Process.ok
unfolding finish outcome
stopped = refl

finish_ok_example :
    (signal Process.ok ≡ signal Process.ok)
    × (ended Process.ok ≡ ended Process.ok)
    × (ended Process.ok ≡ ended Process.ok)
finish_ok_example = finish_ok (signal Process.ok) (ended Process.ok) (ended Process.ok) stopped

abbrev job_tags : List (List Str)
job_tags =
    (lit "i" ∷ lit "aa:bb" ∷ lit "text" ∷ []) ∷ (lit "param" ∷ lit "max_hops" ∷ lit "200" ∷ []) ∷ []

read_tags-InLimit_example : InLimit (read_tags 3 job_tags ([], 3)).1
read_tags-InLimit_example =
    read_tags-InLimit 3 job_tags [] 3 (omega arith, omega arith) (omega arith, omega arith)

-- Addresses are numbers, and no text is one.
abbrev no_address : Str → Option ℕ
no_address s = none

abbrev no_stanza : Str → Option (List (Option (Identifier ℕ)))
no_stanza s = none

-- A proxy list whose first part is no address, and an address of the proxy itself.
abbrev proxied : Headers
proxied =
    (lit "x-real-ip", some (lit "9"))
    ∷ (lit "accept", some (lit "text/html"))
    ∷ (lit "x-forwarded-for", some (lit "unknown, 8"))
    ∷ []

extract-first_example :
    extract ℕ (parse 256) no_stanza proxied (some 7)
    ≡ first (candidates ℕ (parse 256) no_stanza proxied (some 7))
extract-first_example = extract-first ℕ (parse 256) no_stanza proxied (some 7)

-- The part of the proxy list wins over the other header and the connection.
proxied_key : extract ℕ (parse 256) no_stanza proxied (some 7) ≡ some 8
unfolding extract maybe_x_forwarded_for maybe_x_real_ip maybe_forwarded get_all split trim_start
    trim_end parse str_eq
proxied_key = refl

abbrev other_key : Str
other_key = lit "f123456789abcdef0123456789abcdef0123456789abcdef0123456789abcdef"

-- `long_key` follows `other_key`.
abbrev pair : WotGraph
pair = (update_follows new long_key (other_key ∷ []) first_id at_ten).0

abbrev web : AppState eternal
web = record state { graph = pair; cache = record { entries = []; ttl_secs = 300 } }

abbrev service : DvmService eternal
service = record { graph = pair; cache = record { entries = []; ttl_secs = 300 }; max_hops = 3 }

abbrev job : Request
job = record {
  id = lit "e9";
  pubkey = ann;
  kind = 5950;
  tags = (lit "i" ∷ other_key ∷ lit "text" ∷ []) ∷ (lit "param" ∷ lit "from" ∷ long_key ∷ []) ∷ [];
}

abbrev distance : DistanceResult
distance = compute_distance pair (query eternal long_key other_key 3)

job_asks : asked eternal service web job ≡ (long_key ∷ other_key ∷ [], 3)
unfolding read_tags read_tag read_input read_param str_eq
job_asks = refl

web_answers :
    (get_distance eternal web (params_of eternal long_key other_key 3) (still pair) true).1
    ≡ ok distance
unfolding get_distance cached_answer search_and_remember remember query_permit validate_pubkey
    validate_max_hops Cache.get update_follows get_or_create_node_locked create_node
    get_or_create_all rejects_follows publish_follows intern lookup insert str_eq
web_answers = refl

job_answered :
    (get_distance eternal web
      (params_of eternal long_key other_key (asked eternal service web job).1)
      (still pair)
      true).1
    ≡ ok distance
job_answered = rw job_asks web_answers

handle_request-get_distance_example :
    let answer = handle_request eternal service job (still pair) true in
    let asks = asked eternal service web job in
    (answer.1 ≡ some (send_result job distance))
    × (answer.0.cache
        ≡ (get_distance eternal web
            (params_of eternal long_key other_key asks.1)
            (still pair)
            true).0.cache)
handle_request-get_distance_example =
    handle_request-get_distance eternal service web job long_key other_key distance refl refl
      (rw job_asks refl) job_answered
