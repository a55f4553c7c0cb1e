-- ===== src/Process.antt =====
-- The supervision in src/main.rs: what ends the process, and with what result.
use nostr_wot_oracle.Prelude.{◌≡◌, Bool, true, false, Option, none, some, if◌then◌else◌, arith}
use nostr_wot_oracle.Prelude.Str.{Str, lit}

-- `Result<()>`; the error is its text.
pub data Result : Type 0 where
  ok : Result
  err : Str → Result

-- `Result<Result<()>, JoinError>` of a task that was joined.
pub data Joined : Type 0 where
  ended : Result → Joined
  panicked : Str → Joined

-- `handle.await??`
abbrev pub flatten : Joined → Result
flatten (ended r) = r
flatten (panicked e) = err e

-- The branch of `select!` that is ready first.
pub data First : Type 0 where
  signal : Result → First
  http : Joined → First
  ingestion : Joined → First

-- A service that returns without a shutdown has failed.
abbrev pub unexpected : Str → Joined → Result
unexpected message (ended ok) = err message
unexpected message (ended (err e)) = err e
unexpected message (panicked e) = err e

unfoldable pub outcome : First → Result
outcome (signal r) = r
outcome (http r) = unexpected (lit "HTTP server terminated unexpectedly") r
outcome (ingestion r) = unexpected (lit "Ingestion terminated unexpectedly") r

abbrev pub ingestion_finished : First → Bool
ingestion_finished (ingestion r) = true
ingestion_finished (signal r) = false
ingestion_finished (http r) = false

abbrev pub http_finished : First → Bool
http_finished (http r) = true
http_finished (signal r) = false
http_finished (ingestion r) = false

-- `r?`, and then the rest.
abbrev pub and_then : Result → Result → Result
and_then ok rest = rest
and_then (err e) rest = err e

-- The end of `main`, with how the services that are still running end after the shutdown is sent.
unfoldable pub finish : First → Joined → Joined → Result
unfolding outcome
finish first ingestion_end http_end =
    and_then (if ingestion_finished first then ok else flatten ingestion_end)
      (and_then (if http_finished first then ok else flatten http_end) (outcome first))

-- The process ends without an error only if what ended it was a shutdown signal without an
-- error, and ingestion and the HTTP server then both ended without one.
pub finish_ok :
    (first : First) (ingestion_end http_end : Joined)
    → finish first ingestion_end http_end ≡ ok
    → (first ≡ signal ok) × (ingestion_end ≡ ended ok) × (http_end ≡ ended ok)
unfolding finish outcome
finish_ok first ingestion_end http_end h = ground arith

-- The DVM service as `main` starts it: whether the flag is set, the key is there and parses.
unfoldable pub starts_dvm : Bool → Option Str → (Str → Bool) → Bool
starts_dvm dvm_enabled none parses = false
starts_dvm dvm_enabled (some private_key) parses = if dvm_enabled then parses private_key else false
