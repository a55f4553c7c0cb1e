-- ===== src/Graph/Metrics.antt =====
-- src/graph/metrics.rs. A duration is its nanoseconds; an `AtomicU64` wraps at 2 ^ 64.
use nostr_wot_oracle.Prelude.{
  ℕ, ◌+◌, ◌/◌, ◌%◌, ◌^◌, max, Bool, Option, none, some, if◌then◌else◌, unwrap_or, ◌==◌,
}
use mathlib.Core.Option

pub record LockMetrics : Type 0 where
  pub write_lock_count : ℕ
  pub write_lock_total_ns : ℕ
  pub write_lock_max_ns : ℕ
  pub read_lock_count : ℕ
  pub read_lock_total_ns : ℕ
  pub read_lock_max_ns : ℕ

pub record LockMetricsSnapshot : Type 0 where
  pub write_lock_count : ℕ
  pub write_lock_avg_us : ℕ
  pub write_lock_max_us : ℕ
  pub read_lock_count : ℕ
  pub read_lock_avg_us : ℕ
  pub read_lock_max_us : ℕ

abbrev pub new : LockMetrics
new = record {
  write_lock_count = 0;
  write_lock_total_ns = 0;
  write_lock_max_ns = 0;
  read_lock_count = 0;
  read_lock_total_ns = 0;
  read_lock_max_ns = 0;
}

-- `fetch_add` on an `AtomicU64`.
abbrev pub fetch_add : ℕ → ℕ → ℕ
fetch_add a n = (a + n) % 2 ^ 64

-- `duration.as_nanos() as u64`
unfoldable pub record_write : LockMetrics → ℕ → LockMetrics
record_write m nanos =
    let ns = nanos % 2 ^ 64 in
    record m {
      write_lock_count = fetch_add m.write_lock_count 1;
      write_lock_total_ns = fetch_add m.write_lock_total_ns ns;
      write_lock_max_ns = max m.write_lock_max_ns ns;
    }

unfoldable pub record_read : LockMetrics → ℕ → LockMetrics
record_read m nanos =
    let ns = nanos % 2 ^ 64 in
    record m {
      read_lock_count = fetch_add m.read_lock_count 1;
      read_lock_total_ns = fetch_add m.read_lock_total_ns ns;
      read_lock_max_ns = max m.read_lock_max_ns ns;
    }

-- `checked_div`
abbrev pub checked_div : ℕ → ℕ → Option ℕ
checked_div a b = if b == 0 then none else some (a / b)

abbrev pub avg_us : ℕ → ℕ → ℕ
avg_us total count = unwrap_or (Option.map (λ ns. ns / 1000) (checked_div total count)) 0

unfoldable pub snapshot : LockMetrics → LockMetricsSnapshot
snapshot m = record {
  write_lock_count = m.write_lock_count;
  write_lock_avg_us = avg_us m.write_lock_total_ns m.write_lock_count;
  write_lock_max_us = m.write_lock_max_ns / 1000;
  read_lock_count = m.read_lock_count;
  read_lock_avg_us = avg_us m.read_lock_total_ns m.read_lock_count;
  read_lock_max_us = m.read_lock_max_ns / 1000;
}

unfoldable pub reset : LockMetrics → LockMetrics
reset m = new

-- `LockTimer`: a guard that records how long it lived when it is dropped.
pub record LockTimer : Type 0 where
  pub start : ℕ
  pub is_write : Bool

unfoldable pub drop_timer : LockTimer → ℕ → LockMetrics → LockMetrics
drop_timer t elapsed m = if t.is_write then record_write m elapsed else record_read m elapsed
