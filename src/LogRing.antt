-- ===== src/LogRing.antt =====
-- main/log_ring.cpp: the ring of the last log lines. A line is its text before the NUL. The ring's
-- functions are those that run under `s_mux`; its allocation is `log_ring_init`.
pub mod Lines
pub mod Sinks
pub mod Listing
pub mod Order
pub mod Printed
use zhac_net_core.Base.{
  ℕ, zero, suc, ◌+◌, ◌%◌, List, [], Bool, Option, none, some, ltb, ◌==◌, if◌then◌else◌, set,
  replicate,
}

abbrev pub Bytes : Type 0
Bytes = List ℕ

abbrev pub log_ring_size : ℕ
log_ring_size = 128

abbrev pub log_line_max : ℕ
log_line_max = 192

pub record LogEntry : Type 0 where
  pub ts_us : ℕ
  pub line : Bytes

abbrev pub zeroed_entry : LogEntry
zeroed_entry = record { ts_us = 0; line = [] }

pub record Ring : Type 0 where
  pub entries : List LogEntry
  pub head : ℕ
  pub count : ℕ

-- `alloc_ok` is the allocator's answer; `none` is the null pointer of before.
unfoldable pub log_ring_init : (alloc_ok : Bool) → Option Ring → Option Ring
log_ring_init alloc_ok (some r) = some r
log_ring_init alloc_ok none =
    if alloc_ok
    then some (record { entries = replicate log_ring_size zeroed_entry; head = 0; count = 0 })
    else none

-- The critical section of `log_vprintf` and of `log_sinks_publish_p4`.
unfoldable pub append : Ring → LogEntry → Ring
append r e = record {
  entries = set r.entries r.head e;
  head = (r.head + 1) % log_ring_size;
  count = if ltb r.count log_ring_size then suc r.count else r.count;
}
