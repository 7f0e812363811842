-- ===== src/LogRing/Listing.antt =====
-- main/log_ring.cpp: `log_ring_to_json`. The ring may change between two critical sections: `during i`
-- is the ring at the start of round `i` of the loop, `r` that of the section before it. The position
-- in the buffer is the length of what has been written.
pub mod Room
use zhac_net_core.Base.{
  ℕ, zero, suc, ◌+◌, ◌-◌, ◌/◌, ◌%◌, Bool, true, false, ◌||◌, List, [], ◌∷◌, ◌++◌, Option, none,
  some, ltb, leb, ◌==◌, if◌then◌else◌, length, get_or, codes, decimal,
}
use zhac_net_core.LogRing.{Bytes, LogEntry, Ring, zeroed_entry, log_ring_size}
use zhac_net_core.LogRing.Sinks.Body.{escaped_byte}

abbrev pub start : Ring → ℕ
start r = if r.count == log_ring_size then r.head else 0

-- What the rounds from `i` on read, `n` of them.
unfoldable pub snapshots : (ℕ → Ring) → ℕ → ℕ → ℕ → List LogEntry
snapshots during start i zero = []
snapshots during start i (suc n) =
    get_or (during i).entries ((start + i) % log_ring_size) zeroed_entry
    ∷ snapshots during start (suc i) n

-- The loop over the bytes of a line, which stops where the room ends.
unfoldable pub emit_line : ℕ → Bytes → Bytes → Bytes
emit_line cap out [] = out
emit_line cap out (c ∷ cs) =
    let rest = emit_line cap (out ++ escaped_byte c) cs in
    if ltb (length out + 6) cap then rest else out

-- The first part of a round, to the time.
unfoldable pub emit_time : ℕ → (first : Bool) → ℕ → Bytes → Option Bytes
emit_time cap first ts_us out =
    let opened = (if first then out else out ++ codes ",") ++ codes "\"" in
    let time = decimal (ts_us / 1000) ++ codes " " in
    if leb cap (length out + 4)
    then none
    else if leb (cap - length opened) (length time)
    then none
    else some (opened ++ time)

-- One round of the loop; `none` is the answer 0.
unfoldable pub emit_entry : ℕ → (first : Bool) → Bytes → LogEntry → Option Bytes
unfolding emit_time emit_line
emit_entry cap first out e = elim (emit_time cap first e.ts_us out) [
  | none ↦ none
  | some timed ↦
      let written = emit_line cap timed e.line in
      if leb cap (length written + 2) then none else some (written ++ codes "\"")
]

unfoldable pub emit_entries : ℕ → (first : Bool) → Bytes → List LogEntry → Option Bytes
emit_entries cap first out [] = some out
emit_entries cap first out (e ∷ es) = elim (emit_entry cap first out e) [
  | none ↦ none
  | some out' ↦ emit_entries cap false out' es
]

-- The text without its NUL.
unfoldable pub log_ring_to_json : (r : Option Ring) → (during : ℕ → Ring) → ℕ → Option Bytes
unfolding emit_entries snapshots
log_ring_to_json none during cap = none
log_ring_to_json (some r) during cap =
    if ltb cap 16
    then none
    else elim (emit_entries cap true (codes "{\"logs\":[") (snapshots during (start r) 0 r.count)) [
      | none ↦ none
      | some out ↦ if ltb cap (length out + 3) then none else some (out ++ codes "]}")
    ]
