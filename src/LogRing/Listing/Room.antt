-- ===== src/LogRing/Listing/Room.antt =====
-- What `log_ring_to_json` of main/log_ring.cpp writes where it has the room.
use mathlib.Core.List.{append_assoc, append-nil}
use zhac_net_core.Base.{
  ℕ, ◌+◌, ◌-◌, ◌/◌, ◌<◌, ◌≡◌, refl, sym, ap, ◌∙◌, Bool, true, false, List, [], ◌∷◌, ◌++◌, none,
  some, ltb, leb, if◌then◌else◌, arith, length, codes, decimal, length-append, lt→ltb, le→ltb,
}
use zhac_net_core.LogRing.{Bytes, LogEntry, Ring, log_ring_init}
use zhac_net_core.LogRing.Sinks.Body.{escaped_byte, escaped_text}
use zhac_net_core.LogRing.Listing.{emit_line, emit_time, emit_entry, emit_entries, log_ring_to_json}
use zhac_net_core.LogRing.Order.{listed, last, log_all, log_all_lem}

-- One entry as it is meant, with the comma before all but the first.
abbrev pub entry_text : Bool → LogEntry → Bytes
entry_text first e =
    (if first then [] else codes ",")
    ++ (codes "\""
        ++ ((decimal (e.ts_us / 1000) ++ codes " ") ++ (escaped_text e.line ++ codes "\"")))

unfoldable pub entries_text : Bool → List LogEntry → Bytes
entries_text first [] = []
entries_text first (e ∷ es) = entry_text first e ++ entries_text false es

-- The whole text.
unfoldable pub logs_text : List LogEntry → Bytes
unfolding entries_text
logs_text es = codes "{\"logs\":[" ++ (entries_text true es ++ codes "]}")

lt→leb : (a b : ℕ) → b < a → leb a b ≡ false
lt→leb a b h = ground arith

emit_line-whole :
    (cap : ℕ) (out line : Bytes)
    → length (out ++ escaped_text line) + 6 < cap
    → emit_line cap out line ≡ out ++ escaped_text line
unfolding emit_line escaped_text
emit_line-whole cap out [] h = sym (append-nil out)
emit_line-whole cap out (c ∷ cs) h =
    let assoc = append_assoc out (escaped_byte c) (escaped_text cs) in
    let fits : ltb (length out + 6) cap ≡ true =
      lt→ltb _ _ (omega (arith, h, length-append {0} out (escaped_text (c ∷ cs)))) in
    rw fits
      (emit_line-whole cap (out ++ escaped_byte c) cs (omega (arith, ap length assoc, h)) ∙ assoc)

opened : Bool → Bytes → Bytes
opened first out = (if first then out else out ++ codes ",") ++ codes "\""

opened-append :
    (first : Bool) (out rest : Bytes)
    → opened first out ++ rest ≡ out ++ ((if first then [] else codes ",") ++ (codes "\"" ++ rest))
unfolding opened
opened-append true out rest = append_assoc out (codes "\"") rest
opened-append false out rest = simp append_assoc

length-opened : (first : Bool) (out : Bytes) → length out < length (opened first out)
unfolding opened
length-opened true out = omega (arith, length-append {0} out (codes "\""))
length-opened false out =
    omega
      (arith, length-append {0} (out ++ codes ",") (codes "\""), length-append {0} out (codes ","))

abbrev time_text : ℕ → Bytes
time_text ts_us = decimal (ts_us / 1000) ++ codes " "

emit_time-whole :
    (cap : ℕ) (first : Bool) (ts_us : ℕ) (out : Bytes)
    → length out + 4 < cap
    → length (opened first out) + length (time_text ts_us) < cap
    → emit_time cap first ts_us out ≡ some (opened first out ++ time_text ts_us)
unfolding emit_time opened
emit_time-whole cap first ts_us out h k =
    rw
      (
        lt→leb cap (length out + 4) h,
        lt→leb (cap - length (opened first out)) (length (time_text ts_us)) (omega arith),
      )
      refl

entry_regroup :
    (first : Bool) (out : Bytes) (e : LogEntry)
    → ((opened first out ++ time_text e.ts_us) ++ escaped_text e.line) ++ codes "\""
      ≡ out ++ entry_text first e
entry_regroup first out e =
    let time = time_text e.ts_us in
    append_assoc (opened first out ++ time) (escaped_text e.line) (codes "\"")
    ∙ append_assoc (opened first out) time (escaped_text e.line ++ codes "\"")
    ∙ opened-append first out (time ++ (escaped_text e.line ++ codes "\""))

emit_entry-whole :
    (cap : ℕ) (first : Bool) (out : Bytes) (e : LogEntry)
    → length (out ++ entry_text first e) + 6 < cap
    → emit_entry cap first out e ≡ some (out ++ entry_text first e)
unfolding emit_entry
emit_entry-whole cap first out e h =
    let start_text = opened first out in
    let time = time_text e.ts_us in
    let line = escaped_text e.line in
    let all = ap length (entry_regroup first out e) in
    let size3 = length-append {0} ((start_text ++ time) ++ line) (codes "\"") in
    let size2 = length-append {0} (start_text ++ time) line in
    let size1 = length-append {0} start_text time in
    let size0 = length-opened first out in
    let timed : emit_time cap first e.ts_us out ≡ some (start_text ++ time) =
      emit_time-whole cap first e.ts_us out (omega (arith, all, size0)) (omega (arith, all)) in
    let written : emit_line cap (start_text ++ time) e.line ≡ (start_text ++ time) ++ line =
      emit_line-whole cap (start_text ++ time) e.line (omega (arith, all)) in
    rw (timed, emit_entry)
      (rw (written, lt→leb cap (length ((start_text ++ time) ++ line) + 2) (omega (arith, all)))
        (ap some (entry_regroup first out e)))

emit_entries-whole :
    (cap : ℕ) (first : Bool) (out : Bytes) (es : List LogEntry)
    → length (out ++ entries_text first es) + 6 < cap
    → emit_entries cap first out es ≡ some (out ++ entries_text first es)
unfolding emit_entries entries_text
emit_entries-whole cap first out [] h = ap some (sym (append-nil out))
emit_entries-whole cap first out (e ∷ es) h =
    let assoc = append_assoc out (entry_text first e) (entries_text false es) in
    let size = length-append {0} (out ++ entry_text first e) (entries_text false es) in
    let one : emit_entry cap first out e ≡ some (out ++ entry_text first e) =
      emit_entry-whole cap first out e (omega (arith, ap length assoc)) in
    rw (one, emit_entries)
      (emit_entries-whole cap false (out ++ entry_text first e) es (omega (arith, ap length assoc))
        ∙ ap some assoc)

listing-whole :
    (r : Ring) (cap : ℕ)
    → length (logs_text (listed r)) + 4 < cap
    → log_ring_to_json (some r) (λ i. r) cap ≡ some (logs_text (listed r))
unfolding log_ring_to_json logs_text
listing-whole r cap h =
    let head = codes "{\"logs\":[" in
    let text = entries_text true (listed r) in
    let assoc = append_assoc head text (codes "]}") in
    let size = length-append {0} (head ++ text) (codes "]}") in
    let size1 = length-append {0} head text in
    let entries : emit_entries cap true head (listed r) ≡ some (head ++ text) =
      emit_entries-whole cap true head (listed r) (omega (arith, ap length assoc)) in
    rw
      (
        le→ltb cap 16 (omega (arith, ap length assoc)),
        entries,
        le→ltb cap (length (head ++ text) + 3) (omega (arith, ap length assoc)),
      )
      (ap some assoc)

-- After `log_ring_init`, whatever lines are logged, `log_ring_to_json` writes the last 128 of them,
-- oldest first, with their times, escaped and whole, if nobody logs meanwhile and the buffer has five
-- bytes to spare behind the text.
pub log_ring_to_json_lem :
    (r : Ring) (es : List LogEntry) (cap : ℕ)
    → log_ring_init true none ≡ some r
    → length (logs_text (last 128 es)) + 4 < cap
    → log_ring_to_json (some (log_all r es)) (λ i. log_all r es) cap
      ≡ some (logs_text (last 128 es))
log_ring_to_json_lem r es cap init room =
    let same = log_all_lem r es init in
    listing-whole (log_all r es) cap (omega (arith, ap (λ z. length (logs_text z)) same))
    ∙ ap (λ z. some (logs_text z)) same
