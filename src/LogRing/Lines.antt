-- ===== src/LogRing/Lines.antt =====
-- main/log_ring.cpp: how a formatted line is cleaned and taken apart.
pub mod Coloured
use zhac_net_core.Base.{
  ℕ, zero, suc, ◌+◌, ◌-◌, Bool, true, false, ◌&&◌, ◌||◌, not, List, [], ◌∷◌, ◌++◌, Option, none,
  some, ltb, ◌==◌, if◌then◌else◌, length, get_or, take, split_at_byte, skip_spaces,
}
use zhac_net_core.LogRing.{Bytes, log_line_max}

abbrev pub esc : ℕ
esc = 0x1b

-- The loop that drops line ends and escapes from the end of the first `n` bytes: what is left of `n`.
unfoldable pub trimmed_length : Bytes → ℕ → ℕ
trimmed_length buf zero = 0
trimmed_length buf (suc n) =
    let c = get_or buf n 0 in
    let rest = trimmed_length buf n in if c == b'\n' || c == b'\r' || c == esc then rest else suc n

-- Where the loop that strips colour codes stands: at a byte to copy, at the bracket behind an escape,
-- or inside the code.
pub data Mode : Type 0 where
  copying bracket skipping : Mode

abbrev starts_bracket : Bytes → Bool
starts_bracket [] = false
starts_bracket (c ∷ cs) = c == b'['

-- `room` is what `clean` has left before its NUL.
unfoldable pub strip : ℕ → Mode → Bytes → Bytes
strip room mode [] = []
strip room bracket (c ∷ cs) = strip room skipping cs
strip room skipping (c ∷ cs) =
    let inside = strip room skipping cs in
    let behind = strip room copying cs in if c == b'm' then behind else inside
strip room copying (c ∷ cs) =
    let coded = strip room bracket cs in
    let copied = strip (room - 1) copying cs in
    if room == 0 then [] else if c == esc && starts_bracket cs then coded else c ∷ copied

-- From what `vsnprintf` printed to `clean`; the buffer takes all but one of its bytes.
unfoldable pub clean_line : Bytes → Bytes
unfolding trimmed_length strip
clean_line text =
    let buf = take (log_line_max - 1) text in
    strip (log_line_max - 1) copying (take (trimmed_length buf (length buf)) buf)

pub record Parsed : Type 0 where
  pub level : ℕ
  pub tag : Bytes
  pub msg : Bytes

abbrev pub is_level : ℕ → Bool
is_level c = c == b'E' || c == b'W' || c == b'I' || c == b'D' || c == b'V'

-- The rest of `parse_line` behind the bracket; `level` is set already.
unfoldable pub parse_tag : ℕ → Bytes → ℕ → Bytes → Parsed
parse_tag level line tag_cap p = elim (split_at_byte b':' p) [
  | none ↦ record { level = level; tag = []; msg = line }
  | some (tag, behind) ↦ record {
    level = level;
    tag = take (if ltb (length tag) tag_cap then length tag else tag_cap - 1) tag;
    msg = skip_spaces behind;
  }
]

unfoldable pub parse_line : Bytes → ℕ → Parsed
unfolding parse_tag
parse_line line tag_cap =
    let raw : Parsed = record { level = b'I'; tag = []; msg = line } in
    let level = get_or line 0 0 in
    if length line == 0
    then raw
    else if is_level level
    then elim (split_at_byte b')' line) [
      | none ↦ record { level = level; tag = []; msg = line }
      | some (_, behind) ↦ parse_tag level line tag_cap (skip_spaces behind)
    ]
    else raw
