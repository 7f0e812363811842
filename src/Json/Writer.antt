-- ===== src/Json/Writer.antt =====
-- main/json_buf.h: `JsonWriter`. The buffer is an array that is written by index; what `vsnprintf`
-- prints for a format and its arguments is a parameter, the text without its NUL.
pub mod Bounded
pub mod Sanitized
pub mod Formatted
pub mod Read
use zhac_net_core.Base.{
  ℕ, zero, suc, ◌+◌, ◌-◌, Bool, true, false, ◌&&◌, ◌||◌, not, List, [], ◌∷◌, ◌++◌, ltb, leb, ◌==◌,
  if◌then◌else◌, length, get_or, set, take, drop, ◌%◌, ◌/◌,
}
use zhac_net_core.Json.Utf8.{Bytes, utf8_seq_len}

pub record JsonWriter : Type 0 where
  pub buf : Bytes
  pub cap : ℕ
  pub pos : ℕ
  pub ok : Bool

unfoldable pub new : Bytes → ℕ → JsonWriter
new buf cap = record { buf = buf; cap = cap; pos = 0; ok = true }

-- The answer of `put` is the new `ok`: every caller has tested it before.
unfoldable pub put : JsonWriter → ℕ → JsonWriter
put w c =
    if leb w.cap w.pos
    then record w { ok = false }
    else record w { buf = set w.buf w.pos c; pos = suc w.pos }

-- A loop of `put` that stops at the first failure.
unfoldable pub put_all : JsonWriter → Bytes → JsonWriter
put_all w [] = w
put_all w (c ∷ cs) = let rest = put_all (put w c) cs in if (put w c).ok then rest else put w c

-- Both `raw`s: the source up to its NUL, or its first `len` bytes.
unfoldable pub raw : JsonWriter → Bytes → JsonWriter
unfolding put_all
raw w s = if not w.ok then w else put_all w s

unfoldable pub ch : JsonWriter → ℕ → JsonWriter
ch w c = if w.ok then put w c else w

-- `vsnprintf` into the room that is left: as much of the text as fits with a NUL, and its length.
unfoldable pub print_into : Bytes → ℕ → Bytes → Bytes
print_into buf pos [] = set buf pos 0
print_into buf pos (c ∷ cs) = print_into (set buf pos c) (suc pos) cs

unfoldable pub fmt : JsonWriter → Bytes → JsonWriter
unfolding print_into
fmt w text =
    let rem = w.cap - w.pos in
    if not w.ok
    then w
    else if leb rem (length text)
    then record w {
      buf = if rem == 0 then w.buf else print_into w.buf w.pos (take (rem - 1) text);
      ok = false;
    }
    else record w { buf = print_into w.buf w.pos text; pos = w.pos + length text }

abbrev pub hex_digit : ℕ → ℕ
hex_digit d = if ltb d 10 then b'0' + d else b'a' + (d - 10)

-- `\u%04x` of a byte.
abbrev pub u_escape : ℕ → Bytes
u_escape c = b'\\' ∷ b'u' ∷ b'0' ∷ b'0' ∷ hex_digit (c / 16 % 16) ∷ hex_digit (c % 16) ∷ []

abbrev pub replacement : Bytes
replacement = b'\\' ∷ b'u' ∷ b'f' ∷ b'f' ∷ b'f' ∷ b'd' ∷ []

abbrev pub is_short_escape : ℕ → Bool
is_short_escape c = c == b'"' || c == b'\\' || c == b'\n' || c == b'\r' || c == b'\t'

abbrev pub short_escape : ℕ → ℕ
short_escape c =
    if c == b'"'
    then b'"'
    else if c == b'\\'
    then b'\\'
    else if c == b'\n'
    then b'n'
    else if c == b'\r'
    then b'r'
    else b't'

-- One round of the loop of `str`, on the rest of the source and the bytes of it that may be read:
-- what it emits, and how many source bytes it uses.
unfoldable pub str_round : Bytes → ℕ → Bytes × ℕ
str_round s left =
    let c = get_or s 0 0 in
    let n = utf8_seq_len s left in
    if is_short_escape c
    then (b'\\' ∷ short_escape c ∷ [], 1)
    else if ltb c 0x20
    then (u_escape c, 1)
    else if ltb c 0x80
    then (c ∷ [], 1)
    else if n == 0
    then (replacement, 1)
    else (take n s, n)

-- The loop of `str`; every round uses a byte, so `left` bounds the rounds.
unfoldable pub str_loop : ℕ → JsonWriter → Bytes → ℕ → JsonWriter
str_loop zero w s left = w
str_loop (suc fuel) w s left =
    let (out, used) = str_round s left in
    let w' = put_all w out in
    let rest = str_loop fuel w' (drop used s) (left - used) in
    if left == 0 || get_or s 0 0 == 0 then w else if w'.ok then rest else w'

unfoldable pub str : JsonWriter → Bytes → ℕ → JsonWriter
unfolding str_loop
str w s max = if not w.ok then w else str_loop max w s max

unfoldable pub finish : JsonWriter → ℕ
finish w = if w.ok then w.pos else 0
