-- ===== src/Json/Utf8.antt =====
-- main/json_buf.h: `utf8_seq_len` and `utf8_safe_copy`. A C string is the bytes before its NUL; a read
-- at its end gives the NUL.
pub mod Scalars
pub mod Copy
use zhac_net_core.Base.{
  ℕ, zero, suc, ◌+◌, ◌-◌, ◌≤◌, ◌<◌, ◌≡◌, refl, Bool, true, false, ◌&&◌, ◌||◌, List, [], ◌∷◌, ◌++◌,
  Option, none, some, ltb, leb, ◌==◌, if◌then◌else◌, length, get_or, take, drop, arith,
}

abbrev pub Bytes : Type 0
Bytes = List ℕ

-- What the lead byte asks for: `need`, and the range of the first continuation byte.
pub record Lead : Type 0 where
  pub need : ℕ
  pub lo : ℕ
  pub hi : ℕ

abbrev lead : ℕ → ℕ → ℕ → Option Lead
lead need lo hi = some (record { need = need; lo = lo; hi = hi })

unfoldable pub lead_of : ℕ → Option Lead
lead_of c =
    if leb 0xC2 c && leb c 0xDF
    then lead 1 0x80 0xBF
    else if c == 0xE0
    then lead 2 0xA0 0xBF
    else if leb 0xE1 c && leb c 0xEC
    then lead 2 0x80 0xBF
    else if c == 0xED
    then lead 2 0x80 0x9F
    else if c == 0xEE || c == 0xEF
    then lead 2 0x80 0xBF
    else if c == 0xF0
    then lead 3 0x90 0xBF
    else if leb 0xF1 c && leb c 0xF3
    then lead 3 0x80 0xBF
    else if c == 0xF4
    then lead 3 0x80 0x8F
    else none

abbrev in_range : ℕ → ℕ → ℕ → Bool
in_range lo hi c = leb lo c && leb c hi

-- The loop over the continuation bytes: `k` of them are left, and `lo`, `hi` bound the next one.
unfoldable pub continues : ℕ → ℕ → ℕ → Bytes → Bool
continues zero lo hi s = true
continues (suc k) lo hi s = in_range lo hi (get_or s 0 0) && continues k 0x80 0xBF (drop 1 s)

-- 0 is the answer for an invalid or truncated sequence.
unfoldable pub utf8_seq_len : Bytes → ℕ → ℕ
unfolding lead_of continues
utf8_seq_len s avail =
    let c = get_or s 0 0 in
    if avail == 0 then 0 else if ltb c 0x80 then 1 else elim (lead_of c) [
      | none ↦ 0
      | some l ↦
          if ltb avail (l.need + 1)
          then 0
          else if continues l.need l.lo l.hi (drop 1 s)
          then l.need + 1
          else 0
    ]

-- The loop of `utf8_safe_copy` on the rest of the source: `room` bytes can still be written before
-- the NUL. Each round takes a byte at least, so the length of the source is fuel enough.
unfoldable pub copy_loop : ℕ → ℕ → Bytes → Bytes
copy_loop zero room src = []
copy_loop (suc fuel) room src =
    let n = utf8_seq_len src 4 in
    let rest = copy_loop fuel (room - n) (drop n src) in
    if length src == 0 || n == 0 || ltb room n then [] else take n src ++ rest

-- What stands in `dst` before its NUL; `none` is a null source, or a destination of no bytes.
unfoldable pub utf8_safe_copy : ℕ → Option Bytes → Option Bytes
unfolding copy_loop
utf8_safe_copy zero src = none
utf8_safe_copy (suc n) none = some []
utf8_safe_copy (suc n) (some src) = some (copy_loop (length src) n src)
