-- ===== src/Json/Utf8/Scalars.antt =====
-- `utf8_seq_len` of main/json_buf.h against the encoding of Unicode scalar values.
use zhac_net_core.Base.{
  ℕ, ◌+◌, ◌-◌, ◌*◌, ◌/◌, ◌%◌, ◌≤◌, ◌<◌, ◌≡◌, sym, ◌∙◌, ◌⊎◌, inl, inr, [], ◌∷◌, ◌++◌, ltb, ◌==◌,
  if◌then◌else◌, length, get_or, take, arith, Bool-cases,
}
use zhac_net_core.Json.Utf8.{Bytes, utf8_seq_len}

-- A code point that is no surrogate (RFC 3629, section 3).
abbrev pub IsScalar : ℕ → Type 0
IsScalar cp = (cp < 0xD800) ⊎ ((0xE000 ≤ cp) × (cp ≤ 0x10FFFF))

abbrev tail_byte : ℕ → ℕ
tail_byte n = 0x80 + n % 64

unfoldable pub encode : ℕ → Bytes
encode cp =
    if ltb cp 0x80
    then cp ∷ []
    else if ltb cp 0x800
    then (0xC0 + cp / 64) ∷ tail_byte cp ∷ []
    else if ltb cp 0x10000
    then (0xE0 + cp / 4096) ∷ tail_byte (cp / 64) ∷ tail_byte cp ∷ []
    else (0xF0 + cp / 262144) ∷ tail_byte (cp / 4096) ∷ tail_byte (cp / 64) ∷ tail_byte cp ∷ []

-- The encoding of every scalar value is accepted, whatever follows it.
pub utf8_seq_len-encode :
    (cp : ℕ) (rest : Bytes) (avail : ℕ)
    → IsScalar cp
    → length (encode cp) ≤ avail
    → utf8_seq_len (encode cp ++ rest) avail ≡ length (encode cp)
unfolding utf8_seq_len encode
utf8_seq_len-encode cp rest avail scalar room = ground arith

-- The scalar value that accepted bytes stand for.
unfoldable pub decode : ℕ → Bytes → ℕ
decode n s =
    let b0 = get_or s 0 0 in
    let t1 = get_or s 1 0 - 0x80 in
    let t2 = get_or s 2 0 - 0x80 in
    let t3 = get_or s 3 0 - 0x80 in
    if n == 1
    then b0
    else if n == 2
    then (b0 - 0xC0) * 64 + t1
    else if n == 3
    then (b0 - 0xE0) * 4096 + t1 * 64 + t2
    else (b0 - 0xF0) * 262144 + t1 * 4096 + t2 * 64 + t3

abbrev pub IsRun : ℕ → ℕ → Bytes → Type 0
IsRun avail n s = (n ≤ avail) × IsScalar (decode n s) × (take n s ≡ encode (decode n s))

-- What is known of an accepted sequence of four bytes.
record IsFour (a b c d : ℕ) : Type 0 where
  lead_range : (0xF0 ≤ a) × (a ≤ 0xF4)
  first_range : (0x80 ≤ b) × (b ≤ 0xBF)
  not_overlong : a ≡ 0xF0 → 0x90 ≤ b
  not_beyond : a ≡ 0xF4 → b ≤ 0x8F
  rest_range : (0x80 ≤ c) × (c ≤ 0xBF) × (0x80 ≤ d) × (d ≤ 0xBF)

IsFour-bytes :
    (a b c d avail : ℕ) (rest : Bytes)
    → 0xF0 ≤ a
    → 0 < utf8_seq_len (a ∷ b ∷ c ∷ d ∷ rest) avail
    → (utf8_seq_len (a ∷ b ∷ c ∷ d ∷ rest) avail ≡ 4) × (4 ≤ avail) × IsFour a b c d
unfolding utf8_seq_len
IsFour-bytes a b c d avail rest long h = ground arith

four_scalar :
    (a b c d : ℕ) (rest : Bytes)
    → IsFour a b c d
    → let cp = decode 4 (a ∷ b ∷ c ∷ d ∷ rest) in (0x10000 ≤ cp) × (cp ≤ 0x10FFFF)
unfolding decode
four_scalar a b c d rest f = ground arith

four_encode :
    (a b c d : ℕ) (rest : Bytes)
    → IsFour a b c d
    → let cp = decode 4 (a ∷ b ∷ c ∷ d ∷ rest) in
      (a ≡ 0xF0 + cp / 262144)
      × (b ≡ 0x80 + cp / 4096 % 64)
      × (c ≡ 0x80 + cp / 64 % 64)
      × (d ≡ 0x80 + cp % 64)
unfolding decode
four_encode a b c d rest f = omega arith

encode_four :
    (cp : ℕ)
    → 0x10000 ≤ cp
    → encode cp
      ≡ (0xF0 + cp / 262144) ∷ tail_byte (cp / 4096) ∷ tail_byte (cp / 64) ∷ tail_byte cp ∷ []
unfolding encode
encode_four cp h = ground arith

-- Whatever is accepted, at any length, is the encoding of a scalar value inside the bytes given.
pub utf8_seq_len_sound :
    (s : Bytes) (avail : ℕ)
    → 0 < utf8_seq_len s avail
    → 0 < length s
    → IsRun avail (utf8_seq_len s avail) s
unfolding utf8_seq_len encode decode
utf8_seq_len_sound [] avail h some_byte = absurd (omega arith)
utf8_seq_len_sound (a ∷ []) avail h some_byte = ground arith
utf8_seq_len_sound (a ∷ b ∷ []) avail h some_byte = ground arith
utf8_seq_len_sound (a ∷ b ∷ c ∷ []) avail h some_byte = ground arith
utf8_seq_len_sound (a ∷ b ∷ c ∷ d ∷ rest) avail h some_byte = elim (Bool-cases (ltb a 0xF0)) [
  | inl short ↦ ground arith
  | inr long ↦
      let (size, room, f) = IsFour-bytes a b c d avail rest (ground arith) h in
      let (low, high) = four_scalar a b c d rest f in
      let (ea, eb, ec, ed) = four_encode a b c d rest f in
      rw size (
        room,
        inr (omega arith, high),
        (λ i. ea i ∷ eb i ∷ ec i ∷ ed i ∷ []) ∙ sym (encode_four _ low),
      )
]
