-- ===== src/WsBridge/Escape.antt =====
-- The texts that main/ws_bridge.cpp puts into JSON strings.
use mathlib.Core.Path.{subst}
use zhac_net_core.Base.{
  ℕ, suc, ◌+◌, ◌*◌, ◌≤◌, ◌<◌, ◌≡◌, refl, sym, ap, ◌∙◌, inl, inr, Bool, true, false, ◌&&◌, ◌||◌, not,
  [], ◌∷◌, ◌++◌, Option, none, some, arith, ltb, ◌==◌, ==_iff, if◌then◌else◌, if_either, Bool-cases,
  length, take, length-append,
}
use zhac_net_core.Json.Writer.{is_short_escape, short_escape}
use zhac_net_core.WsBridge.{Bytes, escape_byte, escape_from, json_escape}

-- The bytes that have a place in the text: all but the other control characters.
abbrev pub is_kept : ℕ → Bool
is_kept c = is_short_escape c || not (ltb c 0x20)

unfoldable pub kept : Bytes → Bytes
kept [] = []
kept (c ∷ cs) = if is_kept c then c ∷ kept cs else kept cs

abbrev pub cons_some : ℕ → Option Bytes → Option Bytes
cons_some c none = none
cons_some c (some cs) = some (c ∷ cs)

-- The letter behind a backslash.
abbrev pub letter : ℕ → Option ℕ
letter d =
    if d == b'"'
    then some b'"'
    else if d == b'\\'
    then some b'\\'
    else if d == b'n'
    then some b'\n'
    else if d == b'r'
    then some b'\r'
    else if d == b't'
    then some b'\t'
    else none

-- What a reader of JSON takes the inside of a string for, with the five short escapes: `none` if it ends
-- too early, has a byte below 32, or breaks off behind a backslash.
unfoldable pub read_string : (escaping : Bool) → Bytes → Option Bytes
read_string false [] = some []
read_string true [] = none
read_string true (c ∷ cs) =
    let rest = read_string false cs in elim (letter c) [ none ↦ none | some d ↦ cons_some d rest ]
read_string false (c ∷ cs) =
    let rest = read_string (c == b'\\') cs in
    if c == b'\\' then rest else if c == b'"' || ltb c 0x20 then none else cons_some c rest

-- One byte's piece is read as that byte, or as nothing.
abbrev ReadsBack : Bytes → ℕ → Type 0
ReadsBack out c =
    read_string false (escape_byte c ++ out)
    ≡ (if is_kept c then cons_some c (read_string false out) else read_string false out)

plain-ReadsBack : (out : Bytes) (c : ℕ) → is_short_escape c ≡ false → ReadsBack out c
unfolding read_string escape_byte
plain-ReadsBack out c plain = elim (Bool-cases (ltb c 0x20)) [
  | inl control ↦ rw (plain, control) refl
  | inr shown ↦
      let no_slash : (c == b'\\') ≡ false = ground (arith, plain) in
      let no_quote : (c == b'"') ≡ false = ground (arith, plain) in
      rw (plain, shown, no_slash, no_quote) (rw shown refl)
]

read-escape_byte : (out : Bytes) (c : ℕ) → ReadsBack out c
unfolding read_string escape_byte
read-escape_byte out c = elim (Bool-cases (c == b'"')) [
  | inl e ↦ at b'"' e refl
  | inr a ↦ elim (Bool-cases (c == b'\\')) [
    | inl e ↦ at b'\\' e refl
    | inr b ↦ elim (Bool-cases (c == b'\n')) [
      | inl e ↦ at b'\n' e refl
      | inr d ↦ elim (Bool-cases (c == b'\r')) [
        | inl e ↦ at b'\r' e refl
        | inr f ↦ elim (Bool-cases (c == b'\t')) [
          | inl e ↦ at b'\t' e refl
          | inr g ↦ plain-ReadsBack out c (rw (a, b, d, f, g) refl)
        ]
      ]
    ]
  ]
]
  where
    at : (k : ℕ) → (c == k) ≡ true → ReadsBack out k → ReadsBack out c
    at k e h = subst (ReadsBack out) (sym ((==_iff c k).0 e)) h

read-cons_if :
    (b : Bool) (c : ℕ) (o : Option Bytes) (cs : Bytes)
    → o ≡ some cs
    → (if b then cons_some c o else o) ≡ some (if b then c ∷ cs else cs)
read-cons_if true c o cs e = ap (cons_some c) e
read-cons_if false c o cs e = e

kept-cons : (c : ℕ) (cs : Bytes) → kept (c ∷ cs) ≡ (if is_kept c then c ∷ kept cs else kept cs)
unfolding kept
kept-cons c cs = refl

nothing_read : read_string false [] ≡ some (kept [])
unfolding read_string kept
nothing_read = refl

-- The whole text, if there were no end of the buffer.
abbrev pub escaped : Bytes → Bytes
escaped [] = []
escaped (c ∷ cs) = escape_byte c ++ escaped cs

abbrev IsCut : (cap wi : ℕ) → Bytes → Type 0
IsCut cap wi src =
    (k : ℕ) × (k ≤ length src)
    × (read_string false (escape_from cap wi src) ≡ some (kept (take k src)))
    × (wi + length (escaped src) + 2 < cap → escape_from cap wi src ≡ escaped src)

cut : (cap wi : ℕ) (src : Bytes) → IsCut cap wi src
unfolding escape_from
cut cap wi [] = (0, omega arith, nothing_read, λ h. refl)
cut cap wi (c ∷ cs) = elim (Bool-cases (not (ltb (wi + 2) cap))) [
  | inl full ↦ rw full (0, omega arith, nothing_read, λ h. absurd (ground (arith, full, h)))
  | inr room ↦ elim (Bool-cases (is_short_escape c && ltb cap (wi + 3))) [
    | inl tight ↦ absurd (ground (arith, tight, room))
    | inr fits ↦
        let (k, small, reads, whole) = cut cap (wi + length (escape_byte c)) cs in
        rw (room, fits)
          (
            suc k,
            omega (arith, small),
            read-escape_byte (escape_from cap (wi + length (escape_byte c)) cs) c
                ∙ read-cons_if (is_kept c) c _ _ reads
                ∙ ap some (sym (kept-cons c (take k cs))),
            λ h.
                ap (λ z. escape_byte c ++ z)
                  (whole (omega (arith, h, length-append (escape_byte c) (escaped cs)))),
          )
  ]
]

escape_byte_short : (c : ℕ) → length (escape_byte c) ≤ 2
unfolding escape_byte
escape_byte_short c =
    if_either (λ z. length z ≤ 2) (is_short_escape c) (b'\\' ∷ short_escape c ∷ [])
      (if ltb c 0x20 then [] else c ∷ []) (λ h. omega arith)
      (λ h.
        if_either (λ z. length z ≤ 2) (ltb c 0x20) [] (c ∷ []) (λ k. omega arith)
          (λ k. omega arith))

escape_from-bound :
    (cap wi : ℕ) (src : Bytes) → wi < cap → wi + length (escape_from cap wi src) < cap
unfolding escape_from
escape_from-bound cap wi [] h = omega arith
escape_from-bound cap wi (c ∷ cs) h =
    let piece = escape_byte c in
    let rest = escape_from cap (wi + length piece) cs in
    if_either (λ z. wi + length z < cap) (not (ltb (wi + 2) cap)) []
      (if is_short_escape c && ltb cap (wi + 3) then [] else piece ++ rest) (λ k. omega (arith, h))
      (λ room.
        if_either (λ z. wi + length z < cap) (is_short_escape c && ltb cap (wi + 3)) []
          (piece ++ rest) (λ k. omega (arith, h))
          (λ k.
            let more : wi + length piece < cap = ground (arith, room, escape_byte_short c) in
            omega
              (arith, length-append piece rest, escape_from-bound cap (wi + length piece) cs more)))

pub read-escaped : (src : Bytes) → read_string false (escaped src) ≡ some (kept src)
read-escaped [] = nothing_read
read-escaped (c ∷ cs) =
    read-escape_byte (escaped cs) c
    ∙ read-cons_if (is_kept c) c _ _ (read-escaped cs)
    ∙ ap some (sym (kept-cons c cs))

pub length-escaped : (src : Bytes) → length (escaped src) ≤ 2 * length src
length-escaped [] = omega arith
length-escaped (c ∷ cs) =
    omega
      (arith, length-append (escape_byte c) (escaped cs), escape_byte_short c, length-escaped cs)

-- What is put into a JSON string never ends it: a reader of the string gets back the bytes of a beginning
-- of the source, without the control characters that have no short escape. It has less than
-- `out_cap` bytes, and it is the whole source if the escaped source has at least three bytes less.
pub json_escape-read :
    (src : Bytes) (out_cap : ℕ)
    → 0 < out_cap
    → (length (json_escape src out_cap) < out_cap)
      × ((k : ℕ) × (k ≤ length src)
          × (read_string false (json_escape src out_cap) ≡ some (kept (take k src)))
          × (length (escaped src) + 2 < out_cap → json_escape src out_cap ≡ escaped src))
unfolding json_escape
json_escape-read src out_cap some_room =
    let (k, small, reads, whole) = cut out_cap 0 src in
    (
      omega (arith, escape_from-bound out_cap 0 src some_room),
      (k, small, reads, λ h. whole (omega (arith, h))),
    )
