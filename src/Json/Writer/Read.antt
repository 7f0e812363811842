-- ===== src/Json/Writer/Read.antt =====
-- What a reader of JSON makes of the strings that `str` of main/json_buf.h writes.
use mathlib.Core.Path.{subst}
use zhac_net_core.Base.{
  ℕ, zero, suc, ◌+◌, ◌-◌, ◌*◌, ◌/◌, ◌%◌, ◌≤◌, ◌<◌, ◌≡◌, ◌≢◌, refl, sym, ap, ◌∙◌, inl, inr, true,
  false, ◌&&◌, ◌||◌, [], ◌∷◌, ◌++◌, Option, none, some, ltb, leb, ◌==◌, ==_iff, ==_ne,
  if◌then◌else◌, if_either, length, get_or, take, drop, All, arith, Bool-cases, length-append,
  take-append, drop-append,
}
use zhac_net_core.Json.Utf8.{Bytes, utf8_seq_len}
use zhac_net_core.Json.Utf8.Scalars.{encode, utf8_seq_len-encode, utf8_seq_len_sound}
use zhac_net_core.Json.Utf8.Copy.{IsText, empty, more, encode-pos}
use zhac_net_core.Json.Writer.{hex_digit, u_escape, is_short_escape, short_escape, str_round}
use zhac_net_core.Json.Writer.Bounded.{escaped}

-- Inside the string, behind a backslash, or with so many digits to come behind the next one.
pub data Mode : Type 0 where
  plain escaping : Mode
  digits : (more_to_come : ℕ) → (value : ℕ) → Mode

abbrev pub unhex : ℕ → Option ℕ
unhex d =
    if leb b'0' d && leb d b'9'
    then some (d - b'0')
    else if leb b'a' d && leb d b'f'
    then some (d - (b'a' - 10))
    else if leb b'A' d && leb d b'F'
    then some (d - (b'A' - 10))
    else none

-- The short escapes of RFC 8259, section 7.
abbrev pub meant : ℕ → Option ℕ
meant d =
    if d == b'"'
    then some b'"'
    else if d == b'\\'
    then some b'\\'
    else if d == b'n'
    then some b'\n'
    else if d == b'r'
    then some b'\r'
    else if d == b't'
    then some b'\t'
    else if d == b'/'
    then some b'/'
    else if d == b'b'
    then some 8
    else if d == b'f'
    then some 12
    else none

abbrev pub front : Bytes → Option Bytes → Option Bytes
front xs none = none
front xs (some ys) = some (xs ++ ys)

-- The bytes that the inside of a string stands for: `none` if it ends behind a backslash or among digits,
-- or has a byte below 32, an unescaped quote or an escape that is none of the above or `\u`.
unfoldable pub read_json : Mode → Bytes → Option Bytes
read_json plain [] = some []
read_json escaping [] = none
read_json (digits k value) [] = none
read_json plain (c ∷ cs) =
    let behind = read_json escaping cs in
    let rest = read_json plain cs in
    if c == b'\\' then behind else if c == b'"' || ltb c 0x20 then none else front (c ∷ []) rest
read_json escaping (c ∷ cs) =
    let behind = read_json (digits 3 0) cs in
    let rest = read_json plain cs in
    if c == b'u' then behind else elim (meant c) [ none ↦ none | some d ↦ front (d ∷ []) rest ]
read_json (digits zero value) (c ∷ cs) =
    let rest = read_json plain cs in
    elim (unhex c) [ none ↦ none | some d ↦ front (encode (value * 16 + d)) rest ]
read_json (digits (suc k) value) (c ∷ cs) = elim (unhex c) [
  | none ↦ none
  | some d ↦ read_json (digits k (value * 16 + d)) cs
]

-- In front of whatever is read, `out` is read as `src`.
abbrev IsReadAs : (out src : Bytes) → Type 0
IsReadAs out src =
    (ys zs : Bytes) → read_json plain ys ≡ some zs → read_json plain (out ++ ys) ≡ some (src ++ zs)

abbrev IsShort : ℕ → Type 0
IsShort c = IsReadAs (b'\\' ∷ short_escape c ∷ []) (c ∷ [])

IsShort-IsReadAs : (c : ℕ) → is_short_escape c ≡ true → IsShort c
unfolding read_json
IsShort-IsReadAs c h = elim (Bool-cases (c == b'"')) [
  | inl e ↦ at b'"' e (λ ys zs r. ap (front (b'"' ∷ [])) r)
  | inr a ↦ elim (Bool-cases (c == b'\\')) [
    | inl e ↦ at b'\\' e (λ ys zs r. ap (front (b'\\' ∷ [])) r)
    | inr b ↦ elim (Bool-cases (c == b'\n')) [
      | inl e ↦ at b'\n' e (λ ys zs r. ap (front (b'\n' ∷ [])) r)
      | inr d ↦ elim (Bool-cases (c == b'\r')) [
        | inl e ↦ at b'\r' e (λ ys zs r. ap (front (b'\r' ∷ [])) r)
        | inr f ↦ elim (Bool-cases (c == b'\t')) [
          | inl e ↦ at b'\t' e (λ ys zs r. ap (front (b'\t' ∷ [])) r)
          | inr g ↦ absurd (ground (arith, h, a, b, d, f, g))
        ]
      ]
    ]
  ]
]
  where
    at : (k : ℕ) → (c == k) ≡ true → IsShort k → IsShort c
    at k e h = subst IsShort (sym ((==_iff c k).0 e)) h

unhex-hex_digit : (d : ℕ) → d < 16 → unhex (hex_digit d) ≡ some d
unhex-hex_digit d h = elim (Bool-cases (ltb d 10)) [
  | inl low ↦
      let small : d < 10 = ground arith in
      let back : b'0' + d - b'0' ≡ d = omega arith in
      let inside : (leb b'0' (b'0' + d) && leb (b'0' + d) b'9') ≡ true = ground (arith, small) in
      rw low (rw inside (ap some back))
  | inr high ↦
      let large : 10 ≤ d = ground arith in
      let back : b'a' + (d - 10) - (b'a' - 10) ≡ d = omega arith in
      let outside : (leb b'0' (b'a' + (d - 10)) && leb (b'a' + (d - 10)) b'9') ≡ false =
        ground (arith, large) in
      let inside : (leb b'a' (b'a' + (d - 10)) && leb (b'a' + (d - 10)) b'f') ≡ true =
        ground (arith, large, h) in
      rw high (rw (outside, inside) (ap some back))
]

encode-ascii : (c : ℕ) → c < 0x80 → encode c ≡ c ∷ []
unfolding encode
encode-ascii c h = ground arith

control-IsReadAs : (c : ℕ) → c < 0x20 → IsReadAs (u_escape c) (c ∷ [])
unfolding read_json
control-IsReadAs c h ys zs r =
    let same : ((0 * 16 + 0) * 16 + c / 16 % 16) * 16 + c % 16 ≡ c = omega (arith, h) in
    let one : encode (((0 * 16 + 0) * 16 + c / 16 % 16) * 16 + c % 16) ≡ c ∷ [] =
      ap encode same ∙ encode-ascii c (omega (arith, h)) in
    rw (unhex-hex_digit (c / 16 % 16) (omega arith), unhex-hex_digit (c % 16) (omega arith))
      ((λ i. front (one i) (read_json plain ys)) ∙ ap (front (c ∷ [])) r)

-- A byte that is neither escaped nor a control character.
byte-IsReadAs : (c : ℕ) → is_short_escape c ≡ false → 0x20 ≤ c → IsReadAs (c ∷ []) (c ∷ [])
unfolding read_json
byte-IsReadAs c h low ys zs r =
    let no_slash : (c == b'\\') ≡ false = ground (arith, h) in
    let no_end : (c == b'"' || ltb c 0x20) ≡ false = ground (arith, h, low) in
    rw (no_slash, no_end) (ap (front (c ∷ [])) r)

wide-IsReadAs : (bs : Bytes) → All (λ b. 0x80 ≤ b) bs → IsReadAs bs bs
wide-IsReadAs [] h ys zs r = r
wide-IsReadAs (b ∷ bs) (high, h) ys zs r =
    byte-IsReadAs b (ground (arith, high)) (omega (arith, high)) (bs ++ ys) (bs ++ zs)
      (wide-IsReadAs bs h ys zs r)

wide_encode : (cp : ℕ) → 0x80 ≤ get_or (encode cp) 0 0 → All (λ b. 0x80 ≤ b) (encode cp)
unfolding encode
wide_encode cp =
    let P : Bytes → Type 0 = λ bs. 0x80 ≤ get_or bs 0 0 → All (λ b. 0x80 ≤ b) bs in
    if_either P (ltb cp 0x80) _ _ (λ h k. (k, tt))
      (λ h.
        if_either P (ltb cp 0x800) _ _ (λ i k. (k, (omega arith, tt)))
          (λ i.
            if_either P (ltb cp 0x10000) _ _ (λ j k. (k, (omega arith, (omega arith, tt))))
              (λ j k. (k, (omega arith, (omega arith, (omega arith, tt)))))))

-- What the next bytes of the source stand for: a valid sequence is itself, and a byte that begins none
-- is U+FFFD.
abbrev unit_len : Bytes → ℕ → ℕ
unit_len s left = if utf8_seq_len s left == 0 then 1 else utf8_seq_len s left

abbrev unit_text : Bytes → ℕ → Bytes
unit_text s left = if utf8_seq_len s left == 0 then encode 0xFFFD else take (utf8_seq_len s left) s

-- The source up to its NUL, `left` bytes of it at most.
unfoldable pub cleaned : ℕ → Bytes → ℕ → Bytes
cleaned zero s left = []
cleaned (suc fuel) s left =
    let rest = cleaned fuel (drop (unit_len s left) s) (left - unit_len s left) in
    if left == 0 || get_or s 0 0 == 0 then [] else unit_text s left ++ rest

abbrev IsRound : Bytes → ℕ → Bytes × ℕ → Type 0
IsRound s left r = IsReadAs r.0 (unit_text s left) × (r.1 ≡ unit_len s left)

ascii_len : (c : ℕ) (cs : Bytes) (left : ℕ) → c < 0x80 → 0 < left → utf8_seq_len (c ∷ cs) left ≡ 1
unfolding utf8_seq_len
ascii_len c cs left h some_left = ground arith

ascii-IsRound :
    (c : ℕ) (cs : Bytes) (left : ℕ) (out : Bytes)
    → c < 0x80
    → 0 < left
    → IsReadAs out (c ∷ [])
    → IsRound (c ∷ cs) left (out, 1)
ascii-IsRound c cs left out h some_left r = rw (ascii_len c cs left h some_left) (r, refl)

bad-IsReadAs : IsReadAs (b'\\' ∷ b'u' ∷ b'f' ∷ b'f' ∷ b'f' ∷ b'd' ∷ []) (encode 0xFFFD)
unfolding read_json
bad-IsReadAs ys zs r = ap (front (encode 0xFFFD)) r

take-first : (n c : ℕ) (cs : Bytes) → 0 < n → get_or (take n (c ∷ cs)) 0 0 ≡ c
take-first zero c cs h = absurd (omega arith)
take-first (suc n) c cs h = refl

run-IsReadAs :
    (c : ℕ) (cs : Bytes) (left : ℕ)
    → 0x80 ≤ c
    → 0 < utf8_seq_len (c ∷ cs) left
    → IsReadAs
        (take (utf8_seq_len (c ∷ cs) left) (c ∷ cs))
        (take (utf8_seq_len (c ∷ cs) left) (c ∷ cs))
run-IsReadAs c cs left high pos =
    let n = utf8_seq_len (c ∷ cs) left in
    let (_, scalar, same) = utf8_seq_len_sound (c ∷ cs) left pos (omega arith) in
    let lead : 0x80 ≤ get_or (encode _) 0 0 =
      subst (λ b. 0x80 ≤ b) (sym (take-first n c cs pos) ∙ ap (λ bs. get_or bs 0 0) same) high in
    wide-IsReadAs _ (subst (All (λ b. 0x80 ≤ b)) (sym same) (wide_encode _ lead))

IsRound-IsRound :
    (c : ℕ) (cs : Bytes) (left : ℕ) → 0 < left → IsRound (c ∷ cs) left (str_round (c ∷ cs) left)
unfolding str_round
IsRound-IsRound c cs left some_left =
    if_either {A = Bytes × ℕ} (IsRound (c ∷ cs) left) (is_short_escape c) _ _
      (λ h.
        ascii-IsRound c cs left (b'\\' ∷ short_escape c ∷ []) (ground (arith, h)) some_left
          (IsShort-IsReadAs c h))
      (λ h.
        if_either {A = Bytes × ℕ} (IsRound (c ∷ cs) left) (ltb c 0x20) _ _
          (λ i.
            ascii-IsRound c cs left (u_escape c) (ground (arith, i)) some_left
              (control-IsReadAs c (ground (arith, i))))
          (λ i.
            if_either {A = Bytes × ℕ} (IsRound (c ∷ cs) left) (ltb c 0x80) _ _
              (λ j.
                ascii-IsRound c cs left (c ∷ []) (ground (arith, j)) some_left
                  (byte-IsReadAs c h (ground (arith, i))))
              (λ j. elim (Bool-cases (utf8_seq_len (c ∷ cs) left == 0)) [
                | inl bad ↦ rw bad (bad-IsReadAs, refl)
                | inr good ↦
                    rw good
                      (run-IsReadAs c cs left (ground (arith, j)) (ground (arith, good)), refl)
              ])))

-- Whatever the source holds, a reader gets it back with every byte that begins no valid sequence replaced.
pub read_json-escaped :
    (fuel : ℕ) (s : Bytes) (left : ℕ)
    → read_json plain (escaped fuel s left) ≡ some (cleaned fuel s left)
unfolding escaped cleaned read_json
read_json-escaped zero s left = refl
read_json-escaped (suc fuel) [] left = elim (Bool-cases (left == 0 || true)) [
  | inl stop ↦ rw stop refl
  | inr goes ↦ absurd (ground (arith, goes))
]
read_json-escaped (suc fuel) (c ∷ cs) left = elim (Bool-cases (left == 0 || c == 0)) [
  | inl stop ↦ rw stop refl
  | inr goes ↦
      let (reads, used) = IsRound-IsRound c cs left (ground (arith, goes)) in
      let rest : read_json plain (
            escaped fuel (drop (str_round (c ∷ cs) left).1 (c ∷ cs))
              (left - (str_round (c ∷ cs) left).1))
          ≡ some (
              cleaned fuel (drop (unit_len (c ∷ cs) left) (c ∷ cs))
                (left - unit_len (c ∷ cs) left)) =
        ap (λ n. read_json plain (escaped fuel (drop n (c ∷ cs)) (left - n))) used
        ∙ read_json-escaped fuel _ _ in
      rw goes (reads _ _ rest)
]

encode-nonzero :
    (cp : ℕ) (rest : Bytes) → All (λ b. b ≢ 0) (encode cp ++ rest) → All (λ b. b ≢ 0) rest
encode-nonzero cp rest = later (encode cp)
  where
    later : (xs : Bytes) → All (λ b. b ≢ 0) (xs ++ rest) → All (λ b. b ≢ 0) rest
    later [] h = h
    later (x ∷ xs) h = later xs h.1

first-nonzero : (s : Bytes) → 0 < length s → All (λ b. b ≢ 0) s → (get_or s 0 0 == 0) ≡ false
first-nonzero [] some_byte h = absurd (omega arith)
first-nonzero (c ∷ cs) some_byte h = ==_ne c 0 h.0

-- A text is its own cleaned source.
pub cleaned-text :
    (fuel : ℕ) (s : Bytes) (left : ℕ)
    → IsText s
    → All (λ b. b ≢ 0) s
    → length s ≤ fuel
    → length s ≤ left
    → cleaned fuel s left ≡ s
unfolding cleaned
cleaned-text zero s left t h fits room = at s fits
  where
    at : (s : Bytes) → length s ≤ 0 → [] ≡ s
    at [] e = refl
    at (c ∷ cs) e = absurd (omega arith)
cleaned-text (suc fuel) s left empty h fits room = elim (Bool-cases (left == 0 || true)) [
  | inl stop ↦ rw stop refl
  | inr goes ↦ absurd (ground (arith, goes))
]
cleaned-text (suc fuel) s left (more cp rest bs scalar t e) h fits room = rw e (
    let size = length-append (encode cp) rest in
    let total : length s ≡ length (encode cp) + length rest = ap length e ∙ size in
    let n : utf8_seq_len (encode cp ++ rest) left ≡ length (encode cp) =
      utf8_seq_len-encode cp rest left scalar (omega (arith, total, room)) in
    let pos = encode-pos cp in
    let whole : All (λ b. b ≢ 0) (encode cp ++ rest) = subst (All (λ b. b ≢ 0)) e h in
    let some_left : (left == 0) ≡ false = ==_ne left 0 (λ z. omega (arith, z, total, room, pos)) in
    let first = first-nonzero (encode cp ++ rest) (omega (arith, size, pos)) whole in
    let go : (length (encode cp) == 0) ≡ false = ==_ne _ 0 (λ z. omega (arith, z, pos)) in
    rw (some_left, first, n, go)
      (ap
          (λ z.
            z
            ++ cleaned fuel (drop (length (encode cp)) (encode cp ++ rest))
                (left - length (encode cp)))
          (take-append (encode cp) rest)
        ∙ ap (λ z. encode cp ++ cleaned fuel z (left - length (encode cp)))
            (drop-append (encode cp) rest)
        ∙ ap (λ z. encode cp ++ z)
            (cleaned-text fuel rest (left - length (encode cp)) t (encode-nonzero cp rest whole)
              (omega (arith, fits, total, pos)) (omega (arith, room, total, pos)))))
