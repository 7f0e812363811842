-- ===== src/Json/Writer/Sanitized.antt =====
-- What `str` of main/json_buf.h emits, whatever its source holds.
use mathlib.Core.List.{append_assoc, append-nil}
use zhac_net_core.Base.{
  ℕ, ◌*◌, some, if_either, All, length-append, zero, suc, ◌-◌, ◌/◌, ◌%◌, ◌≤◌, ◌<◌, ◌≡◌, refl, sym,
  ap, ◌∙◌, inl, inr, ◌≢◌, true, ◌||◌, [], ◌∷◌, ◌++◌, ltb, ◌==◌, length, get_or, drop, arith,
  Bool-cases,
}
use zhac_net_core.Json.Utf8.{Bytes, utf8_seq_len}
use zhac_net_core.Json.Utf8.Scalars.{encode, utf8_seq_len_sound}
use zhac_net_core.Json.Utf8.Copy.{IsText, empty, more, encode-le}
use zhac_net_core.Json.Writer.{
  JsonWriter, str, str_round, u_escape, hex_digit, short_escape, is_short_escape,
}
use zhac_net_core.Json.Writer.Bounded.{IsValid, Appends, str-Appends, escaped}
use zhac_net_core.Json.Writer.Read.{plain, read_json, cleaned, read_json-escaped, cleaned-text}

IsText-ascii : (c : ℕ) (bs : Bytes) → c < 0x80 → IsText bs → IsText (c ∷ bs)
IsText-ascii c bs h t = more c bs (c ∷ bs) (inl (omega arith)) t (single c bs h)
  where
    single : (c : ℕ) (bs : Bytes) → c < 0x80 → c ∷ bs ≡ encode c ++ bs
    single c bs h = unfold encode in ground arith

IsText-append : {xs : Bytes} (ys : Bytes) → IsText xs → IsText ys → IsText (xs ++ ys)
IsText-append ys empty u = u
IsText-append ys (more cp rest bs scalar t e) u =
    more cp (rest ++ ys) (bs ++ ys) scalar (IsText-append ys t u)
      (ap (λ z. z ++ ys) e ∙ append_assoc (encode cp) rest ys)

hex_digit_small : (d : ℕ) → d < 16 → hex_digit d < 0x80
hex_digit_small d h = ground arith

six_ascii :
    (a b c d e f : ℕ)
    → a < 0x80
    → b < 0x80
    → c < 0x80
    → d < 0x80
    → e < 0x80
    → f < 0x80
    → IsText (a ∷ b ∷ c ∷ d ∷ e ∷ f ∷ [])
six_ascii a b c d e f ha hb hc hd he hf = IsText-ascii a _ ha (
    IsText-ascii b _ hb
      (IsText-ascii c _ hc (IsText-ascii d _ hd (IsText-ascii e _ he (IsText-ascii f _ hf empty)))))

u_escape-IsText : (c : ℕ) → IsText (u_escape c)
u_escape-IsText c =
    let hex : hex_digit (c / 16 % 16) < 0x80 = hex_digit_small (c / 16 % 16) (omega arith) in
    let low : hex_digit (c % 16) < 0x80 = hex_digit_small (c % 16) (omega arith) in
    six_ascii _ _ _ _ _ _ (omega arith) (omega arith) (omega arith) (omega arith) hex low

short_escape_small : (c : ℕ) → short_escape c < 0x80
short_escape_small c = ground arith

round-IsText : (s : Bytes) (left : ℕ) → 0 < length s → 0 < left → IsText (str_round s left).0
unfolding str_round
round-IsText s left some_byte some_left =
    let c = get_or s 0 0 in
    let n = utf8_seq_len s left in
    elim (Bool-cases (is_short_escape c)) [
      | inl short ↦ rw short (
          IsText-ascii 92 (short_escape c ∷ []) (omega arith)
            (IsText-ascii (short_escape c) [] (short_escape_small c) empty))
      | inr bare ↦ elim (Bool-cases (ltb c 0x20)) [
        | inl control ↦ rw (bare, control) (u_escape-IsText c)
        | inr shown ↦ elim (Bool-cases (ltb c 0x80)) [
          | inl ascii ↦ rw (bare, shown, ascii) (IsText-ascii c [] (ground arith) empty)
          | inr wide ↦ elim (Bool-cases (n == 0)) [
            | inl bad ↦
                rw (bare, shown, wide, bad)
                  (six_ascii _ _ _ _ _ _ (omega arith) (omega arith) (omega arith) (omega arith)
                    (omega arith) (omega arith))
            | inr good ↦
                let (_, scalar, same) = utf8_seq_len_sound s left (ground arith) some_byte in
                rw (bare, shown, wide, good) (more _ [] _ scalar empty (same ∙ sym (append-nil _)))
          ]
        ]
      ]
    ]

escaped-IsText : (fuel : ℕ) (s : Bytes) (left : ℕ) → IsText (escaped fuel s left)
unfolding escaped
escaped-IsText zero s left = empty
escaped-IsText (suc fuel) s left = elim (Bool-cases (left == 0 || get_or s 0 0 == 0)) [
  | inl stop ↦ rw stop empty
  | inr goes ↦
      let (out, used) = str_round s left in
      rw goes (
        IsText-append (escaped fuel (drop used s) (left - used))
          (round-IsText s left (some_byte s (ground arith)) (ground arith))
          (escaped-IsText fuel (drop used s) (left - used)))
]
  where
    some_byte : (s : Bytes) → get_or s 0 0 ≢ 0 → 0 < length s
    some_byte [] h = absurd (h refl)
    some_byte (c ∷ s) h = omega arith

length-round : (c : ℕ) (cs : Bytes) (left : ℕ) → length (str_round (c ∷ cs) left).0 ≤ 6
unfolding str_round
length-round c cs left =
    let s = c ∷ cs in
    let P : Bytes × ℕ → Type 0 = λ r. length r.0 ≤ 6 in
    if_either {A = Bytes × ℕ} P (is_short_escape c) _ _ (λ h. omega arith)
      (λ h.
        if_either {A = Bytes × ℕ} P (ltb c 0x20) _ _ (λ i. omega arith)
          (λ i.
            if_either {A = Bytes × ℕ} P (ltb c 0x80) _ _ (λ j. omega arith)
              (λ j.
                if_either {A = Bytes × ℕ} P (utf8_seq_len s left == 0) _ _ (λ k. omega arith)
                  (λ k.
                    let (_, scalar, same) =
                      utf8_seq_len_sound s left (ground (arith, k)) (omega arith) in
                    omega (arith, ap length same, encode-le _)))))

length-escaped : (fuel : ℕ) (s : Bytes) (left : ℕ) → length (escaped fuel s left) ≤ 6 * fuel
unfolding escaped
length-escaped zero s left = omega arith
length-escaped (suc fuel) [] left =
    if_either {A = Bytes} (λ z. length z ≤ 6 * suc fuel) (left == 0 || true) _ _ (λ h. omega arith)
      (λ h. absurd (ground (arith, h)))
length-escaped (suc fuel) (c ∷ cs) left =
    let (out, used) = str_round (c ∷ cs) left in
    let rest = escaped fuel (drop used (c ∷ cs)) (left - used) in
    if_either (λ z. length z ≤ 6 * suc fuel) (left == 0 || c == 0) [] (out ++ rest)
      (λ h. omega arith)
      (λ h. omega (
        arith,
        length-append out rest,
        length-round c cs left,
        length-escaped fuel (drop used (c ∷ cs)) (left - used),
      ))

-- `out` is what `str` is to append of the source: it is appended exactly if it fits; it is valid UTF-8, of
-- six bytes at most for each byte that may be read; and a reader of JSON gets the cleaned source back,
-- which is the source itself if that is valid UTF-8 without a NUL and may be read whole.
abbrev pub IsWritten : JsonWriter → Bytes → ℕ → Bytes → Type 0
IsWritten w s max out =
    Appends w out (length out) (str w s max)
    × IsText out
    × (length out ≤ 6 * max)
    × (read_json plain out ≡ some (cleaned max s max))
    × (IsText s → All (λ b. b ≢ 0) s → length s ≤ max → cleaned max s max ≡ s)

-- Whatever bytes the source holds, `str` appends to a valid writer that is ok a piece of valid UTF-8, or
-- fails, which it does exactly if the piece does not fit; six bytes for each byte that may be read are
-- enough. A reader of JSON gets from it the source, up to its NUL and no further than may be read, with
-- U+FFFD for every byte that begins no valid sequence: the source itself, if that is valid UTF-8.
pub str-IsText :
    (w : JsonWriter) (s : Bytes) (max : ℕ)
    → IsValid w
    → w.ok ≡ true
    → (out : Bytes) × IsWritten w s max out
str-IsText w s max v good = (
  escaped max s max,
  (
    str-Appends w s max v good,
    escaped-IsText max s max,
    length-escaped max s max,
    read_json-escaped max s max,
    λ t h room. cleaned-text max s max t h room room,
  ),
)
