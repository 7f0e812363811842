-- ===== src/Json/Utf8/Copy.antt =====
-- `utf8_safe_copy` of main/json_buf.h.
use mathlib.Core.List.{append_assoc}
use zhac_net_core.Base.{
  ℕ, zero, suc, ◌+◌, ◌-◌, ◌≤◌, ◌<◌, ◌≡◌, refl, sym, ap, ◌∙◌, inl, inr, false, ◌||◌, [], ◌∷◌, ◌++◌,
  some, ltb, ◌==◌, length, take, drop, arith, Bool-cases, take-append-drop, length-append,
  length-take, take-append, drop-append, le→ltb, ==_ne,
}
use zhac_net_core.Json.Utf8.{Bytes, utf8_seq_len, copy_loop, utf8_safe_copy}
use zhac_net_core.Json.Utf8.Scalars.{IsScalar, encode, utf8_seq_len-encode, utf8_seq_len_sound}

-- A text: encodings of scalar values, one after the other.
pub data IsText : Bytes → Type 0 where
  empty : IsText []
  more : (cp : ℕ) (rest bs : Bytes) → IsScalar cp → IsText rest → bs ≡ encode cp ++ rest → IsText bs

-- What a copy into `room` bytes is of its source.
pub record IsCopy (room : ℕ) (src out : Bytes) : Type 0 where
  pub text : IsText out
  pub fits : length out ≤ room
  pub prefix : (rest : Bytes) × (src ≡ out ++ rest)

loop-IsCopy : (fuel room : ℕ) (src : Bytes) → IsCopy room src (copy_loop fuel room src)
unfolding copy_loop
loop-IsCopy zero room src = record { text = empty; fits = omega arith; prefix = (src, refl) }
loop-IsCopy (suc fuel) room src =
    let n = utf8_seq_len src 4 in
    elim (Bool-cases (length src == 0 || n == 0 || ltb room n)) [
      | inl stop ↦ rw stop (record { text = empty; fits = omega arith; prefix = (src, refl) })
      | inr goes ↦
          let c = loop-IsCopy fuel (room - n) (drop n src) in
          let (_, scalar, same) = utf8_seq_len_sound src 4 (ground arith) (ground arith) in
          let (rest, split) = c.prefix in
          let small : n ≤ room = ground arith in
          let size = length-append {0} (take n src) (copy_loop fuel (room - n) (drop n src)) in
          rw goes (record {
            text =
                more _ _ _ scalar c.text
                  (ap (λ z. z ++ copy_loop fuel (room - n) (drop n src)) same);
            fits = omega (arith, size, length-take {0} n src, c.fits, small);
            prefix = (
              rest,
              sym (take-append-drop n src)
                  ∙ ap (◌++◌ (take n src)) split
                  ∙ sym (append_assoc (take n src) _ rest),
            );
          })
    ]

pub encode-pos : (cp : ℕ) → 0 < length (encode cp)
unfolding encode
encode-pos cp = ground arith

pub encode-le : (cp : ℕ) → length (encode cp) ≤ 4
unfolding encode
encode-le cp = ground arith

loop_whole :
    (fuel room : ℕ) (src : Bytes)
    → length src ≤ fuel
    → length src ≤ room
    → IsText src
    → copy_loop fuel room src ≡ src
unfolding copy_loop
loop_whole zero room [] h k t = refl
loop_whole zero room (c ∷ src) h k t = absurd (omega arith)
loop_whole (suc fuel) room src h k empty = refl
loop_whole (suc fuel) room src h k (more cp rest bs scalar t e) =
    let taken = length (encode cp) in
    let size = length-append {0} (encode cp) rest in
    let sizes : length src ≡ taken + length rest = ap length e ∙ size in
    let some_byte = encode-pos cp in
    let test : ((length (encode cp ++ rest) == 0) || (taken == 0) || ltb room taken) ≡ false =
      rw
        (
          ==_ne (length (encode cp ++ rest)) 0 (omega (arith, size)),
          ==_ne taken 0 (omega arith),
          le→ltb room taken (omega arith),
        )
        refl in
    rw
      (
        e,
        utf8_seq_len-encode cp rest 4 scalar (encode-le cp),
        test,
        take-append (encode cp) rest,
        drop-append (encode cp) rest,
        loop_whole fuel (room - taken) rest (omega arith) (omega arith) t,
      )
      refl

-- What `utf8_safe_copy` leaves in a destination of `size` bytes is, with its NUL, no longer than that;
-- it is a text, a prefix of the source, and the whole source if that is a text and fits.
pub utf8_safe_copy_lem :
    (size : ℕ) (src : Bytes)
    → 0 < size
    → (out : Bytes) × (utf8_safe_copy size (some src) ≡ some out)
      × IsCopy (size - 1) src out
      × (IsText src → length src < size → out ≡ src)
unfolding utf8_safe_copy
utf8_safe_copy_lem zero src h = absurd (omega arith)
utf8_safe_copy_lem (suc n) src h =
    let pred : suc n - 1 ≡ n = omega arith in
    (
      copy_loop (length src) n src,
      refl,
      rw pred (loop-IsCopy (length src) n src),
      λ t small. loop_whole (length src) n src (omega arith) (omega arith) t,
    )
