-- ===== src/Json/Writer/Bounded.antt =====
-- `JsonWriter` of main/json_buf.h: what has been written, and where.
use mathlib.Core.List.{append_assoc, append-nil}
use zhac_net_core.Base.{
  ℕ, zero, suc, ◌↔◌, ◌||◌, ◌+◌, ◌-◌, ◌≤◌, ◌<◌, ◌≡◌, refl, sym, ap, ◌∙◌, inl, inr, true, false, [],
  ◌∷◌, ◌++◌, leb, ◌==◌, if◌then◌else◌, length, get_or, take, drop, arith, Bool-cases, length-append,
  length-set, take-set_end,
}
use zhac_net_core.Json.Utf8.{Bytes}
use zhac_net_core.Json.Writer.{
  JsonWriter, put, put_all, raw, ch, fmt, str_round, str_loop, str, finish,
}

-- The writer stays inside its buffer.
pub record IsValid (w : JsonWriter) : Type 0 where
  pub inside : w.cap ≤ length w.buf
  pub bounded : w.pos ≤ w.cap

-- The bytes written so far.
abbrev pub written : JsonWriter → Bytes
written w = take w.pos w.buf

-- `w'` is `w` after a call that was to append `out`, and needed `room` bytes for it: it is valid, it is
-- still ok exactly if there was that room, and then the bytes are there.
pub record Appends (w : JsonWriter) (out : Bytes) (room : ℕ) (w' : JsonWriter) : Type 0 where
  pub valid : IsValid w'
  pub same_cap : w'.cap ≡ w.cap
  pub still_ok : (w'.ok ≡ true) ↔ (w.pos + room ≤ w.cap)
  pub bytes : w'.ok ≡ true → written w' ≡ written w ++ out
  pub advanced : w'.ok ≡ true → w'.pos ≡ w.pos + length out

put-Appends : (w : JsonWriter) (c : ℕ) → IsValid w → w.ok ≡ true → Appends w (c ∷ []) 1 (put w c)
unfolding put
put-Appends w c v good = elim (Bool-cases (leb w.cap w.pos)) [
  | inl full ↦ rw full (record {
    valid = record { inside = v.inside; bounded = v.bounded };
    same_cap = refl;
    still_ok = ((λ h. cc), (λ h. absurd (ground arith)));
    bytes = λ h. cc;
    advanced = λ h. cc;
  })
  | inr more ↦
      let below : w.pos < w.cap = ground arith in
      rw more (record {
        valid = record {
          inside = omega (arith, length-set w.buf w.pos c, v.inside);
          bounded = omega arith;
        };
        same_cap = refl;
        still_ok = ((λ h. omega arith), (λ h. good));
        bytes = λ h. take-set_end w.buf w.pos c (omega (arith, v.inside));
        advanced = λ h. omega arith;
      })
]

-- Two calls after one another, the second made only if the first went well.
Appends-then :
    (w w1 w2 : JsonWriter) (xs ys : Bytes)
    → w1.ok ≡ true
    → Appends w xs (length xs) w1
    → Appends w1 ys (length ys) w2
    → Appends w (xs ++ ys) (length xs + length ys) w2
Appends-then w w1 w2 xs ys good a b = record {
  valid = b.valid;
  same_cap = b.same_cap ∙ a.same_cap;
  still_ok = (
    (λ h. omega (arith, b.still_ok.0 h, a.advanced good, a.same_cap)),
    (λ h. b.still_ok.1 (omega (arith, a.advanced good, a.same_cap))),
  );
  bytes = λ h. b.bytes h ∙ ap (λ z. z ++ ys) (a.bytes good) ∙ append_assoc (written w) xs ys;
  advanced = λ h. omega (arith, b.advanced h, a.advanced good, length-append {0} xs ys);
}

-- A call that failed fails whatever was to come after it.
Appends-fails :
    (w w1 : JsonWriter) (xs out : Bytes) (room : ℕ)
    → w1.ok ≡ false
    → length xs ≤ room
    → Appends w xs (length xs) w1
    → Appends w out room w1
Appends-fails w w1 xs out room bad more a = record {
  valid = a.valid;
  same_cap = a.same_cap;
  still_ok = ((λ h. cc), (λ h. let good : w1.ok ≡ true = a.still_ok.1 (omega arith) in cc));
  bytes = λ h. cc;
  advanced = λ h. cc;
}

-- A call, and the rest only if it went well.
Appends-guarded :
    (w w1 w2 : JsonWriter) (xs ys : Bytes)
    → Appends w xs (length xs) w1
    → (w1.ok ≡ true → Appends w1 ys (length ys) w2)
    → Appends w (xs ++ ys) (length (xs ++ ys)) (if w1.ok then w2 else w1)
Appends-guarded w w1 w2 xs ys a b =
    let size = length-append {0} xs ys in
    rw size (elim (Bool-cases w1.ok) [
      | inl fine ↦ simp fine (Appends-then w w1 w2 xs ys fine a (b fine))
      | inr bad ↦
          simp bad (Appends-fails w w1 xs (xs ++ ys) (length xs + length ys) bad (omega arith) a)
    ])

nothing-Appends : (w : JsonWriter) → IsValid w → w.ok ≡ true → Appends w [] 0 w
nothing-Appends w v good = record {
  valid = v;
  same_cap = refl;
  still_ok = ((λ h. omega (arith, v.bounded)), (λ h. good));
  bytes = λ h. sym (append-nil (written w));
  advanced = λ h. omega arith;
}

put_all-Appends :
    (w : JsonWriter) (s : Bytes) → IsValid w → w.ok ≡ true → Appends w s (length s) (put_all w s)
unfolding put_all
put_all-Appends w [] v good = nothing-Appends w v good
put_all-Appends w (c ∷ cs) v good =
    let a = put-Appends w c v good in
    Appends-guarded w (put w c) (put_all (put w c) cs) (c ∷ []) cs a
      (λ fine. put_all-Appends (put w c) cs a.valid fine)

-- What `str` is to append: the rounds of its loop, one after the other.
unfoldable pub escaped : ℕ → Bytes → ℕ → Bytes
escaped zero s left = []
escaped (suc fuel) s left =
    let (out, used) = str_round s left in
    let rest = escaped fuel (drop used s) (left - used) in
    if left == 0 || get_or s 0 0 == 0 then [] else out ++ rest

str_loop-Appends :
    (fuel : ℕ) (w : JsonWriter) (s : Bytes) (left : ℕ)
    → IsValid w
    → w.ok ≡ true
    → Appends w (escaped fuel s left) (length (escaped fuel s left)) (str_loop fuel w s left)
unfolding str_loop escaped
str_loop-Appends zero w s left v good = nothing-Appends w v good
str_loop-Appends (suc fuel) w s left v good = elim (Bool-cases (left == 0 || get_or s 0 0 == 0)) [
  | inl stop ↦ rw stop (nothing-Appends w v good)
  | inr goes ↦
      let (out, used) = str_round s left in
      let a = put_all-Appends w out v good in
      rw goes (
        Appends-guarded w (put_all w out) _ out _ a
          (λ fine. str_loop-Appends fuel (put_all w out) (drop used s) (left - used) a.valid fine))
]

pub str-Appends :
    (w : JsonWriter) (s : Bytes) (max : ℕ)
    → IsValid w
    → w.ok ≡ true
    → Appends w (escaped max s max) (length (escaped max s max)) (str w s max)
unfolding str
str-Appends w s max v good = simp good (str_loop-Appends max w s max v good)

-- `raw` and `ch` keep a valid writer valid and inside its buffer; each of them stays ok exactly if all of
-- its bytes fit, and then exactly those stand behind what was written before.
pub appends :
    (w : JsonWriter)
    → IsValid w
    → w.ok ≡ true
    → ((s : Bytes) → Appends w s (length s) (raw w s)) × ((c : ℕ) → Appends w (c ∷ []) 1 (ch w c))
unfolding raw ch
appends w v good =
    ((λ s. simp good (put_all-Appends w s v good)), (λ c. simp good (put-Appends w c v good)))

-- Once a call has failed, every later one leaves the writer alone, and the final length is 0.
pub fails_closed :
    (w : JsonWriter)
    → w.ok ≡ false
    → ((s : Bytes) → raw w s ≡ w)
      × ((c : ℕ) → ch w c ≡ w)
      × ((text : Bytes) → fmt w text ≡ w)
      × ((s : Bytes) (max : ℕ) → str w s max ≡ w)
      × (finish w ≡ 0)
unfolding raw ch str fmt finish
fails_closed w bad = (
  (λ s. simp bad refl),
  (λ c. simp bad refl),
  (λ text. simp bad refl),
  (λ s max. simp bad refl),
  simp bad refl,
)
