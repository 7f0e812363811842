-- ===== src/Json/Writer/Formatted.antt =====
-- `fmt` of `JsonWriter` (main/json_buf.h), and several calls after one another.
use mathlib.Core.List.{append_assoc, append-nil}
use zhac_net_core.Base.{
  ℕ, suc, ◌+◌, ◌-◌, ◌≤◌, ◌<◌, ◌≡◌, refl, sym, ap, ◌∙◌, inl, inr, true, false, [], ◌∷◌, ◌++◌, leb,
  ◌==◌, if◌then◌else◌, length, set, take, arith, Bool-cases, length-append, length-set,
  take-set_end, take-set_same,
}
use zhac_net_core.Json.Utf8.{Bytes}
use zhac_net_core.Json.Writer.{JsonWriter, print_into, fmt, raw, ch, str}
use zhac_net_core.Json.Writer.Bounded.{
  IsValid, written, escaped, Appends, appends, str-Appends, fails_closed,
}

length-print_into :
    (buf : Bytes) (pos : ℕ) (text : Bytes) → length (print_into buf pos text) ≡ length buf
unfolding print_into
length-print_into buf pos [] = length-set buf pos 0
length-print_into buf pos (c ∷ cs) =
    length-print_into (set buf pos c) (suc pos) cs ∙ length-set buf pos c

take-print_into :
    (buf : Bytes) (pos : ℕ) (text : Bytes)
    → pos + length text ≤ length buf
    → take (pos + length text) (print_into buf pos text) ≡ take pos buf ++ text
unfolding print_into
take-print_into buf pos [] h =
    let e : pos + 0 ≡ pos = omega arith in
    rw e (take-set_same buf pos 0 ∙ sym (append-nil (take pos buf)))
take-print_into buf pos (c ∷ cs) h =
    let e : pos + suc (length cs) ≡ suc pos + length cs = omega arith in
    rw e (
      take-print_into (set buf pos c) (suc pos) cs (omega (arith, length-set buf pos c))
      ∙ ap (λ z. z ++ cs) (take-set_end buf pos c (omega arith))
      ∙ append_assoc (take pos buf) (c ∷ []) cs)

-- `fmt` keeps a valid writer valid; it stays ok exactly if the text fits with its NUL, and then the
-- text stands behind what was written before.
pub fmt-Appends :
    (w : JsonWriter) (text : Bytes)
    → IsValid w
    → w.ok ≡ true
    → Appends w text (length text + 1) (fmt w text)
unfolding fmt
fmt-Appends w text v good = elim (Bool-cases (leb (w.cap - w.pos) (length text))) [
  | inl full ↦
      simp (good, full)
        (record {
          valid = record { inside = omega (arith, kept_size, v.inside); bounded = v.bounded };
          same_cap = refl;
          still_ok = ((λ h. cc), (λ h. absurd (ground arith)));
          bytes = λ h. cc;
          advanced = λ h. cc;
        })
  | inr fits ↦
      simp (good, fits)
        (record {
          valid = record {
            inside = omega (arith, length-print_into w.buf w.pos text, v.inside);
            bounded = ground arith;
          };
          same_cap = refl;
          still_ok = ((λ h. ground arith), (λ h. refl));
          bytes = λ h. take-print_into w.buf w.pos text (ground (arith, v.inside));
          advanced = λ h. refl;
        })
]
  where
    cut : ℕ
    cut = w.cap - w.pos

    kept_size :
        w.cap ≤ length (if cut == 0 then w.buf else print_into w.buf w.pos (take (cut - 1) text))
    kept_size = elim (Bool-cases (cut == 0)) [
      | inl e ↦ rw e (v.inside)
      | inr e ↦ rw e (omega (arith, length-print_into w.buf w.pos (take (cut - 1) text), v.inside))
    ]

-- What a call that was to write `out` leaves of a writer that was ok.
pub record Writes (w : JsonWriter) (out : Bytes) (w' : JsonWriter) : Type 0 where
  pub valid : IsValid w'
  pub same_cap : w'.cap ≡ w.cap
  pub bytes : w'.ok ≡ true → written w' ≡ written w ++ out
  pub advanced : w'.ok ≡ true → w'.pos ≡ w.pos + length out
  pub enough : w.pos + length out < w.cap → w'.ok ≡ true

pub Appends-Writes :
    (w : JsonWriter) (out : Bytes) (room : ℕ) (w' : JsonWriter)
    → room ≤ length out + 1
    → Appends w out room w'
    → Writes w out w'
Appends-Writes w out room w' h a = record {
  valid = a.valid;
  same_cap = a.same_cap;
  bytes = a.bytes;
  advanced = a.advanced;
  enough = λ k. a.still_ok.1 (omega arith);
}

-- A call that does nothing to a writer that is not ok.
pub Writes-then :
    (w w1 w2 : JsonWriter) (xs ys : Bytes)
    → Writes w xs w1
    → (w1.ok ≡ true → Writes w1 ys w2)
    → (w1.ok ≡ false → w2 ≡ w1)
    → Writes w (xs ++ ys) w2
Writes-then w w1 w2 xs ys a next stuck = elim (Bool-cases w1.ok) [
  | inl fine ↦ both (next fine) fine
  | inr bad ↦ failed bad (stuck bad)
]
  where
    size : length (xs ++ ys) ≡ length xs + length ys
    size = length-append {0} xs ys

    both : Writes w1 ys w2 → w1.ok ≡ true → Writes w (xs ++ ys) w2
    both b fine = record {
      valid = b.valid;
      same_cap = b.same_cap ∙ a.same_cap;
      bytes = λ h. b.bytes h ∙ ap (λ z. z ++ ys) (a.bytes fine) ∙ append_assoc (written w) xs ys;
      advanced = λ h. omega (arith, b.advanced h, a.advanced fine, size);
      enough = λ h. b.enough (omega (arith, a.advanced fine, a.same_cap, size));
    }

    failed : w1.ok ≡ false → w2 ≡ w1 → Writes w (xs ++ ys) w2
    failed bad e =
        let full : w.pos + length (xs ++ ys) < w.cap → w2.ok ≡ true =
          λ h. let fine : w1.ok ≡ true = a.enough (omega (arith, size)) in cc in
        record {
          valid = rw e a.valid;
          same_cap = ap (λ (z : JsonWriter). z.cap) e ∙ a.same_cap;
          bytes = λ h. cc;
          advanced = λ h. cc;
          enough = full;
        }

-- No call writes nothing.
pub Writes-nothing : (w : JsonWriter) → IsValid w → w.ok ≡ true → Writes w [] w
Writes-nothing w v good = record {
  valid = v;
  same_cap = refl;
  bytes = λ h. sym (append-nil (written w));
  advanced = λ h. omega arith;
  enough = λ h. good;
}

-- The calls of the writer one by one.
module _ (w : JsonWriter) (v : IsValid w) (good : w.ok ≡ true) where
  pub fmt-Writes : (text : Bytes) → Writes w text (fmt w text)
  fmt-Writes text =
      Appends-Writes w text (length text + 1) (fmt w text) (omega arith) (fmt-Appends w text v good)

  pub raw-Writes : (text : Bytes) → Writes w text (raw w text)
  raw-Writes text =
      Appends-Writes w text (length text) (raw w text) (omega arith) ((appends w v good).0 text)

  pub ch-Writes : (c : ℕ) → Writes w (c ∷ []) (ch w c)
  ch-Writes c = Appends-Writes w (c ∷ []) 1 (ch w c) (omega arith) ((appends w v good).1 c)

  pub str-Writes : (s : Bytes) (max : ℕ) → Writes w (escaped max s max) (str w s max)
  str-Writes s max =
      Appends-Writes w (escaped max s max) (length (escaped max s max)) (str w s max) (omega arith)
        (str-Appends w s max v good)

module _ (w : JsonWriter) (bad : w.ok ≡ false) where
  pub raw_stuck : (text : Bytes) → raw w text ≡ w
  raw_stuck = (fails_closed w bad).0

  pub fmt_stuck : (text : Bytes) → fmt w text ≡ w
  fmt_stuck = (fails_closed w bad).2

  pub str_stuck : (s : Bytes) (max : ℕ) → str w s max ≡ w
  str_stuck = (fails_closed w bad).3

  pub ch_stuck : (c : ℕ) → ch w c ≡ w
  ch_stuck = (fails_closed w bad).1
