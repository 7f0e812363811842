-- ===== src/LogRing/Sinks/Body.antt =====
-- main/log_ring.cpp: `build_body_json`. `ts` is the time in seconds; the position in the buffer is the
-- length of what has been written.
use mathlib.Core.List.{append_assoc, append-nil}
use zhac_net_core.Base.{
  ℕ, ◌+◌, ◌≤◌, ◌<◌, ◌≡◌, sym, ap, ◌∙◌, inl, inr, Bool-cases, Option-cases, false, ◌||◌, [], ◌∷◌,
  ◌++◌, Option, none, some, ltb, leb, ◌==◌, if◌then◌else◌, length, codes, decimal, arith,
  length-append,
}
use zhac_net_core.Json.Writer.{u_escape}
use zhac_net_core.LogRing.{Bytes}

-- What is written for one byte.
unfoldable pub escaped_byte : ℕ → Bytes
escaped_byte c =
    if c == b'"' || c == b'\\' then b'\\' ∷ c ∷ [] else if ltb c 0x20 then u_escape c else c ∷ []

-- `none` is the answer false.
unfoldable pub emit_escaped : ℕ → Bytes → Bytes → Option Bytes
unfolding escaped_byte
emit_escaped cap out [] = some out
emit_escaped cap out (c ∷ cs) =
    let rest = emit_escaped cap (out ++ escaped_byte c) cs in
    if leb cap (length out + 6) then none else rest

unfoldable pub body_head : ℕ → Bytes → Bytes
body_head ts src =
    codes "{\"ts\":" ++ (decimal ts ++ (codes ",\"src\":\"" ++ (src ++ codes "\",\"tag\":\"")))

-- `none` is the length 0.
unfoldable pub build_body_json : ℕ → ℕ → (src tag msg : Bytes) → Option Bytes
unfolding emit_escaped body_head
build_body_json cap ts src tag msg =
    let head = body_head ts src in
    if leb cap (length head) then none else elim (emit_escaped cap head tag) [
      | none ↦ none
      | some out ↦
          if leb cap (length out + 10)
          then none
          else elim (emit_escaped cap (out ++ codes "\",\"msg\":\"") msg) [
            | none ↦ none
            | some all ↦ if leb cap (length all + 3) then none else some (all ++ codes "\"}")
          ]
    ]

unfoldable pub escaped_text : Bytes → Bytes
unfolding escaped_byte
escaped_text [] = []
escaped_text (c ∷ cs) = escaped_byte c ++ escaped_text cs

-- The body as it is meant.
unfoldable pub body_text : ℕ → (src tag msg : Bytes) → Bytes
unfolding body_head escaped_text
body_text ts src tag msg =
    body_head ts src
    ++ (escaped_text tag ++ (codes "\",\"msg\":\"" ++ (escaped_text msg ++ codes "\"}")))

length-escaped_byte : (c : ℕ) → length (escaped_byte c) ≤ 6
unfolding escaped_byte
length-escaped_byte c = ground arith

-- What comes out is the text; it comes out if there is room for it and one longest escape more.
record IsEmitted (cap : ℕ) (out s : Bytes) (result : Option Bytes) : Type 0 where
  exact : (all : Bytes) → result ≡ some all → all ≡ out ++ escaped_text s
  inside : (all : Bytes) → result ≡ some all → length out < cap → length all < cap
  enough : length (out ++ escaped_text s) + 6 < cap → result ≡ some (out ++ escaped_text s)

emit-IsEmitted : (cap : ℕ) (out s : Bytes) → IsEmitted cap out s (emit_escaped cap out s)
unfolding emit_escaped escaped_text
emit-IsEmitted cap out [] = record {
  exact = λ all h. let same : out ≡ all = cc in sym same ∙ sym (append-nil out);
  inside = λ all h below. let same : out ≡ all = cc in rw (← same) below;
  enough = λ h. ap some (sym (append-nil out));
}
emit-IsEmitted cap out (c ∷ cs) =
    let ih = emit-IsEmitted cap (out ++ escaped_byte c) cs in
    elim (Bool-cases (leb cap (length out + 6))) [
      | inl full ↦ rw full (record {
        exact = λ all h. cc;
        inside = λ all h below. cc;
        enough = λ h. absurd (ground (arith, length-append {0} out (escaped_text (c ∷ cs))));
      })
      | inr more ↦ rw more (record {
        exact = λ all h. ih.exact all h ∙ append_assoc out (escaped_byte c) (escaped_text cs);
        inside = λ all h below.
            ih.inside all h
              (ground (arith, length-append {0} out (escaped_byte c), length-escaped_byte c));
        enough = λ h.
            let regroup = append_assoc out (escaped_byte c) (escaped_text cs) in
            ih.enough (omega (arith, ap length regroup, h)) ∙ ap some regroup;
      })
    ]

abbrev middle : Bytes
middle = codes "\",\"msg\":\""

abbrev closing : Bytes
closing = codes "\"}"

regroup :
    (head tag mid msg end : Bytes)
    → (((head ++ tag) ++ mid) ++ msg) ++ end ≡ head ++ (tag ++ (mid ++ (msg ++ end)))
regroup head tag mid msg end = simp append_assoc

length-regroup :
    (head tag msg : Bytes)
    → length (((head ++ tag) ++ middle) ++ msg) + 2
      ≡ length (head ++ (tag ++ (middle ++ (msg ++ closing))))
length-regroup head tag msg =
    sym (length-append {0} (((head ++ tag) ++ middle) ++ msg) closing)
    ∙ ap length (regroup head tag middle msg closing)

made_exact :
    (cap ts : ℕ) (src tag msg body : Bytes)
    → build_body_json cap ts src tag msg ≡ some body
    → (body ≡ body_text ts src tag msg) × (length body < cap)
unfolding build_body_json body_text
made_exact cap ts src tag msg body = elim (Bool-cases (leb cap (length (body_head ts src)))) [
  | inl full ↦ rw full (λ h. cc)
  | inr open1 ↦ elim (Option-cases (emit_escaped cap (body_head ts src) tag)) [
    | inl e ↦ rw (open1, e) (λ h. cc)
    | inr (out, e) ↦ elim (Bool-cases (leb cap (length out + 10))) [
      | inl full ↦ rw (open1, e, full) (λ h. cc)
      | inr open2 ↦ elim (Option-cases (emit_escaped cap (out ++ middle) msg)) [
        | inl e2 ↦ rw (open1, e, open2, e2) (λ h. cc)
        | inr (all, e2) ↦ elim (Bool-cases (leb cap (length all + 3))) [
          | inl full ↦ rw (open1, e, open2, e2, full) (λ h. cc)
          | inr open3 ↦
              rw (open1, e, open2, e2, open3)
                (λ h.
                  let same : all ++ closing ≡ body = cc in
                  let first = (emit-IsEmitted cap (body_head ts src) tag).exact out e in
                  let second = (emit-IsEmitted cap (out ++ middle) msg).exact all e2 in
                  (
                    sym same
                        ∙ ap (λ z. z ++ closing)
                            (second ∙ ap (λ z. (z ++ middle) ++ escaped_text msg) first)
                        ∙ regroup (body_head ts src) (escaped_text tag) middle (escaped_text msg)
                            closing,
                    rw (← same) (ground (arith, length-append {0} all closing)),
                  ))
        ]
      ]
    ]
  ]
]

made_if_room :
    (cap ts : ℕ) (src tag msg : Bytes)
    → length (body_text ts src tag msg) + 4 < cap
    → build_body_json cap ts src tag msg ≡ some (body_text ts src tag msg)
unfolding build_body_json body_text
made_if_room cap ts src tag msg h =
    let head = body_head ts src in
    let t = escaped_text tag in
    let m = escaped_text msg in
    let size = length-regroup head t m in
    let size1 = length-append {0} (((head ++ t) ++ middle)) m in
    let size2 = length-append {0} (head ++ t) middle in
    let size3 = length-append {0} head t in
    let first : emit_escaped cap head tag ≡ some (head ++ t) =
      (emit-IsEmitted cap head tag).enough (omega (arith, size, size1, size2)) in
    let second : emit_escaped cap ((head ++ t) ++ middle) msg
        ≡ some (((head ++ t) ++ middle) ++ m) =
      (emit-IsEmitted cap ((head ++ t) ++ middle) msg).enough (omega (arith, size)) in
    let fits1 : leb cap (length head) ≡ false =
      lt→leb _ _ (omega (arith, size, size1, size2, size3)) in
    let fits2 : leb cap (length (head ++ t) + 10) ≡ false =
      lt→leb _ _ (omega (arith, size, size1, size2)) in
    let fits3 : leb cap (length (((head ++ t) ++ middle) ++ m) + 3) ≡ false =
      lt→leb _ _ (omega (arith, size)) in
    rw (fits1, first, fits2, second, fits3) (ap some (regroup head t middle m closing))
  where
    lt→leb : (a b : ℕ) → b < a → leb a b ≡ false
    lt→leb a b h = ground arith

-- The body that `build_body_json` makes is the one meant, and its NUL is inside the buffer; one is made
-- whenever the buffer has five bytes to spare behind it.
pub build_body_json_lem :
    (cap ts : ℕ) (src tag msg : Bytes)
    → ((body : Bytes)
        → build_body_json cap ts src tag msg ≡ some body
        → (body ≡ body_text ts src tag msg) × (length body < cap))
      × (length (body_text ts src tag msg) + 4 < cap
          → build_body_json cap ts src tag msg ≡ some (body_text ts src tag msg))
build_body_json_lem cap ts src tag msg =
    (made_exact cap ts src tag msg, made_if_room cap ts src tag msg)
