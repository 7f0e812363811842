-- ===== src/Groups/Json.antt =====
-- `grp_to_json` of main/groups_store.cpp.
use mathlib.Core.List.{append-nil}
use zhac_net_core.Base.{
  ℕ, ◌+◌, ◌-◌, ◌≤◌, ◌<◌, ◌≡◌, refl, sym, ap, ◌∙◌, ◌⊎◌, inl, inr, Bool, true, false, List, [], ◌∷◌,
  ◌++◌, ltb, if◌then◌else◌, Bool-cases, length, get_or, set, take, arith, codes, decimal, hex_text,
  lt→ltb, take-set_same, get_or-set_self,
}
use zhac_net_core.Json.Utf8.{Bytes}
use zhac_net_core.Json.Writer.{JsonWriter, new, raw, ch, fmt, str, finish}
use zhac_net_core.Json.Writer.Bounded.{IsValid, written, escaped, fails_closed}
use zhac_net_core.Json.Writer.Formatted.{
  Writes, Writes-then, fmt-Writes, raw-Writes, ch-Writes, str-Writes, raw_stuck, fmt_stuck,
  str_stuck,
}
use zhac_net_core.Groups.Nvs.{GrpMember, GrpRecord, grp_max_members}

abbrev hex_digit_upper : ℕ → ℕ
hex_digit_upper d = if ltb d 10 then b'0' + d else b'A' + (d - 10)

-- What the formats of the three calls of `fmt` print.
unfoldable pub id_text : ℕ → Bytes
id_text id = codes "{\"id\":" ++ (decimal id ++ codes ",\"name\":\"")

unfoldable pub member_text : GrpMember → Bytes
member_text m =
    codes "{\"ieee\":\"0x"
    ++ (hex_text hex_digit_upper 16 m.ieee ++ (codes "\",\"ep\":" ++ (decimal m.ep ++ codes "}")))

abbrev comma : JsonWriter → Bool → JsonWriter
comma w first = if first then w else ch w b','

-- The loop over the members.
unfoldable pub emit_members : JsonWriter → Bool → List GrpMember → JsonWriter
emit_members w first [] = w
emit_members w first (m ∷ ms) = emit_members (fmt (comma w first) (member_text m)) false ms

abbrev member_limit : GrpRecord → ℕ
member_limit r = if ltb grp_max_members r.member_count then grp_max_members else r.member_count

abbrev json_of : JsonWriter → GrpRecord → JsonWriter
json_of w r =
    let named = str (fmt w (id_text r.id)) r.name 32 in
    raw (emit_members (raw named (codes "\",\"members\":[")) true (take (member_limit r) r.members))
      (codes "]}")

-- The length, and the buffer.
unfoldable pub grp_to_json : GrpRecord → Bytes → ℕ → ℕ × Bytes
grp_to_json r buf cap =
    let w = json_of (new buf cap) r in
    let len = finish w in (len, if ltb len cap then set w.buf len 0 else w.buf)

-- The text that is meant.
abbrev comma_text : Bool → Bytes
comma_text first = if first then [] else codes ","

unfoldable pub members_text : Bool → List GrpMember → Bytes
members_text first [] = []
members_text first (m ∷ ms) = (comma_text first ++ member_text m) ++ members_text false ms

unfoldable pub grp_text : GrpRecord → Bytes
grp_text r =
    (((id_text r.id ++ escaped 32 r.name 32) ++ codes "\",\"members\":[")
      ++ members_text true (take (member_limit r) r.members))
    ++ codes "]}"

comma_stuck : (w : JsonWriter) (first : Bool) → w.ok ≡ false → comma w first ≡ w
comma_stuck w true bad = refl
comma_stuck w false bad = (fails_closed w bad).1 b','

emit_members_stuck :
    (w : JsonWriter) (first : Bool) (ms : List GrpMember)
    → w.ok ≡ false
    → emit_members w first ms ≡ w
unfolding emit_members
emit_members_stuck w first [] bad = refl
emit_members_stuck w first (m ∷ ms) bad =
    ap (λ z. emit_members z false ms)
      (ap (λ z. fmt z (member_text m)) (comma_stuck w first bad) ∙ fmt_stuck w bad (member_text m))
    ∙ emit_members_stuck w false ms bad

member-Writes :
    (w : JsonWriter) (first : Bool) (m : GrpMember)
    → IsValid w
    → w.ok ≡ true
    → Writes w (comma_text first ++ member_text m) (fmt (comma w first) (member_text m))
member-Writes w true m v good = fmt-Writes w v good (member_text m)
member-Writes w false m v good =
    let a = ch-Writes w v good b',' in
    Writes-then w (ch w b',') _ (b',' ∷ []) (member_text m) a
      (λ fine. fmt-Writes (ch w b',') a.valid fine (member_text m))
      (λ bad. fmt_stuck (ch w b',') bad (member_text m))

emit_members-Writes :
    (w : JsonWriter) (first : Bool) (ms : List GrpMember)
    → IsValid w
    → w.ok ≡ true
    → Writes w (members_text first ms) (emit_members w first ms)
unfolding emit_members members_text
emit_members-Writes w first [] v good = record {
  valid = v;
  same_cap = refl;
  bytes = λ h. sym (append-nil (written w));
  advanced = λ h. omega arith;
  enough = λ h. good;
}
emit_members-Writes w first (m ∷ ms) v good =
    let a = member-Writes w first m v good in
    let w1 = fmt (comma w first) (member_text m) in
    Writes-then w w1 _ (comma_text first ++ member_text m) (members_text false ms) a
      (λ fine. emit_members-Writes w1 false ms a.valid fine)
      (λ bad. emit_members_stuck w1 false ms bad)

json_of-Writes :
    (w : JsonWriter) (r : GrpRecord) → IsValid w → w.ok ≡ true → Writes w (grp_text r) (json_of w r)
unfolding grp_text
json_of-Writes w r v good =
    let ms = take (member_limit r) r.members in
    let w1 = fmt w (id_text r.id) in
    let w2 = str w1 r.name 32 in
    let w3 = raw w2 (codes "\",\"members\":[") in
    let w4 = emit_members w3 true ms in
    let a1 = fmt-Writes w v good (id_text r.id) in
    let a2 : Writes w (id_text r.id ++ escaped 32 r.name 32) w2 =
      Writes-then w w1 w2 _ _ a1 (λ fine. str-Writes w1 a1.valid fine r.name 32)
        (λ bad. str_stuck w1 bad r.name 32) in
    let a3 : Writes w ((id_text r.id ++ escaped 32 r.name 32) ++ codes "\",\"members\":[") w3 =
      Writes-then w w2 w3 _ _ a2 (λ fine. raw-Writes w2 a2.valid fine _)
        (λ bad. raw_stuck w2 bad _) in
    let a4 : Writes w
        (((id_text r.id ++ escaped 32 r.name 32) ++ codes "\",\"members\":[")
          ++ members_text true ms)
        w4 =
      Writes-then w w3 w4 _ _ a3 (λ fine. emit_members-Writes w3 true ms a3.valid fine)
        (λ bad. emit_members_stuck w3 true ms bad) in
    Writes-then w w4 (raw w4 (codes "]}")) _ _ a4 (λ fine. raw-Writes w4 a4.valid fine _)
      (λ bad. raw_stuck w4 bad _)

-- The buffer with its NUL.
abbrev terminated : Bytes → ℕ → ℕ → Bytes
terminated buf len cap = if ltb len cap then set buf len 0 else buf

take-terminated : (buf : Bytes) (len cap : ℕ) → take len (terminated buf len cap) ≡ take len buf
take-terminated buf len cap = elim (Bool-cases (ltb len cap)) [
  | inl h ↦ rw h (take-set_same buf len 0)
  | inr h ↦ rw h refl
]

terminated_nul :
    (buf : Bytes) (len cap : ℕ)
    → cap ≤ length buf
    → len < cap
    → get_or (terminated buf len cap) len 1 ≡ 0
terminated_nul buf len cap h k = rw (lt→ltb len cap k) (get_or-set_self buf len 0 1 (omega arith))

-- `grp_to_json` returns the length 0, or writes the whole text of the group, with its first 16 members at
-- most; it writes the text if the buffer has a byte to spare behind it. A NUL follows wherever the
-- length is inside the buffer, which it never exceeds.
pub grp_to_json_lem :
    (r : GrpRecord) (buf : Bytes) (cap : ℕ)
    → cap ≤ length buf
    → let (len, buf') = grp_to_json r buf cap in
      (0 < len → take len buf' ≡ grp_text r)
      × (length (grp_text r) < cap → len ≡ length (grp_text r))
      × (len < cap → get_or buf' len 1 ≡ 0)
      × (len ≤ cap)
unfolding grp_to_json new finish
grp_to_json_lem r buf cap room = by_ok (Bool-cases w.ok)
  where
    zero-add : (n : ℕ) → 0 + n ≡ n
    zero-add n = omega arith

    w : JsonWriter
    w = json_of (new buf cap) r

    a : Writes (new buf cap) (grp_text r) w
    a = json_of-Writes (new buf cap) r (record { inside = room; bounded = omega arith }) refl

    inside : cap ≤ length w.buf
    inside = omega (arith, a.same_cap, a.valid.inside)

    by_ok :
        (w.ok ≡ true) ⊎ (w.ok ≡ false)
        → let len = finish w in
          let buf' = if ltb len cap then set w.buf len 0 else w.buf in
          (0 < len → take len buf' ≡ grp_text r)
          × (length (grp_text r) < cap → len ≡ length (grp_text r))
          × (len < cap → get_or buf' len 1 ≡ 0)
          × (len ≤ cap)
    by_ok (inl fine) =
        let size : finish w ≡ w.pos = ap (λ b. if b then w.pos else 0) fine in
        let whole : w.pos ≡ length (grp_text r) =
          a.advanced fine ∙ zero-add (length (grp_text r)) in
        (
          (λ h. take-terminated w.buf (finish w) cap ∙ ap (λ n. take n w.buf) size ∙ a.bytes fine),
          (λ h. size ∙ whole),
          (λ h. terminated_nul w.buf (finish w) cap inside h),
          omega (arith, size, a.valid.bounded, a.same_cap),
        )
    by_ok (inr bad) =
        let size : finish w ≡ 0 = ap (λ b. if b then w.pos else 0) bad in
        (
          (λ h. absurd (omega arith)),
          (λ h. let fine : w.ok ≡ true = a.enough (omega arith) in cc),
          (λ h. terminated_nul w.buf (finish w) cap inside h),
          omega (arith, size),
        )
