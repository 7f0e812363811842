-- ===== src/Dgm/Json.antt =====
-- `dgm_all_json` of main/dgm_store.cpp: the table by group. The used entries and the used groups of an
-- entry are lists.
pub mod Listed
use zhac_net_core.Base.{
  ℕ, zero, suc, ◌+◌, ◌-◌, ◌≤◌, ◌<◌, ◌≡◌, refl, sym, ap, ◌∙◌, ◌⊎◌, inl, inr, Bool, true, false, ◌&&◌,
  ◌||◌, not, List, [], ◌∷◌, ◌++◌, ltb, leb, ◌==◌, ==_iff, ==_self, if◌then◌else◌, Bool-cases,
  length, length-append, get_or, take, drop, arith, codes, decimal, hex_text,
}
use zhac_net_core.Json.Utf8.{Bytes}
use zhac_net_core.Json.Writer.{JsonWriter, new, raw, ch, fmt, finish, hex_digit}
use zhac_net_core.Json.Writer.Bounded.{IsValid, written}
use zhac_net_core.Json.Writer.Formatted.{
  Writes, Writes-then, Writes-nothing, fmt-Writes, raw-Writes, ch-Writes, raw_stuck, fmt_stuck,
  ch_stuck,
}
use zhac_net_core.Dgm.{DgmEntry, DgmTable}
use zhac_net_core.Dgm.Table.{contains}

abbrev pub dgm_max_groups : ℕ
dgm_max_groups = 128

-- `while (pos < ng && gids[pos] < g) pos++`
unfoldable pub position : List ℕ → ℕ → ℕ
position [] g = 0
position (x ∷ xs) g = let later = position xs g in if ltb x g then suc later else 0

unfoldable pub insert_gid : List ℕ → ℕ → List ℕ
unfolding position
insert_gid gids g =
    let pos = position gids g in
    if ltb pos (length gids) && get_or gids pos 0 == g
    then gids
    else if leb dgm_max_groups (length gids)
    then gids
    else take pos gids ++ (g ∷ drop pos gids)

unfoldable pub insert_all : List ℕ → List ℕ → List ℕ
insert_all gids [] = gids
insert_all gids (g ∷ gs) = insert_all (insert_gid gids g) gs

unfoldable pub collect : List ℕ → List DgmEntry → List ℕ
unfolding insert_all
collect gids [] = gids
collect gids (e ∷ es) = collect (insert_all gids (take e.count e.gids)) es

unfoldable pub gid_text : ℕ → Bytes
gid_text g = codes "{\"gid\":" ++ (decimal g ++ codes ",\"members\":[")

unfoldable pub ieee_text : ℕ → Bytes
ieee_text ieee = codes "{\"ieee\":\"0x" ++ (hex_text hex_digit 16 ieee ++ codes "\"}")

abbrev pub comma : JsonWriter → Bool → JsonWriter
comma w first = if first then w else ch w b','

-- The loop over the devices of a group.
unfoldable pub emit_devices : JsonWriter → Bool → ℕ → List DgmEntry → JsonWriter
emit_devices w first g [] = w
emit_devices w first g (e ∷ es) =
    let without = emit_devices w first g es in
    let with_it = emit_devices (fmt (comma w first) (ieee_text e.ieee)) false g es in
    if contains g (take e.count e.gids) then with_it else without

-- The loop over the groups.
unfoldable pub emit_groups : JsonWriter → Bool → List DgmEntry → List ℕ → JsonWriter
unfolding emit_devices
emit_groups w first es [] = w
emit_groups w first es (g ∷ gs) =
    emit_groups (raw (emit_devices (fmt (comma w first) (gid_text g)) true g es) (codes "]}")) false
      es gs

abbrev pub used : DgmTable → List DgmEntry
used t = take t.n t.devs

abbrev pub all_json : JsonWriter → DgmTable → JsonWriter
all_json w t =
    raw (emit_groups (raw w (codes "{\"groups\":[")) true (used t) (collect [] (used t)))
      (codes "]}")

-- The length, and the buffer.
unfoldable pub dgm_all_json : DgmTable → Bytes → ℕ → ℕ × Bytes
unfolding emit_groups collect
dgm_all_json t buf cap = let w = all_json (new buf cap) t in (finish w, w.buf)

-- The text that is meant.
abbrev comma_text : Bool → Bytes
comma_text first = if first then [] else codes ","

unfoldable pub devices_text : Bool → ℕ → List DgmEntry → Bytes
devices_text first g [] = []
devices_text first g (e ∷ es) =
    let without = devices_text first g es in
    let rest = devices_text false g es in
    if contains g (take e.count e.gids)
    then (comma_text first ++ ieee_text e.ieee) ++ rest
    else without

unfoldable pub groups_text : Bool → List DgmEntry → List ℕ → Bytes
groups_text first es [] = []
groups_text first es (g ∷ gs) =
    (((comma_text first ++ gid_text g) ++ devices_text true g es) ++ codes "]}")
    ++ groups_text false es gs

unfoldable pub all_text : List DgmEntry → List ℕ → Bytes
all_text es gs = (codes "{\"groups\":[" ++ groups_text true es gs) ++ codes "]}"

item_stuck :
    (w : JsonWriter) (first : Bool) (text : Bytes) → w.ok ≡ false → fmt (comma w first) text ≡ w
item_stuck w true text bad = fmt_stuck w bad text
item_stuck w false text bad = ap (λ z. fmt z text) (ch_stuck w bad b',') ∙ fmt_stuck w bad text

item-Writes :
    (w : JsonWriter) (first : Bool) (text : Bytes)
    → IsValid w
    → w.ok ≡ true
    → Writes w (comma_text first ++ text) (fmt (comma w first) text)
item-Writes w true text v good = fmt-Writes w v good text
item-Writes w false text v good =
    let a = ch-Writes w v good b',' in
    Writes-then w (ch w b',') _ (b',' ∷ []) text a
      (λ fine. fmt-Writes (ch w b',') a.valid fine text) (λ bad. fmt_stuck (ch w b',') bad text)

devices_stuck :
    (w : JsonWriter) (first : Bool) (g : ℕ) (es : List DgmEntry)
    → w.ok ≡ false
    → emit_devices w first g es ≡ w
unfolding emit_devices
devices_stuck w first g [] bad = refl
devices_stuck w first g (e ∷ es) bad = elim (Bool-cases (contains g (take e.count e.gids))) [
  | inl here ↦ rw here (
      ap (λ z. emit_devices z false g es) (item_stuck w first (ieee_text e.ieee) bad)
      ∙ devices_stuck w false g es bad)
  | inr gone ↦ rw gone (devices_stuck w first g es bad)
]

devices-Writes :
    (w : JsonWriter) (first : Bool) (g : ℕ) (es : List DgmEntry)
    → IsValid w
    → w.ok ≡ true
    → Writes w (devices_text first g es) (emit_devices w first g es)
unfolding emit_devices devices_text
devices-Writes w first g [] v good = Writes-nothing w v good
devices-Writes w first g (e ∷ es) v good = elim (Bool-cases (contains g (take e.count e.gids))) [
  | inr gone ↦ rw gone (devices-Writes w first g es v good)
  | inl here ↦
      let a = item-Writes w first (ieee_text e.ieee) v good in
      let w1 = fmt (comma w first) (ieee_text e.ieee) in
      rw here (
        Writes-then w w1 _ (comma_text first ++ ieee_text e.ieee) (devices_text false g es) a
          (λ fine. devices-Writes w1 false g es a.valid fine)
          (λ bad. devices_stuck w1 false g es bad))
]

groups_stuck :
    (w : JsonWriter) (first : Bool) (es : List DgmEntry) (gs : List ℕ)
    → w.ok ≡ false
    → emit_groups w first es gs ≡ w
unfolding emit_groups
groups_stuck w first es [] bad = refl
groups_stuck w first es (g ∷ gs) bad =
    ap (λ z. emit_groups (raw (emit_devices z true g es) (codes "]}")) false es gs)
      (item_stuck w first (gid_text g) bad)
    ∙ ap (λ z. emit_groups (raw z (codes "]}")) false es gs) (devices_stuck w true g es bad)
    ∙ ap (λ z. emit_groups z false es gs) (raw_stuck w bad (codes "]}"))
    ∙ groups_stuck w false es gs bad

groups-Writes :
    (w : JsonWriter) (first : Bool) (es : List DgmEntry) (gs : List ℕ)
    → IsValid w
    → w.ok ≡ true
    → Writes w (groups_text first es gs) (emit_groups w first es gs)
unfolding emit_groups groups_text
groups-Writes w first es [] v good = Writes-nothing w v good
groups-Writes w first es (g ∷ gs) v good =
    let w1 = fmt (comma w first) (gid_text g) in
    let w2 = emit_devices w1 true g es in
    let w3 = raw w2 (codes "]}") in
    let a1 = item-Writes w first (gid_text g) v good in
    let a2 : Writes w ((comma_text first ++ gid_text g) ++ devices_text true g es) w2 =
      Writes-then w w1 w2 _ _ a1 (λ fine. devices-Writes w1 true g es a1.valid fine)
        (λ bad. devices_stuck w1 true g es bad) in
    let a3 : Writes w (((comma_text first ++ gid_text g) ++ devices_text true g es) ++ codes "]}")
        w3 =
      Writes-then w w2 w3 _ _ a2 (λ fine. raw-Writes w2 a2.valid fine _)
        (λ bad. raw_stuck w2 bad _) in
    Writes-then w w3 _ _ _ a3 (λ fine. groups-Writes w3 false es gs a3.valid fine)
      (λ bad. groups_stuck w3 false es gs bad)

pub all-Writes :
    (w : JsonWriter) (t : DgmTable)
    → IsValid w
    → w.ok ≡ true
    → Writes w (all_text (used t) (collect [] (used t))) (all_json w t)
unfolding all_text
all-Writes w t v good =
    let gs = collect [] (used t) in
    let w1 = raw w (codes "{\"groups\":[") in
    let w2 = emit_groups w1 true (used t) gs in
    let a1 = raw-Writes w v good (codes "{\"groups\":[") in
    let a2 : Writes w (codes "{\"groups\":[" ++ groups_text true (used t) gs) w2 =
      Writes-then w w1 w2 _ _ a1 (λ fine. groups-Writes w1 true (used t) gs a1.valid fine)
        (λ bad. groups_stuck w1 true (used t) gs bad) in
    Writes-then w w2 _ _ _ a2 (λ fine. raw-Writes w2 a2.valid fine _) (λ bad. raw_stuck w2 bad _)
