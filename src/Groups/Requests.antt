-- ===== src/Groups/Requests.antt =====
-- main/api_groups.cpp: the requests about groups, group.list and group.cmd apart. The JSON parser is a
-- parameter: a body is what is read of its document, if it is one.
pub mod Created
use zhac_net_core.Base.{
  ℕ, ◌+◌, Bool, true, false, List, [], ◌∷◌, ◌++◌, Option, none, some, ltb, ◌==◌, if◌then◌else◌,
  length, set, take, drop, replicate, codes,
}
use zhac_net_core.Json.Utf8.{Bytes, utf8_safe_copy}
use zhac_net_core.Groups.Nvs.{GrpMember, GrpRecord, Flash, grp_max_members}
use zhac_net_core.Groups.{grp_save, grp_create, grp_find, grp_delete}
use zhac_net_core.Groups.Json.{grp_to_json}
use zhac_net_core.WsBridge.Dispatch.{
  ApiStatus, api_ok, api_bad_request, api_not_found, api_internal_error,
}

-- One object of "members": what `parse_ieee` reads of "ieee", if that is a string, and "ep" or 1.
pub record Member : Type 0 where
  pub ieee : Option ℕ
  pub ep : ℕ

-- `name` and `members` are none if they are null; what is no string is the empty one. `id` is 0 if it is
-- none of 16 bits.
pub record Request : Type 0 where
  pub id : ℕ
  pub name : Option Bytes
  pub members : Option (List Member)

abbrev pub add_member : GrpRecord → Option ℕ → (ep : ℕ) → GrpRecord
add_member r none ep = r
add_member r (some ieee) ep = record r {
  members = set r.members r.member_count (record { ieee = ieee; ep = ep });
  member_count = r.member_count + 1;
}

unfoldable pub members_loop : List Member → GrpRecord → GrpRecord
members_loop [] r = r
members_loop (m ∷ ms) r =
    let rest = members_loop ms (add_member r m.ieee m.ep) in
    if ltb r.member_count grp_max_members then rest else r

abbrev pub members_of : Option (List Member) → List Member
members_of none = []
members_of (some ms) = ms

unfoldable pub grp_parse_members : Option (List Member) → GrpRecord → GrpRecord
unfolding members_loop
grp_parse_members ms r = members_loop (members_of ms) (record r { member_count = 0 })

-- The copy with its NUL, and what stood behind it in the array.
abbrev pub copied : (old : Bytes) → Option Bytes → Bytes
copied old none = old
copied old (some text) = text ++ (0 ∷ drop (length text + 1) old)

abbrev pub name_size : ℕ
name_size = 32

unfoldable pub named : (old : Bytes) → Bytes → Bytes
unfolding utf8_safe_copy
named old name = copied old (utf8_safe_copy name_size (some name))

abbrev pub name_or_empty : Option Bytes → Bytes
name_or_empty none = []
name_or_empty (some name) = name

abbrev pub zeroed : GrpRecord
zeroed = record {
  id = 0;
  name = replicate name_size 0;
  member_count = 0;
  members = replicate grp_max_members (record { ieee = 0; ep = 0 });
}

unfoldable pub new_record : Request → GrpRecord
unfolding named grp_parse_members
new_record q =
    grp_parse_members q.members
      (record zeroed { name = named (replicate name_size 0) (name_or_empty q.name) })

-- The JSON of a record is the answer, if the buffer holds it.
abbrev pub answered : Bytes → ℕ → GrpRecord → ApiStatus × Option Bytes
answered buf cap r =
    let (n, text) = grp_to_json r buf cap in
    if n == 0 then (api_internal_error, none) else (api_ok, some (take n text))

abbrev pub renamed : GrpRecord → Option Bytes → GrpRecord
unfolding named
renamed r none = r
renamed r (some name) = record r { name = named r.name name }

abbrev pub regrouped : GrpRecord → Option (List Member) → GrpRecord
unfolding grp_parse_members
regrouped r none = r
regrouped r (some ms) = grp_parse_members (some ms) r

abbrev pub delete_text : Bool → Bytes
delete_text true = codes "{\"ok\":true}"
delete_text false = codes "{\"ok\":false}"

module _ (f : Flash) (buf : Bytes) (cap : ℕ) where
  open f use {Store}

  abbrev pub created : Store × GrpRecord × Bool → Store × ApiStatus × Option Bytes
  unfolding grp_to_json
  created (s, r, false) = (s, api_internal_error, none)
  created (s, r, true) = let (st, text) = answered buf cap r in (s, st, text)

  -- Of a body that is empty or no JSON there is none.
  unfoldable pub api_group_create : Option Request → Store → Store × ApiStatus × Option Bytes
  unfolding grp_create grp_to_json new_record
  api_group_create none s = (s, api_bad_request, none)
  api_group_create (some q) s = created (grp_create f s (new_record q))

  abbrev pub shown : Option GrpRecord → ApiStatus × Option Bytes
  unfolding grp_to_json
  shown none = (api_not_found, none)
  shown (some r) = answered buf cap r

  unfoldable pub api_group_get : Option Request → Store → ApiStatus × Option Bytes
  unfolding grp_find grp_to_json
  api_group_get none s = (api_bad_request, none)
  api_group_get (some q) s = shown (grp_find f s q.id)

  abbrev pub saved_and_shown : GrpRecord → Store × Bool → Store × ApiStatus × Option Bytes
  unfolding grp_to_json
  saved_and_shown r (s, false) = (s, api_internal_error, none)
  saved_and_shown r (s, true) = let (st, text) = answered buf cap r in (s, st, text)

  abbrev pub update_found : Request → Store → Option GrpRecord → Store × ApiStatus × Option Bytes
  unfolding grp_save grp_to_json
  update_found q s none = (s, api_not_found, none)
  update_found q s (some r) =
      let r' = regrouped (renamed r q.name) q.members in saved_and_shown r' (grp_save f s r')

  unfoldable pub api_group_update : Option Request → Store → Store × ApiStatus × Option Bytes
  unfolding grp_find grp_save grp_to_json named grp_parse_members
  api_group_update none s = (s, api_bad_request, none)
  api_group_update (some q) s = update_found q s (grp_find f s q.id)

  unfoldable pub api_group_delete : Option Request → Store → Store × ApiStatus × Option Bytes
  unfolding grp_delete
  api_group_delete none s = (s, api_bad_request, none)
  api_group_delete (some q) s =
      let (s', ok) = grp_delete f s q.id in (s', api_ok, some (delete_text ok))
