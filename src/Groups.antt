-- ===== src/Groups.antt =====
-- main/groups_store.cpp: the groups in flash. The flash store is a parameter: what its calls answer, and
-- the store they leave. A bitmap of 32 slots is its list of bits. Every function holds the store's lock
-- from its first call to its last one, so each is one step.
pub mod Nvs
pub mod Slots
pub mod Records
pub mod Listing
pub mod Json
pub mod Requests
use zhac_net_core.Base.{
  ℕ, zero, suc, ◌+◌, ◌-◌, ◌/◌, ◌%◌, Bool, true, false, ◌&&◌, ◌||◌, List, [], ◌∷◌, ◌++◌, Option,
  none, some, ltb, ◌==◌, if◌then◌else◌, get_or, set, replicate,
}
use zhac_net_core.Groups.Nvs.{
  GrpRecord, Flash, Erased, erased, not_found, failed, grp_max_groups, grp_max_members,
}
use zhac_net_core.Json.Writer.{hex_digit}

-- `g%04x`
unfoldable pub grp_key : ℕ → List ℕ
grp_key id =
    b'g'
    ∷ hex_digit (id / 4096 % 16)
    ∷ hex_digit (id / 256 % 16)
    ∷ hex_digit (id / 16 % 16)
    ∷ hex_digit (id % 16)
    ∷ []

-- The loop over the slots from `i` on, `left` of them.
unfoldable pub free_slot : List Bool → ℕ → ℕ → ℕ
free_slot bmp zero i = 0
free_slot bmp (suc left) i =
    let later = free_slot bmp left (suc i) in if get_or bmp i false then later else suc i

-- A loaded record, its member count cut to the array.
abbrev pub clamped : GrpRecord → GrpRecord
clamped r = record r {
  member_count = if ltb grp_max_members r.member_count then grp_max_members else r.member_count;
}

abbrev pub is_slot_id : ℕ → Bool
is_slot_id id = if id == 0 then false else if ltb grp_max_groups id then false else true

module _ (f : Flash) where
  open f use {Store, can_read, can_write, get_u32, set_u32, get_blob, set_blob, erase_key, commit}

  unfoldable pub grp_get_bmp : Store → List Bool
  grp_get_bmp s = elim (get_u32 s) [ none ↦ replicate grp_max_groups false | some bmp ↦ bmp ]

  unfoldable pub grp_next_id : Store → ℕ
  unfolding free_slot grp_get_bmp
  grp_next_id s =
      free_slot (if can_read s then grp_get_bmp s else replicate grp_max_groups false)
        grp_max_groups 0

  -- The record of a slot, if it is whole and names that slot's group.
  unfoldable pub loaded : Store → ℕ → Option GrpRecord
  unfolding grp_key
  loaded s id = elim (get_blob s (grp_key id)) [
    | none ↦ none
    | some (whole, r) ↦ if whole && r.id == id then some (clamped r) else none
  ]

  -- The loop over the slots, with the room that is left in `out`.
  unfoldable pub load_slots : Store → List Bool → ℕ → ℕ → ℕ → List GrpRecord
  load_slots s bmp zero i room = []
  load_slots s bmp (suc left) i room =
      let skipped = load_slots s bmp left (suc i) room in
      let taken = load_slots s bmp left (suc i) (room - 1) in
      if room == 0
      then []
      else if get_or bmp i false
      then elim (loaded s (suc i)) [ none ↦ skipped | some r ↦ r ∷ taken ]
      else skipped

  unfoldable pub grp_load_all : Store → ℕ → List GrpRecord
  unfolding load_slots
  grp_load_all s max = if can_read s then load_slots s (grp_get_bmp s) grp_max_groups 0 max else []

  -- The answer of the bitmap's write is not looked at.
  unfoldable pub grp_save : Store → GrpRecord → Store × Bool
  unfolding grp_key grp_get_bmp
  grp_save s r =
      let (s1, stored) = set_blob s (grp_key r.id) r in
      let s2 = (set_u32 s1 (set (grp_get_bmp s1) (r.id - 1) true)).0 in
      if is_slot_id r.id
      then if can_write s then if stored then commit s2 else (s1, false) else (s, false)
      else (s, false)

  unfoldable pub grp_create : Store → GrpRecord → Store × GrpRecord × Bool
  grp_create s r =
      let id = grp_next_id s in
      let r' : GrpRecord = record r { id = id } in
      let (s', saved) = grp_save s r' in if id == 0 then (s, r', false) else (s', r', saved)

  -- The rest of `grp_delete`, where the blob is gone or was not there.
  unfoldable pub clear_slot : Store → ℕ → Store × Bool
  unfolding grp_get_bmp
  clear_slot s id =
      let (s1, written) = set_u32 s (set (grp_get_bmp s) (id - 1) false) in
      if written then commit s1 else (s1, false)

  unfoldable pub grp_delete : Store → ℕ → Store × Bool
  unfolding clear_slot grp_key
  grp_delete s id =
      let (s1, answer) = erase_key s (grp_key id) in
      if is_slot_id id
      then if can_write s
        then elim answer [
          | erased ↦ clear_slot s1 id
          | not_found ↦ clear_slot s1 id
          | failed ↦ (s1, false)
        ]
        else (s, false)
      else (s, false)

  -- The size of the blob is not looked at, nor is its member count cut.
  unfoldable pub grp_find : Store → ℕ → Option GrpRecord
  unfolding grp_key
  grp_find s id =
      if can_read s
      then elim (get_blob s (grp_key id)) [
        | none ↦ none
        | some (whole, r) ↦ if r.id == id then some r else none
      ]
      else none
