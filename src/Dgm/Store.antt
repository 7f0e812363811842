-- ===== src/Dgm/Store.antt =====
-- The flash copy of main/dgm_store.cpp. The flash store is a parameter: opening, reading or writing the
-- key "map" of the namespace "zhac_gm". Every function holds the store's lock, so each is one step.
use zhac_net_core.Base.{
  ℕ, Bool, true, false, List, Option, none, some, ltb, if◌then◌else◌, replicate,
}
use zhac_net_core.Json.Utf8.{Bytes}
use zhac_net_core.Dgm.{
  DgmTable, dgm_max_devs, zeroed_entry, dgm_tbl_add, dgm_tbl_remove, dgm_tbl_set, dgm_tbl_forget,
  dgm_tbl_list,
}
use zhac_net_core.Dgm.Json.{dgm_all_json}

-- What flash answers: the blob, with whether it has the table's size, and the answers of a write and a
-- commit, made one after the other, where the first succeeded.
pub record Flash : Type 1 where
  pub Kept : Type 0
  pub can_read : Kept → Bool
  pub can_write : Kept → Bool
  pub get_blob : Kept → Option (Bool × DgmTable)
  pub set_blob : Kept → DgmTable → Kept × Bool
  pub commit : Kept → Kept × Bool

abbrev pub zeroed_table : DgmTable
zeroed_table = record { n = 0; devs = replicate dgm_max_devs zeroed_entry }

abbrev pub clamped_table : DgmTable → DgmTable
clamped_table t = record t { n = if ltb dgm_max_devs t.n then dgm_max_devs else t.n }

module _ (f : Flash) where
  open f use {Kept, can_read, can_write, get_blob, set_blob, commit}

  unfoldable pub dgm_load : Kept → DgmTable
  dgm_load s =
      let found = elim (get_blob s) as (λ x. DgmTable) [
        | none ↦ zeroed_table
        | some (whole, t) ↦ if whole then clamped_table t else zeroed_table
      ] in
      if can_read s then found else zeroed_table

  unfoldable pub dgm_save : Kept → DgmTable → Kept × Bool
  dgm_save s t =
      let (s1, written) = set_blob s t in
      if can_write s then if written then commit s1 else (s1, false) else (s, false)

  unfoldable pub dgm_add : Kept → (ieee gid : ℕ) → Kept × Bool
  unfolding dgm_load dgm_save
  dgm_add s ieee gid = dgm_save s (dgm_tbl_add (dgm_load s) ieee gid).0

  unfoldable pub dgm_remove : Kept → (ieee gid : ℕ) → Kept × Bool
  unfolding dgm_load dgm_save
  dgm_remove s ieee gid = dgm_save s (dgm_tbl_remove (dgm_load s) ieee gid).0

  unfoldable pub dgm_set : Kept → (ieee : ℕ) → (gids : List ℕ) → Kept × Bool
  unfolding dgm_load dgm_save
  dgm_set s ieee gids = dgm_save s (dgm_tbl_set (dgm_load s) ieee gids).0

  unfoldable pub dgm_forget : Kept → (ieee : ℕ) → Kept × Bool
  unfolding dgm_load dgm_save
  dgm_forget s ieee =
      let (t, had) = dgm_tbl_forget (dgm_load s) ieee in if had then dgm_save s t else (s, true)

  unfoldable pub dgm_list : Kept → (ieee max : ℕ) → List ℕ
  unfolding dgm_load
  dgm_list s ieee max = dgm_tbl_list (dgm_load s) ieee max

  unfoldable pub dgm_all_json_live : Kept → Bytes → (cap : ℕ) → ℕ × Bytes
  unfolding dgm_load
  dgm_all_json_live s buf cap = dgm_all_json (dgm_load s) buf cap
