-- ===== src/Groups/Nvs.antt =====
-- main/groups_store.h, and the flash store that main/groups_store.cpp calls.
use zhac_net_core.Base.{ℕ, ◌≡◌, ◌≢◌, Bool, true, List, Option, none, some}

abbrev pub grp_max_members : ℕ
grp_max_members = 16

abbrev pub grp_max_groups : ℕ
grp_max_groups = 32

pub record GrpMember : Type 0 where
  pub ieee : ℕ
  pub ep : ℕ

pub record GrpRecord : Type 0 where
  pub id : ℕ
  pub name : List ℕ
  pub member_count : ℕ
  pub members : List GrpMember

-- The answers of `nvs_erase_key`.
pub data Erased : Type 0 where
  erased not_found failed : Erased

-- The namespace "zhac_grp" under the calls that are made of it. `get_u32` and `set_u32` are those of
-- the key "bmp"; a blob comes with whether it has the size of a record.
pub record Flash : Type 1 where
  pub Store : Type 0
  pub can_read : Store → Bool
  pub can_write : Store → Bool
  pub get_u32 : Store → Option (List Bool)
  pub set_u32 : Store → List Bool → Store × Bool
  pub get_blob : Store → List ℕ → Option (Bool × GrpRecord)
  pub set_blob : Store → List ℕ → GrpRecord → Store × Bool
  pub erase_key : Store → List ℕ → Store × Erased
  pub commit : Store → Store × Bool

-- A flash that does not fail: every call is answered with success, and a read gives what was written
-- last.
pub record IsReliable (f : Flash) : Type 0 where
  pub opens : (s : f.Store) → (f.can_read s ≡ true) × (f.can_write s ≡ true)
  pub sets_u32 : (s : f.Store) (b : List Bool) → (f.set_u32 s b).1 ≡ true
  pub sets_blob : (s : f.Store) (k : List ℕ) (r : GrpRecord) → (f.set_blob s k r).1 ≡ true
  pub commits : (s : f.Store) → (f.commit s).1 ≡ true
  pub erases : (s : f.Store) (k : List ℕ) → (f.erase_key s k).1 ≢ failed
  pub u32_u32 : (s : f.Store) (b : List Bool) → f.get_u32 (f.set_u32 s b).0 ≡ some b
  pub u32_blob :
      (s : f.Store) (k : List ℕ) (r : GrpRecord) → f.get_u32 (f.set_blob s k r).0 ≡ f.get_u32 s
  pub u32_erase : (s : f.Store) (k : List ℕ) → f.get_u32 (f.erase_key s k).0 ≡ f.get_u32 s
  pub u32_commit : (s : f.Store) → f.get_u32 (f.commit s).0 ≡ f.get_u32 s
  pub blob_self :
      (s : f.Store) (k : List ℕ) (r : GrpRecord)
      → f.get_blob (f.set_blob s k r).0 k ≡ some (true, r)
  pub blob_other :
      (s : f.Store) (k j : List ℕ) (r : GrpRecord)
      → j ≢ k
      → f.get_blob (f.set_blob s k r).0 j ≡ f.get_blob s j
  pub blob_u32 :
      (s : f.Store) (b : List Bool) (k : List ℕ) → f.get_blob (f.set_u32 s b).0 k ≡ f.get_blob s k
  pub blob_erased : (s : f.Store) (k : List ℕ) → f.get_blob (f.erase_key s k).0 k ≡ none
  pub blob_erase_other :
      (s : f.Store) (k j : List ℕ) → j ≢ k → f.get_blob (f.erase_key s k).0 j ≡ f.get_blob s j
  pub blob_commit : (s : f.Store) (k : List ℕ) → f.get_blob (f.commit s).0 k ≡ f.get_blob s k
