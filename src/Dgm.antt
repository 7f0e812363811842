-- ===== src/Dgm.antt =====
-- main/dgm_store.cpp: the table of the groups that devices were put into. The arrays are written by
-- index and keep their size; out-of-range reads, which a valid table never makes, give a blank entry.
pub mod Table
pub mod Adding
pub mod Reconcile
pub mod Json
pub mod Store
use zhac_net_core.Base.{
  ℕ, zero, suc, ◌+◌, ◌-◌, Bool, true, false, ◌||◌, List, [], ◌∷◌, Option, none, some, ltb, leb,
  ◌==◌, if◌then◌else◌, length, get_or, set, take, replicate, find_index, min,
}

abbrev pub dgm_max_gids : ℕ
dgm_max_gids = 16

abbrev pub dgm_max_devs : ℕ
dgm_max_devs = 64

pub record DgmEntry : Type 0 where
  pub ieee : ℕ
  pub count : ℕ
  pub gids : List ℕ

pub record DgmTable : Type 0 where
  pub n : ℕ
  pub devs : List DgmEntry

abbrev pub zeroed_entry : DgmEntry
zeroed_entry = record { ieee = 0; count = 0; gids = replicate dgm_max_gids 0 }

abbrev pub ieee_of : DgmEntry → ℕ
ieee_of e = e.ieee

abbrev pub dgm_find : DgmTable → ℕ → Option ℕ
dgm_find t ieee = find_index (λ e. ieee_of e == ieee) t.n t.devs

abbrev pub entry_at : DgmTable → ℕ → DgmEntry
entry_at t i = get_or t.devs i zeroed_entry

abbrev pub is_found : Option ℕ → Bool
is_found none = false
is_found (some i) = true

unfoldable pub dgm_has : DgmEntry → ℕ → Bool
dgm_has e gid = is_found (find_index (λ g. g == gid) e.count e.gids)

-- `gids[count++] = gid`
unfoldable pub push_gid : DgmEntry → ℕ → DgmEntry
push_gid e gid = record e { gids = set e.gids e.count gid; count = suc e.count }

unfoldable pub dgm_tbl_add : DgmTable → ℕ → ℕ → DgmTable × Bool
dgm_tbl_add t ieee gid = elim (dgm_find t ieee) [
  | some i ↦
      let e = entry_at t i in
      if dgm_has e gid
      then (t, false)
      else if leb dgm_max_gids e.count
      then (t, false)
      else (record t { devs = set t.devs i (push_gid e gid) }, true)
  | none ↦
      if leb dgm_max_devs t.n
      then (t, false)
      else let ne = record (entry_at t t.n) { ieee = ieee; count = 0 } in
        (record t { devs = set t.devs t.n (push_gid ne gid); n = suc t.n }, true)
]

unfoldable pub dgm_tbl_forget : DgmTable → ℕ → DgmTable × Bool
dgm_tbl_forget t ieee = elim (dgm_find t ieee) [
  | none ↦ (t, false)
  | some i ↦ (record t { devs = set t.devs i (entry_at t (t.n - 1)); n = t.n - 1 }, true)
]

-- `for (k = j; k + 1 < count; k++) gids[k] = gids[k + 1]`, with the rounds that are left.
unfoldable pub shift_down : ℕ → ℕ → List ℕ → List ℕ
shift_down zero k xs = xs
shift_down (suc left) k xs = shift_down left (suc k) (set xs k (get_or xs (suc k) 0))

unfoldable pub take_gid : DgmEntry → ℕ → DgmEntry
unfolding shift_down
take_gid e j = record e { gids = shift_down (e.count - 1 - j) j e.gids; count = e.count - 1 }

unfoldable pub dgm_tbl_remove : DgmTable → ℕ → ℕ → DgmTable × Bool
unfolding take_gid dgm_tbl_forget
dgm_tbl_remove t ieee gid = elim (dgm_find t ieee) [
  | none ↦ (t, false)
  | some i ↦
      let e = entry_at t i in
      elim (find_index (λ g. g == gid) e.count e.gids) [
        | none ↦ (t, false)
        | some j ↦
            let rest = take_gid e j in
            let t' : DgmTable = record t { devs = set t.devs i rest } in
            if rest.count == 0 then ((dgm_tbl_forget t' ieee).0, true) else (t', true)
      ]
]

-- What is written to `out`, whose length is the answer.
unfoldable pub dgm_tbl_list : DgmTable → ℕ → ℕ → List ℕ
dgm_tbl_list t ieee max = elim (dgm_find t ieee) [
  | none ↦ []
  | some i ↦ let e = entry_at t i in take (if ltb e.count max then e.count else max) e.gids
]

-- The loop of `dgm_tbl_set`.
unfoldable pub add_each : DgmTable → ℕ → Bool → List ℕ → DgmTable × Bool
add_each t ieee changed [] = (t, changed)
add_each t ieee changed (gid ∷ gids) =
    let (t', added) = dgm_tbl_add t ieee gid in add_each t' ieee (changed || added) gids

unfoldable pub dgm_tbl_set : DgmTable → ℕ → List ℕ → DgmTable × Bool
unfolding add_each
dgm_tbl_set t ieee gids = let (t', changed) = dgm_tbl_forget t ieee in add_each t' ieee changed gids
