-- ===== src/Rmk/Store.antt =====
-- components/rainmaker_gw/rmk_store.c: the set of exposed devices. What flash holds is a parameter; the
-- lock makes every call one step.
pub mod Entries
pub mod Live
use zhac_net_core.Base.{
  ℕ, zero, suc, ◌+◌, ◌-◌, Bool, true, false, List, [], ◌∷◌, Option, none, some, ltb, leb, ◌==◌,
  if◌then◌else◌, get_or, set, take, replicate, find_index,
}

abbrev pub rmk_max_devs : ℕ
rmk_max_devs = 10

pub record RmkTable : Type 0 where
  pub ieee : List ℕ
  pub count : ℕ

-- The three loops `for (i = 0; i < count; i++) if (ieee[i] == x)`.
abbrev pub slot : RmkTable → ℕ → Option ℕ
slot t x = find_index (λ y. y == x) t.count t.ieee

unfoldable pub rmk_tbl_add : RmkTable → ℕ → RmkTable × Bool
rmk_tbl_add t x = elim (slot t x) [
  | some i ↦ (t, true)
  | none ↦
      if leb rmk_max_devs t.count
      then (t, false)
      else (record { ieee = set t.ieee t.count x; count = suc t.count }, true)
]

-- Entry `i` overwritten by the last one, and the count one less.
abbrev pub swap_last : RmkTable → ℕ → RmkTable
swap_last t i = record { ieee = set t.ieee i (get_or t.ieee (t.count - 1) 0); count = t.count - 1 }

unfoldable pub rmk_tbl_remove : RmkTable → ℕ → RmkTable × Bool
rmk_tbl_remove t x = elim (slot t x) [ none ↦ (t, false) | some i ↦ (swap_last t i, true) ]

unfoldable pub rmk_tbl_contains : RmkTable → ℕ → Bool
rmk_tbl_contains t x = elim (slot t x) [ none ↦ false | some i ↦ true ]

unfoldable pub live_contains : List ℕ → ℕ → Bool
live_contains [] x = false
live_contains (y ∷ live) x = let rest = live_contains live x in if y == x then true else rest

-- The loop of `rmk_tbl_reconcile`: every round moves `i` on or takes an entry away, so their distance
-- at the start is fuel enough.
unfoldable pub reconcile_loop : ℕ → List ℕ → RmkTable → ℕ → ℕ → RmkTable × ℕ
reconcile_loop zero live t i dropped = (t, dropped)
reconcile_loop (suc fuel) live t i dropped =
    let kept = reconcile_loop fuel live t (suc i) dropped in
    let gone = reconcile_loop fuel live (swap_last t i) i (suc dropped) in
    if ltb i t.count
    then if live_contains live (get_or t.ieee i 0) then kept else gone
    else (t, dropped)

unfoldable pub rmk_tbl_reconcile : RmkTable → List ℕ → RmkTable × ℕ
rmk_tbl_reconcile t live = reconcile_loop (suc t.count) live t 0 0

-- `blob` is what flash holds under the key, if it has the table's size. The answer is whether it was
-- there.
unfoldable pub rmk_store_load : (blob : Option RmkTable) → RmkTable × Bool
rmk_store_load none = (record { ieee = replicate rmk_max_devs 0; count = 0 }, false)
rmk_store_load (some t) =
    (record t { count = if ltb rmk_max_devs t.count then rmk_max_devs else t.count }, true)
