-- ===== src/Examples/Rmk.antt =====
-- Runs of components/rainmaker_gw/rmk_typemap.c and rmk_store.c.
use zhac_net_core.Base.{◌↔◌, ℕ, zero, suc, ◌+◌, ◌<◌, ◌≡◌, refl, [], ◌∷◌, replicate, arith, get_or}
use zhac_net_core.Rmk.Store.{RmkTable, rmk_tbl_reconcile}
use zhac_net_core.Rmk.Store.Entries.{IsValid}
use zhac_net_core.Rmk.Store.Live.{Holds, IsIn, rmk_tbl_reconcile_lem}

abbrev two : RmkTable
two = record { ieee = 5 ∷ 7 ∷ replicate 8 0; count = 2 }

two-IsValid : IsValid two
two-IsValid = record { size = refl; keyed = record { bounded = omega arith; distinct = apart } }
  where
    apart : (i j : ℕ) → i < 2 → j < 2 → get_or two.ieee i 0 ≡ get_or two.ieee j 0 → i ≡ j
    apart zero zero h k e = refl
    apart zero (suc zero) h k e = absurd (omega (arith, e))
    apart (suc zero) zero h k e = absurd (omega (arith, e))
    apart (suc zero) (suc zero) h k e = refl
    apart (suc (suc i)) j h k e = absurd (omega (arith, h))
    apart i (suc (suc j)) h k e = absurd (omega (arith, k))

rmk_tbl_reconcile_lem_example :
    let (t', dropped) = rmk_tbl_reconcile two (7 ∷ []) in
    IsValid t'
    × ((g : ℕ) → Holds t' g ↔ (Holds two g × IsIn (7 ∷ []) g))
    × (two.count ≡ t'.count + dropped)
rmk_tbl_reconcile_lem_example = rmk_tbl_reconcile_lem two (7 ∷ []) two-IsValid
