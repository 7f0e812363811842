-- ===== src/Examples/Dgm.antt =====
-- Runs of main/dgm_store.cpp.
use zhac_net_core.Base.{
  ℕ, zero, suc, ◌≡◌, refl, arith, length, get_or, replicate, lookup, find_index,
}
use zhac_net_core.Dgm.{DgmTable, zeroed_entry, dgm_tbl_add}
use zhac_net_core.Dgm.Table.{IsValid}
use zhac_net_core.Dgm.Adding.{IsAdded, dgm_tbl_add_lem}

abbrev no_devs : DgmTable
no_devs = record { n = 0; devs = replicate 64 zeroed_entry }

replicate-arrays : (n i : ℕ) → length (get_or (replicate n zeroed_entry) i zeroed_entry).gids ≡ 16
replicate-arrays zero i = refl
replicate-arrays (suc n) zero = refl
replicate-arrays (suc n) (suc i) = replicate-arrays n i

no_devs-IsValid : IsValid no_devs
unfolding lookup find_index
no_devs-IsValid = record {
  devs_size = refl;
  arrays = λ i. replicate-arrays 64 i;
  keyed = record { bounded = omega arith; distinct = λ i j hi hj h. elim hi [ ] };
  entries = λ g e h. absurd (ground arith);
}

-- One device, in one group.
abbrev one_dev : DgmTable
one_dev = (dgm_tbl_add no_devs 7 101).0

one_dev-IsValid : IsValid one_dev
one_dev-IsValid = (dgm_tbl_add_lem no_devs 7 101 no_devs-IsValid).valid

dgm_tbl_add_lem_example :
    let (t', added) = dgm_tbl_add one_dev 7 102 in IsAdded one_dev 7 102 t' added
dgm_tbl_add_lem_example = dgm_tbl_add_lem one_dev 7 102 one_dev-IsValid
