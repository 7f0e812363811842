-- ===== src/Dgm/Reconcile.antt =====
-- `dgm_tbl_set` of main/dgm_store.cpp: a device's groups replaced by those it was read to have.
use zhac_net_core.Base.{
  ℕ, ◌<◌, ◌≡◌, refl, ap, ◌∙◌, ◌≢◌, ◌⊎◌, inl, inr, Bool, true, false, ◌&&◌, ◌||◌, not, List, [], ◌∷◌,
  ◌++◌, leb, ◌==◌, ==_self, ==_ne, if◌then◌else◌, Bool-cases, arith, length, length-append, Place,
  present, absent, place,
}
use zhac_net_core.Dgm.{
  DgmTable, zeroed_entry, ieee_of, dgm_tbl_add, dgm_tbl_forget, add_each, dgm_tbl_set,
}
use zhac_net_core.Dgm.Table.{
  IsValid, gids_of, members, contains, dgm_tbl_forget_lem, forget-present, forget-absent,
}
use zhac_net_core.Dgm.Adding.{refuses, dgm_tbl_add_lem}

-- The list, each group at its first place only, cut to 16, behind what is there.
unfoldable pub reconciled : List ℕ → List ℕ → List ℕ
reconciled kept [] = kept
reconciled kept (g ∷ gs) =
    reconciled (if contains g kept || leb 16 (length kept) then kept else kept ++ (g ∷ [])) gs

-- The device is there, or there is room for it.
abbrev pub IsRoomy : DgmTable → ℕ → Type 0
IsRoomy t ieee = (t.n < 64) ⊎ (0 < length (members t ieee))

or_false : (b : Bool) → (b || false) ≡ b
or_false true = refl
or_false false = refl

le→leb_false : (a b : ℕ) → b < a → leb a b ≡ false
le→leb_false a b h = ground arith

refuses-IsRoomy :
    (t : DgmTable) (ieee gid : ℕ)
    → IsRoomy t ieee
    → refuses t ieee gid ≡ (contains gid (members t ieee) || leb 16 (length (members t ieee)))
refuses-IsRoomy t ieee gid r =
    let size = length (members t ieee) in
    ap (λ z. contains gid (members t ieee) || z)
      (ap (λ z. leb 16 size || z) (fits r) ∙ or_false (leb 16 size))
  where
    fits : IsRoomy t ieee → (length (members t ieee) == 0 && leb 64 t.n) ≡ false
    fits (inl h) = elim (Bool-cases (length (members t ieee) == 0)) [
      | inl e ↦ rw (e, le→leb_false 64 t.n h) refl
      | inr e ↦ rw e refl
    ]
    fits (inr h) = rw (==_ne (length (members t ieee)) 0 (λ e. omega arith)) refl

-- One round of the loop.
record IsRound (t : DgmTable) (ieee gid : ℕ) (t' : DgmTable) : Type 0 where
  valid : IsValid t'
  others : (g : ℕ) → (g == ieee) ≡ false → members t' g ≡ members t g
  own : members t' ieee ≡ (
      if contains gid (members t ieee) || leb 16 (length (members t ieee))
      then members t ieee
      else members t ieee ++ (gid ∷ []))
  roomy : IsRoomy t' ieee

round :
    (t : DgmTable) (ieee gid : ℕ)
    → IsValid t
    → IsRoomy t ieee
    → IsRound t ieee gid (dgm_tbl_add t ieee gid).0
round t ieee gid v r =
    let a = dgm_tbl_add_lem t ieee gid v in
    let answer = a.answer ∙ ap not (refuses-IsRoomy t ieee gid r) in
    elim (Bool-cases (contains gid (members t ieee) || leb 16 (length (members t ieee)))) [
      | inl refused ↦
          let same : (dgm_tbl_add t ieee gid).0 ≡ t = a.unchanged (answer ∙ ap not refused) in
          rw same (record { valid = v; others = λ g h. refl; own = rw refused refl; roomy = r })
      | inr goes ↦
          let added : (dgm_tbl_add t ieee gid).1 ≡ true = answer ∙ ap not goes in
          let longer : members (dgm_tbl_add t ieee gid).0 ieee ≡ members t ieee ++ (gid ∷ []) =
            a.others ieee ∙ rw (added, ==_self ieee) refl in
          record {
            valid = a.valid;
            others = λ g h. a.others g ∙ rw (added, h) refl;
            own = longer ∙ rw goes refl;
            roomy =
                inr
                  (omega (arith, ap length longer, length-append {0} (members t ieee) (gid ∷ [])));
          }
    ]

each :
    (t : DgmTable) (ieee : ℕ) (changed : Bool) (gids : List ℕ)
    → IsValid t
    → IsRoomy t ieee
    → let t' = (add_each t ieee changed gids).0 in
      IsValid t'
      × ((g : ℕ) → (g == ieee) ≡ false → members t' g ≡ members t g)
      × (members t' ieee ≡ reconciled (members t ieee) gids)
unfolding add_each reconciled
each t ieee changed [] v r = (v, (λ g h. refl), refl)
each t ieee changed (gid ∷ gids) v r =
    let a = round t ieee gid v r in
    let (t1, added) = dgm_tbl_add t ieee gid in
    let (valid, others, own) = each t1 ieee (changed || added) gids a.valid a.roomy in
    (valid, (λ g h. others g h ∙ a.others g h), own ∙ ap (λ z. reconciled z gids) a.own)

forget-IsRoomy :
    (t : DgmTable) (ieee : ℕ) → IsValid t → IsRoomy t ieee → (dgm_tbl_forget t ieee).0.n < 64
forget-IsRoomy t ieee v r = at r (place ieee_of zeroed_entry t.n t.devs ieee v.keyed)
  where
    at :
        IsRoomy t ieee
        → Place ieee_of zeroed_entry t.n t.devs ieee
        → (dgm_tbl_forget t ieee).0.n < 64
    at r (present i e used same st) =
        rw (forget-present t ieee i e) (omega (arith, v.devs_size, v.keyed.bounded))
    at (inl room) (absent e nowhere st) = rw (forget-absent t ieee e) room
    at (inr here) (absent e nowhere st) =
        let none_there : length (members t ieee) ≡ 0 = ap (λ z. length (gids_of z)) st in
        absurd (omega arith)

-- On a valid table in which the device is or has room, `dgm_tbl_set` gives the device the groups of
-- the list, each at its first place only and no more than 16; no other device changes, and the table
-- stays valid.
pub dgm_tbl_set_lem :
    (t : DgmTable) (ieee : ℕ) (gids : List ℕ)
    → IsValid t
    → IsRoomy t ieee
    → let t' = (dgm_tbl_set t ieee gids).0 in
      IsValid t'
      × ((g : ℕ) → g ≢ ieee → members t' g ≡ members t g)
      × (members t' ieee ≡ reconciled [] gids)
unfolding dgm_tbl_set
dgm_tbl_set_lem t ieee gids v r =
    let (valid, others, changed) = dgm_tbl_forget_lem t ieee v in
    let (t', removed) = dgm_tbl_forget t ieee in
    let cleared : members t' ieee ≡ [] = others ieee ∙ rw (==_self ieee) refl in
    let (valid2, others2, own) =
      each t' ieee removed gids valid (inl (forget-IsRoomy t ieee v r)) in
    (
      valid2,
      (λ g ne. others2 g (==_ne g ieee ne) ∙ others g ∙ rw (==_ne g ieee ne) refl),
      own ∙ ap (λ z. reconciled z gids) cleared,
    )
