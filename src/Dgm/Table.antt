-- ===== src/Dgm/Table.antt =====
-- The table of main/dgm_store.cpp as a map from devices to lists of distinct groups.
use zhac_net_core.Base.{
  ℕ, ◌-◌, ◌<◌, ◌≡◌, refl, sym, ap, ◌∙◌, inl, inr, Bool, true, false, ◌||◌, not, List, [], ◌∷◌,
  Option, none, some, ◌==◌, ==_iff, ==_ne, if◌then◌else◌, Bool-cases, arith, length, get_or, set,
  take, length-set, length-take, get_or-set_self, get_or-set_ne, IsKeyed, lookup, Place, present,
  absent, place, lookup-drop, overwritten,
}
use zhac_net_core.Dgm.{
  DgmEntry, DgmTable, zeroed_entry, ieee_of, dgm_find, entry_at, dgm_tbl_forget,
}

-- A used entry: at least one group, no more than the array has room for, none twice.
pub record IsEntry (e : DgmEntry) : Type 0 where
  pub gids_size : length e.gids ≡ 16
  pub not_empty : 0 < e.count
  pub keyed : IsKeyed (λ g. g) 0 e.count e.gids

abbrev pub find_dev : DgmTable → ℕ → Option DgmEntry
find_dev t g = lookup ieee_of zeroed_entry t.n t.devs g

pub record IsValid (t : DgmTable) : Type 0 where
  pub devs_size : length t.devs ≡ 64
  pub arrays : (i : ℕ) → length (entry_at t i).gids ≡ 16
  pub keyed : IsKeyed ieee_of zeroed_entry t.n t.devs
  pub entries : (g : ℕ) (e : DgmEntry) → find_dev t g ≡ some e → IsEntry e

-- The groups of a device, oldest first; none for a device that is not there.
abbrev pub gids_of : Option DgmEntry → List ℕ
gids_of none = []
gids_of (some e) = take e.count e.gids

abbrev pub members : DgmTable → ℕ → List ℕ
members t g = gids_of (find_dev t g)

abbrev pub contains : ℕ → List ℕ → Bool
contains g [] = false
contains g (x ∷ xs) = x == g || contains g xs

pub arrays-set :
    (xs : List DgmEntry) (i : ℕ) (x : DgmEntry)
    → i < length xs
    → length x.gids ≡ 16
    → ((j : ℕ) → length (get_or xs j zeroed_entry).gids ≡ 16)
    → (j : ℕ) → length (get_or (set xs i x) j zeroed_entry).gids ≡ 16
arrays-set xs i x inside size all j = elim (Bool-cases (j == i)) [
  | inl e ↦
      rw ((==_iff j i).0 e)
        (ap (λ z. length z.gids) (get_or-set_self xs i x zeroed_entry inside) ∙ size)
  | inr e ↦
      ap (λ z. length z.gids) (get_or-set_ne xs i j x zeroed_entry (λ h. ground arith)) ∙ all j
]

pub entries-if :
    (b : Bool) (o p : Option DgmEntry)
    → ((e : DgmEntry) → o ≡ some e → IsEntry e)
    → ((e : DgmEntry) → p ≡ some e → IsEntry e)
    → (e : DgmEntry) → (if b then o else p) ≡ some e
    → IsEntry e
entries-if true o p f g e h = f e h
entries-if false o p f g e h = g e h

nothing-IsEntry : (e : DgmEntry) → none ≡ some e → IsEntry e
nothing-IsEntry e h = cc

pub same-IsEntry : (x e : DgmEntry) → IsEntry x → some x ≡ some e → IsEntry e
same-IsEntry x e v h = let eq : x ≡ e = cc in rw (← eq) v

pub gids_of-if :
    (b : Bool) (o p : Option DgmEntry)
    → gids_of (if b then o else p) ≡ (if b then gids_of o else gids_of p)
gids_of-if true o p = refl
gids_of-if false o p = refl

absent_none :
    (t : DgmTable) (ieee g : ℕ)
    → find_dev t ieee ≡ none
    → members t g ≡ (if g == ieee then [] else members t g)
absent_none t ieee g st = elim (Bool-cases (g == ieee)) [
  | inl here ↦ rw here (ap (members t) ((==_iff g ieee).0 here) ∙ ap gids_of st)
  | inr other ↦ rw other refl
]

pub forget-present :
    (t : DgmTable) (ieee i : ℕ)
    → dgm_find t ieee ≡ some i
    → dgm_tbl_forget t ieee
      ≡ (record t { devs = overwritten ieee_of zeroed_entry t.n t.devs i; n = t.n - 1 }, true)
unfolding dgm_tbl_forget
forget-present t ieee i e = rw (e, dgm_tbl_forget) refl

pub forget-absent :
    (t : DgmTable) (ieee : ℕ) → dgm_find t ieee ≡ none → dgm_tbl_forget t ieee ≡ (t, false)
unfolding dgm_tbl_forget
forget-absent t ieee e = rw (e, dgm_tbl_forget) refl

pub IsEntry-members :
    (x : DgmEntry)
    → IsEntry x
    → (0 < length (gids_of (some x))) × (length (gids_of (some x)) ≡ x.count)
IsEntry-members x v =
    let size = length-take {0} x.count x.gids in
    (
      omega (arith, size, v.not_empty, v.gids_size, v.keyed.bounded),
      omega (arith, size, v.gids_size, v.keyed.bounded),
    )

-- On a valid table, forgetting a device leaves it without groups and every other device with its own;
-- the answer is true exactly if it had groups, and the table stays valid.
pub dgm_tbl_forget_lem :
    (t : DgmTable) (ieee : ℕ)
    → IsValid t
    → let (t', removed) = dgm_tbl_forget t ieee in
      IsValid t'
      × ((g : ℕ) → members t' g ≡ (if g == ieee then [] else members t g))
      × (removed ≡ not (length (members t ieee) == 0))
dgm_tbl_forget_lem t ieee v = at (place ieee_of zeroed_entry t.n t.devs ieee v.keyed)
  where
    at :
        Place ieee_of zeroed_entry t.n t.devs ieee
        → let (t', removed) = dgm_tbl_forget t ieee in
          IsValid t'
          × ((g : ℕ) → members t' g ≡ (if g == ieee then [] else members t g))
          × (removed ≡ not (length (members t ieee) == 0))
    at (absent e nowhere st) =
        rw (forget-absent t ieee e, st) (v, (λ g. absent_none t ieee g st), refl)
    at (present i e used same st) =
        let x = entry_at t i in
        let (keys, found) = lookup-drop ieee_of zeroed_entry t.n t.devs i v.keyed used in
        let inside : i < length t.devs = omega (arith, used, v.keyed.bounded) in
        let (some_gid, _) = IsEntry-members x (v.entries ieee x st) in
        let kept : (g : ℕ)
            → lookup ieee_of zeroed_entry (t.n - 1) (overwritten ieee_of zeroed_entry t.n t.devs i)
                g
              ≡ (if g == ieee then none else find_dev t g) =
          λ g. found g ∙ ap (λ z. if g == z then none else find_dev t g) same in
        rw (forget-present t ieee i e) (
          record {
            devs_size = length-set t.devs i _ ∙ v.devs_size;
            arrays = arrays-set t.devs i _ inside (v.arrays (t.n - 1)) v.arrays;
            keyed = keys;
            entries = λ g y h.
                entries-if (g == ieee) none (find_dev t g) nothing-IsEntry (v.entries g) y
                  (sym (kept g) ∙ h);
          },
          (λ g. ap gids_of (kept g) ∙ gids_of-if (g == ieee) none (find_dev t g)),
          rw st (rw (==_ne (length (gids_of (some x))) 0 (λ h. omega arith)) refl),
        )
