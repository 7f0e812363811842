-- ===== src/Rmk/Store/Entries.antt =====
-- The table of components/rainmaker_gw/rmk_store.c as a set.
use zhac_net_core.Base.{
  ℕ, suc, ◌<◌, ◌≡◌, refl, sym, ap, ◌∙◌, ◌≢◌, ◌⊎◌, inl, inr, Bool, true, false, ◌&&◌, ◌||◌, not,
  Option, none, some, leb, ◌==◌, ==_iff, if◌then◌else◌, Bool-cases, Option-cases, arith, length,
  get_or, set, length-set, IsKeyed, lookup, Place, present, absent, place, lookup-push, lookup-drop,
}
use zhac_net_core.Rmk.Store.{
  RmkTable, slot, rmk_tbl_add, swap_last, rmk_tbl_remove, rmk_tbl_contains,
}

abbrev pub self : ℕ → ℕ
self y = y

pub record IsValid (t : RmkTable) : Type 0 where
  pub size : length t.ieee ≡ 10
  pub keyed : IsKeyed self 0 t.count t.ieee

abbrev pub found : Option ℕ → Bool
found none = false
found (some x) = true

pub contains-lookup :
    (t : RmkTable) (g : ℕ) → rmk_tbl_contains t g ≡ found (lookup self 0 t.count t.ieee g)
unfolding rmk_tbl_contains lookup
contains-lookup t g = elim (Option-cases (slot t g)) [
  | inl e ↦ rw (e, rmk_tbl_contains, lookup) refl
  | inr (i, e) ↦ rw (e, rmk_tbl_contains, lookup) refl
]

found-if :
    (b : Bool) (o p : Option ℕ) → found (if b then o else p) ≡ (if b then found o else found p)
found-if true o p = refl
found-if false o p = refl

-- Taking entry `i` away takes its device out of the set.
pub swap_last-lem :
    (t : RmkTable) (i : ℕ)
    → IsValid t
    → i < t.count
    → IsValid (swap_last t i)
      × ((g : ℕ)
          → rmk_tbl_contains (swap_last t i) g
            ≡ (if g == get_or t.ieee i 0 then false else rmk_tbl_contains t g))
swap_last-lem t i v below =
    let (keyed, looked) = lookup-drop self 0 t.count t.ieee i v.keyed below in
    (
      record { size = length-set t.ieee i _ ∙ v.size; keyed = keyed },
      λ g.
          contains-lookup (swap_last t i) g
          ∙ ap found (looked g)
          ∙ found-if (g == get_or t.ieee i 0) none (lookup self 0 t.count t.ieee g)
          ∙ ap (λ z. if g == get_or t.ieee i 0 then false else z) (sym (contains-lookup t g)),
    )

remove-present :
    (t : RmkTable) (x i : ℕ) → slot t x ≡ some i → rmk_tbl_remove t x ≡ (swap_last t i, true)
unfolding rmk_tbl_remove
remove-present t x i e = rw (e, rmk_tbl_remove) refl

remove-absent : (t : RmkTable) (x : ℕ) → slot t x ≡ none → rmk_tbl_remove t x ≡ (t, false)
unfolding rmk_tbl_remove
remove-absent t x e = rw (e, rmk_tbl_remove) refl

add-present : (t : RmkTable) (x i : ℕ) → slot t x ≡ some i → rmk_tbl_add t x ≡ (t, true)
unfolding rmk_tbl_add
add-present t x i e = rw (e, rmk_tbl_add) refl

add-absent :
    (t : RmkTable) (x : ℕ)
    → slot t x ≡ none
    → rmk_tbl_add t x ≡ (
        if leb 10 t.count
        then (t, false)
        else (record { ieee = set t.ieee t.count x; count = suc t.count }, true))
unfolding rmk_tbl_add
add-absent t x e = rw (e, rmk_tbl_add) refl

-- A device behind the last entry.
push-lem :
    (t : RmkTable) (x : ℕ)
    → IsValid t
    → ((j : ℕ) → j < t.count → get_or t.ieee j 0 ≢ x)
    → t.count < 10
    → let t1 : RmkTable = record { ieee = set t.ieee t.count x; count = suc t.count } in
      IsValid t1
      × ((g : ℕ) → rmk_tbl_contains t1 g ≡ (if g == x then true else rmk_tbl_contains t g))
push-lem t x v nowhere space =
    let t1 : RmkTable = record { ieee = set t.ieee t.count x; count = suc t.count } in
    let (keyed, looked) =
      lookup-push self 0 t.count t.ieee x v.keyed (omega (arith, v.size)) nowhere in
    (
      record { size = length-set t.ieee t.count x ∙ v.size; keyed = keyed },
      λ g.
          contains-lookup t1 g
          ∙ ap found (looked g)
          ∙ found-if (g == x) (some x) (lookup self 0 t.count t.ieee g)
          ∙ ap (λ z. if g == x then true else z) (sym (contains-lookup t g)),
    )

-- On a valid table, adding and removing a device puts it into the set and takes it out, and changes
-- nothing else. An add answers true unless the device is new to a full table, a removal if it was there.
pub rmk_tbl_lem :
    (t : RmkTable) (x : ℕ)
    → IsValid t
    → let (t1, added) = rmk_tbl_add t x in
      let (t2, removed) = rmk_tbl_remove t x in
      (IsValid t1
        × ((g : ℕ)
            → rmk_tbl_contains t1 g ≡ (if added && g == x then true else rmk_tbl_contains t g))
        × (added ≡ (rmk_tbl_contains t x || not (leb 10 t.count))))
      × (IsValid t2
          × ((g : ℕ) → rmk_tbl_contains t2 g ≡ (if g == x then false else rmk_tbl_contains t g))
          × (removed ≡ rmk_tbl_contains t x))
rmk_tbl_lem t x v =
    (add (place self 0 t.count t.ieee x v.keyed), drop_one (place self 0 t.count t.ieee x v.keyed))
  where
    has_x : (o : Option ℕ) → lookup self 0 t.count t.ieee x ≡ o → rmk_tbl_contains t x ≡ found o
    has_x o e = contains-lookup t x ∙ ap found e

    told_in :
        (g : ℕ)
        → ((g == x) ≡ true) ⊎ ((g == x) ≡ false)
        → rmk_tbl_contains t x ≡ true
        → rmk_tbl_contains t g ≡ (if g == x then true else rmk_tbl_contains t g)
    told_in g (inl same) there = rw same (ap (rmk_tbl_contains t) ((==_iff g x).0 same) ∙ there)
    told_in g (inr apart) there = rw apart refl

    told_out :
        (g : ℕ)
        → ((g == x) ≡ true) ⊎ ((g == x) ≡ false)
        → rmk_tbl_contains t x ≡ false
        → rmk_tbl_contains t g ≡ (if g == x then false else rmk_tbl_contains t g)
    told_out g (inl same) gone = rw same (ap (rmk_tbl_contains t) ((==_iff g x).0 same) ∙ gone)
    told_out g (inr apart) gone = rw apart refl

    by_room :
        ((j : ℕ) → j < t.count → get_or t.ieee j 0 ≢ x)
        → (leb 10 t.count ≡ true) ⊎ (leb 10 t.count ≡ false)
        → let (t1, added) : RmkTable × Bool =
            if leb 10 t.count
            then (t, false)
            else (record { ieee = set t.ieee t.count x; count = suc t.count }, true) in
          IsValid t1
          × ((g : ℕ)
              → rmk_tbl_contains t1 g ≡ (if added && g == x then true else rmk_tbl_contains t g))
          × (added ≡ (false || not (leb 10 t.count)))
    by_room nowhere (inl full) = rw full (v, (λ g. refl), refl)
    by_room nowhere (inr space) =
        let (valid, told) = push-lem t x v nowhere (ground arith) in rw space (valid, told, refl)

    add :
        Place self 0 t.count t.ieee x
        → let (t1, added) = rmk_tbl_add t x in
          IsValid t1
          × ((g : ℕ)
              → rmk_tbl_contains t1 g ≡ (if added && g == x then true else rmk_tbl_contains t g))
          × (added ≡ (rmk_tbl_contains t x || not (leb 10 t.count)))
    add (present i e used same st) =
        let there : rmk_tbl_contains t x ≡ true = has_x _ st in
        rw (add-present t x i e, there) (v, (λ g. told_in g (Bool-cases (g == x)) there), refl)
    add (absent e nowhere st) =
        rw (add-absent t x e, has_x _ st) (by_room nowhere (Bool-cases (leb 10 t.count)))

    drop_one :
        Place self 0 t.count t.ieee x
        → let (t2, removed) = rmk_tbl_remove t x in
          IsValid t2
          × ((g : ℕ) → rmk_tbl_contains t2 g ≡ (if g == x then false else rmk_tbl_contains t g))
          × (removed ≡ rmk_tbl_contains t x)
    drop_one (present i e used same st) =
        let (valid, looked) = swap_last-lem t i v used in
        rw (remove-present t x i e, has_x _ st)
          (
            valid,
            (λ g. looked g ∙ ap (λ z. if g == z then false else rmk_tbl_contains t g) same),
            refl,
          )
    drop_one (absent e nowhere st) =
        let gone : rmk_tbl_contains t x ≡ false = has_x _ st in
        rw (remove-absent t x e, gone) (v, (λ g. told_out g (Bool-cases (g == x)) gone), refl)
