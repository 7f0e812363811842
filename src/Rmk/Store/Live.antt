-- ===== src/Rmk/Store/Live.antt =====
-- What `rmk_tbl_reconcile` of components/rainmaker_gw/rmk_store.c keeps.
use zhac_net_core.Base.{
  ℕ, zero, suc, [], ◌∷◌, ◌↔◌, ◌+◌, ◌≤◌, ◌<◌, ◌≡◌, refl, sym, ap, ◌∙◌, ◌⊎◌, inl, inr, Bool, true,
  false, ◌&&◌, List, ltb, ◌==◌, ==_iff, if◌then◌else◌, Bool-cases, arith, length, get_or,
  get_or-set_ne, Place, present, absent, place,
}
use zhac_net_core.Rmk.Store.{
  RmkTable, swap_last, rmk_tbl_contains, live_contains, reconcile_loop, rmk_tbl_reconcile,
}
use zhac_net_core.Rmk.Store.Entries.{self, IsValid, found, contains-lookup, swap_last-lem}

-- A result `t'` that keeps the live devices of `t`, and counts the others from `dropped` on.
record IsReconciled (live : List ℕ) (t : RmkTable) (dropped : ℕ) (t' : RmkTable) (d : ℕ)
    : Type 0 where
  valid : IsValid t'
  kept : (g : ℕ) → rmk_tbl_contains t' g ≡ (rmk_tbl_contains t g && live_contains live g)
  counted : t.count + dropped ≡ t'.count + d

module _ (live : List ℕ) (t : RmkTable) (v : IsValid t) where
  -- No entry is dead: the table is its own result.
  all_live :
      ((j : ℕ) → j < t.count → live_contains live (get_or t.ieee j 0) ≡ true)
      → (dropped : ℕ) → IsReconciled live t dropped t dropped
  all_live alive dropped = record {
    valid = v;
    kept = λ g. at g (place self 0 t.count t.ieee g v.keyed);
    counted = refl;
  }
    where
      at :
          (g : ℕ)
          → Place self 0 t.count t.ieee g
          → rmk_tbl_contains t g ≡ (rmk_tbl_contains t g && live_contains live g)
      at g (present i e used same st) =
          let there : rmk_tbl_contains t g ≡ true = contains-lookup t g ∙ ap found st in
          rw there (sym (ap (live_contains live) (sym same) ∙ alive i used))
      at g (absent e nowhere st) =
          let gone : rmk_tbl_contains t g ≡ false = contains-lookup t g ∙ ap found st in
          rw gone refl

  -- A dead entry taken away does not change the result.
  without_dead :
      (i dropped d : ℕ) (t' : RmkTable)
      → i < t.count
      → live_contains live (get_or t.ieee i 0) ≡ false
      → IsReconciled live (swap_last t i) (suc dropped) t' d
      → IsReconciled live t dropped t' d
  without_dead i dropped d t' used dead r = record {
    valid = r.valid;
    kept =
        λ g. r.kept g ∙ at g (Bool-cases (g == get_or t.ieee i 0)) ((swap_last-lem t i v used).1 g);
    counted = omega (arith, r.counted);
  }
    where
      at :
          (g : ℕ)
          → ((g == get_or t.ieee i 0) ≡ true) ⊎ ((g == get_or t.ieee i 0) ≡ false)
          → rmk_tbl_contains (swap_last t i) g
            ≡ (if g == get_or t.ieee i 0 then false else rmk_tbl_contains t g)
          → (rmk_tbl_contains (swap_last t i) g && live_contains live g)
            ≡ (rmk_tbl_contains t g && live_contains live g)
      at g (inl same) e =
          let not_live : live_contains live g ≡ false =
            ap (live_contains live) ((==_iff g _).0 same) ∙ dead in
          rw not_live (both_false _ _)
        where
          both_false : (a b : Bool) → (a && false) ≡ (b && false)
          both_false true true = refl
          both_false true false = refl
          both_false false true = refl
          both_false false false = refl
      at g (inr apart) e =
          ap (λ z. z && live_contains live g)
            (e ∙ ap (λ b. if b then false else rmk_tbl_contains t g) apart)

reconcile_loop-lem :
    (fuel : ℕ) (live : List ℕ) (t : RmkTable) (i dropped : ℕ)
    → IsValid t
    → i ≤ t.count
    → ((j : ℕ) → j < i → live_contains live (get_or t.ieee j 0) ≡ true)
    → t.count < i + fuel
    → let (t', d) = reconcile_loop fuel live t i dropped in IsReconciled live t dropped t' d
unfolding reconcile_loop
reconcile_loop-lem zero live t i dropped v low alive fuel_left = absurd (omega arith)
reconcile_loop-lem (suc fuel) live t i dropped v low alive fuel_left =
    elim (Bool-cases (ltb i t.count)) [
      | inr e ↦ rw e (all_live live t v (λ j h. alive j (ground arith)) dropped)
      | inl e ↦ elim (Bool-cases (live_contains live (get_or t.ieee i 0))) [
        | inl here ↦
            rw (e, here)
              (reconcile_loop-lem fuel live t (suc i) dropped v (ground arith)
                (λ j h. next j h here) (omega arith))
        | inr dead ↦
            let used : i < t.count = ground arith in
            rw (e, dead)
              (without_dead live t v i dropped _ _ used dead (
                reconcile_loop-lem fuel live (swap_last t i) i (suc dropped)
                  (swap_last-lem t i v used).0 (omega arith)
                  (λ j h.
                    ap (live_contains live) (get_or-set_ne t.ieee i j _ 0 (λ s. omega arith))
                    ∙ alive j h)
                  (omega arith)))
      ]
    ]
  where
    next :
        (j : ℕ)
        → j < suc i
        → live_contains live (get_or t.ieee i 0) ≡ true
        → live_contains live (get_or t.ieee j 0) ≡ true
    next j h here = elim (Bool-cases (j == i)) [
      | inl same ↦ ap (λ k. live_contains live (get_or t.ieee k 0)) ((==_iff j i).0 same) ∙ here
      | inr apart ↦ alive j (ground arith)
    ]

-- The device is one of the entries in use, and one of the list.
abbrev pub Holds : RmkTable → ℕ → Type 0
Holds t g = (i : ℕ) × (i < t.count) × (get_or t.ieee i 0 ≡ g)

abbrev pub IsIn : List ℕ → ℕ → Type 0
IsIn live g = (i : ℕ) × (i < length live) × (get_or live i 0 ≡ g)

contains-Holds : (t : RmkTable) (g : ℕ) → IsValid t → (rmk_tbl_contains t g ≡ true) ↔ Holds t g
contains-Holds t g v = at (place self 0 t.count t.ieee g v.keyed)
  where
    at : Place self 0 t.count t.ieee g → (rmk_tbl_contains t g ≡ true) ↔ Holds t g
    at (present i e used same st) =
        ((λ h. (i, used, same)), (λ h. contains-lookup t g ∙ ap found st))
    at (absent e nowhere st) = (
      (λ h.
          let gone : rmk_tbl_contains t g ≡ false = contains-lookup t g ∙ ap found st in
          absurd (ground (arith, h, gone))),
      (λ h. let (i, used, same) = h in absurd (nowhere i used same)),
    )

live-IsIn : (live : List ℕ) (g : ℕ) → live_contains live g ≡ true → IsIn live g
unfolding live_contains
live-IsIn [] g h = absurd (ground (arith, h))
live-IsIn (y ∷ live) g h = elim (Bool-cases (y == g)) [
  | inl same ↦ (0, omega arith, (==_iff y g).0 same)
  | inr apart ↦
      let later : live_contains live g ≡ true =
        ap (λ b. if b then true else live_contains live g) (sym apart) ∙ h in
      let (i, used, e) = live-IsIn live g later in (suc i, omega (arith, used), e)
]

IsIn-live :
    (live : List ℕ) (g i : ℕ) → i < length live → get_or live i 0 ≡ g → live_contains live g ≡ true
unfolding live_contains
IsIn-live [] g i used e = absurd (omega arith)
IsIn-live (y ∷ live) g zero used e = rw ((==_iff y g).1 e) refl
IsIn-live (y ∷ live) g (suc i) used e =
    rw (IsIn-live live g i (omega (arith, used)) e) (if_same (y == g))
  where
    if_same : (b : Bool) → (if b then true else true) ≡ true
    if_same true = refl
    if_same false = refl

-- On a valid table, `rmk_tbl_reconcile` leaves a valid table whose entries are exactly those devices that
-- were entries and are in the list of live ones; its answer is by how many the entries are fewer.
pub rmk_tbl_reconcile_lem :
    (t : RmkTable) (live : List ℕ)
    → IsValid t
    → let (t', dropped) = rmk_tbl_reconcile t live in
      IsValid t'
      × ((g : ℕ) → Holds t' g ↔ (Holds t g × IsIn live g))
      × (t.count ≡ t'.count + dropped)
unfolding rmk_tbl_reconcile
rmk_tbl_reconcile_lem t live v =
    let r =
      reconcile_loop-lem (suc t.count) live t 0 0 v (omega arith) (λ j h. absurd (omega arith))
        (omega arith) in
    (r.valid, (λ g. (to r.valid r.kept g, from r.valid r.kept g)), omega (arith, r.counted))
  where
    t' : RmkTable
    t' = (reconcile_loop (suc t.count) live t 0 0).0

    to :
        IsValid t'
        → ((g : ℕ) → rmk_tbl_contains t' g ≡ (rmk_tbl_contains t g && live_contains live g))
        → (g : ℕ) → Holds t' g
        → Holds t g × IsIn live g
    to v' kept g h =
        let both : (rmk_tbl_contains t g && live_contains live g) ≡ true =
          sym (kept g) ∙ (contains-Holds t' g v').1 h in
        ((contains-Holds t g v).0 (ground (arith, both)), live-IsIn live g (ground (arith, both)))

    from :
        IsValid t'
        → ((g : ℕ) → rmk_tbl_contains t' g ≡ (rmk_tbl_contains t g && live_contains live g))
        → (g : ℕ) → Holds t g × IsIn live g
        → Holds t' g
    from v' kept g (h, (i, used, e)) =
        let here : rmk_tbl_contains t g ≡ true = (contains-Holds t g v).1 h in
        let alive : live_contains live g ≡ true = IsIn-live live g i used e in
        (contains-Holds t' g v').0 (kept g ∙ ground (arith, here, alive))
