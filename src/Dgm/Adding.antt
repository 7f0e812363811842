-- ===== src/Dgm/Adding.antt =====
-- `dgm_tbl_add` and `dgm_tbl_list` of main/dgm_store.cpp on the table as a map.
use zhac_net_core.Base.{
  ℕ, zero, suc, ◌≤◌, ◌<◌, ◌≡◌, refl, sym, ap, ◌∙◌, inl, inr, Bool, true, false, ◌&&◌, ◌||◌, not,
  List, [], ◌∷◌, ◌++◌, Option, none, some, ltb, leb, ◌==◌, ==_ne, if◌then◌else◌, Bool-cases,
  Option-cases, arith, length, set, take, find_index, find_index-none, length-set, take-set_end,
  IsKeyed, lookup, Place, present, absent, place, lookup-set, lookup-push,
}
use zhac_net_core.Dgm.{
  DgmEntry, DgmTable, zeroed_entry, ieee_of, dgm_find, entry_at, dgm_has, push_gid, dgm_tbl_add,
  dgm_tbl_list, is_found,
}
use zhac_net_core.Dgm.Table.{
  IsEntry, IsValid, find_dev, gids_of, members, contains, arrays-set, entries-if, same-IsEntry,
  gids_of-if, IsEntry-members,
}

take-take : (n m : ℕ) (xs : List ℕ) → n ≤ m → take m (take n xs) ≡ take n xs
take-take zero zero xs h = refl
take-take zero (suc m) xs h = refl
take-take (suc n) zero xs h = absurd (omega arith)
take-take (suc n) (suc m) [] h = refl
take-take (suc n) (suc m) (x ∷ xs) h = ap (◌∷◌ x) (take-take n m xs (omega arith))

take_shorter : (n m : ℕ) (xs : List ℕ) → m ≤ n → take m (take n xs) ≡ take m xs
take_shorter zero zero xs h = refl
take_shorter zero (suc m) xs h = absurd (omega arith)
take_shorter (suc n) zero xs h = refl
take_shorter (suc n) (suc m) [] h = refl
take_shorter (suc n) (suc m) (x ∷ xs) h = ap (◌∷◌ x) (take_shorter n m xs (omega arith))

take_both : (n m : ℕ) (xs : List ℕ) → take (if ltb n m then n else m) xs ≡ take m (take n xs)
take_both n m xs = elim (Bool-cases (ltb n m)) [
  | inl e ↦ rw e (sym (take-take n m xs (ground arith)))
  | inr e ↦ rw e (sym (take_shorter n m xs (ground arith)))
]

take_nothing : (m : ℕ) → ◌≡◌ {A = List ℕ} [] (take m [])
take_nothing zero = refl
take_nothing (suc m) = refl

-- `dgm_tbl_list` writes the first groups of the device, as many as there is room for.
pub dgm_tbl_list_lem :
    (t : DgmTable) (ieee max : ℕ) → dgm_tbl_list t ieee max ≡ take max (members t ieee)
unfolding dgm_tbl_list lookup
dgm_tbl_list_lem t ieee max = elim (Option-cases (dgm_find t ieee)) [
  | inl e ↦ rw (e, dgm_tbl_list, lookup) (take_nothing max)
  | inr (i, e) ↦
      rw (e, dgm_tbl_list, lookup) (take_both (entry_at t i).count max (entry_at t i).gids)
]

find_index-contains :
    (n : ℕ) (xs : List ℕ) (gid : ℕ)
    → is_found (find_index (λ g. g == gid) n xs) ≡ contains gid (take n xs)
unfolding find_index
find_index-contains zero xs gid = refl
find_index-contains (suc n) [] gid = refl
find_index-contains (suc n) (x ∷ xs) gid =
    let ih = find_index-contains n xs gid in
    elim (Bool-cases (x == gid)) [
      | inl hit ↦ rw hit refl
      | inr miss ↦ elim (Option-cases (find_index (λ g. g == gid) n xs)) [
        | inl e ↦ rw (miss, e) (sym (ap is_found e) ∙ ih)
        | inr (i, e) ↦ rw (miss, e) (sym (ap is_found e) ∙ ih)
      ]
    ]

not_found : (o : Option ℕ) → is_found o ≡ false → o ≡ none
not_found none h = refl
not_found (some i) h = cc

dgm_has-contains : (e : DgmEntry) (gid : ℕ) → dgm_has e gid ≡ contains gid (take e.count e.gids)
unfolding dgm_has
dgm_has-contains e gid = find_index-contains e.count e.gids gid

push_gid-ieee_of : (e : DgmEntry) (gid : ℕ) → ieee_of (push_gid e gid) ≡ ieee_of e
unfolding push_gid
push_gid-ieee_of e gid = refl

none_has : (e : DgmEntry) (gid : ℕ) → e.count ≡ 0 → dgm_has e gid ≡ false
unfolding dgm_has find_index
none_has e gid h = rw h refl

push_gid-IsEntry :
    (e : DgmEntry) (gid : ℕ)
    → length e.gids ≡ 16
    → e.count < 16
    → IsKeyed (λ g. g) 0 e.count e.gids
    → dgm_has e gid ≡ false
    → IsEntry (push_gid e gid) × (gids_of (some (push_gid e gid)) ≡ take e.count e.gids ++ gid ∷ [])
unfolding push_gid dgm_has
push_gid-IsEntry e gid size room keyed new = (
  record {
    gids_size = length-set e.gids e.count gid ∙ size;
    not_empty = omega arith;
    keyed =
        (lookup-push (λ g. g) 0 e.count e.gids gid keyed (omega arith)
          (λ j h here.
            let miss =
              find_index-none (λ g. g == gid) e.count e.gids 0 (not_found _ new) j h
                (omega arith) in
            ground (arith, here))).0;
  },
  take-set_end e.gids e.count gid (omega arith),
)

dgm_tbl_add-present :
    (t : DgmTable) (ieee gid i : ℕ)
    → dgm_find t ieee ≡ some i
    → dgm_tbl_add t ieee gid ≡ (
        if dgm_has (entry_at t i) gid || leb 16 (entry_at t i).count
        then (t, false)
        else (record t { devs = set t.devs i (push_gid (entry_at t i) gid) }, true))
unfolding dgm_tbl_add
dgm_tbl_add-present t ieee gid i e =
    rw (e, dgm_tbl_add)
      (elim (Bool-cases (dgm_has (entry_at t i) gid)) [ inl h ↦ rw h refl | inr h ↦ rw h refl ])

abbrev new_entry : DgmTable → ℕ → DgmEntry
new_entry t ieee = record (entry_at t t.n) { ieee = ieee; count = 0 }

dgm_tbl_add-absent :
    (t : DgmTable) (ieee gid : ℕ)
    → dgm_find t ieee ≡ none
    → dgm_tbl_add t ieee gid ≡ (
        if leb 64 t.n then (t, false) else (
          record t { devs = set t.devs t.n (push_gid (new_entry t ieee) gid); n = suc t.n },
          true,
        ))
unfolding dgm_tbl_add
dgm_tbl_add-absent t ieee gid e = rw (e, dgm_tbl_add) refl

-- What an add leaves behind: a valid table in which the device, and no other, has one more group if
-- the answer is true; it is false if the device has the group, or has 16, or is new to a full table.
pub record IsAdded (t : DgmTable) (ieee gid : ℕ) (t' : DgmTable) (added : Bool) : Type 0 where
  pub valid : IsValid t'
  pub unchanged : added ≡ false → t' ≡ t
  pub others :
      (g : ℕ)
      → members t' g ≡ (if added && g == ieee then members t ieee ++ (gid ∷ []) else members t g)
  pub answer :
      added
      ≡ not (
          contains gid (members t ieee)
          || (leb 16 (length (members t ieee)) || (length (members t ieee) == 0 && leb 64 t.n)))

abbrev pub refuses : DgmTable → ℕ → ℕ → Bool
refuses t ieee gid =
    contains gid (members t ieee)
    || (leb 16 (length (members t ieee)) || (length (members t ieee) == 0 && leb 64 t.n))

kept-IsAdded :
    (t : DgmTable) (ieee gid : ℕ)
    → IsValid t
    → refuses t ieee gid ≡ true
    → IsAdded t ieee gid t false
kept-IsAdded t ieee gid v h = record {
  valid = v;
  unchanged = λ e. refl;
  others = λ g. refl;
  answer = sym (ap not h);
}

-- The table `t'`, in which the device has the entry `x` now.
changed-IsAdded :
    (t : DgmTable) (ieee gid : ℕ) (t' : DgmTable) (x : DgmEntry)
    → IsValid t
    → refuses t ieee gid ≡ false
    → length t'.devs ≡ 64
    → ((i : ℕ) → length (entry_at t' i).gids ≡ 16)
    → IsKeyed ieee_of zeroed_entry t'.n t'.devs
    → ((g : ℕ) → find_dev t' g ≡ (if g == ieee then some x else find_dev t g))
    → IsEntry x
    → gids_of (some x) ≡ members t ieee ++ (gid ∷ [])
    → IsAdded t ieee gid t' true
changed-IsAdded t ieee gid t' x v h size arrays keyed found good longer = record {
  valid = record {
    devs_size = size;
    arrays = arrays;
    keyed = keyed;
    entries = λ g y e.
        entries-if (g == ieee) (some x) (find_dev t g) (λ z q. same-IsEntry x z good q)
          (v.entries g) y (sym (found g) ∙ e);
  };
  unchanged = λ e. cc;
  others = λ g.
      ap gids_of (found g)
      ∙ gids_of-if (g == ieee) (some x) (find_dev t g)
      ∙ ap (λ z. if g == ieee then z else members t g) longer;
  answer = sym (ap not h);
}

or_false : (b : Bool) → (b || false) ≡ b
or_false true = refl
or_false false = refl

refuses-present :
    (t : DgmTable) (ieee gid : ℕ) (x : DgmEntry)
    → find_dev t ieee ≡ some x
    → IsEntry x
    → refuses t ieee gid ≡ (dgm_has x gid || leb 16 x.count)
refuses-present t ieee gid x st good =
    let (_, size) = IsEntry-members x good in
    rw (st, size, ← dgm_has-contains x gid, ==_ne x.count 0 (λ h. omega (arith, good.not_empty)))
      (ap (λ z. dgm_has x gid || z) (or_false (leb 16 x.count)))

-- On a valid table, adding a group to a device puts it behind the groups that the device has, and
-- changes no other device; the table stays valid. Nothing changes exactly if the device has the group
-- already, or has 16 groups, or has none and 64 devices are there.
pub dgm_tbl_add_lem :
    (t : DgmTable) (ieee gid : ℕ)
    → IsValid t
    → let (t', added) = dgm_tbl_add t ieee gid in IsAdded t ieee gid t' added
dgm_tbl_add_lem t ieee gid v = at (place ieee_of zeroed_entry t.n t.devs ieee v.keyed)
  where
    at :
        Place ieee_of zeroed_entry t.n t.devs ieee
        → let (t', added) = dgm_tbl_add t ieee gid in IsAdded t ieee gid t' added
    at (absent e nowhere st) =
        rw (dgm_tbl_add-absent t ieee gid e) (elim (Bool-cases (leb 64 t.n)) [
          | inl full ↦ rw full (kept-IsAdded t ieee gid v (rw (st, full) refl))
          | inr more ↦
              rw more
                let x = new_entry t ieee in
                  let inside : t.n < length t.devs = ground (arith, v.devs_size) in
                  let empty_keys : IsKeyed (λ g. g) 0 0 x.gids = record {
                    bounded = omega arith;
                    distinct = λ a b ha hb h. elim ha [ ];
                  } in
                  let (good, longer) =
                    push_gid-IsEntry x gid (v.arrays t.n) (omega arith) empty_keys
                      (none_has x gid refl) in
                  let (keys, found) =
                    lookup-push ieee_of zeroed_entry t.n t.devs (push_gid x gid) v.keyed inside
                      (λ j h s. nowhere j h (s ∙ push_gid-ieee_of x gid)) in
                  changed-IsAdded t ieee gid _ (push_gid x gid) v (rw (st, more) refl)
                    (length-set t.devs t.n _ ∙ v.devs_size)
                    (arrays-set t.devs t.n _ inside good.gids_size v.arrays) keys
                    (λ g.
                      found g
                      ∙ ap (λ z. if g == z then some (push_gid x gid) else find_dev t g)
                          (push_gid-ieee_of x gid))
                    good (longer ∙ ap (λ z. z ++ (gid ∷ [])) (sym (ap gids_of st)))
        ])
    at (present i e used same st) =
        rw (dgm_tbl_add-present t ieee gid i e)
          (elim (Bool-cases (dgm_has (entry_at t i) gid || leb 16 (entry_at t i).count)) [
            | inl refused ↦ rw refused (
                kept-IsAdded t ieee gid v
                  (refuses-present t ieee gid (entry_at t i) st (v.entries ieee _ st) ∙ refused))
            | inr goes ↦
                rw goes
                  let x = entry_at t i in
                    let old = v.entries ieee x st in
                    let inside : i < length t.devs = omega (arith, used, v.keyed.bounded) in
                    let (good, longer) =
                      push_gid-IsEntry x gid old.gids_size (ground arith) old.keyed
                        (ground arith) in
                    let (keys, found) =
                      lookup-set ieee_of zeroed_entry t.n t.devs i (push_gid x gid) v.keyed used
                        (push_gid-ieee_of x gid) in
                    changed-IsAdded t ieee gid _ (push_gid x gid) v
                      (refuses-present t ieee gid x st old ∙ goes)
                      (length-set t.devs i _ ∙ v.devs_size)
                      (arrays-set t.devs i _ inside good.gids_size v.arrays) keys
                      (λ g.
                        found g
                        ∙ ap (λ z. if g == z then some (push_gid x gid) else find_dev t g) same)
                      good (longer ∙ ap (λ z. z ++ (gid ∷ [])) (sym (ap gids_of st)))
          ])
