-- ===== src/Groups/Listing.antt =====
-- `grp_load_all` of main/groups_store.cpp.
use zhac_net_core.Base.{
  ℕ, zero, suc, ◌-◌, ◌≡◌, refl, ap, inl, inr, true, false, List, [], ◌∷◌, Option, none, some, ◌==◌,
  ==_ne, Bool-cases, Option-cases, get_or, take, arith,
}
use zhac_net_core.Groups.Nvs.{GrpRecord, Flash}
use zhac_net_core.Groups.{grp_get_bmp, loaded, load_slots, grp_load_all}
use zhac_net_core.Groups.Records.{group}

module _ (f : Flash) (s : f.Store) where
  abbrev or_skip : Option GrpRecord → List GrpRecord → List GrpRecord
  or_skip none rs = rs
  or_skip (some r) rs = r ∷ rs

  -- The groups that have a record, by id, for `n` ids behind `i`.
  unfoldable pub groups_from : ℕ → ℕ → List GrpRecord
  groups_from zero i = []
  groups_from (suc n) i = or_skip (group f s (suc i)) (groups_from n (suc i))

  load_slots-take :
      (n i room : ℕ) → load_slots f s (grp_get_bmp f s) n i room ≡ take room (groups_from n i)
  unfolding load_slots groups_from group
  load_slots-take zero i zero = refl
  load_slots-take zero i (suc room) = refl
  load_slots-take (suc n) i zero = refl
  load_slots-take (suc n) i (suc room) =
      let room_left : (suc room == 0) ≡ false = ==_ne (suc room) 0 (λ h. omega arith) in
      let place : suc i - 1 ≡ i = omega arith in
      let less : suc room - 1 ≡ room = omega arith in
      let skip = load_slots-take n (suc i) (suc room) in
      elim (Bool-cases (get_or (grp_get_bmp f s) i false)) [
        | inl used ↦ elim (Option-cases (loaded f s (suc i))) [
          | inl e ↦ rw (room_left, place, used, e) skip
          | inr (r, e) ↦
              rw (room_left, place, used, e, less) (ap (◌∷◌ r) (load_slots-take n (suc i) room))
        ]
        | inr free ↦ rw (room_left, place, free) skip
      ]

-- `grp_load_all` gives the records of the groups that have one, in the order of their ids, as many as
-- there is room for.
pub grp_load_all_lem :
    (f : Flash) (s : f.Store) (max : ℕ)
    → f.can_read s ≡ true
    → grp_load_all f s max ≡ take max (groups_from f s 32 0)
unfolding grp_load_all
grp_load_all_lem f s max opens = rw opens (load_slots-take f s 32 0 max)
