-- ===== src/Rmk/TypeMap/Scales.antt =====
-- The scales of components/rainmaker_gw/rmk_typemap.c.
use zhac_net_core.Base.{
  ℕ, zero, suc, ◌+◌, ◌-◌, ◌≤◌, ◌<◌, ◌≡◌, refl, sym, ap, ◌∙◌, inl, inr, Bool, true, ◌&&◌, ltb, leb,
  ◌==◌, ==_iff, if◌then◌else◌, Bool-cases, arith,
}
use zhac_net_core.Rmk.TypeMap.{
  pos, rmk_bri_to_rm, rmk_bri_from_rm, rmk_mired_to_kelvin, rmk_kelvin_to_mired,
}

-- A brightness of the app comes back as it was, whatever is sent stays on its scale, and a brighter
-- lamp is no less bright in the app.
pub rmk_bri_lem :
    (rm zb zb' : ℕ)
    → (rm ≤ 100 → rmk_bri_to_rm (pos (rmk_bri_from_rm (pos rm))) ≡ rm)
      × (rmk_bri_to_rm (pos zb) ≤ 100)
      × (rmk_bri_from_rm (pos rm) ≤ 254)
      × (zb ≤ zb' → rmk_bri_to_rm (pos zb) ≤ rmk_bri_to_rm (pos zb'))
unfolding rmk_bri_to_rm rmk_bri_from_rm
rmk_bri_lem rm zb zb' = (ground arith, ground arith, ground arith, ground arith)

near : ℕ → Bool
unfolding rmk_mired_to_kelvin rmk_kelvin_to_mired
near d =
    let k = 2700 + d in
    let back = rmk_mired_to_kelvin (pos (rmk_kelvin_to_mired (pos k))) in
    leb k back && ltb back (k + 43)

-- How many of the numbers below the argument are not near.
far_count : ℕ → ℕ
far_count zero = 0
far_count (suc d) = let below = far_count d in if near d then below else suc below

none_far : far_count 3801 ≡ 0
unfolding far_count near
none_far = refl

near_below : (n d : ℕ) → far_count n ≡ 0 → d < n → near d ≡ true
unfolding far_count
near_below (suc n) d e h = elim (Bool-cases (near n)) [
  | inl here ↦ elim (Bool-cases (d == n)) [
    | inl same ↦ ap near ((==_iff d n).0 same) ∙ here
    | inr apart ↦
        near_below n d (ap (λ b. if b then far_count n else suc (far_count n)) (sym here) ∙ e)
          (ground arith)
  ]
  | inr far ↦
      absurd (omega (arith, ap (λ b. if b then far_count n else suc (far_count n)) (sym far) ∙ e))
]
near_below zero d e h = absurd (omega arith)

near_at :
    (d : ℕ)
    → near d ≡ true
    → let back = rmk_mired_to_kelvin (pos (rmk_kelvin_to_mired (pos (2700 + d)))) in
      (2700 + d ≤ back) × (back < 2700 + d + 43)
unfolding near
near_at d h = both (2700 + d) (rmk_mired_to_kelvin (pos (rmk_kelvin_to_mired (pos (2700 + d))))) h
  where
    both : (k back : ℕ) → (leb k back && ltb back (k + 43)) ≡ true → (k ≤ back) × (back < k + 43)
    both k back h = ground arith

-- A colour temperature of the app's range comes back no lower, and less than 43 K higher.
pub rmk_kelvin_lem :
    (k : ℕ)
    → 2700 ≤ k
    → k ≤ 6500
    → let back = rmk_mired_to_kelvin (pos (rmk_kelvin_to_mired (pos k))) in
      (k ≤ back) × (back < k + 43)
rmk_kelvin_lem k low high =
    let same : 2700 + (k - 2700) ≡ k = omega arith in
    let checked : near (k - 2700) ≡ true = near_below 3801 (k - 2700) none_far (omega arith) in
    rw same at (near_at (k - 2700) checked)
