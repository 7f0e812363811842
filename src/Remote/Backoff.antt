-- ===== src/Remote/Backoff.antt =====
-- components/remote_client/remote_backoff.cpp. Numbers are the values of the unsigned arguments:
-- `attempt` is below 2 ^ 8, `max_s` below 2 ^ 16 and `rnd` below 2 ^ 32.
use zhac_net_core.Base.{
  ℕ, ◌+◌, ◌-◌, ◌*◌, ◌/◌, ◌%◌, ◌^◌, ◌≤◌, ◌<◌, ◌≡◌, zero, suc, arith, ltb, ◌==◌, ==_ne, if◌then◌else◌,
  min, ◌⊎◌,
}

abbrev u32 : ℕ → ℕ
u32 n = n % 2 ^ 32

-- `1u << (attempt - 1)`, cut to `max_s`, by the jitter factor, cut again.
delay_of : ℕ → ℕ → ℕ → ℕ
delay_of attempt max_s rnd =
    let shifted = u32 (2 ^ (attempt - 1)) in
    let base = if ltb max_s shifted then max_s else shifted in
    let factor_tenths = u32 (8 + rnd % 5) in
    let delay = u32 (base * factor_tenths) / 10 in if ltb max_s delay then max_s else delay

unfoldable pub remote_backoff_compute : ℕ → ℕ → ℕ → ℕ
unfolding delay_of
remote_backoff_compute attempt max_s rnd =
    if attempt == 0 then 0 else delay_of (if ltb 6 attempt then 6 else attempt) max_s rnd

shift_small : (a : ℕ) → a ≤ 6 → 2 ^ (a - 1) ≤ 32
shift_small zero h = omega arith
shift_small (suc zero) h = omega arith
shift_small (suc (suc zero)) h = omega arith
shift_small (suc (suc (suc zero))) h = omega arith
shift_small (suc (suc (suc (suc zero)))) h = omega arith
shift_small (suc (suc (suc (suc (suc zero))))) h = omega arith
shift_small (suc (suc (suc (suc (suc (suc zero)))))) h = omega arith
shift_small (suc (suc (suc (suc (suc (suc (suc a))))))) h = absurd (omega arith)

-- The nominal delay: doubling from one second, at most 32 s and at most `max_s`.
abbrev pub nominal : ℕ → ℕ → ℕ
nominal attempt max_s = min (2 ^ (min attempt 6 - 1)) max_s

product_small : (b r : ℕ) → b ≤ 32 → b * (8 + r % 5) ≤ 384
product_small b r h = grind arith

delay_of_lem : (a m r : ℕ) → a ≤ 6 → delay_of a m r ≡ min (min (2 ^ (a - 1)) m * (8 + r % 5) / 10) m
unfolding delay_of
delay_of_lem a m r h = cut (2 ^ (a - 1)) (shift_small a h)
  where
    cut :
        (p : ℕ)
        → p ≤ 32
        → (let shifted = u32 p in
            let base = if ltb m shifted then m else shifted in
            let factor_tenths = u32 (8 + r % 5) in
            let delay = u32 (base * factor_tenths) / 10 in if ltb m delay then m else delay)
          ≡ min (min p m * (8 + r % 5) / 10) m
    cut p small =
        let shifted : u32 p ≡ p = omega arith in
        let factor : u32 (8 + r % 5) ≡ 8 + r % 5 = omega arith in
        let base : (if ltb m p then m else p) ≡ min p m = ground arith in
        let product : u32 (min p m * (8 + r % 5)) ≡ min p m * (8 + r % 5) =
          omega (arith, product_small (min p m) r (omega arith)) in
        rw (shifted, factor, base, product) (ground arith)

clamped : (a : ℕ) → (if ltb 6 a then 6 else a) ≡ min a 6
clamped a = ground arith

-- From the first retry on no product wraps, and the delay is the nominal one times 0.8 to 1.2 by the
-- random number, rounded down and never above `max_s`.
pub remote_backoff_compute_lem :
    (attempt max_s rnd : ℕ)
    → 0 < attempt
    → remote_backoff_compute attempt max_s rnd
      ≡ min (nominal attempt max_s * (8 + rnd % 5) / 10) max_s
unfolding remote_backoff_compute
remote_backoff_compute_lem attempt max_s rnd h =
    rw (==_ne attempt 0 (omega arith), clamped attempt)
      (delay_of_lem (min attempt 6) max_s rnd (omega arith))

factor_bounds : (n r : ℕ) → (8 * n ≤ n * (8 + r % 5)) × (n * (8 + r % 5) ≤ 12 * n)
factor_bounds n r = grind arith

-- The delay is never above `max_s` nor above 38 s, and never above 1.2 times nor, rounded down, below
-- 0.8 times the nominal one unless `max_s` cuts it.
pub remote_backoff_compute_bounds :
    (attempt max_s rnd : ℕ)
    → 0 < attempt
    → let delay = remote_backoff_compute attempt max_s rnd in
      (delay ≤ max_s)
      × (delay ≤ 38)
      × (10 * delay ≤ 12 * nominal attempt max_s)
      × ((delay ≡ max_s) ⊎ (8 * nominal attempt max_s < 10 * delay + 10))
remote_backoff_compute_bounds attempt max_s rnd h = ground (
  arith,
  remote_backoff_compute_lem attempt max_s rnd h,
  factor_bounds (nominal attempt max_s) rnd,
  shift_small (min attempt 6) (omega arith),
)

-- The first retry has no delay at all for two random numbers of five, whatever `max_s` is.
pub first_delay_zero : (max_s rnd : ℕ) → rnd % 5 < 2 → remote_backoff_compute 1 max_s rnd ≡ 0
first_delay_zero max_s rnd h =
    ground (arith, remote_backoff_compute_lem 1 max_s rnd (omega arith), small)
  where
    small : nominal 1 max_s * (8 + rnd % 5) ≤ 9
    small = grind arith
