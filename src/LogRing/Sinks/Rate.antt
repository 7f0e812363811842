-- ===== src/LogRing/Sinks/Rate.antt =====
-- The rate limit of main/log_ring.cpp over the publishes of one second.
use zhac_net_core.Base.{
  ℕ, suc, ◌+◌, ◌*◌, ◌/◌, ◌%◌, ◌≡◌, refl, sym, ap, ◌∙◌, ◌≢◌, true, false, List, [], ◌∷◌, ltb, ◌==◌,
  ==_ne, ==_self, if◌then◌else◌, arith, length, min, All,
}
use zhac_net_core.LogRing.Sinks.{Sinks, mqtt_rate_allow, u32}

-- How many of the calls at these times are allowed.
unfoldable pub allowed_calls : Sinks → List ℕ → ℕ
allowed_calls s [] = 0
allowed_calls s (now ∷ nows) =
    (if (mqtt_rate_allow s now).1 then 1 else 0) + allowed_calls (mqtt_rate_allow s now).0 nows

-- How many of the first `k` numbers are below 50 modulo 256.
abbrev pub low_bytes : ℕ → ℕ
low_bytes k = 50 * (k / 256) + min 50 (k % 256)

abbrev pub IsIn : ℕ → ℕ → Type 0
IsIn second now = u32 (now / 1000000) ≡ second

low_bytes-suc : (k : ℕ) → low_bytes (suc k) ≡ low_bytes k + (if ltb (k % 256) 50 then 1 else 0)
low_bytes-suc k = ground arith

allow_same :
    (s : Sinks) (now second : ℕ)
    → IsIn second now
    → s.rate_epoch ≡ second
    → mqtt_rate_allow s now
      ≡ (record s { rate_count = (s.rate_count + 1) % 256 }, ltb s.rate_count 50)
unfolding mqtt_rate_allow
allow_same s now second here same =
    let test : (s.rate_epoch == u32 (now / 1000000)) ≡ true =
      ap (λ z. s.rate_epoch == z) (here ∙ sym same) ∙ ==_self s.rate_epoch in
    rw test refl

within_second :
    (s : Sinks) (nows : List ℕ) (second k : ℕ)
    → s.rate_epoch ≡ second
    → s.rate_count ≡ k % 256
    → All (IsIn second) nows
    → allowed_calls s nows + low_bytes k ≡ low_bytes (k + length nows)
unfolding allowed_calls
within_second s [] second k same count h = let e : k + 0 ≡ k = omega arith in rw e (omega arith)
within_second s (now ∷ nows) second k same count h =
    let one = allow_same s now second h.0 same in
    let ih =
      within_second (record s { rate_count = (s.rate_count + 1) % 256 }) nows second (suc k) same
        (omega (arith, count)) h.1 in
    let bit = ap (λ (z : ℕ). if ltb z 50 then (let one : ℕ = 1 in one) else 0) count in
    let e : k + suc (length nows) ≡ suc k + length nows = omega arith in
    rw (one, e) (omega (arith, ih, low_bytes-suc k, bit))

-- In a second of its own, of however many calls, the first 50 of every 256 are allowed: the counter is
-- a byte, and starts anew when it wraps.
pub allowed_calls_lem :
    (s : Sinks) (now : ℕ) (nows : List ℕ) (second : ℕ)
    → s.rate_epoch ≢ second
    → All (IsIn second) (now ∷ nows)
    → allowed_calls s (now ∷ nows)
      ≡ 50 * (suc (length nows) / 256) + min 50 (suc (length nows) % 256)
unfolding allowed_calls mqtt_rate_allow
allowed_calls_lem s now nows second new h =
    let test : (s.rate_epoch == u32 (now / 1000000)) ≡ false =
      ==_ne s.rate_epoch _ (λ e. new (e ∙ h.0)) in
    let rest =
      within_second (record s { rate_epoch = u32 (now / 1000000); rate_count = 1 }) nows second 1
        h.0 refl h.1 in
    rw test (omega (arith, rest))
