-- ===== src/Base/Bits.antt =====
-- When an or, and an exclusive or, of two numbers is 0.
use Prim.Native.Nat.{
  ℕ, zero, suc, ◌/◌, ◌%◌, ◌≤◌, max, bit_or, bit_xor, digits, differ, bit_or-bitwise,
  bit_xor-bitwise,
}
use mathlib.Core.Path.{◌≡◌, refl, sym, ap, ◌∙◌}
use mathlib.Core.Logic.{◌↔◌}
use native.Mathlib.Omega.{arith}

differ_zero : (x y : ℕ) → differ x y ≡ 0 → x ≡ y
differ_zero zero y e = sym e
differ_zero (suc x) zero e = e
differ_zero (suc x) (suc y) e = ap suc (differ_zero x y e)

differ_self : (x : ℕ) → differ x x ≡ 0
differ_self zero = refl
differ_self (suc x) = differ_self x

max_zero : (x y : ℕ) → max x y ≡ 0 → (x ≡ 0) × (y ≡ 0)
max_zero x y e = (omega (arith, e), omega (arith, e))

or_digits : (n a b : ℕ) → a ≤ n → digits (λ z. z) max n a b ≡ 0 → (a ≡ 0) × (b ≡ 0)
or_digits zero zero b h e = (refl, e)
or_digits zero (suc a) b h e = absurd (omega arith)
or_digits (suc n) zero b h e = (refl, e)
or_digits (suc n) (suc a) b h e =
    let (p, q) = or_digits n (suc a / 2) (b / 2) (omega arith) (omega (arith, e)) in
    let (r, s) = max_zero (suc a % 2) (b % 2) (omega (arith, e)) in
    (omega (arith, p, r), omega (arith, q, s))

xor_digits : (n a b : ℕ) → a ≤ n → digits (λ z. z) differ n a b ≡ 0 → a ≡ b
xor_digits zero zero b h e = sym e
xor_digits zero (suc a) b h e = absurd (omega arith)
xor_digits (suc n) zero b h e = sym e
xor_digits (suc n) (suc a) b h e =
    let p = xor_digits n (suc a / 2) (b / 2) (omega arith) (omega (arith, e)) in
    let q = differ_zero (suc a % 2) (b % 2) (omega (arith, e)) in omega (arith, p, q)

self_digits : (n a : ℕ) → a ≤ n → digits (λ z. z) differ n a a ≡ 0
self_digits zero zero h = refl
self_digits zero (suc a) h = absurd (omega arith)
self_digits (suc n) zero h = refl
self_digits (suc n) (suc a) h =
    omega (arith, self_digits n (suc a / 2) (omega arith), differ_self (suc a % 2))

pub bit_or_zero : (a b : ℕ) → bit_or a b ≡ 0 → (a ≡ 0) × (b ≡ 0)
bit_or_zero a b e = or_digits a a b (omega arith) (sym (bit_or-bitwise a b) ∙ e)

pub bit_xor_zero : (a b : ℕ) → (bit_xor a b ≡ 0) ↔ (a ≡ b)
bit_xor_zero a b = (
  (λ e. xor_digits a a b (omega arith) (sym (bit_xor-bitwise a b) ∙ e)),
  (λ e. ap (bit_xor a) (sym e) ∙ bit_xor-bitwise a a ∙ self_digits a a (omega arith)),
)
