-- ===== src/Groups/Slots.antt =====
-- The slots and the keys of main/groups_store.cpp.
use zhac_net_core.Base.{
  ℕ, zero, suc, ◌+◌, ◌/◌, ◌%◌, ◌≤◌, ◌<◌, ◌≡◌, refl, ap, ◌≢◌, inl, inr, Bool, true, false, List,
  Bool-cases, get_or, arith, ◌==◌, ==_iff,
}
use zhac_net_core.Json.Writer.{hex_digit}
use zhac_net_core.Groups.{free_slot, grp_key}

-- What the search for a free slot among `n` slots from `i` on has found.
pub data IsFree (bmp : List Bool) (i n id : ℕ) : Type 0 where
  full : id ≡ 0 → ((j : ℕ) → i ≤ j → j < i + n → get_or bmp j false ≡ true) → IsFree bmp i n id
  at :
      (k : ℕ)
      → id ≡ suc k
      → i ≤ k
      → k < i + n
      → get_or bmp k false ≡ false
      → ((j : ℕ) → i ≤ j → j < k → get_or bmp j false ≡ true)
      → IsFree bmp i n id

pub free_slot-IsFree : (bmp : List Bool) (n i : ℕ) → IsFree bmp i n (free_slot bmp n i)
unfolding free_slot
free_slot-IsFree bmp zero i = full refl (λ j h k. absurd (omega arith))
free_slot-IsFree bmp (suc n) i = elim (Bool-cases (get_or bmp i false)) [
  | inl used ↦ rw used (later (free_slot-IsFree bmp n (suc i)) used)
  | inr unused ↦
      rw unused (at i refl (omega arith) (omega arith) unused (λ j h k. absurd (omega arith)))
]
  where
    first :
        (j : ℕ)
        → i ≤ j
        → (suc i ≤ j → get_or bmp j false ≡ true)
        → get_or bmp i false ≡ true
        → get_or bmp j false ≡ true
    first j h rest used = elim (Bool-cases (j == i)) [
      | inl e ↦ rw ((==_iff j i).0 e) used
      | inr e ↦ rest (ground arith)
    ]

    later :
        IsFree bmp (suc i) n (free_slot bmp n (suc i))
        → get_or bmp i false ≡ true
        → IsFree bmp i (suc n) (free_slot bmp n (suc i))
    later (full e all) used = full e (λ j h k. first j h (λ m. all j m (omega arith)) used)
    later (at k e low high free all) used =
        at k e (omega arith) (omega arith) free (λ j h m. first j h (λ q. all j q m) used)

hex_digit_injective : (a b : ℕ) → a < 16 → b < 16 → hex_digit a ≡ hex_digit b → a ≡ b
hex_digit_injective a b h k e = ground arith

-- Different groups have different keys.
pub grp_key-ne : (a b : ℕ) → a ≤ 32 → b ≤ 32 → a ≢ b → grp_key a ≢ grp_key b
unfolding grp_key
grp_key-ne a b ha hb ne same =
    let tens : a / 16 % 16 ≡ b / 16 % 16 =
      hex_digit_injective _ _ (omega arith) (omega arith) (ap (λ z. get_or z 3 0) same) in
    let ones : a % 16 ≡ b % 16 =
      hex_digit_injective _ _ (omega arith) (omega arith) (ap (λ z. get_or z 4 0) same) in
    omega arith
