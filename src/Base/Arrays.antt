-- ===== src/Base/Arrays.antt =====
-- Arrays with a count of used entries: the search loop that ends at the first match.
use Prim.Native.Nat.{ℕ, zero, suc, ◌<◌}
use mathlib.Core.Path.{◌≡◌, refl}
use mathlib.Core.Logic.{inl, inr}
use mathlib.Core.Bool.{Bool, true, false}
use mathlib.Core.List.{List, [], ◌∷◌}
use mathlib.Core.Option.{Option, none, some}
use native.Mathlib.Omega.{arith}
use zhac_net_core.Base.Tests.{if◌then◌else◌, Bool-cases, Option-cases}
use zhac_net_core.Base.Lists.{length, get_or}

module _ {ℓ} {A : Type ℓ} where
  -- `for (i = 0; i < n; i++) if (p(xs[i])) return i;`
  unfoldable pub find_index : (A → Bool) → ℕ → List A → Option ℕ
  find_index p zero xs = none
  find_index p (suc n) [] = none
  find_index p (suc n) (x ∷ xs) =
      let later = find_index p n xs in
      if p x then some 0 else elim later [ none ↦ none | some i ↦ some (suc i) ]

  -- What an answer of the search says.
  pub record Found (p : A → Bool) (n : ℕ) (xs : List A) (d : A) (i : ℕ) : Type ℓ where
    pub used : i < n
    pub inside : i < length xs
    pub hit : p (get_or xs i d) ≡ true
    pub first : (j : ℕ) → j < i → p (get_or xs j d) ≡ false

  cons-Found :
      (p : A → Bool) (n : ℕ) (x : A) (xs : List A) (d : A) (i : ℕ)
      → p x ≡ false
      → Found p n xs d i
      → Found p (suc n) (x ∷ xs) d (suc i)
  cons-Found p n x xs d i miss f = record {
    used = omega (arith, f.used);
    inside = omega (arith, f.inside);
    hit = f.hit;
    first = elim [ zero ↦ λ h. miss | suc j ↦ λ h. f.first j (omega arith) ];
  }

  pub find_index-some :
      (p : A → Bool) (n : ℕ) (xs : List A) (d : A) (i : ℕ)
      → find_index p n xs ≡ some i
      → Found p n xs d i
  unfolding find_index
  find_index-some p zero xs d i h = cc
  find_index-some p (suc n) [] d i h = cc
  find_index-some p (suc n) (x ∷ xs) d i h = elim (Bool-cases (p x)) [
    | inl hit ↦
        let e : zero ≡ i = ground arith in
        rw (← e) (record {
          used = omega arith;
          inside = omega arith;
          hit = hit;
          first = λ j below. elim below [ ];
        })
    | inr miss ↦ elim (Option-cases (find_index p n xs)) [
      | inl e ↦ absurd (ground arith)
      | inr (k, e) ↦
          let shifted : suc k ≡ i = ground arith in
          rw (← shifted) (cons-Found p n x xs d k miss (find_index-some p n xs d k e))
    ]
  ]

  pub find_index-none :
      (p : A → Bool) (n : ℕ) (xs : List A) (d : A)
      → find_index p n xs ≡ none
      → (j : ℕ) → j < n
      → j < length xs
      → p (get_or xs j d) ≡ false
  unfolding find_index
  find_index-none p zero xs d h j small inside = elim small [ ]
  find_index-none p (suc n) [] d h j small inside = elim inside [ ]
  find_index-none p (suc n) (x ∷ xs) d h zero small inside = ground arith
  find_index-none p (suc n) (x ∷ xs) d h (suc j) small inside =
      find_index-none p n xs d (ground arith) j (omega arith) (omega arith)

  -- A hit is enough for an answer.
  pub find_index-hit :
      (p : A → Bool) (n : ℕ) (xs : List A) (d : A) (j : ℕ)
      → j < n
      → j < length xs
      → p (get_or xs j d) ≡ true
      → (i : ℕ) × (find_index p n xs ≡ some i) × Found p n xs d i
  find_index-hit p n xs d j small inside hit = answer (find_index p n xs) refl
    where
      answer :
          (o : Option ℕ)
          → find_index p n xs ≡ o
          → (i : ℕ) × (find_index p n xs ≡ some i) × Found p n xs d i
      answer none e =
          let miss : p (get_or xs j d) ≡ false = find_index-none p n xs d e j small inside in cc
      answer (some i) e = (i, e, find_index-some p n xs d i e)
