-- ===== src/Base/Keyed.antt =====
-- Arrays with a count whose used entries have distinct keys: a map, and what one write does to it.
use zhac_net_core.Base.Tests.{if◌then◌else◌, Bool-cases, Option-cases, ◌==◌, ==_iff, ==_self, ==_ne}
use Prim.Native.Nat.{ℕ, suc, ◌-◌, ◌≤◌, ◌<◌}
use mathlib.Core.Path.{◌≡◌, refl, sym, ap, ◌∙◌}
use mathlib.Core.Logic.{inl, inr, ◌⊎◌, ◌≢◌}
use mathlib.Core.Bool.{false}
use mathlib.Core.List.{List}
use mathlib.Core.Option.{Option, none, some}
use native.Mathlib.Omega.{arith}
use zhac_net_core.Base.Lists.{length, get_or, set, length-set, get_or-set_self, get_or-set_ne}
use zhac_net_core.Base.Arrays.{find_index, find_index-some, find_index-none}

module _ {ℓ} {A : Type ℓ} (key : A → ℕ) (d : A) where
  pub record IsKeyed (n : ℕ) (xs : List A) : Type 0 where
    pub bounded : n ≤ length xs
    pub distinct : (i j : ℕ) → i < n → j < n → key (get_or xs i d) ≡ key (get_or xs j d) → i ≡ j

  -- The used entry with a key.
  unfoldable pub lookup : ℕ → List A → ℕ → Option A
  lookup n xs g = elim (find_index (λ x. key x == g) n xs) [
    | none ↦ none
    | some i ↦ some (get_or xs i d)
  ]

  pub data Place (n : ℕ) (xs : List A) (g : ℕ) : Type ℓ where
    present :
        (i : ℕ)
        → find_index (λ x. key x == g) n xs ≡ some i
        → i < n
        → key (get_or xs i d) ≡ g
        → lookup n xs g ≡ some (get_or xs i d)
        → Place n xs g
    absent :
        find_index (λ x. key x == g) n xs ≡ none
        → ((j : ℕ) → j < n → key (get_or xs j d) ≢ g)
        → lookup n xs g ≡ none
        → Place n xs g

  pub place : (n : ℕ) (xs : List A) (g : ℕ) → IsKeyed n xs → Place n xs g
  unfolding lookup
  place n xs g v = elim (Option-cases (find_index (λ x. key x == g) n xs)) [
    | inl e ↦
        absent e
          (λ j below same.
            let miss =
              find_index-none (λ x. key x == g) n xs d e j below (omega (arith, v.bounded)) in
            ground (arith, same))
          (rw (e, lookup) refl)
    | inr (i, e) ↦
        let f = find_index-some (λ x. key x == g) n xs d i e in
        present i e f.used ((==_iff _ _).0 f.hit) (rw (e, lookup) refl)
  ]

  -- The entry at any used index decides.
  pub lookup-at :
      (n : ℕ) (xs : List A) (g i : ℕ)
      → IsKeyed n xs
      → i < n
      → key (get_or xs i d) ≡ g
      → lookup n xs g ≡ some (get_or xs i d)
  lookup-at n xs g i v below here = at (place n xs g v)
    where
      at : Place n xs g → lookup n xs g ≡ some (get_or xs i d)
      at (present k e used same st) =
          let eq : k ≡ i = v.distinct k i used below (same ∙ sym here) in rw (← eq) st
      at (absent e nowhere st) = absurd (nowhere i below here)

  pub lookup_nowhere :
      (n : ℕ) (xs : List A) (g : ℕ)
      → IsKeyed n xs
      → ((j : ℕ) → j < n → key (get_or xs j d) ≢ g)
      → lookup n xs g ≡ none
  lookup_nowhere n xs g v nowhere = at (place n xs g v)
    where
      at : Place n xs g → lookup n xs g ≡ none
      at (present k e used same st) = absurd (nowhere k used same)
      at (absent e nobody st) = st

  -- An array with the same keys in the used places, apart from a map of places `origin`.
  pub moved-IsKeyed :
      (n m : ℕ) (xs ys : List A) (origin : ℕ → ℕ)
      → IsKeyed n xs
      → m ≤ length ys
      → ((j : ℕ) → j < m → origin j < n)
      → ((j k : ℕ) → j < m → k < m → origin j ≡ origin k → j ≡ k)
      → ((j : ℕ) → j < m → key (get_or ys j d) ≡ key (get_or xs (origin j) d))
      → IsKeyed m ys
  moved-IsKeyed n m xs ys origin v room used injective same = record {
    bounded = room;
    distinct = λ j k hj hk e. injective j k hj hk (
        v.distinct (origin j) (origin k) (used j hj) (used k hk) (sym (same j hj) ∙ e ∙ same k hk));
  }

  -- A used entry overwritten by one with the same key.
  pub lookup-set :
      (n : ℕ) (xs : List A) (i : ℕ) (x : A)
      → IsKeyed n xs
      → i < n
      → key x ≡ key (get_or xs i d)
      → IsKeyed n (set xs i x)
        × ((g : ℕ)
            → lookup n (set xs i x) g
              ≡ (if g == key (get_or xs i d) then some x else lookup n xs g))
  lookup-set n xs i x v below same_key = (valid, λ g. at g (place n xs g v))
    where
      here : get_or (set xs i x) i d ≡ x
      here = get_or-set_self xs i x d (omega (arith, v.bounded))

      keys : (j : ℕ) → key (get_or (set xs i x) j d) ≡ key (get_or xs j d)
      keys j = elim (Bool-cases (j == i)) [
        | inl e ↦ rw ((==_iff j i).0 e) (ap key here ∙ same_key)
        | inr e ↦ ap key (get_or-set_ne xs i j x d (λ h. ground arith))
      ]

      valid : IsKeyed n (set xs i x)
      valid =
          moved-IsKeyed n n xs (set xs i x) (λ j. j) v (omega (arith, length-set xs i x, v.bounded))
            (λ j h. h) (λ j k hj hk e. e) (λ j h. keys j)

      at :
          (g : ℕ)
          → Place n xs g
          → lookup n (set xs i x) g ≡ (if g == key (get_or xs i d) then some x else lookup n xs g)
      at g (absent e nowhere st) =
          rw (==_ne g _ (λ h. nowhere i below (sym h)), st)
            (lookup_nowhere n (set xs i x) g valid (λ j h s. nowhere j h (sym (keys j) ∙ s)))
      at g (present k e used same st) = elim (Bool-cases (k == i)) [
        | inl eq ↦
            let k-i : k ≡ i = (==_iff k i).0 eq in
            let owner : key (get_or xs i d) ≡ g = ap (λ z. key (get_or xs z d)) (sym k-i) ∙ same in
            rw (owner, ==_self g)
              (lookup-at n (set xs i x) g i valid below (keys i ∙ owner) ∙ ap some here)
        | inr ne ↦
            let apart : i ≢ k = λ h. ground arith in
            rw (==_ne g _ (λ h. apart (v.distinct i k below used (sym h ∙ sym same))), st)
              (lookup-at n (set xs i x) g k valid used (keys k ∙ same)
                ∙ ap some (get_or-set_ne xs i k x d apart))
      ]

  -- An entry with a new key appended.
  pub lookup-push :
      (n : ℕ) (xs : List A) (x : A)
      → IsKeyed n xs
      → n < length xs
      → ((j : ℕ) → j < n → key (get_or xs j d) ≢ key x)
      → IsKeyed (suc n) (set xs n x)
        × ((g : ℕ) → lookup (suc n) (set xs n x) g ≡ (if g == key x then some x else lookup n xs g))
  lookup-push n xs x v space fresh = (valid, whole)
    where
      new : get_or (set xs n x) n d ≡ x
      new = get_or-set_self xs n x d space

      old : (j : ℕ) → j < n → get_or (set xs n x) j d ≡ get_or xs j d
      old j h = get_or-set_ne xs n j x d (λ e. omega arith)

      entry :
          (j : ℕ)
          → j < suc n
          → ((j ≡ n) × (get_or (set xs n x) j d ≡ x))
            ⊎ ((j < n) × (get_or (set xs n x) j d ≡ get_or xs j d))
      entry j h = elim (Bool-cases (j == n)) [
        | inl e ↦
            let at_end : j ≡ n = (==_iff j n).0 e in
            inl (at_end, ap (λ k. get_or (set xs n x) k d) at_end ∙ new)
        | inr e ↦ let below : j < n = ground arith in inr (below, old j below)
      ]

      apart :
          (i j : ℕ)
          → key (get_or (set xs n x) i d) ≡ key (get_or (set xs n x) j d)
          → ((i ≡ n) × (get_or (set xs n x) i d ≡ x))
            ⊎ ((i < n) × (get_or (set xs n x) i d ≡ get_or xs i d))
          → ((j ≡ n) × (get_or (set xs n x) j d ≡ x))
            ⊎ ((j < n) × (get_or (set xs n x) j d ≡ get_or xs j d))
          → i ≡ j
      apart i j e (inl (p, _)) (inl (q, _)) = p ∙ sym q
      apart i j e (inl (_, p)) (inr (h, q)) = absurd (fresh j h (sym (ap key q) ∙ sym e ∙ ap key p))
      apart i j e (inr (h, p)) (inl (_, q)) = absurd (fresh i h (sym (ap key p) ∙ e ∙ ap key q))
      apart i j e (inr (h, p)) (inr (k, q)) = v.distinct i j h k (sym (ap key p) ∙ e ∙ ap key q)

      valid : IsKeyed (suc n) (set xs n x)
      valid = record {
        bounded = omega (arith, length-set xs n x);
        distinct = λ i j hi hj e. apart i j e (entry i hi) (entry j hj);
      }

      miss :
          (g j : ℕ)
          → (g == key x) ≡ false
          → ((k : ℕ) → k < n → key (get_or xs k d) ≢ g)
          → key (get_or (set xs n x) j d) ≡ g
          → ((j ≡ n) × (get_or (set xs n x) j d ≡ x))
            ⊎ ((j < n) × (get_or (set xs n x) j d ≡ get_or xs j d))
          → ⊥
      miss g j other nowhere s (inl (_, p)) = let eq : g ≡ key x = sym s ∙ ap key p in ground arith
      miss g j other nowhere s (inr (h, p)) = nowhere j h (sym (ap key p) ∙ s)

      at :
          (g : ℕ)
          → (g == key x) ≡ false
          → Place n xs g
          → lookup (suc n) (set xs n x) g ≡ lookup n xs g
      at g other (present k e used same st) = rw st (
          lookup-at (suc n) (set xs n x) g k valid (omega arith) (ap key (old k used) ∙ same)
          ∙ ap some (old k used))
      at g other (absent e nowhere st) = rw st (
          lookup_nowhere (suc n) (set xs n x) g valid
            (λ j h s. miss g j other nowhere s (entry j h)))

      whole :
          (g : ℕ) → lookup (suc n) (set xs n x) g ≡ (if g == key x then some x else lookup n xs g)
      whole g = elim (Bool-cases (g == key x)) [
        | inl hit ↦ rw hit (
            lookup-at (suc n) (set xs n x) g n valid (omega arith)
              (ap key new ∙ sym ((==_iff g (key x)).0 hit))
            ∙ ap some new)
        | inr other ↦ rw other (at g other (place n xs g v))
      ]

  -- Where an entry of the shorter array was before.
  abbrev origin : ℕ → ℕ → ℕ → ℕ
  origin n i j = if j == i then n - 1 else j

  abbrev pub overwritten : ℕ → List A → ℕ → List A
  overwritten n xs i = set xs i (get_or xs (n - 1) d)

  -- The entry at index `i` overwritten by the last one, and the array one shorter.
  pub lookup-drop :
      (n : ℕ) (xs : List A) (i : ℕ)
      → IsKeyed n xs
      → i < n
      → let ys = overwritten n xs i in
        IsKeyed (n - 1) ys
        × ((g : ℕ)
            → lookup (n - 1) ys g ≡ (if g == key (get_or xs i d) then none else lookup n xs g))
  lookup-drop n xs i v below = (valid, whole)
    where
      from : (j : ℕ) → get_or (overwritten n xs i) j d ≡ get_or xs (origin n i j) d
      from j = elim (Bool-cases (j == i)) [
        | inl here ↦
            rw (here, (==_iff j i).0 here)
              (get_or-set_self xs i (get_or xs (n - 1) d) d (omega (arith, v.bounded)))
        | inr other ↦ rw other (get_or-set_ne xs i j (get_or xs (n - 1) d) d (λ e. ground arith))
      ]

      used_before : (j : ℕ) → j < n - 1 → (origin n i j < n) × (origin n i j ≢ i)
      used_before j h = ground arith

      onto : (k : ℕ) → k < n → k ≢ i → (j : ℕ) × (j < n - 1) × (origin n i j ≡ k)
      onto k h ne = elim (Bool-cases (k == n - 1)) [
        | inl end ↦ (i, ground arith, ground arith)
        | inr inner ↦ (k, ground arith, ground arith)
      ]

      valid : IsKeyed (n - 1) (overwritten n xs i)
      valid =
          moved-IsKeyed n (n - 1) xs (overwritten n xs i) (origin n i) v
            (omega (arith, length-set xs i (get_or xs (n - 1) d), v.bounded))
            (λ j h. (used_before j h).0) (λ j k hj hk e. ground arith) (λ j h. ap key (from j))

      at :
          (g : ℕ)
          → (g == key (get_or xs i d)) ≡ false
          → Place n xs g
          → lookup (n - 1) (overwritten n xs i) g ≡ lookup n xs g
      at g other (present k e used same st) =
          let apart : k ≢ i = λ h.
            let eq : g ≡ key (get_or xs i d) = sym same ∙ ap (λ z. key (get_or xs z d)) h in
            ground arith in
          let (j, h, came) = onto k used apart in
          rw st (
            lookup-at (n - 1) (overwritten n xs i) g j valid h
              (ap key (from j) ∙ ap (λ z. key (get_or xs z d)) came ∙ same)
            ∙ ap some (from j ∙ ap (λ z. get_or xs z d) came))
      at g other (absent e nowhere st) = rw st (
          lookup_nowhere (n - 1) (overwritten n xs i) g valid
            (λ j h s. nowhere (origin n i j) (used_before j h).0 (sym (ap key (from j)) ∙ s)))

      whole :
          (g : ℕ)
          → lookup (n - 1) (overwritten n xs i) g
            ≡ (if g == key (get_or xs i d) then none else lookup n xs g)
      whole g = elim (Bool-cases (g == key (get_or xs i d))) [
        | inl here ↦ rw here (
            lookup_nowhere (n - 1) (overwritten n xs i) g valid (λ j h s. (used_before j h).1 (
              v.distinct (origin n i j) i (used_before j h).0 below
                (sym (ap key (from j)) ∙ s ∙ (==_iff g _).0 here))))
        | inr other ↦ rw other (at g other (place n xs g v))
      ]
