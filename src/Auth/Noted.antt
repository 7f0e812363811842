-- ===== src/Auth/Noted.antt =====
-- The failures of one peer that main/main.cpp noted within a time.
use mathlib.Core.Path.{subst}
use zhac_net_core.Base.{
  ℕ, suc, ◌+◌, ◌-◌, ◌%◌, ◌^◌, ◌≤◌, ◌<◌, ◌≡◌, refl, sym, ap, ◌∙◌, ◌≢◌, ◌⊎◌, inl, inr, true, List, [],
  ◌∷◌, some, arith, ◌==◌, ==_iff, Bool-cases, length, get_or, set, get_or-set_self, get_or-set_ne,
  find_index-some,
}
use zhac_net_core.Auth.{
  AuthFailBucket, Buckets, empty_bucket, is_of, auth_bucket_find, Turn, auth_record_failure,
  is_recent, count_recent, recent_of, auth_is_locked,
}
use zhac_net_core.Auth.Buckets.{
  IsRing, IsTable, IsRing-at, after, record_failure, find-at, not_both, owner_only,
}

count_all :
    (now : ℕ) (ts : List ℕ)
    → ((i : ℕ) → i < length ts → is_recent now (get_or ts i 0) ≡ true)
    → count_recent now ts ≡ length ts
unfolding count_recent
count_all now [] h = refl
count_all now (t ∷ ts) h =
    rw (h 0 (omega arith)) (omega (arith, count_all now ts (λ i k. h (suc i) (omega arith))))

-- The `k` stamps that were written last lie between two times.
abbrev HasNewest : (k lo hi : ℕ) → AuthFailBucket → Type 0
HasNewest k lo hi b =
    (i : ℕ) → i < 5 → (b.head + 4 - i) % 5 < k → (lo ≤ get_or b.ts i 0) × (get_or b.ts i 0 ≤ hi)

-- One more is written.
after-HasNewest :
    (k lo hi now : ℕ) (b : AuthFailBucket)
    → IsRing b
    → lo ≤ now
    → hi ≤ now
    → HasNewest k lo hi b
    → HasNewest (suc k) lo now (after now b)
after-HasNewest k lo hi now b r l h old i small young = elim (Bool-cases (b.head == i)) [
  | inl e ↦
      let same : get_or (set b.ts b.head now) i 0 ≡ now =
        ap (λ z. get_or (set b.ts b.head now) z 0) (sym ((==_iff b.head i).0 e))
        ∙ get_or-set_self b.ts b.head now 0 (omega (arith, r.size, r.place)) in
      (omega (arith, same, l), omega (arith, same))
  | inr e ↦
      let same : get_or (set b.ts b.head now) i 0 ≡ get_or b.ts i 0 =
        get_or-set_ne b.ts b.head i now 0 (λ q. ground arith) in
      let apart : b.head ≢ i = λ q. ground arith in
      let before = old i small (omega (arith, young, apart, small, r.place)) in
      (omega (arith, same, before.0), omega (arith, same, before.1, h))
]

-- The peer's bucket has them.
abbrev pub HasNoted : (k lo hi ip : ℕ) → Buckets → Type 0
HasNoted k lo hi ip bs =
    (k ≡ 0)
    ⊎ ((i : ℕ) × (i < 8)
        × (is_of ip (get_or bs i empty_bucket) ≡ true)
        × HasNewest k lo hi (get_or bs i empty_bucket))

pub noted-HasNoted :
    (k lo hi ip : ℕ) (t : Turn) (bs : Buckets)
    → IsTable bs
    → t.made ≡ true
    → t.taken ≡ true
    → lo ≤ t.now
    → hi ≤ t.now
    → 0 < t.now
    → HasNoted k lo hi ip bs
    → HasNoted (suc k) lo t.now ip (auth_record_failure t ip bs)
noted-HasNoted k lo hi ip t bs v made taken l h pos old =
    let (i, b, r) = record_failure t ip bs v made taken in
    let used : is_of ip (after t.now b) ≡ true = ground (arith, r.owner, pos) in
    let newest : HasNewest k lo hi b = elim old [
      | inl none_yet ↦ λ j small young. absurd (omega (arith, none_yet, young))
      | inr (j, small, hit, new) ↦ elim (Bool-cases (j == i)) [
        | inl e ↦
            let same : j ≡ i = (==_iff j i).0 e in
            let there : is_of ip (get_or bs i empty_bucket) ≡ true = rw (← same) hit in
            let kept : b ≡ get_or bs i empty_bucket = r.kept there in rw kept (rw (← same) new)
        | inr ne ↦ absurd (
            not_both (is_of ip (get_or bs j empty_bucket)) hit
              (r.nobody j small (λ q. ground arith)))
      ]
    ] in
    inr (
      i,
      r.small,
      ap (is_of ip) r.here ∙ used,
      rw r.here (after-HasNewest k lo hi t.now b r.ring l h newest),
    )

-- Five of them within a minute lock the peer out.
pub noted-locked :
    (lo hi ip : ℕ) (u : Turn) (bs : Buckets)
    → IsTable bs
    → u.made ≡ true
    → u.taken ≡ true
    → 0 < lo
    → hi ≤ u.now
    → u.now < lo + 60000
    → u.now < 2 ^ 32
    → HasNoted 5 lo hi ip bs
    → auth_is_locked u ip bs ≡ true
unfolding auth_is_locked
noted-locked lo hi ip u bs v made taken pos old soon word (inl none_yet) = absurd (omega arith)
noted-locked lo hi ip u bs v made taken pos old soon word (inr (i, small, hit, new)) =
    let b = get_or bs i empty_bucket in
    let e : auth_bucket_find bs ip ≡ some i = find-at bs ip i v small hit in
    let five : length b.ts ≡ 5 = (IsRing-at bs i v).size in
    let all : count_recent u.now b.ts ≡ 5 =
      count_all u.now b.ts
        (λ j k. let (p, q) = new j (omega arith) (omega arith) in ground (arith, p, q))
      ∙ five in
    let n : recent_of u.now bs (auth_bucket_find bs ip) ≡ 5 = ap (recent_of u.now bs) e ∙ all in
    rw (made, taken) (ground (arith, n))

pub later-HasNoted :
    (k lo hi now ip : ℕ) (bs : Buckets)
    → hi ≤ now
    → HasNoted k lo hi ip bs
    → HasNoted k lo now ip bs
later-HasNoted k lo hi now ip bs h (inl e) = inl e
later-HasNoted k lo hi now ip bs h (inr (i, small, hit, new)) =
    inr (i, small, hit, λ j s y. let (p, q) = new j s y in (p, omega (arith, q, h)))

-- A failure of another peer that leaves the peer's bucket where it is leaves it as it is.
pub foreign-HasNoted :
    (k lo last ip peer : ℕ) (t : Turn) (bs : Buckets)
    → IsTable bs
    → peer ≢ ip
    → auth_bucket_find (auth_record_failure t peer bs) ip ≡ auth_bucket_find bs ip
    → HasNoted k lo last ip bs
    → HasNoted k lo last ip (auth_record_failure t peer bs)
unfolding auth_record_failure
foreign-HasNoted k lo last ip peer t bs v ne spared (inl none_yet) = inl none_yet
foreign-HasNoted k lo last ip peer t bs v ne spared (inr (i, small, hit, new)) =
    elim (Bool-cases t.made) [
      | inr m ↦ rw m (inr (i, small, hit, new))
      | inl m ↦ elim (Bool-cases t.taken) [
        | inr q ↦ rw (m, q) (inr (i, small, hit, new))
        | inl q ↦ written m q
      ]
    ]
  where
    written : t.made ≡ true → t.taken ≡ true → HasNoted k lo last ip (auth_record_failure t peer bs)
    written m q =
        let bs' = auth_record_failure t peer bs in
        let (j, b, r) = record_failure t peer bs v m q in
        let f =
          find_index-some (is_of ip) 8 bs' empty_bucket i (spared ∙ find-at bs ip i v small hit) in
        elim (Bool-cases (i == j)) [
          | inl same ↦ absurd (
              ne (
                sym (
                  owner_only b peer t.now ip r.owner (
                    ap (is_of ip) (sym r.here)
                    ∙ ap (λ z. is_of ip (get_or bs' z empty_bucket)) (sym ((==_iff i j).0 same))
                    ∙ f.hit))))
          | inr apart ↦
              let kept = r.others i (λ h. ground arith) in
              inr (i, small, f.hit, subst (HasNewest k lo last) (sym kept) new)
        ]
