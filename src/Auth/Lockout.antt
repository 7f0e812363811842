-- ===== src/Auth/Lockout.antt =====
-- How many keys of one peer are compared by main/main.cpp, and what its failures do to the others.
use zhac_net_core.Base.{
  ℕ, ◌≡◌, refl, sym, ap, ◌∙◌, ◌≢◌, ◌⊎◌, inl, inr, Bool, true, false, not, none, some, arith, leb,
  ◌==◌, ==_iff, if◌then◌else◌, Bool-cases, Option-cases, get_or, find_index-some,
}
use zhac_net_core.Auth.{
  Buckets, empty_bucket, is_of, auth_bucket_find, Turn, auth_record_failure, count_recent,
  recent_of, auth_is_locked,
}
use zhac_net_core.Auth.Buckets.{IsTable, record_failure, find-at, owner_only}

-- A lock needs a bucket.
locked-found :
    (u : Turn) (g : ℕ) (bs : Buckets)
    → auth_is_locked u g bs ≡ true
    → (j : ℕ) × (auth_bucket_find bs g ≡ some j)
unfolding auth_is_locked
locked-found u g bs h = elim (Option-cases (auth_bucket_find bs g)) [
  | inl e ↦ absurd (by_turn u.made u.taken e h)
  | inr f ↦ f
]
  where
    by_turn :
        (made taken : Bool)
        → auth_bucket_find bs g ≡ none
        → (if not made
            then false
            else if not taken
            then false
            else leb 5 (recent_of u.now bs (auth_bucket_find bs g)))
          ≡ true
        → ⊥
    by_turn false taken e k = cc
    by_turn true false e k = cc
    by_turn true true e k =
        let zero_recent : recent_of u.now bs (auth_bucket_find bs g) ≡ 0 =
          ap (recent_of u.now bs) e in
        ground (arith, k, zero_recent)

locked-same :
    (u : Turn) (g j : ℕ) (bs bs' : Buckets)
    → auth_bucket_find bs g ≡ some j
    → auth_bucket_find bs' g ≡ some j
    → get_or bs' j empty_bucket ≡ get_or bs j empty_bucket
    → auth_is_locked u g bs' ≡ auth_is_locked u g bs
unfolding auth_is_locked
locked-same u g j bs bs' e e' same =
    let r : recent_of u.now bs' (auth_bucket_find bs' g)
        ≡ recent_of u.now bs (auth_bucket_find bs g) =
      ap (recent_of u.now bs') e'
      ∙ ap (λ b. count_recent u.now b.ts) same
      ∙ sym (ap (recent_of u.now bs) e) in
    ap (λ n. if not u.made then false else if not u.taken then false else leb 5 n) r

-- A failure of one peer never locks another one out.
pub auth_record_failure_isolated :
    (t u : Turn) (ip g : ℕ) (bs : Buckets)
    → IsTable bs
    → g ≢ ip
    → auth_is_locked u g (auth_record_failure t ip bs) ≡ true
    → auth_is_locked u g bs ≡ true
unfolding auth_record_failure
auth_record_failure_isolated t u ip g bs v ne locked =
    by_turn (Bool-cases t.made) (Bool-cases t.taken)
  where
    by_turn :
        (t.made ≡ true) ⊎ (t.made ≡ false)
        → (t.taken ≡ true) ⊎ (t.taken ≡ false)
        → auth_is_locked u g bs ≡ true
    by_turn (inr m) taken =
        let same : auth_record_failure t ip bs ≡ bs = rw (m, auth_record_failure) refl in
        ap (auth_is_locked u g) (sym same) ∙ locked
    by_turn (inl m) (inr k) =
        let same : auth_record_failure t ip bs ≡ bs = rw (m, k, auth_record_failure) refl in
        ap (auth_is_locked u g) (sym same) ∙ locked
    by_turn (inl m) (inl k) =
        let bs' = auth_record_failure t ip bs in
        let (i, b, r) = record_failure t ip bs v m k in
        let (j, e) = locked-found u g bs' locked in
        let f = find_index-some (is_of g) 8 bs' empty_bucket j e in
        elim (Bool-cases (j == i)) [
          | inl p ↦ absurd (
              ne (
                owner_only b ip t.now g r.owner (
                  ap (is_of g) (sym r.here)
                  ∙ ap (λ z. is_of g (get_or bs' z empty_bucket)) (sym ((==_iff j i).0 p))
                  ∙ f.hit)))
          | inr q ↦
              let same = r.others j (λ h. ground arith) in
              let old = find-at bs g j v f.used (ap (is_of g) (sym same) ∙ f.hit) in
              sym (locked-same u g j bs bs' old e same) ∙ locked
        ]
