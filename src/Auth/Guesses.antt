-- ===== src/Auth/Guesses.antt =====
-- How many wrong keys of one peer main/main.cpp compares within a minute.
use mathlib.Core.Path.{subst}
use zhac_net_core.Base.{
  ℕ, suc, ◌+◌, ◌^◌, ◌≤◌, ◌<◌, ◌≡◌, refl, sym, ap, ◌∙◌, ◌≢◌, ◌⊎◌, inl, inr, true, false, List, [],
  ◌∷◌, Option, none, some, arith, ◌==◌, ==_iff, if◌then◌else◌, Bool-cases, length,
}
use zhac_net_core.Auth.{
  Bytes, auth_bucket_find, Turn, auth_record_failure, auth_is_locked, Auth, failed, judged,
  token_matches_ct, check_auth,
}
use zhac_net_core.Auth.Buckets.{IsTable, auth_record_failure-IsTable, not_both}
use zhac_net_core.Auth.Noted.{
  HasNoted, noted-HasNoted, noted-locked, later-HasNoted, foreign-HasNoted,
}

pub record Try : Type 0 where
  pub look : Turn
  pub note : Turn
  pub key : Option Bytes

-- A try of the peer that is meant, or one of another peer.
pub data Attempt : Type 0 where
  own : Try → Attempt
  foreign : (peer : ℕ) → Try → Attempt

-- The wrong keys of the peer that are compared: those that are refused while it is not locked out.
unfoldable pub wrong_checks : Auth → (ip : ℕ) → List Attempt → ℕ
wrong_checks a ip [] = 0
wrong_checks a ip (foreign peer t ∷ ts) =
    wrong_checks (check_auth a t.look t.note peer t.key).0 ip ts
wrong_checks a ip (own t ∷ ts) =
    let (a', ok) = check_auth a t.look t.note ip t.key in
    let rest = wrong_checks a' ip ts in
    if ok then rest else if auth_is_locked t.look ip a.buckets then rest else 1 + rest

-- The mutex is always taken, and the clock does not run back.
pub record IsOrderly (last end : ℕ) (t : Try) : Type 0 where
  pub look_made : t.look.made ≡ true
  pub look_taken : t.look.taken ≡ true
  pub note_made : t.note.made ≡ true
  pub note_taken : t.note.taken ≡ true
  pub begins : last ≤ t.look.now
  pub goes_on : t.look.now ≤ t.note.now
  pub ends : t.note.now ≤ end

abbrev pub AreOrderly : (last end : ℕ) → List Attempt → Type 0
AreOrderly last end [] = Unit
AreOrderly last end (foreign peer t ∷ ts) = AreOrderly last end ts
AreOrderly last end (own t ∷ ts) = IsOrderly last end t × AreOrderly t.note.now end ts

-- The attempts of others are of other peers, and no failure of theirs takes the peer's bucket.
abbrev pub AreSpared : Auth → (ip : ℕ) → List Attempt → Type 0
AreSpared a ip [] = Unit
AreSpared a ip (own t ∷ ts) = AreSpared (check_auth a t.look t.note ip t.key).0 ip ts
AreSpared a ip (foreign peer t ∷ ts) =
    let a' = (check_auth a t.look t.note peer t.key).0 in
    (peer ≢ ip)
    × (auth_bucket_find a'.buckets ip ≡ auth_bucket_find a.buckets ip)
    × AreSpared a' ip ts

pub check-locked :
    (a : Auth) (look note : Turn) (ip : ℕ) (key : Option Bytes)
    → a.auth_enabled ≡ true
    → auth_is_locked look ip a.buckets ≡ true
    → check_auth a look note ip key ≡ (a, false)
unfolding check_auth
check-locked a look note ip key on locked = rw (on, locked) refl

pub check-open :
    (a : Auth) (look note : Turn) (ip : ℕ) (key : Option Bytes)
    → a.auth_enabled ≡ true
    → auth_is_locked look ip a.buckets ≡ false
    → check_auth a look note ip key ≡ judged a note ip key
unfolding check_auth
check-open a look note ip key on free = rw (on, free) refl

pub judged-cases :
    (a : Auth) (note : Turn) (ip : ℕ) (key : Option Bytes)
    → (judged a note ip key ≡ (a, true)) ⊎ (judged a note ip key ≡ failed a note ip)
unfolding judged
judged-cases a note ip none = inr refl
judged-cases a note ip (some key) = elim (Bool-cases (length key == 32)) [
  | inr e ↦ rw e (inr refl)
  | inl e ↦ elim (Bool-cases (token_matches_ct key a.api_token)) [
    | inl m ↦ rw (e, m) (inl refl)
    | inr m ↦ rw (e, m) (inr refl)
  ]
]

-- What a check of a key does to the table.
check-buckets :
    (a : Auth) (look note : Turn) (peer : ℕ) (key : Option Bytes)
    → a.auth_enabled ≡ true
    → let a' = (check_auth a look note peer key).0 in
      (a'.auth_enabled ≡ true)
      × ((a'.buckets ≡ a.buckets) ⊎ (a'.buckets ≡ auth_record_failure note peer a.buckets))
check-buckets a look note peer key on = elim (Bool-cases (auth_is_locked look peer a.buckets)) [
  | inl locked ↦ rw (check-locked a look note peer key on locked) (on, inl refl)
  | inr free ↦ elim (judged-cases a note peer key) [
    | inl right ↦ rw (check-open a look note peer key on free, right) (on, inl refl)
    | inr wrong ↦ rw (check-open a look note peer key on free, wrong) (on, inr refl)
  ]
]

bounded :
    (lo end ip : ℕ)
    → 0 < lo
    → end < lo + 60000
    → end < 2 ^ 32
    → (ts : List Attempt) (k last : ℕ) (a : Auth) → IsTable a.buckets
    → a.auth_enabled ≡ true
    → lo ≤ last
    → k ≤ 5
    → AreOrderly last end ts
    → AreSpared a ip ts
    → HasNoted k lo last ip a.buckets
    → k + wrong_checks a ip ts ≤ 5
unfolding wrong_checks
bounded lo end ip pos soon word [] k last a v on l few o sp noted = omega arith
bounded lo end ip pos soon word (foreign peer t ∷ ts) k last a v on l few o (ne, found, sp) noted =
    let a' = (check_auth a t.look t.note peer t.key).0 in
    let (still_on, made) = check-buckets a t.look t.note peer t.key on in
    elim made [
      | inl same ↦
          bounded lo end ip pos soon word ts k last a' (subst IsTable (sym same) v) still_on l few o
            sp (subst (HasNoted k lo last ip) (sym same) noted)
      | inr failure ↦
          bounded lo end ip pos soon word ts k last a'
            (subst IsTable (sym failure) (auth_record_failure-IsTable t.note peer a.buckets v))
            still_on l few o sp
            (subst (HasNoted k lo last ip) (sym failure) (
              foreign-HasNoted k lo last ip peer t.note a.buckets v ne
                (ap (λ z. auth_bucket_find z ip) (sym failure) ∙ found) noted))
    ]
bounded lo end ip pos soon word (own t ∷ ts) k last a v on l few (o, os) sp noted =
    elim (Bool-cases (auth_is_locked t.look ip a.buckets)) [
      | inl locked ↦
          rw (check-locked a t.look t.note ip t.key on locked, locked)
            (bounded lo end ip pos soon word ts k t.note.now a v on
              (omega (arith, o.begins, o.goes_on)) few os
              (subst (λ x. AreSpared x.0 ip ts) (check-locked a t.look t.note ip t.key on locked)
                sp)
              (later-HasNoted k lo last t.note.now ip a.buckets (omega (arith, o.begins, o.goes_on))
                noted))
      | inr free ↦
          let more : k < 5 = elim (Bool-cases (k == 5)) [
            | inl full ↦
                let five : k ≡ 5 = (==_iff k 5).0 full in
                let yet : HasNoted 5 lo last ip a.buckets =
                  subst (λ z. HasNoted z lo last ip a.buckets) five noted in
                absurd (
                  not_both _
                    (noted-locked lo last ip t.look a.buckets v o.look_made o.look_taken pos
                      o.begins (omega (arith, o.goes_on, o.ends)) (omega (arith, o.goes_on, o.ends))
                      yet)
                    free)
            | inr fewer ↦ ground arith
          ] in
          elim (judged-cases a t.note ip t.key) [
            | inl right ↦
                rw (check-open a t.look t.note ip t.key on free, right)
                  (bounded lo end ip pos soon word ts k t.note.now a v on
                    (omega (arith, o.begins, o.goes_on)) few os
                    (subst (λ x. AreSpared x.0 ip ts)
                      (check-open a t.look t.note ip t.key on free ∙ right) sp)
                    (later-HasNoted k lo last t.note.now ip a.buckets
                      (omega (arith, o.begins, o.goes_on)) noted))
            | inr wrong ↦
                let rest : suc k + wrong_checks (failed a t.note ip).0 ip ts ≤ 5 =
                  bounded lo end ip pos soon word ts (suc k) t.note.now (failed a t.note ip).0
                    (auth_record_failure-IsTable t.note ip a.buckets v) on
                    (omega (arith, o.begins, o.goes_on)) (omega arith) os
                    (subst (λ x. AreSpared x.0 ip ts)
                      (check-open a t.look t.note ip t.key on free ∙ wrong) sp)
                    (noted-HasNoted k lo last ip t.note a.buckets v o.note_made o.note_taken
                      (omega (arith, o.begins, o.goes_on)) (omega (arith, o.begins, o.goes_on))
                      (omega (arith, o.begins, o.goes_on)) noted) in
                rw (check-open a t.look t.note ip t.key on free, wrong, free) (omega (arith, rest))
          ]
    ]

-- Whatever the table holds and whatever keys one peer shows in less than 60 seconds, at most five
-- wrong ones are compared with the token, if the clock is not 0, does not run back or wrap
-- meanwhile, and the mutex is taken; others may show keys in between, as long as no failure of
-- theirs takes the peer's bucket away.
pub wrong_checks_bound :
    (a : Auth) (ip lo end : ℕ) (ts : List Attempt)
    → IsTable a.buckets
    → a.auth_enabled ≡ true
    → 0 < lo
    → end < lo + 60000
    → end < 2 ^ 32
    → AreOrderly lo end ts
    → AreSpared a ip ts
    → wrong_checks a ip ts ≤ 5
wrong_checks_bound a ip lo end ts v on pos soon word orderly spared = omega (
  arith,
  bounded lo end ip pos soon word ts 0 lo a v on (omega arith) (omega arith) orderly spared
      (inl refl),
)
