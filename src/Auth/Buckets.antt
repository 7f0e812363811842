-- ===== src/Auth/Buckets.antt =====
-- The table of failures of main/main.cpp as a map from peers to their buckets.
use zhac_net_core.Base.{
  ℕ, zero, suc, replicate, ◌+◌, ◌%◌, ◌<◌, ◌≡◌, refl, sym, ap, ◌∙◌, ◌≢◌, inl, inr, Bool, true, false,
  [], ◌∷◌, some, arith, ltb, ◌==◌, ==_iff, if◌then◌else◌, Bool-cases, Option-cases, length, get_or,
  set, All, All-set, All-get_or, length-set, get_or-set_self, get_or-set_ne, find_index-some,
  find_index-none, find_index-hit,
}
use zhac_net_core.Auth.{
  AuthFailBucket, Buckets, empty_bucket, is_of, auth_bucket_find, lru_from, lru_of, auth_bucket_get,
  noted, Turn, auth_record_failure,
}

-- A bucket has five stamps, and the place for the next one.
pub record IsRing (b : AuthFailBucket) : Type 0 where
  pub size : length b.ts ≡ 5
  pub place : b.head < 5

-- There are eight buckets, and no two that are in use are of the same peer.
pub record IsTable (bs : Buckets) : Type 0 where
  pub rings : All IsRing bs
  pub eight : length bs ≡ 8
  pub distinct :
      (i j ip : ℕ)
      → i < 8
      → j < 8
      → is_of ip (get_or bs i empty_bucket) ≡ true
      → is_of ip (get_or bs j empty_bucket) ≡ true
      → i ≡ j

lru_from-bound :
    (bs : Buckets) (lru stamp i n : ℕ) → lru < n → i + length bs ≡ n → lru_from lru stamp i bs < n
unfolding lru_from
lru_from-bound [] lru stamp i n h e = h
lru_from-bound (b ∷ bs) lru stamp i n h e =
    let small : (if ltb b.last_use_ms stamp then i else lru) < n = ground arith in
    lru_from-bound bs _ _ (suc i) n small (omega arith)

pub lru_of-bound : (bs : Buckets) → length bs ≡ 8 → lru_of bs < 8
lru_of-bound bs e = lru_from-bound bs 0 _ 0 8 (omega arith) (omega arith)

pub not_both : (b : Bool) → b ≡ true → b ≡ false → ⊥
not_both b x y = cc

-- The bucket that a failure is written into: the peer's, or a new one.
pub data Target (bs : Buckets) (ip now : ℕ) : Type 0 where
  target :
      (i : ℕ) (b : AuthFailBucket)
      → i < 8
      → IsRing b
      → b.ip ≡ ip
      → auth_bucket_get bs ip now ≡ (set bs i (record b { last_use_ms = now }), i)
      → ((j : ℕ) → j < 8 → j ≢ i → is_of ip (get_or bs j empty_bucket) ≡ false)
      → (is_of ip (get_or bs i empty_bucket) ≡ true → b ≡ get_or bs i empty_bucket)
      → Target bs ip now

empty-IsRing : (ip : ℕ) → IsRing (record empty_bucket { ip = ip })
empty-IsRing ip = record { size = refl; place = omega arith }

pub IsRing-at : (bs : Buckets) (i : ℕ) → IsTable bs → IsRing (get_or bs i empty_bucket)
IsRing-at bs i v = All-get_or IsRing bs i empty_bucket v.rings (empty-IsRing 0)

pub find-target : (bs : Buckets) (ip now : ℕ) → IsTable bs → Target bs ip now
unfolding auth_bucket_get
find-target bs ip now v = elim (Option-cases (auth_bucket_find bs ip)) [
  | inl e ↦
      target (lru_of bs) (record empty_bucket { ip = ip }) (lru_of-bound bs v.eight)
        (empty-IsRing ip) refl (rw (e, auth_bucket_get) refl)
        (λ j h ne. find_index-none (is_of ip) 8 bs empty_bucket e j h (omega (arith, v.eight)))
        (λ hit. absurd (
          not_both _ hit (
            find_index-none (is_of ip) 8 bs empty_bucket e _ (lru_of-bound bs v.eight)
              (omega (arith, v.eight, lru_of-bound bs v.eight)))))
  | inr (i, e) ↦
      let f = find_index-some (is_of ip) 8 bs empty_bucket i e in
      target i (get_or bs i empty_bucket) f.used (IsRing-at bs i v) (ground (arith, f.hit))
        (rw (e, auth_bucket_get) refl)
        (λ j h ne. elim (Bool-cases (is_of ip (get_or bs j empty_bucket))) [
          | inl hit ↦ absurd (ne (v.distinct j i ip h f.used hit f.hit))
          | inr miss ↦ miss
        ])
        (λ hit. refl)
]

-- The bucket of a peer is found wherever it stands.
pub find-at :
    (bs : Buckets) (ip i : ℕ)
    → IsTable bs
    → i < 8
    → is_of ip (get_or bs i empty_bucket) ≡ true
    → auth_bucket_find bs ip ≡ some i
find-at bs ip i v small hit =
    let (k, e, f) =
      find_index-hit (is_of ip) 8 bs empty_bucket i small (omega (arith, v.eight)) hit in
    e ∙ ap some (v.distinct k i ip f.used small f.hit hit)

-- What stands in the bucket afterwards.
abbrev pub after : ℕ → AuthFailBucket → AuthFailBucket
after now b = record b { ts = set b.ts b.head now; head = (b.head + 1) % 5; last_use_ms = now }

-- The table after a failure, with the place and the old contents of the bucket that is written.
pub record Recorded (bs bs' : Buckets) (ip now i : ℕ) (b : AuthFailBucket) : Type 0 where
  pub small : i < 8
  pub ring : IsRing b
  pub owner : b.ip ≡ ip
  pub here : get_or bs' i empty_bucket ≡ after now b
  pub others : (j : ℕ) → j ≢ i → get_or bs' j empty_bucket ≡ get_or bs j empty_bucket
  pub nobody : (j : ℕ) → j < 8 → j ≢ i → is_of ip (get_or bs j empty_bucket) ≡ false
  pub kept : is_of ip (get_or bs i empty_bucket) ≡ true → b ≡ get_or bs i empty_bucket
  pub table : IsTable bs'

after-IsRing : (now : ℕ) (b : AuthFailBucket) → IsRing b → IsRing (after now b)
after-IsRing now b r = record { size = length-set b.ts b.head now ∙ r.size; place = omega arith }

used-IsRing : (now : ℕ) (b : AuthFailBucket) → IsRing b → IsRing (record b { last_use_ms = now })
used-IsRing now b r = record { size = r.size; place = r.place }

-- Only the bucket's own peer can be found in it.
pub owner_only :
    (b : AuthFailBucket) (ip now g : ℕ) → b.ip ≡ ip → is_of g (after now b) ≡ true → g ≡ ip
owner_only b ip now g e h = ground (arith, e, h)

module _ (bs bs' : Buckets) (ip now i : ℕ) (b : AuthFailBucket) (owner : b.ip ≡ ip)
    (here : get_or bs' i empty_bucket ≡ after now b)
    (others : (j : ℕ) → j ≢ i → get_or bs' j empty_bucket ≡ get_or bs j empty_bucket)
    (nobody : (j : ℕ) → j < 8 → j ≢ i → is_of ip (get_or bs j empty_bucket) ≡ false) where
  not_here :
      (j g : ℕ)
      → j < 8
      → j ≢ i
      → is_of g (get_or bs' i empty_bucket) ≡ true
      → is_of g (get_or bs' j empty_bucket) ≡ true
      → ⊥
  not_here j g h ne mine yours =
      let e : g ≡ ip = owner_only b ip now g owner (ap (is_of g) (sym here) ∙ mine) in
      not_both (is_of ip (get_or bs j empty_bucket))
        (ap (λ x. is_of x (get_or bs j empty_bucket)) (sym e)
          ∙ ap (is_of g) (sym (others j ne))
          ∙ yours)
        (nobody j h ne)

  still_distinct :
      IsTable bs
      → (j k g : ℕ) → j < 8
      → k < 8
      → is_of g (get_or bs' j empty_bucket) ≡ true
      → is_of g (get_or bs' k empty_bucket) ≡ true
      → j ≡ k
  still_distinct v j k g hj hk x y = elim (Bool-cases (j == i)) [
    | inl p ↦ elim (Bool-cases (k == i)) [
      | inl q ↦ (==_iff j i).0 p ∙ sym ((==_iff k i).0 q)
      | inr q ↦ absurd (
          not_here k g hk (λ h. ground arith)
            (ap (λ z. is_of g (get_or bs' z empty_bucket)) (sym ((==_iff j i).0 p)) ∙ x) y)
    ]
    | inr p ↦ elim (Bool-cases (k == i)) [
      | inl q ↦ absurd (
          not_here j g hj (λ h. ground arith)
            (ap (λ z. is_of g (get_or bs' z empty_bucket)) (sym ((==_iff k i).0 q)) ∙ y) x)
      | inr q ↦
          v.distinct j k g hj hk (ap (is_of g) (sym (others j (λ h. ground arith))) ∙ x)
            (ap (is_of g) (sym (others k (λ h. ground arith))) ∙ y)
    ]
  ]

pub record_failure :
    (t : Turn) (ip : ℕ) (bs : Buckets)
    → IsTable bs
    → t.made ≡ true
    → t.taken ≡ true
    → (i : ℕ) × (b : AuthFailBucket) × Recorded bs (auth_record_failure t ip bs) ip t.now i b
unfolding auth_record_failure noted
record_failure t ip bs v made taken = at (find-target bs ip t.now v)
  where
    at :
        Target bs ip t.now
        → (i : ℕ) × (b : AuthFailBucket) × Recorded bs (auth_record_failure t ip bs) ip t.now i b
    at (target i b small ring owner e nobody kept) =
        let bs1 = set bs i (record b { last_use_ms = t.now }) in
        let got : get_or bs1 i empty_bucket ≡ record b { last_use_ms = t.now } =
          get_or-set_self bs i _ empty_bucket (omega (arith, v.eight)) in
        let bs2 = set bs1 i (after t.now b) in
        let long : length bs1 ≡ 8 = length-set bs i _ ∙ v.eight in
        let same : auth_record_failure t ip bs ≡ bs2 =
          rw (e, made, taken, got, auth_record_failure) refl in
        let new : get_or bs2 i empty_bucket ≡ after t.now b =
          get_or-set_self bs1 i _ empty_bucket (omega (arith, long)) in
        let old : (j : ℕ) → j ≢ i → get_or bs2 j empty_bucket ≡ get_or bs j empty_bucket = λ j ne.
          get_or-set_ne bs1 i j _ empty_bucket (λ h. ne (sym h))
          ∙ get_or-set_ne bs i j _ empty_bucket (λ h. ne (sym h)) in
        (
          i,
          b,
          rw same (record {
            small = small;
            ring = ring;
            owner = owner;
            here = new;
            others = old;
            nobody = nobody;
            kept = kept;
            table = record {
              rings =
                  All-set IsRing bs1 i _ (All-set IsRing bs i _ v.rings (used-IsRing t.now b ring))
                    (after-IsRing t.now b ring);
              eight = length-set bs1 i _ ∙ long;
              distinct = still_distinct bs bs2 ip t.now i b owner new old nobody v;
            };
          }),
        )

-- A failure keeps the table valid.
pub auth_record_failure-IsTable :
    (t : Turn) (ip : ℕ) (bs : Buckets) → IsTable bs → IsTable (auth_record_failure t ip bs)
unfolding auth_record_failure
auth_record_failure-IsTable t ip bs v = elim (Bool-cases t.made) [
  | inr m ↦ rw m v
  | inl m ↦ elim (Bool-cases t.taken) [
    | inr k ↦ rw (m, k) v
    | inl k ↦
        let (i, b, r) = record_failure t ip bs v m k in
        let whole : IsTable (auth_record_failure t ip bs) = r.table in whole
  ]
]

get_or-replicate : (n i : ℕ) (b : AuthFailBucket) → get_or (replicate n b) i b ≡ b
get_or-replicate zero i b = refl
get_or-replicate (suc n) zero b = refl
get_or-replicate (suc n) (suc i) b = get_or-replicate n i b

All-replicate : (n : ℕ) → All IsRing (replicate n empty_bucket)
All-replicate zero = tt
All-replicate (suc n) = (empty-IsRing 0, All-replicate n)

-- The table at the start.
pub fresh-IsTable : IsTable (replicate 8 empty_bucket)
fresh-IsTable = record {
  rings = All-replicate 8;
  eight = refl;
  distinct =
      λ i j ip hi hj x y. absurd (not_both _ x (ap (is_of ip) (get_or-replicate 8 i empty_bucket)));
}
