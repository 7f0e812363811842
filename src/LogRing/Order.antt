-- ===== src/LogRing/Order.antt =====
-- The ring of main/log_ring.cpp against the list of all lines that were logged.
use mathlib.Core.List.{append_assoc, append-nil}
use zhac_net_core.Base.{
  ℕ, zero, suc, ◌+◌, ◌-◌, ◌%◌, ◌≤◌, ◌<◌, ◌≡◌, refl, sym, ap, ◌∙◌, inl, inr, true, false, List, [],
  ◌∷◌, ◌++◌, none, some, replicate, ltb, ◌==◌, ==_iff, if◌then◌else◌, Bool-cases, arith, length,
  get_or, set, take, drop, length-set, length-append, length-drop, take-set_end, take-length,
}
use zhac_net_core.LogRing.{LogEntry, Ring, zeroed_entry, append, log_ring_init}
use zhac_net_core.LogRing.Listing.{start, snapshots}

pub record IsValid (r : Ring) : Type 0 where
  pub size : length r.entries ≡ 128
  pub head_bound : r.head < 128
  pub count_bound : r.count ≤ 128
  pub not_full : r.count < 128 → r.head ≡ r.count

-- What a listing reads if nobody writes meanwhile.
abbrev pub listed : Ring → List LogEntry
listed r = snapshots (λ i. r) (start r) 0 r.count

-- The last `n` of a list.
abbrev pub last : ℕ → List LogEntry → List LogEntry
last n xs = drop (length xs - n) xs

drop_step :
    (xs : List LogEntry) (i : ℕ)
    → i < length xs
    → drop i xs ≡ get_or xs i zeroed_entry ∷ drop (suc i) xs
drop_step [] i h = elim h [ ]
drop_step (x ∷ xs) zero h = refl
drop_step (x ∷ xs) (suc i) h = drop_step xs i (omega arith)

-- Reading from place `p` on, not past the end of the array, is a cut from it.
snapshots-straight :
    (r : Ring) (k i n p : ℕ)
    → length r.entries ≡ 128
    → (k + i) % 128 ≡ p
    → p + n ≤ 128
    → snapshots (λ j. r) k i n ≡ take n (drop p r.entries)
unfolding snapshots
snapshots-straight r k i zero p h e b = refl
snapshots-straight r k i (suc zero) p h e b = rw (e, drop_step r.entries p (omega arith)) refl
snapshots-straight r k i (suc (suc n)) p h e b =
    rw (e, drop_step r.entries p (omega arith))
      (ap (◌∷◌ (get_or r.entries p zeroed_entry))
        (snapshots-straight r k (suc i) (suc n) (suc p) h (omega arith) (omega arith)))

snapshots-split :
    (r : Ring) (k i n m : ℕ)
    → snapshots (λ j. r) k i (n + m) ≡ snapshots (λ j. r) k i n ++ snapshots (λ j. r) k (i + n) m
unfolding snapshots
snapshots-split r k i zero m =
    let a : 0 + m ≡ m = omega arith in let b : i + 0 ≡ i = omega arith in rw (a, b) refl
snapshots-split r k i (suc n) m =
    let a : suc n + m ≡ suc (n + m) = omega arith in
    let b : i + suc n ≡ suc i + n = omega arith in
    rw (a, b)
      (ap (◌∷◌ (get_or r.entries ((k + i) % 128) zeroed_entry)) (snapshots-split r k (suc i) n m))

-- What a listing reads: the used part of a ring that is not full, and both parts of a full one.
listed-part : (r : Ring) → IsValid r → r.count < 128 → listed r ≡ take r.count r.entries
listed-part r v below =
    let open_end : (r.count == 128) ≡ false = ground arith in
    rw open_end (snapshots-straight r 0 0 r.count 0 v.size refl (omega arith))

listed-full :
    (r : Ring)
    → IsValid r
    → r.count ≡ 128
    → listed r ≡ drop r.head r.entries ++ take r.head r.entries
listed-full r v full =
    let h = r.head in
    let test : (r.count == 128) ≡ true = ground arith in
    let parts : r.count ≡ 128 - h + h = omega (arith, v.head_bound) in
    let here : snapshots (λ j. r) h 0 (128 - h) ≡ take (128 - h) (drop h r.entries) =
      snapshots-straight r h 0 (128 - h) h v.size (omega (arith, v.head_bound))
        (omega (arith, v.head_bound)) in
    let wrapped : snapshots (λ j. r) h (0 + (128 - h)) h ≡ take h r.entries =
      snapshots-straight r h (0 + (128 - h)) h 0 v.size (omega (arith, v.head_bound))
        (omega (arith, v.head_bound)) in
    simp test (
      ap (snapshots (λ j. r) h 0) parts
      ∙ snapshots-split r h 0 (128 - h) h
      ∙ ap (λ z. z ++ snapshots (λ j. r) h (0 + (128 - h)) h)
          (here
            ∙ take_long (128 - h) (drop h r.entries)
                (omega (arith, length-drop {0} h r.entries, v.size)))
      ∙ ap (λ z. drop h r.entries ++ z) wrapped)
  where
    take_long : (n : ℕ) (xs : List LogEntry) → length xs ≡ n → take n xs ≡ xs
    take_long n xs e = ap (λ k. take k xs) (sym e) ∙ take-length xs

append-IsValid : (r : Ring) (e : LogEntry) → IsValid r → IsValid (append r e)
unfolding append
append-IsValid r e v = record {
  size = length-set r.entries r.head e ∙ v.size;
  head_bound = omega arith;
  count_bound = ground arith;
  not_full = next;
}
  where
    next :
        (if ltb r.count 128 then suc r.count else r.count) < 128
        → (r.head + 1) % 128 ≡ (if ltb r.count 128 then suc r.count else r.count)
    next h = elim (Bool-cases (ltb r.count 128)) [
      | inl below ↦
          let same : r.head ≡ r.count = v.not_full (ground arith) in
          let small : suc r.count < 128 = ground arith in rw below (omega arith)
      | inr full ↦ absurd (ground arith)
    ]

drop-set : (xs : List LogEntry) (i : ℕ) (e : LogEntry) → drop (suc i) (set xs i e) ≡ drop (suc i) xs
drop-set [] i e = refl
drop-set (x ∷ xs) zero e = refl
drop-set (x ∷ xs) (suc i) e = drop-set xs i e

drop_whole : (xs : List LogEntry) (n : ℕ) → length xs ≡ n → drop n xs ≡ []
drop_whole [] zero h = refl
drop_whole [] (suc n) h = refl
drop_whole (x ∷ xs) zero h = absurd (omega arith)
drop_whole (x ∷ xs) (suc n) h = drop_whole xs n (omega arith)

take_whole : (xs : List LogEntry) (n : ℕ) → length xs ≡ n → take n xs ≡ xs
take_whole xs n h = ap (λ k. take k xs) (sym h) ∙ take-length xs

-- Cutting at the next head is cutting behind this one.
next_cut :
    (xs : List LogEntry) (h : ℕ)
    → length xs ≡ 128
    → h < 128
    → drop ((h + 1) % 128) xs ++ take ((h + 1) % 128) xs ≡ drop (suc h) xs ++ take (suc h) xs
next_cut xs h size b = elim (Bool-cases (h == 127)) [
  | inl end ↦
      let wraps : (h + 1) % 128 ≡ 0 = ground arith in
      let all : length xs ≡ suc h = ground arith in
      rw (wraps, drop_whole xs (suc h) all, take_whole xs (suc h) all) (append-nil xs)
  | inr inner ↦ let goes_on : (h + 1) % 128 ≡ suc h = ground arith in rw goes_on refl
]

-- One line more: the oldest one goes if the ring is full.
listed-append :
    (r : Ring) (e : LogEntry)
    → IsValid r
    → listed (append r e) ≡ (if r.count == 128 then drop 1 (listed r) else listed r) ++ (e ∷ [])
unfolding append
listed-append r e v = elim (Bool-cases (r.count == 128)) [
  | inl full ↦
      let h = r.head in
      let all : r.count ≡ 128 = (==_iff r.count 128).0 full in
      let stays : (append r e).count ≡ 128 = ground arith in
      let old = drop_step r.entries h (omega (arith, v.size, v.head_bound)) in
      (listed-full (append r e) (append-IsValid r e v) stays
        ∙ next_cut (set r.entries h e) h (length-set r.entries h e ∙ v.size) v.head_bound
        ∙ (λ i.
            drop-set r.entries h e i
            ++ take-set_end r.entries h e (omega (arith, v.size, v.head_bound)) i)
        ∙ sym (append_assoc (drop (suc h) r.entries) (take h r.entries) (e ∷ []))
        ∙ ap (λ z. drop 1 (z ++ take h r.entries) ++ (e ∷ [])) (sym old)
        ∙ ap (λ z. drop 1 z ++ (e ∷ [])) (sym (listed-full r v all))
        ∙ ap (λ b. (if b then drop 1 (listed r) else listed r) ++ (e ∷ [])) (sym full))
  | inr part ↦
      let below : r.count < 128 = ground (arith, v.count_bound) in
      let h-count : r.head ≡ r.count = v.not_full below in
      let grows : (append r e).count ≡ suc r.count = ground arith in
      grown h-count below grows
      ∙ ap (λ z. z ++ (e ∷ [])) (sym (listed-part r v below))
      ∙ ap (λ b. (if b then drop 1 (listed r) else listed r) ++ (e ∷ [])) (sym part)
]
  where
    grown :
        r.head ≡ r.count
        → r.count < 128
        → (append r e).count ≡ suc r.count
        → listed (append r e) ≡ take r.count r.entries ++ (e ∷ [])
    grown at_end below grows = elim (Bool-cases (ltb (suc r.count) 128)) [
      | inl more ↦
          listed-part (append r e) (append-IsValid r e v) (ground arith)
          ∙ (λ i. take (grows i) (set r.entries (at_end i) e))
          ∙ take-set_end r.entries r.count e (omega (arith, v.size))
      | inr end ↦
          let full : (append r e).count ≡ 128 = ground arith in
          let whole : length (set r.entries r.count e) ≡ suc r.count =
            length-set r.entries r.count e ∙ v.size ∙ ground arith in
          listed-full (append r e) (append-IsValid r e v) full
          ∙ next_cut (set r.entries r.head e) r.head (length-set r.entries r.head e ∙ v.size)
              v.head_bound
          ∙ (λ i.
              drop (suc (at_end i)) (set r.entries (at_end i) e)
              ++ take (suc (at_end i)) (set r.entries (at_end i) e))
          ∙ (λ i.
              drop_whole (set r.entries r.count e) (suc r.count) whole i
              ++ take-set_end r.entries r.count e (omega (arith, v.size)) i)
    ]

-- Lines logged one after the other.
abbrev pub log_all : Ring → List LogEntry → Ring
log_all r [] = r
log_all r (e ∷ es) = log_all (append r e) es

length-snapshots : (r : Ring) (k i n : ℕ) → length (snapshots (λ j. r) k i n) ≡ n
unfolding snapshots
length-snapshots r k i zero = refl
length-snapshots r k i (suc n) = ap suc (length-snapshots r k (suc i) n)

length-listed : (r : Ring) → length (listed r) ≡ r.count
length-listed r = length-snapshots r (start r) 0 r.count

last_short : (xs : List LogEntry) → length xs ≤ 128 → last 128 xs ≡ xs
last_short xs h = let none_gone : length xs - 128 ≡ 0 = omega arith in rw none_gone refl

-- The first entry of more than 128 is not among the last 128.
last_behind :
    (xs ys : List LogEntry)
    → 0 < length xs
    → 128 < length xs + length ys
    → last 128 (drop 1 xs ++ ys) ≡ last 128 (xs ++ ys)
last_behind [] ys h k = absurd (omega arith)
last_behind (x ∷ xs) ys h k =
    let size = length-append {0} xs ys in
    let one_more : suc (length (xs ++ ys)) - 128 ≡ suc (length (xs ++ ys) - 128) =
      omega (arith, size) in
    rw one_more refl

log_all-IsValid : (r : Ring) (es : List LogEntry) → IsValid r → IsValid (log_all r es)
log_all-IsValid r [] v = v
log_all-IsValid r (e ∷ es) v = log_all-IsValid (append r e) es (append-IsValid r e v)

listed-log_all :
    (r : Ring) (es : List LogEntry) → IsValid r → listed (log_all r es) ≡ last 128 (listed r ++ es)
listed-log_all r [] v =
    sym (last_short (listed r) (omega (arith, length-listed r, v.count_bound)))
    ∙ ap (last 128) (sym (append-nil (listed r)))
listed-log_all r (e ∷ es) v =
    listed-log_all (append r e) es (append-IsValid r e v)
    ∙ ap (λ z. last 128 (z ++ es)) (listed-append r e v)
    ∙ elim (Bool-cases (r.count == 128)) [
      | inl full ↦
          ap (λ b. last 128 (((if b then drop 1 (listed r) else listed r) ++ (e ∷ [])) ++ es)) full
          ∙ ap (last 128) (append_assoc (drop 1 (listed r)) (e ∷ []) es)
          ∙ last_behind (listed r) (e ∷ es) (ground (arith, length-listed r))
              (ground (arith, length-listed r))
      | inr part ↦
          ap (λ b. last 128 (((if b then drop 1 (listed r) else listed r) ++ (e ∷ [])) ++ es)) part
          ∙ ap (last 128) (append_assoc (listed r) (e ∷ []) es)
    ]

fresh_ring : Ring
fresh_ring = record { entries = replicate 128 zeroed_entry; head = 0; count = 0 }

fresh_ring-IsValid : IsValid fresh_ring
unfolding fresh_ring
fresh_ring-IsValid = record {
  size = refl;
  head_bound = omega arith;
  count_bound = omega arith;
  not_full = λ h. refl;
}

-- After `log_ring_init`, whatever lines are logged, a listing that nobody interrupts reads the last
-- 128 of them, all if they are fewer, oldest first.
pub log_all_lem :
    (r : Ring) (es : List LogEntry)
    → log_ring_init true none ≡ some r
    → listed (log_all r es) ≡ last 128 es
unfolding log_ring_init fresh_ring snapshots
log_all_lem r es h =
    let fresh : fresh_ring ≡ r = cc h in
    rw (← fresh) (listed-log_all fresh_ring es fresh_ring-IsValid)
