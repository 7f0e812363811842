-- ===== src/Dgm/Json/Listed.antt =====
-- Which groups `dgm_all_json` of main/dgm_store.cpp lists, and what it returns.
use zhac_net_core.Base.{
  ℕ, suc, ◌+◌, ◌≤◌, ◌<◌, ◌≡◌, refl, sym, ap, ◌∙◌, ◌⊎◌, inl, inr, Bool, true, false, ◌&&◌, ◌||◌,
  List, [], ◌∷◌, ◌++◌, ltb, leb, ◌==◌, ==_iff, if◌then◌else◌, if_either, Bool-cases, length, get_or,
  take, drop, All, arith, ltb→lt,
}
use zhac_net_core.Json.Utf8.{Bytes}
use zhac_net_core.Json.Writer.{JsonWriter, new, finish}
use zhac_net_core.Json.Writer.Formatted.{Writes}
use zhac_net_core.Dgm.{DgmEntry, DgmTable}
use zhac_net_core.Dgm.Table.{contains}
use zhac_net_core.Dgm.Json.{
  position, insert_gid, insert_all, collect, dgm_all_json, used, all_json, all_text, all-Writes,
}

unfoldable pub IsAscending : List ℕ → Type 0
IsAscending [] = Unit
IsAscending (x ∷ xs) = All (λ y. x < y) xs × IsAscending xs

abbrev put : List ℕ → ℕ → List ℕ
put gids g = take (position gids g) gids ++ (g ∷ drop (position gids g) gids)

above : (x y : ℕ) (xs : List ℕ) → x < y → All (λ z. y < z) xs → All (λ z. x < z) xs
above x y [] h a = tt
above x y (z ∷ xs) h a = (omega (arith, a.0), above x y xs h a.1)

All-put : (x g : ℕ) (gids : List ℕ) → x < g → All (λ z. x < z) gids → All (λ z. x < z) (put gids g)
unfolding position
All-put x g [] h a = (h, tt)
All-put x g (y ∷ ys) h a = elim (Bool-cases (ltb y g)) [
  | inl low ↦ rw low (a.0, All-put x g ys h a.1)
  | inr high ↦ rw high (h, a)
]

-- Whether the group stands where it would be put.
abbrev is_at : List ℕ → ℕ → Bool
is_at gids g = ltb (position gids g) (length gids) && get_or gids (position gids g) 0 == g

is_at-cons :
    (x : ℕ) (xs : List ℕ) (g : ℕ) → is_at (x ∷ xs) g ≡ (if ltb x g then is_at xs g else x == g)
unfolding position
is_at-cons x xs g = elim (Bool-cases (ltb x g)) [
  | inl low ↦
      rw low (ap (λ b. b && get_or xs (position xs g) 0 == g) (ltb-suc (position xs g) (length xs)))
  | inr high ↦ rw high (ap (λ b. b && x == g) (ltb-zero (length xs)))
]
  where
    ltb-suc : (a b : ℕ) → ltb (suc a) (suc b) ≡ ltb a b
    ltb-suc a b = ground arith

    ltb-zero : (b : ℕ) → ltb 0 (suc b) ≡ true
    ltb-zero b = ground arith

put-IsAscending :
    (gids : List ℕ) (g : ℕ) → IsAscending gids → is_at gids g ≡ false → IsAscending (put gids g)
unfolding IsAscending position
put-IsAscending [] g a new = (tt, tt)
put-IsAscending (x ∷ xs) g a new = elim (Bool-cases (ltb x g)) [
  | inl low ↦
      let later : is_at xs g ≡ false =
        ap (λ b. if b then is_at xs g else x == g) (sym low) ∙ sym (is_at-cons x xs g) ∙ new in
      rw low (All-put x g xs (ltb→lt x g low) a.0, put-IsAscending xs g a.1 later)
  | inr high ↦
      let apart : (x == g) ≡ false =
        ap (λ b. if b then is_at xs g else x == g) (sym high) ∙ sym (is_at-cons x xs g) ∙ new in
      let below : g < x = ground (arith, high, apart) in
      rw high ((below, above g x xs below a.0), a)
]

contains-put : (gids : List ℕ) (g y : ℕ) → contains y (put gids g) ≡ (g == y || contains y gids)
unfolding position
contains-put [] g y = refl
contains-put (x ∷ xs) g y = elim (Bool-cases (ltb x g)) [
  | inl low ↦ rw (low, contains-put xs g y) (swap (x == y) (g == y) (contains y xs))
  | inr high ↦ rw high refl
]
  where
    swap : (a b c : Bool) → (a || (b || c)) ≡ (b || (a || c))
    swap true true c = refl
    swap true false c = refl
    swap false b c = refl

contains-at : (gids : List ℕ) (g : ℕ) → is_at gids g ≡ true → contains g gids ≡ true
unfolding position
contains-at [] g h = absurd (no_place (position [] g) h)
  where
    no_place : (n : ℕ) → (ltb n 0 && get_or [] n 0 == g) ≡ true → ⊥
    no_place n h = ground (arith, h)
contains-at (x ∷ xs) g h = elim (Bool-cases (ltb x g)) [
  | inl low ↦
      let later : is_at xs g ≡ true =
        ap (λ b. if b then is_at xs g else x == g) (sym low) ∙ sym (is_at-cons x xs g) ∙ h in
      rw (contains-at xs g later) (or_true (x == g))
  | inr high ↦
      let here : (x == g) ≡ true =
        ap (λ b. if b then is_at xs g else x == g) (sym high) ∙ sym (is_at-cons x xs g) ∙ h in
      rw here refl
]
  where
    or_true : (b : Bool) → (b || true) ≡ true
    or_true true = refl
    or_true false = refl

length-put : (gids : List ℕ) (g : ℕ) → length (put gids g) ≡ suc (length gids)
unfolding position
length-put [] g = refl
length-put (x ∷ xs) g = elim (Bool-cases (ltb x g)) [
  | inl low ↦ rw low (ap suc (length-put xs g))
  | inr high ↦ rw high refl
]

-- A list grown by what a source offers: in order, nothing lost, nothing but what is offered, and all of
-- that unless 128 are there.
pub record IsCollected (gids : List ℕ) (offered : ℕ → Bool) (gids' : List ℕ) : Type 0 where
  pub ascending : IsAscending gids → IsAscending gids'
  pub kept : (y : ℕ) → contains y gids ≡ true → contains y gids' ≡ true
  pub only : (y : ℕ) → contains y gids' ≡ true → (contains y gids || offered y) ≡ true
  pub grown : length gids ≤ length gids'
  pub whole : length gids' < 128 → (y : ℕ) → offered y ≡ true → contains y gids' ≡ true

insert-IsCollected : (gids : List ℕ) (g : ℕ) → IsCollected gids (λ y. g == y) (insert_gid gids g)
unfolding insert_gid
insert-IsCollected gids g =
    if_either P (is_at gids g) _ _
      (λ h. record {
        ascending = λ a. a;
        kept = λ y e. e;
        only = λ y e. rw e refl;
        grown = omega arith;
        whole = λ h' y e. ap (λ z. contains z gids) (sym ((==_iff g y).0 e)) ∙ contains-at gids g h;
      })
      (λ new.
        if_either P (leb 128 (length gids)) _ _
          (λ full. record {
            ascending = λ a. a;
            kept = λ y e. e;
            only = λ y e. rw e refl;
            grown = omega arith;
            whole = λ h' y e. absurd (ground (arith, full, h'));
          })
          (λ room. record {
            ascending = λ a. put-IsAscending gids g a new;
            kept = λ y e. contains-put gids g y ∙ rw e (or_true (g == y));
            only = λ y e. or_swap (g == y) (contains y gids) ∙ sym (contains-put gids g y) ∙ e;
            grown = omega (arith, length-put gids g);
            whole = λ h' y e. contains-put gids g y ∙ rw e refl;
          }))
  where
    P : List ℕ → Type 0
    P = IsCollected gids (λ y. g == y)

    or_true : (b : Bool) → (b || true) ≡ true
    or_true true = refl
    or_true false = refl

    or_swap : (a b : Bool) → (b || a) ≡ (a || b)
    or_swap true true = refl
    or_swap true false = refl
    or_swap false true = refl
    or_swap false false = refl

then-IsCollected :
    (gids g1 g2 : List ℕ) (s1 s2 : ℕ → Bool)
    → IsCollected gids s1 g1
    → IsCollected g1 s2 g2
    → IsCollected gids (λ y. s1 y || s2 y) g2
then-IsCollected gids g1 g2 s1 s2 a b = record {
  ascending = λ h. b.ascending (a.ascending h);
  kept = λ y e. b.kept y (a.kept y e);
  only = λ y e. regroup (contains y gids) (s1 y) (s2 y) (contains y g1) (a.only y) (b.only y e);
  grown = omega (arith, a.grown, b.grown);
  whole = λ h y e.
      either (s1 y) (s2 y) (contains y g2) e (λ f. b.kept y (a.whole (omega (arith, b.grown)) y f))
        (b.whole h y);
}
  where
    regroup :
        (p q r c : Bool) → (c ≡ true → (p || q) ≡ true) → (c || r) ≡ true → (p || (q || r)) ≡ true
    regroup true q r c f h = refl
    regroup false true r c f h = refl
    regroup false false r true f h = absurd (ground (arith, f refl))
    regroup false false r false f h = h

    either :
        (p q c : Bool) → (p || q) ≡ true → (p ≡ true → c ≡ true) → (q ≡ true → c ≡ true) → c ≡ true
    either true q c h f g = f refl
    either false q c h f g = g h

insert_all-IsCollected :
    (gids gs : List ℕ) → IsCollected gids (λ y. contains y gs) (insert_all gids gs)
unfolding insert_all
insert_all-IsCollected gids [] = record {
  ascending = λ a. a;
  kept = λ y e. e;
  only = λ y e. rw e refl;
  grown = omega arith;
  whole = λ h y e. cc;
}
insert_all-IsCollected gids (g ∷ gs) =
    then-IsCollected gids (insert_gid gids g) _ (λ y. g == y) (λ y. contains y gs)
      (insert-IsCollected gids g) (insert_all-IsCollected (insert_gid gids g) gs)

-- Some device is in the group.
unfoldable pub has_device : ℕ → List DgmEntry → Bool
has_device y [] = false
has_device y (e ∷ es) = contains y (take e.count e.gids) || has_device y es

collect-IsCollected :
    (gids : List ℕ) (es : List DgmEntry) → IsCollected gids (λ y. has_device y es) (collect gids es)
unfolding collect has_device
collect-IsCollected gids [] = record {
  ascending = λ a. a;
  kept = λ y e. e;
  only = λ y e. rw e refl;
  grown = omega arith;
  whole = λ h y e. cc;
}
collect-IsCollected gids (e ∷ es) =
    then-IsCollected gids (insert_all gids (take e.count e.gids)) _
      (λ y. contains y (take e.count e.gids)) (λ y. has_device y es)
      (insert_all-IsCollected gids (take e.count e.gids))
      (collect-IsCollected (insert_all gids (take e.count e.gids)) es)

-- `dgm_all_json` returns the length 0, or writes a whole text, which it does if the buffer has a byte to
-- spare behind it. The text lists groups in ascending order, each with the devices that are in it; a
-- group that is listed has a device, and one that has a device is listed unless 128 others are.
pub dgm_all_json_lem :
    (t : DgmTable) (buf : Bytes) (cap : ℕ)
    → cap ≤ length buf
    → let (len, buf') = dgm_all_json t buf cap in
      let gs = collect [] (used t) in
      ((0 < len → take len buf' ≡ all_text (used t) gs)
        × (length (all_text (used t) gs) < cap → len ≡ length (all_text (used t) gs)))
      × (IsAscending gs
          × ((y : ℕ) → contains y gs ≡ true → has_device y (used t) ≡ true)
          × (length gs < 128 → (y : ℕ) → has_device y (used t) ≡ true → contains y gs ≡ true))
unfolding dgm_all_json new finish IsAscending
dgm_all_json_lem t buf cap room =
    let c = collect-IsCollected [] (used t) in
    (by_ok (Bool-cases w.ok), (c.ascending tt, c.only, c.whole))
  where
    text : Bytes
    text = all_text (used t) (collect [] (used t))

    zero-add : (n : ℕ) → 0 + n ≡ n
    zero-add n = omega arith

    w : JsonWriter
    w = all_json (new buf cap) t

    a : Writes (new buf cap) text w
    a = all-Writes (new buf cap) t (record { inside = room; bounded = omega arith }) refl

    by_ok :
        (w.ok ≡ true) ⊎ (w.ok ≡ false)
        → (0 < finish w → take (finish w) w.buf ≡ text)
          × (length text < cap → finish w ≡ length text)
    by_ok (inl fine) =
        let size : finish w ≡ w.pos = ap (λ b. if b then w.pos else 0) fine in
        (
          (λ h. ap (λ n. take n w.buf) size ∙ a.bytes fine),
          (λ h. size ∙ a.advanced fine ∙ zero-add (length text)),
        )
    by_ok (inr bad) =
        let size : finish w ≡ 0 = ap (λ b. if b then w.pos else 0) bad in
        (
          (λ h. absurd (omega (arith, size))),
          (λ h. let fine : w.ok ≡ true = a.enough (omega arith) in cc),
        )
