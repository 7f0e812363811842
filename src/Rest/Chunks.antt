-- ===== src/Rest/Chunks.antt =====
-- How the body of a request is put together by main/rest_ops.cpp.
use mathlib.Core.List.{append_assoc, append-nil}
use zhac_net_core.Base.{
  ℕ, ◌+◌, ◌-◌, ◌≤◌, ◌<◌, ◌≡◌, refl, sym, ap, ◌∙◌, inl, inr, false, ◌&&◌, not, List, [], ◌∷◌, ◌++◌,
  arith, leb, lt→ltb, ◌==◌, Bool-cases, length, take, length-append, take_le,
}
use zhac_net_core.Rest.{
  Bytes, Recv, timeout, closed, arrived, received, recv_loop, nonempty_body, rest_body_recv,
}

-- What has arrived in all.
abbrev pub joined : List Recv → Bytes
joined [] = []
joined (timeout ∷ rs) = joined rs
joined (closed ∷ rs) = joined rs
joined (arrived bytes ∷ rs) = bytes ++ joined rs

-- No read ends the connection: it waits, or something has come.
abbrev pub IsOpen : Recv → Type 0
IsOpen timeout = Unit
IsOpen closed = ⊥
IsOpen (arrived bytes) = 0 < length bytes

abbrev pub AreOpen : List Recv → Type 0
AreOpen [] = Unit
AreOpen (r ∷ rs) = IsOpen r × AreOpen rs

nothing_more : (xs ys : Bytes) → length (xs ++ ys) ≤ length xs → xs ≡ xs ++ ys
nothing_more xs [] h = sym (append-nil xs)
nothing_more xs (y ∷ ys) h = absurd (omega (arith, h, length-append xs (y ∷ ys)))

arrived_all :
    (len cap : ℕ)
    → len < cap
    → (rs : List Recv) (got : Bytes) → AreOpen rs
    → length (got ++ joined rs) ≡ len
    → length got < len
    → recv_loop len cap got rs ≡ got ++ joined rs
unfolding recv_loop
arrived_all len cap h [] got o e more = absurd (omega (arith, e, more, length-append got []))
arrived_all len cap h (timeout ∷ rs) got o e more =
    rw (lt→ltb (length got) (cap - 1) (omega arith)) (arrived_all len cap h rs got o.1 e more)
arrived_all len cap h (closed ∷ rs) got o e more = absurd o.0
arrived_all len cap h (arrived bytes ∷ rs) got o e more =
    let sizes : length got + (length bytes + length (joined rs)) ≡ len =
      omega (arith, e, length-append got (bytes ++ joined rs), length-append bytes (joined rs)) in
    let again : length ((got ++ bytes) ++ joined rs) ≡ len =
      ap length (append_assoc got bytes (joined rs)) ∙ e in
    let whole : take (cap - 1 - length got) bytes ≡ bytes =
      take_le _ bytes (omega (arith, sizes)) in
    let some_bytes : (length bytes == 0) ≡ false = ground (arith, o.0) in
    rw (lt→ltb (length got) (cap - 1) (omega arith), some_bytes, whole)
      (elim (Bool-cases (not (len == 0) && leb len (length (got ++ bytes)))) [
        | inl full ↦ rw full (
            nothing_more (got ++ bytes) (joined rs) (ground (arith, full, again))
            ∙ append_assoc got bytes (joined rs))
        | inr partly ↦
            let room : length (got ++ bytes) < len = ground (arith, partly, more) in
            rw partly (
              arrived_all len cap h rs (got ++ bytes) o.1 again room
              ∙ append_assoc got bytes (joined rs))
      ])

-- A body whose length was announced, and is at least 1 and below the size of the buffer, is read whole,
-- in whatever pieces it arrives and however often a read times out meanwhile.
pub rest_body_recv_whole :
    (cap : ℕ) (rs : List Recv)
    → AreOpen rs
    → 0 < length (joined rs)
    → length (joined rs) < cap
    → rest_body_recv (length (joined rs)) cap rs ≡ received (joined rs)
unfolding rest_body_recv
rest_body_recv_whole cap rs o some_byte fits =
    let has_cap : (cap == 0) ≡ false = ground (arith, fits) in
    let small : leb cap (length (joined rs)) ≡ false = ground (arith, fits) in
    rw
      (
        has_cap,
        small,
        arrived_all (length (joined rs)) cap fits rs [] o refl some_byte,
        rest_body_recv,
      )
      (nonempty (joined rs) some_byte)
  where
    nonempty : (bytes : Bytes) → 0 < length bytes → nonempty_body bytes ≡ received bytes
    nonempty [] h = absurd (omega (arith, h))
    nonempty (b ∷ bs) h = refl
