-- ===== src/Improv/RoundTrip.antt =====
-- `frame` against the receiver of main/improv_proto.h.
use mathlib.Core.List.{append_assoc}
use zhac_net_core.Base.{
  ℕ, zero, suc, ◌+◌, ◌-◌, ◌%◌, ◌≤◌, ◌<◌, ◌≡◌, refl, sym, ap, ◌∙◌, ◌≢◌, Bool, true, false, [], ◌∷◌,
  ◌++◌, arith, inl, inr, ◌==◌, ==_self, ==_ne, if◌then◌else◌, Bool-cases, length, get_or, set, take,
  drop, All, length-set, get_or-set_self, get_or-take, take-set_same, take-length, take-drop,
}
use zhac_net_core.Improv.{
  Bytes, Parser, store, sum_from, total, packet, feed_header, feed_complete, feed_stored, feed,
  frame, frame_body, Reaction, handled, rejected, outcome, receive,
}
use zhac_net_core.Improv.Receive.{Holds, clear, body, receive-body}

-- What `feed` leaves where the frame's checksum byte arrives: idle, with the flag set or not.
done_with : Parser → ℕ → Bool → Parser
unfolding store
done_with p c bad = record (store (clear p) c) { n = 0; bad_checksum = bad }

-- Between packets: nothing is stored, and the buffer has its size.
pub record IsIdle (p : Parser) : Type 0 where
  pub empty : p.n ≡ 0
  pub room : length p.buf ≡ 265

-- What the checksum byte `c` makes of a packet.
abbrev verdict : ℕ → Bytes → ℕ → Reaction
verdict type bytes c = if sum_from 0 (body type bytes) == c then handled (type, bytes) else rejected

module _ (type : ℕ) (bytes : Bytes) (small : length bytes ≤ 255) (p : Parser)
    (k : Holds p (body type bytes)) (c : ℕ) where
  size : p.n ≡ 9 + length bytes
  size = omega (arith, k.count)

  taken : take p.n (set p.buf p.n c) ≡ body type bytes
  taken = take-set_same p.buf p.n c ∙ ap (λ n. take n p.buf) k.count ∙ k.front

  stored_byte : (i : ℕ) → i < p.n → get_or (set p.buf p.n c) i 0 ≡ get_or (body type bytes) i 0
  stored_byte i h = sym (get_or-take p.n (set p.buf p.n c) i 0 h) ∙ ap (λ z. get_or z i 0) taken

  whole : total (store (clear p) c) - 1 ≡ p.n
  unfolding store
  whole = omega (arith, size, stored_byte 8)

  reaches_end : feed p c ≡ feed_complete (store (clear p) c)
  unfolding feed feed_stored store
  reaches_end = ground (arith, size, stored_byte 8)

  decides : feed_complete (store (clear p) c) ≡ (
      if sum_from 0 (body type bytes) == c
      then (done_with p c false, true)
      else (done_with p c true, false))
  unfolding feed_complete done_with store
  decides = rw (whole, taken, get_or-set_self p.buf p.n c 0 (omega (arith, size, k.room))) refl

  -- What a reader finds in the buffer.
  packet-done : packet (done_with p c false) ≡ (type, bytes)
  unfolding done_with
  packet-done =
      rw (stored_byte 7 (omega (arith, size)), stored_byte 8 (omega (arith, size)))
        λ i. (type, (take-drop 9 (length bytes) p.n (set p.buf p.n c) size ∙ ap (drop 9) taken) i)

  done_with-IsIdle : (bad : Bool) → IsIdle (done_with p c bad)
  unfolding done_with
  done_with-IsIdle bad = record { empty = refl; room = length-set p.buf p.n c ∙ k.room }

  -- The checksum byte: the packet is handled, or rejected.
  receive-last :
      (rest : Bytes)
      → (q : Parser) × IsIdle q × (receive p (c ∷ rest) ≡ verdict type bytes c ∷ receive q rest)
  unfolding receive outcome done_with
  receive-last rest = elim (Bool-cases (sum_from 0 (body type bytes) == c)) [
    | inl good ↦ (
      done_with p c false,
      done_with-IsIdle false,
      rw (reaches_end ∙ decides, good, packet-done) refl,
    )
    | inr bad ↦ (done_with p c true, done_with-IsIdle true, rw (reaches_end ∙ decides, bad) refl)
  ]

-- While no packet is open, a byte other than `I` is skipped.
feed_skip :
    (p : Parser) (b : ℕ) → IsIdle p → b ≢ b'I' → feed p b ≡ (record (clear p) { n = 0 }, false)
unfolding feed feed_header store
feed_skip p b idle other = rw idle.empty (ground arith)

-- Noise: log output and the like, without the letter that opens a packet.
abbrev pub IsNoise : Bytes → Type 0
IsNoise = All λ b. b ≢ b'I'

receive-noise :
    (noise rest : Bytes) (p : Parser)
    → IsNoise noise
    → IsIdle p
    → (q : Parser) × IsIdle q × (receive p (noise ++ rest) ≡ receive q rest)
unfolding receive outcome
receive-noise [] rest p quiet idle = (p, idle, refl)
receive-noise (b ∷ noise) rest p quiet idle =
    let (q, idle', same) =
      receive-noise noise rest (record (clear p) { n = 0 }) quiet.1
        (record { empty = refl; room = idle.room }) in
    (q, idle', rw (feed_skip p b idle quiet.0) same)

-- A packet's body, and any checksum byte, from an idle receiver on.
receive-packet :
    (type : ℕ) (bytes : Bytes) (c : ℕ) (rest : Bytes) (p : Parser)
    → length bytes ≤ 255
    → IsIdle p
    → (q : Parser) × IsIdle q
      × (receive p (body type bytes ++ c ∷ rest) ≡ verdict type bytes c ∷ receive q rest)
receive-packet type bytes c rest p small idle =
    let start : Holds p [] = record { room = idle.room; count = idle.empty; front = refl } in
    let (q, held, same) =
      receive-body type bytes small (body type bytes) [] (c ∷ rest) p refl start in
    let (r, idle', last) = receive-last type bytes small q held c rest in (r, idle', same ∙ last)

-- A packet on a line of its own, with any checksum byte.
receive-line :
    (type : ℕ) (bytes : Bytes) (c : ℕ) (noise rest : Bytes) (p : Parser)
    → length bytes ≤ 255
    → IsNoise noise
    → IsIdle p
    → (q : Parser) × IsIdle q
      × (receive p (noise ++ (b'\n' ∷ body type bytes ++ c ∷ b'\n' ∷ rest))
          ≡ verdict type bytes c ∷ receive q rest)
receive-line type bytes c noise rest p small quiet idle =
    let (q1, i1, e1) =
      receive-noise noise (b'\n' ∷ body type bytes ++ c ∷ b'\n' ∷ rest) p quiet idle in
    let (q2, i2, e2) =
      receive-noise (b'\n' ∷ []) (body type bytes ++ c ∷ b'\n' ∷ rest) q1 (omega arith) i1 in
    let (q3, i3, e3) = receive-packet type bytes c (b'\n' ∷ rest) q2 small i2 in
    let (q4, i4, e4) = receive-noise (b'\n' ∷ []) rest q3 (omega arith) i3 in
    (q4, i4, e1 ∙ e2 ∙ e3 ∙ ap (◌∷◌ (verdict type bytes c)) e4)

frame-body :
    (type : ℕ) (bytes rest : Bytes)
    → frame type bytes (length bytes) ++ rest
      ≡ b'\n' ∷ body type bytes ++ sum_from 0 (body type bytes) ∷ b'\n' ∷ rest
unfolding frame frame_body
frame-body type bytes rest = rw (take-length bytes, append_assoc bytes) refl

-- Any noise, then a frame of at most 255 bytes of payload: the receiver, idle before, handles one
-- packet, of exactly that type and payload, and is idle again.
pub receive-frame :
    (type : ℕ) (bytes noise rest : Bytes) (p : Parser)
    → length bytes ≤ 255
    → IsNoise noise
    → IsIdle p
    → (q : Parser) × IsIdle q
      × (receive p (noise ++ (frame type bytes (length bytes) ++ rest))
          ≡ handled (type, bytes) ∷ receive q rest)
receive-frame type bytes noise rest p small quiet idle =
    let sum = sum_from 0 (body type bytes) in
    let (q, idle', e) = receive-line type bytes sum noise rest p small quiet idle in
    (q, idle', rw (frame-body type bytes rest) (e ∙ rw (==_self sum) refl))

-- The running sum tells two starting values apart.
sum_from-injective :
    (a b : ℕ) (xs : Bytes) → a < 256 → b < 256 → sum_from a xs ≡ sum_from b xs → a ≡ b
unfolding sum_from
sum_from-injective a b [] ha hb e = e
sum_from-injective a b (x ∷ xs) ha hb e =
    omega
      (arith, sum_from-injective ((a + x) % 256) ((b + x) % 256) xs (omega arith) (omega arith) e)

sum_from-set :
    (acc : ℕ) (xs : Bytes) (i y : ℕ)
    → i < length xs
    → get_or xs i 0 < 256
    → y < 256
    → y ≢ get_or xs i 0
    → sum_from acc (set xs i y) ≢ sum_from acc xs
unfolding sum_from
sum_from-set acc [] i y h hx hy ne e = elim h [ ]
sum_from-set acc (x ∷ xs) zero y h hx hy ne e =
    omega (
      arith,
      sum_from-injective ((acc + y) % 256) ((acc + x) % 256) xs (omega arith) (omega arith) e,
    )
sum_from-set acc (x ∷ xs) (suc i) y h hx hy ne e =
    sum_from-set ((acc + x) % 256) xs i y (omega arith) hx hy ne e

set-append_left : (xs ys : Bytes) (i y : ℕ) → i < length xs → set (xs ++ ys) i y ≡ set xs i y ++ ys
set-append_left [] ys i y h = elim h [ ]
set-append_left (x ∷ xs) ys zero y h = refl
set-append_left (x ∷ xs) ys (suc i) y h = ap (◌∷◌ x) (set-append_left xs ys i y (omega arith))

sum_from-set-body :
    (type : ℕ) (bytes : Bytes) (i y : ℕ)
    → i < length bytes
    → get_or bytes i 0 < 256
    → y < 256
    → y ≢ get_or bytes i 0
    → sum_from 0 (body type (set bytes i y)) ≢ sum_from 0 (body type bytes)
unfolding sum_from
sum_from-set-body type bytes i y inside hx hy other =
    rw (length-set bytes i y) (sum_from-set _ bytes i y inside hx hy other)

set-frame :
    (type : ℕ) (bytes rest : Bytes) (i y : ℕ)
    → i < length bytes
    → set (frame type bytes (length bytes)) (10 + i) y ++ rest
      ≡ b'\n' ∷ body type (set bytes i y) ++ sum_from 0 (body type bytes) ∷ b'\n' ∷ rest
unfolding frame frame_body
set-frame type bytes rest i y h =
    let e : 10 + i ≡ suc (suc (suc (suc (suc (suc (suc (suc (suc (suc i))))))))) = omega arith in
    let tail = sum_from 0 (body type bytes) ∷ b'\n' ∷ [] in
    rw
      (
        e,
        length-set bytes i y,
        take-length bytes,
        set-append_left bytes tail i y h,
        append_assoc (set bytes i y) tail rest,
      )
      refl

-- A frame with one byte of its payload changed on the wire is rejected, whatever the change, and
-- nothing is handled; the receiver is idle again after it.
pub receive-corrupted :
    (type : ℕ) (bytes rest : Bytes) (i y : ℕ) (p : Parser)
    → length bytes ≤ 255
    → i < length bytes
    → get_or bytes i 0 < 256
    → y < 256
    → y ≢ get_or bytes i 0
    → IsIdle p
    → (q : Parser) × IsIdle q
      × (receive p (set (frame type bytes (length bytes)) (10 + i) y ++ rest)
          ≡ rejected ∷ receive q rest)
receive-corrupted type bytes rest i y p small inside hx hy other idle =
    let bad : sum_from 0 (body type (set bytes i y)) ≢ sum_from 0 (body type bytes) =
      sum_from-set-body type bytes i y inside hx hy other in
    let (q, idle', e) =
      receive-line type (set bytes i y) (sum_from 0 (body type bytes)) [] rest p
        (omega (arith, length-set bytes i y)) tt idle in
    (q, idle', rw (set-frame type bytes rest i y inside) (e ∙ rw (==_ne _ _ bad) refl))
