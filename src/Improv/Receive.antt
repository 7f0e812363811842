-- ===== src/Improv/Receive.antt =====
-- The receiver of main/improv_proto.h: what it delivers for a frame, and where it writes.
use mathlib.Core.List.{append_assoc, append-nil}
use zhac_net_core.Base.{
  ℕ, suc, ◌+◌, ◌≤◌, ◌<◌, ◌≡◌, refl, sym, ap, ◌∙◌, true, false, [], ◌∷◌, ◌++◌, arith, inl, inr, ltb,
  ◌==◌, ==_self, Bool-cases, length, get_or, set, take, length-append, length-set, get_or-set_self,
  get_or-set_ne, take-set_end, get_or-take, get_or-append_left, get_or-append_end,
}
use zhac_net_core.Improv.{
  Bytes, magic, Parser, store, data_len, total, feed_header, feed_stored, feed, outcome, receive,
}

-- The parser holds exactly `xs`.
pub record Holds (p : Parser) (xs : Bytes) : Type 0 where
  pub room : length p.buf ≡ 265
  pub count : p.n ≡ length xs
  pub front : take (length xs) p.buf ≡ xs

abbrev pub clear : Parser → Parser
clear p = record p { bad_checksum = false }

store-Holds :
    (p : Parser) (xs : Bytes) (b : ℕ)
    → length xs < 265
    → Holds p xs
    → Holds (store (clear p) b) (xs ++ b ∷ [])
unfolding store
store-Holds p xs b h k = record {
  room = length-set p.buf p.n b ∙ k.room;
  count = omega (arith, k.count, length-append {0} xs (b ∷ []));
  front =
      let grown : length (xs ++ b ∷ []) ≡ suc (length xs) =
        omega (arith, length-append {0} xs (b ∷ [])) in
      rw (grown, k.count)
        (take-set_end p.buf (length xs) b (omega (arith, k.room)) ∙ ap (λ z. z ++ b ∷ []) k.front);
}

-- What `feed` compares with once the length byte is in.
total-store :
    (p : Parser) (b d : ℕ)
    → length p.buf ≡ 265
    → p.n < 9 + d
    → d ≤ 255
    → (8 < p.n → data_len p ≡ d)
    → 8 ≤ p.n
    → suc p.n < total (store (clear p) b)
unfolding store
total-store p b d room more small rest h = elim (Bool-cases (p.n == 8)) [
  | inl e ↦
      ground (arith, ap (λ k. get_or (set p.buf k b) 8 0) (here e), get_or-set_self p.buf 8 b 0)
  | inr e ↦ ground (arith, get_or-set_ne p.buf p.n 8 b 0 (λ q. ground arith), rest)
]
  where
    here : (p.n == 8) ≡ true → p.n ≡ 8
    here e = ground arith

-- A byte that continues the frame is stored and nothing is reported.
feed_quiet :
    (p : Parser) (b d : ℕ)
    → length p.buf ≡ 265
    → p.n < 9 + d
    → d ≤ 255
    → (p.n < 6 → b ≡ get_or magic p.n 0)
    → (p.n ≡ 6 → b ≡ 1)
    → (8 < p.n → data_len p ≡ d)
    → feed p b ≡ (store (clear p) b, false)
unfolding feed feed_header feed_stored store
feed_quiet p b d room more small first version rest = elim (Bool-cases (ltb p.n 6)) [
  | inl h ↦ let e : b ≡ get_or magic p.n 0 = first (ground arith) in rw (h, ← e, ==_self b) refl
  | inr h ↦ ground (arith, version, total-store p b d room more small rest)
]

-- The bytes that the checksum of a frame runs over.
abbrev pub body : ℕ → Bytes → Bytes
body type bytes = magic ++ 1 ∷ type ∷ length bytes ∷ bytes

-- The byte of the frame that follows `xs`.
next_byte :
    (type : ℕ) (bytes xs ys : Bytes) (b : ℕ)
    → xs ++ b ∷ ys ≡ body type bytes
    → get_or (body type bytes) (length xs) 0 ≡ b
next_byte type bytes xs ys b e = rw (← e) (get_or-append_end xs ys b 0)

header_byte :
    (type : ℕ) (bytes : Bytes) (n : ℕ) → n < 6 → get_or (body type bytes) n 0 ≡ get_or magic n 0
header_byte type bytes n h = get_or-append_left magic (1 ∷ type ∷ length bytes ∷ bytes) n 0 h

length_byte :
    (type : ℕ) (bytes xs ys : Bytes) (b : ℕ) (p : Parser)
    → xs ++ b ∷ ys ≡ body type bytes
    → Holds p xs
    → 8 < p.n
    → data_len p ≡ length bytes
length_byte type bytes xs ys b p e k h =
    sym (get_or-take (length xs) p.buf 8 0 (omega (arith, k.count)))
    ∙ ap (λ z. get_or z 8 0) k.front
    ∙ sym (get_or-append_left xs (b ∷ ys) 8 0 (omega (arith, k.count)))
    ∙ ap (λ z. get_or z 8 0) e

step_quiet :
    (type : ℕ) (bytes xs ys : Bytes) (b : ℕ) (p : Parser)
    → xs ++ b ∷ ys ≡ body type bytes
    → length bytes ≤ 255
    → Holds p xs
    → feed p b ≡ (store (clear p) b, false)
step_quiet type bytes xs ys b p e small k =
    feed_quiet p b (length bytes) k.room (omega (arith, k.count, sizes)) small
      (λ h.
        sym (next_byte type bytes xs ys b e)
        ∙ ap (λ n. get_or (body type bytes) n 0) (sym k.count)
        ∙ header_byte type bytes p.n h)
      (λ h.
        sym (next_byte type bytes xs ys b e)
        ∙ ap (λ n. get_or (body type bytes) n 0) (sym k.count ∙ h))
      (length_byte type bytes xs ys b p e k)
  where
    sizes : length xs + suc (length ys) ≡ 9 + length bytes
    sizes = omega (arith, length-append {0} xs (b ∷ ys), ap length e)

-- Fed the rest of the frame's body, the parser ends with the whole of it and reports nothing.
pub receive-body :
    (type : ℕ) (bytes : Bytes)
    → length bytes ≤ 255
    → (ys xs rest : Bytes) (p : Parser) → xs ++ ys ≡ body type bytes
    → Holds p xs
    → (q : Parser) × Holds q (body type bytes) × (receive p (ys ++ rest) ≡ receive q rest)
unfolding receive outcome
receive-body type bytes small [] xs rest p e k = (p, rw (← e, append-nil) k, refl)
receive-body type bytes small (b ∷ ys) xs rest p e k =
    let quiet = step_quiet type bytes xs ys b p e small k in
    let grown : length xs < 265 = omega (arith, length-append {0} xs (b ∷ ys), ap length e) in
    let (q, held, same) =
      receive-body type bytes small ys (xs ++ b ∷ []) rest (store (clear p) b)
        (append_assoc xs (b ∷ []) ys ∙ e) (store-Holds p xs b grown k) in
    (q, held, rw quiet (unfold store in same))
