-- ===== src/LogRing/Lines/Coloured.antt =====
-- The lines that the SDK prints, against the cleaning and the parsing of main/log_ring.cpp.
use mathlib.Core.List.{append_assoc, append-nil}
use zhac_net_core.Base.{
  ℕ, suc, ◌-◌, ◌≤◌, ◌<◌, ◌≡◌, refl, sym, ap, ◌∙◌, ◌≢◌, true, false, [], ◌∷◌, ◌++◌, some, lt→ltb,
  ◌==◌, ==_ne, ==_self, arith, length, get_or, take, All, split_at_byte, skip_spaces, length-append,
  take-append, take-length, get_or-append_end, take_le, get_or-append_left,
}
use zhac_net_core.LogRing.{Bytes}
use zhac_net_core.LogRing.Lines.{
  esc, trimmed_length, copying, skipping, strip, clean_line, is_level, parse_tag, parse_line,
}

-- A colour code: an escape, a bracket, and all up to the letter m.
abbrev pub colour : Bytes → Bytes
colour code = esc ∷ b'[' ∷ (code ++ (b'm' ∷ []))

abbrev pub Lacks : ℕ → Bytes → Type 0
Lacks b = All (λ c. c ≢ b)

strip-code :
    (room : ℕ) (code rest : Bytes)
    → Lacks b'm' code
    → strip room skipping ((code ++ (b'm' ∷ [])) ++ rest) ≡ strip room copying rest
unfolding strip
strip-code room [] rest h = refl
strip-code room (c ∷ code) rest h = rw (==_ne c b'm' h.0) (strip-code room code rest h.1)

strip-colour :
    (room : ℕ) (code rest : Bytes)
    → 0 < room
    → Lacks b'm' code
    → strip room copying (colour code ++ rest) ≡ strip room copying rest
unfolding strip
strip-colour room code rest some_room h =
    rw (==_ne room 0 (λ e. omega arith)) (strip-code room code rest h)

strip-plain :
    (room : ℕ) (body rest : Bytes)
    → length body ≤ room
    → Lacks esc body
    → strip room copying (body ++ rest) ≡ body ++ strip (room - length body) copying rest
unfolding strip
strip-plain room [] rest fits h = let same : room - 0 ≡ room = omega arith in rw same refl
strip-plain room (c ∷ body) rest fits h =
    let less : room - suc (length body) ≡ (room - 1) - length body = omega arith in
    rw (==_ne room 0 (λ e. omega arith), ==_ne c esc h.0, less)
      (ap (◌∷◌ c) (strip-plain (room - 1) body rest (omega arith) h.1))

-- What the SDK prints for one line: a code, the text, a code, and a line end.
abbrev pub printed_line : Bytes → Bytes → Bytes → Bytes
printed_line on body off = (colour on ++ (body ++ colour off)) ++ (b'\n' ∷ [])

trimmed-line_end :
    (xs : Bytes) (m : ℕ)
    → (m ≢ b'\n') × (m ≢ b'\r') × (m ≢ esc)
    → trimmed_length ((xs ++ (m ∷ [])) ++ (b'\n' ∷ [])) (length ((xs ++ (m ∷ [])) ++ (b'\n' ∷ [])))
      ≡ length (xs ++ (m ∷ []))
unfolding trimmed_length
trimmed-line_end xs m h =
    let inner = length-append {0} xs (m ∷ []) in
    let outer = length-append {0} (xs ++ (m ∷ [])) (b'\n' ∷ []) in
    let size : length ((xs ++ (m ∷ [])) ++ (b'\n' ∷ [])) ≡ suc (suc (length xs)) =
      omega (arith, inner, outer) in
    let short : length (xs ++ (m ∷ [])) ≡ suc (length xs) = omega (arith, inner) in
    let at_end : get_or ((xs ++ (m ∷ [])) ++ (b'\n' ∷ [])) (suc (length xs)) 0 ≡ b'\n' =
      ap (λ i. get_or ((xs ++ (m ∷ [])) ++ (b'\n' ∷ [])) i 0) (sym short)
      ∙ get_or-append_end (xs ++ (m ∷ [])) [] b'\n' 0 in
    let before : get_or ((xs ++ (m ∷ [])) ++ (b'\n' ∷ [])) (length xs) 0 ≡ m =
      get_or-append_left (xs ++ (m ∷ [])) (b'\n' ∷ []) (length xs) 0 (omega (arith, short))
      ∙ get_or-append_end xs [] m 0 in
    rw (size, short, at_end, before, ==_ne m b'\n' h.0, ==_ne m b'\r' h.1, ==_ne m esc h.2) refl

-- Cleaning gives the text back, if the line fits the buffer.
pub clean_line-printed_line :
    (on body off : Bytes)
    → Lacks b'm' on
    → Lacks esc body
    → Lacks b'm' off
    → length (printed_line on body off) ≤ 191
    → clean_line (printed_line on body off) ≡ body
unfolding clean_line
clean_line-printed_line on body off h_on h_body h_off fits =
    let ys = colour on ++ (body ++ (esc ∷ b'[' ∷ off)) in
    let m : Bytes = b'm' ∷ [] in
    let regroup : colour on ++ (body ++ colour off) ≡ ys ++ m =
      ap (λ z. colour on ++ z) (sym (append_assoc body (esc ∷ b'[' ∷ off) m))
      ∙ sym (append_assoc (colour on) (body ++ (esc ∷ b'[' ∷ off)) m) in
    let line : printed_line on body off ≡ (ys ++ m) ++ (b'\n' ∷ []) =
      ap (λ z. z ++ (b'\n' ∷ [])) regroup in
    let whole : take 191 (printed_line on body off) ≡ (ys ++ m) ++ (b'\n' ∷ []) =
      take_le 191 (printed_line on body off) fits ∙ line in
    let all : length (ys ++ m) ≤ 191 =
      omega (arith, ap length line, length-append {0} (ys ++ m) (b'\n' ∷ []), fits) in
    let body_fits : length body < 191 = omega (
      arith,
      all,
      ap length regroup,
      length-append {0} (colour on) (body ++ colour off),
      length-append {0} body (colour off),
    ) in
    ap (λ z. strip 191 copying (take (trimmed_length z (length z)) z)) whole
    ∙ ap (λ n. strip 191 copying (take n ((ys ++ m) ++ (b'\n' ∷ []))))
        (trimmed-line_end ys b'm' (omega arith))
    ∙ ap (strip 191 copying) (take-append (ys ++ m) (b'\n' ∷ []) ∙ sym regroup)
    ∙ strip-colour 191 on (body ++ colour off) (omega arith) h_on
    ∙ strip-plain 191 body (colour off) (omega arith) h_body
    ∙ ap (λ z. body ++ z)
        (ap (strip (191 - length body) copying) (sym (append-nil (colour off)))
          ∙ strip-colour (191 - length body) off [] (omega arith) h_off)
    ∙ append-nil body

-- The first byte is no space.
abbrev pub StartsTight : Bytes → Type 0
StartsTight s = get_or s 0 0 ≢ b' '

skip_spaces-tight : (s : Bytes) → StartsTight s → skip_spaces s ≡ s
unfolding skip_spaces
skip_spaces-tight [] h = refl
skip_spaces-tight (c ∷ cs) h = rw (==_ne c b' ' h) refl

skip_spaces-one : (s : Bytes) → StartsTight s → skip_spaces (b' ' ∷ s) ≡ s
unfolding skip_spaces
skip_spaces-one s h = skip_spaces-tight s h

split_at_byte-first :
    (b : ℕ) (xs ys : Bytes) → Lacks b xs → split_at_byte b (xs ++ (b ∷ ys)) ≡ some (xs, ys)
unfolding split_at_byte
split_at_byte-first b [] ys h = rw (==_self b) refl
split_at_byte-first b (x ∷ xs) ys h = rw (==_ne x b h.0, split_at_byte-first b xs ys h.1) refl

-- The text of a line: level, time, tag, message.
abbrev pub log_text : ℕ → Bytes → Bytes → Bytes → Bytes
log_text level time tag msg =
    (level ∷ b' ' ∷ b'(' ∷ time) ++ (b')' ∷ b' ' ∷ (tag ++ (b':' ∷ b' ' ∷ msg)))

parse_tag-tag :
    (level : ℕ) (line tag msg : Bytes)
    → Lacks b':' tag
    → StartsTight msg
    → length tag < 32
    → parse_tag level line 32 (tag ++ (b':' ∷ b' ' ∷ msg))
      ≡ record { level = level; tag = tag; msg = msg }
unfolding parse_tag
parse_tag-tag level line tag msg h_tag tight_msg short =
    rw (split_at_byte-first b':' tag (b' ' ∷ msg) h_tag, parse_tag)
      (rw (lt→ltb (length tag) 32 short, skip_spaces-one msg tight_msg, take-length tag) refl)

-- `parse_line` takes such a text apart.
pub parse_line-log_text :
    (level : ℕ) (time tag msg : Bytes)
    → is_level level ≡ true
    → Lacks b')' time
    → Lacks b':' tag
    → StartsTight tag
    → StartsTight msg
    → length tag < 32
    → parse_line (log_text level time tag msg) 32 ≡ record { level = level; tag = tag; msg = msg }
unfolding parse_line
parse_line-log_text level time tag msg known h_time h_tag tight_tag tight_msg short =
    let behind = b' ' ∷ (tag ++ (b':' ∷ b' ' ∷ msg)) in
    let opening : Lacks b')' (level ∷ b' ' ∷ b'(' ∷ time) =
      (ground arith, (omega arith, (omega arith, h_time))) in
    let not_nil : (length (log_text level time tag msg) == 0) ≡ false =
      ==_ne (length (log_text level time tag msg)) 0 (λ e. omega arith) in
    let first = split_at_byte-first b')' (level ∷ b' ' ∷ b'(' ∷ time) behind opening in
    let tight = tight_before tag (b' ' ∷ msg) tight_tag in
    let taken : parse_tag level (log_text level time tag msg) 32 (tag ++ (b':' ∷ b' ' ∷ msg))
        ≡ record { level = level; tag = tag; msg = msg } =
      parse_tag-tag level (log_text level time tag msg) tag msg h_tag tight_msg short in
    rw (not_nil, known, first, skip_spaces-one (tag ++ (b':' ∷ b' ' ∷ msg)) tight) taken
  where
    tight_before : (s rest : Bytes) → StartsTight s → StartsTight (s ++ (b':' ∷ rest))
    tight_before [] rest h = omega arith
    tight_before (c ∷ s) rest h = h
