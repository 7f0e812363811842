-- ===== src/Improv/Payload.antt =====
-- The payloads of main/improv_proto.h: Wi-Fi settings, RPC arguments and RPC results.
use zhac_net_core.Base.{
  ℕ, suc, ◌+◌, ◌%◌, ◌≤◌, ◌<◌, ◌≡◌, ◌≢◌, refl, sym, ap, ◌∙◌, ◌↔◌, List, [], ◌∷◌, ◌++◌, none, some,
  arith, inl, inr, ltb, le→ltb, Bool-cases, length, get_or, take, drop, length-append, length-take,
  length-drop, get_or-append_end, take-append, drop-append, take-length, split_at, take_all,
  drop-append_cons,
}
use zhac_net_core.Improv.{Bytes, rpc_arg, parse_wifi_settings, result_strings, result}

-- The argument as the Improv documentation lays it out.
abbrev pub encode_settings : Bytes → Bytes → Bytes
encode_settings ssid pass = length ssid ∷ ssid ++ length pass ∷ pass

module _ (ssid pass : Bytes) where
  length-encode : length (encode_settings ssid pass) ≡ 2 + length ssid + length pass
  length-encode = omega (arith, length-append {0} ssid (length pass ∷ pass))

  pass-length : get_or (encode_settings ssid pass) (1 + length ssid) 0 ≡ length pass
  pass-length =
      let e : 1 + length ssid ≡ suc (length ssid) = omega arith in
      rw e (get_or-append_end ssid pass (length pass) 0)

  pass_bytes : drop (2 + length ssid) (encode_settings ssid pass) ≡ pass
  pass_bytes =
      let e : 2 + length ssid ≡ suc (suc (length ssid)) = omega arith in
      rw e (drop-append_cons ssid pass (length pass))

parse-encode :
    (ssid pass : Bytes)
    → 0 < length ssid
    → length ssid ≤ 32
    → length pass ≤ 64
    → parse_wifi_settings (encode_settings ssid pass) (length (encode_settings ssid pass))
      ≡ some (ssid, pass)
unfolding parse_wifi_settings
parse-encode ssid pass some_ssid short short' =
    rw
      (
        pass-length ssid pass,
        pass_bytes ssid pass,
        take-append ssid (length pass ∷ pass),
        take-length pass,
      )
      (ground (arith, length-encode ssid pass))

parse-facts :
    (l : ℕ) (p ssid pass : Bytes)
    → parse_wifi_settings (l ∷ p) (suc (length p)) ≡ some (ssid, pass)
    → (0 < l)
      × (l ≤ 32)
      × (l + 2 + get_or p l 0 ≡ suc (length p))
      × (get_or p l 0 ≤ 64)
      × (take l p ≡ ssid)
      × (take (get_or p l 0) (drop (suc l) p) ≡ pass)
unfolding parse_wifi_settings
parse-facts l p ssid pass h =
    let one : 1 + l ≡ suc l = omega arith in
    let two : 2 + l ≡ suc (suc l) = omega arith in
    ground (arith, ap (λ k. get_or (l ∷ p) k 0) one, ap (λ k. drop k (l ∷ p)) two)

parse_sound :
    (l : ℕ) (p ssid pass : Bytes)
    → parse_wifi_settings (l ∷ p) (suc (length p)) ≡ some (ssid, pass)
    → (l ∷ p ≡ encode_settings ssid pass)
      × (0 < length ssid)
      × (length ssid ≤ 32)
      × (length pass ≤ 64)
parse_sound l p ssid pass h =
    let (some_ssid, short, size, short', front, back) = parse-facts l p ssid pass h in
    let rest : drop (suc l) p ≡ pass =
      sym (take_all (get_or p l 0) (drop (suc l) p) (omega (arith, length-drop {0} (suc l) p)))
      ∙ back in
    let l-eq : l ≡ length ssid = omega (arith, length-take {0} l p, ap length front) in
    let pl-eq : get_or p l 0 ≡ length pass =
      omega (arith, length-drop {0} (suc l) p, ap length rest) in
    (
      (λ i. l-eq i ∷ (sym (split_at l p 0 (omega arith)) ∙ (λ j. front j ++ pl-eq j ∷ rest j)) i),
      omega arith,
      omega arith,
      omega arith,
    )

parse-empty : (ssid pass : Bytes) → parse_wifi_settings [] 0 ≢ some (ssid, pass)
unfolding parse_wifi_settings
parse-empty ssid pass h = cc

-- The parser accepts exactly the arguments that spell out an SSID of 1 to 32 bytes and a password of
-- at most 64, whole, and returns those two.
pub parse_wifi_settings_iff :
    (p ssid pass : Bytes)
    → (parse_wifi_settings p (length p) ≡ some (ssid, pass)) ↔ (
        (p ≡ encode_settings ssid pass)
        × (0 < length ssid)
        × (length ssid ≤ 32)
        × (length pass ≤ 64))
parse_wifi_settings_iff p ssid pass = (sound p, complete)
  where
    complete :
        (p ≡ encode_settings ssid pass)
          × (0 < length ssid)
          × (length ssid ≤ 32)
          × (length pass ≤ 64)
        → parse_wifi_settings p (length p) ≡ some (ssid, pass)
    complete (e, some_ssid, short, short') = rw e (parse-encode ssid pass some_ssid short short')

    sound :
        (p : Bytes)
        → parse_wifi_settings p (length p) ≡ some (ssid, pass)
        → (p ≡ encode_settings ssid pass)
          × (0 < length ssid)
          × (length ssid ≤ 32)
          × (length pass ≤ 64)
    sound [] h = absurd (parse-empty ssid pass h)
    sound (l ∷ p) h = parse_sound l p ssid pass h

-- The strings of a result, each behind its length.
abbrev pub pack : List Bytes → Bytes
pack [] = []
pack (s ∷ strs) = length s ∷ s ++ pack strs

result_strings-fit :
    (n : ℕ) (strs : List Bytes)
    → n + length (pack strs) ≤ 255
    → result_strings n strs ≡ some (pack strs)
unfolding result_strings
result_strings-fit n [] h = refl
result_strings-fit n (s ∷ strs) h =
    let size : length (pack (s ∷ strs)) ≡ suc (length s + length (pack strs)) =
      omega (arith, length-append {0} s (pack strs)) in
    let small : length s % 256 ≡ length s = omega arith in
    rw
      (
        le→ltb 255 (n + 1 + length s) (omega arith),
        result_strings-fit (n + 1 + length s) strs (omega arith),
        small,
      )
      refl

result_strings-full :
    (n : ℕ) (strs : List Bytes)
    → n ≤ 255
    → 255 < n + length (pack strs)
    → result_strings n strs ≡ none
unfolding result_strings
result_strings-full n [] fits h = absurd (omega arith)
result_strings-full n (s ∷ strs) fits h = elim (Bool-cases (ltb 255 (n + 1 + length s))) [
  | inl over ↦ rw over refl
  | inr more ↦
      rw
        (
          more,
          result_strings-full (n + 1 + length s) strs (ground arith)
              (omega (arith, length-append {0} s (pack strs))),
        )
        refl
]

-- `result` gives the command, the length of the packed strings and the strings, and gives nothing
-- exactly when these would not fit 255 bytes.
pub result_lem :
    (cmd : ℕ) (strs : List Bytes)
    → (2 + length (pack strs) ≤ 255 → result cmd strs ≡ some (cmd ∷ length (pack strs) ∷ pack strs))
      × (255 < 2 + length (pack strs) → result cmd strs ≡ none)
unfolding result
result_lem cmd strs = (
  (λ h. ground (arith, result_strings-fit 2 strs h)),
  (λ h. ground (arith, result_strings-full 2 strs (omega arith) h)),
)

result-inverse :
    (cmd : ℕ) (strs : List Bytes) (out : Bytes)
    → result cmd strs ≡ some out
    → out ≡ cmd ∷ length (pack strs) ∷ pack strs
result-inverse cmd strs out h = elim (Bool-cases (ltb 255 (2 + length (pack strs)))) [
  | inl over ↦ let e = (result_lem cmd strs).1 (ground arith) in cc
  | inr fits ↦ let e = (result_lem cmd strs).0 (ground arith) in cc
]

pack-injective : (xs ys : List Bytes) → pack xs ≡ pack ys → xs ≡ ys
pack-injective [] [] e = refl
pack-injective [] (y ∷ ys) e = cc
pack-injective (x ∷ xs) [] e = cc
pack-injective (x ∷ xs) (y ∷ ys) e =
    let n-eq : length x ≡ length y = ap (λ z. get_or z 0 0) e in
    let tails : x ++ pack xs ≡ y ++ pack ys = ap (drop 1) e in
    let x-eq : x ≡ y =
      sym (take-append x (pack xs)) ∙ (λ i. take (n-eq i) (tails i)) ∙ take-append y (pack ys) in
    let rest : pack xs ≡ pack ys =
      sym (drop-append x (pack xs)) ∙ (λ i. drop (n-eq i) (tails i)) ∙ drop-append y (pack ys) in
    λ i. x-eq i ∷ pack-injective xs ys rest i

-- Whatever `result` gives, `rpc_arg` takes apart into the command and the packed strings, and no
-- other command or strings give the same bytes.
pub rpc_arg-result :
    (cmd : ℕ) (strs : List Bytes) (out : Bytes)
    → result cmd strs ≡ some out
    → (rpc_arg out (length out) ≡ some (cmd, length (pack strs), pack strs))
      × ((cmd' : ℕ) (strs' : List Bytes)
          → result cmd' strs' ≡ some out
          → (cmd' ≡ cmd) × (strs' ≡ strs))
unfolding rpc_arg
rpc_arg-result cmd strs out h = (
  rw (result-inverse cmd strs out h) (ground arith),
  λ cmd' strs' h'.
      let same : cmd' ∷ length (pack strs') ∷ pack strs' ≡ cmd ∷ length (pack strs) ∷ pack strs =
        sym (result-inverse cmd' strs' out h') ∙ result-inverse cmd strs out h in
      (ap (λ z. get_or z 0 0) same, pack-injective strs' strs (ap (drop 2) same)),
)
