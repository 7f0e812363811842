-- ===== src/Improv.antt =====
-- main/improv_proto.h: the Improv Wi-Fi serial framing. Bytes are numbers below 256; an array that is
-- written through an index keeps its length, and the other outputs are the bytes written.
pub mod Receive
pub mod RoundTrip
pub mod Bounds
pub mod Payload
use zhac_net_core.Base.{
  ℕ, suc, ◌+◌, ◌-◌, ◌%◌, Bool, true, false, ◌&&◌, ◌||◌, not, List, [], ◌∷◌, ◌++◌, Option, none,
  some, ltb, ◌==◌, if◌then◌else◌, length, get_or, set, take, drop,
}

abbrev pub Bytes : Type 0
Bytes = List ℕ

-- `uint8_t buf[9 + 255 + 1]`
abbrev pub capacity : ℕ
capacity = 265

abbrev pub magic : Bytes
magic = b'I' ∷ b'M' ∷ b'P' ∷ b'R' ∷ b'O' ∷ b'V' ∷ []

pub record Parser : Type 0 where
  pub buf : Bytes
  pub n : ℕ
  pub bad_checksum : Bool

-- `buf[n++] = b`
unfoldable pub store : Parser → ℕ → Parser
store p b = record p { buf = set p.buf p.n b; n = suc p.n }

-- `uint8_t sum`, over a run of bytes
unfoldable pub sum_from : ℕ → Bytes → ℕ
sum_from acc [] = acc
sum_from acc (x ∷ xs) = sum_from ((acc + x) % 256) xs

abbrev pub data_len : Parser → ℕ
data_len p = get_or p.buf 8 0

abbrev pub packet_type : Parser → ℕ
packet_type p = get_or p.buf 7 0

abbrev pub total : Parser → ℕ
total p = 9 + data_len p + 1

-- The header branch of `feed`, with `bad_checksum` cleared.
unfoldable pub feed_header : Parser → ℕ → Parser × Bool
unfolding store
feed_header p b =
    if b == get_or magic p.n 0
    then (store p b, false)
    else if b == b'I'
    then (store (record p { n = 0 }) b, false)
    else (record p { n = 0 }, false)

-- The end of `feed`, where the packet is complete.
unfoldable pub feed_complete : Parser → Parser × Bool
unfolding sum_from
feed_complete q =
    if sum_from 0 (take (total q - 1) q.buf) == get_or q.buf (total q - 1) 0
    then (record q { n = 0 }, true)
    else (record q { n = 0; bad_checksum = true }, false)

-- The rest of `feed`, on the parser that has stored the byte.
unfoldable pub feed_stored : Parser → ℕ → Parser × Bool
feed_stored q b =
    if q.n == 7 && not (b == 1)
    then (record q { n = 0 }, false)
    else if ltb q.n 9
    then (q, false)
    else if ltb q.n (total q)
    then (q, false)
    else feed_complete q

unfoldable pub feed : Parser → ℕ → Parser × Bool
unfolding store
feed p b =
    let q = record p { bad_checksum = false } in
    if ltb p.n 6 then feed_header q b else feed_stored (store q b) b

-- What a reader sees after `feed` returned true: `type()` and `data()[0 .. data_len())`.
abbrev pub packet : Parser → ℕ × Bytes
packet p = (packet_type p, take (data_len p) (drop 9 p.buf))

unfoldable pub rpc_arg : Bytes → ℕ → Option (ℕ × ℕ × Bytes)
rpc_arg d n =
    if ltb n 2 || not (get_or d 1 0 == n - 2)
    then none
    else some (get_or d 0 0, get_or d 1 0, drop 2 d)

-- The two strings without their NUL.
unfoldable pub parse_wifi_settings : Bytes → ℕ → Option (Bytes × Bytes)
parse_wifi_settings p n =
    if ltb n 2
    then none
    else let sl = get_or p 0 0 in
      if sl == 0 || ltb 32 sl || ltb n (sl + 2)
      then none
      else let pl = get_or p (1 + sl) 0 in
        if ltb 64 pl || not (sl + 2 + pl == n)
        then none
        else some (take sl (drop 1 p), take pl (drop (2 + sl) p))

-- The loop of `result`: `n` bytes of `out` are used, the first two of them still open.
unfoldable pub result_strings : ℕ → List Bytes → Option Bytes
result_strings n [] = some []
result_strings n (s ∷ strs) =
    let l = length s in
    let rest = result_strings (n + 1 + l) strs in
    if ltb 255 (n + 1 + l)
    then none
    else elim rest [ none ↦ none | some out ↦ some ((l % 256) ∷ s ++ out) ]

-- `none` is the return value 0; otherwise the value is the length of the bytes.
unfoldable pub result : ℕ → List Bytes → Option Bytes
unfolding result_strings
result cmd strs = elim (result_strings 2 strs) [
  | none ↦ none
  | some out ↦ some (cmd ∷ (length out % 256) ∷ out)
]

-- What `sum` in `frame` runs over.
unfoldable pub frame_body : ℕ → Bytes → ℕ → Bytes
frame_body type bytes len = magic ++ 1 ∷ type ∷ len ∷ take len bytes

unfoldable pub frame : ℕ → Bytes → ℕ → Bytes
unfolding frame_body sum_from
frame type bytes len =
    b'\n' ∷ frame_body type bytes len ++ sum_from 0 (frame_body type bytes len) ∷ b'\n' ∷ []

-- What the receive loop of `task_improv` (main/wifi_mgr.cpp) does on a byte.
pub data Reaction : Type 0 where
  handled : ℕ × Bytes → Reaction
  rejected : Reaction

unfoldable pub outcome : Parser → Bool → List Reaction
outcome q true = handled (packet q) ∷ []
outcome q false = if q.bad_checksum then rejected ∷ [] else []

unfoldable pub receive : Parser → Bytes → List Reaction
unfolding feed outcome
receive p [] = []
receive p (b ∷ bs) = let (q, done) = feed p b in outcome q done ++ receive q bs
