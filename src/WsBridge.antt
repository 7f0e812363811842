-- ===== src/WsBridge.antt =====
-- main/ws_bridge.cpp: texts that are put into JSON, and the frames made of them. A text is its bytes
-- without the NUL; what `snprintf` prints for an `int` is given.
pub mod Escape
pub mod Dispatch
pub mod Gate
pub mod SignIn
pub mod Queue
use zhac_net_core.Base.{
  ℕ, ◌+◌, Bool, true, false, ◌&&◌, not, List, [], ◌∷◌, ◌++◌, Option, none, some, ltb, if◌then◌else◌,
  length, codes,
}
use zhac_net_core.Json.Writer.{is_short_escape, short_escape}

abbrev pub Bytes : Type 0
Bytes = List ℕ

-- What one byte is written as.
unfoldable pub escape_byte : ℕ → Bytes
escape_byte c =
    if is_short_escape c then b'\\' ∷ short_escape c ∷ [] else if ltb c 0x20 then [] else c ∷ []

-- The loop, with `wi` bytes written: what it writes behind them.
unfoldable pub escape_from : (out_cap wi : ℕ) → Bytes → Bytes
unfolding escape_byte
escape_from out_cap wi [] = []
escape_from out_cap wi (c ∷ cs) =
    let piece = escape_byte c in
    let rest = escape_from out_cap (wi + length piece) cs in
    if not (ltb (wi + 2) out_cap)
    then []
    else if is_short_escape c && ltb out_cap (wi + 3)
    then []
    else piece ++ rest

unfoldable pub json_escape : Bytes → (out_cap : ℕ) → Bytes
unfolding escape_from
json_escape src out_cap = escape_from out_cap 0 src

-- The field "id": an `int` with what is printed for it, a string, or anything else.
pub data RequestId : Type 0 where
  int_id : (printed : Bytes) → RequestId
  string_id : (text : Bytes) → RequestId
  other_id : RequestId

unfoldable pub escape_id : Bytes → (out_cap : ℕ) → Bytes
unfolding json_escape
escape_id text out_cap = json_escape text out_cap

unfoldable pub id_text : RequestId → Bytes
unfolding escape_id
id_text (int_id printed) = printed
id_text (string_id text) = codes "\"" ++ (escape_id text 64 ++ codes "\"")
id_text other_id = codes "null"

-- A text is sent if it fits with its NUL.
unfoldable pub if_whole : (cap : ℕ) → Bytes → Option Bytes
if_whole cap text = if ltb (length text) cap then some text else none

abbrev pub error_text : RequestId → (err : Bytes) → Bytes
error_text id err =
    codes "{\"id\":" ++ (id_text id ++ (codes ",\"ok\":false,\"err\":\"" ++ (err ++ codes "\"}")))

abbrev pub ok_text : RequestId → Bytes
ok_text id = codes "{\"id\":" ++ (id_text id ++ codes ",\"ok\":true}")

abbrev pub data_text : RequestId → (data_json : Bytes) → Bytes
data_text id data_json =
    codes "{\"id\":" ++ (id_text id ++ (codes ",\"ok\":true,\"data\":" ++ (data_json ++ codes "}")))

-- `send_envelope_error`: the text that is given to `ws_server_reply`.
unfoldable pub send_envelope_error : RequestId → (err : Bytes) → Option Bytes
unfolding id_text if_whole
send_envelope_error id err = if_whole 256 (error_text id err)
