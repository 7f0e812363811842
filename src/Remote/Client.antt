-- ===== src/Remote/Client.antt =====
-- components/remote_client/remote_client.cpp and include/remote_client.h: the frames of the cloud
-- channel. The socket, the queues and the event group are the SDK's: what they answer is given, and what
-- is asked of them is a list of actions. Everything of the JSON parser's document that is read is a
-- `Frame`. `esp_random` is a sequence of draws.
pub mod Task
pub mod Frames
pub mod Moves
pub mod Sessions
pub mod Commands
use text.Mathlib.Text.{◌==◌ as str_eq}
use Prim.Native.String.{String}
use zhac_net_core.Base.{
  ℕ, zero, suc, ◌+◌, ◌-◌, ◌/◌, ◌%◌, ◌^◌, Bool, true, false, ◌&&◌, not, List, [], ◌∷◌, ◌++◌, Option,
  none, some, ltb, leb, ◌==◌, if◌then◌else◌, length, take, codes, decimal,
}
use zhac_net_core.Remote.State.{
  State, disabled, idle_no_wifi, connecting, authenticating, ready, backoff,
}
use zhac_net_core.Remote.Allow.{remote_cmd_allowed, remote_event_allowed}

abbrev pub Bytes : Type 0
Bytes = List ℕ

pub record RemoteCfg : Type 0 where
  pub url : Bytes
  pub token : Bytes
  pub devid : Bytes

-- The statics, and `last_state` of the task. `ws` says whether `s_ws` is not null; `auth_ok_set` is the
-- event bit of that name, set and not waited for since.
pub record Client : Type 0 where
  pub running : Bool
  pub state : State
  pub attempt : ℕ
  pub auth_id : ℕ
  pub auth_enter_ms : ℕ
  pub boot_epoch : ℕ
  pub ws : Bool
  pub cfg : RemoteCfg
  pub last_state : State
  pub auth_ok_set : Bool
  pub tx_drops : ℕ
  pub auth_fails : ℕ
  pub connected_since : ℕ
  pub last_event_at : ℕ
  pub draws : ℕ

-- What the handler reads of a parsed document; `id_text` is what `%d` prints for the id as an `int`.
pub record Frame : Type 0 where
  pub id : ℕ
  pub id_text : Bytes
  pub ok : Bool
  pub cmd : String

pub record World : Type 0 where
  pub parse : Bytes → Option Frame
  pub privileged : Bool
  pub random : ℕ → ℕ
  pub fw_version : Option Bytes
  pub backoff_max_s : ℕ

pub data Action : Type 0 where
  send_text : (json : Bytes) → Action
  dispatch : (frame : Bytes) → Action
  post_auth_ok post_auth_fail post_backoff_done : Action
  start_ws : (url : Bytes) → Action
  stop_ws drain_tx delete_task : Action
  wait_s : (seconds : ℕ) → Action

abbrev pub is_ready : State → Bool
is_ready ready = true
is_ready _ = false

abbrev pub is_authenticating : State → Bool
is_authenticating authenticating = true
is_authenticating _ = false

-- A text with its NUL fits, or the other one is taken.
unfoldable pub if_fits : ℕ → Bytes → Option Bytes → Option Bytes
if_fits cap text other = if ltb (length text) cap then some text else other

-- The text that is made of an event; `payload` is none if it is a null pointer or has the length 0.
unfoldable pub ws_event_envelope_build :
    (cap : ℕ) → (name : Bytes) → (payload : Option Bytes) → Option Bytes
ws_event_envelope_build cap name payload =
    let head = codes "{\"event\":\"" ++ name in
    let whole : Bytes = elim payload [
      | none ↦ head ++ codes "\",\"data\":null}"
      | some json ↦ head ++ (codes "\",\"data\":" ++ (json ++ codes "}"))
    ] in
    let degraded = head ++ codes "\",\"data\":null,\"trunc\":true}" in
    if cap == 0 then none else if_fits cap whole (if_fits cap degraded none)

-- What the queue's calls answered: the first send, the receive and the second send.
pub record TxAnswers : Type 0 where
  pub sent : Bool
  pub dropped : Bool
  pub sent_again : Bool

abbrev pub event_cap : ℕ
event_cap = 8192

-- The envelope given to the queue, for which the oldest one makes room.
unfoldable pub offer : Client → TxAnswers → Option Bytes → Client × Option Bytes
offer c q none = (c, none)
offer c q (some json) =
    let drops =
      (c.tx_drops + (if q.dropped then 1 else 0) + (if q.sent_again then 0 else 1)) % 2 ^ 32 in
    if q.sent
    then (c, some json)
    else (record c { tx_drops = drops }, if q.sent_again then some json else none)

-- The client, and the text that the queue has then. `text` is the name's bytes.
unfoldable pub remote_client_publish_event :
    Client
    → (alloc_ok : Bool) → TxAnswers
    → (name : Option String) → (text : Bytes) → (payload : Option Bytes) → Client × Option Bytes
remote_client_publish_event c alloc_ok q name text payload =
    if not c.running
    then (c, none)
    else if not (remote_event_allowed name)
    then (c, none)
    else if not (is_ready c.state)
    then (c, none)
    else if not alloc_ok
    then (c, none)
    else offer c q (ws_event_envelope_build event_cap text payload)

-- `(esp_random() & 0x7FFFFFFF)`, with 1 for 0, and with its lowest bit set.
abbrev pub auth_id_of : ℕ → ℕ
auth_id_of r = if r % 2 ^ 31 == 0 then 1 else r % 2 ^ 31

abbrev pub epoch_of : ℕ → ℕ
epoch_of r = if r % 2 ^ 31 % 2 == 0 then r % 2 ^ 31 + 1 else r % 2 ^ 31

abbrev pub version_text : Option Bytes → Bytes
version_text none = codes "unknown"
version_text (some v) = v

unfoldable pub auth_text : RemoteCfg → Option Bytes → (id epoch : ℕ) → Bytes
auth_text cfg version id epoch =
    codes "{\"id\":"
    ++ (decimal id
        ++ (codes ",\"cmd\":\"remote.auth\",\"args\":{\"token\":\""
            ++ (cfg.token
                ++ (codes "\",\"device_id\":\""
                    ++ (cfg.devid
                        ++ (codes "\",\"fw_version\":\""
                            ++ (version_text version
                                ++ (codes "\",\"boot_epoch\":"
                                    ++ (decimal epoch ++ codes "}}")))))))))

unfoldable pub send_auth_frame : World → Client → Client × List Action
unfolding auth_text
send_auth_frame w c =
    let id = auth_id_of (w.random c.draws) in
    let first = c.boot_epoch == 0 in
    let epoch = if first then epoch_of (w.random (c.draws + 1)) else c.boot_epoch in
    let text = auth_text c.cfg w.fw_version id epoch in
    (
      record c {
        auth_id = id;
        boot_epoch = epoch;
        draws = if first then c.draws + 2 else c.draws + 1;
      },
      if ltb (length text) 320 && c.ws then send_text text ∷ [] else [],
    )

unfoldable pub remote_client_send_reply : Client → Bytes → List Action
remote_client_send_reply c json = if c.ws && is_ready c.state then send_text json ∷ [] else []

abbrev pub refusal : Frame → Bytes
refusal d =
    take 159 (codes "{\"id\":" ++ (d.id_text ++ codes ",\"ok\":false,\"err\":\"cmd_not_allowed\"}"))

-- The frame of the server while the sign-in is under way.
unfoldable pub auth_reply : Client → Frame → Client × List Action
auth_reply c d =
    if not (c.auth_id == 0) && d.id == c.auth_id
    then if d.ok
      then (record c { auth_id = 0; state = ready; auth_ok_set = true }, post_auth_ok ∷ [])
      else (record c { auth_id = 0; auth_fails = (c.auth_fails + 1) % 2 ^ 32 }, post_auth_fail ∷ [])
    else (c, [])

-- Any other frame.
unfoldable pub command : World → ℕ → Client → Bytes → Frame → Client × List Action
unfolding send_auth_frame remote_client_send_reply
command w now_ms c text d =
    let (challenged, sent) = send_auth_frame w c in
    if is_ready c.state && str_eq d.cmd "remote.auth"
    then (record challenged { last_event_at = now_ms / 1000 }, sent)
    else if not (remote_cmd_allowed w.privileged (some d.cmd))
    then (c, remote_client_send_reply c (refusal d))
    else (record c { last_event_at = now_ms / 1000 }, dispatch text ∷ [])

unfoldable pub handle_rx_frame : World → (now_ms : ℕ) → Client → Bytes → Client × List Action
handle_rx_frame w now_ms c text = elim (w.parse text) [
  | none ↦ (c, [])
  | some d ↦ if is_authenticating c.state then auth_reply c d else command w now_ms c text d
]

-- What the SDK's socket task tells `ws_event_handler`.
pub data WsEvent : Type 0 where
  connected disconnected failed other : WsEvent
  received : (op_code : ℕ) → (text : Bytes) → WsEvent

-- Whether EVB_WSS_EVENT is set, and what is given to the queue of received frames. EVB_TX, which only
-- ends the task's wait, is left out here and where an event is published.
unfoldable pub ws_event_handler : (alloc_ok : Bool) → WsEvent → Bool × Option Bytes
ws_event_handler alloc_ok connected = (true, none)
ws_event_handler alloc_ok disconnected = (true, none)
ws_event_handler alloc_ok failed = (true, none)
ws_event_handler alloc_ok other = (false, none)
ws_event_handler alloc_ok (received op_code text) =
    if not (op_code == 1)
    then (false, none)
    else if length text == 0
    then (false, none)
    else if ltb 8192 (length text)
    then (false, none)
    else if alloc_ok
    then (false, some text)
    else (false, none)
