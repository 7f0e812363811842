-- ===== src/WsBridge/Dispatch.antt =====
-- main/ws_bridge.cpp: the dispatcher of commands. The handlers of main/api_routes.def, with all that they
-- read and change, are parameters, and so is the JSON parser.
use Prim.Native.String.{String}
use text.Mathlib.Text.{◌==◌ as str_eq}
use zhac_net_core.Base.{
  ℕ, ◌+◌, ◌*◌, ◌^◌, Bool, true, false, ◌&&◌, ◌||◌, not, List, [], ◌∷◌, ◌++◌, Option, none, some,
  ltb, leb, if◌then◌else◌, length, take, codes,
}
use zhac_net_core.Auth.{Auth, Turn, auth_check_token}
use zhac_net_core.WsServer.Clients.{Clients, fd_is_authed, fd_set_authed}
use zhac_net_core.WsBridge.{
  Bytes, RequestId, int_id, string_id, other_id, ok_text, data_text, if_whole, send_envelope_error,
}

pub data ApiStatus : Type 0 where
  api_ok api_bad_request api_not_found api_internal_error api_method_not_allowed : ApiStatus

-- What is read of the document: its id, "cmd" ("" if it is none), "args.token", and "args" as it is
-- serialized, if it is an object.
pub record Envelope : Type 0 where
  pub has_id : Bool
  pub id : RequestId
  pub cmd : String
  pub token : Bytes
  pub args : Option Bytes

-- The answers of the SDK: the erasure's error, if it fails, whether both buffers could be had, the
-- turns of the mutex, and the string "err" of a handler's text.
pub record World : Type 0 where
  pub erase_error : Option Bytes
  pub alloc_ok : Bool
  pub look : Turn
  pub note : Turn
  pub err_of : Bytes → Option Bytes

pub data Action : Type 0 where
  reply : (fd : ℕ) → (text : Bytes) → Action
  erase_flash restart : Action

abbrev pub reply_to : ℕ → Option Bytes → List Action
reply_to fd none = []
reply_to fd (some text) = reply fd text ∷ []

abbrev pub send_error : ℕ → RequestId → Bytes → List Action
send_error fd id err = reply_to fd (send_envelope_error id err)

-- A string id is not told apart here.
abbrev pub reset_id : RequestId → RequestId
reset_id (int_id printed) = int_id printed
reset_id (string_id text) = other_id
reset_id other_id = other_id

abbrev pub args_cap : ℕ
args_cap = 2048

abbrev pub dev_list_transport_cap : ℕ
dev_list_transport_cap = 40 * 1024

abbrev pub rsp_cap : String → ℕ
rsp_cap cmd =
    if str_eq cmd "logs.get" || (str_eq cmd "device.list" || str_eq cmd "groups.all")
    then dev_list_transport_cap
    else 8 * 1024

abbrev pub status_text : ApiStatus → Bytes
status_text api_ok = codes "internal error"
status_text api_bad_request = codes "bad request"
status_text api_not_found = codes "not found"
status_text api_internal_error = codes "internal error"
status_text api_method_not_allowed = codes "method not allowed"

-- The detail that a handler gave, of which `strncpy` takes 159 bytes.
abbrev pub detail_or : Bytes → Option Bytes → Bytes
detail_or err none = err
detail_or err (some []) = err
detail_or err (some (c ∷ cs)) = take 159 (c ∷ cs)

unfoldable pub error_of : World → (cap : ℕ) → ApiStatus → (rsp : Bytes) → Bytes
error_of w cap st rsp =
    if ltb 0 (length rsp) && ltb (length rsp) cap
    then detail_or (status_text st) (w.err_of rsp)
    else status_text st

-- The answer to a command that was run.
unfoldable pub answer : World → ℕ → Envelope → (cap : ℕ) → ApiStatus → (rsp : Bytes) → List Action
unfolding error_of
answer w fd e cap api_ok rsp = elim (if_whole (cap + 1024) (data_text e.id rsp)) [
  | some text ↦ reply fd text ∷ []
  | none ↦ send_error fd e.id (codes "response too large")
]
answer w fd e cap api_bad_request rsp = send_error fd e.id (error_of w cap api_bad_request rsp)
answer w fd e cap api_not_found rsp = send_error fd e.id (error_of w cap api_not_found rsp)
answer w fd e cap api_internal_error rsp =
    send_error fd e.id (error_of w cap api_internal_error rsp)
answer w fd e cap api_method_not_allowed rsp =
    send_error fd e.id (error_of w cap api_method_not_allowed rsp)

abbrev pub too_large : Option Bytes → Bool
too_large none = false
too_large (some args) = leb args_cap (length args)

abbrev pub args_text : Option Bytes → Bytes
args_text none = []
args_text (some args) = args

abbrev pub erased : ℕ → RequestId → Option Bytes → List Action
erased fd id (some err) = erase_flash ∷ send_error fd id err
erased fd id none =
    erase_flash ∷ (reply_to fd (if_whole 96 (ok_text (reset_id id))) ++ (restart ∷ []))

module _ {ℓ} (S : Type ℓ) where
  -- Sign-in, the WebSocket server's table, and what else the handlers read and change.
  pub record System : Type ℓ where
    pub auth : Auth
    pub clients : Clients
    pub app : S

  -- A row of the table: the handler gets the state, the text of "args" and the size of its buffer.
  pub record WsCmd : Type ℓ where
    pub name : String
    pub fn : System → Bytes → ℕ → System × ApiStatus × Bytes

  unfoldable pub ws_lookup : List WsCmd → String → Option WsCmd
  ws_lookup [] name = none
  ws_lookup (row ∷ rows) name =
      let later = ws_lookup rows name in if str_eq row.name name then some row else later

  unfoldable pub run : World → System → ℕ → Envelope → Option WsCmd → System × List Action
  unfolding answer
  run w s fd e none = (s, send_error fd e.id (codes "unknown cmd"))
  run w s fd e (some entry) =
      let (s', st, rsp) = entry.fn s (args_text e.args) (rsp_cap e.cmd) in
      if too_large e.args
      then (s, send_error fd e.id (codes "args too large"))
      else if not w.alloc_ok
      then (s, send_error fd e.id (codes "alloc failed"))
      else (s', answer w fd e (rsp_cap e.cmd) st rsp)

  -- A client that has not signed in.
  abbrev pub signed_in : System → ℕ → RequestId → Auth × Bool → System × List Action
  signed_in s fd id (auth', true) = (
    record s { auth = auth'; clients = fd_set_authed s.clients fd },
    reply_to fd (if_whole 96 (ok_text id)),
  )
  signed_in s fd id (auth', false) =
      (record s { auth = auth' }, send_error fd id (codes "auth failed"))

  unfoldable pub await_auth : World → System → ℕ → Envelope → System × List Action
  await_auth w s fd e =
      if str_eq e.cmd "auth"
      then signed_in s fd e.id (auth_check_token s.auth w.look w.note (some e.token))
      else (s, send_error fd e.id (codes "auth required"))

  abbrev pub must_sign_in : System → ℕ → Bool
  must_sign_in s fd = s.auth.auth_enabled && (ltb fd (2 ^ 31) && not (fd_is_authed s.clients fd))

  -- `rows` is the table. Behind a restart nothing is run.
  unfoldable pub dispatch_envelope :
      List WsCmd → World → System → (fd : ℕ) → Envelope → System × List Action
  unfolding await_auth ws_lookup run
  dispatch_envelope rows w s fd e =
      if str_eq e.cmd ""
      then (s, send_error fd e.id (codes "missing cmd"))
      else if must_sign_in s fd
      then await_auth w s fd e
      else if str_eq e.cmd "system.storage_reset"
      then (s, erased fd e.id w.erase_error)
      else run w s fd e (ws_lookup rows e.cmd)

  -- The document of a frame, if it is JSON.
  unfoldable pub on_ws_rx :
      List WsCmd → World → System → (fd : ℕ) → Option Envelope → System × List Action
  unfolding dispatch_envelope
  on_ws_rx rows w s fd none = (s, [])
  on_ws_rx rows w s fd (some e) = if e.has_id then dispatch_envelope rows w s fd e else (s, [])
