-- ===== src/WsServer/Handshake.antt =====
-- components/ws_server/ws_server.cpp: the sign-in of a handshake, and the handler of a frame. What the
-- HTTP server answers about a request is a record; a text is its bytes without the NUL.
pub mod Sessions
use Prim.Native.Nat.{bit_or, bit_xor}
use zhac_net_core.Base.{
  ℕ, zero, suc, ◌+◌, Bool, true, false, ◌&&◌, ◌||◌, not, List, [], ◌∷◌, Option, none, some, ltb,
  ◌==◌, if◌then◌else◌, length, get_or,
}
use zhac_net_core.WsServer.Clients.{Clients, Effect, auth_off, adopt_client, ensure_fd, remove_fd}

abbrev pub Bytes : Type 0
Bytes = List ℕ

-- The answer to the first `httpd_ws_recv_frame`: an error, or the frame that waits, of which it tells the
-- type and the length.
pub data Probe : Type 0 where
  probe_failed : (err : ℕ) → Probe
  probed : (is_text : Bool) → (payload : Bytes) → Probe

-- What `s_rx_cb`, which is set from outside, does to the table when it is called.
abbrev pub RxCallback : Type 0
RxCallback = Clients → (fd : ℕ) → (text : Bytes) → Clients

-- `api_key` is the header of that name; `query` is the query string and `token_of` finds its token.
-- `read_error` is that of the second `httpd_ws_recv_frame`, which else reads the whole frame.
pub record Request : Type 0 where
  pub fd : ℕ
  pub is_get : Bool
  pub api_key : Option Bytes
  pub query_len : ℕ
  pub query : Option Bytes
  pub token_of : Bytes → Option Bytes
  pub probe : Probe
  pub alloc_ok : Bool
  pub read_error : Option ℕ

abbrev pub query_key : Request → Option Bytes
query_key r = elim r.query [ none ↦ none | some q ↦ r.token_of q ]

-- The key that is shown at a handshake.
unfoldable pub presented : Request → Option Bytes
presented r = elim r.api_key [
  | some key ↦ some key
  | none ↦ if ltb 0 r.query_len && ltb r.query_len 256 then query_key r else none
]

-- `diff |= key[i] ^ s_api_token[i]`, for the rounds that are left.
unfoldable pub diff_from : (left i : ℕ) → (key token : Bytes) → ℕ → ℕ
diff_from zero i key token diff = diff
diff_from (suc left) i key token diff =
    diff_from left (suc i) key token (bit_or diff (bit_xor (get_or key i 0) (get_or token i 0)))

abbrev pub same_key : Bytes → Bytes → Bool
same_key key token = if length key == 32 then diff_from 32 0 key token 0 == 0 else false

abbrev pub shows : Option Bytes → Bytes → Bool
shows none token = false
shows (some key) token = same_key key token

unfoldable pub detect_handshake_auth : Clients → Request → Bool
unfolding presented diff_from
detect_handshake_auth s r = if auth_off s then true else shows (presented r) s.api_token

unfoldable pub register_client : Clients → Request → Clients × List Effect
unfolding detect_handshake_auth
register_client s r = adopt_client s r.fd (detect_handshake_auth s r)

abbrev pub ws_rx_max : ℕ
ws_rx_max = 8192

-- The error that is returned, 0 for none, and the text given to `s_rx_cb`.
pub record Handled : Type 0 where
  pub clients : Clients
  pub effects : List Effect
  pub ret : ℕ
  pub given : Option Bytes

abbrev pub no_mem : ℕ
no_mem = 257

-- The part behind the probe.
abbrev pub read_frame : Clients → List Effect → RxCallback → Request → Bytes → Handled
read_frame s effects cb r payload = elim r.read_error [
  | some err ↦ record { clients = s; effects = effects; ret = err; given = none }
  | none ↦ record { clients = cb s r.fd payload; effects = effects; ret = 0; given = some payload }
]

-- The handler behind `ensure_fd`, by what the probe answers; `rx_cb` is none where none is set.
unfoldable pub on_probe :
    Clients → List Effect → (rx_cb : Option RxCallback) → Request → Probe → Handled
on_probe s effects rx_cb r (probe_failed err) = record {
  clients = (remove_fd s r.fd).0;
  effects = effects;
  ret = err;
  given = none;
}
on_probe s effects rx_cb r (probed is_text payload) =
    let left_alone : Handled = record { clients = s; effects = effects; ret = 0; given = none } in
    if not is_text || length payload == 0 then left_alone else elim rx_cb [
      | none ↦ left_alone
      | some cb ↦
          if ltb ws_rx_max (length payload)
          then left_alone
          else if not r.alloc_ok
          then record left_alone { ret = no_mem }
          else read_frame s effects cb r payload
    ]

unfoldable pub ws_handler : Clients → (rx_cb : Option RxCallback) → Request → Handled
unfolding register_client on_probe
ws_handler s rx_cb r =
    let (s_get, effects_get) = register_client s r in
    let (s1, effects) = ensure_fd s r.fd (auth_off s) in
    if r.is_get
    then record { clients = s_get; effects = effects_get; ret = 0; given = none }
    else on_probe s1 effects rx_cb r r.probe
