-- ===== src/Remote/Client/Task.antt =====
-- `task_remote_body` of components/remote_client/remote_client.cpp: one pass of its loop. What the other
-- tasks do happens between two passes, or comes in with `Tick`.
use zhac_net_core.Base.{
  ℕ, ◌+◌, ◌-◌, ◌/◌, ◌%◌, ◌^◌, Bool, true, false, ◌&&◌, not, List, [], ◌∷◌, ◌++◌, map, leb, ◌==◌,
  if◌then◌else◌,
}
use zhac_net_core.Remote.State.{
  State, Event, disabled, idle_no_wifi, connecting, authenticating, ready, backoff, enable, disable,
  wifi_up, wifi_down, wss_connect, wss_error, auth_ok, auth_fail, auth_timeout, backoff_done,
  remote_state_next,
}
use zhac_net_core.Remote.Backoff.{remote_backoff_compute}
use zhac_net_core.Remote.Client.{
  Bytes, RemoteCfg, Client, World, Action, send_text, stop_ws, start_ws, drain_tx, delete_task,
  wait_s, post_backoff_done, is_authenticating, send_auth_frame, handle_rx_frame,
}

-- The answer of `xEventGroupWaitBits`; the bits that no code of a pass looks at are left out.
pub record Bits : Type 0 where
  pub reload_cfg : Bool
  pub disable_bit : Bool
  pub enable_bit : Bool
  pub wifi_down_bit : Bool
  pub wifi_up_bit : Bool
  pub wss_event : Bool
  pub auth_ok_bit : Bool
  pub auth_fail_bit : Bool

-- What a pass is told: the bits, the stored configuration, the frames that the two queues give one after
-- another, the clock, whether the socket can be made and is connected, whether there is an uplink, and
-- whether the wait of the backoff is ended early.
pub record Tick : Type 0 where
  pub bits : Bits
  pub stored : RemoteCfg
  pub rx : List Bytes
  pub tx : List Bytes
  pub now_ms : ℕ
  pub init_ok : Bool
  pub is_connected : Bool
  pub uplink_has_ip : Bool
  pub aborted : Bool

abbrev pub step : Client → Event → Client
step c ev = record c { state = remote_state_next c.state ev }

abbrev pub step_if : Bool → Event → Client → Client
step_if b ev c = if b then step c ev else c

unfoldable pub step_bits : Bits → Client → Client
step_bits b c = step_if b.wifi_up_bit wifi_up (
    step_if b.wifi_down_bit wifi_down
      (step_if b.enable_bit enable (step_if b.disable_bit disable c)))

-- `while (xQueueReceive(s_rx_queue, ...))`
unfoldable pub drain_rx : World → ℕ → Client → List Bytes → Client × List Action
drain_rx w now_ms c [] = (c, [])
drain_rx w now_ms c (f ∷ fs) =
    let (c1, acts) = handle_rx_frame w now_ms c f in
    let (c2, rest) = drain_rx w now_ms c1 fs in (c2, acts ++ rest)

-- `stop_ws_client`, and `s_running` off.
abbrev pub stopped : Client → Client
stopped c = record c { running = false; ws = false }

abbrev pub stop_ws_client : Client → List Action
stop_ws_client c = if c.ws then stop_ws ∷ [] else []

unfoldable pub on_disabled : Client → Client × List Action
on_disabled c = (stopped c, stop_ws_client c ++ (drain_tx ∷ delete_task ∷ []))

unfoldable pub on_idle : Tick → Client → Client × List Action
on_idle t c = (step_if t.uplink_has_ip wifi_up (stopped c), stop_ws_client c)

abbrev pub with_socket : Tick → Client → Client
with_socket t c = if c.ws then c else record c { ws = t.init_ok }

-- The test behind it.
unfoldable pub await_socket : Tick → Client → Client
await_socket t c =
    if t.bits.wss_event
    then if c.ws && t.is_connected then step c wss_connect else step c wss_error
    else c

unfoldable pub on_connecting : Tick → Client → Client × List Action
unfolding await_socket
on_connecting t c = (await_socket t (with_socket t c), if c.ws then [] else start_ws c.cfg.url ∷ [])

abbrev pub elapsed : ℕ → ℕ → ℕ
elapsed now before = (now + 2 ^ 32 - before) % 2 ^ 32

-- The tests behind the sending of the auth frame.
unfoldable pub await_auth : Tick → Client → Client
await_auth t c =
    if t.bits.auth_ok_bit
    then step c auth_ok
    else if t.bits.auth_fail_bit
    then step c auth_fail
    else if t.bits.wss_event && (c.ws && not t.is_connected)
    then step c wss_error
    else if leb 5000 (elapsed t.now_ms c.auth_enter_ms)
    then step (record c { auth_id = 0 }) auth_timeout
    else c

unfoldable pub on_authenticating : World → Tick → Client → Client × List Action
unfolding await_auth send_auth_frame
on_authenticating w t c =
    let (sent, acts) = send_auth_frame w (record c { auth_enter_ms = t.now_ms }) in
    if is_authenticating c.last_state then (await_auth t c, []) else (await_auth t sent, acts)

unfoldable pub on_ready : Tick → Client → Client × List Action
on_ready t c = if c.ws && not t.is_connected then (step c wss_error, []) else (
  record c {
    running = true;
    attempt = 0;
    connected_since = if c.connected_since == 0 then t.now_ms / 1000 else c.connected_since;
  },
  if c.ws then map send_text t.tx else [],
)

unfoldable pub on_backoff : World → Tick → Client → Client × List Action
on_backoff w t c =
    let attempt = (c.attempt + 1) % 256 in
    let delay = remote_backoff_compute attempt w.backoff_max_s (w.random c.draws) in
    let waiting : Client = record (stopped c) {
      connected_since = 0;
      attempt = attempt;
      draws = c.draws + 1;
    } in
    if t.aborted
    then (waiting, stop_ws_client c ++ (wait_s delay ∷ []))
    else (step waiting backoff_done, stop_ws_client c ++ (wait_s delay ∷ post_backoff_done ∷ []))

unfoldable pub on_state : State → World → Tick → Client → Client × List Action
unfolding on_disabled on_idle on_connecting on_authenticating on_ready on_backoff
on_state disabled w t c = on_disabled c
on_state idle_no_wifi w t c = on_idle t c
on_state connecting w t c = on_connecting t c
on_state authenticating w t c = on_authenticating w t c
on_state ready w t c = on_ready t c
on_state backoff w t c = on_backoff w t c

-- The client before the frames: the wait has taken the bits, the configuration is read again if asked
-- for, and the steps are made.
unfoldable pub begun : Tick → Client → Client
unfolding step_bits
begun t c =
    step_bits t.bits
      (record c { auth_ok_set = false; cfg = if t.bits.reload_cfg then t.stored else c.cfg })

unfoldable pub pass : World → Tick → Client → Client × List Action
unfolding begun drain_rx on_state
pass w t c =
    let (c2, acts) = drain_rx w t.now_ms (begun t c) t.rx in
    let (c3, more) = on_state c2.state w t c2 in (record c3 { last_state = c2.state }, acts ++ more)
