-- ===== src/Remote/Client/Moves.antt =====
-- The state of components/remote_client/remote_client.cpp in one pass of the task.
use zhac_net_core.Base.{
  ◌≡◌, refl, ap, ◌∙◌, inl, inr, Bool, true, false, ◌&&◌, not, List, leb, if◌then◌else◌, Bool-cases,
}
use zhac_net_core.Remote.State.{
  State, Event, disabled, idle_no_wifi, connecting, authenticating, ready, backoff, enable, disable,
  wifi_up, wifi_down, wss_connect, wss_error, auth_ok, auth_fail, auth_timeout, backoff_done,
  remote_state_next,
}
use zhac_net_core.Remote.Client.{Client, World, Action, is_authenticating, send_auth_frame}
use zhac_net_core.Remote.Client.Task.{
  Tick, step, step_if, step_bits, begun, on_state, on_connecting, on_authenticating, on_ready,
  with_socket, await_socket, on_idle, on_backoff, on_disabled, await_auth, elapsed,
}
use zhac_net_core.Remote.Client.Frames.{if_same}

-- The states in which a sign-in has been accepted.
abbrev pub is_up : State → Bool
is_up ready = true
is_up backoff = true
is_up _ = false

-- A step that leads into neither of these states.
abbrev pub Back : State → State → Type 0
Back s s' = (s' ≡ ready → s ≡ ready) × (s' ≡ authenticating → s ≡ authenticating)

then-Back : (s s1 s2 : State) → Back s s1 → Back s1 s2 → Back s s2
then-Back s s1 s2 (r, a) (r', a') = ((λ h. r (r' h)), (λ h. a (a' h)))

abbrev is_link : Event → Bool
is_link enable = true
is_link disable = true
is_link wifi_up = true
is_link wifi_down = true
is_link _ = false

link-Back : (s : State) (e : Event) → is_link e ≡ true → Back s (remote_state_next s e)
unfolding remote_state_next
link-Back disabled enable h = (λ k. cc, λ k. cc)
link-Back idle_no_wifi enable h = (λ k. k, λ k. k)
link-Back connecting enable h = (λ k. k, λ k. k)
link-Back authenticating enable h = (λ k. k, λ k. k)
link-Back ready enable h = (λ k. k, λ k. k)
link-Back backoff enable h = (λ k. k, λ k. k)
link-Back s disable h = (λ k. cc, λ k. cc)
link-Back disabled wifi_up h = (λ k. k, λ k. k)
link-Back idle_no_wifi wifi_up h = (λ k. cc, λ k. cc)
link-Back connecting wifi_up h = (λ k. k, λ k. k)
link-Back authenticating wifi_up h = (λ k. k, λ k. k)
link-Back ready wifi_up h = (λ k. k, λ k. k)
link-Back backoff wifi_up h = (λ k. k, λ k. k)
link-Back disabled wifi_down h = (λ k. cc, λ k. cc)
link-Back idle_no_wifi wifi_down h = (λ k. cc, λ k. cc)
link-Back connecting wifi_down h = (λ k. cc, λ k. cc)
link-Back authenticating wifi_down h = (λ k. cc, λ k. cc)
link-Back ready wifi_down h = (λ k. cc, λ k. cc)
link-Back backoff wifi_down h = (λ k. cc, λ k. cc)
link-Back s wss_connect h = cc
link-Back s wss_error h = cc
link-Back s auth_ok h = cc
link-Back s auth_fail h = cc
link-Back s auth_timeout h = cc
link-Back s backoff_done h = cc

-- What such a step leaves alone.
pub data IsStepped (c c' : Client) : Type 0 where
  stepped :
      Back c.state c'.state
      → c'.auth_id ≡ c.auth_id
      → c'.auth_ok_set ≡ c.auth_ok_set
      → c'.last_state ≡ c.last_state
      → c'.auth_enter_ms ≡ c.auth_enter_ms
      → IsStepped c c'

step_if-IsStepped :
    (b : Bool) (e : Event) (c0 c : Client)
    → is_link e ≡ true
    → IsStepped c0 c
    → IsStepped c0 (step_if b e c)
step_if-IsStepped false e c0 c h p = p
step_if-IsStepped true e c0 c h (stepped k i b l m) =
    stepped (then-Back c0.state c.state _ k (link-Back c.state e h)) i b l m

-- The client as the wait leaves it.
abbrev pub waited : Tick → Client → Client
waited t c = record c { auth_ok_set = false; cfg = if t.bits.reload_cfg then t.stored else c.cfg }

pub begun-IsStepped : (t : Tick) (c : Client) → IsStepped (waited t c) (begun t c)
unfolding begun step_bits
begun-IsStepped t c = step_if-IsStepped t.bits.wifi_up_bit wifi_up _ _ refl (
    step_if-IsStepped t.bits.wifi_down_bit wifi_down _ _ refl (
      step_if-IsStepped t.bits.enable_bit enable _ _ refl (
        step_if-IsStepped t.bits.disable_bit disable _ _ refl
          (stepped ((λ k. k), (λ k. k)) refl refl refl refl))))

-- Where the second half of a pass goes.
pub data Moved (t : Tick) (c : Client) (s' : State) : Type 0 where
  down : is_up c.state ≡ false → is_up s' ≡ false → is_authenticating s' ≡ false → Moved t c s'
  signing : c.state ≡ connecting → s' ≡ authenticating → Moved t c s'
  waits :
      s' ≡ authenticating
      → (is_authenticating c.last_state && leb 5000 (elapsed t.now_ms c.auth_enter_ms)) ≡ false
      → c.state ≡ authenticating
      → Moved t c s'
  gave_up : s' ≡ backoff → Moved t c s'
  told : c.state ≡ authenticating → t.bits.auth_ok_bit ≡ true → s' ≡ ready → Moved t c s'
  still : c.state ≡ ready → s' ≡ ready → Moved t c s'
  again : c.state ≡ backoff → s' ≡ connecting → Moved t c s'

next_of :
    (c : Client) (s s' : State) (e : Event)
    → c.state ≡ s
    → remote_state_next s e ≡ s'
    → (step c e).state ≡ s'
next_of c s s' e h k = ap (λ z. remote_state_next z e) h ∙ k

idle-Moved : (t : Tick) (c : Client) → c.state ≡ idle_no_wifi → Moved t c (on_idle t c).0.state
unfolding on_idle remote_state_next
idle-Moved t c h = elim (Bool-cases t.uplink_has_ip) [
  | inl up ↦
      let e = next_of c idle_no_wifi connecting wifi_up h refl in
      rw (up, on_idle) (down (ap is_up h) (ap is_up e) (ap is_authenticating e))
  | inr none_up ↦ rw (none_up, on_idle) (down (ap is_up h) (ap is_up h) (ap is_authenticating h))
]

socket-Moved :
    (t : Tick) (c c1 : Client)
    → c.state ≡ connecting
    → c1.state ≡ connecting
    → Moved t c (await_socket t c1).state
unfolding await_socket remote_state_next
socket-Moved t c c1 h k = elim (Bool-cases t.bits.wss_event) [
  | inr quiet ↦ rw (quiet, await_socket) (down (ap is_up h) (ap is_up k) (ap is_authenticating k))
  | inl event ↦ elim (Bool-cases (c1.ws && t.is_connected)) [
    | inl up ↦
        rw (event, up, await_socket)
          (signing h (next_of c1 connecting authenticating wss_connect k refl))
    | inr lost ↦
        rw (event, lost, await_socket) (gave_up (next_of c1 connecting backoff wss_error k refl))
  ]
]

connecting-Moved :
    (t : Tick) (c : Client) → c.state ≡ connecting → Moved t c (on_connecting t c).0.state
unfolding on_connecting
connecting-Moved t c h =
    socket-Moved t c (with_socket t c) h
      (elim (Bool-cases c.ws) [ inl e ↦ rw e h | inr e ↦ rw e h ])

await-Moved :
    (t : Tick) (c c1 : Client)
    → c.state ≡ authenticating
    → c1.state ≡ authenticating
    → (leb 5000 (elapsed t.now_ms c1.auth_enter_ms) ≡ false
        → (is_authenticating c.last_state && leb 5000 (elapsed t.now_ms c.auth_enter_ms)) ≡ false)
    → Moved t c (await_auth t c1).state
unfolding await_auth remote_state_next
await-Moved t c c1 h k late = elim (Bool-cases t.bits.auth_ok_bit) [
  | inl yes_bit ↦
      rw (yes_bit, await_auth) (told h refl (next_of c1 authenticating ready auth_ok k refl))
  | inr a ↦ elim (Bool-cases t.bits.auth_fail_bit) [
    | inl no_bit ↦
        rw (a, no_bit, await_auth) (gave_up (next_of c1 authenticating backoff auth_fail k refl))
    | inr b ↦ elim (Bool-cases (t.bits.wss_event && (c1.ws && not t.is_connected))) [
      | inl lost ↦
          rw (a, b, lost, await_auth) (gave_up (next_of c1 authenticating backoff wss_error k refl))
      | inr l ↦ elim (Bool-cases (leb 5000 (elapsed t.now_ms c1.auth_enter_ms))) [
        | inl timeout ↦
            rw (a, b, l, timeout, await_auth)
              (gave_up (next_of c1 authenticating backoff auth_timeout k refl))
        | inr early ↦ rw (a, b, l, early, await_auth) (waits k (late early) h)
      ]
    ]
  ]
]

auth-Moved :
    (w : World) (t : Tick) (c : Client)
    → c.state ≡ authenticating
    → Moved t c (on_authenticating w t c).0.state
unfolding on_authenticating send_auth_frame
auth-Moved w t c h = elim (Bool-cases (is_authenticating c.last_state)) [
  | inl before ↦ rw (before, on_authenticating) (await-Moved t c c h h (λ e. rw (before, e) refl))
  | inr new ↦ rw (new, on_authenticating) (await-Moved t c _ h h (λ e. rw new refl))
]

ready-Moved : (t : Tick) (c : Client) → c.state ≡ ready → Moved t c (on_ready t c).0.state
unfolding on_ready remote_state_next
ready-Moved t c h = elim (Bool-cases (c.ws && not t.is_connected)) [
  | inl lost ↦ rw (lost, on_ready) (gave_up (next_of c ready backoff wss_error h refl))
  | inr fine ↦ rw (fine, on_ready) (still h h)
]

backoff-Moved :
    (w : World) (t : Tick) (c : Client) → c.state ≡ backoff → Moved t c (on_backoff w t c).0.state
unfolding on_backoff remote_state_next
backoff-Moved w t c h = elim (Bool-cases t.aborted) [
  | inl early ↦ rw (early, on_backoff) (gave_up h)
  | inr waited ↦
      rw (waited, on_backoff) (again h (next_of c backoff connecting backoff_done h refl))
]

pub state-Moved :
    (w : World) (t : Tick) (c : Client) (s : State)
    → c.state ≡ s
    → Moved t c (on_state s w t c).0.state
unfolding on_state
state-Moved w t c disabled h = down (ap is_up h) (ap is_up h) (ap is_authenticating h)
state-Moved w t c idle_no_wifi h = idle-Moved t c h
state-Moved w t c connecting h = connecting-Moved t c h
state-Moved w t c authenticating h = auth-Moved w t c h
state-Moved w t c ready h = ready-Moved t c h
state-Moved w t c backoff h = backoff-Moved w t c h

abbrev bit : Client → Bool
bit c = c.auth_ok_set

abbrev bit_of : Client × List Action → Bool
bit_of r = r.0.auth_ok_set

await_bit : (t : Tick) (c : Client) → (await_auth t c).auth_ok_set ≡ c.auth_ok_set
unfolding await_auth
await_bit t c = if_same bit t.bits.auth_ok_bit _ _ _ refl (
    if_same bit t.bits.auth_fail_bit _ _ _ refl (
      if_same bit (t.bits.wss_event && (c.ws && not t.is_connected)) _ _ _ refl
        (if_same bit (leb 5000 (elapsed t.now_ms c.auth_enter_ms)) _ _ _ refl refl)))

socket_bit : (t : Tick) (c : Client) → (await_socket t c).auth_ok_set ≡ c.auth_ok_set
unfolding await_socket
socket_bit t c =
    if_same bit t.bits.wss_event _ _ _
      (if_same bit (c.ws && t.is_connected) (step c wss_connect) (step c wss_error) _ refl refl)
      refl

pub bit_kept :
    (w : World) (t : Tick) (c : Client) (s : State)
    → (on_state s w t c).0.auth_ok_set ≡ c.auth_ok_set
unfolding on_state on_disabled on_idle on_connecting on_authenticating on_ready on_backoff
    send_auth_frame
bit_kept w t c disabled = refl
bit_kept w t c idle_no_wifi = if_same bit t.uplink_has_ip _ _ _ refl refl
bit_kept w t c connecting =
    socket_bit t (with_socket t c) ∙ if_same bit c.ws c (record c { ws = t.init_ok }) _ refl refl
bit_kept w t c authenticating =
    if_same bit_of (is_authenticating c.last_state) _ _ _ (await_bit t c) (await_bit t _)
bit_kept w t c ready = if_same bit_of (c.ws && not t.is_connected) _ _ _ refl refl
bit_kept w t c backoff = if_same bit_of t.aborted _ _ _ refl refl
