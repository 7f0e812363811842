-- ===== src/Remote/Client/Commands.antt =====
-- Commands from the cloud and events to it, in components/remote_client/remote_client.cpp.
use text.Mathlib.Text.{◌==◌ as str_eq}
use Prim.Native.String.{String}
use zhac_net_core.Base.{
  ℕ, ◌/◌, ◌≡◌, ◌≢◌, ◌<◌, length, ltb, ltb→lt, refl, ap, ◌∙◌, Bool, true, false, ◌&&◌, not, inl, inr,
  Option-cases, Option, none, some, List, [], ◌∷◌, map, All, All-append, if◌then◌else◌, if_either,
  ◌==◌,
}
use zhac_net_core.Remote.State.{
  State, disabled, idle_no_wifi, connecting, authenticating, ready, backoff,
}
use zhac_net_core.Remote.Allow.{remote_cmd_allowed, remote_event_allowed}
use zhac_net_core.Remote.Client.{
  Bytes, Client, Frame, World, Action, send_text, dispatch, is_ready, is_authenticating, auth_reply,
  command, handle_rx_frame, send_auth_frame, remote_client_send_reply, refusal, TxAnswers, offer,
  if_fits, ws_event_envelope_build, remote_client_publish_event,
}
use zhac_net_core.Remote.Client.Task.{
  Tick, drain_rx, begun, on_state, on_disabled, on_idle, on_connecting, on_authenticating, on_ready,
  on_backoff, stop_ws_client, pass,
}

-- A frame whose command is on the allow-list.
pub record IsAllowed (w : World) (f : Bytes) : Type 0 where
  pub frame : Frame
  pub parsed : w.parse f ≡ some frame
  pub listed : remote_cmd_allowed w.privileged (some frame.cmd) ≡ true

-- No command of a frame is handed on that is not on the allow-list.
pub IsGated : World → Action → Type 0
IsGated w (dispatch f) = IsAllowed w f
IsGated w _ = Unit

module _ (w : World) where
  if_IsGated :
      (b : Bool) (xs ys : List Action)
      → All (IsGated w) xs
      → All (IsGated w) ys
      → All (IsGated w) (if b then xs else ys)
  if_IsGated true xs ys p q = p
  if_IsGated false xs ys p q = q

  if_second :
      (b : Bool) (x y : Client × List Action)
      → All (IsGated w) x.1
      → All (IsGated w) y.1
      → All (IsGated w) (if b then x else y).1
  if_second true x y p q = p
  if_second false x y p q = q

  send-IsGated : (b : Bool) (f : Bytes) → All (IsGated w) (if b then send_text f ∷ [] else [])
  unfolding IsGated
  send-IsGated true f = (tt, tt)
  send-IsGated false f = tt

  auth_frame-IsGated : (c : Client) → All (IsGated w) (send_auth_frame w c).1
  unfolding send_auth_frame
  auth_frame-IsGated c = send-IsGated _ _

  frame-IsGated :
      (now : ℕ) (c : Client) (f : Bytes) (d : Frame)
      → w.parse f ≡ some d
      → (b : Bool) → remote_cmd_allowed w.privileged (some d.cmd) ≡ b
      → let (c', acts) : Client × List Action =
          if not b
          then (c, remote_client_send_reply c (refusal d))
          else (record c { last_event_at = now / 1000 }, dispatch f ∷ []) in
        All (IsGated w) acts
  unfolding remote_client_send_reply IsGated
  frame-IsGated now c f d e true h = (record { frame = d; parsed = e; listed = h }, tt)
  frame-IsGated now c f d e false h = send-IsGated _ _

  command-IsGated :
      (now : ℕ) (c : Client) (f : Bytes) (d : Frame)
      → w.parse f ≡ some d
      → All (IsGated w) (command w now c f d).1
  unfolding command
  command-IsGated now c f d e =
      if_second (is_ready c.state && str_eq d.cmd "remote.auth") _ _ (auth_frame-IsGated c)
        (frame-IsGated now c f d e (remote_cmd_allowed w.privileged (some d.cmd)) refl)

  reply-IsGated : (c : Client) (d : Frame) → All (IsGated w) (auth_reply c d).1
  unfolding auth_reply IsGated
  reply-IsGated c d =
      if_second (not (c.auth_id == 0) && d.id == c.auth_id) _ _
        (if_second d.ok _ _ (tt, tt) (tt, tt)) tt

  rx-IsGated : (now : ℕ) (c : Client) (f : Bytes) → All (IsGated w) (handle_rx_frame w now c f).1
  unfolding handle_rx_frame
  rx-IsGated now c f = elim (Option-cases (w.parse f)) [
    | inl e ↦ rw (e, handle_rx_frame) tt
    | inr (d, e) ↦
        rw (e, handle_rx_frame)
          (if_second (is_authenticating c.state) _ _ (reply-IsGated c d)
            (command-IsGated now c f d e))
  ]

  drain-IsGated : (now : ℕ) (c : Client) (fs : List Bytes) → All (IsGated w) (drain_rx w now c fs).1
  unfolding drain_rx
  drain-IsGated now c [] = tt
  drain-IsGated now c (f ∷ fs) =
      All-append (IsGated w) _ _ (rx-IsGated now c f)
        (drain-IsGated now (handle_rx_frame w now c f).0 fs)

  texts-IsGated : (fs : List Bytes) → All (IsGated w) (map send_text fs)
  unfolding IsGated
  texts-IsGated [] = tt
  texts-IsGated (f ∷ fs) = (tt, texts-IsGated fs)

  stop-IsGated : (c : Client) → All (IsGated w) (stop_ws_client c)
  unfolding IsGated
  stop-IsGated c = if_IsGated c.ws _ _ (tt, tt) tt

  state-IsGated : (t : Tick) (c : Client) (s : State) → All (IsGated w) (on_state s w t c).1
  unfolding on_state on_disabled on_idle on_connecting on_authenticating on_ready on_backoff IsGated
  state-IsGated t c disabled = All-append (IsGated w) _ _ (stop-IsGated c) (tt, (tt, tt))
  state-IsGated t c idle_no_wifi = stop-IsGated c
  state-IsGated t c connecting = if_IsGated c.ws _ _ tt (tt, tt)
  state-IsGated t c authenticating =
      if_second (is_authenticating c.last_state) _ _ tt
        (auth_frame-IsGated (record c { auth_enter_ms = t.now_ms }))
  state-IsGated t c ready =
      if_second (c.ws && not t.is_connected) _ _ tt (if_IsGated c.ws _ _ (texts-IsGated t.tx) tt)
  state-IsGated t c backoff =
      if_second t.aborted _ _ (All-append (IsGated w) _ _ (stop-IsGated c) (tt, tt))
        (All-append (IsGated w) _ _ (stop-IsGated c) (tt, (tt, tt)))

-- Whatever a pass is told, every frame that it hands on to the dispatcher has a command on the
-- allow-list.
pub pass-IsGated : (w : World) (t : Tick) (c : Client) → All (IsGated w) (pass w t c).1
unfolding pass
pass-IsGated w t c =
    let c2 = (drain_rx w t.now_ms (begun t c) t.rx).0 in
    All-append (IsGated w) _ _ (drain-IsGated w t.now_ms (begun t c) t.rx)
      (state-IsGated w t c2 c2.state)

abbrev IsShort : ℕ → Option Bytes → Type 0
IsShort cap o = (json : Bytes) → o ≡ some json → length json < cap

none-IsShort : (cap : ℕ) → IsShort cap none
none-IsShort cap json e = cc

if_fits-IsShort :
    (cap : ℕ) (xs : Bytes) (o : Option Bytes) → IsShort cap o → IsShort cap (if_fits cap xs o)
unfolding if_fits
if_fits-IsShort cap xs o p =
    if_either (IsShort cap) (ltb (length xs) cap) (some xs) o fitting (λ h. p)
  where
    fitting : ltb (length xs) cap ≡ true → IsShort cap (some xs)
    fitting fits json e = let same : xs ≡ json = cc in rw (← same) (ltb→lt (length xs) cap fits)

envelope-IsShort :
    (cap : ℕ) (name : Bytes) (payload : Option Bytes)
    → IsShort cap (ws_event_envelope_build cap name payload)
unfolding ws_event_envelope_build
envelope-IsShort cap name payload =
    if_either (IsShort cap) (cap == 0) _ _ (λ h. none-IsShort cap)
      (λ h. if_fits-IsShort cap _ _ (if_fits-IsShort cap _ _ (none-IsShort cap)))

ready_only : (s : State) → is_ready s ≡ true → s ≡ ready
ready_only disabled e = cc
ready_only idle_no_wifi e = cc
ready_only connecting e = cc
ready_only authenticating e = cc
ready_only ready e = refl
ready_only backoff e = cc

-- What a call may answer.
record IsPublished (c : Client) (name : Option String) (text : Bytes) (payload : Option Bytes)
    (r : Client × Option Bytes) : Type 0 where
  gated :
      (json : Bytes)
      → r.1 ≡ some json
      → (c.running ≡ true)
        × (c.state ≡ ready)
        × (remote_event_allowed name ≡ true)
        × (ws_event_envelope_build 8192 text payload ≡ some json)
        × (length json < 8192)
  quiet : c.state ≢ ready → r.0 ≡ c

nothing :
    (c : Client) (name : Option String) (text : Bytes) (payload : Option Bytes)
    → IsPublished c name text payload (c, none)
nothing c name text payload = record { gated = λ json e. cc; quiet = λ h. refl }

offered :
    (c c' : Client) (name : Option String) (text json : Bytes) (payload : Option Bytes)
    (queued : Option Bytes)
    → c.running ≡ true
    → is_ready c.state ≡ true
    → remote_event_allowed name ≡ true
    → ws_event_envelope_build 8192 text payload ≡ some json
    → ((j : Bytes) → queued ≡ some j → json ≡ j)
    → IsPublished c name text payload (c', queued)
offered c c' name text json payload queued running up listed built same = record {
  gated = λ j e. (
    running,
    ready_only c.state up,
    listed,
    built ∙ ap some (same j e),
    envelope-IsShort 8192 text payload j (built ∙ ap some (same j e)),
  );
  quiet = λ h. absurd (h (ready_only c.state up));
}

publish-IsPublished :
    (c : Client) (alloc_ok : Bool) (q : TxAnswers) (name : Option String) (text : Bytes)
    (payload : Option Bytes)
    → IsPublished c name text payload (remote_client_publish_event c alloc_ok q name text payload)
unfolding remote_client_publish_event offer
publish-IsPublished c alloc_ok q name text payload =
    if_either P (not c.running) _ _ (λ h. stay)
      λ running.
        if_either P (not (remote_event_allowed name)) _ _ (λ h. stay)
          λ listed.
            if_either P (not (is_ready c.state)) _ _ (λ h. stay)
              λ up.
                if_either P (not alloc_ok) _ _ (λ h. stay)
                  λ h.
                    by_envelope (ws_event_envelope_build 8192 text payload) refl (truth running)
                      (truth listed) (truth up)
  where
    P : Client × Option Bytes → Type 0
    P = IsPublished c name text payload

    stay : IsPublished c name text payload (c, none)
    stay = nothing c name text payload

    truth : {b : Bool} → not b ≡ false → b ≡ true
    truth {b = true} h = refl
    truth {b = false} h = cc

    again : (b : Bool) (json j : Bytes) → (if b then some json else none) ≡ some j → json ≡ j
    again true json j e = cc
    again false json j e = cc

    by_envelope :
        (o : Option Bytes)
        → ws_event_envelope_build 8192 text payload ≡ o
        → c.running ≡ true
        → remote_event_allowed name ≡ true
        → is_ready c.state ≡ true
        → P (offer c q o)
    by_envelope none e running listed up = stay
    by_envelope (some json) e running listed up =
        if_either P q.sent _ _
          (λ h. offered c _ name text json payload _ running up listed e (λ j k. cc))
          (λ h. offered c _ name text json payload _ running up listed e (again q.sent_again json))

-- What `remote_client_publish_event` gives to the queue is the envelope of an event on the allow-list,
-- of less than 8192 bytes, and only while the task runs and is ready; without that nothing changes.
pub remote_client_publish_event_lem :
    (c : Client) (alloc_ok : Bool) (q : TxAnswers) (name : Option String) (text : Bytes)
    (payload : Option Bytes)
    → let (c', queued) = remote_client_publish_event c alloc_ok q name text payload in
      ((json : Bytes)
        → queued ≡ some json
        → (c.running ≡ true)
          × (c.state ≡ ready)
          × (remote_event_allowed name ≡ true)
          × (ws_event_envelope_build 8192 text payload ≡ some json)
          × (length json < 8192))
      × (c.state ≢ ready → c' ≡ c)
remote_client_publish_event_lem c alloc_ok q name text payload =
    let r = publish-IsPublished c alloc_ok q name text payload in (r.gated, r.quiet)
