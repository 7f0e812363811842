-- ===== src/Remote/State.antt =====
-- components/remote_client/remote_state.cpp and include/remote_state.h.
use zhac_net_core.Base.{◌≡◌, refl, ◌≢◌, ◌⊎◌, List, [], ◌∷◌, All, arith}

pub data State : Type 0 where
  disabled idle_no_wifi connecting authenticating ready backoff : State

pub data Event : Type 0 where
  enable disable wifi_up wifi_down wss_connect wss_error : Event
  auth_ok auth_fail auth_timeout backoff_done : Event

-- The `switch`, for the events that the two tests above it let through.
switch : State → Event → State
switch disabled enable = idle_no_wifi
switch disabled _ = disabled
switch idle_no_wifi wifi_up = connecting
switch idle_no_wifi _ = idle_no_wifi
switch connecting wss_connect = authenticating
switch connecting wss_error = backoff
switch connecting _ = connecting
switch authenticating auth_ok = ready
switch authenticating auth_fail = backoff
switch authenticating auth_timeout = backoff
switch authenticating wss_error = backoff
switch authenticating _ = authenticating
switch ready wss_error = backoff
switch ready _ = ready
switch backoff backoff_done = connecting
switch backoff _ = backoff

wifi_lost : State → State
wifi_lost disabled = disabled
wifi_lost _ = idle_no_wifi

unfoldable pub remote_state_next : State → Event → State
unfolding switch wifi_lost
remote_state_next cur disable = disabled
remote_state_next cur wifi_down = wifi_lost cur
remote_state_next cur ev = switch cur ev

-- A history of events, oldest first.
abbrev pub run : State → List Event → State
run s [] = s
run s (e ∷ es) = run (remote_state_next s e) es

-- The events of the first list occur in the second one, in that order.
pub data Within : List Event → List Event → Type 0 where
  none_left : {es : List Event} → Within [] es
  skip : {e : Event} {ds es : List Event} → Within ds es → Within ds (e ∷ es)
  take : {e : Event} {ds es : List Event} → Within ds es → Within (e ∷ ds) (e ∷ es)

Within-refl : (es : List Event) → Within es es
Within-refl [] = none_left
Within-refl (e ∷ es) = take (Within-refl es)

Within-trans : {as' bs cs : List Event} → Within as' bs → Within bs cs → Within as' cs
Within-trans none_left w = none_left
Within-trans v (skip w) = skip (Within-trans v w)
Within-trans (skip v) (take w) = skip (Within-trans v w)
Within-trans (take v) (take w) = take (Within-trans v w)

-- What has to happen before the channel is ready.
abbrev pub required : State → List Event
required disabled = enable ∷ wifi_up ∷ wss_connect ∷ auth_ok ∷ []
required idle_no_wifi = wifi_up ∷ wss_connect ∷ auth_ok ∷ []
required connecting = wss_connect ∷ auth_ok ∷ []
required authenticating = auth_ok ∷ []
required ready = []
required backoff = wss_connect ∷ auth_ok ∷ []

step-Within : (s : State) (e : Event) → Within (required s) (e ∷ required (remote_state_next s e))
unfolding remote_state_next
step-Within disabled enable = search (none_left, skip, take, Within-refl) depth 7
step-Within disabled _ = skip (Within-refl _)
step-Within idle_no_wifi enable = search (skip, take, Within-refl) depth 7
step-Within idle_no_wifi _ = search (skip, take, Within-refl) depth 7
step-Within connecting enable = search (skip, take, Within-refl) depth 7
step-Within connecting _ = search (skip, take, Within-refl) depth 7
step-Within authenticating enable = search (skip, take, Within-refl) depth 7
step-Within authenticating _ = search (skip, take, Within-refl) depth 7
step-Within ready e = none_left
step-Within backoff enable = search (skip, take, Within-refl) depth 7
step-Within backoff _ = search (skip, take, Within-refl) depth 7

-- A history that ends ready contains, in this order, all that was still required at its start: from
-- the disabled state an enable, a Wi-Fi connection, a socket and an accepted sign-in.
pub run-ready : (s : State) (es : List Event) → run s es ≡ ready → Within (required s) es
run-ready s [] h = rw h none_left
run-ready s (e ∷ es) h =
    Within-trans (step-Within s e) (take (run-ready (remote_state_next s e) es h))

-- The states in which the channel uses the network no longer.
abbrev pub IsOffline : State → Type 0
IsOffline s = (s ≡ disabled) ⊎ (s ≡ idle_no_wifi)

disabled_stays :
    (s : State) (es : List Event) → s ≡ disabled → All (λ e. e ≢ enable) es → run s es ≡ disabled
unfolding remote_state_next
disabled_stays s [] h quiet = h
disabled_stays s (e ∷ es) h quiet = disabled_stays (remote_state_next s e) es (ground arith) quiet.1

IsOffline-stays :
    (s : State) (es : List Event) → IsOffline s → All (λ e. e ≢ wifi_up) es → IsOffline (run s es)
unfolding remote_state_next
IsOffline-stays s [] h quiet = h
IsOffline-stays s (e ∷ es) h quiet =
    IsOffline-stays (remote_state_next s e) es (ground arith) quiet.1

-- After a disable the state is `disabled` until the next enable, and after the Wi-Fi is lost it is
-- `disabled` or `idle_no_wifi` until the Wi-Fi is back, from any state and whatever else happens.
pub run-IsOffline :
    (s : State) (es : List Event)
    → (All (λ e. e ≢ enable) es → run s (disable ∷ es) ≡ disabled)
      × (All (λ e. e ≢ wifi_up) es → IsOffline (run s (wifi_down ∷ es)))
unfolding remote_state_next
run-IsOffline s es = (
  (λ quiet. disabled_stays (remote_state_next s disable) es refl quiet),
  (λ quiet. IsOffline-stays (remote_state_next s wifi_down) es (ground arith) quiet),
)
