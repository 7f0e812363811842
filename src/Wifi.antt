-- ===== src/Wifi.antt =====
-- main/wifi_mgr.cpp: the station's reconnects, the provisioning access point and the stored credentials.
-- The Wi-Fi driver, the timers and the flash store are the SDK's: what is asked of them is a list of
-- actions, and whether a timer could be had is given. The reasons of a disconnect are those that the
-- source names.
pub mod History
pub mod Quiet
pub mod Portal
use zhac_net_core.Base.{
  ℕ, ◌+◌, ◌*◌, Bool, true, false, ◌&&◌, ◌||◌, not, List, [], ◌∷◌, ◌++◌, Option, none, some, ltb,
  ◌==◌, if◌then◌else◌, length,
}
use zhac_net_core.Auth.Startup.{hex_of}

abbrev pub Bytes : Type 0
Bytes = List ℕ

pub data Reason : Type 0 where
  auth_expire auth_leave assoc_toomany assoc_leave assoc_not_authed beacon_timeout : Reason
  no_ap_found auth_fail assoc_fail handshake_timeout connection_fail ap_tsf_reset : Reason
  roaming unknown : Reason

abbrev pub credential_error : Reason → Bool
credential_error auth_fail = true
credential_error handshake_timeout = true
credential_error auth_expire = false
credential_error auth_leave = false
credential_error assoc_toomany = false
credential_error assoc_leave = false
credential_error assoc_not_authed = false
credential_error beacon_timeout = false
credential_error no_ap_found = false
credential_error assoc_fail = false
credential_error connection_fail = false
credential_error ap_tsf_reset = false
credential_error roaming = false
credential_error unknown = false

-- The statics, the two timers (the time that the first is armed for, and whether the second is), and
-- the name and the password in the flash.
pub record Wifi : Type 0 where
  pub connected : Bool
  pub ap_mode : Bool
  pub retry_count : ℕ
  pub reconnect_ms : Option ℕ
  pub grace_armed : Bool
  pub dns_started : Bool
  pub sntp_started : Bool
  pub creds : Option (Bytes × Bytes)

pub data Action : Type 0 where
  connect disconnect mode_sta mode_apsta start_wifi mqtt_up ntp_start spawn_dns restart : Action
  configure_sta : (ssid pass : Bytes) → Action

abbrev pub max_sta_retries : ℕ
max_sta_retries = 20

abbrev pub backoff_ms : ℕ → ℕ
backoff_ms retry = if ltb 30 retry then 60000 else if ltb 5 retry then 10000 else 2000

-- `timer_ok` says whether the timer could be created and started.
unfoldable pub arm_reconnect_timer : (timer_ok : Bool) → Wifi → ℕ → Wifi × List Action
arm_reconnect_timer timer_ok s ms =
    if timer_ok
    then (record s { reconnect_ms = some ms }, [])
    else (record s { reconnect_ms = none }, connect ∷ [])

-- `flash_ok` says whether the flash could be opened.
unfoldable pub clear_sta_creds : (flash_ok : Bool) → Wifi → Wifi
clear_sta_creds flash_ok s = if flash_ok then record s { creds = none } else s

unfoldable pub on_sta_disconnected : (timer_ok flash_ok : Bool) → Wifi → Reason → Wifi × List Action
unfolding arm_reconnect_timer clear_sta_creds
on_sta_disconnected timer_ok flash_ok s reason =
    let retry = s.retry_count + 1 in
    let lost = record s { connected = false; grace_armed = false; retry_count = retry } in
    if credential_error reason && ltb max_sta_retries retry
    then (clear_sta_creds flash_ok lost, [])
    else arm_reconnect_timer timer_ok lost (backoff_ms retry)

-- `ap_disabled` is the stored setting, `grace_ok` whether that timer could be created.
unfoldable pub on_got_ip : (ap_disabled grace_ok : Bool) → Wifi → Wifi × List Action
on_got_ip ap_disabled grace_ok s =
    let up = record s {
      retry_count = 0;
      reconnect_ms = none;
      connected = true;
      sntp_started = true;
      ap_mode = if ap_disabled then false else s.ap_mode;
      grace_armed = if ap_disabled then s.grace_armed else s.grace_armed || (s.ap_mode && grace_ok);
    } in
    (
      up,
      mqtt_up
          ∷ ((if ap_disabled then mode_sta ∷ [] else [])
              ++ (if s.sntp_started then [] else ntp_start ∷ [])),
    )

unfoldable pub ap_grace_cb : Wifi → Wifi × List Action
ap_grace_cb s =
    let fired = record s { grace_armed = false } in
    if s.connected && s.ap_mode
    then (record fired { ap_mode = false }, mode_sta ∷ [])
    else (fired, [])

unfoldable pub reconnect_timer_cb : Wifi → Wifi × List Action
reconnect_timer_cb s = (record s { reconnect_ms = none }, connect ∷ [])

abbrev pub dns_actions : Wifi → List Action
dns_actions s = if s.dns_started then [] else spawn_dns ∷ []

unfoldable pub start_ap_mode : Wifi → Wifi × List Action
start_ap_mode s = (
  record s { ap_mode = true; connected = false; dns_started = true },
  mode_apsta ∷ start_wifi ∷ dns_actions s,
)

unfoldable pub start_sta_mode : Wifi → (ssid pass : Bytes) → Wifi × List Action
start_sta_mode s ssid pass = (
  record s { ap_mode = true; retry_count = 0; dns_started = true },
  mode_apsta ∷ configure_sta ssid pass ∷ start_wifi ∷ dns_actions s,
)

-- The start, after the driver's own; a name in the flash that is empty is none.
unfoldable pub wifi_mgr_init : Wifi → Wifi × List Action
unfolding start_ap_mode start_sta_mode
wifi_mgr_init s = elim s.creds [
  | none ↦ start_ap_mode s
  | some (ssid, pass) ↦ if length ssid == 0 then start_ap_mode s else start_sta_mode s ssid pass
]

unfoldable pub improv_apply_sta :
    (flash_ok : Bool) → Wifi → (ssid pass : Bytes) → Wifi × List Action
improv_apply_sta flash_ok s ssid pass = (
  record s {
    creds = if flash_ok then some (ssid, pass) else s.creds;
    connected = false;
    retry_count = 0;
    reconnect_ms = none;
  },
  disconnect ∷ configure_sta ssid pass ∷ connect ∷ [],
)

unfoldable pub wifi_mgr_forget_and_reboot : (flash_ok : Bool) → Wifi → Wifi × List Action
wifi_mgr_forget_and_reboot flash_ok s =
    (if flash_ok then record s { creds = none } else s, restart ∷ [])

-- What happens to the unit after its start, with what the SDK answers.
pub data Event : Type 0 where
  sta_start : Event
  sta_disconnected : (timer_ok flash_ok : Bool) → Reason → Event
  got_ip : (ap_disabled grace_ok : Bool) → Event
  ap_station_joined ap_station_left : Event
  reconnect_fires grace_fires : Event
  improv_settings : (flash_ok : Bool) → (ssid pass : Bytes) → Event
  forgotten : (flash_ok : Bool) → Event

-- `wifi_event_handler`, the timers' callbacks and the two calls from other tasks. A timer that is not
-- armed does not fire.
unfoldable pub step : Wifi → Event → Wifi × List Action
unfolding on_sta_disconnected on_got_ip reconnect_timer_cb ap_grace_cb improv_apply_sta
    wifi_mgr_forget_and_reboot
step s sta_start = (s, connect ∷ [])
step s (sta_disconnected timer_ok flash_ok reason) = on_sta_disconnected timer_ok flash_ok s reason
step s (got_ip ap_disabled grace_ok) = on_got_ip ap_disabled grace_ok s
step s ap_station_joined = (s, [])
step s ap_station_left = (s, [])
step s reconnect_fires = elim s.reconnect_ms [ none ↦ (s, []) | some ms ↦ reconnect_timer_cb s ]
step s grace_fires = if s.grace_armed then ap_grace_cb s else (s, [])
step s (improv_settings flash_ok ssid pass) = improv_apply_sta flash_ok s ssid pass
step s (forgotten flash_ok) = wifi_mgr_forget_and_reboot flash_ok s

-- `load_or_gen_ap_pass`: the password that is kept, if there is one, and else the stored one, if the
-- flash opens and has one, or 6 random bytes; `rnd` and `rnd_again` are the draws.
abbrev pub or_random : Bytes → (rnd : Bytes) → Bytes
or_random [] rnd = hex_of rnd
or_random (c ∷ cs) rnd = c ∷ cs

abbrev pub text_of : Option Bytes → Bytes
text_of none = []
text_of (some text) = text

unfoldable pub load_or_gen_ap_pass :
    (kept : Bytes) → (flash_ok : Bool) → (stored : Option Bytes) → (rnd rnd_again : Bytes) → Bytes
load_or_gen_ap_pass [] flash_ok stored rnd rnd_again =
    if flash_ok then or_random (or_random (text_of stored) rnd) rnd_again else hex_of rnd_again
load_or_gen_ap_pass (c ∷ cs) flash_ok stored rnd rnd_again = c ∷ cs
