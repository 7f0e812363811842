-- ===== src/Examples/Wifi.antt =====
-- Runs of main/wifi_mgr.cpp.
use zhac_net_core.Base.{
  ◌≡◌, refl, Bool, true, false, List, [], ◌∷◌, ◌++◌, none, some, replicate, codes,
}
use zhac_net_core.Wifi.{
  Bytes, Wifi, no_ap_found, auth_fail, on_sta_disconnected, clear_sta_creds, arm_reconnect_timer,
  Event, sta_disconnected, step,
}
use zhac_net_core.Wifi.History.{run, losses, MayErase, creds_erased}
use zhac_net_core.Wifi.Quiet.{IsRetried, on_sta_disconnected-IsRetried}
use zhac_net_core.Wifi.Portal.{task_gpio_reset, HasHold, task_gpio_reset_lem}

abbrev home : Bytes × Bytes
home = (codes "home", codes "secret99")

abbrev station : Wifi
station = record {
  connected = true;
  ap_mode = true;
  retry_count = 0;
  reconnect_ms = none;
  grace_armed = false;
  dns_started = true;
  sntp_started = true;
  creds = some home;
}

-- An access point that is away, twenty times, and then one refused password.
abbrev away : List Event
away = replicate 20 (sta_disconnected true true no_ap_found)

abbrev refused : Event
refused = sta_disconnected true true auth_fail

kept_so_far : (run station away).creds ≡ some home
unfolding run step on_sta_disconnected clear_sta_creds arm_reconnect_timer
kept_so_far = refl

lost_then : (step (run station away) refused).0.creds ≡ none
unfolding run step on_sta_disconnected clear_sta_creds arm_reconnect_timer
lost_then = refl

creds_erased_example : MayErase (losses 0 away) refused
creds_erased_example = creds_erased station away refused home kept_so_far lost_then

on_sta_disconnected-IsRetried_example :
    IsRetried station no_ap_found (on_sta_disconnected true true station no_ap_found)
on_sta_disconnected-IsRetried_example = on_sta_disconnected-IsRetried true true station no_ap_found

abbrev tap : List Bool
tap = true ∷ true ∷ false ∷ []

task_gpio_reset_lem_example :
    (task_gpio_reset 300 (tap ++ (replicate 50 true ++ [])) ≡ true)
    × (task_gpio_reset 0 tap ≡ true → HasHold tap)
task_gpio_reset_lem_example = task_gpio_reset_lem tap tap [] 300
