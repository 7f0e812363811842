-- ===== src/Wifi/History.antt =====
-- When main/wifi_mgr.cpp erases the credentials, tries again and drops the access point, over any history.
use mathlib.Core.Path.{subst}
use zhac_net_core.Base.{
  ℕ, ◌+◌, ◌≤◌, ◌≡◌, refl, ap, ◌∙◌, inl, inr, Bool, true, false, ◌&&◌, List, [], ◌∷◌, none, some,
  arith, ltb, if_either, Option-cases,
}
use zhac_net_core.Wifi.{
  Bytes, Reason, credential_error, Wifi, Action, on_sta_disconnected, arm_reconnect_timer,
  clear_sta_creds, on_got_ip, ap_grace_cb, reconnect_timer_cb, improv_apply_sta,
  wifi_mgr_forget_and_reboot, Event, sta_start, sta_disconnected, got_ip, ap_station_joined,
  ap_station_left, reconnect_fires, grace_fires, improv_settings, forgotten, step,
}

-- The state after a history, oldest event first.
unfoldable pub run : Wifi → List Event → Wifi
run s [] = s
run s (e ∷ es) = run (step s e).0 es

-- How often the link was lost since there was an address, or new settings.
unfoldable pub losses : ℕ → List Event → ℕ
losses n [] = n
losses n (sta_start ∷ es) = losses n es
losses n (sta_disconnected timer_ok flash_ok reason ∷ es) = losses (n + 1) es
losses n (got_ip ap_disabled grace_ok ∷ es) = losses 0 es
losses n (ap_station_joined ∷ es) = losses n es
losses n (ap_station_left ∷ es) = losses n es
losses n (reconnect_fires ∷ es) = losses n es
losses n (grace_fires ∷ es) = losses n es
losses n (improv_settings flash_ok ssid pass ∷ es) = losses 0 es
losses n (forgotten flash_ok ∷ es) = losses n es

disconnected-retry :
    (timer_ok flash_ok : Bool) (s : Wifi) (reason : Reason)
    → (on_sta_disconnected timer_ok flash_ok s reason).0.retry_count ≡ s.retry_count + 1
unfolding on_sta_disconnected clear_sta_creds arm_reconnect_timer
disconnected-retry timer_ok flash_ok s reason =
    if_either {A = Wifi × List Action} (λ r. r.0.retry_count ≡ s.retry_count + 1)
      (credential_error reason && ltb 20 (s.retry_count + 1)) _ _
      (λ h.
        if_either {A = Wifi} (λ r. r.retry_count ≡ s.retry_count + 1) flash_ok _ _ (λ k. refl)
          (λ k. refl))
      (λ h.
        if_either {A = Wifi × List Action} (λ r. r.0.retry_count ≡ s.retry_count + 1) timer_ok _ _
          (λ k. refl) (λ k. refl))

grace-retry : (s : Wifi) → (ap_grace_cb s).0.retry_count ≡ s.retry_count
unfolding ap_grace_cb
grace-retry s =
    if_either {A = Wifi × List Action} (λ r. r.0.retry_count ≡ s.retry_count)
      (s.connected && s.ap_mode) _ _ (λ h. refl) (λ h. refl)

forget-retry :
    (flash_ok : Bool) (s : Wifi)
    → (wifi_mgr_forget_and_reboot flash_ok s).0.retry_count ≡ s.retry_count
unfolding wifi_mgr_forget_and_reboot
forget-retry true s = refl
forget-retry false s = refl

fires-retry : (s : Wifi) → (step s reconnect_fires).0.retry_count ≡ s.retry_count
unfolding step reconnect_timer_cb
fires-retry s = elim (Option-cases s.reconnect_ms) [ inl e ↦ rw e refl | inr (ms, e) ↦ rw e refl ]

-- The counter is the number of losses.
run-losses : (es : List Event) (s : Wifi) → (run s es).retry_count ≡ losses s.retry_count es
unfolding run losses step on_got_ip improv_apply_sta
run-losses [] s = refl
run-losses (sta_start ∷ es) s = run-losses es s
run-losses (sta_disconnected timer_ok flash_ok reason ∷ es) s =
    run-losses es (on_sta_disconnected timer_ok flash_ok s reason).0
    ∙ ap (λ n. losses n es) (disconnected-retry timer_ok flash_ok s reason)
run-losses (got_ip ap_disabled grace_ok ∷ es) s = run-losses es (on_got_ip ap_disabled grace_ok s).0
run-losses (ap_station_joined ∷ es) s = run-losses es s
run-losses (ap_station_left ∷ es) s = run-losses es s
run-losses (reconnect_fires ∷ es) s =
    run-losses es (step s reconnect_fires).0 ∙ ap (λ n. losses n es) (fires-retry s)
run-losses (grace_fires ∷ es) s =
    run-losses es (step s grace_fires).0
    ∙ ap (λ n. losses n es)
        (if_either {A = Wifi × List Action} (λ r. r.0.retry_count ≡ s.retry_count) s.grace_armed _ _
          (λ h. grace-retry s) (λ h. refl))
run-losses (improv_settings flash_ok ssid pass ∷ es) s =
    run-losses es (improv_apply_sta flash_ok s ssid pass).0
run-losses (forgotten flash_ok ∷ es) s =
    run-losses es (wifi_mgr_forget_and_reboot flash_ok s).0
    ∙ ap (λ n. losses n es) (forget-retry flash_ok s)

-- What may cost the credentials, after `n` losses.
abbrev pub MayErase : ℕ → Event → Type 0
MayErase n (sta_disconnected timer_ok flash_ok reason) = (credential_error reason ≡ true) × (20 ≤ n)
MayErase n (forgotten flash_ok) = Unit
MayErase n sta_start = ⊥
MayErase n (got_ip ap_disabled grace_ok) = ⊥
MayErase n ap_station_joined = ⊥
MayErase n ap_station_left = ⊥
MayErase n reconnect_fires = ⊥
MayErase n grace_fires = ⊥
MayErase n (improv_settings flash_ok ssid pass) = ⊥

abbrev HasLost : Event → Wifi → Wifi → Type 0
HasLost e s s' = (c : Bytes × Bytes) → s.creds ≡ some c → s'.creds ≡ none → MayErase s.retry_count e

kept :
    (e : Event) (s : Wifi) (c : Bytes × Bytes)
    → s.creds ≡ some c
    → s.creds ≡ none
    → MayErase s.retry_count e
kept e s c had lost = cc

step-HasLost : (e : Event) (s : Wifi) → HasLost e s (step s e).0
unfolding step on_sta_disconnected arm_reconnect_timer on_got_ip ap_grace_cb reconnect_timer_cb
    improv_apply_sta
step-HasLost sta_start s = kept sta_start s
step-HasLost (sta_disconnected timer_ok flash_ok reason) s =
    let e = sta_disconnected timer_ok flash_ok reason in
    if_either {A = Wifi × List Action} (λ r. HasLost e s r.0)
      (credential_error reason && ltb 20 (s.retry_count + 1)) _ _
      (λ h c had lost. (ground (arith, h), ground (arith, h)))
      (λ h.
        if_either {A = Wifi × List Action} (λ r. HasLost e s r.0) timer_ok _ _ (λ k. kept e s)
          (λ k. kept e s))
step-HasLost (got_ip ap_disabled grace_ok) s = kept (got_ip ap_disabled grace_ok) s
step-HasLost ap_station_joined s = kept ap_station_joined s
step-HasLost ap_station_left s = kept ap_station_left s
step-HasLost reconnect_fires s = elim (Option-cases s.reconnect_ms) [
  | inl e ↦ rw e (kept reconnect_fires s)
  | inr (ms, e) ↦ rw e (kept reconnect_fires s)
]
step-HasLost grace_fires s =
    if_either {A = Wifi × List Action} (λ r. HasLost grace_fires s r.0) s.grace_armed _ _
      (λ h.
        if_either {A = Wifi × List Action} (λ r. HasLost grace_fires s r.0)
          (s.connected && s.ap_mode) _ _ (λ k. kept grace_fires s) (λ k. kept grace_fires s))
      (λ h. kept grace_fires s)
step-HasLost (improv_settings true ssid pass) s = λ c had lost. absurd (some_none lost)
  where
    some_none : {c : Bytes × Bytes} → some c ≡ none → ⊥
    some_none h = cc
step-HasLost (improv_settings false ssid pass) s = kept (improv_settings false ssid pass) s
step-HasLost (forgotten flash_ok) s = λ c had lost. tt

-- After any history, an event costs stored credentials only if they are forgotten on request, or if the
-- link is lost for a wrong password or a handshake that timed out, after at least 20 losses, of
-- whatever reason, since there was an address or new settings.
pub creds_erased :
    (s : Wifi) (es : List Event) (e : Event) (c : Bytes × Bytes)
    → (run s es).creds ≡ some c
    → (step (run s es) e).0.creds ≡ none
    → MayErase (losses s.retry_count es) e
creds_erased s es e c had lost =
    subst (λ n. MayErase n e) (run-losses es s) (step-HasLost e (run s es) c had lost)
