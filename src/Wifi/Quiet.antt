-- ===== src/Wifi/Quiet.antt =====
-- The timers of main/wifi_mgr.cpp, and the access point, over any history.
use zhac_net_core.Base.{
  ℕ, ◌+◌, ◌≤◌, ◌≡◌, refl, ap, ◌⊎◌, inl, inr, Bool, true, false, ◌&&◌, List, [], ◌∷◌, Option, none,
  some, arith, ltb, if_either,
}
use zhac_net_core.Wifi.{
  Reason, credential_error, Wifi, Action, connect, backoff_ms, on_sta_disconnected,
  arm_reconnect_timer, clear_sta_creds, on_got_ip, ap_grace_cb, reconnect_timer_cb,
  improv_apply_sta, wifi_mgr_forget_and_reboot, Event, sta_start, sta_disconnected, got_ip,
  ap_station_joined, ap_station_left, reconnect_fires, grace_fires, improv_settings, forgotten,
  step,
}
use zhac_net_core.Wifi.History.{run}

-- While there is a link, no reconnect is waiting.
abbrev pub IsQuiet : Wifi → Type 0
IsQuiet s = s.connected ≡ true → s.reconnect_ms ≡ none

-- What one event does: the link's timer, and the access point.
record IsSafe (s s' : Wifi) : Type 0 where
  pub quiet : IsQuiet s → IsQuiet s'
  pub open_until : s.ap_mode ≡ true → s'.ap_mode ≡ false → s'.connected ≡ true

none-IsSafe : (s : Wifi) → IsSafe s s
none-IsSafe s = record { quiet = λ q. q; open_until = λ a b. cc }

fires-IsSafe :
    (s : Wifi) (o : Option ℕ)
    → let after : Wifi × List Action = elim o [ none ↦ (s, []) | some ms ↦ reconnect_timer_cb s ] in
      IsSafe s after.0
unfolding reconnect_timer_cb
fires-IsSafe s none = none-IsSafe s
fires-IsSafe s (some ms) = record { quiet = λ q c. refl; open_until = λ a b. cc }

step-IsSafe : (e : Event) (s : Wifi) → IsSafe s (step s e).0
unfolding step on_sta_disconnected arm_reconnect_timer clear_sta_creds on_got_ip ap_grace_cb
    reconnect_timer_cb improv_apply_sta wifi_mgr_forget_and_reboot
step-IsSafe sta_start s = none-IsSafe s
step-IsSafe (sta_disconnected timer_ok flash_ok reason) s =
    if_either {A = Wifi × List Action} (λ r. IsSafe s r.0)
      (credential_error reason && ltb 20 (s.retry_count + 1)) _ _
      (λ h.
        if_either (IsSafe s) flash_ok _ _
          (λ k. record { quiet = λ q c. cc; open_until = λ a b. cc })
          (λ k. record { quiet = λ q c. cc; open_until = λ a b. cc }))
      (λ h.
        if_either {A = Wifi × List Action} (λ r. IsSafe s r.0) timer_ok _ _
          (λ k. record { quiet = λ q c. cc; open_until = λ a b. cc })
          (λ k. record { quiet = λ q c. refl; open_until = λ a b. cc }))
step-IsSafe (got_ip ap_disabled grace_ok) s = record {
  quiet = λ q c. refl;
  open_until = λ a b. refl;
}
step-IsSafe ap_station_joined s = none-IsSafe s
step-IsSafe ap_station_left s = none-IsSafe s
step-IsSafe reconnect_fires s = fires-IsSafe s s.reconnect_ms
step-IsSafe grace_fires s =
    if_either {A = Wifi × List Action} (λ r. IsSafe s r.0) s.grace_armed _ _
      (λ h.
        if_either {A = Wifi × List Action} (λ r. IsSafe s r.0) (s.connected && s.ap_mode) _ _
          (λ k. record { quiet = λ q. q; open_until = λ a b. ground (arith, k) })
          (λ k. record { quiet = λ q. q; open_until = λ a b. cc }))
      (λ h. none-IsSafe s)
step-IsSafe (improv_settings flash_ok ssid pass) s = record {
  quiet = λ q c. refl;
  open_until = λ a b. cc;
}
step-IsSafe (forgotten true) s = record { quiet = λ q. q; open_until = λ a b. cc }
step-IsSafe (forgotten false) s = none-IsSafe s

run-IsQuiet : (es : List Event) (s : Wifi) → IsQuiet s → IsQuiet (run s es)
unfolding run
run-IsQuiet [] s q = q
run-IsQuiet (e ∷ es) s q = run-IsQuiet es (step s e).0 ((step-IsSafe e s).quiet q)

-- After any history of a unit whose link was down at first, or had no reconnect waiting: none waits while
-- there is a link, and an event that closes the access point leaves the link up.
pub run-safe :
    (s : Wifi) (es : List Event) (e : Event)
    → IsQuiet s
    → IsQuiet (run s es)
      × ((run s es).ap_mode ≡ true
          → (step (run s es) e).0.ap_mode ≡ false
          → (step (run s es) e).0.connected ≡ true)
run-safe s es e q = (run-IsQuiet es s q, (step-IsSafe e (run s es)).open_until)

abbrev pub IsRetried : Wifi → Reason → Wifi × List Action → Type 0
IsRetried s reason (s', acts) =
    ((ms : ℕ) × (s'.reconnect_ms ≡ some ms)
      × (ms ≤ 60000)
      × ((later : Wifi)
          → later.reconnect_ms ≡ some ms
          → step later reconnect_fires ≡ (record later { reconnect_ms = none }, connect ∷ [])))
    ⊎ ((acts ≡ connect ∷ []) ⊎ ((credential_error reason ≡ true) × (20 ≤ s.retry_count)))

armed_fires :
    (ms : ℕ) (later : Wifi)
    → later.reconnect_ms ≡ some ms
    → step later reconnect_fires ≡ (record later { reconnect_ms = none }, connect ∷ [])
unfolding step reconnect_timer_cb
armed_fires ms later e =
    ap
      (λ o. elim o as (λ x. Wifi × List Action) [
        | none ↦ (later, [])
        | some t ↦ (record later { reconnect_ms = none }, connect ∷ [])
      ])
      e

-- A lost link is followed by a new try: at once, or by a timer of at most a minute, whose end makes the
-- try in whatever state it finds the unit, as long as it is armed. The exception is a link lost for a
-- wrong password or a handshake that timed out, after 20 others.
pub on_sta_disconnected-IsRetried :
    (timer_ok flash_ok : Bool) (s : Wifi) (reason : Reason)
    → IsRetried s reason (on_sta_disconnected timer_ok flash_ok s reason)
unfolding on_sta_disconnected arm_reconnect_timer
on_sta_disconnected-IsRetried timer_ok flash_ok s reason =
    if_either {A = Wifi × List Action} (IsRetried s reason)
      (credential_error reason && ltb 20 (s.retry_count + 1)) _ _
      (λ h. inr (inr (ground (arith, h), ground (arith, h))))
      (λ h.
        if_either {A = Wifi × List Action} (IsRetried s reason) timer_ok _ _
          (λ k. inl (backoff_ms (s.retry_count + 1), refl, ground arith, armed_fires _))
          (λ k. inr (inl refl)))
