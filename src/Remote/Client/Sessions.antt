-- ===== src/Remote/Client/Sessions.antt =====
-- Sign-ins of components/remote_client/remote_client.cpp: what a pass of the task needs to be ready, and
-- how long it waits for it.
use zhac_net_core.Base.{◌≤◌, ◌≡◌, refl, sym, ap, ◌∙◌, ◌≢◌, ◌⊎◌, inl, inr, true, false, arith}
use zhac_net_core.Remote.State.{State, authenticating, ready}
use zhac_net_core.Remote.Client.{Client, World, is_authenticating}
use zhac_net_core.Remote.Client.Task.{Tick, drain_rx, begun, on_state, pass, elapsed}
use zhac_net_core.Remote.Client.Frames.{
  IsAccepted, Drained, kept, opened, drain-Drained, Clock, drain-Clock,
}
use zhac_net_core.Remote.Client.Moves.{
  is_up, Back, IsStepped, stepped, waited, begun-IsStepped, Moved, down, signing, waits, gave_up,
  told, still, again, state-Moved, bit_kept,
}

-- The event bit of an accepted sign-in is set in such a state only.
pub record IsSane (c : Client) : Type 0 where
  pub posted : c.auth_ok_set ≡ true → is_up c.state ≡ true

up_or_authenticating : (s : State) → s ≡ authenticating → is_up s ≡ true → ⊥
up_or_authenticating s a u = cc

-- A pass leaves a sane client, whatever it is told.
pub pass-IsSane : (w : World) (t : Tick) (c : Client) → IsSane (pass w t c).0
unfolding pass
pass-IsSane w t c = record { posted = λ h. by_start (begun-IsStepped t c) h }
  where
    by_drain :
        (c1 c2 : Client) (s' : State)
        → c1.auth_ok_set ≡ false
        → c2.auth_ok_set ≡ true
        → Drained w t.rx c1 c2
        → Moved t c2 s'
        → is_up s' ≡ true
    by_drain c1 c2 s' off on (kept k b) m = cc
    by_drain c1 c2 s' off on (opened a r found) (down x y z) = cc
    by_drain c1 c2 s' off on (opened a r found) (signing x y) = cc
    by_drain c1 c2 s' off on (opened a r found) (waits y l x) = cc
    by_drain c1 c2 s' off on (opened a r found) (gave_up y) = ap is_up y
    by_drain c1 c2 s' off on (opened a r found) (told x b y) = ap is_up y
    by_drain c1 c2 s' off on (opened a r found) (still x y) = ap is_up y
    by_drain c1 c2 s' off on (opened a r found) (again x y) = cc

    by_start :
        IsStepped (waited t c) (begun t c)
        → (pass w t c).0.auth_ok_set ≡ true
        → is_up (pass w t c).0.state ≡ true
    by_start (stepped back id b l m) h =
        let c2 = (drain_rx w t.now_ms (begun t c) t.rx).0 in
        by_drain (begun t c) c2 _ b (sym (bit_kept w t c2 c2.state) ∙ h)
          (drain-Drained w t.now_ms (begun t c) t.rx) (state-Moved w t c2 c2.state refl)

-- The wait answers EVB_AUTH_OK only if it has been set and not waited for since.
abbrev pub IsHeard : Tick → Client → Type 0
IsHeard t c = t.bits.auth_ok_bit ≡ true → c.auth_ok_set ≡ true

-- A pass that makes a client ready that was not was signing in before, and the server's yes to the
-- request that was under way is among the frames of the pass.
pub pass-ready :
    (w : World) (t : Tick) (c : Client)
    → IsSane c
    → IsHeard t c
    → c.state ≢ ready
    → (pass w t c).0.state ≡ ready
    → (c.state ≡ authenticating) × IsAccepted w c.auth_id t.rx
unfolding pass
pass-ready w t c sane heard before after =
    let c1 = begun t c in
    let c2 = (drain_rx w t.now_ms c1 t.rx).0 in
    by_start (begun-IsStepped t c) (drain-Drained w t.now_ms c1 t.rx)
      (state-Moved w t c2 c2.state refl)
  where
    by_drain :
        (c1 c2 : Client) (s' : State)
        → Back c.state c1.state
        → c1.auth_id ≡ c.auth_id
        → s' ≡ ready
        → Drained w t.rx c1 c2
        → Moved t c2 s'
        → (c.state ≡ authenticating) × IsAccepted w c.auth_id t.rx
    by_drain c1 c2 s' back id e (opened a r found) m = (back.1 a, rw (← id) found)
    by_drain c1 c2 s' back id e (kept k b) (still x y) = absurd (before (back.0 (sym k ∙ x)))
    by_drain c1 c2 s' back id e (kept k b) (told x bit y) =
        absurd (up_or_authenticating c.state (back.1 (sym k ∙ x)) (sane.posted (heard bit)))
    by_drain c1 c2 s' back id e (kept k b) (down x y z) = cc
    by_drain c1 c2 s' back id e (kept k b) (signing x y) = cc
    by_drain c1 c2 s' back id e (kept k b) (waits y l x) = cc
    by_drain c1 c2 s' back id e (kept k b) (gave_up y) = cc
    by_drain c1 c2 s' back id e (kept k b) (again x y) = cc

    by_start :
        IsStepped (waited t c) (begun t c)
        → Drained w t.rx (begun t c) (drain_rx w t.now_ms (begun t c) t.rx).0
        → Moved t
            (drain_rx w t.now_ms (begun t c) t.rx).0
            (on_state
              (drain_rx w t.now_ms (begun t c) t.rx).0.state
              w
              t
              (drain_rx w t.now_ms (begun t c) t.rx).0).0.state
        → (c.state ≡ authenticating) × IsAccepted w c.auth_id t.rx
    by_start (stepped back id b l m) d mv = by_drain (begun t c) _ _ back id after d mv

-- A sign-in that was under way 5 seconds after it began ends with the pass: the client is then not
-- signing in, or has begun to sign in anew.
pub pass_leaves :
    (w : World) (t : Tick) (c : Client)
    → c.last_state ≡ authenticating
    → 5000 ≤ elapsed t.now_ms c.auth_enter_ms
    → ((pass w t c).0.state ≢ authenticating) ⊎ ((pass w t c).0.last_state ≢ authenticating)
unfolding pass
pass_leaves w t c entered late = by_move (state-Moved w t c2 c2.state refl)
  where
    c2 : Client
    c2 = (drain_rx w t.now_ms (begun t c) t.rx).0

    clock : Clock c c2
    clock = by_step (begun-IsStepped t c) (drain-Clock w t.now_ms (begun t c) t.rx)
      where
        by_step : IsStepped (waited t c) (begun t c) → Clock (begun t c) c2 → Clock c c2
        by_step (stepped back id b l m) (a, e) = (a ∙ l, e ∙ m)

    by_move :
        Moved t c2 (on_state c2.state w t c2).0.state
        → ((on_state c2.state w t c2).0.state ≢ authenticating) ⊎ (c2.state ≢ authenticating)
    by_move (down x y z) = inl (λ h. cc)
    by_move (signing x y) = inr (λ h. cc)
    by_move (waits y l x) =
        absurd (ground (arith, l, late, clock.1, ap is_authenticating (clock.0 ∙ entered)))
    by_move (gave_up y) = inl (λ h. cc)
    by_move (told x b y) = inl (λ h. cc)
    by_move (still x y) = inl (λ h. cc)
    by_move (again x y) = inl (λ h. cc)
