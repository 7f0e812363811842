-- ===== src/Remote/Client/Frames.antt =====
-- What received frames do to the client of components/remote_client/remote_client.cpp.
use text.Mathlib.Text.{◌==◌ as str_eq}
use zhac_net_core.Remote.Allow.{remote_cmd_allowed}
use zhac_net_core.Base.{
  ℕ, ◌/◌, ◌≡◌, refl, sym, ap, ◌∙◌, ◌≢◌, ◌⊎◌, inl, inr, Bool, true, false, ◌&&◌, not, List, [], ◌∷◌,
  some, ◌==◌, if◌then◌else◌, Bool-cases, Option-cases, arith,
}
use zhac_net_core.Remote.State.{
  State, disabled, idle_no_wifi, connecting, authenticating, ready, backoff,
}
use zhac_net_core.Remote.Client.{
  Bytes, Client, Frame, World, Action, is_ready, is_authenticating, auth_reply, command,
  handle_rx_frame, send_auth_frame, remote_client_send_reply, refusal, dispatch,
}
use zhac_net_core.Remote.Client.Task.{drain_rx}

-- The second half of a pass leaves the event bit alone.
pub if_same {ℓ ℓ'} :
    {A : Type ℓ} {B : Type ℓ'} (f : A → B) (b : Bool) (x y : A) (z : B)
    → f x ≡ z
    → f y ≡ z
    → f (if b then x else y) ≡ z
if_same f true x y z p q = p
if_same f false x y z p q = q

-- A frame is the server's yes to the request `id`, and one of the frames is.
pub record IsYes (w : World) (id : ℕ) (f : Bytes) : Type 0 where
  pub frame : Frame
  pub parsed : w.parse f ≡ some frame
  pub ok : frame.ok ≡ true
  pub mine : frame.id ≡ id
  pub pending : id ≢ 0

unfoldable pub IsAccepted : World → ℕ → List Bytes → Type 0
IsAccepted w id [] = ⊥
IsAccepted w id (f ∷ fs) = IsYes w id f ⊎ IsAccepted w id fs

-- What one frame does to the state.
data Handled (w : World) (f : Bytes) (c c' : Client) : Type 0 where
  same :
      c'.state ≡ c.state
      → c'.auth_ok_set ≡ c.auth_ok_set
      → (is_authenticating c.state ≡ true → (c'.auth_id ≡ c.auth_id) ⊎ (c'.auth_id ≡ 0))
      → Handled w f c c'
  opened : c.state ≡ authenticating → c'.state ≡ ready → IsYes w c.auth_id f → Handled w f c c'

yes :
    {w : World} {id : ℕ} {f : Bytes}
    → (d : Frame) → w.parse f ≡ some d
    → d.ok ≡ true
    → d.id ≡ id
    → id ≢ 0
    → IsYes w id f
yes d e ok mine pending = record { frame = d; parsed = e; ok = ok; mine = mine; pending = pending }

authenticating_only : (s : State) → is_authenticating s ≡ true → s ≡ authenticating
authenticating_only disabled e = cc
authenticating_only idle_no_wifi e = cc
authenticating_only connecting e = cc
authenticating_only authenticating e = refl
authenticating_only ready e = cc
authenticating_only backoff e = cc

reply-Handled :
    (w : World) (f : Bytes) (c : Client) (d : Frame)
    → w.parse f ≡ some d
    → is_authenticating c.state ≡ true
    → Handled w f c (auth_reply c d).0
unfolding auth_reply
reply-Handled w f c d e signing = elim (Bool-cases (not (c.auth_id == 0) && d.id == c.auth_id)) [
  | inr other ↦ rw other (same refl refl (λ h. inl refl))
  | inl mine ↦ elim (Bool-cases d.ok) [
    | inl fine ↦
        rw (mine, fine)
          (opened (authenticating_only c.state signing) refl
            (yes d e fine (ground (arith, mine)) (λ h. ground (arith, mine, h))))
    | inr bad ↦ rw (mine, bad) (same refl refl (λ h. inr refl))
  ]
]

command_same :
    (w : World) (now : ℕ) (c : Client) (f : Bytes) (d : Frame)
    → let c' = (command w now c f d).0 in (c'.state ≡ c.state) × (c'.auth_ok_set ≡ c.auth_ok_set)
unfolding command send_auth_frame
command_same w now c f d =
    by_test (is_ready c.state && str_eq d.cmd "remote.auth")
      (not (remote_cmd_allowed w.privileged (some d.cmd)))
  where
    by_test :
        (challenge refused : Bool)
        → let (c', acts) : Client × List Action =
            if challenge
            then (
              record (send_auth_frame w c).0 { last_event_at = now / 1000 },
              (send_auth_frame w c).1,
            )
            else if refused
            then (c, remote_client_send_reply c (refusal d))
            else (record c { last_event_at = now / 1000 }, dispatch f ∷ []) in
          (c'.state ≡ c.state) × (c'.auth_ok_set ≡ c.auth_ok_set)
    by_test true refused = (refl, refl)
    by_test false true = (refl, refl)
    by_test false false = (refl, refl)

frame-Handled :
    (w : World) (now : ℕ) (c : Client) (f : Bytes) → Handled w f c (handle_rx_frame w now c f).0
unfolding handle_rx_frame
frame-Handled w now c f = elim (Option-cases (w.parse f)) [
  | inl e ↦ rw (e, handle_rx_frame) (same refl refl (λ h. inl refl))
  | inr (d, e) ↦ elim (Bool-cases (is_authenticating c.state)) [
    | inl signing ↦ rw (e, signing, handle_rx_frame) (reply-Handled w f c d e signing)
    | inr not_signing ↦
        let (state_same, bit_same) = command_same w now c f d in
        rw (e, not_signing, handle_rx_frame)
          (same state_same bit_same (λ h. absurd (ground (arith, h))))
  ]
]

nonzero : (w : World) (id : ℕ) (fs : List Bytes) → IsAccepted w id fs → id ≢ 0
unfolding IsAccepted
nonzero w id [] a = absurd a
nonzero w id (f ∷ fs) (inl y) = y.pending
nonzero w id (f ∷ fs) (inr a) = nonzero w id fs a

-- What all frames of a pass do to it.
pub data Drained (w : World) (fs : List Bytes) (c c' : Client) : Type 0 where
  kept : c'.state ≡ c.state → c'.auth_ok_set ≡ c.auth_ok_set → Drained w fs c c'
  opened :
      c.state ≡ authenticating → c'.state ≡ ready → IsAccepted w c.auth_id fs → Drained w fs c c'

not_both : (s : State) → s ≡ ready → s ≡ authenticating → ⊥
not_both s a b = cc

then_drained :
    (w : World) (f : Bytes) (fs : List Bytes) (c c1 c2 : Client)
    → Handled w f c c1
    → Drained w fs c1 c2
    → Drained w (f ∷ fs) c c2
unfolding IsAccepted
then_drained w f fs c c1 c2 (same s b id) (kept s' b') = kept (s' ∙ s) (b' ∙ b)
then_drained w f fs c c1 c2 (same s b id) (opened a r found) =
    by_id (id (ap is_authenticating (sym s ∙ a)))
  where
    by_id : (c1.auth_id ≡ c.auth_id) ⊎ (c1.auth_id ≡ 0) → Drained w (f ∷ fs) c c2
    by_id (inl e) = opened (sym s ∙ a) r (inr (rw e at found))
    by_id (inr e) = absurd (nonzero w c1.auth_id fs found e)
then_drained w f fs c c1 c2 (opened a r found) (kept s' b') = opened a (s' ∙ r) (inl found)
then_drained w f fs c c1 c2 (opened a r found) (opened a' r' found') =
    absurd (not_both c1.state r a')

pub drain-Drained :
    (w : World) (now : ℕ) (c : Client) (fs : List Bytes) → Drained w fs c (drain_rx w now c fs).0
unfolding drain_rx
drain-Drained w now c [] = kept refl refl
drain-Drained w now c (f ∷ fs) =
    let c1 = (handle_rx_frame w now c f).0 in
    then_drained w f fs c c1 (drain_rx w now c1 fs).0 (frame-Handled w now c f)
      (drain-Drained w now c1 fs)

-- The frames leave alone when and whether a sign-in began.
abbrev pub Clock : Client → Client → Type 0
Clock c c' = (c'.last_state ≡ c.last_state) × (c'.auth_enter_ms ≡ c.auth_enter_ms)

abbrev last_of : Client × List Action → State
last_of r = r.0.last_state

abbrev entered_of : Client × List Action → ℕ
entered_of r = r.0.auth_enter_ms

reply-Clock : (c : Client) (d : Frame) → Clock c (auth_reply c d).0
unfolding auth_reply
reply-Clock c d = (
  if_same last_of (not (c.auth_id == 0) && d.id == c.auth_id) _ _ _
      (if_same last_of d.ok _ _ _ refl refl) refl,
  if_same entered_of (not (c.auth_id == 0) && d.id == c.auth_id) _ _ _
      (if_same entered_of d.ok _ _ _ refl refl) refl,
)

command-Clock :
    (w : World) (now : ℕ) (c : Client) (f : Bytes) (d : Frame) → Clock c (command w now c f d).0
unfolding command send_auth_frame
command-Clock w now c f d = (
  if_same last_of (is_ready c.state && str_eq d.cmd "remote.auth") _ _ _ refl
      (if_same last_of (not (remote_cmd_allowed w.privileged (some d.cmd))) _ _ _ refl refl),
  if_same entered_of (is_ready c.state && str_eq d.cmd "remote.auth") _ _ _ refl
      (if_same entered_of (not (remote_cmd_allowed w.privileged (some d.cmd))) _ _ _ refl refl),
)

frame-Clock : (w : World) (now : ℕ) (c : Client) (f : Bytes) → Clock c (handle_rx_frame w now c f).0
unfolding handle_rx_frame
frame-Clock w now c f = elim (Option-cases (w.parse f)) [
  | inl e ↦ rw (e, handle_rx_frame) (refl, refl)
  | inr (d, e) ↦ elim (Bool-cases (is_authenticating c.state)) [
    | inl busy ↦ rw (e, busy, handle_rx_frame) (reply-Clock c d)
    | inr not_signing ↦ rw (e, not_signing, handle_rx_frame) (command-Clock w now c f d)
  ]
]

pub drain-Clock :
    (w : World) (now : ℕ) (c : Client) (fs : List Bytes) → Clock c (drain_rx w now c fs).0
unfolding drain_rx
drain-Clock w now c [] = (refl, refl)
drain-Clock w now c (f ∷ fs) =
    let (a, b) = frame-Clock w now c f in
    let (a', b') = drain-Clock w now (handle_rx_frame w now c f).0 fs in (a' ∙ a, b' ∙ b)
