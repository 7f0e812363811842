-- ===== src/WsBridge/SignIn.antt =====
-- What the dispatcher of main/ws_bridge.cpp does for a client that has not signed in, and for the cloud.
use Prim.Native.String.{String}
use text.Mathlib.Text.{◌==◌ as str_eq}
use zhac_net_core.Base.{
  ℕ, ◌≡◌, refl, ◌⊎◌, Bool, true, false, List, some, arith, if_either, length, All,
}
use zhac_net_core.Auth.{Auth, auth_is_locked}
use zhac_net_core.Auth.Same.{AreSame}
use zhac_net_core.WsServer.Clients.{fd_set_authed}
use zhac_net_core.Remote.Allow.{
  allowed_cmds, privileged_cmds, listed, remote_cmd_allowed, listed-fails,
}
use zhac_net_core.WsBridge.Dispatch.{
  Envelope, World, Action, reply, erase_flash, restart, WsCmd, System, dispatch_envelope,
}
use zhac_net_core.WsBridge.Gate.{IsPrinted, IsOneReply, dispatch_envelope-IsOneReply}

-- Neither the erasure nor the restart.
abbrev pub IsToClient : ℕ → Action → Type 0
IsToClient fd (reply g text) = g ≡ fd
IsToClient fd erase_flash = ⊥
IsToClient fd restart = ⊥

module _ {ℓ} (S : Type ℓ) where
  -- Apart from the failures, nothing changes, or the client is signed in, having shown the token; and
  -- nothing is done but to reply to that client.
  abbrev pub IsHeld : World → System S → ℕ → Envelope → System S × List Action → Type ℓ
  IsHeld w s fd e (s', acts) =
      All (IsToClient fd) acts
      × (s'.app ≡ s.app)
      × AreSame s.auth s'.auth
      × ((s'.clients ≡ s.clients)
          ⊎ ((s'.clients ≡ fd_set_authed s.clients fd)
              × (str_eq e.cmd "auth" ≡ true)
              × (auth_is_locked w.look 0 s.auth.buckets ≡ false)
              × (e.token ≡ s.auth.api_token)
              × (length s.auth.api_token ≡ 32)))

-- No name of either list is that of the erasure.
allowed-not_reset :
    (privileged : Bool) (cmd : String)
    → remote_cmd_allowed privileged (some cmd) ≡ true
    → str_eq cmd "system.storage_reset" ≡ false
unfolding remote_cmd_allowed
allowed-not_reset privileged cmd =
    let test : String → Bool = λ name. str_eq name "system.storage_reset" in
    if_either (λ b. b ≡ true → test cmd ≡ false) (str_eq cmd "") _ _ (λ h k. cc)
      (λ h.
        if_either (λ b. b ≡ true → test cmd ≡ false) (listed allowed_cmds cmd) _ _
          (λ k l. listed-fails test allowed_cmds cmd refl k)
          (λ k l. listed-fails test privileged_cmds cmd refl (ground (arith, l))))

module _ {ℓ} (S : Type ℓ) where
  -- A command that the cloud channel may invoke, with or without the privileged ones, is answered
  -- by one reply to the channel with its id: none of them erases the flash or restarts.
  pub remote-IsOneReply :
      (rows : List (WsCmd S)) (w : World) (s : System S) (fd : ℕ) (e : Envelope) (privileged : Bool)
      → IsPrinted e.id
      → remote_cmd_allowed privileged (some e.cmd) ≡ true
      → IsOneReply fd e.id (dispatch_envelope S rows w s fd e).1
  remote-IsOneReply rows w s fd e privileged printed allowed =
      dispatch_envelope-IsOneReply S rows w s fd e printed
        (allowed-not_reset privileged e.cmd allowed)
