-- ===== src/Examples/WsServer.antt =====
-- Runs of components/ws_server/ws_server.cpp.
use zhac_net_core.Base.{
  ℕ, ◌≡◌, refl, ◌↔◌, Bool, true, false, ◌&&◌, none, some, arith, ◌==◌, if◌then◌else◌, All,
}
use zhac_net_core.WsServer.Clients.{Clients, initial, add_fd, remove_fd_quiet, fd_deauth_all}
use zhac_net_core.WsServer.Clients.Lookup.{IsValid, status}
use zhac_net_core.WsServer.Clients.Table.{
  add_fd_lem, remove_fd_quiet_lem, fd_deauth_all_lem, is_some_state,
}
use zhac_net_core.WsServer.Send.{broadcast}
use zhac_net_core.WsServer.Send.Gate.{Allowed, at_lock, broadcast_gate}

initial-IsValid : IsValid initial
unfolding initial
initial-IsValid = record {
  fds_size = refl;
  authed_size = refl;
  bounded = omega arith;
  distinct = λ i j h k e. elim h [ ];
}

-- Socket 50 is signed in, socket 51 is not.
abbrev one : Clients
one = (add_fd initial 50 true).0

abbrev two : Clients
two = (add_fd one 51 false).0

one-IsValid : IsValid one
one-IsValid = (add_fd_lem initial 50 true initial-IsValid).0

two-IsValid : IsValid two
two-IsValid = (add_fd_lem one 51 false one-IsValid).0

add_fd_lem_example :
    let (s', added) = add_fd one 51 false in
    IsValid s'
    × ((g : ℕ) → status s' g ≡ (if added && g == 51 then some false else status one g))
    × ((added ≡ false) ↔ ((status one 51 ≡ none) × (one.count ≡ 3)))
    × (s'.api_token ≡ one.api_token)
add_fd_lem_example = add_fd_lem one 51 false one-IsValid

remove_fd_quiet_lem_example :
    let (s', left) = remove_fd_quiet two 50 in
    IsValid s'
    × ((g : ℕ) → status s' g ≡ (if g == 50 then none else status two g))
    × (left ≡ (if is_some_state (status two 50) then some s'.count else none))
    × (s'.api_token ≡ two.api_token)
remove_fd_quiet_lem_example = remove_fd_quiet_lem two 50 two-IsValid

abbrev live : ℕ → Bool
live fd = true

abbrev send_ok : ℕ → Bool
send_ok fd = fd == 50

broadcast_gate_example :
    let (s', effects) = broadcast true false live send_ok fd_deauth_all two in
    All (Allowed (at_lock live fd_deauth_all two) s') effects
broadcast_gate_example =
    broadcast_gate true false live send_ok fd_deauth_all two two-IsValid
      (λ t v. (fd_deauth_all_lem t v).0)
