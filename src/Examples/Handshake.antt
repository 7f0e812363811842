-- ===== src/Examples/Handshake.antt =====
-- Runs of the handshake and of the frame handler of components/ws_server/ws_server.cpp.
use mathlib.Core.Path.{subst}
use zhac_net_core.Base.{
  ℕ, zero, suc, ◌≡◌, refl, ◌↔◌, ◌⊎◌, true, false, [], none, some, arith, length, replicate, All,
}
use zhac_net_core.WsServer.Clients.{Clients, fd_set_authed}
use zhac_net_core.WsServer.Clients.Lookup.{IsValid}
use zhac_net_core.WsServer.Handshake.{
  Bytes, Request, presented, detect_handshake_auth, ws_handler, probed, RxCallback,
}
use zhac_net_core.WsServer.Handshake.Sessions.{
  IsByte, detect_handshake_auth_lem, IsQuiet, ws_handler_lem,
}

abbrev key : Bytes
key = replicate 32 97

abbrev locked : Clients
locked = record { fds = replicate 3 0; authed = replicate 3 false; count = 0; api_token = key }

locked-IsValid : IsValid locked
locked-IsValid = record {
  fds_size = refl;
  authed_size = refl;
  bounded = omega arith;
  distinct = λ i j h k e. elim h [ ];
}

abbrev request : Request
request = record {
  fd = 50;
  is_get = false;
  api_key = some key;
  query_len = 0;
  query = none;
  token_of = λ q. none;
  probe = probed true (replicate 5 98);
  alloc_ok = true;
  read_error = none;
}

no_zero : (n : ℕ) → All IsByte (replicate n 97)
no_zero zero = tt
no_zero (suc n) = ((λ e. omega (arith, e)), no_zero n)

detect_handshake_auth_lem_example :
    (detect_handshake_auth locked request ≡ true)
    ↔ ((locked.api_token ≡ []) ⊎ ((presented request ≡ some key) × (length key ≡ 32)))
unfolding presented
detect_handshake_auth_lem_example =
    detect_handshake_auth_lem locked request (omega arith)
      (λ k e. let same : key ≡ k = cc in subst (All IsByte) same (no_zero 32))

-- A callback that signs in whoever sends something.
abbrev signs_in : RxCallback
signs_in s fd text = fd_set_authed s fd

ws_handler_lem_example :
    IsQuiet locked (some signs_in) request (ws_handler locked (some signs_in) request)
ws_handler_lem_example = ws_handler_lem locked (some signs_in) request locked-IsValid refl refl
