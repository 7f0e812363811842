-- ===== src/WsServer/Clients.antt =====
-- components/ws_server/ws_server.cpp: the client table, `s_fds`, `s_fd_authed` and `s_fd_count`, and
-- the token. A file descriptor is an `int`, given by its bit pattern. Each function is one critical
-- section of `s_mutex`, or calls such; log lines are left out.
pub mod Lookup
pub mod Updates
pub mod Table
use zhac_net_core.Base.{
  ℕ, zero, suc, ◌-◌, Bool, true, false, ◌&&◌, ◌||◌, not, List, [], ◌∷◌, Option, none, some, ltb,
  ◌==◌, if◌then◌else◌, length, get_or, set, take, replicate, find_index,
}

abbrev pub max_ws_clients : ℕ
max_ws_clients = 3

pub record Clients : Type 0 where
  pub fds : List ℕ
  pub authed : List Bool
  pub count : ℕ
  pub api_token : List ℕ

unfoldable pub initial : Clients
initial = record {
  fds = replicate max_ws_clients 0;
  authed = replicate max_ws_clients false;
  count = 0;
  api_token = [];
}

-- The loop `for (i = 0; i < s_fd_count; i++) if (s_fds[i] == fd)`, to the first hit.
abbrev pub slot : Clients → ℕ → Option ℕ
slot s fd = find_index (λ x. x == fd) s.count s.fds

abbrev pub auth_off : Clients → Bool
auth_off s = length s.api_token == 0

unfoldable pub add_fd : Clients → ℕ → Bool → Clients × Bool
add_fd s fd authed = elim (slot s fd) [
  | some i ↦ (record s { authed = set s.authed i authed }, true)
  | none ↦
      if ltb s.count max_ws_clients
      then (
        record s {
          fds = set s.fds s.count fd;
          authed = set s.authed s.count authed;
          count = suc s.count;
        },
        true,
      )
      else (s, false)
]

-- What the calls do outside the table.
pub data Effect : Type 0 where
  send_timeout : ℕ → Effect
  trigger_close : ℕ → Effect
  send_frame : ℕ → Effect
  close_socket : ℕ → Effect
  hook_reply : Effect

unfoldable pub adopt_client : Clients → ℕ → Bool → Clients × List Effect
unfolding add_fd
adopt_client s fd authed =
    let (s', added) = add_fd s fd authed in
    (s', send_timeout fd ∷ (if added then [] else trigger_close fd ∷ []))

unfoldable pub ensure_fd : Clients → ℕ → Bool → Clients × List Effect
unfolding adopt_client
ensure_fd s fd authed_if_new = elim (slot s fd) [
  | some i ↦ (s, [])
  | none ↦ adopt_client s fd authed_if_new
]

-- `none` is the answer -1.
unfoldable pub remove_fd_quiet : Clients → ℕ → Clients × Option ℕ
remove_fd_quiet s fd = elim (slot s fd) [
  | none ↦ (s, none)
  | some i ↦
      let last = s.count - 1 in
      (
        record s {
          fds = set s.fds i (get_or s.fds last 0);
          authed = set s.authed i (get_or s.authed last false);
          count = last;
        },
        some last,
      )
]

abbrev pub is_some : Option ℕ → Bool
is_some none = false
is_some (some n) = true

unfoldable pub remove_fd : Clients → ℕ → Clients × Bool
unfolding remove_fd_quiet
remove_fd s fd = let (s', left) = remove_fd_quiet s fd in (s', is_some left)

unfoldable pub fd_is_authed : Clients → ℕ → Bool
fd_is_authed s fd = elim (slot s fd) [ none ↦ false | some i ↦ get_or s.authed i false ]

unfoldable pub fd_set_authed : Clients → ℕ → Clients
fd_set_authed s fd = elim (slot s fd) [
  | none ↦ s
  | some i ↦ record s { authed = set s.authed i true }
]

-- The loop over the first `n` entries.
unfoldable pub clear_first : ℕ → List Bool → List Bool
clear_first n [] = []
clear_first zero xs = xs
clear_first (suc n) (x ∷ xs) = false ∷ clear_first n xs

unfoldable pub fd_deauth_all : Clients → Clients
fd_deauth_all s = record s { authed = clear_first s.count s.authed }

abbrev pub client_count : Clients → ℕ
client_count s = s.count

-- `strncpy` into 33 bytes, of a text that is given without its NUL; `none` is a null pointer.
unfoldable pub set_api_token : Clients → Option (List ℕ) → Clients
set_api_token s none = record s { api_token = [] }
set_api_token s (some token) = record s { api_token = take 32 token }

unfoldable pub fd_may_receive : Clients → ℕ → Bool
fd_may_receive s fd = elim (slot s fd) [
  | none ↦ false
  | some i ↦ auth_off s || get_or s.authed i false
]

-- `ws_httpd_close_fn`
unfoldable pub close_fn : Clients → ℕ → Clients × List Effect
unfolding remove_fd
close_fn s fd = ((remove_fd s fd).0, close_socket fd ∷ [])
