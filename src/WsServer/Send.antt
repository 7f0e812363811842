-- ===== src/WsServer/Send.antt =====
-- components/ws_server/ws_server.cpp: `send_locked`, `ws_server_broadcast` and `ws_server_reply`. The
-- HTTP server's answers are parameters: whether a frame could be sent to a descriptor, and whether it
-- still holds a WebSocket session. What other tasks do to the table while this one waits for
-- `s_tx_mutex` is the parameter `meanwhile`.
pub mod Loop
pub mod Gate
use zhac_net_core.Base.{
  ℕ, ◌^◌, Bool, true, false, ◌&&◌, ◌||◌, not, List, [], ◌∷◌, ◌++◌, map, Option, none, some, ltb,
  ◌==◌, if◌then◌else◌, get_or, zero, suc,
}
use zhac_net_core.WsServer.Clients.{
  Clients, Effect, send_frame, trigger_close, hook_reply, remove_fd_quiet, remove_fd,
  fd_may_receive, auth_off,
}

-- What the send loop has come to: the table, the frames sent and the descriptors to close.
pub record Sent : Type 0 where
  pub clients : Clients
  pub frames : List ℕ
  pub closes : List ℕ

-- A frame that could not be sent: the descriptor leaves the table, and is closed if it was there.
unfoldable pub evict : Clients → ℕ → Clients × List ℕ
evict s fd =
    let (s', left) = remove_fd_quiet s fd in (s', elim left [ none ↦ [] | some n ↦ fd ∷ [] ])

module _ (send_ok : ℕ → Bool) (recheck : Bool) where
  -- One round of the loop under `s_tx_mutex`.
  unfoldable pub send_one : Clients → ℕ → Sent
  unfolding evict
  send_one s fd =
      if recheck && not (fd_may_receive s fd)
      then record { clients = s; frames = []; closes = [] }
      else if send_ok fd
      then record { clients = s; frames = fd ∷ []; closes = [] }
      else record { clients = (evict s fd).0; frames = fd ∷ []; closes = (evict s fd).1 }

  unfoldable pub send_loop : Clients → List ℕ → Sent
  send_loop s [] = record { clients = s; frames = []; closes = [] }
  send_loop s (fd ∷ fds) =
      let one = send_one s fd in
      let rest = send_loop one.clients fds in
      record {
        clients = rest.clients;
        frames = one.frames ++ rest.frames;
        closes = one.closes ++ rest.closes;
      }

  unfoldable pub send_locked : Clients → List ℕ → Clients × List Effect
  unfolding send_loop
  send_locked s fds =
      let r = send_loop s fds in (r.clients, map send_frame r.frames ++ map trigger_close r.closes)

-- The snapshot of the first `n` entries.
unfoldable pub snapshot : ℕ → List ℕ → List Bool → List (ℕ × Bool)
snapshot zero fds authed = []
snapshot (suc n) [] authed = []
snapshot (suc n) (fd ∷ fds) [] = []
snapshot (suc n) (fd ∷ fds) (a ∷ authed) = (fd, a) ∷ snapshot n fds authed

-- One round of the loop that drops dead sessions and keeps those that may receive.
unfoldable pub target : (ℕ → Bool) → Bool → Clients → ℕ × Bool → Clients × List ℕ
target live auth_on s (fd, a) =
    if not (live fd)
    then ((remove_fd s fd).0, [])
    else (s, if auth_on && not a then [] else fd ∷ [])

unfoldable pub targets : (ℕ → Bool) → Bool → Clients → List (ℕ × Bool) → Clients × List ℕ
unfolding target
targets live auth_on s [] = (s, [])
targets live auth_on s (entry ∷ snap) =
    let (s1, kept) = target live auth_on s entry in
    let (s2, fds) = targets live auth_on s1 snap in (s2, kept ++ fds)

-- The end of `ws_server_broadcast`: nothing is done for nobody.
unfoldable pub deliver :
    (send_ok : ℕ → Bool) (meanwhile : Clients → Clients) → Clients → List ℕ → Clients × List Effect
unfolding send_locked
deliver send_ok meanwhile s [] = (s, [])
deliver send_ok meanwhile s (fd ∷ fds) = send_locked send_ok true (meanwhile s) (fd ∷ fds)

-- `started` is the test of the three handles.
unfoldable pub broadcast :
    (started in_broadcast : Bool) (live send_ok : ℕ → Bool) (meanwhile : Clients → Clients)
    → Clients
    → Clients × List Effect
unfolding targets snapshot deliver
broadcast started in_broadcast live send_ok meanwhile s =
    let (s', fds) = targets live (not (auth_off s)) s (snapshot s.count s.fds s.authed) in
    if not started || in_broadcast then (s, []) else deliver send_ok meanwhile s' fds

-- A negative `int` has its sign bit set.
abbrev is_negative : ℕ → Bool
is_negative fd = not (ltb fd (2 ^ 31))

-- `hook` is the registered sentinel, if there is one.
unfoldable pub reply :
    (started : Bool) (send_ok : ℕ → Bool) (hook : Option ℕ) → Clients → ℕ → Clients × List Effect
unfolding send_locked
reply started send_ok hook s fd =
    let direct =
      if not started || is_negative fd then (s, []) else send_locked send_ok false s (fd ∷ []) in
    elim hook [
      | none ↦ direct
      | some sentinel ↦ if fd == sentinel then (s, hook_reply ∷ []) else direct
    ]
