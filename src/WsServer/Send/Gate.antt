-- ===== src/WsServer/Send/Gate.antt =====
-- Who gets a frame, and who is dropped, in components/ws_server/ws_server.cpp.
use zhac_net_core.Base.{
  ℕ, zero, suc, ◌≡◌, refl, sym, ◌∙◌, ◌⊎◌, ◌==◌, length, Option, some, inl, inr, Bool, true, false,
  ◌&&◌, ◌||◌, not, List, [], ◌∷◌, ◌++◌, none, arith, if◌then◌else◌, Bool-cases, All, map, All-map,
  map,
}
use zhac_net_core.WsServer.Clients.{
  Clients, Effect, send_frame, trigger_close, remove_fd_quiet, remove_fd, fd_may_receive, auth_off,
  fd_deauth_all, clear_first,
}
use zhac_net_core.WsServer.Clients.Lookup.{IsValid, status}
use zhac_net_core.WsServer.Clients.Table.{
  is_some_state, granted, remove_fd_quiet_lem, fd_may_receive_lem,
}
use zhac_net_core.WsServer.Send.{
  send_loop, send_locked, snapshot, target, targets, deliver, broadcast,
}
use zhac_net_core.WsServer.Send.Loop.{member, fails, loop-Outcome}

-- The descriptor is registered, and signed in if a token is set.
abbrev pub MayGet : Clients → ℕ → Type 0
MayGet t f = (a : Bool) × (status t f ≡ some a) × ((t.api_token ≡ []) ⊎ (a ≡ true))

may_get :
    (o : Option Bool) (token : List ℕ)
    → (is_some_state o && (length token == 0 || granted o)) ≡ true
    → (a : Bool) × (o ≡ some a) × ((token ≡ []) ⊎ (a ≡ true))
may_get none token h = absurd (ground (arith, h))
may_get (some true) token h = (true, refl, inr refl)
may_get (some false) [] h = (false, refl, inl refl)
may_get (some false) (x ∷ xs) h = absurd (ground (arith, h))

-- What an effect of a send may be, where `t` is the table when the lock is taken and `t'` after it.
abbrev pub Allowed : Clients → Clients → Effect → Type 0
Allowed t t' (send_frame f) = MayGet t f
Allowed t t' (trigger_close f) = (is_some_state (status t f) ≡ true) × (status t' f ≡ none)
Allowed t t' _ = ⊥

effects-Allowed :
    (t t' : Clients) (frames closes : List ℕ)
    → All (λ f. fd_may_receive t f ≡ true) frames
    → All (λ f. (is_some_state (status t f) ≡ true) × (status t' f ≡ none)) closes
    → All (Allowed t t') (map send_frame frames ++ map trigger_close closes)
effects-Allowed t t' [] [] h k = tt
effects-Allowed t t' [] (c ∷ closes) h k = (k.0, effects-Allowed t t' [] closes h k.1)
effects-Allowed t t' (f ∷ frames) closes h k = (
  may_get (status t f) t.api_token (sym (fd_may_receive_lem t f).1 ∙ h.0),
  effects-Allowed t t' frames closes h.1 k,
)

-- Of the descriptors given, those for which a send is tried and fails leave the table; no other
-- descriptor leaves it or changes its sign-in state, the token stays, and the table stays valid.
pub send_locked_lem :
    (send_ok : ℕ → Bool) (recheck : Bool) (s : Clients) (fds : List ℕ)
    → IsValid s
    → let (s', effects) = send_locked send_ok recheck s fds in
      IsValid s'
      × ((g : ℕ)
          → status s' g ≡ (if member g fds && fails send_ok recheck s g then none else status s g))
      × (s'.api_token ≡ s.api_token)
unfolding send_locked
send_locked_lem send_ok recheck s fds v =
    let o = loop-Outcome send_ok recheck s fds v in (o.valid, o.kept, o.token)

targets-IsValid :
    (live : ℕ → Bool) (auth_on : Bool) (s : Clients) (snap : List (ℕ × Bool))
    → IsValid s
    → IsValid (targets live auth_on s snap).0
unfolding targets target remove_fd
targets-IsValid live auth_on s [] v = v
targets-IsValid live auth_on s ((fd, a) ∷ snap) v = elim (Bool-cases (live fd)) [
  | inl alive ↦ rw alive (targets-IsValid live auth_on s snap v)
  | inr dead ↦
      rw dead
        (targets-IsValid live auth_on (remove_fd_quiet s fd).0 snap (remove_fd_quiet_lem s fd v).0)
]

-- The table when a broadcast has taken the lock: its own snapshot loop, then what others did.
abbrev pub at_lock : (ℕ → Bool) → (Clients → Clients) → Clients → Clients
at_lock live meanwhile s =
    meanwhile (targets live (not (auth_off s)) s (snapshot s.count s.fds s.authed)).0

deliver-Allowed :
    (send_ok : ℕ → Bool) (meanwhile : Clients → Clients) (s : Clients) (fds : List ℕ)
    → IsValid (meanwhile s)
    → let (s', effects) = deliver send_ok meanwhile s fds in All (Allowed (meanwhile s) s') effects
unfolding deliver
deliver-Allowed send_ok meanwhile s [] v = tt
deliver-Allowed send_ok meanwhile s (fd ∷ fds) v =
    let o = loop-Outcome send_ok true (meanwhile s) (fd ∷ fds) v in
    let r = send_loop send_ok true (meanwhile s) (fd ∷ fds) in
    effects-Allowed (meanwhile s) r.clients r.frames r.closes
      (All-map r.frames (λ f h. h refl) o.sent) o.closed

-- Whatever other tasks do while a broadcast waits for its turn, a frame goes out only to a descriptor
-- that is registered, and signed in if a token is set, once the turn has come; and a session is closed
-- only if its descriptor was registered then and is no longer. There is no other effect.
pub broadcast_gate :
    (started in_broadcast : Bool) (live send_ok : ℕ → Bool) (meanwhile : Clients → Clients)
    (s : Clients)
    → IsValid s
    → ((t : Clients) → IsValid t → IsValid (meanwhile t))
    → let (s', effects) = broadcast started in_broadcast live send_ok meanwhile s in
      All (Allowed (at_lock live meanwhile s) s') effects
unfolding broadcast
broadcast_gate started in_broadcast live send_ok meanwhile s v keeps =
    elim (Bool-cases (not started || in_broadcast)) [
      | inl idle ↦ rw idle tt
      | inr runs ↦
          let snap = snapshot s.count s.fds s.authed in
          let reached = targets live (not (auth_off s)) s snap in
          rw runs (
            deliver-Allowed send_ok meanwhile reached.0 reached.1
              (keeps reached.0 (targets-IsValid live (not (auth_off s)) s snap v)))
    ]

targets-deauth :
    (live : ℕ → Bool) (s : Clients) (n : ℕ) (fds : List ℕ) (authed : List Bool)
    → (targets live true s (snapshot n fds (clear_first n authed))).1 ≡ []
unfolding targets snapshot clear_first
targets-deauth live s zero fds authed = refl
targets-deauth live s (suc n) [] authed = refl
targets-deauth live s (suc n) (fd ∷ fds) [] = refl
targets-deauth live s (suc n) (fd ∷ fds) (a ∷ authed) = elim (Bool-cases (live fd)) [
  | inl alive ↦ rw alive (targets-deauth live s n fds authed)
  | inr dead ↦ rw dead (targets-deauth live (remove_fd s fd).0 n fds authed)
]

-- After the token was rotated nobody gets a broadcast, until somebody signs in.
pub broadcast-deauth :
    (started in_broadcast : Bool) (live send_ok : ℕ → Bool) (meanwhile : Clients → Clients)
    (s : Clients)
    → auth_off s ≡ false
    → (broadcast started in_broadcast live send_ok meanwhile (fd_deauth_all s)).1 ≡ []
unfolding broadcast fd_deauth_all
broadcast-deauth started in_broadcast live send_ok meanwhile s on =
    rw (on, targets-deauth live (fd_deauth_all s) s.count s.fds s.authed) (ground arith)
