-- ===== src/WsServer/Clients/Table.antt =====
-- The client table of components/ws_server/ws_server.cpp as a map from descriptors to sign-in states.
use zhac_net_core.Base.{
  ℕ, zero, suc, ◌-◌, ◌<◌, ◌≡◌, refl, ap, ◌∙◌, ◌≢◌, ◌↔◌, inl, inr, Bool, true, false, ◌&&◌, ◌||◌,
  List, [], ◌∷◌, Option, none, some, arith, ◌==◌, lt→ltb, le→ltb, ==_iff, if◌then◌else◌, Bool-cases,
  Option-cases, length, get_or,
}
use zhac_net_core.WsServer.Clients.{
  Clients, slot, add_fd, remove_fd_quiet, fd_is_authed, fd_set_authed, fd_deauth_all,
  fd_may_receive, auth_off, clear_first,
}
use zhac_net_core.WsServer.Clients.Lookup.{IsValid, status, Lookup, present, absent, find-slot}
use zhac_net_core.WsServer.Clients.Updates.{
  flagged, flagged-IsValid, status-flagged, pushed, pushed-IsValid, status-pushed, dropped,
  dropped-IsValid, status-dropped,
}

add_fd-present :
    (s : Clients) (v : IsValid s) (fd : ℕ) (a : Bool) (i : ℕ) (used : i < s.count)
    → slot s fd ≡ some i
    → add_fd s fd a ≡ (flagged s v i used a, true)
unfolding add_fd flagged
add_fd-present s v fd a i used e = rw (e, add_fd) refl

add_fd-absent :
    (s : Clients) (v : IsValid s) (fd : ℕ) (a : Bool) (space : s.count < 3)
    (fresh : (j : ℕ) → j < s.count → get_or s.fds j 0 ≢ fd)
    → slot s fd ≡ none
    → add_fd s fd a ≡ (pushed s v fd a space fresh, true)
unfolding add_fd pushed
add_fd-absent s v fd a space fresh e = rw (e, add_fd) (rw (lt→ltb s.count 3 space) refl)

add_fd-full :
    (s : Clients) (fd : ℕ) (a : Bool) → s.count ≡ 3 → slot s fd ≡ none → add_fd s fd a ≡ (s, false)
unfolding add_fd
add_fd-full s fd a full e = rw (e, add_fd) (rw (le→ltb s.count 3 (omega arith)) refl)

-- On a valid table, `add_fd` puts the descriptor into the map with the given state, or overwrites its
-- state, if the answer is true; every other entry of the map and the token stay. The answer is false
-- exactly for a new descriptor at a table of three.
pub add_fd_lem :
    (s : Clients) (fd : ℕ) (a : Bool)
    → IsValid s
    → let (s', added) = add_fd s fd a in
      IsValid s'
      × ((g : ℕ) → status s' g ≡ (if added && g == fd then some a else status s g))
      × ((added ≡ false) ↔ ((status s fd ≡ none) × (s.count ≡ 3)))
      × (s'.api_token ≡ s.api_token)
add_fd_lem s fd a v = at (find-slot s fd v)
  where
    at :
        Lookup s fd
        → let (s', added) = add_fd s fd a in
          IsValid s'
          × ((g : ℕ) → status s' g ≡ (if added && g == fd then some a else status s g))
          × ((added ≡ false) ↔ ((status s fd ≡ none) × (s.count ≡ 3)))
          × (s'.api_token ≡ s.api_token)
    at (present i e used same st) = rw (add_fd-present s v fd a i used e) (
      flagged-IsValid s v i used a,
      (λ g. status-flagged s v i used a g ∙ ap (λ z. if g == z then some a else status s g) same),
      ((λ h. cc), (λ h. cc)),
      unfold flagged in refl,
    )
    at (absent e nowhere st) = elim (Bool-cases (s.count == 3)) [
      | inl full ↦
          let is_full : s.count ≡ 3 = (==_iff s.count 3).0 full in
          rw (add_fd-full s fd a is_full e)
            (v, (λ g. refl), ((λ h. (st, is_full)), (λ h. refl)), refl)
      | inr more ↦
          let space : s.count < 3 = ground (arith, v.bounded) in
          rw (add_fd-absent s v fd a space nowhere e) (
            pushed-IsValid s v fd a space nowhere,
            status-pushed s v fd a space nowhere,
            ((λ h. cc), (λ h. absurd (omega arith))),
            unfold pushed in refl,
          )
    ]

remove-present :
    (s : Clients) (v : IsValid s) (fd i : ℕ) (used : i < s.count)
    → slot s fd ≡ some i
    → remove_fd_quiet s fd ≡ (dropped s v i used, some (s.count - 1))
unfolding remove_fd_quiet dropped
remove-present s v fd i used e = rw (e, remove_fd_quiet) refl

remove-absent : (s : Clients) (fd : ℕ) → slot s fd ≡ none → remove_fd_quiet s fd ≡ (s, none)
unfolding remove_fd_quiet
remove-absent s fd e = rw (e, remove_fd_quiet) refl

abbrev pub is_some_state : Option Bool → Bool
is_some_state none = false
is_some_state (some a) = true

absent_stays :
    (s : Clients) (fd g : ℕ)
    → status s fd ≡ none
    → status s g ≡ (if g == fd then none else status s g)
absent_stays s fd g st = elim (Bool-cases (g == fd)) [
  | inl here ↦ rw here (ap (status s) ((==_iff g fd).0 here) ∙ st)
  | inr other ↦ rw other refl
]

-- `remove_fd_quiet` takes the descriptor out of the map and leaves every other one with its own
-- sign-in state; the answer is -1 exactly when it was not there, and otherwise the new count.
pub remove_fd_quiet_lem :
    (s : Clients) (fd : ℕ)
    → IsValid s
    → let (s', left) = remove_fd_quiet s fd in
      IsValid s'
      × ((g : ℕ) → status s' g ≡ (if g == fd then none else status s g))
      × (left ≡ (if is_some_state (status s fd) then some s'.count else none))
      × (s'.api_token ≡ s.api_token)
remove_fd_quiet_lem s fd v = at (find-slot s fd v)
  where
    at :
        Lookup s fd
        → let (s', left) = remove_fd_quiet s fd in
          IsValid s'
          × ((g : ℕ) → status s' g ≡ (if g == fd then none else status s g))
          × (left ≡ (if is_some_state (status s fd) then some s'.count else none))
          × (s'.api_token ≡ s.api_token)
    at (present i e used same st) = rw (remove-present s v fd i used e) (
      dropped-IsValid s v i used,
      (λ g. status-dropped s v i used g ∙ ap (λ z. if g == z then none else status s g) same),
      unfold dropped in rw st refl,
      unfold dropped in refl,
    )
    at (absent e nowhere st) =
        rw (remove-absent s fd e) (v, (λ g. absent_stays s fd g st), rw st refl, refl)

abbrev pub granted : Option Bool → Bool
granted none = false
granted (some a) = a

-- The two questions asked of the table, in terms of the map: a descriptor is signed in if it is
-- registered as such, and may receive if it is registered and signed in or no token is set.
pub fd_may_receive_lem :
    (s : Clients) (fd : ℕ)
    → (fd_is_authed s fd ≡ granted (status s fd))
      × (fd_may_receive s fd
          ≡ (is_some_state (status s fd) && (auth_off s || granted (status s fd))))
unfolding fd_is_authed fd_may_receive status
fd_may_receive_lem s fd = elim (Option-cases (slot s fd)) [
  | inl e ↦ rw (e, fd_is_authed, fd_may_receive, status) (refl, refl)
  | inr (i, e) ↦ rw (e, fd_is_authed, fd_may_receive, status) (refl, refl)
]

abbrev pub mark : Bool → Option Bool → Option Bool
mark a none = none
mark a (some b) = some a

mark_present :
    (s : Clients) (fd g : ℕ) (b : Bool)
    → status s fd ≡ some b
    → (if g == fd then some true else status s g)
      ≡ (if g == fd then mark true (status s g) else status s g)
mark_present s fd g b st = elim (Bool-cases (g == fd)) [
  | inl here ↦ rw (here, ap (status s) ((==_iff g fd).0 here) ∙ st) refl
  | inr other ↦ rw other refl
]

mark_absent :
    (s : Clients) (fd g : ℕ)
    → status s fd ≡ none
    → status s g ≡ (if g == fd then mark true (status s g) else status s g)
mark_absent s fd g st = elim (Bool-cases (g == fd)) [
  | inl here ↦ rw (here, ap (status s) ((==_iff g fd).0 here) ∙ st) refl
  | inr other ↦ rw other refl
]

set_authed-present :
    (s : Clients) (v : IsValid s) (fd i : ℕ) (used : i < s.count)
    → slot s fd ≡ some i
    → fd_set_authed s fd ≡ flagged s v i used true
unfolding fd_set_authed flagged
set_authed-present s v fd i used e = rw (e, fd_set_authed) refl

set_authed-absent : (s : Clients) (fd : ℕ) → slot s fd ≡ none → fd_set_authed s fd ≡ s
unfolding fd_set_authed
set_authed-absent s fd e = rw (e, fd_set_authed) refl

-- A sign-in changes the state of that descriptor only, and only if it is registered.
pub fd_set_authed_lem :
    (s : Clients) (fd : ℕ)
    → IsValid s
    → IsValid (fd_set_authed s fd)
      × ((g : ℕ)
          → status (fd_set_authed s fd) g
            ≡ (if g == fd then mark true (status s g) else status s g))
fd_set_authed_lem s fd v = at (find-slot s fd v)
  where
    at :
        Lookup s fd
        → IsValid (fd_set_authed s fd)
          × ((g : ℕ)
              → status (fd_set_authed s fd) g
                ≡ (if g == fd then mark true (status s g) else status s g))
    at (present i e used same st) = rw (set_authed-present s v fd i used e) (
      flagged-IsValid s v i used true,
      λ g.
          status-flagged s v i used true g
          ∙ ap (λ z. if g == z then some true else status s g) same
          ∙ mark_present s fd g (get_or s.authed i false) st,
    )
    at (absent e nowhere st) = rw (set_authed-absent s fd e) (v, λ g. mark_absent s fd g st)

get_or-clear_first :
    (n : ℕ) (xs : List Bool) (i : ℕ) → i < n → get_or (clear_first n xs) i false ≡ false
unfolding clear_first
get_or-clear_first zero xs i h = elim h [ ]
get_or-clear_first (suc n) [] i h = refl
get_or-clear_first (suc n) (x ∷ xs) zero h = refl
get_or-clear_first (suc n) (x ∷ xs) (suc i) h = get_or-clear_first n xs i (omega arith)

length-clear_first : (n : ℕ) (xs : List Bool) → length (clear_first n xs) ≡ length xs
unfolding clear_first
length-clear_first n [] = refl
length-clear_first zero (x ∷ xs) = refl
length-clear_first (suc n) (x ∷ xs) = ap suc (length-clear_first n xs)

-- After a token rotation everybody who was registered still is, and nobody is signed in.
pub fd_deauth_all_lem :
    (s : Clients)
    → IsValid s
    → IsValid (fd_deauth_all s) × ((g : ℕ) → status (fd_deauth_all s) g ≡ mark false (status s g))
unfolding fd_deauth_all status
fd_deauth_all_lem s v = (
  record {
    fds_size = v.fds_size;
    authed_size = length-clear_first s.count s.authed ∙ v.authed_size;
    bounded = v.bounded;
    distinct = v.distinct;
  },
  λ g. at g (find-slot s g v),
)
  where
    at : (g : ℕ) → Lookup s g → status (fd_deauth_all s) g ≡ mark false (status s g)
    at g (absent e nowhere st) = rw (e, status) refl
    at g (present i e used same st) =
        rw (e, status) (ap some (get_or-clear_first s.count s.authed i used))
