-- ===== src/WsServer/Clients/Lookup.antt =====
-- The client table of components/ws_server/ws_server.cpp seen as a map.
use zhac_net_core.Base.{
  ℕ, ◌≤◌, ◌<◌, ◌≡◌, refl, sym, ◌∙◌, ◌≢◌, inl, inr, Bool, false, Option, none, some, arith, ◌==◌,
  ==_iff, Option-cases, length, get_or, find_index-some, find_index-none,
}
use zhac_net_core.WsServer.Clients.{Clients, slot}

-- The arrays have their size, at most three entries are used, and no descriptor is listed twice.
pub record IsValid (s : Clients) : Type 0 where
  pub fds_size : length s.fds ≡ 3
  pub authed_size : length s.authed ≡ 3
  pub bounded : s.count ≤ 3
  pub distinct : (i j : ℕ) → i < s.count → j < s.count → get_or s.fds i 0 ≡ get_or s.fds j 0 → i ≡ j

-- The sign-in state of a registered descriptor, `none` for any other.
unfoldable pub status : Clients → ℕ → Option Bool
status s g = elim (slot s g) [ none ↦ none | some i ↦ some (get_or s.authed i false) ]

-- Where a descriptor stands, or that it stands nowhere.
pub data Lookup (s : Clients) (g : ℕ) : Type 0 where
  present :
      (i : ℕ)
      → slot s g ≡ some i
      → i < s.count
      → get_or s.fds i 0 ≡ g
      → status s g ≡ some (get_or s.authed i false)
      → Lookup s g
  absent :
      slot s g ≡ none
      → ((j : ℕ) → j < s.count → get_or s.fds j 0 ≢ g)
      → status s g ≡ none
      → Lookup s g

pub find-slot : (s : Clients) (g : ℕ) → IsValid s → Lookup s g
unfolding status
find-slot s g v = elim (Option-cases (slot s g)) [
  | inl e ↦
      absent e
        (λ j below same.
          let miss =
            find_index-none (λ x. x == g) s.count s.fds 0 e j below
              (omega (arith, v.fds_size, v.bounded)) in
          ground (arith, same))
        (rw (e, status) refl)
  | inr (i, e) ↦
      let f = find_index-some (λ x. x == g) s.count s.fds 0 i e in
      present i e f.used ((==_iff _ _).0 f.hit) (rw (e, status) refl)
]

-- The entry at any used index decides.
pub status-at :
    (s : Clients) (g i : ℕ)
    → IsValid s
    → i < s.count
    → get_or s.fds i 0 ≡ g
    → status s g ≡ some (get_or s.authed i false)
status-at s g i v below here = at (find-slot s g v)
  where
    at : Lookup s g → status s g ≡ some (get_or s.authed i false)
    at (present k e used same st) =
        let eq : k ≡ i = v.distinct k i used below (same ∙ sym here) in rw (← eq) st
    at (absent e nowhere st) = absurd (nowhere i below here)

pub status-nowhere :
    (s : Clients) (g : ℕ)
    → IsValid s
    → ((j : ℕ) → j < s.count → get_or s.fds j 0 ≢ g)
    → status s g ≡ none
status-nowhere s g v nowhere = at (find-slot s g v)
  where
    at : Lookup s g → status s g ≡ none
    at (present k e used same st) = absurd (nowhere k used same)
    at (absent e nobody st) = st
