-- ===== src/WsServer/Send/Loop.antt =====
-- What the send loop does to the table, in components/ws_server/ws_server.cpp.
use zhac_net_core.Base.{
  ℕ, ◌≡◌, refl, sym, ap, ◌∙◌, inl, inr, Bool, true, false, ◌&&◌, ◌||◌, not, List, [], ◌∷◌, ◌++◌,
  Option, none, arith, ◌==◌, ==_iff, if◌then◌else◌, length, Bool-cases, All, All-append, All-map,
}
use zhac_net_core.WsServer.Clients.{Clients, fd_may_receive}
use zhac_net_core.WsServer.Clients.Lookup.{IsValid, status}
use zhac_net_core.WsServer.Clients.Table.{
  is_some_state, granted, remove_fd_quiet_lem, fd_may_receive_lem,
}
use zhac_net_core.WsServer.Send.{Sent, evict, send_one, send_loop}

-- What one eviction does to the table.
evict_lem :
    (s : Clients) (fd : ℕ)
    → IsValid s
    → IsValid (evict s fd).0
      × ((g : ℕ) → status (evict s fd).0 g ≡ (if g == fd then none else status s g))
      × ((evict s fd).0.api_token ≡ s.api_token)
      × ((evict s fd).1 ≡ (if is_some_state (status s fd) then fd ∷ [] else []))
unfolding evict
evict_lem s fd v =
    let (v', st, left, token) = remove_fd_quiet_lem s fd v in (v', st, token, ground (arith, left))

may-eq :
    (t s : Clients) (g : ℕ)
    → status t g ≡ status s g
    → t.api_token ≡ s.api_token
    → fd_may_receive t g ≡ fd_may_receive s g
may-eq t s g same token =
    (fd_may_receive_lem t g).1
    ∙ (λ i. is_some_state (same i) && (length (token i) == 0 || granted (same i)))
    ∙ sym (fd_may_receive_lem s g).1

may-none : (t : Clients) (g : ℕ) → status t g ≡ none → fd_may_receive t g ≡ false
may-none t g gone = (fd_may_receive_lem t g).1 ∙ rw gone refl

abbrev pub member : ℕ → List ℕ → Bool
member g [] = false
member g (f ∷ fds) = g == f || member g fds

module _ (send_ok : ℕ → Bool) (recheck : Bool) where
  -- A send to the descriptor is tried, and it fails.
  abbrev pub fails : Clients → ℕ → Bool
  fails s fd = (not recheck || fd_may_receive s fd) && not (send_ok fd)

  pub record Outcome (s : Clients) (fds : List ℕ) (r : Sent) : Type 0 where
    pub valid : IsValid r.clients
    pub kept :
        (g : ℕ) → status r.clients g ≡ (if member g fds && fails s g then none else status s g)
    pub token : r.clients.api_token ≡ s.api_token
    pub sent : All (λ f. (recheck ≡ true) → fd_may_receive s f ≡ true) r.frames
    pub closed :
        All (λ f. (is_some_state (status s f) ≡ true) × (status r.clients f ≡ none)) r.closes

  only : (s : Clients) (fd g : ℕ) → (member g (fd ∷ []) && fails s g) ≡ ((g == fd) && fails s fd)
  only s fd g = elim (Bool-cases (g == fd)) [
    | inl here ↦ let e : g ≡ fd = (==_iff g fd).0 here in rw e (ground arith)
    | inr other ↦ rw other refl
  ]

  evict_closed :
      (s : Clients) (fd : ℕ)
      → IsValid s
      → All
          (λ f. (is_some_state (status s f) ≡ true) × (status (evict s fd).0 f ≡ none))
          (evict s fd).1
  evict_closed s fd v =
      let (v', st, token, closes) = evict_lem s fd v in
      elim (Bool-cases (is_some_state (status s fd))) [
        | inl there ↦ rw (closes, there) ((there, ground (arith, st fd)), tt)
        | inr gone ↦ rw (closes, gone) tt
      ]

  one-Outcome :
      (s : Clients) (fd : ℕ) → IsValid s → Outcome s (fd ∷ []) (send_one send_ok recheck s fd)
  unfolding send_one
  one-Outcome s fd v = elim (Bool-cases (recheck && not (fd_may_receive s fd))) [
    | inl skips ↦ rw skips (record {
      valid = v;
      kept = λ g. rw (only s fd g) (ground arith);
      token = refl;
      sent = tt;
      closed = tt;
    })
    | inr tries ↦ elim (Bool-cases (send_ok fd)) [
      | inl good ↦
          rw (tries, good)
            (record {
              valid = v;
              kept = λ g. rw (only s fd g) (ground arith);
              token = refl;
              sent = ((λ h. ground arith), tt);
              closed = tt;
            })
      | inr bad ↦
          let (v', st, token, closes) = evict_lem s fd v in
          rw (tries, bad)
            (record {
              valid = v';
              kept = λ g. rw (only s fd g) (ground (arith, st g));
              token = token;
              sent = ((λ h. ground arith), tt);
              closed = evict_closed s fd v;
            })
    ]
  ]

  -- An entry that the first round left alone counts the same in the rest.
  fails-eq :
      (t s : Clients) (g : ℕ)
      → status t g ≡ status s g
      → t.api_token ≡ s.api_token
      → fails t g ≡ fails s g
  fails-eq t s g same token =
      ap (λ b. (not recheck || b) && not (send_ok g)) (may-eq t s g same token)

  module _ (s : Clients) (fd : ℕ) (fds : List ℕ) (r1 r2 : Sent) (o1 : Outcome s (fd ∷ []) r1)
      (o2 : Outcome r1.clients fds r2) where
    once : (g : ℕ) → status r1.clients g ≡ (if (g == fd) && fails s fd then none else status s g)
    once g = o1.kept g ∙ ap (λ b. if b then none else status s g) (only s fd g)

    kept-both :
        (g : ℕ)
        → status r2.clients g ≡ (if member g (fd ∷ fds) && fails s g then none else status s g)
    kept-both g = elim (Bool-cases ((g == fd) && fails s fd)) [
      | inl lost ↦
          let gone : status r1.clients g ≡ none = once g ∙ rw lost refl in
          let hit : (member g (fd ∷ []) && fails s g) ≡ true = only s fd g ∙ lost in
          o2.kept g ∙ rw gone (ground (arith, hit))
      | inr stays ↦
          let same : status r1.clients g ≡ status s g = once g ∙ rw stays refl in
          let miss : (member g (fd ∷ []) && fails s g) ≡ false = only s fd g ∙ stays in
          o2.kept g ∙ rw (same, fails-eq r1.clients s g same o1.token) (ground (arith, miss))
    ]

    fewer : (f : ℕ) → fd_may_receive r1.clients f ≡ true → fd_may_receive s f ≡ true
    fewer f h = elim (Bool-cases ((f == fd) && fails s fd)) [
      | inl lost ↦
          let gone : fd_may_receive r1.clients f ≡ false =
            may-none r1.clients f (once f ∙ rw lost refl) in
          cc
      | inr stays ↦ sym (may-eq r1.clients s f (once f ∙ rw stays refl) o1.token) ∙ h
    ]

    registered :
        (f : ℕ) → is_some_state (status r1.clients f) ≡ true → is_some_state (status s f) ≡ true
    registered f h = elim (Bool-cases ((f == fd) && fails s fd)) [
      | inl lost ↦
          let gone : status r1.clients f ≡ none = once f ∙ rw lost refl in
          let no_more : is_some_state (status r1.clients f) ≡ false = ap is_some_state gone in cc
      | inr stays ↦
          let same : status r1.clients f ≡ status s f = once f ∙ rw stays refl in
          ap is_some_state (sym same) ∙ h
    ]

    gone_for_good : (f : ℕ) → status r1.clients f ≡ none → status r2.clients f ≡ none
    gone_for_good f h = o2.kept f ∙ rw h (if_same (member f fds && fails r1.clients f))
      where
        if_same : (b : Bool) → ◌≡◌ {A = Option Bool} (if b then none else none) none
        if_same true = refl
        if_same false = refl

    both : Outcome s (fd ∷ fds) (record {
      clients = r2.clients;
      frames = r1.frames ++ r2.frames;
      closes = r1.closes ++ r2.closes;
    })
    both = record {
      valid = o2.valid;
      kept = kept-both;
      token = o2.token ∙ o1.token;
      sent =
          All-append _ r1.frames r2.frames o1.sent
            (All-map r2.frames (λ f h on. fewer f (h on)) o2.sent);
      closed =
          All-append _ r1.closes r2.closes
            (All-map r1.closes (λ f h. (h.0, gone_for_good f h.1)) o1.closed)
            (All-map r2.closes (λ f h. (registered f h.0, h.1)) o2.closed);
    }

  pub loop-Outcome :
      (s : Clients) (fds : List ℕ) → IsValid s → Outcome s fds (send_loop send_ok recheck s fds)
  unfolding send_loop
  loop-Outcome s [] v = record { valid = v; kept = λ g. refl; token = refl; sent = tt; closed = tt }
  loop-Outcome s (fd ∷ fds) v =
      let o1 = one-Outcome s fd v in
      both s fd fds _ _ o1 (loop-Outcome (send_one send_ok recheck s fd).clients fds o1.valid)
