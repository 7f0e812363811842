-- ===== src/WsServer/Handshake/Sessions.antt =====
-- Who is signed in after a handshake or a frame of components/ws_server/ws_server.cpp.
use mathlib.Core.Path.{subst}
use zhac_net_core.Base.{
  ℕ, zero, suc, ◌+◌, ◌≤◌, ◌<◌, ◌≡◌, refl, sym, ap, ◌∙◌, ◌≢◌, ◌↔◌, ◌⊎◌, inl, inr, true, false, ◌&&◌,
  not, List, [], ◌∷◌, Option, none, some, ltb, ◌==◌, ==_iff, ==_ne, if◌then◌else◌, if_either,
  Bool-cases, Option-cases, length, get_or, All, arith, bit_or_zero, bit_xor_zero,
}
use zhac_net_core.WsServer.Clients.{
  Clients, Effect, slot, auth_off, adopt_client, ensure_fd, remove_fd, add_fd,
}
use zhac_net_core.WsServer.Clients.Lookup.{IsValid, status}
use zhac_net_core.WsServer.Clients.Table.{add_fd_lem, remove_fd_quiet_lem}
use zhac_net_core.WsServer.Handshake.{
  Bytes, Request, Handled, RxCallback, Probe, probe_failed, probed, on_probe, presented, diff_from,
  shows, detect_handshake_auth, register_client, ws_handler,
}

pub diff_zero :
    (left i : ℕ) (key token : Bytes) (diff : ℕ)
    → diff_from left i key token diff ≡ 0
    → (diff ≡ 0) × ((j : ℕ) → i ≤ j → j < i + left → get_or key j 0 ≡ get_or token j 0)
unfolding diff_from
diff_zero zero i key token diff e = (e, λ j h k. absurd (omega arith))
diff_zero (suc left) i key token diff e =
    let (now, later) = diff_zero left (suc i) key token _ e in
    let (before, here) = bit_or_zero diff _ now in
    (
      before,
      λ j h k. elim (Bool-cases (j == i)) [
        | inl same ↦
            rw ((==_iff j i).0 same) ((bit_xor_zero (get_or key i 0) (get_or token i 0)).0 here)
        | inr apart ↦ later j (ground arith) (omega arith)
      ],
    )

pub diff_self : (left i : ℕ) (key : Bytes) → diff_from left i key key 0 ≡ 0
unfolding diff_from
diff_self zero i key = refl
diff_self (suc left) i key =
    rw ((bit_xor_zero (get_or key i 0) (get_or key i 0)).1 refl) (diff_self left (suc i) key)

-- Texts of a C string: no byte is 0.
abbrev pub IsByte : ℕ → Type 0
IsByte x = x ≢ 0

-- Lists that agree wherever either is read are the same.
same_texts :
    (xs ys : Bytes) (n : ℕ)
    → All IsByte xs
    → length xs ≡ n
    → length ys ≤ n
    → ((j : ℕ) → j < n → get_or xs j 0 ≡ get_or ys j 0)
    → xs ≡ ys
same_texts [] [] n h e l same = refl
same_texts [] (y ∷ ys) n h e l same = absurd (omega arith)
same_texts (x ∷ xs) [] n h e l same = absurd (h.0 (same 0 (omega arith)))
same_texts (x ∷ xs) (y ∷ ys) zero h e l same = absurd (omega arith)
same_texts (x ∷ xs) (y ∷ ys) (suc n) h e l same =
    let heads : x ≡ y = same 0 (omega arith) in
    let tails : xs ≡ ys =
      same_texts xs ys n h.1 (omega arith) (omega arith) (λ j k. same (suc j) (omega arith)) in
    ap (λ z. z ∷ xs) heads ∙ ap (◌∷◌ y) tails

pub shows_iff :
    (key : Option Bytes) (token : Bytes)
    → ((k : Bytes) → key ≡ some k → All IsByte k)
    → length token ≤ 32
    → (shows key token ≡ true) ↔ ((key ≡ some token) × (length token ≡ 32))
shows_iff none token text size = ((λ h. cc), (λ h. cc))
shows_iff (some k) token text size = (to, from)
  where
    to : shows (some k) token ≡ true → (some k ≡ some token) × (length token ≡ 32)
    to e =
        let both : (length k ≡ 32) × (diff_from 32 0 k token 0 ≡ 0) = ground (arith, e) in
        let same : k ≡ token =
          same_texts k token 32 (text k refl) both.0 size
            (λ j h. (diff_zero 32 0 k token 0 both.1).1 j (omega arith) (omega arith)) in
        (ap some same, ap length (sym same) ∙ both.0)

    from : (some k ≡ some token) × (length token ≡ 32) → shows (some k) token ≡ true
    from (e, full) = let same : k ≡ token = cc in rw (same, full, diff_self 32 0 token) refl

-- A handshake signs in exactly if no token is set, or it shows a key that is the token, whole, and that
-- has 32 bytes.
pub detect_handshake_auth_lem :
    (s : Clients) (r : Request)
    → length s.api_token ≤ 32
    → ((k : Bytes) → presented r ≡ some k → All IsByte k)
    → (detect_handshake_auth s r ≡ true)
      ↔ ((s.api_token ≡ []) ⊎ ((presented r ≡ some s.api_token) × (length s.api_token ≡ 32)))
unfolding detect_handshake_auth
detect_handshake_auth_lem s r size text = by_token s.api_token size
  where
    by_token :
        (token : Bytes)
        → length token ≤ 32
        → ((if length token == 0 then true else shows (presented r) token) ≡ true)
          ↔ ((token ≡ []) ⊎ ((presented r ≡ some token) × (length token ≡ 32)))
    by_token [] small = ((λ h. inl refl), (λ h. refl))
    by_token (x ∷ xs) small =
        let some_bytes : (length (x ∷ xs) == 0) ≡ false = ==_ne _ 0 (λ h. omega arith) in
        let (to, from) = shows_iff (presented r) (x ∷ xs) text small in
        (
          (λ h. inr (
              to
                (sym (ap (λ b. if b then true else shows (presented r) (x ∷ xs)) some_bytes) ∙ h))),
          back,
        )
      where
        back :
            ((x ∷ xs ≡ []) ⊎ ((presented r ≡ some (x ∷ xs)) × (length (x ∷ xs) ≡ 32)))
            → (if length (x ∷ xs) == 0 then true else shows (presented r) (x ∷ xs)) ≡ true
        back (inl e) = cc
        back (inr e) =
            ap (λ b. if b then true else shows (presented r) (x ∷ xs))
              (==_ne (length (x ∷ xs)) 0 (λ h. omega arith))
            ∙ (shows_iff (presented r) (x ∷ xs) text small).1 e

-- A sign-in state is granted if it is that of a client who is signed in.
abbrev pub IsSignedIn : Clients → ℕ → Type 0
IsSignedIn s g = status s g ≡ some true

-- Adopting a client as not signed in signs nobody in.
adopt_false :
    (s : Clients) (fd g : ℕ)
    → IsValid s
    → IsValid (adopt_client s fd false).0
      × (IsSignedIn (adopt_client s fd false).0 g → IsSignedIn s g)
unfolding adopt_client
adopt_false s fd g v =
    let (valid, states, answer, token) = add_fd_lem s fd false v in
    (valid, λ h. by_test (Bool-cases ((add_fd s fd false).1 && g == fd)) (sym (states g) ∙ h))
  where
    by_test :
        (((add_fd s fd false).1 && g == fd) ≡ true) ⊎ (((add_fd s fd false).1 && g == fd) ≡ false)
        → (if (add_fd s fd false).1 && g == fd then some false else status s g) ≡ some true
        → IsSignedIn s g
    by_test (inl e) h =
        let no : some false ≡ some true =
          sym (ap (λ b. if b then some false else status s g) e) ∙ h in
        cc
    by_test (inr e) h = sym (ap (λ b. if b then some false else status s g) e) ∙ h

ensure_false :
    (s : Clients) (fd g : ℕ)
    → IsValid s
    → IsValid (ensure_fd s fd false).0 × (IsSignedIn (ensure_fd s fd false).0 g → IsSignedIn s g)
unfolding ensure_fd
ensure_false s fd g v = elim (Option-cases (slot s fd)) [
  | inr (i, e) ↦ rw (e, ensure_fd) (v, λ h. h)
  | inl e ↦ rw (e, ensure_fd) (adopt_false s fd g v)
]

removed_quiet :
    (s : Clients) (fd g : ℕ)
    → IsValid s
    → IsValid (remove_fd s fd).0 × (IsSignedIn (remove_fd s fd).0 g → IsSignedIn s g)
unfolding remove_fd
removed_quiet s fd g v =
    let (valid, states, left, token) = remove_fd_quiet_lem s fd v in
    (valid, λ h. by_test (Bool-cases (g == fd)) (sym (states g) ∙ h))
  where
    by_test :
        ((g == fd) ≡ true) ⊎ ((g == fd) ≡ false)
        → (if g == fd then none else status s g) ≡ some true
        → IsSignedIn s g
    by_test (inl e) h =
        let no : none ≡ some true = sym (ap (λ b. if b then none else status s g) e) ∙ h in cc
    by_test (inr e) h = sym (ap (λ b. if b then none else status s g) e) ∙ h

-- What the handler of a frame leaves: a table of its own, in which nobody is signed in who was not;
-- then it does nothing more, or gives the whole text of the frame to the callback.
pub record IsQuiet (s : Clients) (rx_cb : Option RxCallback) (r : Request) (h : Handled)
    : Type 0 where
  pub before : Clients
  pub valid : IsValid before
  pub quiet : (g : ℕ) → IsSignedIn before g → IsSignedIn s g
  pub then_given :
      ((h.given ≡ none) × (h.clients ≡ before))
      ⊎ ((cb : RxCallback) × (text : Bytes) × (rx_cb ≡ some cb)
          × (h.given ≡ some text)
          × (r.probe ≡ probed true text)
          × (r.read_error ≡ none)
          × (0 < length text)
          × (length text ≤ 8192)
          × (h.clients ≡ cb before r.fd text))

module _ (s : Clients) (rx_cb : Option RxCallback) (r : Request) (v : IsValid s) where
  abbrev adopted : Clients
  adopted = (ensure_fd s r.fd false).0

  ungiven :
      (ret : ℕ) (effects : List Effect)
      → IsQuiet s rx_cb r (record { clients = adopted; effects = effects; ret = ret; given = none })
  ungiven ret effects = record {
    before = adopted;
    valid = (ensure_false s r.fd 0 v).0;
    quiet = λ g. (ensure_false s r.fd g v).1;
    then_given = inl (refl, refl);
  }

  evicted :
      (ret : ℕ) (effects : List Effect)
      → IsQuiet s rx_cb r (record {
        clients = (remove_fd adopted r.fd).0;
        effects = effects;
        ret = ret;
        given = none;
      })
  evicted ret effects = record {
    before = (remove_fd adopted r.fd).0;
    valid = (removed_quiet adopted r.fd 0 (ensure_false s r.fd 0 v).0).0;
    quiet = λ g h.
        (ensure_false s r.fd g v).1
          ((removed_quiet adopted r.fd g (ensure_false s r.fd g v).0).1 h);
    then_given = inl (refl, refl);
  }

  taken :
      (effects : List Effect) (cb : RxCallback) (text : Bytes)
      → rx_cb ≡ some cb
      → r.probe ≡ probed true text
      → 0 < length text
      → length text ≤ 8192
      → (x : Option ℕ) → r.read_error ≡ x
      → IsQuiet s rx_cb r (elim x as (λ y. Handled) [
        | some err ↦ record { clients = adopted; effects = effects; ret = err; given = none }
        | none ↦ record {
          clients = cb adopted r.fd text;
          effects = effects;
          ret = 0;
          given = some text;
        }
      ])
  taken effects cb text e p low high (some err) read = ungiven err effects
  taken effects cb text e p low high none read = record {
    before = adopted;
    valid = (ensure_false s r.fd 0 v).0;
    quiet = λ g. (ensure_false s r.fd g v).1;
    then_given = inr (cb, text, e, refl, p, read, low, high, refl);
  }

  by_callback :
      (effects : List Effect) (text : Bytes)
      → r.probe ≡ probed true text
      → 0 < length text
      → (x : Option RxCallback) → rx_cb ≡ x
      → IsQuiet s rx_cb r (on_probe adopted effects x r (probed true text))
  unfolding on_probe
  by_callback effects text p low none e =
      if_either (IsQuiet s rx_cb r) (length text == 0) _ _ (λ h. ungiven 0 effects)
        (λ h. ungiven 0 effects)
  by_callback effects text p low (some cb) e =
      if_either (IsQuiet s rx_cb r) (length text == 0) _ _ (λ h. ungiven 0 effects)
        λ h.
          if_either (IsQuiet s rx_cb r) (ltb 8192 (length text)) _ _ (λ k. ungiven 0 effects)
            λ k.
              if_either (IsQuiet s rx_cb r) (not r.alloc_ok) _ _ (λ l. ungiven 257 effects)
                λ l. taken effects cb text e p low (ground (arith, k)) r.read_error refl

  by_probe :
      (effects : List Effect) (x : Probe)
      → r.probe ≡ x
      → IsQuiet s rx_cb r (on_probe adopted effects rx_cb r x)
  unfolding on_probe
  by_probe effects (probe_failed err) e = evicted err effects
  by_probe effects (probed false text) e = ungiven 0 effects
  by_probe effects (probed true []) e = ungiven 0 effects
  by_probe effects (probed true (c ∷ cs)) e =
      by_callback effects (c ∷ cs) e (omega arith) rx_cb refl

-- With a token set, a frame signs nobody in, whoever sends it, but by what the callback does with its
-- text: what the handler itself leaves is a valid table in which nobody is signed in who was not. Only
-- a text of 1 to 8192 bytes that was read without an error is given to the callback, whole.
pub ws_handler_lem :
    (s : Clients) (rx_cb : Option RxCallback) (r : Request)
    → IsValid s
    → auth_off s ≡ false
    → r.is_get ≡ false
    → IsQuiet s rx_cb r (ws_handler s rx_cb r)
unfolding ws_handler
ws_handler_lem s rx_cb r v on frame =
    subst (IsQuiet s rx_cb r)
      (sym (
        ap (λ b. if b then get else on_probe s1 effects rx_cb r r.probe) frame
        ∙ ap (λ b. on_probe (ensure_fd s r.fd b).0 (ensure_fd s r.fd b).1 rx_cb r r.probe) on))
      (by_probe s rx_cb r v (ensure_fd s r.fd false).1 r.probe refl)
  where
    s1 : Clients
    s1 = (ensure_fd s r.fd (auth_off s)).0

    effects : List Effect
    effects = (ensure_fd s r.fd (auth_off s)).1

    get : Handled
    get = record {
      clients = (register_client s r).0;
      effects = (register_client s r).1;
      ret = 0;
      given = none;
    }
