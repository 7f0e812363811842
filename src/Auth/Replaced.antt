-- ===== src/Auth/Replaced.antt =====
-- Who may change the admin password by main/rest_ops.cpp, and who is signed in afterwards.
use zhac_net_core.Base.{
  ℕ, ◌≡◌, refl, sym, ap, ◌∙◌, ◌≢◌, inl, inr, Bool, true, false, Option, none, some, arith,
  if_either, Option-cases, length,
}
use zhac_net_core.WsServer.Clients.{Clients}
use zhac_net_core.WsServer.Clients.Lookup.{IsValid, status}
use zhac_net_core.Rest.{reply, Body, refused, received, rest_body_recv}
use zhac_net_core.Auth.{Bytes, Auth, check_auth}
use zhac_net_core.Auth.Password.{Digest, Nvs, auth_password_store}
use zhac_net_core.Auth.Startup.{token_is_hex32, auth_rotate_token}
use zhac_net_core.Auth.Tokens.{IsRotation, auth_rotate_token_lem}
use zhac_net_core.Auth.Login.{Doc, Request, token_text, too_short_or_long}
use zhac_net_core.Auth.Change.{
  Outcome, text_or_empty, rotated, after_store, current_checked, replaced, change_with, change_body,
  if_authed, handle_post_auth_password,
}
use zhac_net_core.Auth.Started.{auth_password_store-IsKept}
use zhac_net_core.Auth.Digests.{Matches}
use zhac_net_core.Auth.Claims.{status_of, refusal_status, refused_status}
use zhac_net_core.Auth.Same.{AreSame, check-AreSame, password_check-AreSame}

module _ (psa_hash : Bytes → Digest) (parse : Bytes → Option Doc) (n : Nvs) where
  -- If a password is set, the document of the body has it as its string "current".
  abbrev pub Knows : Auth → Body → Type 0
  Knows a b =
      a.pw_set ≡ true
      → (bytes : Bytes) × (d : Doc) × (pw : Bytes) × (b ≡ received bytes)
        × (parse bytes ≡ some d)
        × (d.current ≡ some pw)
        × Matches psa_hash a (some pw)

  abbrev KnowsBy : Auth → Option Bytes → Type 0
  KnowsBy a current =
      a.pw_set ≡ true → (pw : Bytes) × (current ≡ some pw) × Matches psa_hash a (some pw)

  -- Nothing but the failures of peers has changed.
  abbrev pub IsUntouched : Auth → Clients → n.Store → Outcome n → Type 0
  IsUntouched a c s o = (o.clients ≡ c) × (o.store ≡ s) × AreSame a o.auth

  -- What a change that succeeds leaves behind.
  abbrev pub IsReplaced : Auth → Outcome n → Type 0
  IsReplaced a o =
      (fresh : Bytes) × (o.answer ≡ some (reply 200 (token_text fresh)))
      × (token_is_hex32 (some fresh) ≡ true)
      × (o.auth.api_token ≡ fresh)
      × (a.auth_enabled ≡ true
          → (o.clients.api_token ≡ fresh) × ((g : ℕ) → status o.clients g ≢ some true))

  rotated-IsReplaced :
      (a a1 : Auth) (c : Clients) (x : Auth × Clients × n.Store × Option Bytes)
      → a1.auth_enabled ≡ a.auth_enabled
      → IsRotation a1 c (x.0, x.1) x.3
      → status_of (rotated n x).answer ≡ 200
      → IsReplaced a (rotated n x)
  rotated-IsReplaced a a1 c (a', c', s', none) same rot e = absurd (omega (arith, e))
  rotated-IsReplaced a a1 c (a', c', s', some fresh) same (inl (gone, _, _)) e = cc
  rotated-IsReplaced a a1 c (a', c', s', some fresh) same (inr (new, mine, hex, here, there)) e =
      let eq : fresh ≡ new = cc in
      (
        fresh,
        refl,
        rw eq hex,
        ap (λ z. z.api_token) here ∙ sym eq,
        λ on. let (asked, nobody) = there (same ∙ on) in (asked ∙ sym eq, nobody),
      )

  abbrev IsDone : Auth → Outcome n → Type 0
  IsDone a o = status_of o.answer ≡ 200 → IsReplaced a o

  after_store-IsDone :
      (a : Auth) (c : Clients) (rnd : Bytes) (x : Auth × n.Store × Bool)
      → IsValid c
      → length rnd ≡ 16
      → x.0.auth_enabled ≡ a.auth_enabled
      → IsDone a (after_store psa_hash parse n c rnd x)
  unfolding after_store
  after_store-IsDone a c rnd (a1, s, false) v size same e = absurd (omega (arith, e))
  after_store-IsDone a c rnd (a1, s, true) v size same e =
      rotated-IsReplaced a a1 c (auth_rotate_token n a1 c s 33 rnd) same
        (auth_rotate_token_lem n a1 c s rnd 33 v size) e

  replaced-IsDone :
      (a : Auth) (c : Clients) (s : n.Store) (salt rnd new : Bytes) (x : Auth × Bool)
      → IsValid c
      → length rnd ≡ 16
      → x.0.auth_enabled ≡ a.auth_enabled
      → IsDone a (replaced psa_hash parse n c s salt rnd new x)
  unfolding replaced
  replaced-IsDone a c s salt rnd new (a', false) v size same = λ e. absurd (omega (arith, e))
  replaced-IsDone a c s salt rnd new (a', true) v size same =
      if_either (IsDone a) (too_short_or_long new) _ _ (λ h e. absurd (omega (arith, e)))
        (λ h.
          after_store-IsDone a c rnd (auth_password_store psa_hash n a' s salt (some new)) v size
            ((auth_password_store-IsKept psa_hash n a' s salt (some new)).enabled ∙ same))

  body-IsDone :
      (a : Auth) (c : Clients) (s : n.Store) (salt rnd : Bytes) (r : Request) (b : Body)
      → IsValid c
      → length rnd ≡ 16
      → refusal_status b ≢ 200
      → IsDone a (change_body psa_hash parse n a c s salt rnd r b)
  unfolding change_body change_with current_checked
  body-IsDone a c s salt rnd r (refused o) v size other = λ e. absurd (other e)
  body-IsDone a c s salt rnd r (received bytes) v size other = by_doc (parse bytes)
    where
      same :
          (current : Option Bytes)
          → (current_checked psa_hash parse n a r current).0.auth_enabled ≡ a.auth_enabled
      same current =
          if_either {A = Auth × Bool} (λ x. x.0.auth_enabled ≡ a.auth_enabled) a.pw_set _ _
            (λ h.
              (password_check-AreSame psa_hash a r.look_again r.note_again r.ip
                (some (text_or_empty current))).enabled)
            (λ h. refl)

      by_doc : (o : Option Doc) → IsDone a (change_with psa_hash parse n a c s salt rnd r o)
      by_doc none = λ e. absurd (omega (arith, e))
      by_doc (some d) = elim (Option-cases d.new) [
        | inl e ↦ rw e (λ k. absurd (omega (arith, k)))
        | inr (new, e) ↦ rw e (
            replaced-IsDone a c s salt rnd new (current_checked psa_hash parse n a r d.current) v
              size (same d.current))
      ]

  if_authed-IsDone :
      (a : Auth) (c : Clients) (s : n.Store) (salt rnd : Bytes) (r : Request) (b : Body)
      (x : Auth × Bool)
      → IsValid c
      → length rnd ≡ 16
      → refusal_status b ≢ 200
      → x.0.auth_enabled ≡ a.auth_enabled
      → IsDone a (if_authed n c s x (λ a'. change_body psa_hash parse n a' c s salt rnd r b))
  if_authed-IsDone a c s salt rnd r b (a', false) v size other same e = absurd (omega (arith, e))
  if_authed-IsDone a c s salt rnd r b (a', true) v size other same e =
      let (fresh, told, hex, mine, there) = body-IsDone a' c s salt rnd r b v size other e in
      (fresh, told, hex, mine, λ on. there (same ∙ on))

  -- A change of the password that is answered with 200 tells a new token of 32 hexadecimal digits that is
  -- asked for from then on, by the WebSocket server too if sign-in is on; with sign-in on it leaves
  -- no WebSocket client signed in.
  pub handle_post_auth_password-IsReplaced :
      (a : Auth) (c : Clients) (s : n.Store) (salt rnd : Bytes) (r : Request)
      → IsValid c
      → length rnd ≡ 16
      → let o = handle_post_auth_password psa_hash parse n a c s salt rnd r in
        status_of o.answer ≡ 200 → IsReplaced a o
  unfolding handle_post_auth_password
  handle_post_auth_password-IsReplaced a c s salt rnd r v size =
      if_authed-IsDone a c s salt rnd r (rest_body_recv r.content_len 320 r.answers)
        (check_auth a r.look r.note r.ip r.api_key) v size
        (refused_status r.content_len 320 r.answers)
        (check-AreSame a r.look r.note r.ip r.api_key).enabled
