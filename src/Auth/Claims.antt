-- ===== src/Auth/Claims.antt =====
-- Who gets the API token from main/rest_ops.cpp, and who may change the password.
use zhac_net_core.Base.{
  ℕ, ◌≡◌, refl, ap, ◌≢◌, ◌↔◌, Bool, true, false, ◌||◌, not, List, [], ◌∷◌, Option, none, some,
  arith, ltb, leb, ◌==◌, if◌then◌else◌, if_either, length, get_or, codes,
}
use zhac_net_core.WsServer.Handshake.{diff_from}
use zhac_net_core.Rest.{
  Recv, Reply, reply, Body, refused, received, recv_loop, nonempty_body, rest_body_recv,
}
use zhac_net_core.Auth.{Bytes, Turn, Auth, auth_is_locked}
use zhac_net_core.Auth.Password.{Digest, tested, compared, pw_kdf, auth_password_check}
use zhac_net_core.Auth.Login.{
  Doc, Request, token_text, error, string_of, login_reply, login_with, login_body,
  handle_post_auth_login,
}
use zhac_net_core.Auth.Digests.{HasDigests, Matches, auth_password_check_lem}

abbrev pub status_of : Option Reply → ℕ
status_of none = 0
status_of (some (reply status t)) = status

abbrev text_of : Option Reply → Bytes
text_of none = []
text_of (some (reply status t)) = t

-- The status of what a body is refused with.
abbrev pub refusal_status : Body → ℕ
refusal_status (refused o) = status_of o
refusal_status (received bytes) = 0

nonempty_status : (bytes : Bytes) → refusal_status (nonempty_body bytes) ≢ 200
nonempty_status [] e = omega (arith, e)
nonempty_status (b ∷ bs) e = omega (arith, e)

pub refused_status :
    (len cap : ℕ) (rs : List Recv) → refusal_status (rest_body_recv len cap rs) ≢ 200
unfolding rest_body_recv
refused_status len cap rs =
    if_either (λ b. refusal_status b ≢ 200) (cap == 0) _ _ (λ h e. omega (arith, e))
      (λ h.
        if_either (λ b. refusal_status b ≢ 200) (leb cap len) _ _ (λ k e. omega (arith, e))
          (λ k. nonempty_status (recv_loop len cap [] rs)))

module _ (psa_hash : Bytes → Digest) where
  compared-token :
      (a : Auth) (note : Turn) (ip : ℕ) (o : Option Bytes)
      → (compared psa_hash a note ip o).0.api_token ≡ a.api_token
  unfolding compared
  compared-token a note ip none = refl
  compared-token a note ip (some h) =
      if_either {A = Auth × Bool} (λ r. r.0.api_token ≡ a.api_token)
        (not (diff_from 32 0 h a.pw_hash 0 == 0)) _ _ (λ e. refl) (λ e. refl)

  -- A password that is tested leaves everything but the failures alone.
  password_check-token :
      (a : Auth) (look note : Turn) (ip : ℕ) (pw : Option Bytes)
      → (auth_password_check psa_hash a look note ip pw).0.api_token ≡ a.api_token
  unfolding auth_password_check tested
  password_check-token a look note ip pw =
      if_either {A = Auth × Bool} (λ r. r.0.api_token ≡ a.api_token)
        (auth_is_locked look ip a.buckets) _ _ (λ h. refl) (λ h. in_test pw)
    where
      in_test : (pw : Option Bytes) → (tested psa_hash a note ip pw).0.api_token ≡ a.api_token
      in_test none = refl
      in_test (some pw) =
          if_either {A = Auth × Bool} (λ r. r.0.api_token ≡ a.api_token) (not a.pw_set) _ _
            (λ h. refl)
            (λ h.
              if_either {A = Auth × Bool} (λ r. r.0.api_token ≡ a.api_token)
                (ltb (length pw) 1 || ltb 63 (length pw)) _ _ (λ h. refl)
                (λ h. compared-token a note ip (pw_kdf psa_hash pw a.pw_salt)))

  login_flags :
      (a : Auth) (on set_up : Bool) (r : Auth × Bool)
      → r.0.api_token ≡ a.api_token
      → ((if not on
            then (a, some (reply 200 (codes "{\"ok\":true,\"auth\":false}")))
            else if not set_up
            then (a, error 409 (codes "setup_required"))
            else login_reply r).1
          ≡ some (reply 200 (token_text a.api_token)))
        ↔ ((on ≡ true) × (set_up ≡ true) × (r.1 ≡ true))
  login_flags a false set_up r e = (
    (λ h.
        let letter : 97 ≡ 116 = ap (λ o. get_or (text_of o) 12 0) h in
        absurd (omega (arith, letter))),
    (λ h. cc),
  )
  login_flags a true false r e =
      ((λ h. let code : 409 ≡ 200 = ap status_of h in absurd (omega (arith, code))), (λ h. cc))
  login_flags a true true (a', false) e =
      ((λ h. let code : 401 ≡ 200 = ap status_of h in absurd (omega (arith, code))), (λ h. cc))
  login_flags a true true (a', true) e =
      ((λ h. (refl, refl, refl)), (λ h. ap (λ t. some (reply 200 (token_text t))) e))

module _ (psa_hash : Bytes → Digest) (parse : Bytes → Option Doc) where
  -- The string "password" of the body, if the body is read and is JSON.
  abbrev pub sent_in : Body → Option Bytes
  sent_in (refused answer) = none
  sent_in (received bytes) = string_of (λ d. d.password) (parse bytes)

  -- The reply that has the token.
  abbrev pub GivesToken : Auth → Auth × Option Reply → Type 0
  GivesToken a r = r.1 ≡ some (reply 200 (token_text a.api_token))

  -- What gives a right to it.
  abbrev pub MayLogIn : Auth → Request → Option Bytes → Type 0
  MayLogIn a r pw =
      (a.auth_enabled ≡ true)
      × (auth_is_locked r.look r.ip a.buckets ≡ false)
      × Matches psa_hash a pw

  login_with_lem :
      HasDigests psa_hash
      → (a : Auth) (r : Request) (pw : Option Bytes) → length a.pw_hash ≡ 32
      → GivesToken a (login_with psa_hash parse a r pw) ↔ MayLogIn a r pw
  unfolding login_with
  login_with_lem sized a r none full = (
    (λ h. let code : 400 ≡ 200 = ap status_of h in absurd (omega (arith, code))),
    (λ h. absurd h.2),
  )
  login_with_lem sized a r (some pw) full =
      let check = auth_password_check psa_hash a r.look r.note r.ip (some pw) in
      let flags =
        login_flags psa_hash a a.auth_enabled a.pw_set check
          (password_check-token psa_hash a r.look r.note r.ip (some pw)) in
      let right = auth_password_check_lem psa_hash sized a r.look r.note r.ip (some pw) full in
      (
        (λ h. let (on, set_up, ok) = flags.0 h in let (free, m) = right.0 ok in (on, free, m)),
        (λ (on, free, m). flags.1 (on, m.0, right.1 (free, m))),
      )

  login_body_lem :
      HasDigests psa_hash
      → (a : Auth) (r : Request) (b : Body) → length a.pw_hash ≡ 32
      → refusal_status b ≢ 200
      → GivesToken a (login_body psa_hash parse a r b) ↔ MayLogIn a r (sent_in b)
  unfolding login_body
  login_body_lem sized a r (refused o) full other =
      ((λ h. absurd (other (ap status_of h))), (λ h. absurd h.2))
  login_body_lem sized a r (received bytes) full other =
      login_with_lem sized a r (string_of (λ d. d.password) (parse bytes)) full

  -- A login is answered with the API token exactly if sign-in is on, the peer is not locked out, and the
  -- body has a password of 1 to 63 bytes that is set and has, with the stored salt, the stored
  -- digest. Both digests have 32 bytes.
  pub handle_post_auth_login_lem :
      HasDigests psa_hash
      → (a : Auth) (r : Request) → length a.pw_hash ≡ 32
      → GivesToken a (handle_post_auth_login psa_hash parse a r)
        ↔ MayLogIn a r (sent_in (rest_body_recv r.content_len 192 r.answers))
  unfolding handle_post_auth_login
  handle_post_auth_login_lem sized a r full =
      login_body_lem sized a r (rest_body_recv r.content_len 192 r.answers) full
        (refused_status r.content_len 192 r.answers)
