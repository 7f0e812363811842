-- ===== src/Auth/Takeover.antt =====
-- What the requests of main/rest_ops.cpp that set and change the admin password let a stranger do.
use zhac_net_core.Base.{
  ℕ, ◌≡◌, refl, ◌∙◌, ◌≢◌, Bool, true, false, not, Option, none, some, arith, ◌==◌, if_either, codes,
}
use zhac_net_core.Rest.{Reply, Body, refused, received, rest_body_recv}
use zhac_net_core.Auth.{Bytes, Auth}
use zhac_net_core.Auth.Password.{Digest, Nvs, persist, stored, pw_kdf, auth_password_store}
use zhac_net_core.Auth.Login.{
  Doc, Request, error, string_of, too_short_or_long, setup_reply, setup_with, setup_body,
  handle_post_auth_setup,
}
use zhac_net_core.Auth.Started.{auth_password_store-IsKept}
use zhac_net_core.Auth.Claims.{status_of, refusal_status, refused_status}

module _ (psa_hash : Bytes → Digest) (n : Nvs) where
  stored-set_up :
      (a : Auth) (s : n.Store) (salt : Bytes) (o : Option Bytes)
      → (stored psa_hash n a s salt o).2 ≡ true
      → (stored psa_hash n a s salt o).0.pw_set ≡ true
  unfolding stored
  stored-set_up a s salt none = λ e. cc
  stored-set_up a s salt (some h) =
      if_either {A = Auth × n.Store × Bool} (λ r. r.2 ≡ true → r.0.pw_set ≡ true)
        (not (n.can_open s)) _ _ (λ h e. cc)
        (λ h.
          if_either {A = Auth × n.Store × Bool} (λ r. r.2 ≡ true → r.0.pw_set ≡ true)
            (not (persist psa_hash n s salt _).1) _ _ (λ h e. cc) (λ h e. refl))

  store-set_up :
      (a : Auth) (s : n.Store) (salt pw : Bytes)
      → (auth_password_store psa_hash n a s salt (some pw)).2 ≡ true
      → (auth_password_store psa_hash n a s salt (some pw)).0.pw_set ≡ true
  unfolding auth_password_store
  store-set_up a s salt pw =
      if_either {A = Auth × n.Store × Bool} (λ r. r.2 ≡ true → r.0.pw_set ≡ true)
        (too_short_or_long pw) _ _ (λ h e. cc)
        (λ h. stored-set_up a s salt (pw_kdf psa_hash pw salt))

-- An answer of 200 leaves a password behind.
abbrev Claims {ℓ} : {S : Type ℓ} → Auth → Auth × S × Option Reply → Type 0
Claims a (a', s', o) = status_of o ≡ 200 → (a'.pw_set ≡ true) × (a'.storage_error ≡ a.storage_error)

setup_reply-Claims {ℓ} :
    {S : Type ℓ} (a : Auth) (r : Auth × S × Bool)
    → (r.2 ≡ true → r.0.pw_set ≡ true)
    → r.0.storage_error ≡ a.storage_error
    → Claims a (setup_reply r)
setup_reply-Claims a (a', s', true) h e = λ k. (h refl, e)
setup_reply-Claims a (a', s', false) h e = λ k. absurd (omega (arith, k))

module _ (psa_hash : Bytes → Digest) (parse : Bytes → Option Doc) (n : Nvs) where
  setup_with-Claims :
      (a : Auth) (s : n.Store) (salt : Bytes) (pw : Option Bytes)
      → Claims a (setup_with psa_hash parse n a s salt pw)
  unfolding setup_with
  setup_with-Claims a s salt none = λ e. absurd (omega (arith, e))
  setup_with-Claims a s salt (some pw) =
      if_either {A = Auth × n.Store × Option Reply} (Claims a) (too_short_or_long pw) _ _
        (λ h e. absurd (omega (arith, e)))
        (λ h.
          setup_reply-Claims a (auth_password_store psa_hash n a s salt (some pw))
            (store-set_up psa_hash n a s salt pw)
            (auth_password_store-IsKept psa_hash n a s salt (some pw)).fault)

  setup_body-Claims :
      (a : Auth) (s : n.Store) (salt : Bytes) (b : Body)
      → refusal_status b ≢ 200
      → Claims a (setup_body psa_hash parse n a s salt b)
  unfolding setup_body
  setup_body-Claims a s salt (refused o) other = λ e. absurd (other e)
  setup_body-Claims a s salt (received bytes) other =
      setup_with-Claims a s salt (string_of (λ d. d.password) (parse bytes))

  -- Later requests to set it change nothing.
  abbrev IsClosed : Auth → Type 0
  IsClosed a =
      (secs : ℕ) (t : n.Store) (salt : Bytes) (r : Request)
      → handle_post_auth_setup psa_hash parse n secs a t salt r
        ≡ (a, t, error 403 (codes "already_set"))

  set_up-IsClosed : (a : Auth) → a.storage_error ≡ false → a.pw_set ≡ true → IsClosed a
  unfolding handle_post_auth_setup
  set_up-IsClosed a fine set_up secs t salt r = rw (fine, set_up) refl

  abbrev IsFirst : ℕ → Auth → Auth × n.Store × Option Reply → Type 0
  IsFirst secs a (a', s', o) = status_of o ≡ 200 → (a.pw_set ≡ false) × (secs ≢ 0) × IsClosed a'

  -- Who sets the password first keeps it: a set-up that is answered with 200 was asked for while the
  -- window was open and no password was set, and every later one is refused and changes nothing,
  -- whoever asks, whatever is left of the window and whatever the flash holds then.
  pub handle_post_auth_setup_once :
      (secs : ℕ) (a : Auth) (s : n.Store) (salt : Bytes) (r : Request)
      → let (a', s', answer) = handle_post_auth_setup psa_hash parse n secs a s salt r in
        status_of answer ≡ 200
        → (a.pw_set ≡ false)
          × (secs ≢ 0)
          × ((secs' : ℕ) (t : n.Store) (salt' : Bytes) (r' : Request)
              → handle_post_auth_setup psa_hash parse n secs' a' t salt' r'
                ≡ (a', t, error 403 (codes "already_set")))
  unfolding handle_post_auth_setup
  handle_post_auth_setup_once secs a s salt r =
      if_either {A = Auth × n.Store × Option Reply} (IsFirst secs a) a.storage_error _ _
        (λ h e. absurd (omega (arith, e)))
        (λ fine.
          if_either {A = Auth × n.Store × Option Reply} (IsFirst secs a) a.pw_set _ _
            (λ h e. absurd (omega (arith, e)))
            (λ unset.
              if_either {A = Auth × n.Store × Option Reply} (IsFirst secs a) (secs == 0) _ _
                (λ h e. absurd (omega (arith, e)))
                (λ open_yet e.
                  let (set_up, same) =
                    setup_body-Claims a s salt (rest_body_recv r.content_len 192 r.answers)
                      (refused_status r.content_len 192 r.answers) e in
                  (
                    unset,
                    (λ z. ground (arith, z, open_yet)),
                    set_up-IsClosed _ (same ∙ fine) set_up,
                  ))))
