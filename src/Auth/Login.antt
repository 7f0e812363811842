-- ===== src/Auth/Login.antt =====
-- main/rest_ops.cpp: the requests that trade the admin password for the API token, and set it.
-- The JSON parser is a parameter; what is read of its document is a `Doc`.
use zhac_net_core.Base.{
  ℕ, Bool, true, false, ◌||◌, not, List, ◌++◌, Option, none, some, ltb, ◌==◌, if◌then◌else◌, length,
  codes,
}
use zhac_net_core.Rest.{Recv, Reply, reply, Body, refused, received, rest_body_recv}
use zhac_net_core.Auth.{Bytes, Turn, Auth}
use zhac_net_core.Auth.Password.{
  Digest, Nvs, pw_min_len, pw_max_len, auth_password_check, auth_password_store,
}

-- The strings among "password", "new" and "current".
pub record Doc : Type 0 where
  pub password : Option Bytes
  pub new : Option Bytes
  pub current : Option Bytes

-- A request: the peer, the header X-Api-Key, its body as it arrives, and the turns of the mutex.
pub record Request : Type 0 where
  pub ip : ℕ
  pub api_key : Option Bytes
  pub content_len : ℕ
  pub answers : List Recv
  pub look : Turn
  pub note : Turn
  pub look_again : Turn
  pub note_again : Turn

abbrev pub token_text : Bytes → Bytes
token_text token = codes "{\"ok\":true,\"token\":\"" ++ (token ++ codes "\"}")

abbrev pub invalid_request : Option Reply
invalid_request = some (reply 400 (codes "invalid request"))

abbrev pub error : ℕ → Bytes → Option Reply
error status text = some (reply status (codes "{\"error\":\"" ++ (text ++ codes "\"}")))

abbrev pub bad_length : Option Reply
bad_length = error 400 (codes "password must be 8-63 characters")

-- The string that a request is about, if its body is JSON and has it.
abbrev pub string_of : (Doc → Option Bytes) → Option Doc → Option Bytes
string_of field none = none
string_of field (some d) = field d

abbrev pub too_short_or_long : Bytes → Bool
too_short_or_long pw = ltb (length pw) pw_min_len || ltb pw_max_len (length pw)

abbrev pub login_reply : Auth × Bool → Auth × Option Reply
login_reply (a, true) = (a, some (reply 200 (token_text a.api_token)))
login_reply (a, false) = (a, error 401 (codes "unauthorized"))

module _ (psa_hash : Bytes → Digest) (parse : Bytes → Option Doc) where
  unfoldable pub login_with : Auth → Request → Option Bytes → Auth × Option Reply
  unfolding auth_password_check
  login_with a r none = (a, invalid_request)
  login_with a r (some pw) =
      if not a.auth_enabled
      then (a, some (reply 200 (codes "{\"ok\":true,\"auth\":false}")))
      else if not a.pw_set
      then (a, error 409 (codes "setup_required"))
      else login_reply (auth_password_check psa_hash a r.look r.note r.ip (some pw))

  unfoldable pub login_body : Auth → Request → Body → Auth × Option Reply
  unfolding login_with
  login_body a r (refused answer) = (a, answer)
  login_body a r (received bytes) = login_with a r (string_of (λ d. d.password) (parse bytes))

  unfoldable pub handle_post_auth_login : Auth → Request → Auth × Option Reply
  unfolding login_body rest_body_recv
  handle_post_auth_login a r = login_body a r (rest_body_recv r.content_len 192 r.answers)

abbrev pub setup_reply {ℓ} : {S : Type ℓ} → Auth × S × Bool → Auth × S × Option Reply
setup_reply (a, s, true) = (a, s, some (reply 200 (token_text a.api_token)))
setup_reply (a, s, false) = (a, s, some (reply 500 (codes "persist failed")))

module _ (psa_hash : Bytes → Digest) (parse : Bytes → Option Doc) (n : Nvs) where
  open n use {Store}

  unfoldable pub setup_with :
      Auth → Store → (salt : Bytes) → Option Bytes → Auth × Store × Option Reply
  unfolding auth_password_store
  setup_with a s salt none = (a, s, invalid_request)
  setup_with a s salt (some pw) =
      if too_short_or_long pw
      then (a, s, bad_length)
      else setup_reply (auth_password_store psa_hash n a s salt (some pw))

  unfoldable pub setup_body : Auth → Store → (salt : Bytes) → Body → Auth × Store × Option Reply
  unfolding setup_with
  setup_body a s salt (refused answer) = (a, s, answer)
  setup_body a s salt (received bytes) =
      setup_with a s salt (string_of (λ d. d.password) (parse bytes))

  -- `secs_left` is what `zap_setup_secs_left` answers; `salt` is 16 random bytes.
  unfoldable pub handle_post_auth_setup :
      (secs_left : ℕ) → Auth → Store → (salt : Bytes) → Request → Auth × Store × Option Reply
  unfolding setup_body rest_body_recv
  handle_post_auth_setup secs_left a s salt r =
      if a.storage_error
      then (a, s, error 503 (codes "storage_error"))
      else if a.pw_set
      then (a, s, error 403 (codes "already_set"))
      else if secs_left == 0
      then (a, s, error 403 (codes "setup_closed"))
      else setup_body a s salt (rest_body_recv r.content_len 192 r.answers)
