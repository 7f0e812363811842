-- ===== src/Auth/Change.antt =====
-- main/rest_ops.cpp: the request that changes the admin password and the API token with it.
use zhac_net_core.Base.{Bool, true, false, Option, none, some, if◌then◌else◌, codes}
use zhac_net_core.WsServer.Clients.{Clients}
use zhac_net_core.Rest.{Reply, reply, Body, refused, received, rest_body_recv}
use zhac_net_core.Auth.{Bytes, Auth, check_auth}
use zhac_net_core.Auth.Password.{Digest, Nvs, auth_password_check, auth_password_store}
use zhac_net_core.Auth.Startup.{auth_rotate_token}
use zhac_net_core.Auth.Login.{
  Doc, Request, token_text, invalid_request, error, too_short_or_long, bad_length,
}

-- `doc["current"] | ""`
abbrev pub text_or_empty : Option Bytes → Bytes
text_or_empty none = codes ""
text_or_empty (some text) = text

module _ (n : Nvs) where
  open n use {Store}

  -- What the request has changed, and its reply.
  pub record Outcome : Type 0 where
    pub auth : Auth
    pub clients : Clients
    pub store : Store
    pub answer : Option Reply

  abbrev pub rotated : Auth × Clients × Store × Option Bytes → Outcome
  rotated (a, c, s, some fresh) = record {
    auth = a;
    clients = c;
    store = s;
    answer = some (reply 200 (token_text fresh));
  }
  rotated (a, c, s, none) = record {
    auth = a;
    clients = c;
    store = s;
    answer = some (reply 500 (codes "rotate failed"));
  }

  abbrev pub if_authed : Clients → Store → Auth × Bool → (Auth → Outcome) → Outcome
  if_authed c s (a, true) goes_on = goes_on a
  if_authed c s (a, false) goes_on = record {
    auth = a;
    clients = c;
    store = s;
    answer = error 401 (codes "unauthorized");
  }

module _ (psa_hash : Bytes → Digest) (parse : Bytes → Option Doc) (n : Nvs) where
  open n use {Store}

  unfoldable pub after_store : Clients → (rnd : Bytes) → Auth × Store × Bool → Outcome n
  unfolding auth_rotate_token
  after_store c rnd (a, s, false) = record {
    auth = a;
    clients = c;
    store = s;
    answer = some (reply 500 (codes "persist failed"));
  }
  after_store c rnd (a, s, true) = rotated n (auth_rotate_token n a c s 33 rnd)

  -- Whether the current password, if there is one, is the one that was sent.
  unfoldable pub current_checked : Auth → Request → Option Bytes → Auth × Bool
  unfolding auth_password_check
  current_checked a r current =
      if a.pw_set
      then auth_password_check psa_hash a r.look_again r.note_again r.ip
          (some (text_or_empty current))
      else (a, true)

  unfoldable pub replaced :
      Clients → Store → (salt rnd : Bytes) → (new : Bytes) → Auth × Bool → Outcome n
  unfolding after_store auth_password_store
  replaced c s salt rnd new (a, false) = record {
    auth = a;
    clients = c;
    store = s;
    answer = error 401 (codes "wrong_password");
  }
  replaced c s salt rnd new (a, true) =
      if too_short_or_long new
      then record { auth = a; clients = c; store = s; answer = bad_length }
      else after_store c rnd (auth_password_store psa_hash n a s salt (some new))

  -- A document, if the body was JSON, and its string "new".
  unfoldable pub change_with :
      Auth → Clients → Store → (salt rnd : Bytes) → Request → Option Doc → Outcome n
  unfolding replaced current_checked
  change_with a c s salt rnd r none = record {
    auth = a;
    clients = c;
    store = s;
    answer = invalid_request;
  }
  change_with a c s salt rnd r (some d) = elim d.new [
    | none ↦ record { auth = a; clients = c; store = s; answer = invalid_request }
    | some new ↦ replaced c s salt rnd new (current_checked a r d.current)
  ]

  unfoldable pub change_body :
      Auth → Clients → Store → (salt rnd : Bytes) → Request → Body → Outcome n
  unfolding change_with
  change_body a c s salt rnd r (refused answer) = record {
    auth = a;
    clients = c;
    store = s;
    answer = answer;
  }
  change_body a c s salt rnd r (received bytes) = change_with a c s salt rnd r (parse bytes)

  -- `salt` and `rnd` are 16 random bytes each.
  unfoldable pub handle_post_auth_password :
      Auth → Clients → Store → (salt rnd : Bytes) → Request → Outcome n
  unfolding change_body check_auth rest_body_recv
  handle_post_auth_password a c s salt rnd r =
      if_authed n c s (check_auth a r.look r.note r.ip r.api_key)
        (λ a'. change_body a' c s salt rnd r (rest_body_recv r.content_len 320 r.answers))
