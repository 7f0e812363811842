-- ===== src/Auth/Same.antt =====
-- What the checks of a key and of a password in main/main.cpp leave alone.
use zhac_net_core.Base.{
  ℕ, ◌≡◌, refl, sym, ap, ◌∙◌, Bool, ◌||◌, not, Option, none, some, ltb, ◌==◌, if_either, length,
}
use zhac_net_core.WsServer.Handshake.{diff_from}
use zhac_net_core.Auth.{Bytes, Turn, Auth, auth_is_locked, failed, judged, check_auth}
use zhac_net_core.Auth.Password.{Digest, tested, compared, pw_kdf, auth_password_check}
use zhac_net_core.Auth.Digests.{Matches}

-- The failures of peers apart, the statics are the same.
pub record AreSame (a a' : Auth) : Type 0 where
  pub enabled : a'.auth_enabled ≡ a.auth_enabled
  pub token : a'.api_token ≡ a.api_token
  pub set_up : a'.pw_set ≡ a.pw_set
  pub salt : a'.pw_salt ≡ a.pw_salt
  pub hash : a'.pw_hash ≡ a.pw_hash

abbrev pub unchanged : (a : Auth) → AreSame a a
unchanged a = record { enabled = refl; token = refl; set_up = refl; salt = refl; hash = refl }

noted-AreSame : (a : Auth) (t : Turn) (ip : ℕ) → AreSame a (failed a t ip).0
noted-AreSame a t ip = record {
  enabled = refl;
  token = refl;
  set_up = refl;
  salt = refl;
  hash = refl;
}

pub AreSame-trans : {a b c : Auth} → AreSame a b → AreSame b c → AreSame a c
AreSame-trans p q = record {
  enabled = q.enabled ∙ p.enabled;
  token = q.token ∙ p.token;
  set_up = q.set_up ∙ p.set_up;
  salt = q.salt ∙ p.salt;
  hash = q.hash ∙ p.hash;
}

judged-AreSame :
    (a : Auth) (note : Turn) (ip : ℕ) (key : Option Bytes) → AreSame a (judged a note ip key).0
unfolding judged
judged-AreSame a note ip none = noted-AreSame a note ip
judged-AreSame a note ip (some key) =
    if_either {A = Auth × Bool} (λ r. AreSame a r.0) (not (length key == 32)) _ _
      (λ h. noted-AreSame a note ip)
      (λ h.
        if_either {A = Auth × Bool} (λ r. AreSame a r.0)
          (not (diff_from 32 0 key a.api_token 0 == 0)) _ _ (λ h. noted-AreSame a note ip)
          (λ h. unchanged a))

pub check-AreSame :
    (a : Auth) (look note : Turn) (ip : ℕ) (key : Option Bytes)
    → AreSame a (check_auth a look note ip key).0
unfolding check_auth
check-AreSame a look note ip key =
    if_either {A = Auth × Bool} (λ r. AreSame a r.0) (not a.auth_enabled) _ _ (λ h. unchanged a)
      (λ h.
        if_either {A = Auth × Bool} (λ r. AreSame a r.0) (auth_is_locked look ip a.buckets) _ _
          (λ h. unchanged a) (λ h. judged-AreSame a note ip key))

module _ (psa_hash : Bytes → Digest) where
  compared-AreSame :
      (a : Auth) (note : Turn) (ip : ℕ) (o : Option Bytes)
      → AreSame a (compared psa_hash a note ip o).0
  unfolding compared
  compared-AreSame a note ip none = noted-AreSame a note ip
  compared-AreSame a note ip (some h) =
      if_either {A = Auth × Bool} (λ r. AreSame a r.0) (not (diff_from 32 0 h a.pw_hash 0 == 0)) _ _
        (λ e. noted-AreSame a note ip) (λ e. unchanged a)

  tested-AreSame :
      (a : Auth) (note : Turn) (ip : ℕ) (pw : Option Bytes)
      → AreSame a (tested psa_hash a note ip pw).0
  unfolding tested
  tested-AreSame a note ip none = noted-AreSame a note ip
  tested-AreSame a note ip (some pw) =
      if_either {A = Auth × Bool} (λ r. AreSame a r.0) (not a.pw_set) _ _
        (λ h. noted-AreSame a note ip)
        (λ h.
          if_either {A = Auth × Bool} (λ r. AreSame a r.0) (ltb (length pw) 1 || ltb 63 (length pw))
            _ _ (λ h. noted-AreSame a note ip)
            (λ h. compared-AreSame a note ip (pw_kdf psa_hash pw a.pw_salt)))

  pub password_check-AreSame :
      (a : Auth) (look note : Turn) (ip : ℕ) (pw : Option Bytes)
      → AreSame a (auth_password_check psa_hash a look note ip pw).0
  unfolding auth_password_check
  password_check-AreSame a look note ip pw =
      if_either {A = Auth × Bool} (λ r. AreSame a r.0) (auth_is_locked look ip a.buckets) _ _
        (λ h. unchanged a) (λ h. tested-AreSame a note ip pw)

  pub same-Matches :
      (a a' : Auth) (pw : Bytes)
      → AreSame a a'
      → Matches psa_hash a' (some pw)
      → Matches psa_hash a (some pw)
  same-Matches a a' pw s (on, some_byte, short, e) = (
    sym s.set_up ∙ on,
    some_byte,
    short,
    ap (pw_kdf psa_hash pw) (sym s.salt) ∙ e ∙ ap some s.hash,
  )
