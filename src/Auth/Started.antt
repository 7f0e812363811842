-- ===== src/Auth/Started.antt =====
-- What `auth_init` of main/main.cpp leaves: who is asked for which token.
use mathlib.Core.Path.{subst}
use zhac_net_core.Base.{
  ◌≤◌, ◌<◌, ◌≡◌, refl, sym, ◌∙◌, Bool, true, false, ◌&&◌, ◌||◌, not, [], ◌∷◌, Option, none, some,
  arith, ltb, ◌==◌, if◌then◌else◌, if_either, length, take, take_le,
}
use zhac_net_core.WsServer.Clients.{Clients, set_api_token, auth_off}
use zhac_net_core.Auth.{Bytes, Auth}
use zhac_net_core.Auth.Password.{
  Digest, Nvs, key_token, key_enabled, key_salt, key_hash, pw_kdf, persist, stored,
  auth_password_store,
}
use zhac_net_core.Auth.Startup.{
  Build, seed_of, all_hex, token_is_hex32, hex_of, ws_token, has_size, load_token, load_password,
  loaded_flag, seed_password, auth_init,
}
use zhac_net_core.Auth.Tokens.{length-hex_of}

-- A password that is stored changes neither the token nor whether it is asked for.
pub record IsKept (a a' : Auth) : Type 0 where
  pub token : a'.api_token ≡ a.api_token
  pub enabled : a'.auth_enabled ≡ a.auth_enabled
  pub fault : a'.storage_error ≡ a.storage_error

abbrev same_auth : (a : Auth) → IsKept a a
same_auth a = record { token = refl; enabled = refl; fault = refl }

module _ (psa_hash : Bytes → Digest) (n : Nvs) where
  stored-IsKept :
      (a : Auth) (s : n.Store) (salt : Bytes) (h : Option Bytes)
      → IsKept a (stored psa_hash n a s salt h).0
  unfolding stored
  stored-IsKept a s salt none = same_auth a
  stored-IsKept a s salt (some h) =
      if_either {A = Auth × n.Store × Bool} (λ r. IsKept a r.0) (not (n.can_open s)) _ _
        (λ e. same_auth a)
        (λ e.
          if_either {A = Auth × n.Store × Bool} (λ r. IsKept a r.0)
            (not (persist psa_hash n s salt h).1) _ _ (λ e. same_auth a)
            (λ e. record { token = refl; enabled = refl; fault = refl }))

  pub auth_password_store-IsKept :
      (a : Auth) (s : n.Store) (salt : Bytes) (pw : Option Bytes)
      → IsKept a (auth_password_store psa_hash n a s salt pw).0
  unfolding auth_password_store
  auth_password_store-IsKept a s salt none = same_auth a
  auth_password_store-IsKept a s salt (some pw) =
      if_either {A = Auth × n.Store × Bool} (λ r. IsKept a r.0)
        (ltb (length pw) 8 || ltb 63 (length pw)) _ _ (λ e. same_auth a)
        (λ e. stored-IsKept a s salt (pw_kdf psa_hash pw salt))

  seed_password-IsKept :
      (a : Auth) (s : n.Store) (salt : Bytes) (pw : Option Bytes)
      → IsKept a (seed_password psa_hash n a s salt pw).0
  unfolding seed_password
  seed_password-IsKept a s salt none = same_auth a
  seed_password-IsKept a s salt (some []) = same_auth a
  seed_password-IsKept a s salt (some (c ∷ cs)) =
      if_either {A = Auth × n.Store} (λ r. IsKept a r.0) a.pw_set _ _ (λ e. same_auth a)
        (λ e. auth_password_store-IsKept a s salt (some (c ∷ cs)))

  load_password-IsKept : (s : n.Store) (a : Auth) → IsKept a (load_password n s a)
  unfolding load_password
  load_password-IsKept s a =
      if_either (IsKept a) (not (has_size (n.get_blob s key_salt 16) 16)) _ _
        (λ e. record { token = refl; enabled = refl; fault = refl })
        (λ e.
          if_either (IsKept a) (has_size (n.get_blob s key_hash 32) 32) _ _
            (λ e. record { token = refl; enabled = refl; fault = refl })
            (λ e. record { token = refl; enabled = refl; fault = refl }))

abbrev IsToken : Bytes → Type 0
IsToken t = (0 < length t) × (length t ≤ 32)

new-IsToken :
    (seed rnd : Bytes)
    → length rnd ≡ 16
    → IsToken (if token_is_hex32 (some seed) then seed else hex_of rnd)
unfolding token_is_hex32
new-IsToken seed rnd e =
    if_either IsToken (all_hex seed && length seed == 32) _ _
      (λ h.
        let full : length seed ≡ 32 = ground (arith, h) in
        (omega (arith, full), omega (arith, full)))
      (λ h. (omega (arith, e, length-hex_of rnd), omega (arith, e, length-hex_of rnd)))

load-IsToken :
    (n : Nvs) (s : n.Store) (seed rnd : Bytes) (o : Option Bytes)
    → length rnd ≡ 16
    → ((t : Bytes) → o ≡ some t → length t < 33)
    → IsToken (load_token n s seed rnd o).0
unfolding load_token
load-IsToken n s seed rnd none e small = new-IsToken seed rnd e
load-IsToken n s seed rnd (some []) e small = new-IsToken seed rnd e
load-IsToken n s seed rnd (some (c ∷ cs)) e small =
    (omega arith, omega (arith, small (c ∷ cs) refl))

-- The WebSocket server asks for the same token, or for none.
abbrev pub AreInStep : Auth → Clients → Type 0
AreInStep a c =
    (auth_off c ≡ not a.auth_enabled) × (a.auth_enabled ≡ true → c.api_token ≡ a.api_token)

in_step :
    (a : Auth) (c : Clients) → IsToken a.api_token → AreInStep a (set_api_token c (ws_token a))
unfolding set_api_token
in_step a c (some_bytes, short) = by_flag a.auth_enabled
  where
    by_flag :
        (b : Bool)
        → let c' = set_api_token c (if b then some a.api_token else none) in
          (auth_off c' ≡ not b) × (b ≡ true → c'.api_token ≡ a.api_token)
    by_flag true =
        let whole : take 32 a.api_token ≡ a.api_token =
          take_le 32 a.api_token (omega (arith, short)) in
        (rw whole (ground (arith, some_bytes)), λ h. whole)
    by_flag false = (refl, λ h. cc)

-- A token of 1 to 32 bytes that both servers agree on; without flash, sign-in is on with no password.
pub record IsStarted (opened : Bool) (a : Auth) (c : Clients) : Type 0 where
  pub some_token : 0 < length a.api_token
  pub short : length a.api_token ≤ 32
  pub in_step : AreInStep a c
  pub closed : opened ≡ false → (a.auth_enabled ≡ true) × (a.pw_set ≡ false)

-- However the flash answers, after the start there is a token of 1 to 32 bytes, and the WebSocket server
-- asks for it if sign-in is on and for none otherwise; if the flash cannot be opened, sign-in is on
-- and no password is set. A string that is read into 33 bytes has at most 32.
pub auth_init-IsStarted :
    (psa_hash : Bytes → Digest) (n : Nvs) (build : Build) (a : Auth) (c : Clients) (s : n.Store)
    (rnd salt : Bytes)
    → length rnd ≡ 16
    → ((t : Bytes) → n.get_str s key_token 33 ≡ some t → length t < 33)
    → let (a', c', s') = auth_init psa_hash n build a c s rnd salt in IsStarted (n.can_open s) a' c'
unfolding auth_init
auth_init-IsStarted psa_hash n build a c s rnd salt size small =
    let (token, s1) =
      load_token n s (seed_of build.default_api_token) rnd (n.get_str s key_token 33) in
    let first = record a {
      auth_enabled = loaded_flag (n.get_u8 s key_enabled) build.auth_default_enabled;
      api_token = token;
    } in
    let read = load_password n s1 first in
    let seeded = seed_password psa_hash n read s1 salt build.default_password in
    let kept : seeded.0.api_token ≡ token =
      (seed_password-IsKept psa_hash n read s1 salt build.default_password).token
      ∙ (load_password-IsKept psa_hash n s1 first).token in
    let loaded : IsToken token =
      load-IsToken n s (seed_of build.default_api_token) rnd (n.get_str s key_token 33) size
        small in
    let mine : IsToken seeded.0.api_token = subst IsToken (sym kept) loaded in
    let new : IsToken (hex_of rnd) =
      (omega (arith, size, length-hex_of rnd), omega (arith, size, length-hex_of rnd)) in
    let broken = record a {
      storage_error = true;
      auth_enabled = true;
      pw_set = false;
      api_token = hex_of rnd;
    } in
    if_either {A = Auth × Clients × n.Store} (λ r. IsStarted (n.can_open s) r.0 r.1)
      (not (n.can_open s)) _ _
      (λ h. record {
        some_token = new.0;
        short = new.1;
        in_step = in_step broken c new;
        closed = λ k. (refl, refl);
      })
      (λ h. record {
        some_token = mine.0;
        short = mine.1;
        in_step = in_step seeded.0 c mine;
        closed = λ k. absurd (ground (arith, h, k));
      })
