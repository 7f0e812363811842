-- ===== src/Auth/Startup.antt =====
-- main/main.cpp: `auth_init` and `auth_rotate_token`, and the switch for sign-in of
-- main/api_system.cpp. The settings of the build, the random bytes and the flash store are given; what
-- is printed on the console is left out.
use zhac_net_core.Base.{
  ℕ, ◌/◌, ◌%◌, Bool, true, false, ◌&&◌, ◌||◌, not, [], ◌∷◌, ◌++◌, Option, none, some, ltb, leb,
  ◌==◌, if◌then◌else◌, length, drop,
}
use zhac_net_core.Json.Writer.{hex_digit}
use zhac_net_core.WsServer.Clients.{Clients, set_api_token, fd_deauth_all}
use zhac_net_core.Auth.{Bytes, Auth}
use zhac_net_core.Auth.Password.{
  Digest, key_enabled, key_token, key_salt, key_hash, Nvs, and_then, auth_password_store,
}

abbrev pub is_hex : ℕ → Bool
is_hex c = (leb b'0' c && leb c b'9') || (leb b'a' c && leb c b'f') || (leb b'A' c && leb c b'F')

unfoldable pub all_hex : Bytes → Bool
all_hex [] = true
all_hex (c ∷ cs) = is_hex c && all_hex cs

-- `none` is a null pointer. The loop stops at the NUL, which is no digit.
unfoldable pub token_is_hex32 : Option Bytes → Bool
unfolding all_hex
token_is_hex32 none = false
token_is_hex32 (some s) = all_hex s && length s == 32

-- `%02x` of each byte.
unfoldable pub hex_of : Bytes → Bytes
hex_of [] = []
hex_of (b ∷ bs) = hex_digit (b / 16 % 16) ∷ hex_digit (b % 16) ∷ hex_of bs

-- CONFIG_ZHAC_API_AUTH_DEFAULT_ENABLED, and the two texts, if they are defined.
pub record Build : Type 0 where
  pub auth_default_enabled : Bool
  pub default_api_token : Option Bytes
  pub default_password : Option Bytes

abbrev pub seed_of : Option Bytes → Bytes
seed_of none = []
seed_of (some text) = text

-- A blob that is read into an array.
abbrev pub read_into : Option Bytes → Bytes → Bytes
read_into none old = old
read_into (some v) old = v ++ drop (length v) old

abbrev pub has_size : Option Bytes → ℕ → Bool
has_size none size = false
has_size (some v) size = length v == size

-- What is given to the WebSocket server: the token, or a null pointer.
abbrev pub ws_token : Auth → Option Bytes
ws_token a = if a.auth_enabled then some a.api_token else none

module _ (n : Nvs) where
  open n use {Store, can_open, get_blob, set_u8, set_str, commit}

  -- The token that was read, or a new one and its write; `rnd` is 16 random bytes.
  unfoldable pub load_token : Store → (seed rnd : Bytes) → Option Bytes → Bytes × Store
  unfolding token_is_hex32 hex_of
  load_token s seed rnd none =
      let token = if token_is_hex32 (some seed) then seed else hex_of rnd in
      (token, (commit (set_str s key_token token).0).0)
  load_token s seed rnd (some []) =
      let token = if token_is_hex32 (some seed) then seed else hex_of rnd in
      (token, (commit (set_str s key_token token).0).0)
  load_token s seed rnd (some (c ∷ cs)) = (c ∷ cs, s)

  -- The hash is read only where the salt was.
  unfoldable pub load_password : Store → Auth → Auth
  load_password s a =
      let salt = get_blob s key_salt 16 in
      let hash = get_blob s key_hash 32 in
      let first = record a { pw_salt = read_into salt a.pw_salt } in
      let both = record first { pw_hash = read_into hash a.pw_hash } in
      if not (has_size salt 16)
      then first
      else if has_size hash 32
      then record both { pw_set = true }
      else both

  -- The new token is the text that `out` gets, if the answer is true.
  unfoldable pub auth_rotate_token :
      Auth → Clients → Store → (out_cap : ℕ) → (rnd : Bytes) → Auth × Clients × Store × Option Bytes
  unfolding hex_of set_api_token fd_deauth_all
  auth_rotate_token a c s out_cap rnd =
      let fresh = hex_of rnd in
      let (s', ok) = and_then (set_str s key_token fresh) commit in
      if ltb out_cap 33
      then (a, c, s, none)
      else if not (can_open s)
      then (a, c, s, none)
      else if not ok
      then (a, c, s', none)
      else (
        record a { api_token = fresh },
        if a.auth_enabled then fd_deauth_all (set_api_token c (some fresh)) else c,
        s',
        some fresh,
      )

  -- The part of `api_settings_set` that turns sign-in on or off.
  unfoldable pub set_auth_enabled : Auth → Clients → Store → Bool → Auth × Clients × Store
  unfolding set_api_token
  set_auth_enabled a c s on =
      let a' = record a { auth_enabled = on } in
      let written = (commit (set_u8 s key_enabled (if on then 1 else 0)).0).0 in
      (a', set_api_token c (ws_token a'), if can_open s then written else s)

abbrev pub loaded_flag : Option ℕ → Bool → Bool
loaded_flag none default = default
loaded_flag (some v) default = not (v == 0)

module _ (psa_hash : Bytes → Digest) (n : Nvs) where
  open n use {Store, can_open, get_u8, get_str}

  -- The password of the build, where none is stored.
  unfoldable pub seed_password : Auth → Store → (salt : Bytes) → Option Bytes → Auth × Store
  unfolding auth_password_store
  seed_password a s salt none = (a, s)
  seed_password a s salt (some []) = (a, s)
  seed_password a s salt (some (c ∷ cs)) =
      let (a', s', ok) = auth_password_store psa_hash n a s salt (some (c ∷ cs)) in
      if a.pw_set then (a, s) else (a', s')

  -- The statics, the table of the WebSocket server, and the store.
  unfoldable pub auth_init :
      Build → Auth → Clients → Store → (rnd salt : Bytes) → Auth × Clients × Store
  unfolding load_token load_password seed_password hex_of set_api_token
  auth_init build a c s rnd salt =
      let broken = record a {
        storage_error = true;
        auth_enabled = true;
        pw_set = false;
        api_token = hex_of rnd;
      } in
      let (token, s1) =
        load_token n s (seed_of build.default_api_token) rnd (get_str s key_token 33) in
      let read = load_password n s1 (record a {
        auth_enabled = loaded_flag (get_u8 s key_enabled) build.auth_default_enabled;
        api_token = token;
      }) in
      let (a2, s2) = seed_password read s1 salt build.default_password in
      if not (can_open s)
      then (broken, set_api_token c (some broken.api_token), s)
      else (a2, set_api_token c (ws_token a2), s2)
