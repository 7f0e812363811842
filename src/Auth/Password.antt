-- ===== src/Auth/Password.antt =====
-- main/main.cpp: the admin password. The hash of the PSA library, the random bytes and the flash store
-- are parameters: `Digest` is what a call of `psa_hash_compute` answers, and `Nvs` holds the calls on
-- the namespace "zhac_auth".
use zhac_net_core.Base.{
  ℕ, zero, suc, ◌-◌, Bool, true, false, ◌||◌, not, ◌++◌, Option, none, some, ltb, ◌==◌,
  if◌then◌else◌, length,
}
use zhac_net_core.Auth.{Bytes, Turn, Auth, failed, auth_is_locked}
use zhac_net_core.WsServer.Handshake.{diff_from}

-- The status, the length that is reported, and the 32 bytes of the buffer.
pub record Digest : Type 0 where
  pub success : Bool
  pub olen : ℕ
  pub out : Bytes

pub data Key : Type 0 where
  key_enabled key_token key_salt key_hash : Key

pub record Nvs : Type 1 where
  pub Store : Type 0
  pub can_open : Store → Bool
  pub get_u8 : Store → Key → Option ℕ
  pub get_str : Store → Key → (cap : ℕ) → Option Bytes
  pub get_blob : Store → Key → (cap : ℕ) → Option Bytes
  pub set_u8 : Store → Key → ℕ → Store × Bool
  pub set_str : Store → Key → Bytes → Store × Bool
  pub set_blob : Store → Key → Bytes → Store × Bool
  pub commit : Store → Store × Bool

abbrev pub pw_kdf_rounds : ℕ
pw_kdf_rounds = 8192

abbrev pub pw_min_len : ℕ
pw_min_len = 8

abbrev pub pw_max_len : ℕ
pw_max_len = 63

-- `ok ? call : error`, with what the calls do to the store.
abbrev pub and_then {ℓ} : {S : Type ℓ} → S × Bool → (S → S × Bool) → S × Bool
and_then r call = let next = call r.0 in if r.1 then next else r

module _ (psa_hash : Bytes → Digest) where
  -- The rounds that are left.
  unfoldable pub kdf_loop : ℕ → (salt pw : Bytes) → Digest → Digest
  kdf_loop zero salt pw d = d
  kdf_loop (suc n) salt pw d = elim d.success [
    | true ↦ kdf_loop n salt pw (psa_hash (d.out ++ (salt ++ pw)))
    | false ↦ d
  ]

  -- `none` is the answer false.
  unfoldable pub pw_kdf : (pw salt : Bytes) → Option Bytes
  pw_kdf pw salt =
      let d = kdf_loop (pw_kdf_rounds - 1) salt pw (psa_hash (salt ++ pw)) in
      if not d.success || not (d.olen == 32) then none else some d.out

  -- The digest, if there is one, against the one that is stored.
  unfoldable pub compared : Auth → (note : Turn) → (ip : ℕ) → Option Bytes → Auth × Bool
  unfolding diff_from
  compared a note ip none = failed a note ip
  compared a note ip (some h) =
      if not (diff_from 32 0 h a.pw_hash 0 == 0) then failed a note ip else (a, true)

  -- A password that was sent; `none` is a null pointer.
  unfoldable pub tested : Auth → (note : Turn) → (ip : ℕ) → Option Bytes → Auth × Bool
  unfolding compared pw_kdf
  tested a note ip none = failed a note ip
  tested a note ip (some pw) =
      if not a.pw_set
      then failed a note ip
      else if ltb (length pw) 1 || ltb pw_max_len (length pw)
      then failed a note ip
      else compared a note ip (pw_kdf pw a.pw_salt)

  unfoldable pub auth_password_check :
      Auth → (look note : Turn) → (ip : ℕ) → (pw : Option Bytes) → Auth × Bool
  unfolding tested auth_is_locked
  auth_password_check a look note ip pw =
      if auth_is_locked look ip a.buckets then (a, false) else tested a note ip pw

module _ (psa_hash : Bytes → Digest) (n : Nvs) where
  open n use {Store, can_open, set_blob, commit}

  -- The three writes, each only after the one before it.
  unfoldable pub persist : Store → (salt hash : Bytes) → Store × Bool
  persist s salt hash =
      and_then (and_then (set_blob s key_salt salt) (λ t. set_blob t key_hash hash)) commit

  -- The password with its digest, if there is one.
  unfoldable pub stored : Auth → Store → (salt : Bytes) → Option Bytes → Auth × Store × Bool
  unfolding persist
  stored a s salt none = (a, s, false)
  stored a s salt (some hash) =
      let (s', ok) = persist s salt hash in
      if not (can_open s)
      then (a, s, false)
      else if not ok
      then (a, s', false)
      else (record a { pw_salt = salt; pw_hash = hash; pw_set = true }, s', true)

  -- `salt` is 16 random bytes.
  unfoldable pub auth_password_store :
      Auth → Store → (salt : Bytes) → (pw : Option Bytes) → Auth × Store × Bool
  unfolding stored pw_kdf
  auth_password_store a s salt none = (a, s, false)
  auth_password_store a s salt (some pw) =
      if ltb (length pw) pw_min_len || ltb pw_max_len (length pw)
      then (a, s, false)
      else stored a s salt (pw_kdf psa_hash pw salt)
