-- ===== src/Remote/Stored.antt =====
-- components/remote_client/remote_nvs.cpp: the stored configuration of the cloud channel. The flash
-- store is a parameter: the calls on the namespace "zhac_remote" and what they answer.
pub mod Forgotten
pub mod Saved
use zhac_net_core.Base.{
  ℕ, ◌-◌, ◌/◌, ◌%◌, ◌+◌, Bool, true, false, not, List, [], ◌∷◌, ◌++◌, Option, none, some, ltb, ◌==◌,
  if◌then◌else◌, take, length,
}

abbrev pub Bytes : Type 0
Bytes = List ℕ

pub data Key : Type 0 where
  enabled url token dev_id : Key

pub record Nvs : Type 1 where
  pub Store : Type 0
  pub can_read : Store → Bool
  pub can_write : Store → Bool
  pub get_str : Store → Key → (cap : ℕ) → Option Bytes
  pub set_str : Store → Key → Bytes → Store × Bool
  pub get_u8 : Store → Key → Option ℕ
  pub set_u8 : Store → Key → ℕ → Store × Bool
  pub erase_key : Store → Key → Store
  pub commit : Store → Store × Bool

abbrev upper_digit : ℕ → ℕ
upper_digit d = if ltb d 10 then b'0' + d else b'A' + (d - 10)

-- `%02X` of each byte.
unfoldable pub mac_text : Bytes → Bytes
mac_text [] = []
mac_text (b ∷ bs) = upper_digit (b / 16 % 16) ∷ upper_digit (b % 16) ∷ mac_text bs

unfoldable pub default_devid : (mac : Bytes) → (cap : ℕ) → Bytes
unfolding mac_text
default_devid mac cap = take (cap - 1) (mac_text mac)

-- What a load gives.
pub record Loaded : Type 0 where
  pub is_enabled : Bool
  pub url_out : Bytes
  pub token_out : Bytes
  pub devid_out : Bytes

abbrev pub or_empty : Option Bytes → Bytes
or_empty none = []
or_empty (some text) = text

abbrev pub or_default : Bytes → Bytes → Bytes
or_default text other = if length text == 0 then other else text

-- `ok = ok && call`, with what the call does to the store.
abbrev pub if_ok {ℓ} : {S : Type ℓ} → S × Bool → (S → S × Bool) → S × Bool
if_ok r call = let after = call r.0 in if r.1 then after else r

module _ (n : Nvs) where
  open n use {Store, can_read, can_write, get_str, set_str, get_u8, set_u8, erase_key, commit}

  unfoldable pub kv_get_str : Store → Key → (cap : ℕ) → Option Bytes
  kv_get_str s k cap = if can_read s then get_str s k cap else none

  unfoldable pub kv_set_str : Store → Key → Bytes → Store × Bool
  kv_set_str s k text = if can_write s then set_str s k text else (s, false)

  unfoldable pub kv_get_u8 : Store → Key → Option ℕ
  kv_get_u8 s k = if can_read s then get_u8 s k else none

  unfoldable pub kv_set_u8 : Store → Key → ℕ → Store × Bool
  kv_set_u8 s k v = if can_write s then set_u8 s k v else (s, false)

  unfoldable pub kv_commit : Store → Store × Bool
  kv_commit s = if can_write s then commit s else (s, false)

  -- The answer of the erasure is not looked at.
  unfoldable pub kv_erase : Store → Key → Store × Bool
  kv_erase s k = if can_write s then commit (erase_key s k) else (s, false)

  unfoldable pub remote_nvs_load :
      Store → (mac : Bytes) → (url_cap token_cap devid_cap : ℕ) → Loaded
  unfolding default_devid
  remote_nvs_load s mac url_cap token_cap devid_cap = record {
    is_enabled = elim (kv_get_u8 s enabled) [ none ↦ false | some v ↦ not (v == 0) ];
    url_out = or_empty (kv_get_str s url url_cap);
    token_out = or_empty (kv_get_str s token token_cap);
    devid_out = or_default (or_empty (kv_get_str s dev_id devid_cap)) (default_devid mac devid_cap);
  }

  -- A null pointer and an empty text are both empty here, and nothing is written for them.
  unfoldable pub save_text : Key → Bytes → Store × Bool → Store × Bool
  unfolding kv_set_str
  save_text k [] r = r
  save_text k (c ∷ cs) r = if_ok r (λ s. kv_set_str s k (c ∷ cs))

  unfoldable pub remote_nvs_save : Store → Bool → (url_in token_in devid_in : Bytes) → Store × Bool
  unfolding save_text kv_set_u8 kv_commit
  remote_nvs_save s on url_in token_in devid_in =
      if_ok
        (save_text dev_id devid_in (
          save_text token token_in
            (save_text url url_in (kv_set_u8 s enabled (if on then 1 else 0)))))
        kv_commit

  unfoldable pub remote_nvs_forget_creds : Store → Store × Bool
  unfolding kv_erase kv_commit
  remote_nvs_forget_creds s = if_ok (if_ok (kv_erase s url) (λ t. kv_erase t token)) kv_commit
