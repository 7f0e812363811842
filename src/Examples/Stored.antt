-- ===== src/Examples/Stored.antt =====
-- Runs of components/remote_client/remote_nvs.cpp, on a flash that is a function from keys.
use zhac_net_core.Base.{
  ℕ, ◌≡◌, ◌≢◌, refl, ap, true, false, [], ◌∷◌, Option, none, some, ◌==◌, if◌then◌else◌, codes,
  arith,
}
use zhac_net_core.Remote.Stored.Saved.{IsKeeping, or_old, remote_nvs_save_lem}
use zhac_net_core.Remote.Stored.{
  Bytes, Key, enabled, url, token, dev_id, Nvs, remote_nvs_load, remote_nvs_save,
}

abbrev number : Key → ℕ
number enabled = 0
number url = 1
number token = 2
number dev_id = 3

pub record Kept : Type 0 where
  pub texts : Key → Option Bytes
  pub numbers : Key → Option ℕ

abbrev pub flash : Nvs
flash = record {
  Store = Kept;
  can_read = λ s. true;
  can_write = λ s. true;
  get_str = λ s k cap. s.texts k;
  set_str =
      λ s k v. (record s { texts = λ j. if number j == number k then some v else s.texts j }, true);
  get_u8 = λ s k. s.numbers k;
  set_u8 = λ s k v.
      (record s { numbers = λ j. if number j == number k then some v else s.numbers j }, true);
  erase_key = λ s k. record {
    texts = λ j. if number j == number k then none else s.texts j;
    numbers = λ j. if number j == number k then none else s.numbers j;
  };
  commit = λ s. (s, true);
}

number-same : (k : Key) → (number k == number k) ≡ true
number-same enabled = refl
number-same url = refl
number-same token = refl
number-same dev_id = refl

number-ne : (j k : Key) → j ≢ k → (number j == number k) ≡ false
number-ne enabled enabled ne = absurd (ne refl)
number-ne enabled url ne = refl
number-ne enabled token ne = refl
number-ne enabled dev_id ne = refl
number-ne url enabled ne = refl
number-ne url url ne = absurd (ne refl)
number-ne url token ne = refl
number-ne url dev_id ne = refl
number-ne token enabled ne = refl
number-ne token url ne = refl
number-ne token token ne = absurd (ne refl)
number-ne token dev_id ne = refl
number-ne dev_id enabled ne = refl
number-ne dev_id url ne = refl
number-ne dev_id token ne = refl
number-ne dev_id dev_id ne = absurd (ne refl)

pub flash-IsKeeping : IsKeeping flash
flash-IsKeeping = record {
  opens = λ s. refl;
  str_set = λ s k text cap done fits. ap (λ b. if b then some text else s.texts k) (number-same k);
  str_other = λ s k j text cap ne. ap (λ b. if b then some text else s.texts j) (number-ne j k ne);
  str_number = λ s k j v cap. refl;
  str_commit = λ s k cap. refl;
  u8_set = λ s k v done. ap (λ b. if b then some v else s.numbers k) (number-same k);
  u8_text = λ s k j text. refl;
  u8_commit = λ s k. refl;
}

abbrev pub factory : Kept
factory = record { texts = λ k. none; numbers = λ k. none }

-- The device id is not given, so that of the address of the Wi-Fi is taken.
remote_nvs_save_lem_example :
    let mac : Bytes = 1 ∷ 171 ∷ [] in
    let before = remote_nvs_load flash factory mac 128 96 32 in
    remote_nvs_load flash
      (remote_nvs_save flash factory true (codes "wss://x") (codes "t") []).0
      mac
      128
      96
      32
    ≡ record {
      is_enabled = true;
      url_out = or_old (codes "wss://x") before.url_out;
      token_out = or_old (codes "t") before.token_out;
      devid_out = or_old [] before.devid_out;
    }
unfolding remote_nvs_save
remote_nvs_save_lem_example =
    remote_nvs_save_lem flash factory (1 ∷ 171 ∷ []) 128 96 32 true (codes "wss://x") (codes "t") []
      flash-IsKeeping (omega arith) (omega arith) (omega arith) refl
