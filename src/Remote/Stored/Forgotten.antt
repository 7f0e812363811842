-- ===== src/Remote/Stored/Forgotten.antt =====
-- `remote_nvs_forget_creds` of components/remote_client/remote_nvs.cpp, on a flash that does not fail.
use zhac_net_core.Base.{
  ℕ, ◌≡◌, refl, sym, ap, ◌∙◌, ◌≢◌, true, false, not, [], none, some, if◌then◌else◌, ◌==◌,
}
use zhac_net_core.Remote.Stored.{
  Bytes, Key, enabled, url, token, dev_id, Nvs, kv_get_str, kv_get_u8, kv_erase, kv_commit,
  default_devid, or_empty, or_default, remote_nvs_load, remote_nvs_forget_creds,
}

pub record IsReliable (n : Nvs) : Type 0 where
  pub opens : (s : n.Store) → (n.can_read s ≡ true) × (n.can_write s ≡ true)
  pub commits : (s : n.Store) → (n.commit s).1 ≡ true
  pub str_commit :
      (s : n.Store) (k : Key) (cap : ℕ) → n.get_str (n.commit s).0 k cap ≡ n.get_str s k cap
  pub u8_commit : (s : n.Store) (k : Key) → n.get_u8 (n.commit s).0 k ≡ n.get_u8 s k
  pub str_erased : (s : n.Store) (k : Key) (cap : ℕ) → n.get_str (n.erase_key s k) k cap ≡ none
  pub str_other :
      (s : n.Store) (k j : Key) (cap : ℕ)
      → j ≢ k
      → n.get_str (n.erase_key s k) j cap ≡ n.get_str s j cap
  pub u8_other : (s : n.Store) (k j : Key) → j ≢ k → n.get_u8 (n.erase_key s k) j ≡ n.get_u8 s j

module _ (n : Nvs) (ok : IsReliable n) where
  erased : n.Store → Key → n.Store
  erased s k = (n.commit (n.erase_key s k)).0

  kv_erase-reliable : (s : n.Store) (k : Key) → kv_erase n s k ≡ (erased s k, true)
  unfolding kv_erase erased
  kv_erase-reliable s k =
      rw ((ok.opens s).1) (λ i. ((n.commit (n.erase_key s k)).0, ok.commits (n.erase_key s k) i))

  kv_commit-reliable : (s : n.Store) → kv_commit n s ≡ ((n.commit s).0, true)
  unfolding kv_commit
  kv_commit-reliable s = rw ((ok.opens s).1) (λ i. ((n.commit s).0, ok.commits s i))

  forgotten : n.Store → n.Store
  forgotten s = (n.commit (erased (erased s url) token)).0

  forget-reliable : (s : n.Store) → remote_nvs_forget_creds n s ≡ (forgotten s, true)
  unfolding remote_nvs_forget_creds forgotten
  forget-reliable s =
      rw
        (
          kv_erase-reliable s url,
          kv_erase-reliable (erased s url) token,
          kv_commit-reliable (erased (erased s url) token),
        )
        refl

  text_left :
      (s : n.Store) (k : Key) (cap : ℕ)
      → n.get_str (forgotten s) k cap ≡ n.get_str (n.erase_key (erased s url) token) k cap
  unfolding forgotten erased
  text_left s k cap = ok.str_commit _ k cap ∙ ok.str_commit _ k cap

  url_gone : (s : n.Store) (cap : ℕ) → n.get_str (forgotten s) url cap ≡ none
  unfolding erased
  url_gone s cap =
      text_left s url cap
      ∙ ok.str_other _ token url cap (λ h. cc)
      ∙ ok.str_commit _ url cap
      ∙ ok.str_erased s url cap

  token_gone : (s : n.Store) (cap : ℕ) → n.get_str (forgotten s) token cap ≡ none
  token_gone s cap = text_left s token cap ∙ ok.str_erased _ token cap

  devid_kept : (s : n.Store) (cap : ℕ) → n.get_str (forgotten s) dev_id cap ≡ n.get_str s dev_id cap
  unfolding erased
  devid_kept s cap =
      text_left s dev_id cap
      ∙ ok.str_other _ token dev_id cap (λ h. cc)
      ∙ ok.str_commit _ dev_id cap
      ∙ ok.str_other s url dev_id cap (λ h. cc)

  enabled_kept : (s : n.Store) → n.get_u8 (forgotten s) enabled ≡ n.get_u8 s enabled
  unfolding forgotten erased
  enabled_kept s =
      ok.u8_commit _ enabled
      ∙ ok.u8_commit _ enabled
      ∙ ok.u8_other _ token enabled (λ h. cc)
      ∙ ok.u8_commit _ enabled
      ∙ ok.u8_other s url enabled (λ h. cc)

  reads_str : (s : n.Store) (k : Key) (cap : ℕ) → kv_get_str n s k cap ≡ n.get_str s k cap
  unfolding kv_get_str
  reads_str s k cap = ap (λ b. if b then n.get_str s k cap else none) (ok.opens s).0

  reads_u8 : (s : n.Store) (k : Key) → kv_get_u8 n s k ≡ n.get_u8 s k
  unfolding kv_get_u8
  reads_u8 s k = ap (λ b. if b then n.get_u8 s k else none) (ok.opens s).0

-- On a flash that does not fail, `remote_nvs_forget_creds` answers true, and what is loaded afterwards
-- has no URL and no token; the device's name and whether the channel is enabled are as before.
pub remote_nvs_forget_creds_lem :
    (n : Nvs) (s : n.Store) (mac : Bytes) (url_cap token_cap devid_cap : ℕ)
    → IsReliable n
    → let (s', done) = remote_nvs_forget_creds n s in
      let before = remote_nvs_load n s mac url_cap token_cap devid_cap in
      (done ≡ true)
      × (remote_nvs_load n s' mac url_cap token_cap devid_cap
          ≡ record before { url_out = []; token_out = [] })
unfolding remote_nvs_load
remote_nvs_forget_creds_lem n s mac url_cap token_cap devid_cap ok = (
  ap (λ r. r.1) done,
  ap (λ r. remote_nvs_load n r.0 mac url_cap token_cap devid_cap) done ∙ (λ i. record {
    is_enabled = elim (number i) [ none ↦ false | some v ↦ not (v == 0) ];
    url_out = or_empty (url_text i);
    token_out = or_empty (token_text i);
    devid_out = or_default (or_empty (devid_text i)) (default_devid mac devid_cap);
  }),
)
  where
    s' : n.Store
    s' = forgotten n ok s

    done : remote_nvs_forget_creds n s ≡ (s', true)
    done = forget-reliable n ok s

    number : kv_get_u8 n s' enabled ≡ kv_get_u8 n s enabled
    number = reads_u8 n ok s' enabled ∙ enabled_kept n ok s ∙ sym (reads_u8 n ok s enabled)

    url_text : kv_get_str n s' url url_cap ≡ none
    url_text = reads_str n ok s' url url_cap ∙ url_gone n ok s url_cap

    token_text : kv_get_str n s' token token_cap ≡ none
    token_text = reads_str n ok s' token token_cap ∙ token_gone n ok s token_cap

    devid_text : kv_get_str n s' dev_id devid_cap ≡ kv_get_str n s dev_id devid_cap
    devid_text =
        reads_str n ok s' dev_id devid_cap
        ∙ devid_kept n ok s devid_cap
        ∙ sym (reads_str n ok s dev_id devid_cap)
