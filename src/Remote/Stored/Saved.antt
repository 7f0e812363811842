-- ===== src/Remote/Stored/Saved.antt =====
-- `remote_nvs_save` of components/remote_client/remote_nvs.cpp, followed by `remote_nvs_load`.
use mathlib.Core.Path.{subst}
use zhac_net_core.Base.{
  ℕ, arith, ◌≡◌, ◌≢◌, ◌<◌, refl, sym, ap, ◌∙◌, Bool, true, false, not, [], ◌∷◌, none, some,
  if◌then◌else◌, ◌==◌, length,
}
use zhac_net_core.Remote.Stored.{
  Bytes, Key, enabled, url, token, dev_id, Nvs, kv_get_str, kv_get_u8, kv_set_str, kv_set_u8,
  kv_commit, default_devid, or_empty, or_default, if_ok, save_text, remote_nvs_load,
  remote_nvs_save,
}

-- What the flash promises: it can be read, what a write that is answered by true has written is read
-- again where it fits, and nothing else is changed.
pub record IsKeeping (n : Nvs) : Type 0 where
  pub opens : (s : n.Store) → n.can_read s ≡ true
  pub str_set :
      (s : n.Store) (k : Key) (text : Bytes) (cap : ℕ)
      → (n.set_str s k text).1 ≡ true
      → length text < cap
      → n.get_str (n.set_str s k text).0 k cap ≡ some text
  pub str_other :
      (s : n.Store) (k j : Key) (text : Bytes) (cap : ℕ)
      → j ≢ k
      → n.get_str (n.set_str s k text).0 j cap ≡ n.get_str s j cap
  pub str_number :
      (s : n.Store) (k j : Key) (v cap : ℕ) → n.get_str (n.set_u8 s k v).0 j cap ≡ n.get_str s j cap
  pub str_commit :
      (s : n.Store) (k : Key) (cap : ℕ) → n.get_str (n.commit s).0 k cap ≡ n.get_str s k cap
  pub u8_set :
      (s : n.Store) (k : Key) (v : ℕ)
      → (n.set_u8 s k v).1 ≡ true
      → n.get_u8 (n.set_u8 s k v).0 k ≡ some v
  pub u8_text :
      (s : n.Store) (k j : Key) (text : Bytes) → n.get_u8 (n.set_str s k text).0 j ≡ n.get_u8 s j
  pub u8_commit : (s : n.Store) (k : Key) → n.get_u8 (n.commit s).0 k ≡ n.get_u8 s k

-- An empty text is not written, so the old one is read again.
abbrev pub or_old : Bytes → Bytes → Bytes
or_old [] old = old
or_old (c ∷ cs) old = c ∷ cs

if_true {ℓ} :
    {S : Type ℓ} (b : Bool) (r other : S × Bool)
    → other.1 ≡ false
    → (if b then r else other).1 ≡ true
    → ((if b then r else other) ≡ r) × (r.1 ≡ true)
if_true true r other off h = (refl, h)
if_true false r other off h = absurd cc

if_ok-true {ℓ} :
    {S : Type ℓ} (r : S × Bool) (call : S → S × Bool)
    → (if_ok r call).1 ≡ true
    → (r.1 ≡ true) × (if_ok r call ≡ call r.0)
if_ok-true (s, true) call h = (refl, refl)
if_ok-true (s, false) call h = absurd cc

-- The texts but one are as before, and so are the numbers; that one is the new one, if there is one.
record Wrote (n : Nvs) (k : Key) (text : Bytes) (s s' : n.Store) : Type 0 where
  same :
      (cap : ℕ)
      → length text < cap
      → or_empty (n.get_str s' k cap) ≡ or_old text (or_empty (n.get_str s k cap))
  others : (j : Key) (cap : ℕ) → j ≢ k → n.get_str s' j cap ≡ n.get_str s j cap
  numbers : (j : Key) → n.get_u8 s' j ≡ n.get_u8 s j

url-dev_id : url ≢ dev_id
url-dev_id h = cc

url-token : url ≢ token
url-token h = cc

token-dev_id : token ≢ dev_id
token-dev_id h = cc

token-url : token ≢ url
token-url h = cc

dev_id-token : dev_id ≢ token
dev_id-token h = cc

dev_id-url : dev_id ≢ url
dev_id-url h = cc

module _ (n : Nvs) (ok : IsKeeping n) where
  set-Wrote :
      (k : Key) (c : ℕ) (cs : Bytes) (s : n.Store)
      → (kv_set_str n s k (c ∷ cs)).1 ≡ true
      → Wrote n k (c ∷ cs) s (kv_set_str n s k (c ∷ cs)).0
  unfolding kv_set_str
  set-Wrote k c cs s h =
      let (e, done) = if_true (n.can_write s) (n.set_str s k (c ∷ cs)) (s, false) refl h in
      subst (λ r. Wrote n k (c ∷ cs) s r.0) (sym e)
        record {
          same = λ cap fits. ap or_empty (ok.str_set s k (c ∷ cs) cap done fits);
          others = λ j cap ne. ok.str_other s k j (c ∷ cs) cap ne;
          numbers = λ j. ok.u8_text s k j (c ∷ cs);
        }

  save_text-Wrote :
      (k : Key) (text : Bytes) (r : n.Store × Bool)
      → (save_text n k text r).1 ≡ true
      → (r.1 ≡ true) × Wrote n k text r.0 (save_text n k text r).0
  unfolding save_text
  save_text-Wrote k [] r h =
      (h, record { same = λ cap fits. refl; others = λ j cap ne. refl; numbers = λ j. refl })
  save_text-Wrote k (c ∷ cs) r h =
      let (before, e) = if_ok-true r (λ s. kv_set_str n s k (c ∷ cs)) h in
      (
        before,
        subst (λ q. Wrote n k (c ∷ cs) r.0 q.0) (sym e)
            (set-Wrote k c cs r.0 (ap (λ q. q.1) (sym e) ∙ h)),
      )

  kv_commit-kept :
      (s : n.Store)
      → (kv_commit n s).1 ≡ true
      → ((k : Key) (cap : ℕ) → n.get_str (kv_commit n s).0 k cap ≡ n.get_str s k cap)
        × ((k : Key) → n.get_u8 (kv_commit n s).0 k ≡ n.get_u8 s k)
  unfolding kv_commit
  kv_commit-kept s h =
      let (e, done) = if_true (n.can_write s) (n.commit s) (s, false) refl h in
      (
        λ k cap. ap (λ r. n.get_str r.0 k cap) e ∙ ok.str_commit s k cap,
        λ k. ap (λ r. n.get_u8 r.0 k) e ∙ ok.u8_commit s k,
      )

  kv_set_u8-kept :
      (s : n.Store) (v : ℕ)
      → (kv_set_u8 n s enabled v).1 ≡ true
      → ((k : Key) (cap : ℕ) → n.get_str (kv_set_u8 n s enabled v).0 k cap ≡ n.get_str s k cap)
        × (n.get_u8 (kv_set_u8 n s enabled v).0 enabled ≡ some v)
  unfolding kv_set_u8
  kv_set_u8-kept s v h =
      let (e, done) = if_true (n.can_write s) (n.set_u8 s enabled v) (s, false) refl h in
      (
        λ k cap. ap (λ r. n.get_str r.0 k cap) e ∙ ok.str_number s enabled k v cap,
        ap (λ r. n.get_u8 r.0 enabled) e ∙ ok.u8_set s enabled v done,
      )

  reads_str : (s : n.Store) (k : Key) (cap : ℕ) → kv_get_str n s k cap ≡ n.get_str s k cap
  unfolding kv_get_str
  reads_str s k cap = ap (λ b. if b then n.get_str s k cap else none) (ok.opens s)

  reads_u8 : (s : n.Store) (k : Key) → kv_get_u8 n s k ≡ n.get_u8 s k
  unfolding kv_get_u8
  reads_u8 s k = ap (λ b. if b then n.get_u8 s k else none) (ok.opens s)

  -- The store after a save that was answered by true.
  record IsSaved (on : Bool) (u t d : Bytes) (s s' : n.Store) : Type 0 where
    url_saved :
        (cap : ℕ)
        → length u < cap
        → or_empty (n.get_str s' url cap) ≡ or_old u (or_empty (n.get_str s url cap))
    token_saved :
        (cap : ℕ)
        → length t < cap
        → or_empty (n.get_str s' token cap) ≡ or_old t (or_empty (n.get_str s token cap))
    devid_saved :
        (cap : ℕ)
        → length d < cap
        → or_empty (n.get_str s' dev_id cap) ≡ or_old d (or_empty (n.get_str s dev_id cap))
    enabled_saved : n.get_u8 s' enabled ≡ some (if on then 1 else 0)

  remote_nvs_save-IsSaved :
      (s : n.Store) (on : Bool) (u t d : Bytes)
      → (remote_nvs_save n s on u t d).1 ≡ true
      → IsSaved on u t d s (remote_nvs_save n s on u t d).0
  unfolding remote_nvs_save
  remote_nvs_save-IsSaved s on u t d h =
      let v = if on then 1 else 0 in
      let r0 = kv_set_u8 n s enabled v in
      let r1 = save_text n url u r0 in
      let r2 = save_text n token t r1 in
      let r3 = save_text n dev_id d r2 in
      let (done3, e) = if_ok-true r3 (kv_commit n) h in
      let (texts, numbers) = kv_commit-kept r3.0 (ap (λ q. q.1) (sym e) ∙ h) in
      let (done2, w3) = save_text-Wrote dev_id d r2 done3 in
      let (done1, w2) = save_text-Wrote token t r1 done2 in
      let (done0, w1) = save_text-Wrote url u r0 done1 in
      let (kept, number) = kv_set_u8-kept s v done0 in
      subst (λ q. IsSaved on u t d s q.0) (sym e)
        record {
          url_saved = λ cap fits.
              ap or_empty
                (texts url cap ∙ w3.others url cap url-dev_id ∙ w2.others url cap url-token)
              ∙ w1.same cap fits
              ∙ ap (λ x. or_old u (or_empty x)) (kept url cap);
          token_saved = λ cap fits.
              ap or_empty (texts token cap ∙ w3.others token cap token-dev_id)
              ∙ w2.same cap fits
              ∙ ap (λ x. or_old t (or_empty x)) (w1.others token cap token-url ∙ kept token cap);
          devid_saved = λ cap fits.
              ap or_empty (texts dev_id cap)
              ∙ w3.same cap fits
              ∙ ap (λ x. or_old d (or_empty x))
                  (w2.others dev_id cap dev_id-token
                    ∙ w1.others dev_id cap dev_id-url
                    ∙ kept dev_id cap);
          enabled_saved =
              numbers enabled
              ∙ w3.numbers enabled
              ∙ w2.numbers enabled
              ∙ w1.numbers enabled
              ∙ number;
        }

  read_again :
      (s s' : n.Store) (k : Key) (text : Bytes) (cap : ℕ)
      → or_empty (n.get_str s' k cap) ≡ or_old text (or_empty (n.get_str s k cap))
      → or_empty (kv_get_str n s' k cap) ≡ or_old text (or_empty (kv_get_str n s k cap))
  read_again s s' k text cap e =
      ap or_empty (reads_str s' k cap)
      ∙ e
      ∙ ap (λ x. or_old text (or_empty x)) (sym (reads_str s k cap))

or_default-or_old :
    (text old other : Bytes)
    → or_default (or_old text old) other ≡ or_old text (or_default old other)
or_default-or_old [] old other = refl
or_default-or_old (c ∷ cs) old other = ground arith

is_on : (on : Bool) → not ((if on then 1 else 0) == 0) ≡ on
is_on true = refl
is_on false = refl

-- On a flash that can be read, whose acknowledged writes are read again where they fit and change
-- nothing else, a save that is answered by true is what a load gives afterwards, if the texts fit the
-- load's buffers: the flag is the saved one, and so is each of the three texts that is not empty; for an
-- empty one the load gives what it gave before.
pub remote_nvs_save_lem :
    (n : Nvs) (s : n.Store) (mac : Bytes) (url_cap token_cap devid_cap : ℕ) (on : Bool)
    (url_in token_in devid_in : Bytes)
    → IsKeeping n
    → length url_in < url_cap
    → length token_in < token_cap
    → length devid_in < devid_cap
    → (remote_nvs_save n s on url_in token_in devid_in).1 ≡ true
    → let before = remote_nvs_load n s mac url_cap token_cap devid_cap in
      remote_nvs_load n
        (remote_nvs_save n s on url_in token_in devid_in).0
        mac
        url_cap
        token_cap
        devid_cap
      ≡ record {
        is_enabled = on;
        url_out = or_old url_in before.url_out;
        token_out = or_old token_in before.token_out;
        devid_out = or_old devid_in before.devid_out;
      }
unfolding remote_nvs_load
remote_nvs_save_lem n s mac url_cap token_cap devid_cap on url_in token_in devid_in ok url_fits
      token_fits devid_fits done =
    let s' = (remote_nvs_save n s on url_in token_in devid_in).0 in
    let saved = remote_nvs_save-IsSaved n ok s on url_in token_in devid_in done in
    let flag : kv_get_u8 n s' enabled ≡ some (if on then 1 else 0) =
      reads_u8 n ok s' enabled ∙ saved.enabled_saved in
    let flag_on : elim (kv_get_u8 n s' enabled) [ none ↦ false | some v ↦ not (v == 0) ] ≡ on =
      ap (λ o. elim o [ none ↦ false | some v ↦ not (v == 0) ]) flag ∙ is_on on in
    let url_text : or_empty (kv_get_str n s' url url_cap)
        ≡ or_old url_in (or_empty (kv_get_str n s url url_cap)) =
      read_again n ok s s' url url_in url_cap (saved.url_saved url_cap url_fits) in
    let token_text : or_empty (kv_get_str n s' token token_cap)
        ≡ or_old token_in (or_empty (kv_get_str n s token token_cap)) =
      read_again n ok s s' token token_in token_cap (saved.token_saved token_cap token_fits) in
    let devid_text : or_empty (kv_get_str n s' dev_id devid_cap)
        ≡ or_old devid_in (or_empty (kv_get_str n s dev_id devid_cap)) =
      read_again n ok s s' dev_id devid_in devid_cap (saved.devid_saved devid_cap devid_fits) in
    let mac_or = default_devid mac devid_cap in
    let devid_all : or_default (or_empty (kv_get_str n s' dev_id devid_cap)) mac_or
        ≡ or_old devid_in (or_default (or_empty (kv_get_str n s dev_id devid_cap)) mac_or) =
      ap (λ x. or_default x mac_or) devid_text ∙ or_default-or_old devid_in _ mac_or in
    λ i. record {
      is_enabled = flag_on i;
      url_out = url_text i;
      token_out = token_text i;
      devid_out = devid_all i;
    }
