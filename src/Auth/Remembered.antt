-- ===== src/Auth/Remembered.antt =====
-- A password of main/main.cpp that was stored, after the next start.
use mathlib.Core.List.{append-nil}
use zhac_net_core.Base.{
  ℕ, zero, suc, ◌++◌, drop, ◌≤◌, ◌<◌, ◌≡◌, refl, sym, ap, ◌∙◌, ◌↔◌, inl, inr, Bool, true, false,
  ◌||◌, not, [], ◌∷◌, Option, none, some, arith, ltb, if_either, Bool-cases, length,
}
use zhac_net_core.WsServer.Clients.{Clients}
use zhac_net_core.Auth.{Bytes, Turn, Auth, auth_is_locked}
use zhac_net_core.Auth.Buckets.{not_both}
use zhac_net_core.Auth.Password.{
  Digest, Key, key_token, key_enabled, key_salt, key_hash, Nvs, and_then, pw_kdf, persist, stored,
  auth_password_store, auth_password_check,
}
use zhac_net_core.Auth.Startup.{
  Build, seed_of, load_token, load_password, loaded_flag, seed_password, auth_init,
}
use zhac_net_core.Auth.Digests.{HasDigests, length-pw_kdf, auth_password_check_lem}

-- A flash that opens, and from which a blob is read as it was written last.
pub record IsKeeping (n : Nvs) : Type 0 where
  pub opens : (s : n.Store) → n.can_open s ≡ true
  pub salt_kept :
      (s : n.Store) (v : Bytes)
      → (n.set_blob s key_salt v).1 ≡ true
      → length v ≡ 16
      → n.get_blob (n.set_blob s key_salt v).0 key_salt 16 ≡ some v
  pub hash_kept :
      (s : n.Store) (v : Bytes)
      → (n.set_blob s key_hash v).1 ≡ true
      → length v ≡ 32
      → n.get_blob (n.set_blob s key_hash v).0 key_hash 32 ≡ some v
  pub salt_apart :
      (s : n.Store) (v : Bytes)
      → n.get_blob (n.set_blob s key_hash v).0 key_salt 16 ≡ n.get_blob s key_salt 16
  pub committed :
      (s : n.Store) (k : Key) (cap : ℕ) → n.get_blob (n.commit s).0 k cap ≡ n.get_blob s k cap
  pub salt_beside :
      (s : n.Store) (v : Bytes)
      → n.get_blob (n.set_str s key_token v).0 key_salt 16 ≡ n.get_blob s key_salt 16
  pub hash_beside :
      (s : n.Store) (v : Bytes)
      → n.get_blob (n.set_str s key_token v).0 key_hash 32 ≡ n.get_blob s key_hash 32

module _ (psa_hash : Bytes → Digest) (n : Nvs) (keeps : IsKeeping n) where
  and_then-true :
      (r : n.Store × Bool) (call : n.Store → n.Store × Bool)
      → (and_then r call).1 ≡ true
      → (r.1 ≡ true) × ((call r.0).1 ≡ true) × ((and_then r call).0 ≡ (call r.0).0)
  and_then-true (s, true) call h = (refl, h, refl)
  and_then-true (s, false) call h = cc

  -- Both blobs are there.
  abbrev Holds : n.Store → (salt hash : Bytes) → Type 0
  Holds s salt hash =
      (n.get_blob s key_salt 16 ≡ some salt) × (n.get_blob s key_hash 32 ≡ some hash)

  persist-Holds :
      (s : n.Store) (salt hash : Bytes)
      → length salt ≡ 16
      → length hash ≡ 32
      → (persist psa_hash n s salt hash).1 ≡ true
      → Holds (persist psa_hash n s salt hash).0 salt hash
  unfolding persist
  persist-Holds s salt hash es eh ok =
      let s1 = n.set_blob s key_salt salt in
      let s2 = n.set_blob s1.0 key_hash hash in
      let (ok12, ok3, same3) =
        and_then-true (and_then s1 (λ t. n.set_blob t key_hash hash)) n.commit ok in
      let (ok1, ok2, same2) = and_then-true s1 (λ t. n.set_blob t key_hash hash) ok12 in
      let same : (persist psa_hash n s salt hash).0 ≡ (n.commit s2.0).0 =
        same3 ∙ ap (λ t. (n.commit t).0) same2 in
      rw same (
        keeps.committed s2.0 key_salt 16
            ∙ keeps.salt_apart s1.0 hash
            ∙ keeps.salt_kept s salt ok1 es,
        keeps.committed s2.0 key_hash 32 ∙ keeps.hash_kept s1.0 hash ok2 eh,
      )

  -- The start reads the two blobs, whatever token it makes.
  load_token-Holds :
      (s : n.Store) (seed rnd : Bytes) (o : Option Bytes) (salt hash : Bytes)
      → Holds s salt hash
      → Holds (load_token n s seed rnd o).1 salt hash
  unfolding load_token
  load_token-Holds s seed rnd none salt hash (a, b) = (
    keeps.committed _ key_salt 16 ∙ keeps.salt_beside s _ ∙ a,
    keeps.committed _ key_hash 32 ∙ keeps.hash_beside s _ ∙ b,
  )
  load_token-Holds s seed rnd (some []) salt hash (a, b) = (
    keeps.committed _ key_salt 16 ∙ keeps.salt_beside s _ ∙ a,
    keeps.committed _ key_hash 32 ∙ keeps.hash_beside s _ ∙ b,
  )
  load_token-Holds s seed rnd (some (c ∷ cs)) salt hash h = h

  none_left : (k : ℕ) (xs : Bytes) → length xs ≡ k → drop k xs ≡ []
  none_left zero [] e = refl
  none_left zero (x ∷ xs) e = absurd (omega arith)
  none_left (suc k) [] e = refl
  none_left (suc k) (x ∷ xs) e = none_left k xs (omega arith)

  -- What the statics hold then.
  record IsLoaded (salt hash : Bytes) (a a' : Auth) : Type 0 where
    pub set_up : a'.pw_set ≡ true
    pub salt_read : a'.pw_salt ≡ salt
    pub hash_read : a'.pw_hash ≡ hash
    pub same_buckets : a'.buckets ≡ a.buckets

  load_password-IsLoaded :
      (s : n.Store) (a : Auth) (salt hash : Bytes)
      → length a.pw_salt ≡ 16
      → length a.pw_hash ≡ 32
      → length salt ≡ 16
      → length hash ≡ 32
      → Holds s salt hash
      → IsLoaded salt hash a (load_password n s a)
  unfolding load_password
  load_password-IsLoaded s a salt hash os oh es eh (p, q) =
      rw (p, q, es, eh, load_password)
        (record {
          set_up = refl;
          salt_read = ap (λ z. salt ++ z) (none_left 16 a.pw_salt os) ∙ append-nil salt;
          hash_read = ap (λ z. hash ++ z) (none_left 32 a.pw_hash oh) ∙ append-nil hash;
          same_buckets = refl;
        })

  stored-Holds :
      (a : Auth) (s : n.Store) (salt : Bytes) (o : Option Bytes)
      → length salt ≡ 16
      → ((h : Bytes) → o ≡ some h → length h ≡ 32)
      → (stored psa_hash n a s salt o).2 ≡ true
      → (h : Bytes) × (o ≡ some h) × Holds (stored psa_hash n a s salt o).1 salt h
  unfolding stored
  stored-Holds a s salt none es size ok = cc
  stored-Holds a s salt (some h) es size ok = elim (Bool-cases (persist psa_hash n s salt h).1) [
    | inl fine ↦ (h, refl, rw (keeps.opens s, fine) (persist-Holds s salt h es (size h refl) fine))
    | inr bad ↦ absurd (not_both _ ok (rw (keeps.opens s, bad) refl))
  ]

  store-Holds :
      HasDigests psa_hash
      → (a : Auth) (s : n.Store) (salt pw : Bytes) → length salt ≡ 16
      → (auth_password_store psa_hash n a s salt (some pw)).2 ≡ true
      → (h : Bytes) × (pw_kdf psa_hash pw salt ≡ some h)
        × Holds (auth_password_store psa_hash n a s salt (some pw)).1 salt h
  unfolding auth_password_store
  store-Holds sized a s salt pw es ok =
      elim (Bool-cases (ltb (length pw) 8 || ltb 63 (length pw))) [
        | inl bad ↦ absurd (not_both _ ok (rw bad refl))
        | inr good ↦
            let same : auth_password_store psa_hash n a s salt (some pw)
                ≡ stored psa_hash n a s salt (pw_kdf psa_hash pw salt) =
              rw good refl in
            rw same (
              stored-Holds a s salt (pw_kdf psa_hash pw salt) es
                (λ h. length-pw_kdf psa_hash sized pw salt h) (ap (λ r. r.2) (sym same) ∙ ok))
      ]

  seed_password-same :
      (a : Auth) (s : n.Store) (salt : Bytes) (o : Option Bytes)
      → a.pw_set ≡ true
      → (seed_password psa_hash n a s salt o).0 ≡ a
  unfolding seed_password
  seed_password-same a s salt none h = refl
  seed_password-same a s salt (some []) h = refl
  seed_password-same a s salt (some (c ∷ cs)) h =
      if_either {A = Auth × n.Store} (λ r. r.0 ≡ a) a.pw_set _ _ (λ e. refl)
        (λ e. absurd (not_both _ h e))

  started-IsLoaded :
      (build : Build) (b : Auth) (c : Clients) (s : n.Store) (rnd salt2 salt hash : Bytes)
      → length b.pw_salt ≡ 16
      → length b.pw_hash ≡ 32
      → length salt ≡ 16
      → length hash ≡ 32
      → Holds s salt hash
      → IsLoaded salt hash b (auth_init psa_hash n build b c s rnd salt2).0
  unfolding auth_init
  started-IsLoaded build b c s rnd salt2 salt hash os oh es eh there =
      let (token, s1) =
        load_token n s (seed_of build.default_api_token) rnd (n.get_str s key_token 33) in
      let first = record b {
        auth_enabled = loaded_flag (n.get_u8 s key_enabled) build.auth_default_enabled;
        api_token = token;
      } in
      let read = load_password n s1 first in
      let loaded : IsLoaded salt hash first read =
        load_password-IsLoaded s1 first salt hash os oh es eh (
          load_token-Holds s (seed_of build.default_api_token) rnd (n.get_str s key_token 33) salt
            hash there) in
      let same : (seed_password psa_hash n read s1 salt2 build.default_password).0 ≡ read =
        seed_password-same read s1 salt2 build.default_password loaded.set_up in
      if_either {A = Auth × Clients × n.Store} (λ r. IsLoaded salt hash b r.0) (not (n.can_open s))
        _ _ (λ h. absurd (ground (arith, h, keeps.opens s)))
        (λ h. rw same (record {
          set_up = loaded.set_up;
          salt_read = loaded.salt_read;
          hash_read = loaded.hash_read;
          same_buckets = loaded.same_buckets;
        }))

  -- On a flash that keeps what is written, a password that was stored with the answer true is the one
  -- that is accepted after the next start: a password is, exactly if its peer is not locked out and it
  -- has 1 to 63 bytes and the same digest with that salt.
  pub auth_password_store_remembered :
      HasDigests psa_hash
      → (a b : Auth) (c : Clients) (s : n.Store) (build : Build) (salt pw rnd salt2 : Bytes)
        (look note : Turn) (ip : ℕ) (other : Bytes)
      → length b.pw_salt ≡ 16
      → length b.pw_hash ≡ 32
      → length salt ≡ 16
      → let (a', s', ok) = auth_password_store psa_hash n a s salt (some pw) in
        let b' = (auth_init psa_hash n build b c s' rnd salt2).0 in
        ok ≡ true
        → ((auth_password_check psa_hash b' look note ip (some other)).1 ≡ true) ↔ (
            (auth_is_locked look ip b.buckets ≡ false)
            × (0 < length other)
            × (length other ≤ 63)
            × (pw_kdf psa_hash other salt ≡ pw_kdf psa_hash pw salt))
  auth_password_store_remembered sized a b c s build salt pw rnd salt2 look note ip other os oh es
        ok =
      let (h, digest, there) = store-Holds sized a s salt pw es ok in
      let size : length h ≡ 32 = length-pw_kdf psa_hash sized pw salt h digest in
      let s' = (auth_password_store psa_hash n a s salt (some pw)).1 in
      let b' = (auth_init psa_hash n build b c s' rnd salt2).0 in
      let l : IsLoaded salt h b b' =
        started-IsLoaded build b c s' rnd salt2 salt h os oh es size there in
      let iff =
        auth_password_check_lem psa_hash sized b' look note ip (some other)
          (ap length l.hash_read ∙ size) in
      let same_lock : auth_is_locked look ip b'.buckets ≡ auth_is_locked look ip b.buckets =
        ap (auth_is_locked look ip) l.same_buckets in
      let same_kdf : pw_kdf psa_hash other b'.pw_salt ≡ pw_kdf psa_hash other salt =
        ap (pw_kdf psa_hash other) l.salt_read in
      (
        (λ e.
            let (free, m) = iff.0 e in
            (
              sym same_lock ∙ free,
              m.1,
              m.2,
              sym same_kdf ∙ m.3 ∙ ap some l.hash_read ∙ sym digest,
            )),
        (λ (free, some_byte, short, same). iff.1 (
          same_lock ∙ free,
          (l.set_up, some_byte, short, same_kdf ∙ same ∙ digest ∙ ap some (sym l.hash_read)),
        )),
      )
