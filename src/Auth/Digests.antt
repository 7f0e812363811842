-- ===== src/Auth/Digests.antt =====
-- Which passwords main/main.cpp accepts.
use zhac_net_core.Base.{
  ℕ, zero, suc, ◌≤◌, ◌<◌, ◌≡◌, refl, sym, ap, ◌∙◌, ◌↔◌, inl, inr, true, false, ◌||◌, not, ◌++◌,
  Option, none, some, arith, ltb, ◌==◌, if◌then◌else◌, if_either, guarded, Bool-cases, length,
  agree_everywhere,
}
use zhac_net_core.WsServer.Handshake.{diff_from}
use zhac_net_core.WsServer.Handshake.Sessions.{diff_zero, diff_self}
use zhac_net_core.Auth.{Bytes, Turn, Auth, failed, auth_is_locked}
use zhac_net_core.Auth.Password.{Digest, kdf_loop, pw_kdf, compared, tested, auth_password_check}

-- The buffer of a digest has 32 bytes.
abbrev pub HasDigests : (Bytes → Digest) → Type 0
HasDigests psa_hash = (text : Bytes) → length (psa_hash text).out ≡ 32

module _ (psa_hash : Bytes → Digest) where
  -- The digest of a password is the one that is stored.
  abbrev pub Matches : Auth → Option Bytes → Type 0
  Matches a none = ⊥
  Matches a (some pw) =
      (a.pw_set ≡ true)
      × (0 < length pw)
      × (length pw ≤ 63)
      × (pw_kdf psa_hash pw a.pw_salt ≡ some a.pw_hash)

module _ (psa_hash : Bytes → Digest) (sized : HasDigests psa_hash) where
  length-kdf_loop :
      (n : ℕ) (salt pw : Bytes) (d : Digest)
      → length d.out ≡ 32
      → length (kdf_loop psa_hash n salt pw d).out ≡ 32
  unfolding kdf_loop
  length-kdf_loop zero salt pw d e = e
  length-kdf_loop (suc n) salt pw d e = elim (Bool-cases d.success) [
    | inl h ↦ rw h (length-kdf_loop n salt pw (psa_hash (d.out ++ (salt ++ pw))) (sized _))
    | inr h ↦ rw h e
  ]

  pub length-pw_kdf : (pw salt h : Bytes) → pw_kdf psa_hash pw salt ≡ some h → length h ≡ 32
  unfolding pw_kdf
  length-pw_kdf pw salt h e =
      let d = kdf_loop psa_hash 8191 salt pw (psa_hash (salt ++ pw)) in
      let size : length d.out ≡ 32 =
        length-kdf_loop 8191 salt pw (psa_hash (salt ++ pw)) (sized _) in
      if_either (λ o. o ≡ some h → length h ≡ 32) (not d.success || not (d.olen == 32)) none
        (some d.out) (λ bad k. cc)
        (λ good k. let same : d.out ≡ h = cc in ap length (sym same) ∙ size) e

  compared_lem :
      (a : Auth) (note : Turn) (ip : ℕ) (o : Option Bytes)
      → length a.pw_hash ≡ 32
      → ((h : Bytes) → o ≡ some h → length h ≡ 32)
      → ((compared psa_hash a note ip o).1 ≡ true) ↔ (o ≡ some a.pw_hash)
  unfolding compared
  compared_lem a note ip none full size = ((λ h. cc), (λ h. cc))
  compared_lem a note ip (some h) full size =
      elim (Bool-cases (diff_from 32 0 h a.pw_hash 0 == 0)) [
        | inl e ↦ rw e (
          (λ k. ap some (
              agree_everywhere h a.pw_hash 32 0 (size h refl) full (λ j l.
                (diff_zero 32 0 h a.pw_hash 0 (ground (arith, e))).1 j (omega arith)
                  (omega arith)))),
          (λ k. refl),
        )
        | inr e ↦ rw e (
          (λ k. cc),
          (λ k.
              let same : h ≡ a.pw_hash = cc in
              let zero_diff : diff_from 32 0 h a.pw_hash 0 ≡ 0 =
                ap (λ z. diff_from 32 0 z a.pw_hash 0) same ∙ diff_self 32 0 a.pw_hash in
              absurd (ground (arith, e, zero_diff))),
        )
      ]

  tested_lem :
      (a : Auth) (note : Turn) (ip : ℕ) (pw : Option Bytes)
      → length a.pw_hash ≡ 32
      → ((tested psa_hash a note ip pw).1 ≡ true) ↔ Matches psa_hash a pw
  unfolding tested
  tested_lem a note ip none full = ((λ h. cc), (λ h. absurd h))
  tested_lem a note ip (some pw) full =
      let last = compared psa_hash a note ip (pw_kdf psa_hash pw a.pw_salt) in
      let bad = ltb (length pw) 1 || ltb 63 (length pw) in
      let outer =
        guarded (not a.pw_set) (failed a note ip) (if bad then failed a note ip else last) refl in
      let inner = guarded bad (failed a note ip) last refl in
      let digest =
        compared_lem a note ip (pw_kdf psa_hash pw a.pw_salt) full
          (λ h. length-pw_kdf pw a.pw_salt h) in
      (
        (λ h.
            let (set_up, h') = outer.0 h in
            let (sizes, h'') = inner.0 h' in
            (ground (arith, set_up), ground (arith, sizes), ground (arith, sizes), digest.0 h'')),
        (λ (set_up, some_byte, short, same).
            outer.1 (ap not set_up, inner.1 (ground (arith, some_byte, short), digest.1 same))),
      )

  -- A password is accepted exactly if its peer is not locked out, a password is set, and this one has 1 to
  -- 63 bytes and, with the stored salt, the stored digest. Both digests have 32 bytes.
  pub auth_password_check_lem :
      (a : Auth) (look note : Turn) (ip : ℕ) (pw : Option Bytes)
      → length a.pw_hash ≡ 32
      → ((auth_password_check psa_hash a look note ip pw).1 ≡ true)
        ↔ ((auth_is_locked look ip a.buckets ≡ false) × Matches psa_hash a pw)
  unfolding auth_password_check
  auth_password_check_lem a look note ip pw full =
      let outer =
        guarded (auth_is_locked look ip a.buckets) (a, false) (tested psa_hash a note ip pw) refl in
      let inner = tested_lem a note ip pw full in
      (
        (λ h. let (free, h') = outer.0 h in (free, inner.0 h')),
        (λ (free, m). outer.1 (free, inner.1 m)),
      )
