-- ===== src/Auth/Tokens.antt =====
-- Which key main/main.cpp accepts, and what a new token and the start of the unit leave behind.
use mathlib.Core.Path.{subst}
use zhac_net_core.Base.{
  ℕ, ◌/◌, ◌%◌, ◌*◌, ◌≤◌, ◌<◌, ◌≡◌, refl, sym, ap, ◌∙◌, ◌≢◌, ◌⊎◌, ◌↔◌, inl, inr, Bool, true, false,
  not, [], ◌∷◌, Option, none, some, arith, ltb, ◌==◌, if◌then◌else◌, if_either, Bool-cases, length,
  take, take_le, All,
}
use zhac_net_core.Json.Writer.{hex_digit}
use zhac_net_core.WsServer.Clients.{Clients, set_api_token, fd_deauth_all}
use zhac_net_core.WsServer.Clients.Lookup.{IsValid, status}
use zhac_net_core.WsServer.Clients.Table.{mark, fd_deauth_all_lem}
use zhac_net_core.WsServer.Handshake.{shows}
use zhac_net_core.WsServer.Handshake.Sessions.{IsByte, shows_iff}
use zhac_net_core.Auth.{Bytes, Turn, Auth, auth_is_locked, judged, token_matches_ct, check_auth}
use zhac_net_core.Auth.Buckets.{not_both}
use zhac_net_core.Auth.Guesses.{check-locked, check-open}
use zhac_net_core.Auth.Password.{Nvs, key_token, and_then}
use zhac_net_core.Auth.Startup.{is_hex, all_hex, token_is_hex32, hex_of, auth_rotate_token}

judged-shows :
    (a : Auth) (note : Turn) (ip : ℕ) (key : Option Bytes)
    → (judged a note ip key).1 ≡ shows key a.api_token
unfolding judged
judged-shows a note ip none = refl
judged-shows a note ip (some key) = elim (Bool-cases (length key == 32)) [
  | inr e ↦ rw e refl
  | inl e ↦ elim (Bool-cases (token_matches_ct key a.api_token)) [
    | inl m ↦ rw (e, m) refl
    | inr m ↦ rw (e, m) refl
  ]
]

pub check-off :
    (a : Auth) (look note : Turn) (ip : ℕ) (key : Option Bytes)
    → a.auth_enabled ≡ false
    → check_auth a look note ip key ≡ (a, true)
unfolding check_auth
check-off a look note ip key off = rw off refl

-- A request passes exactly if sign-in is off, or its peer is not locked out and its key is the token,
-- whole, and that has 32 bytes.
pub check_auth_lem :
    (a : Auth) (look note : Turn) (ip : ℕ) (key : Option Bytes)
    → length a.api_token ≤ 32
    → ((k : Bytes) → key ≡ some k → All IsByte k)
    → ((check_auth a look note ip key).1 ≡ true) ↔ (
        (a.auth_enabled ≡ false)
        ⊎ ((auth_is_locked look ip a.buckets ≡ false)
            × (key ≡ some a.api_token)
            × (length a.api_token ≡ 32)))
check_auth_lem a look note ip key size text = elim (Bool-cases a.auth_enabled) [
  | inr off ↦ ((λ h. inl off), (λ h. ap (λ z. z.1) (check-off a look note ip key off)))
  | inl on ↦ elim (Bool-cases (auth_is_locked look ip a.buckets)) [
    | inl locked ↦
        let same = ap (λ z. z.1) (check-locked a look note ip key on locked) in
        (
          (λ h. absurd (not_both _ h same)),
          (λ h. elim h [
            | inl e ↦ absurd (not_both _ on e)
            | inr e ↦ absurd (not_both _ locked e.0)
          ]),
        )
    | inr free ↦
        let same : (check_auth a look note ip key).1 ≡ shows key a.api_token =
          ap (λ z. z.1) (check-open a look note ip key on free) ∙ judged-shows a note ip key in
        let iff = shows_iff key a.api_token text size in
        (
          (λ h. let (mine, full) = iff.0 (sym same ∙ h) in inr (free, mine, full)),
          (λ h. elim h [ inl e ↦ absurd (not_both _ on e) | inr e ↦ same ∙ iff.1 (e.1, e.2) ]),
        )
  ]
]

hex_digit-is_hex : (d : ℕ) → d < 16 → is_hex (hex_digit d) ≡ true
hex_digit-is_hex d h = ground arith

hex_of-all_hex : (bs : Bytes) → all_hex (hex_of bs) ≡ true
unfolding all_hex hex_of
hex_of-all_hex [] = refl
hex_of-all_hex (b ∷ bs) =
    rw
      (
        hex_digit-is_hex (b / 16 % 16) (omega arith),
        hex_digit-is_hex (b % 16) (omega arith),
        hex_of-all_hex bs,
      )
      refl

pub length-hex_of : (bs : Bytes) → length (hex_of bs) ≡ 2 * length bs
unfolding hex_of
length-hex_of [] = refl
length-hex_of (b ∷ bs) = omega (arith, length-hex_of bs)

-- 16 random bytes make a token.
pub hex_of-token : (rnd : Bytes) → length rnd ≡ 16 → token_is_hex32 (some (hex_of rnd)) ≡ true
unfolding token_is_hex32
hex_of-token rnd e =
    let size : length (hex_of rnd) ≡ 32 = omega (arith, length-hex_of rnd, e) in
    rw (hex_of-all_hex rnd, size) refl

mark-false : (o : Option Bool) → mark false o ≢ some true
mark-false none e = cc
mark-false (some b) e = cc

-- Either nothing has changed, or both servers ask for the new token, and nobody is signed in.
abbrev pub IsRotation : Auth → Clients → Auth × Clients → Option Bytes → Type 0
IsRotation a c (a', c') out =
    ((out ≡ none) × (a' ≡ a) × (c' ≡ c))
    ⊎ ((fresh : Bytes) × (out ≡ some fresh)
        × (token_is_hex32 (some fresh) ≡ true)
        × (a' ≡ record a { api_token = fresh })
        × (a.auth_enabled ≡ true → (c'.api_token ≡ fresh) × ((g : ℕ) → status c' g ≢ some true)))

deauthed :
    (c : Clients) (fresh : Bytes)
    → IsValid c
    → length fresh ≡ 32
    → ((fd_deauth_all (set_api_token c (some fresh))).api_token ≡ fresh)
      × ((g : ℕ) → status (fd_deauth_all (set_api_token c (some fresh))) g ≢ some true)
unfolding fd_deauth_all set_api_token
deauthed c fresh v e =
    let c1 = record c { api_token = take 32 fresh } in
    let v1 : IsValid c1 = record {
      fds_size = v.fds_size;
      authed_size = v.authed_size;
      bounded = v.bounded;
      distinct = v.distinct;
    } in
    (
      take_le 32 fresh (omega (arith, e)),
      λ g h. mark-false (status c1 g) (sym ((fd_deauth_all_lem c1 v1).1 g) ∙ h),
    )

module _ (n : Nvs) (a : Auth) (c : Clients) (s : n.Store) (rnd : Bytes) where
  abbrev written : n.Store × Bool
  written = and_then (n.set_str s key_token (hex_of rnd)) n.commit

  abbrev Rotates : Auth × Clients × n.Store × Option Bytes → Type 0
  Rotates (a', c', s', out) = IsRotation a c (a', c') out

  changed :
      IsValid c
      → length rnd ≡ 16
      → Rotates (
        record a { api_token = hex_of rnd },
        if a.auth_enabled then fd_deauth_all (set_api_token c (some (hex_of rnd))) else c,
        written.0,
        some (hex_of rnd),
      )
  changed v size = inr (
    hex_of rnd,
    refl,
    hex_of-token rnd size,
    refl,
    λ on.
        subst
          (λ z.
            let c' = if z then fd_deauth_all (set_api_token c (some (hex_of rnd))) else c in
            (c'.api_token ≡ hex_of rnd) × ((g : ℕ) → status c' g ≢ some true))
          (sym on) (deauthed c (hex_of rnd) v (omega (arith, length-hex_of rnd, size))),
  )

  -- A rotation that answers true makes a token of 32 hexadecimal digits that is asked for from then on,
  -- by the WebSocket server too if sign-in is on, and with sign-in on it leaves no WebSocket client
  -- signed in; one that answers false changes neither the statics nor the WebSocket server's table.
  pub auth_rotate_token_lem :
      (cap : ℕ)
      → IsValid c
      → length rnd ≡ 16
      → let (a', c', s', out) = auth_rotate_token n a c s cap rnd in IsRotation a c (a', c') out
  unfolding auth_rotate_token
  auth_rotate_token_lem cap v size =
      if_either Rotates (ltb cap 33) _ _ (λ h. inl (refl, refl, refl))
        (λ h.
          if_either Rotates (not (n.can_open s)) _ _ (λ h. inl (refl, refl, refl))
            (λ h.
              if_either Rotates (not written.1) _ _ (λ h. inl (refl, refl, refl))
                (λ h. changed v size)))
