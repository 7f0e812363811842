-- ===== src/Examples/Auth.antt =====
-- Runs of the sign-in of main/main.cpp and main/rest_ops.cpp.
use mathlib.Core.Path.{subst}
use zhac_net_core.Base.{
  ℕ, ◌<◌, ◌≤◌, ◌≡◌, refl, ◌⊎◌, ◌↔◌, ◌≢◌, true, false, List, [], ◌∷◌, Option, none, some, zero, suc,
  take, find_index, All, length, replicate, codes, arith,
}
use zhac_net_core.WsServer.Clients.{Clients}
use zhac_net_core.WsServer.Clients.Lookup.{IsValid}
use zhac_net_core.WsServer.Handshake.{diff_from}
use zhac_net_core.Rest.{arrived, recv_loop, rest_body_recv}
use zhac_net_core.Auth.{
  Bytes, Turn, Auth, empty_bucket, auth_is_locked, auth_record_failure, check_auth, Buckets, judged,
  auth_bucket_get, noted, lru_from, count_recent,
}
use zhac_net_core.Auth.Buckets.{IsTable, fresh-IsTable, auth_record_failure-IsTable}
use zhac_net_core.Auth.Lockout.{auth_record_failure_isolated}
use zhac_net_core.Auth.Guesses.{
  Try, Attempt, own, foreign, IsOrderly, AreOrderly, AreSpared, wrong_checks, wrong_checks_bound,
}
use zhac_net_core.Auth.Tokens.{check_auth_lem, IsRotation, auth_rotate_token_lem}
use zhac_net_core.WsServer.Handshake.Sessions.{IsByte}
use zhac_net_core.Auth.Password.{
  Digest, Key, key_enabled, key_token, key_salt, key_hash, Nvs, kdf_loop, pw_kdf, persist, stored,
  auth_password_store, auth_password_check,
}
use zhac_net_core.Auth.Startup.{Build, auth_init, auth_rotate_token}
use zhac_net_core.Auth.Started.{IsStarted, auth_init-IsStarted}
use zhac_net_core.Auth.Digests.{HasDigests}
use zhac_net_core.Auth.Login.{
  Doc, Request, error, handle_post_auth_login, handle_post_auth_setup, setup_body, setup_with,
}
use zhac_net_core.Auth.Claims.{GivesToken, MayLogIn, sent_in, status_of, handle_post_auth_login_lem}
use zhac_net_core.Auth.Takeover.{handle_post_auth_setup_once}
use zhac_net_core.Auth.Remembered.{IsKeeping, auth_password_store_remembered}

abbrev token : Bytes
token = replicate 32 b'a'

abbrev unit : Auth
unit = record {
  auth_enabled = true;
  storage_error = false;
  pw_set = true;
  api_token = token;
  pw_salt = replicate 16 1;
  pw_hash = replicate 32 7;
  buckets = replicate 8 empty_bucket;
}

abbrev turn : ℕ → Turn
turn now = record { now = now; made = true; taken = true }

abbrev guess : ℕ → Try
guess now = record { look = turn now; note = turn now; key = some (replicate 32 b'b') }

-- Another peer has one wrong key among them.
abbrev guesses : List Attempt
guesses =
    own (guess 1000)
    ∷ own (guess 2000)
    ∷ foreign 4 (guess 2500)
    ∷ own (guess 3000)
    ∷ own (guess 4000)
    ∷ own (guess 5000)
    ∷ own (guess 6000)
    ∷ own (guess 7000)
    ∷ []

guess-IsOrderly : (last now end : ℕ) → last ≤ now → now ≤ end → IsOrderly last end (guess now)
guess-IsOrderly last now end l e = record {
  look_made = refl;
  look_taken = refl;
  note_made = refl;
  note_taken = refl;
  begins = l;
  goes_on = omega arith;
  ends = e;
}

guesses-AreOrderly : AreOrderly 1000 8000 guesses
guesses-AreOrderly = (
  guess-IsOrderly 1000 1000 8000 (omega arith) (omega arith),
  (
    guess-IsOrderly 1000 2000 8000 (omega arith) (omega arith),
    (
      guess-IsOrderly 2000 3000 8000 (omega arith) (omega arith),
      (
        guess-IsOrderly 3000 4000 8000 (omega arith) (omega arith),
        (
          guess-IsOrderly 4000 5000 8000 (omega arith) (omega arith),
          (
            guess-IsOrderly 5000 6000 8000 (omega arith) (omega arith),
            (guess-IsOrderly 6000 7000 8000 (omega arith) (omega arith), tt),
          ),
        ),
      ),
    ),
  ),
)

four_nine : ◌≢◌ {A = ℕ} 4 9
four_nine e = omega (arith, e)

guesses-AreSpared : AreSpared unit 9 guesses
unfolding check_auth judged auth_is_locked auth_record_failure auth_bucket_get noted lru_from
    count_recent diff_from find_index
guesses-AreSpared = (four_nine, refl, tt)

wrong_checks_bound_example : wrong_checks unit 9 guesses ≤ 5
wrong_checks_bound_example =
    wrong_checks_bound unit 9 1000 8000 guesses fresh-IsTable refl (omega arith) (omega arith)
      (omega arith) guesses-AreOrderly guesses-AreSpared

-- Seven tries of its own, of which five are compared.
five_compared : wrong_checks unit 9 guesses ≡ 5
unfolding wrong_checks check_auth judged auth_is_locked auth_record_failure auth_bucket_get noted
    lru_from count_recent diff_from find_index
five_compared = refl

-- The table after the first failures of a peer.
failures : ℕ → Buckets
failures zero = replicate 8 empty_bucket
failures (suc n) = auth_record_failure (turn (suc n)) 4 (failures n)

failures-IsTable : (n : ℕ) → IsTable (failures n)
unfolding failures
failures-IsTable zero = fresh-IsTable
failures-IsTable (suc n) =
    auth_record_failure-IsTable (turn (suc n)) 4 (failures n) (failures-IsTable n)

apart : ◌≢◌ {A = ℕ} 4 9
apart e = omega (arith, e)

locked_after : auth_is_locked (turn 7) 4 (auth_record_failure (turn 6) 9 (failures 5)) ≡ true
unfolding failures auth_is_locked auth_record_failure auth_bucket_get noted lru_from count_recent
    find_index
locked_after = refl

auth_record_failure_isolated_example : auth_is_locked (turn 7) 4 (failures 5) ≡ true
auth_record_failure_isolated_example =
    auth_record_failure_isolated (turn 6) (turn 7) 9 4 (failures 5) (failures-IsTable 5) apart
      locked_after

-- A key of one byte.
abbrev short_key : Option Bytes
short_key = some (b'x' ∷ [])

not_zero : ◌≢◌ {A = ℕ} b'x' 0
not_zero e = omega (arith, e)

short_key-IsByte : (k : Bytes) → short_key ≡ some k → All IsByte k
short_key-IsByte k e = let same : b'x' ∷ [] ≡ k = cc in subst (All IsByte) same (not_zero, tt)

check_auth_lem_example : ((check_auth unit (turn 8) (turn 9) 3 short_key).1 ≡ true) ↔ (
    (unit.auth_enabled ≡ false)
    ⊎ ((auth_is_locked (turn 8) 3 unit.buckets ≡ false)
        × (short_key ≡ some unit.api_token)
        × (length unit.api_token ≡ 32)))
check_auth_lem_example =
    check_auth_lem unit (turn 8) (turn 9) 3 short_key (omega arith) short_key-IsByte

-- A flash with one cell for each key; every call succeeds.
pub record Cells : Type 0 where
  pub salt : Option Bytes
  pub hash : Option Bytes
  pub token_cell : Option Bytes

abbrev read_cell : Cells → Key → Option Bytes
read_cell s key_enabled = none
read_cell s key_token = s.token_cell
read_cell s key_salt = s.salt
read_cell s key_hash = s.hash

abbrev write_cell : Cells → Key → Bytes → Cells
write_cell s key_enabled v = s
write_cell s key_token v = record s { token_cell = some (take 32 v) }
write_cell s key_salt v = record s { salt = some v }
write_cell s key_hash v = record s { hash = some v }

abbrev cells : Nvs
cells = record {
  Store = Cells;
  can_open = λ s. true;
  get_u8 = λ s k. none;
  get_str = λ s k size. read_cell s k;
  get_blob = λ s k size. read_cell s k;
  set_u8 = λ s k v. (s, true);
  set_str = λ s k v. (write_cell s k v, true);
  set_blob = λ s k v. (write_cell s k v, true);
  commit = λ s. (s, true);
}

abbrev blank : Cells
blank = record { salt = none; hash = none; token_cell = none }

abbrev nobody : Clients
nobody = record {
  fds = 0 ∷ 0 ∷ 0 ∷ [];
  authed = false ∷ false ∷ false ∷ [];
  count = 0;
  api_token = token;
}

nobody-IsValid : IsValid nobody
nobody-IsValid = record {
  fds_size = refl;
  authed_size = refl;
  bounded = omega arith;
  distinct = λ i j hi hj e. absurd (omega (arith, hi));
}

auth_rotate_token_lem_example :
    IsRotation unit nobody
      (
        (auth_rotate_token cells unit nobody blank 33 (replicate 16 5)).0,
        (auth_rotate_token cells unit nobody blank 33 (replicate 16 5)).1,
      )
      (auth_rotate_token cells unit nobody blank 33 (replicate 16 5)).3
auth_rotate_token_lem_example =
    auth_rotate_token_lem cells unit nobody blank (replicate 16 5) 33 nobody-IsValid refl

-- A hash that ignores its text.
abbrev flat : Bytes → Digest
flat text = record { success = true; olen = 32; out = replicate 32 7 }

flat-HasDigests : HasDigests flat
flat-HasDigests text = refl

abbrev build : Build
build = record { auth_default_enabled = true; default_api_token = none; default_password = none }

blank_small : (t : Bytes) → cells.get_str blank key_token 33 ≡ some t → length t < 33
blank_small t e = cc

auth_init-IsStarted_example :
    IsStarted true
      (auth_init flat cells build unit nobody blank (replicate 16 5) (replicate 16 6)).0
      (auth_init flat cells build unit nobody blank (replicate 16 5) (replicate 16 6)).1
auth_init-IsStarted_example =
    auth_init-IsStarted flat cells build unit nobody blank (replicate 16 5) (replicate 16 6) refl
      blank_small

abbrev sevens : Digest
sevens = record { success = true; olen = 32; out = replicate 32 7 }

kdf_flat : (n : ℕ) (salt pw : Bytes) → kdf_loop flat n salt pw sevens ≡ sevens
unfolding kdf_loop
kdf_flat zero salt pw = refl
kdf_flat (suc n) salt pw = kdf_flat n salt pw

pw_flat : (pw salt : Bytes) → pw_kdf flat pw salt ≡ some (replicate 32 7)
unfolding pw_kdf
pw_flat pw salt = rw (kdf_flat 8191 salt pw) refl

cells-IsKeeping : IsKeeping cells
cells-IsKeeping = record {
  opens = λ s. refl;
  salt_kept = λ s v ok e. refl;
  hash_kept = λ s v ok e. refl;
  salt_apart = λ s v. refl;
  committed = λ s k size. refl;
  salt_beside = λ s v. refl;
  hash_beside = λ s v. refl;
}

abbrev pw : Bytes
pw = codes "correct horse"

abbrev salt : Bytes
salt = replicate 16 2

store_works : (auth_password_store flat cells unit blank salt (some pw)).2 ≡ true
unfolding auth_password_store stored persist
store_works = rw (pw_flat pw salt, stored) refl

-- The unit after the store and the start.
abbrev restarted : Auth
restarted =
    (auth_init flat cells build unit nobody
      (auth_password_store flat cells unit blank salt (some pw)).1 (replicate 16 5)
      (replicate 16 6)).0

auth_password_store_remembered_example :
    ((auth_password_check flat restarted (turn 8) (turn 9) 3 (some (codes "x"))).1 ≡ true) ↔ (
      (auth_is_locked (turn 8) 3 unit.buckets ≡ false)
      × (0 < 1)
      × (1 ≤ 63)
      × (pw_kdf flat (codes "x") salt ≡ pw_kdf flat pw salt))
auth_password_store_remembered_example =
    auth_password_store_remembered flat cells cells-IsKeeping flat-HasDigests unit unit nobody blank
      build salt pw (replicate 16 5) (replicate 16 6) (turn 8) (turn 9) 3 (codes "x") refl refl refl
      store_works

-- A body is its password, and all three strings are that.
abbrev parse : Bytes → Option Doc
parse bytes = some (record { password = some bytes; new = some bytes; current = some bytes })

abbrev request : Request
request = record {
  ip = 3;
  api_key = some token;
  content_len = 13;
  answers = arrived pw ∷ [];
  look = turn 8;
  note = turn 9;
  look_again = turn 10;
  note_again = turn 11;
}

handle_post_auth_login_lem_example :
    GivesToken flat parse unit (handle_post_auth_login flat parse unit request)
    ↔ MayLogIn flat parse unit request
        (sent_in flat parse (rest_body_recv 13 192 (arrived pw ∷ [])))
handle_post_auth_login_lem_example =
    handle_post_auth_login_lem flat parse flat-HasDigests unit request refl

abbrev new_unit : Auth
new_unit = record unit { pw_set = false }

set_up_works :
    status_of (handle_post_auth_setup flat parse cells 60 new_unit blank salt request).2 ≡ 200
unfolding handle_post_auth_setup setup_body setup_with rest_body_recv recv_loop auth_password_store
    stored persist
set_up_works = rw (pw_flat pw salt, stored) refl

abbrev claimed : Auth
claimed = (handle_post_auth_setup flat parse cells 60 new_unit blank salt request).0

handle_post_auth_setup_once_example :
    (new_unit.pw_set ≡ false)
    × (◌≢◌ {A = ℕ} 60 0)
    × ((secs : ℕ) (t : Cells) (salt' : Bytes) (r : Request)
        → handle_post_auth_setup flat parse cells secs claimed t salt' r
          ≡ (claimed, t, error 403 (codes "already_set")))
handle_post_auth_setup_once_example =
    handle_post_auth_setup_once flat parse cells 60 new_unit blank salt request set_up_works
