-- ===== src/Auth.antt =====
-- main/main.cpp: the API token and who may use it. The failures of each peer, the test of a token, and
-- the state that both share. A text is its bytes without the NUL; `now` is the clock of a call, in
-- milliseconds and 32 bits.
pub mod Buckets
pub mod Lockout
pub mod Noted
pub mod Guesses
pub mod Password
pub mod Startup
pub mod Login
pub mod Change
pub mod Tokens
pub mod Started
pub mod Digests
pub mod Remembered
pub mod Claims
pub mod Takeover
pub mod Same
pub mod Replaced
use zhac_net_core.Base.{
  ℕ, zero, suc, ◌+◌, ◌-◌, ◌%◌, ◌^◌, Bool, true, false, ◌&&◌, not, List, [], ◌∷◌, Option, none, some,
  ltb, leb, ◌==◌, if◌then◌else◌, length, get_or, set, replicate, find_index,
}
use zhac_net_core.WsServer.Handshake.{diff_from}

abbrev pub Bytes : Type 0
Bytes = List ℕ

pub record AuthFailBucket : Type 0 where
  pub ip : ℕ
  pub ts : List ℕ
  pub head : ℕ
  pub last_use_ms : ℕ

abbrev pub Buckets : Type 0
Buckets = List AuthFailBucket

abbrev pub auth_fail_limit : ℕ
auth_fail_limit = 5

abbrev pub auth_fail_window_ms : ℕ
auth_fail_window_ms = 60000

abbrev pub auth_ip_buckets : ℕ
auth_ip_buckets = 8

abbrev pub empty_bucket : AuthFailBucket
empty_bucket = record { ip = 0; ts = replicate auth_fail_limit 0; head = 0; last_use_ms = 0 }

abbrev pub is_of : ℕ → AuthFailBucket → Bool
is_of ip b = not (b.last_use_ms == 0) && b.ip == ip

-- The index of the bucket that is returned, `none` for a null pointer.
abbrev pub auth_bucket_find : Buckets → ℕ → Option ℕ
auth_bucket_find bs ip = find_index (is_of ip) auth_ip_buckets bs

-- The loop for the bucket that was used first: its index and its stamp, and the index of the round.
unfoldable pub lru_from : (lru stamp i : ℕ) → Buckets → ℕ
lru_from lru stamp i [] = lru
lru_from lru stamp i (e ∷ es) =
    let older = ltb e.last_use_ms stamp in
    lru_from (if older then i else lru) (if older then e.last_use_ms else stamp) (suc i) es

abbrev pub lru_of : Buckets → ℕ
lru_of bs = lru_from 0 (get_or bs 0 empty_bucket).last_use_ms 0 bs

unfoldable pub auth_bucket_get : Buckets → (ip now : ℕ) → Buckets × ℕ
unfolding lru_from
auth_bucket_get bs ip now = elim (auth_bucket_find bs ip) [
  | some i ↦ (set bs i (record (get_or bs i empty_bucket) { last_use_ms = now }), i)
  | none ↦ (set bs (lru_of bs) (record empty_bucket { ip = ip; last_use_ms = now }), lru_of bs)
]

-- The clock of a call, whether the mutex was made, and whether it was taken in 50 ms.
pub record Turn : Type 0 where
  pub now : ℕ
  pub made : Bool
  pub taken : Bool

-- What is written into the bucket.
unfoldable pub noted : ℕ → AuthFailBucket → AuthFailBucket
noted now b = record b { ts = set b.ts b.head now; head = (b.head + 1) % auth_fail_limit }

unfoldable pub auth_record_failure : Turn → (ip : ℕ) → Buckets → Buckets
unfolding auth_bucket_get noted
auth_record_failure t ip bs =
    let (bs', i) = auth_bucket_get bs ip t.now in
    if not t.made
    then bs
    else if not t.taken
    then bs
    else set bs' i (noted t.now (get_or bs' i empty_bucket))

-- `now - t < AUTH_FAIL_WINDOW_MS` on 32 bits.
abbrev pub is_recent : ℕ → ℕ → Bool
is_recent now t = not (t == 0) && ltb ((now + 2 ^ 32 - t) % 2 ^ 32) auth_fail_window_ms

unfoldable pub count_recent : ℕ → List ℕ → ℕ
count_recent now [] = 0
count_recent now (t ∷ ts) = (if is_recent now t then 1 else 0) + count_recent now ts

abbrev pub recent_of : ℕ → Buckets → Option ℕ → ℕ
recent_of now bs none = 0
recent_of now bs (some i) = count_recent now (get_or bs i empty_bucket).ts

unfoldable pub auth_is_locked : Turn → (ip : ℕ) → Buckets → Bool
unfolding count_recent
auth_is_locked t ip bs =
    if not t.made
    then false
    else if not t.taken
    then false
    else leb auth_fail_limit (recent_of t.now bs (auth_bucket_find bs ip))

-- The statics.
pub record Auth : Type 0 where
  pub auth_enabled : Bool
  pub storage_error : Bool
  pub pw_set : Bool
  pub api_token : Bytes
  pub pw_salt : Bytes
  pub pw_hash : Bytes
  pub buckets : Buckets

-- `auth_record_failure(ip); return false;`
abbrev pub failed : Auth → Turn → ℕ → Auth × Bool
failed a t ip = (record a { buckets = auth_record_failure t ip a.buckets }, false)

abbrev pub token_matches_ct : (candidate token : Bytes) → Bool
token_matches_ct candidate token = diff_from 32 0 candidate token 0 == 0

-- The key, if there is one, against the token; `t` is the turn in which a failure is noted.
unfoldable pub judged : Auth → (t : Turn) → (ip : ℕ) → (key : Option Bytes) → Auth × Bool
unfolding diff_from auth_record_failure
judged a t ip none = failed a t ip
judged a t ip (some key) =
    if not (length key == 32)
    then failed a t ip
    else if not (token_matches_ct key a.api_token)
    then failed a t ip
    else (a, true)

-- `key` is the header X-Api-Key, if it was sent and has less than 64 bytes; `ip` is that of the peer.
unfoldable pub check_auth :
    Auth → (look note : Turn) → (ip : ℕ) → (key : Option Bytes) → Auth × Bool
unfolding judged auth_is_locked
check_auth a look note ip key =
    if not a.auth_enabled
    then (a, true)
    else if auth_is_locked look ip a.buckets
    then (a, false)
    else judged a note ip key

-- `none` is a null pointer.
unfoldable pub auth_check_token : Auth → (look note : Turn) → (token : Option Bytes) → Auth × Bool
unfolding judged auth_is_locked
auth_check_token a look note token =
    if not a.auth_enabled
    then (a, true)
    else if auth_is_locked look 0 a.buckets
    then (a, false)
    else judged a note 0 token
