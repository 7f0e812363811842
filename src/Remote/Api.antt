-- ===== src/Remote/Api.antt =====
-- main/api_remote.cpp: the requests about the cloud channel. The JSON parser is a parameter: a body is
-- what is read of its document, if it is one.
pub mod Connected
use zhac_net_core.Base.{
  ℕ, Bool, true, false, ◌&&◌, ◌||◌, not, List, [], ◌++◌, Option, none, some, if◌then◌else◌, length,
  ltb, leb, codes, decimal,
}
use zhac_net_core.Remote.State.{
  State, disabled, idle_no_wifi, connecting, authenticating, ready, backoff,
}
use zhac_net_core.Remote.Client.{Client}
use zhac_net_core.Remote.Stored.{Bytes, Nvs, remote_nvs_save}
use zhac_net_core.Remote.Life.{
  Life, Kernel, Action, is_empty, remote_client_enable, remote_client_disable,
}
use zhac_net_core.WsBridge.Dispatch.{ApiStatus, api_ok, api_bad_request, api_internal_error}
use zhac_net_core.WsBridge.Queue.{same_prefix}

-- A string that is missing is empty.
pub record Request : Type 0 where
  pub url : Bytes
  pub token : Bytes
  pub device_id : Bytes

abbrev pub state_name : State → Bytes
state_name disabled = codes "DISABLED"
state_name idle_no_wifi = codes "IDLE_NO_WIFI"
state_name connecting = codes "CONNECTING"
state_name authenticating = codes "AUTHENTICATING"
state_name ready = codes "READY"
state_name backoff = codes "BACKOFF"

abbrev pub flag_text : Bool → Bytes
flag_text true = codes "true"
flag_text false = codes "false"

-- A text that fits the buffer with its NUL is the answer.
abbrev pub if_printed : (cap : ℕ) → Bytes → ApiStatus × Option Bytes
if_printed cap text =
    if leb cap (length text) then (api_internal_error, none) else (api_ok, some text)

abbrev pub status_body : (is_enabled : Bool) → Client → (rtt_ms : ℕ) → Bytes
status_body is_enabled c rtt_ms =
    codes "{\"enabled\":"
    ++ (flag_text is_enabled
        ++ (codes ",\"state\":\""
            ++ (state_name c.state
                ++ (codes "\",\"connected_since\":"
                    ++ (decimal c.connected_since
                        ++ (codes ",\"last_event_at\":"
                            ++ (decimal c.last_event_at
                                ++ (codes ",\"rtt_ms\":"
                                    ++ (decimal rtt_ms
                                        ++ (codes ",\"tx_drops\":"
                                            ++ (decimal c.tx_drops
                                                ++ (codes ",\"auth_fails\":"
                                                    ++ (decimal c.auth_fails
                                                        ++ codes "}")))))))))))))

unfoldable pub api_remote_status :
    (cap : ℕ) → (is_enabled : Bool) → Client → (rtt_ms : ℕ) → ApiStatus × Option Bytes
api_remote_status cap is_enabled c rtt_ms = if_printed cap (status_body is_enabled c rtt_ms)

-- The tests of a request to connect.
unfoldable pub is_acceptable : Request → Bool
is_acceptable q =
    not (is_empty q.url || is_empty q.token)
    && (same_prefix (codes "wss://") q.url
        && (not (leb 128 (length q.url)) && not (leb 96 (length q.token))))

module _ (n : Nvs) where
  open n use {Store}

  pub record Outcome : Type 0 where
    pub answer : ApiStatus × Option Bytes
    pub life : Life
    pub store : Store
    pub made : List Action

  -- Behind the save.
  unfoldable pub saved : (cap : ℕ) → Kernel → Life → Store × Bool → Outcome
  unfolding remote_client_enable
  saved cap k l (s, false) = record {
    answer = (api_internal_error, none);
    life = l;
    store = s;
    made = [];
  }
  saved cap k l (s, true) =
      let (l', made) = remote_client_enable k l in
      record { answer = if_printed cap (codes "{\"ok\":true}"); life = l'; store = s; made = made }

  unfoldable pub api_remote_connect : (cap : ℕ) → Kernel → Option Request → Life → Store → Outcome
  unfolding saved remote_nvs_save is_acceptable
  api_remote_connect cap k none l s = record {
    answer = (api_bad_request, none);
    life = l;
    store = s;
    made = [];
  }
  api_remote_connect cap k (some q) l s =
      if is_acceptable q
      then saved cap k l (remote_nvs_save n s true q.url q.token q.device_id)
      else record { answer = (api_bad_request, none); life = l; store = s; made = [] }

  abbrev pub or_false : Option Bool → Bool
  or_false none = false
  or_false (some forget) = forget

  -- `forget` is none if there is no body or it is no JSON.
  unfoldable pub api_remote_disconnect : (cap : ℕ) → (forget : Option Bool) → Life → Store → Outcome
  unfolding remote_client_disable
  api_remote_disconnect cap forget l s =
      let (l', s') = remote_client_disable n (or_false forget) s l in
      record {
        answer =
            if_printed cap
              (codes "{\"ok\":true,\"forget\":" ++ (flag_text (or_false forget) ++ codes "}"));
        life = l';
        store = s';
        made = [];
      }
