-- ===== src/Examples/WsBridge.antt =====
-- Runs of main/ws_bridge.cpp.
use text.Mathlib.Text.{◌==◌ as str_eq}
use zhac_net_core.Base.{
  ℕ, ◌+◌, ◌<◌, ◌≤◌, ◌≡◌, refl, true, false, List, [], ◌∷◌, none, some, length, take, replicate,
  codes, arith,
}
use zhac_net_core.Auth.{Bytes, Auth, Turn, empty_bucket}
use zhac_net_core.WsBridge.{int_id, json_escape, escape_from, escape_byte}
use zhac_net_core.WsBridge.Escape.{escaped, kept, read_string, json_escape-read}
use zhac_net_core.WsBridge.Dispatch.{api_ok, Envelope, World, WsCmd, System, dispatch_envelope}
use zhac_net_core.WsBridge.Gate.{IsOneReply, dispatch_envelope-IsOneReply}
use zhac_net_core.WsBridge.Queue.Fifo.{Step, offer, serve, IsFifo, run, run-IsFifo}

abbrev quote_id : Bytes
quote_id = codes "a\"b\n"

json_escape-read_example :
    (length (json_escape quote_id 64) < 64)
    × ((k : ℕ) × (k ≤ 4)
        × (read_string false (json_escape quote_id 64) ≡ some (kept (take k quote_id)))
        × (length (escaped quote_id) + 2 < 64 → json_escape quote_id 64 ≡ escaped quote_id))
json_escape-read_example = json_escape-read quote_id 64 (omega arith)

escaped_runs : json_escape quote_id 64 ≡ codes "a\\\"b\\n"
unfolding json_escape escape_from escape_byte
escaped_runs = refl

abbrev turn : Turn
turn = record { now = 5; made = true; taken = true }

abbrev world : World
world = record { erase_error = none; alloc_ok = true; look = turn; note = turn; err_of = λ t. none }

abbrev auth : Auth
auth = record {
  auth_enabled = true;
  storage_error = false;
  pw_set = true;
  api_token = replicate 32 b'a';
  pw_salt = [];
  pw_hash = [];
  buckets = replicate 8 empty_bucket;
}

-- Descriptor 7 is registered and has not signed in. The state that handlers change is a counter.
abbrev system : System ℕ
system = record {
  auth = auth;
  clients = record {
    fds = 7 ∷ 0 ∷ 0 ∷ [];
    authed = false ∷ false ∷ false ∷ [];
    count = 1;
    api_token = replicate 32 b'a';
  };
  app = 0;
}

abbrev rows : List (WsCmd ℕ)
rows =
    record {
      name = "status.get";
      fn = λ s args size. (record s { app = s.app + 1 }, api_ok, codes "{}");
    }
    ∷ []

abbrev envelope : Envelope
envelope = record {
  has_id = true;
  id = int_id (codes "5");
  cmd = "status.get";
  token = b'x' ∷ [];
  args = none;
}

other_cmd : str_eq envelope.cmd "system.storage_reset" ≡ false
other_cmd = refl

dispatch_envelope-IsOneReply_example :
    IsOneReply 7 (int_id (codes "5")) (dispatch_envelope ℕ rows world system 7 envelope).1
dispatch_envelope-IsOneReply_example =
    dispatch_envelope-IsOneReply ℕ rows world system 7 envelope (omega arith) other_cmd

abbrev steps : List Step
steps = offer (b'a' ∷ []) ∷ offer (b'b' ∷ []) ∷ serve ∷ offer (b'c' ∷ []) ∷ []

run-IsFifo_example : IsFifo [] 0 steps (run (record { queue = some []; drops = 0 }) steps)
run-IsFifo_example = run-IsFifo steps [] 0 (omega arith) (omega arith)
