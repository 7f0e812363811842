-- ===== src/Examples/Cloud.antt =====
-- Runs of components/remote_client/remote_client.cpp.
use zhac_net_core.Base.{
  ℕ, ◌≡◌, ◌≢◌, refl, ◌⊎◌, true, false, List, [], ◌∷◌, none, some, All, codes, arith,
}
use zhac_net_core.Remote.State.{State, authenticating, ready}
use zhac_net_core.Remote.Client.{Bytes, Client, World, handle_rx_frame, auth_reply}
use zhac_net_core.Remote.Client.Task.{
  Tick, Bits, pass, begun, step_bits, drain_rx, on_state, on_ready,
}
use zhac_net_core.Remote.Client.Frames.{IsAccepted}
use zhac_net_core.Remote.Client.Sessions.{IsSane, pass-ready, pass_leaves}
use zhac_net_core.Remote.Client.Commands.{IsGated, pass-IsGated}

-- A frame is its id, then whatever follows.
abbrev world : World
world = record {
  parse = λ f. elim f [
    | [] ↦ none
    | id ∷ rest ↦ some (record { id = id; id_text = []; ok = true; cmd = "device.list" })
  ];
  privileged = false;
  random = λ n. 7;
  fw_version = none;
  backoff_max_s = 60;
}

abbrev pub client : State → Client
client s = record {
  running = false;
  state = s;
  attempt = 0;
  auth_id = 7;
  auth_enter_ms = 1000;
  boot_epoch = 3;
  ws = true;
  cfg = record { url = codes "wss://x"; token = codes "t"; devid = codes "d" };
  last_state = s;
  auth_ok_set = false;
  tx_drops = 0;
  auth_fails = 0;
  connected_since = 0;
  last_event_at = 0;
  draws = 1;
}

abbrev no_bits : Bits
no_bits = record {
  reload_cfg = false;
  disable_bit = false;
  enable_bit = false;
  wifi_down_bit = false;
  wifi_up_bit = false;
  wss_event = false;
  auth_ok_bit = false;
  auth_fail_bit = false;
}

abbrev pub tick : List Bytes → ℕ → Tick
tick rx now_ms = record {
  bits = no_bits;
  stored = record { url = []; token = []; devid = [] };
  rx = rx;
  tx = [];
  now_ms = now_ms;
  init_ok = true;
  is_connected = true;
  uplink_has_ip = true;
  aborted = false;
}

signing_in-IsSane : IsSane (client authenticating)
signing_in-IsSane = record { posted = λ h. cc }

signed_in : (pass world (tick ((7 ∷ []) ∷ []) 2000) (client authenticating)).0.state ≡ ready
unfolding pass begun step_bits drain_rx handle_rx_frame auth_reply on_state on_ready
signed_in = refl

pass-ready_example :
    ((client authenticating).state ≡ authenticating) × IsAccepted world 7 ((7 ∷ []) ∷ [])
pass-ready_example =
    pass-ready world (tick ((7 ∷ []) ∷ []) 2000) (client authenticating) signing_in-IsSane (λ h. cc)
      (λ h. cc) signed_in

pass_leaves_example :
    ((pass world (tick [] 6000) (client authenticating)).0.state ≢ authenticating)
    ⊎ ((pass world (tick [] 6000) (client authenticating)).0.last_state ≢ authenticating)
pass_leaves_example = pass_leaves world (tick [] 6000) (client authenticating) refl (omega arith)

pass-IsGated_example : All (IsGated world) (pass world (tick ((9 ∷ []) ∷ []) 2000) (client ready)).1
pass-IsGated_example = pass-IsGated world (tick ((9 ∷ []) ∷ []) 2000) (client ready)

abbrev running : Client
running = record (client ready) { running = true }
