-- ===== src/Examples/Life.antt =====
-- Runs of components/remote_client/remote_client.cpp, from remote_objects_init_once on, and of
-- main/api_remote.cpp.
use zhac_net_core.Base.{◌≡◌, refl, true, false, List, [], ◌∷◌, none, some, codes}
use zhac_net_core.Remote.Client.Task.{Tick}
use zhac_net_core.Remote.Life.{Life, Kernel, stored_cfg}
use zhac_net_core.Remote.Life.Reused.{
  Call, enables, disables, ends, HasObjects, creations, calls, calls-IsReused,
}
use zhac_net_core.Remote.Api.{Request, api_remote_connect}
use zhac_net_core.Examples.Stored.{flash, factory}
use zhac_net_core.Examples.Cloud.{tick}

abbrev fresh : Life
fresh = record {
  tx_queue = none;
  rx_queue = none;
  remote_evt = none;
  objects_ready = false;
  task = none;
  is_enabled = false;
  cfg = record { url = []; token = []; devid = [] };
  enable_bit = false;
  disable_bit = false;
  reload_bit = false;
}

abbrev kernel : Kernel
kernel = record { new_tx = some 11; new_rx = some 12; new_evt = some 13; new_task = some 14 }

abbrev started : Life
started = record fresh {
  tx_queue = some 1;
  rx_queue = some 2;
  remote_evt = some 3;
  objects_ready = true;
  task = some 4;
}

abbrev off_and_on : List Call
off_and_on = disables true ∷ ends ∷ enables kernel ∷ []

calls-IsReused_example :
    let (l', s', made) = calls flash off_and_on started factory in
    HasObjects started l' × (creations made ≡ 0)
calls-IsReused_example = calls-IsReused flash off_and_on started factory refl

abbrev request : Request
request = record { url = codes "wss://x"; token = codes "t"; device_id = codes "d" }

abbrev next : Tick
next = record (tick [] 2000) {
  bits = record (tick [] 2000).bits { reload_cfg = true; enable_bit = true };
  stored =
      stored_cfg flash (api_remote_connect flash 64 kernel (some request) fresh factory).store [];
}
