-- ===== src/Remote/Life.antt =====
-- components/remote_client/remote_client.cpp, from `remote_objects_init_once` on, and main/api_remote.cpp:
-- how the cloud channel's task and its kernel objects come and go, and the requests that ask for it. A
-- handle that is not null is a number, and what is asked of the SDK is a list of actions.
pub mod Reused
use zhac_net_core.Base.{
  ℕ, Bool, true, false, ◌&&◌, ◌||◌, not, List, [], ◌∷◌, ◌++◌, Option, none, some, if◌then◌else◌,
  length, ltb, leb, ◌==◌, take, codes,
}
use zhac_net_core.Remote.Client.{RemoteCfg}
use zhac_net_core.Remote.Stored.{
  Bytes, Nvs, remote_nvs_load, remote_nvs_save, remote_nvs_forget_creds,
}

abbrev pub is_set : Option ℕ → Bool
is_set none = false
is_set (some handle) = true

-- The statics, and the event bits that nobody has waited for yet.
pub record Life : Type 0 where
  pub tx_queue : Option ℕ
  pub rx_queue : Option ℕ
  pub remote_evt : Option ℕ
  pub objects_ready : Bool
  pub task : Option ℕ
  pub is_enabled : Bool
  pub cfg : RemoteCfg
  pub enable_bit : Bool
  pub disable_bit : Bool
  pub reload_bit : Bool

-- The handles that the kernel's calls give, none where there is no memory.
pub record Kernel : Type 0 where
  pub new_tx : Option ℕ
  pub new_rx : Option ℕ
  pub new_evt : Option ℕ
  pub new_task : Option ℕ

pub data Action : Type 0 where
  create_objects register_hook create_task : Action

unfoldable pub objects_init_once : Kernel → Life → Life × List Action
objects_init_once k l = if l.objects_ready then (l, []) else (
  record l {
    tx_queue = k.new_tx;
    rx_queue = k.new_rx;
    remote_evt = k.new_evt;
    objects_ready = is_set k.new_tx && (is_set k.new_rx && is_set k.new_evt);
  },
  create_objects ∷ register_hook ∷ [],
)

unfoldable pub task_spawn : Kernel → Life → Life × List Action
task_spawn k l =
    if is_set l.task then (l, []) else (record l { task = k.new_task }, create_task ∷ [])

-- The end of the task, in its state DISABLED.
abbrev pub task_ended : Life → Life
task_ended l = record l { task = none }

-- With the objects at hand the task is made, and the bits are set.
unfoldable pub enabled_with : Kernel → Life × List Action → Life × List Action
unfolding task_spawn
enabled_with k (l, made) =
    let (l', spawned) = task_spawn k l in
    if not l.objects_ready
    then (l, made)
    else (record l' { enable_bit = true; reload_bit = true }, made ++ spawned)

unfoldable pub remote_client_enable : Kernel → Life → Life × List Action
unfolding enabled_with objects_init_once
remote_client_enable k l = enabled_with k (objects_init_once k l)

abbrev pub is_empty : Bytes → Bool
is_empty [] = true
is_empty (c ∷ cs) = false

unfoldable pub started_with : Kernel → Life × List Action → Life × List Action
unfolding task_spawn
started_with k (l, made) =
    let (l', spawned) = task_spawn k l in
    if not l.objects_ready then (l, made) else (
      record l' {
        enable_bit =
            l.enable_bit
            || (l.is_enabled && (not (is_empty l.cfg.url) && not (is_empty l.cfg.token)));
      },
      made ++ spawned,
    )

module _ (n : Nvs) where
  open n use {Store}

  -- The stored configuration, in buffers of the sizes of `RemoteCfg`.
  abbrev pub stored_cfg : Store → (mac : Bytes) → RemoteCfg
  stored_cfg s mac =
      let got = remote_nvs_load n s mac 128 96 32 in
      record { url = got.url_out; token = got.token_out; devid = got.devid_out }

  unfoldable pub remote_client_init : Kernel → Store → (mac : Bytes) → Life → Life × List Action
  unfolding started_with objects_init_once remote_nvs_load
  remote_client_init k s mac l = started_with k (
      objects_init_once k record l {
        is_enabled = (remote_nvs_load n s mac 128 96 32).is_enabled;
        cfg = stored_cfg s mac;
      })

  -- The flash's answers are not looked at.
  unfoldable pub remote_client_disable : (forget_creds : Bool) → Store → Life → Life × Store
  unfolding remote_nvs_forget_creds remote_nvs_save
  remote_client_disable forget_creds s l =
      let s1 = if forget_creds then (remote_nvs_forget_creds n s).0 else s in
      (
        record l {
          is_enabled = false;
          cfg = if forget_creds then record l.cfg { url = []; token = [] } else l.cfg;
          disable_bit = l.disable_bit || is_set l.remote_evt;
        },
        (remote_nvs_save n s1 false [] [] []).0,
      )
