-- ===== src/Remote/Api/Connected.antt =====
-- `api_remote_connect` of main/api_remote.cpp and the pass of the task behind it.
use zhac_net_core.Base.{◌≡◌, ◌<◌, Bool, true, false, length}
use zhac_net_core.Remote.Client.{Client}
use zhac_net_core.Remote.Stored.{Nvs}
use zhac_net_core.Remote.Life.{Life, Kernel, is_empty, remote_client_enable}
use zhac_net_core.Remote.Api.{Request, Outcome}

record IsFit (q : Request) : Type 0 where
  has_url : is_empty q.url ≡ false
  has_token : is_empty q.token ≡ false
  url_fits : length q.url < 128
  token_fits : length q.token < 96

module _ (n : Nvs) where
  abbrev Behind : Kernel → Life → n.Store × Bool → Outcome n → Type 0
  Behind k l r o = (r.1 ≡ true) × (o.store ≡ r.0) × (o.life ≡ (remote_client_enable k l).0)
