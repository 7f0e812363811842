-- ===== src/Examples/Remote.antt =====
-- Runs of components/remote_client.
use zhac_net_core.Base.{refl, [], ◌∷◌, List}
use zhac_net_core.Remote.State.{
  Event, disabled, enable, wifi_up, wss_connect, wss_error, auth_ok, backoff_done,
  remote_state_next, Within, required, run-ready,
}

abbrev history : List Event
history = enable ∷ wifi_up ∷ wss_error ∷ backoff_done ∷ wss_connect ∷ auth_ok ∷ []

run-ready_example : Within (required disabled) history
unfolding remote_state_next
run-ready_example = run-ready disabled history refl
