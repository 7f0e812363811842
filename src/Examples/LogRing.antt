-- ===== src/Examples/LogRing.antt =====
-- Runs of main/log_ring.cpp.
use zhac_net_core.Base.{
  suc, ◌+◌, ◌*◌, ◌/◌, ◌%◌, ◌≡◌, refl, true, false, List, [], ◌∷◌, some, codes, decimal, arith, min,
  replicate,
}
use zhac_net_core.LogRing.{Ring, LogEntry, zeroed_entry, log_ring_init}
use zhac_net_core.LogRing.Sinks.{Sinks}
use zhac_net_core.LogRing.Sinks.Body.{escaped_text}
use zhac_net_core.LogRing.Sinks.Rate.{allowed_calls, allowed_calls_lem}
use zhac_net_core.LogRing.Order.{last, log_all}
use zhac_net_core.LogRing.Listing.{log_ring_to_json}
use zhac_net_core.LogRing.Listing.Room.{logs_text, log_ring_to_json_lem}

abbrev fresh : Ring
fresh = record { entries = replicate 128 zeroed_entry; head = 0; count = 0 }

abbrev two_entries : List LogEntry
two_entries =
    record { ts_us = 1000; line = codes "I (1) a: b" }
    ∷ record { ts_us = 2500; line = codes "\"" }
    ∷ []

log_ring_to_json_lem_example :
    log_ring_to_json (some (log_all fresh two_entries)) (λ i. log_all fresh two_entries) 64
    ≡ some (logs_text (last 128 two_entries))
unfolding log_ring_init logs_text decimal escaped_text
log_ring_to_json_lem_example = log_ring_to_json_lem fresh two_entries 64 refl (omega arith)

abbrev sinks : Sinks
sinks = record {
  mqtt_enabled = true;
  mqtt_level = b'I';
  ws_enabled = false;
  ws_level = b'I';
  mqtt_published = 0;
  mqtt_dropped_rate = 0;
  mqtt_dropped_disc = 0;
  rate_count = 0;
  rate_epoch = 0;
}

allowed_calls_lem_example :
    allowed_calls sinks (7000000 ∷ 7000001 ∷ []) ≡ 50 * (suc 1 / 256) + min 50 (suc 1 % 256)
allowed_calls_lem_example =
    allowed_calls_lem sinks 7000000 (7000001 ∷ []) 7 (omega arith) (omega arith)
