-- ===== src/WsBridge/Queue.antt =====
-- main/ws_bridge.cpp: the queue to the task that broadcasts, and what is put into it. The allocator and
-- the mutex are the SDK's, and whether they served is given.
pub mod Fifo
use zhac_net_core.Base.{
  ℕ, ◌+◌, ◌-◌, ◌%◌, ◌^◌, Bool, true, false, ◌&&◌, ◌||◌, not, List, [], ◌∷◌, ◌++◌, Option, none,
  some, ltb, leb, ◌==◌, if◌then◌else◌, length, take, drop, codes, min,
}
use Prim.Native.String.{String}
use zhac_net_core.Remote.Client.{
  Client, TxAnswers, ws_event_envelope_build, remote_client_publish_event,
}
use zhac_net_core.WsBridge.{Bytes, json_escape, if_whole}

-- `queue` is none before it is created; `s_ws_tx_drops` wraps.
pub record Tx : Type 0 where
  pub queue : Option (List Bytes)
  pub drops : ℕ

abbrev pub ws_tx_queue_depth : ℕ
ws_tx_queue_depth = 24

abbrev pub dropped : Tx → Tx
dropped t = record t { drops = (t.drops + 1) % 2 ^ 32 }

unfoldable pub ws_bridge_tx_init : (created : Bool) → Tx → Tx
ws_bridge_tx_init created t = elim t.queue [
  | some q ↦ t
  | none ↦ if created then record t { queue = some [] } else t
]

unfoldable pub tx_enqueue_owned : Tx → Bytes → Tx
tx_enqueue_owned t buf = elim t.queue [
  | none ↦ dropped t
  | some q ↦
      if ltb (length q) ws_tx_queue_depth
      then record t { queue = some (q ++ (buf ∷ [])) }
      else dropped t
]

-- A null pointer and an empty text are both empty here.
unfoldable pub ws_bridge_broadcast_enqueue : (alloc_ok : Bool) → Tx → Bytes → Tx
unfolding tx_enqueue_owned
ws_bridge_broadcast_enqueue alloc_ok t [] = t
ws_bridge_broadcast_enqueue alloc_ok t (c ∷ cs) =
    if alloc_ok then tx_enqueue_owned t (c ∷ cs) else dropped t

-- One round of `ws_tx_worker`: the text that it broadcasts, if there is one.
unfoldable pub ws_tx_worker : Tx → Tx × Option Bytes
ws_tx_worker t = elim t.queue [
  | none ↦ (t, none)
  | some q ↦ elim q [ [] ↦ (t, none) | json ∷ rest ↦ (record t { queue = some rest }, some json) ]
]

abbrev pub evt_buf_cap : ℕ
evt_buf_cap = 4096 + 128

abbrev pub enqueue_if : (alloc_ok : Bool) → Tx → Option Bytes → Tx
enqueue_if alloc_ok t none = t
enqueue_if alloc_ok t (some json) = if alloc_ok then tx_enqueue_owned t json else t

-- The local queue, and what `remote_client_publish_event` makes of the event.
unfoldable pub ws_event_broadcast :
    (taken alloc_ok remote_alloc_ok : Bool) (q : TxAnswers)
    → Tx
    → Client
    → (name : Option String) → (text : Bytes) → (payload : Option Bytes)
    → Tx × Client × Option Bytes
unfolding ws_event_envelope_build remote_client_publish_event tx_enqueue_owned
ws_event_broadcast taken alloc_ok remote_alloc_ok q t c name text payload =
    let local = enqueue_if alloc_ok t (ws_event_envelope_build evt_buf_cap text payload) in
    let (c', json) = remote_client_publish_event c remote_alloc_ok q name text payload in
    if taken then (local, c', json) else (t, c, none)

-- The frame of a message from the broker, if it fits.
unfoldable pub mqtt_frame : (topic body : Bytes) → Option Bytes
unfolding json_escape if_whole
mqtt_frame topic body = if_whole 768 (
    codes "{\"type\":\"mqtt\",\"topic\":\""
    ++ (json_escape topic 256 ++ (codes "\",\"data\":\"" ++ (json_escape body 512 ++ codes "\"}"))))

-- What is handed on to the other processor.
pub data Forward : Type 0 where
  interview_req : (ieee : ℕ) → Forward
  mqtt_msg_in : (topic body : Bytes) → Forward

abbrev pub same_prefix : Bytes → Bytes → Bool
same_prefix [] text = true
same_prefix (c ∷ cs) [] = false
same_prefix (c ∷ cs) (d ∷ ds) = c == d && same_prefix cs ds

abbrev pub suffix : Bytes
suffix = codes "/interview"

-- The part of the topic between "<root>/devices/" and "/interview"; `prefix` is what
-- `mqtt_gw_format_topic` makes.
unfoldable pub interview_segment : (prefix topic : Bytes) → Option Bytes
interview_segment prefix topic =
    let seg_len = length topic - length prefix - length suffix in
    if ltb 0 (length prefix)
      && (ltb (length prefix + length suffix) (length topic)
          && (same_prefix prefix topic
              && same_prefix suffix (drop (length topic - length suffix) topic)))
    then (if ltb 0 seg_len && ltb seg_len 20
        then some (take seg_len (drop (length prefix) topic))
        else none)
    else none

abbrev pub interview : (parse_ieee : Bytes → ℕ) → Option Bytes → List Forward
interview parse_ieee none = []
interview parse_ieee (some segment) =
    if parse_ieee segment == 0 then [] else interview_req (parse_ieee segment) ∷ []

abbrev pub enqueue_frame : (alloc_ok : Bool) → Tx → Option Bytes → Tx
enqueue_frame alloc_ok t none = t
enqueue_frame alloc_ok t (some json) = ws_bridge_broadcast_enqueue alloc_ok t json

-- `ha_took` is the answer of `ha_bridge_on_mqtt_rx`; the encoders of hap_json.h are left out.
unfoldable pub on_mqtt_rx :
    (ha_took alloc_ok : Bool) (parse_ieee : Bytes → ℕ) (prefix : Bytes)
    → Tx
    → (topic body : Bytes) → Tx × List Forward
unfolding interview_segment mqtt_frame ws_bridge_broadcast_enqueue
on_mqtt_rx ha_took alloc_ok parse_ieee prefix t topic body = if ha_took then (t, []) else (
  enqueue_frame alloc_ok t (mqtt_frame topic body),
  interview parse_ieee (interview_segment prefix topic)
      ++ (mqtt_msg_in (take 63 topic) (take 255 body) ∷ []),
)
