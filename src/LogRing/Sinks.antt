-- ===== src/LogRing/Sinks.antt =====
-- main/log_ring.cpp: the live sinks. The counters are atomics that one task changes at a time here;
-- the MQTT gateway, the WebSocket queue, the clock and the allocator are parameters.
pub mod Body
pub mod Rate
use zhac_net_core.Base.{
  ℕ, zero, suc, ◌+◌, ◌/◌, ◌%◌, ◌^◌, Bool, true, false, ◌&&◌, ◌||◌, not, List, [], ◌∷◌, ◌++◌, Option,
  none, some, ltb, leb, ◌==◌, if◌then◌else◌, length, codes, decimal, take, ◌-◌,
}
use zhac_net_core.LogRing.{Bytes, Ring, LogEntry, append, log_line_max}
use zhac_net_core.LogRing.Lines.{Parsed, parse_line, clean_line}
use zhac_net_core.LogRing.Sinks.Body.{build_body_json}

pub record Sinks : Type 0 where
  pub mqtt_enabled : Bool
  pub mqtt_level : ℕ
  pub ws_enabled : Bool
  pub ws_level : ℕ
  pub mqtt_published : ℕ
  pub mqtt_dropped_rate : ℕ
  pub mqtt_dropped_disc : ℕ
  pub rate_count : ℕ
  pub rate_epoch : ℕ

unfoldable pub initial : Sinks
initial = record {
  mqtt_enabled = false;
  mqtt_level = b'I';
  ws_enabled = false;
  ws_level = b'I';
  mqtt_published = 0;
  mqtt_dropped_rate = 0;
  mqtt_dropped_disc = 0;
  rate_count = 0;
  rate_epoch = 0;
}

abbrev pub mqtt_rate_cap_per_sec : ℕ
mqtt_rate_cap_per_sec = 50

unfoldable pub level_order : ℕ → ℕ
level_order c =
    if c == b'E'
    then 0
    else if c == b'W'
    then 1
    else if c == b'I'
    then 2
    else if c == b'D'
    then 3
    else if c == b'V'
    then 4
    else 2

unfoldable pub level_passes : ℕ → ℕ → Bool
unfolding level_order
level_passes line_level min_level = leb (level_order line_level) (level_order min_level)

unfoldable pub level_topic_suffix : ℕ → Bytes
level_topic_suffix c =
    if c == b'E'
    then codes "log/err"
    else if c == b'W'
    then codes "log/warn"
    else if c == b'I'
    then codes "log/info"
    else if c == b'D'
    then codes "log/debug"
    else if c == b'V'
    then codes "log/verbose"
    else codes "log/info"

abbrev pub u32 : ℕ → ℕ
u32 n = n % 2 ^ 32

-- `now` is the time in microseconds.
unfoldable pub mqtt_rate_allow : Sinks → (now : ℕ) → Sinks × Bool
mqtt_rate_allow s now =
    let second = u32 (now / 1000000) in
    if s.rate_epoch == second
    then (
      record s { rate_count = (s.rate_count + 1) % 256 },
      ltb s.rate_count mqtt_rate_cap_per_sec,
    )
    else (record s { rate_epoch = second; rate_count = 1 }, true)

-- What a line is handed on to.
pub data Effect : Type 0 where
  publish : (topic body : Bytes) → Effect
  enqueue : (frame : Bytes) → Effect

-- The answers of the rest of the system while one line is dispatched.
pub record Surroundings : Type 0 where
  pub now : ℕ
  pub unix_time : ℕ
  pub alloc_ok : Bool
  pub mqtt_connected : Bool
  pub format_topic : Bytes → Option Bytes
  pub in_broadcast : Bool

-- The MQTT half of `dispatch_to_sinks`.
unfoldable pub to_mqtt : Surroundings → Sinks → (level : ℕ) → (body : Bytes) → Sinks × List Effect
unfolding level_passes level_topic_suffix mqtt_rate_allow
to_mqtt env s level body =
    let (s', allowed) = mqtt_rate_allow s env.now in
    if not (s.mqtt_enabled && level_passes level s.mqtt_level)
    then (s, [])
    else if not env.mqtt_connected
    then (record s { mqtt_dropped_disc = u32 (s.mqtt_dropped_disc + 1) }, [])
    else if not allowed
    then (record s' { mqtt_dropped_rate = u32 (s'.mqtt_dropped_rate + 1) }, [])
    else elim (env.format_topic (level_topic_suffix level)) [
      | none ↦ (s', [])
      | some topic ↦
          (record s' { mqtt_published = u32 (s'.mqtt_published + 1) }, publish topic body ∷ [])
    ]

abbrev pub frame_cap : ℕ
frame_cap = 480

unfoldable pub ws_frame : ℕ → Bytes → Bytes
ws_frame level body =
    codes "{\"type\":\"log\",\"level\":\""
    ++ (level ∷ (codes "\",\"entry\":" ++ (body ++ codes "}")))

-- The WebSocket half.
unfoldable pub to_ws : Surroundings → Sinks → (level : ℕ) → (body : Bytes) → List Effect
unfolding level_passes ws_frame
to_ws env s level body =
    if s.ws_enabled
      && level_passes level s.ws_level
      && not env.in_broadcast
      && ltb (length (ws_frame level body)) frame_cap
    then enqueue (ws_frame level body) ∷ []
    else []

abbrev pub body_cap : ℕ
body_cap = 384

unfoldable pub dispatch_to_sinks :
    Surroundings → Sinks → (src : Bytes) → (level : ℕ) → (tag msg : Bytes) → Sinks × List Effect
unfolding to_mqtt to_ws
dispatch_to_sinks env s src level tag msg =
    if not s.mqtt_enabled && not s.ws_enabled
    then (s, [])
    else if not env.alloc_ok
    then (s, [])
    else elim (build_body_json body_cap env.unix_time src tag msg) [
      | none ↦ (s, [])
      | some body ↦
          let (s', published) = to_mqtt env s level body in
          (s', published ++ to_ws env s' level body)
    ]

-- `log_vprintf` behind the call of the hook before it; `printed` is what `vsnprintf` made, if it
-- did not fail, and the ring may not be there.
unfoldable pub log_vprintf :
    Surroundings
    → Option Ring
    → Sinks
    → (printed : Option Bytes) → Option Ring × Sinks × List Effect
unfolding dispatch_to_sinks clean_line parse_line append
log_vprintf env none s printed = (none, s, [])
log_vprintf env (some r) s none = (some r, s, [])
log_vprintf env (some r) s (some []) = (some r, s, [])
log_vprintf env (some r) s (some (c ∷ text)) =
    let clean = clean_line (c ∷ text) in
    let p = parse_line clean 32 in
    let (s', effects) = dispatch_to_sinks env s (codes "s3") p.level p.tag p.msg in
    (some (append r (record { ts_us = env.now; line = clean })), s', effects)

-- The level with its default, and a tag with its own: `none` is a null pointer.
abbrev pub level_or_info : ℕ → ℕ
level_or_info level = if level == 0 then b'I' else level

abbrev pub tag_or_p4 : Option Bytes → Bytes
tag_or_p4 none = codes "p4"
tag_or_p4 (some tag) = tag

-- The text of the entry, before it is cut to the entry's size.
unfoldable pub p4_text : (now : ℕ) → (level : ℕ) → (tag msg : Bytes) → Bytes
p4_text now level tag msg =
    level
    ∷ (codes " (" ++ (decimal (u32 (now / 1000)) ++ (codes ") " ++ (tag ++ (codes ": " ++ msg)))))

unfoldable pub log_sinks_publish_p4 :
    Surroundings
    → Option Ring
    → Sinks
    → (level : ℕ) → (tag msg : Option Bytes) → Option Ring × Sinks × List Effect
unfolding dispatch_to_sinks append p4_text
log_sinks_publish_p4 env ring s level tag none = (ring, s, [])
log_sinks_publish_p4 env ring s level tag (some msg) =
    let line =
      take (log_line_max - 1) (p4_text env.now (level_or_info level) (tag_or_p4 tag) msg) in
    let (s', effects) =
      dispatch_to_sinks env s (codes "p4") (level_or_info level) (tag_or_p4 tag) msg in
    (
      elim ring [
        | none ↦ none
        | some r ↦ some (append r (record { ts_us = env.now; line = line }))
      ],
      s',
      effects,
    )

unfoldable pub log_sinks_set_mqtt : Sinks → Bool → ℕ → Sinks
log_sinks_set_mqtt s enabled min_level = record s {
  mqtt_enabled = enabled;
  mqtt_level = level_or_info min_level;
}

unfoldable pub log_sinks_set_ws : Sinks → Bool → ℕ → Sinks
log_sinks_set_ws s enabled min_level = record s {
  ws_enabled = enabled;
  ws_level = level_or_info min_level;
}
