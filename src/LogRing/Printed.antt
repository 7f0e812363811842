-- ===== src/LogRing/Printed.antt =====
-- `log_vprintf` of main/log_ring.cpp on the lines that the SDK prints.
use zhac_net_core.Base.{ℕ, ◌≤◌, ◌<◌, ◌≡◌, ap, ◌∙◌, true, List, Option, some, length, codes}
use zhac_net_core.LogRing.{Bytes, Ring, append}
use zhac_net_core.LogRing.Lines.{Parsed, esc, clean_line, parse_line, is_level}
use zhac_net_core.LogRing.Lines.Coloured.{
  Lacks, StartsTight, log_text, printed_line, clean_line-printed_line, parse_line-log_text,
}
use zhac_net_core.LogRing.Sinks.{Sinks, Effect, Surroundings, log_vprintf, dispatch_to_sinks}

-- What makes a line readable: a level, a time without a bracket, a tag of at most 31 bytes without a
-- colon, no spaces before tag and message, and no escape.
pub record IsLogText (level : ℕ) (time tag msg : Bytes) : Type 0 where
  pub known : is_level level ≡ true
  pub plain : Lacks esc (log_text level time tag msg)
  pub time_open : Lacks b')' time
  pub tag_open : Lacks b':' tag
  pub tag_tight : StartsTight tag
  pub msg_tight : StartsTight msg
  pub tag_short : length tag < 32

-- What `log_vprintf` does with a cleaned line and what it was parsed to.
abbrev entered : Surroundings → Ring → Sinks → Bytes → Parsed → Option Ring × Sinks × List Effect
entered env r s clean p =
    let (s', effects) = dispatch_to_sinks env s (codes "s3") p.level p.tag p.msg in
    (some (append r (record { ts_us = env.now; line = clean })), s', effects)

-- A coloured line of the SDK that fits the buffer is entered into the ring without its colours, and is
-- handed on to the sinks under its own level, tag and message.
pub log_vprintf_lem :
    (env : Surroundings) (r : Ring) (s : Sinks) (level : ℕ) (time tag msg on off : Bytes)
    → IsLogText level time tag msg
    → Lacks b'm' on
    → Lacks b'm' off
    → length (printed_line on (log_text level time tag msg) off) ≤ 191
    → let sent = dispatch_to_sinks env s (codes "s3") level tag msg in
      log_vprintf env (some r) s (some (printed_line on (log_text level time tag msg) off)) ≡ (
        some (append r (record { ts_us = env.now; line = log_text level time tag msg })),
        sent.0,
        sent.1,
      )
unfolding log_vprintf
log_vprintf_lem env r s level time tag msg on off text h_on h_off fits =
    let body = log_text level time tag msg in
    let clean : clean_line (printed_line on body off) ≡ body =
      clean_line-printed_line on body off h_on text.plain h_off fits in
    let parsed =
      parse_line-log_text level time tag msg text.known text.time_open text.tag_open text.tag_tight
        text.msg_tight text.tag_short in
    ap (λ z. entered env r s z (parse_line z 32)) clean ∙ ap (entered env r s body) parsed
