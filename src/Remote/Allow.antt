-- ===== src/Remote/Allow.antt =====
-- components/remote_client/remote_allow.cpp: what the cloud channel may invoke and what it is sent.
use Prim.Native.String.{String}
use text.Mathlib.Text.{◌==◌ as str_eq, starts_with}
use text.Mathlib.TextEquality.{eq_iff}
use zhac_net_core.Base.{
  ◌≡◌, refl, Bool, true, false, not, ◌&&◌, List, [], ◌∷◌, Option, none, some, arith, if◌then◌else◌,
  ◌⊎◌, inl, inr, Bool-cases,
}

abbrev pub allowed_cmds : List String
allowed_cmds =
    "status.get" ∷ "alerts.get" ∷ "logs.get" ∷ "diagnostics.unhandled.get" ∷ "wifi.status"
    ∷ "wifi.scan" ∷ "zigbee.permit_join" ∷ "zigbee.permit_join.status" ∷ "device.list"
    ∷ "device.get" ∷ "device.bind" ∷ "device.rename" ∷ "device.attr.set" ∷ "device.options.set"
    ∷ "device.reinterview" ∷ "device.configure" ∷ "device.groups.list" ∷ "device.groups.add"
    ∷ "device.groups.remove" ∷ "device.groups.refresh" ∷ "rule.list" ∷ "rule.create" ∷ "rule.delete"
    ∷ "rule.enable" ∷ "rule.update" ∷ "rules.status" ∷ "rule.run" ∷ "script.list" ∷ "script.read"
    ∷ "script.delete" ∷ "script.check" ∷ "group.list" ∷ "group.create" ∷ "group.get"
    ∷ "group.update" ∷ "group.delete" ∷ "group.cmd" ∷ "uplink.get" ∷ "rainmaker.status"
    ∷ "rainmaker.assoc.set" ∷ "device.rainmaker.list" ∷ "device.rainmaker.add"
    ∷ "device.rainmaker.remove" ∷ []

abbrev pub privileged_cmds : List String
privileged_cmds =
    "ota.s3" ∷ "ota.p4" ∷ "zigbee.reset" ∷ "script.run" ∷ "script.write" ∷ "device.delete"
    ∷ "settings.set" ∷ "system.token.rotate" ∷ "uplink.set" ∷ []

abbrev pub allowed_events : List String
allowed_events =
    "attr.bulk" ∷ "attr.changed" ∷ "device.added" ∷ "device.removed" ∷ "device.attribute_change"
    ∷ "device.online" ∷ "device.offline" ∷ "device.renamed" ∷ "device.configure_progress"
    ∷ "device.bound" ∷ "device.unbound" ∷ "rule.added" ∷ "rule.removed" ∷ "rule.fired"
    ∷ "rule.error" ∷ "rule.updated" ∷ "rule.deleted" ∷ "group.added" ∷ "group.removed"
    ∷ "group.changed" ∷ "group.updated" ∷ "group.deleted" ∷ "alert" ∷ []

-- The `strcmp` loop.
unfoldable pub listed : List String → String → Bool
listed [] name = false
listed (a ∷ as') name = if str_eq name a then true else listed as' name

-- `none` is a null pointer; the flag is CONFIG_ZHAC_REMOTE_ALLOW_PRIVILEGED.
unfoldable pub remote_cmd_allowed : Bool → Option String → Bool
remote_cmd_allowed privileged none = false
remote_cmd_allowed privileged (some cmd) =
    if str_eq cmd ""
    then false
    else if listed allowed_cmds cmd
    then true
    else privileged && listed privileged_cmds cmd

unfoldable pub remote_event_allowed : Option String → Bool
remote_event_allowed none = false
remote_event_allowed (some name) = if str_eq name "" then false else listed allowed_events name

abbrev pub none_pass : (String → Bool) → List String → Bool
none_pass test [] = true
none_pass test (a ∷ as') = not (test a) && none_pass test as'

-- A test that no name of the list passes is failed by every listed name.
pub listed-fails :
    (test : String → Bool) (names : List String) (name : String)
    → none_pass test names ≡ true
    → listed names name ≡ true
    → test name ≡ false
unfolding listed
listed-fails test [] name out h = cc
listed-fails test (a ∷ names) name out h = elim (Bool-cases (str_eq name a)) [
  | inl same ↦ rw ((eq_iff name a).0 same) (ground arith)
  | inr other ↦ listed-fails test names name (ground arith) (rw other at h)
]

not-listed :
    (test : String → Bool) (names : List String) (name : String)
    → none_pass test names ≡ true
    → test name ≡ true
    → listed names name ≡ false
not-listed test names name out passes = elim (Bool-cases (listed names name)) [
  | inl h ↦ let fails = listed-fails test names name out h in cc
  | inr h ↦ h
]

-- What a test excludes from both lists is denied in every build.
denied_by :
    (test : String → Bool) (privileged : Bool) (cmd : String)
    → none_pass test allowed_cmds ≡ true
    → none_pass test privileged_cmds ≡ true
    → test cmd ≡ true
    → remote_cmd_allowed privileged (some cmd) ≡ false
unfolding remote_cmd_allowed
denied_by test privileged cmd out out' passes = ground (
  arith,
  not-listed test allowed_cmds cmd out passes,
  not-listed test privileged_cmds cmd out' passes,
)

-- No command of the families that are excluded for good is ever allowed, whatever its spelling goes
-- on with, also in a build that trusts the cloud with the privileged ones.
pub excluded_denied :
    (privileged : Bool) (cmd : String)
    → (starts_with cmd "remote." ≡ true)
      ⊎ (starts_with cmd "wifi.connect" ≡ true)
      ⊎ (starts_with cmd "wifi.disconnect" ≡ true)
    → remote_cmd_allowed privileged (some cmd) ≡ false
excluded_denied privileged cmd (inl h) =
    denied_by (λ c. starts_with c "remote.") privileged cmd refl refl h
excluded_denied privileged cmd (inr (inl h)) =
    denied_by (λ c. starts_with c "wifi.connect") privileged cmd refl refl h
excluded_denied privileged cmd (inr (inr h)) =
    denied_by (λ c. starts_with c "wifi.disconnect") privileged cmd refl refl h

-- A build that does not trust the cloud with them denies the privileged commands.
pub privileged_denied :
    (cmd : String) → listed privileged_cmds cmd ≡ true → remote_cmd_allowed false (some cmd) ≡ false
unfolding remote_cmd_allowed listed
privileged_denied cmd h = elim (Bool-cases (listed allowed_cmds cmd)) [
  | inl bad ↦
      let fails : listed privileged_cmds cmd ≡ false =
        listed-fails (listed privileged_cmds) allowed_cmds cmd refl bad in
      cc
  | inr fine ↦ ground arith
]
