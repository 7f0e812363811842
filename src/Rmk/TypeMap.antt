-- ===== src/Rmk/TypeMap.antt =====
-- components/rainmaker_gw/rmk_typemap.c. A name is a text; an `int` is its sign and its size.
pub mod Scales
pub mod Classes
use Prim.Native.String.{String}
use text.Mathlib.Text.{◌==◌ as str_eq}
use zhac_net_core.Base.{
  ℕ, zero, suc, ◌+◌, ◌*◌, ◌/◌, Bool, true, false, ◌&&◌, ◌||◌, List, [], ◌∷◌, Option, none, some,
  ltb, ◌==◌, if◌then◌else◌,
}

pub data Devtype : Type 0 where
  lightbulb motion_sensor contact_sensor switch temp_sensor other : Devtype

pub record Expose : Type 0 where
  pub name : String
  pub writable : Bool

unfoldable pub has : List Expose → String → Bool
has [] name = false
has (e ∷ ex) name = let rest = has ex name in if str_eq e.name name then true else rest

unfoldable pub count_writable : List Expose → ℕ
count_writable [] = 0
count_writable (e ∷ ex) = (if e.writable then 1 else 0) + count_writable ex

-- The loop for a writable `state`.
unfoldable pub has_writable_state : List Expose → Bool
has_writable_state [] = false
has_writable_state (e ∷ ex) =
    let rest = has_writable_state ex in if str_eq e.name "state" && e.writable then true else rest

unfoldable pub rmk_classify : List Expose → Devtype
rmk_classify ex =
    if has ex "brightness" || (has ex "color_temp" || (has ex "color_x" || has ex "color_y"))
    then lightbulb
    else if has ex "occupancy"
    then motion_sensor
    else if has ex "contact"
    then contact_sensor
    else if has ex "state"
    then if has_writable_state ex then switch else other
    else if has ex "temperature" && (count_writable ex == 0)
    then temp_sensor
    else other

unfoldable pub rmk_devtype_str : Devtype → String
rmk_devtype_str lightbulb = "esp.device.lightbulb"
rmk_devtype_str motion_sensor = "esp.device.motion-sensor"
rmk_devtype_str contact_sensor = "esp.device.contact-sensor"
rmk_devtype_str switch = "esp.device.switch"
rmk_devtype_str temp_sensor = "esp.device.temperature-sensor"
rmk_devtype_str other = "esp.device.other"

-- An `int`: `negsuc n` is -(n + 1).
pub data ℤ : Type 0 where
  pos : ℕ → ℤ
  negsuc : ℕ → ℤ

-- `clampi`, whose bounds are never negative.
abbrev pub clampi : ℤ → ℕ → ℕ → ℕ
clampi (negsuc n) lo hi = lo
clampi (pos v) lo hi = if ltb v lo then lo else if ltb hi v then hi else v

unfoldable pub rmk_bri_to_rm : ℤ → ℕ
rmk_bri_to_rm zb = (clampi zb 0 254 * 100 + 127) / 254

unfoldable pub rmk_bri_from_rm : ℤ → ℕ
rmk_bri_from_rm rm = (clampi rm 0 100 * 254 + 50) / 100

unfoldable pub rmk_mired_to_kelvin : ℤ → ℕ
rmk_mired_to_kelvin (negsuc n) = 6500
rmk_mired_to_kelvin (pos zero) = 6500
rmk_mired_to_kelvin (pos (suc n)) = clampi (pos (1000000 / suc n)) 2700 6500

unfoldable pub rmk_kelvin_to_mired : ℤ → ℕ
rmk_kelvin_to_mired k = 1000000 / clampi k 2700 6500

abbrev pub rmk_contact_to_rm : Bool → Bool
rmk_contact_to_rm zhac_contact = zhac_contact

pub data Conv : Type 0 where
  conv_none bri cct div100 contact : Conv

pub record MapRow : Type 0 where
  pub key : String
  pub rm_name : String
  pub rm_type : String
  pub rm_ui : Option String
  pub dt : ℕ
  pub min : ℕ
  pub max : ℕ
  pub step : ℕ
  pub conv : Conv

abbrev row : String → String → String → Option String → ℕ → ℕ → ℕ → ℕ → Conv → MapRow
row key rm_name rm_type rm_ui dt min max step conv = record {
  key = key;
  rm_name = rm_name;
  rm_type = rm_type;
  rm_ui = rm_ui;
  dt = dt;
  min = min;
  max = max;
  step = step;
  conv = conv;
}

-- `kMap`
abbrev pub map_rows : List MapRow
map_rows =
    row "state" "Power" "esp.param.power" (some "esp.ui.toggle") b'b' 0 0 0 conv_none
    ∷ row "brightness" "Brightness" "esp.param.brightness" (some "esp.ui.slider") b'i' 0 100 1 bri
    ∷ row "color_temp" "CCT" "esp.param.cct" (some "esp.ui.slider") b'i' 2700 6500 100 cct
    ∷ row "temperature" "Temperature" "esp.param.temperature" none b'f' 0 0 0 div100
    ∷ row "humidity" "Humidity" "esp.param.humidity" none b'f' 0 0 0 div100
    ∷ row "occupancy" "Motion" "esp.param.motion-detection-state" (some "esp.ui.toggle") b'b' 0 0 0
        conv_none
    ∷ row "contact" "Contact" "esp.param.contact-detection-state" (some "esp.ui.toggle") b'b' 0 0 0
        contact
    ∷ []

unfoldable pub primary_for : Devtype → String
primary_for lightbulb = "esp.param.power"
primary_for switch = "esp.param.power"
primary_for motion_sensor = "esp.param.motion-detection-state"
primary_for contact_sensor = "esp.param.contact-detection-state"
primary_for temp_sensor = "esp.param.temperature"
primary_for other = ""

-- A parameter is its row, with the two fields that the device gives.
pub record Param : Type 0 where
  pub from_row : MapRow
  pub writable : Bool
  pub primary : Bool

-- The loop over the rows, to the first with the name.
unfoldable pub find_row : List MapRow → String → Option MapRow
find_row [] name = none
find_row (r ∷ rows) name =
    let rest = find_row rows name in if str_eq name r.key then some r else rest

-- The loop over the exposes, with the room that is left in `out`.
unfoldable pub build_params : String → List Expose → ℕ → List Param
build_params prim [] room = []
build_params prim (e ∷ ex) zero = []
build_params prim (e ∷ ex) (suc room) = elim (find_row map_rows e.name) [
  | none ↦ build_params prim ex (suc room)
  | some r ↦
      record { from_row = r; writable = e.writable; primary = str_eq r.rm_type prim }
      ∷ build_params prim ex room
]

unfoldable pub rmk_build_params : Devtype → List Expose → ℕ → List Param
unfolding primary_for build_params
rmk_build_params t ex room = build_params (primary_for t) ex room
