-- ===== src/Rmk/TypeMap/Classes.antt =====
-- The classes and parameters of components/rainmaker_gw/rmk_typemap.c.
use Prim.Native.String.{String}
use text.Mathlib.Text.{◌==◌ as str_eq}
use zhac_net_core.Base.{
  ℕ, zero, suc, ◌≤◌, ◌≡◌, refl, ap, ◌≢◌, Bool, true, false, ◌&&◌, ◌||◌, List, [], ◌∷◌, ◌++◌, Option,
  none, some, ◌==◌, if◌then◌else◌, arith, take,
}
use zhac_net_core.Rmk.TypeMap.{
  Devtype, Expose, Param, MapRow, has, count_writable, has_writable_state, rmk_classify, find_row,
  map_rows, build_params, rmk_build_params, primary_for, temp_sensor, other,
}

-- A name that the classes do not look at.
abbrev pub IsKnob : Expose → Type 0
IsKnob e =
    (str_eq e.name "brightness" ≡ false)
    × (str_eq e.name "color_temp" ≡ false)
    × (str_eq e.name "color_x" ≡ false)
    × (str_eq e.name "color_y" ≡ false)
    × (str_eq e.name "occupancy" ≡ false)
    × (str_eq e.name "contact" ≡ false)
    × (str_eq e.name "state" ≡ false)
    × (str_eq e.name "temperature" ≡ false)

has-knob :
    (xs ys : List Expose) (e : Expose) (name : String)
    → str_eq e.name name ≡ false
    → has (xs ++ (e ∷ ys)) name ≡ has (xs ++ ys) name
unfolding has
has-knob [] ys e name h = rw h refl
has-knob (x ∷ xs) ys e name h = rw (has-knob xs ys e name h) refl

state-knob :
    (xs ys : List Expose) (e : Expose)
    → str_eq e.name "state" ≡ false
    → has_writable_state (xs ++ (e ∷ ys)) ≡ has_writable_state (xs ++ ys)
unfolding has_writable_state
state-knob [] ys e h = rw h refl
state-knob (x ∷ xs) ys e h = rw (state-knob xs ys e h) refl

writable-knob :
    (xs ys : List Expose) (e : Expose)
    → e.writable ≡ false
    → count_writable (xs ++ (e ∷ ys)) ≡ count_writable (xs ++ ys)
unfolding count_writable
writable-knob [] ys e h = rw h (omega arith)
writable-knob (x ∷ xs) ys e h = rw (writable-knob xs ys e h) refl

writable-more :
    (xs ys : List Expose) (e : Expose) → count_writable (xs ++ ys) ≤ count_writable (xs ++ (e ∷ ys))
unfolding count_writable
writable-more [] ys e = omega arith
writable-more (x ∷ xs) ys e = omega (arith, writable-more xs ys e)

-- The last test of a classification, on both lists of exposes.
last_test :
    (warm : Bool) (n m : ℕ)
    → n ≤ m
    → (if warm && (n == 0) then temp_sensor else other) ≢ temp_sensor
    → (if warm && (m == 0) then temp_sensor else other)
      ≡ (if warm && (n == 0) then temp_sensor else other)
last_test warm n m h ne = ground arith

-- A knob of another name does not change what a device is, wherever it stands among the exposes,
-- except that a writable one makes it no temperature sensor.
pub rmk_classify-knob :
    (xs ys : List Expose) (e : Expose)
    → IsKnob e
    → (e.writable ≡ false → rmk_classify (xs ++ (e ∷ ys)) ≡ rmk_classify (xs ++ ys))
      × (rmk_classify (xs ++ ys) ≢ temp_sensor
          → rmk_classify (xs ++ (e ∷ ys)) ≡ rmk_classify (xs ++ ys))
unfolding rmk_classify
rmk_classify-knob xs ys e (b, ct, cx, cy, o, c, s, t) =
    rw
      (
        has-knob xs ys e _ b,
        has-knob xs ys e _ ct,
        has-knob xs ys e _ cx,
        has-knob xs ys e _ cy,
        has-knob xs ys e _ o,
        has-knob xs ys e _ c,
        has-knob xs ys e _ s,
        has-knob xs ys e _ t,
        state-knob xs ys e s,
      )
      (
        (λ h. rw (writable-knob xs ys e h) refl),
        (λ h.
            unless
              (has (xs ++ ys) "brightness"
                || (has (xs ++ ys) "color_temp"
                    || (has (xs ++ ys) "color_x" || has (xs ++ ys) "color_y")))
              _ _ _ h
              λ h. unless (has (xs ++ ys) "occupancy") _ _ _ h λ h.
                unless (has (xs ++ ys) "contact") _ _ _ h λ h.
                  unless (has (xs ++ ys) "state") _ _ _ h
                    λ h. last_test (has (xs ++ ys) "temperature") _ _ (writable-more xs ys e) h),
      )
  where
    unless :
        (test : Bool) (a b c : Devtype)
        → (if test then a else b) ≢ temp_sensor
        → (b ≢ temp_sensor → c ≡ b)
        → (if test then a else c) ≡ (if test then a else b)
    unless true a b c h next = refl
    unless false a b c h next = next h

-- The parameter of one expose, if its name has a row.
abbrev pub param_of : String → Expose → Option MapRow → List Param → List Param
param_of prim e none rest = rest
param_of prim e (some r) rest =
    record { from_row = r; writable = e.writable; primary = str_eq r.rm_type prim } ∷ rest

unfoldable pub all_params : String → List Expose → List Param
all_params prim [] = []
all_params prim (e ∷ ex) = param_of prim e (find_row map_rows e.name) (all_params prim ex)

build_params-take :
    (prim : String) (ex : List Expose) (room : ℕ)
    → build_params prim ex room ≡ take room (all_params prim ex)
unfolding build_params all_params
build_params-take prim [] zero = refl
build_params-take prim [] (suc room) = refl
build_params-take prim (e ∷ ex) zero = refl
build_params-take prim (e ∷ ex) (suc room) =
    by_row (find_row map_rows e.name) (build_params-take prim ex (suc room))
      (build_params-take prim ex room)
  where
    by_row :
        (o : Option MapRow)
        → build_params prim ex (suc room) ≡ take (suc room) (all_params prim ex)
        → build_params prim ex room ≡ take room (all_params prim ex)
        → (elim o as (λ x. List Param) [
          | none ↦ build_params prim ex (suc room)
          | some r ↦
              record { from_row = r; writable = e.writable; primary = str_eq r.rm_type prim }
              ∷ build_params prim ex room
        ])
          ≡ take (suc room) (param_of prim e o (all_params prim ex))
    by_row none skip keep = skip
    by_row (some r) skip keep =
        let p : Param = record {
          from_row = r;
          writable = e.writable;
          primary = str_eq r.rm_type prim;
        } in
        ap (◌∷◌ p) keep

-- `rmk_build_params` makes the parameters of the exposes whose names have a row, in their order, as
-- many as there is room for, each with its row and the device's own access; it is primary if its type
-- is the one of the device's class.
pub rmk_build_params_lem :
    (t : Devtype) (ex : List Expose) (room : ℕ)
    → rmk_build_params t ex room ≡ take room (all_params (primary_for t) ex)
unfolding rmk_build_params
rmk_build_params_lem t ex room = build_params-take (primary_for t) ex room
