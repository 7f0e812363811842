-- ===== src/Wifi/Portal.antt =====
-- main/wifi_mgr.cpp: the name server of the captive portal, and the reset button.
use mathlib.Core.List.{append_assoc}
use zhac_net_core.Base.{
  ℕ, zero, suc, ◌+◌, ◌*◌, ◌≤◌, ◌<◌, ◌≡◌, refl, sym, ap, ◌∙◌, inl, inr, Bool, true, false, ◌||◌,
  List, [], ◌∷◌, ◌++◌, Option, none, some, arith, ltb, leb, ◌==◌, ==_iff, if◌then◌else◌, Bool-cases,
  length, set, replicate,
}
use zhac_net_core.Wifi.{Bytes}

-- A pointer to the question's name, type A, class IN, 60 seconds, and 192.168.4.1.
abbrev pub dns_answer : Bytes
dns_answer =
    0xC0 ∷ 0x0C ∷ 0x00 ∷ 0x01 ∷ 0x00 ∷ 0x01 ∷ 0x00 ∷ 0x00 ∷ 0x00 ∷ 0x3C ∷ 0x00 ∷ 0x04 ∷ 192 ∷ 168
    ∷ 4 ∷ 1 ∷ []

-- The reply to a packet of at most 512 bytes, which overwrites its buffer; `none` if there is none.
unfoldable pub dns_reply : Bytes → Option Bytes
dns_reply query =
    let header = set (set (set (set query 2 0x81) 3 0x80) 6 0x00) 7 0x01 in
    if ltb (length query) 12
    then none
    else some (if leb (length query + 16) 512 then header ++ dns_answer else header)

abbrev pub poll_ms : ℕ
poll_ms = 100

abbrev pub target_ms : ℕ
target_ms = 5000

-- One round of `task_gpio_reset`: how long the button has been held, and whether that is long enough.
abbrev pub poll_button : (held_ms : ℕ) → (pressed : Bool) → ℕ × Bool
poll_button held_ms true = (held_ms + poll_ms, leb target_ms (held_ms + poll_ms))
poll_button held_ms false = (0, false)

-- Whether `wifi_mgr_forget_and_reboot` is called, which ends the loop; it erases the credentials if the
-- flash can be opened, and restarts.
unfoldable pub task_gpio_reset : (held_ms : ℕ) → List Bool → Bool
task_gpio_reset held_ms [] = false
task_gpio_reset held_ms (pressed ∷ polls) =
    let (held', enough) = poll_button held_ms pressed in
    let later = task_gpio_reset held' polls in enough || later

or_left : (a b : Bool) → a ≡ true → (a || b) ≡ true
or_left true b e = refl
or_left false b e = cc

or_right : (a b : Bool) → b ≡ true → (a || b) ≡ true
or_right true b e = refl
or_right false b e = e

or_other : (a b : Bool) → a ≡ false → (a || b) ≡ true → b ≡ true
or_other true b e h = cc
or_other false b e h = h

replicate-snoc :
    (j : ℕ) (ls : List Bool) → replicate j true ++ (true ∷ ls) ≡ replicate (suc j) true ++ ls
replicate-snoc zero ls = refl
replicate-snoc (suc j) ls = ap (◌∷◌ true) (replicate-snoc j ls)

-- The button is down for 50 polls on end.
abbrev pub HasHold : List Bool → Type 0
HasHold ls =
    (before : List Bool) × (after : List Bool) × (ls ≡ before ++ (replicate 50 true ++ after))

erased-HasHold :
    (ls : List Bool) (j : ℕ)
    → j < 50
    → task_gpio_reset (100 * j) ls ≡ true
    → HasHold (replicate j true ++ ls)
unfolding task_gpio_reset
erased-HasHold [] j h e = cc
erased-HasHold (false ∷ ls) j h e =
    let (before, behind, same) = erased-HasHold ls 0 (omega arith) e in
    (
      replicate j true ++ (false ∷ before),
      behind,
      ap (λ z. replicate j true ++ (false ∷ z)) same
          ∙ sym (append_assoc (replicate j true) (false ∷ before) (replicate 50 true ++ behind)),
    )
erased-HasHold (true ∷ ls) j h e = elim (Bool-cases (suc j == 50)) [
  | inl full ↦
      let all : suc j ≡ 50 = (==_iff (suc j) 50).0 full in
      ([], ls, replicate-snoc j ls ∙ ap (λ k. replicate k true ++ ls) all)
  | inr part ↦
      let fewer : suc j < 50 = ground (arith, part, h) in
      let not_yet : leb 5000 (100 * j + 100) ≡ false = ground (arith, fewer) in
      let later : 100 * suc j ≡ 100 * j + 100 = omega arith in
      let (before, behind, same) = erased-HasHold ls (suc j) fewer (
        ap (λ t. task_gpio_reset t ls) later
        ∙ or_other (leb 5000 (100 * j + 100)) (task_gpio_reset (100 * j + 100) ls) not_yet e) in
      (before, behind, replicate-snoc j ls ∙ same)
]

held_long :
    (k held : ℕ) (ls : List Bool)
    → 0 < k
    → 5000 ≤ held + 100 * k
    → task_gpio_reset held (replicate k true ++ ls) ≡ true
unfolding task_gpio_reset
held_long zero held ls h e = absurd (omega arith)
held_long (suc zero) held ls h e =
    or_left (leb 5000 (held + 100)) (task_gpio_reset (held + 100) ls) (ground (arith, e))
held_long (suc (suc k)) held ls h e =
    or_right (leb 5000 (held + 100)) (task_gpio_reset (held + 100) (replicate (suc k) true ++ ls))
      (held_long (suc k) (held + 100) ls (omega arith) (omega (arith, e)))

hold_erases :
    (before ls : List Bool) (held : ℕ)
    → task_gpio_reset held (before ++ (replicate 50 true ++ ls)) ≡ true
unfolding task_gpio_reset
hold_erases [] ls held = held_long 50 held ls (omega arith) (omega arith)
hold_erases (true ∷ before) ls held =
    or_right (leb 5000 (held + 100)) _ (hold_erases before ls (held + 100))
hold_erases (false ∷ before) ls held = hold_erases before ls 0

-- The button calls for the erasure of the credentials and a restart if it is held for 50 polls of
-- 100 ms on end, whatever was before and however long it had been held, and from a start with the
-- button up only then.
pub task_gpio_reset_lem :
    (polls before behind : List Bool) (held : ℕ)
    → (task_gpio_reset held (before ++ (replicate 50 true ++ behind)) ≡ true)
      × (task_gpio_reset 0 polls ≡ true → HasHold polls)
task_gpio_reset_lem polls before behind held =
    (hold_erases before behind held, λ e. erased-HasHold polls 0 (omega arith) e)
