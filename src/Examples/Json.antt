-- ===== src/Examples/Json.antt =====
-- Runs of main/json_buf.h.
use zhac_net_core.Base.{ℕ, refl, true, [], ◌∷◌, length, arith}
use zhac_net_core.Json.Utf8.{Bytes}
use zhac_net_core.Json.Writer.{JsonWriter, raw, ch}
use zhac_net_core.Json.Writer.Bounded.{IsValid, Appends, appends}
use zhac_net_core.Json.Writer.Sanitized.{IsWritten, str-IsText}

-- A name cut in the middle of a character.
abbrev cut_name : Bytes
cut_name = b'a' ∷ 0xE2 ∷ 0x82 ∷ []

abbrev room : Bytes
room = 0 ∷ 0 ∷ 0 ∷ 0 ∷ 0 ∷ 0 ∷ 0 ∷ 0 ∷ 0 ∷ 0 ∷ 0 ∷ 0 ∷ 0 ∷ 0 ∷ 0 ∷ 0 ∷ []

abbrev writer : JsonWriter
writer = record { buf = room; cap = 16; pos = 0; ok = true }

writer-IsValid : IsValid writer
writer-IsValid = record { inside = omega arith; bounded = omega arith }

appends_example :
    ((s : Bytes) → Appends writer s (length s) (raw writer s))
    × ((c : ℕ) → Appends writer (c ∷ []) 1 (ch writer c))
appends_example = appends writer writer-IsValid refl

str-IsText_example : (out : Bytes) × IsWritten writer cut_name 3 out
str-IsText_example = str-IsText writer cut_name 3 writer-IsValid refl
