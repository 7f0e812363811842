-- ===== src/Examples/Improv.antt =====
-- Runs of main/improv_proto.h, on the inputs of test/host/test_improv_proto.cpp and others like them.
use zhac_net_core.Base.{
  ◌+◌, ◌≤◌, ◌<◌, ◌≡◌, refl, false, [], ◌∷◌, ◌++◌, arith, length, set, replicate,
}
use zhac_net_core.Improv.{Bytes, Parser, feed, frame, receive, handled, rejected, total}
use zhac_net_core.Improv.RoundTrip.{IsIdle, receive-frame, receive-corrupted}
use zhac_net_core.Improv.Bounds.{IsValid, feed-IsValid}

abbrev blank : Parser
blank = record { buf = replicate 265 0; n = 0; bad_checksum = false }

blank-IsIdle : IsIdle blank
blank-IsIdle = record { empty = refl; room = refl }

abbrev scan_request : Bytes
scan_request = 4 ∷ 0 ∷ []

-- Wi-Fi off, a log line, then a scan request.
abbrev log_line : Bytes
log_line = b'o' ∷ b'k' ∷ b'\n' ∷ []

receive-frame_example :
    (q : Parser) × IsIdle q
    × (receive blank (log_line ++ (frame 3 scan_request 2 ++ []))
        ≡ handled (3, scan_request) ∷ receive q [])
receive-frame_example =
    receive-frame 3 scan_request log_line [] blank (omega arith) (omega arith) blank-IsIdle

receive-corrupted_example :
    (q : Parser) × IsIdle q
    × (receive blank (set (frame 3 scan_request 2) (10 + 1) 9 ++ []) ≡ rejected ∷ receive q [])
receive-corrupted_example =
    receive-corrupted 3 scan_request [] 1 9 blank (omega arith) (omega arith) (omega arith)
      (omega arith) (λ e. omega arith) blank-IsIdle

blank-IsValid : IsValid blank
blank-IsValid = record { room = refl; bytes = omega arith; fits = λ h. omega arith }

feed-IsValid_example :
    IsValid (feed blank 73).0
    × (blank.n < length blank.buf)
    × (total (feed blank 73).0 ≤ length blank.buf)
feed-IsValid_example = feed-IsValid blank 73 (omega arith) blank-IsValid
