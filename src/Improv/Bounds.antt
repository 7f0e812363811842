-- ===== src/Improv/Bounds.antt =====
-- Where the receiver of main/improv_proto.h reads and writes.
use zhac_net_core.Base.{ℕ, ◌≤◌, ◌<◌, ◌≡◌, arith, length, set, All, length-set, All-set, All-get_or}
use zhac_net_core.Improv.{Parser, store, total, feed_header, feed_complete, feed_stored, feed}

abbrev IsByte : ℕ → Type 0
IsByte b = b < 256

pub record IsValid (p : Parser) : Type 0 where
  pub room : length p.buf ≡ 265
  pub bytes : All (λ b. b < 256) p.buf
  pub fits : 8 < p.n → p.n < total p

total-le : (p : Parser) → All IsByte p.buf → total p ≤ 265
total-le p h = omega (arith, All-get_or IsByte p.buf 8 0 h (omega arith))

n-lt : (p : Parser) → IsValid p → p.n < 265
n-lt p v = grind (arith, total-le p v.bytes, v.fits)

-- Whatever byte arrives, a valid parser stays valid; and a valid parser is about to write inside its
-- buffer, and reads no further than its end when it sums a packet.
pub feed-IsValid :
    (p : Parser) (b : ℕ)
    → b < 256
    → IsValid p
    → IsValid (feed p b).0 × (p.n < length p.buf) × (total (feed p b).0 ≤ length p.buf)
unfolding feed feed_header feed_stored feed_complete store
feed-IsValid p b small v = ground (
  arith,
  n-lt p v,
  length-set p.buf p.n b,
  length-set p.buf 0 b,
  All-set IsByte p.buf p.n b v.bytes small,
  All-set IsByte p.buf 0 b v.bytes small,
  total-le p v.bytes,
  All-get_or IsByte (set p.buf p.n b) 8 0,
  All-get_or IsByte (set p.buf 0 b) 8 0,
)
