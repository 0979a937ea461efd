-- ===== src/Dnscrypt/Framing.antt =====
-- pkg/dnscrypt/common.go: PrefixWithSize and ReadPrefixed. A connection is what its Reads give, one
-- after another, and then an error; a Read gives no more than fits in the buffer that is left.
pub mod Streams
use proksitool.Base.{
  ℕ, ◌+◌, ◌-◌, ◌*◌, ◌/◌, ◌%◌, List, [], ◌∷◌, ◌++◌, Option, none, some, ltb, leb, length, take, drop,
  if◌then◌else◌, Outcome, ok, err, ◌>>=◌,
}

pub data FrameError : Type 0 where
  too_large : FrameError
  too_short : FrameError
  read_failed : FrameError

abbrev pub max_dns_packet_size : ℕ
max_dns_packet_size = 4096

abbrev pub min_dns_packet_size : ℕ
min_dns_packet_size = 17

-- `binary.BigEndian.PutUint16(…, uint16(n))`.
unfoldable pub size_bytes : ℕ → List ℕ
size_bytes n = n / 256 % 256 ∷ n % 256 ∷ []

unfoldable pub prefix_with_size : List ℕ → Outcome FrameError (List ℕ)
unfolding size_bytes
prefix_with_size packet =
    if ltb 65535 (length packet) then err too_large else ok (size_bytes (length packet) ++ packet)

-- `binary.BigEndian.Uint16(buf[0:2])`, where there are two bytes.
unfoldable pub size_at : List ℕ → ℕ
size_at (x ∷ y ∷ t) = 256 * x + y
size_at _ = 0

-- The packet length after a Read, `none` for -1.
unfoldable pub packet_length : Option ℕ → List ℕ → Outcome FrameError (Option ℕ)
packet_length (some n) buf = ok (some n)
packet_length none buf =
    if leb 2 (length buf)
    then if ltb (max_dns_packet_size - 1) (size_at buf)
      then err too_large
      else if ltb (size_at buf) min_dns_packet_size
      then err too_short
      else ok (some (size_at buf))
    else ok none

-- Whether the packet is complete, and else what the next rounds give.
unfoldable pub finish :
    Option ℕ → List ℕ → Outcome FrameError (List ℕ) → Outcome FrameError (List ℕ)
finish none buf rest = rest
finish (some n) buf rest = if leb (2 + n) (length buf) then ok (take n (drop 2 buf)) else rest

-- The loop: the length, the bytes read so far, and the Reads to come.
unfoldable pub read_loop : Option ℕ → List ℕ → List (List ℕ) → Outcome FrameError (List ℕ)
read_loop size buf [] = err read_failed
read_loop size buf (c ∷ conn) = do
  known ← packet_length size (buf ++ c)
  finish known (buf ++ c) (read_loop known (buf ++ c) conn)

unfoldable pub read_prefixed : List (List ℕ) → Outcome FrameError (List ℕ)
read_prefixed conn = read_loop none [] conn
