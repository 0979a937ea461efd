-- ===== src/Proto/Socks5.antt =====
-- pkg/spoofdpi/internal/proto/socks5.go. A connection is the bytes that are still to be read from it.
pub mod Roundtrip
use proksitool.Base.{
  ℕ, ◌+◌, ◌*◌, ◌/◌, ◌%◌, Bool, not, ◌==◌, List, [], ◌∷◌, ◌++◌, Option, none, some, ltb, length,
  take, drop, get_or, replicate, if◌then◌else◌, Outcome, ok, err, ◌>>=◌,
}

abbrev pub socks_version : ℕ
socks_version = 5

abbrev pub addr_type_ipv4 : ℕ
addr_type_ipv4 = 1

abbrev pub addr_type_fqdn : ℕ
addr_type_fqdn = 3

abbrev pub addr_type_ipv6 : ℕ
addr_type_ipv6 = 4

-- `SOCKS5Request`; a nil IP and an empty domain are `[]`.
pub record Request : Type 0 where
  pub cmd : ℕ
  pub atyp : ℕ
  pub fqdn : List ℕ
  pub ip : List ℕ
  pub port : ℕ

pub data SocksError : Type 0 where
  short_read : SocksError
  version_mismatch : ℕ → SocksError
  unsupported_atyp : ℕ → SocksError

-- `io.ReadFull`: what was read, and what is left.
unfoldable pub read_full : ℕ → List ℕ → Outcome SocksError (List ℕ × List ℕ)
read_full n s = if ltb (length s) n then err short_read else ok (take n s, drop n s)

unfoldable pub read_ip : ℕ → List ℕ → Outcome SocksError (List ℕ × List ℕ × List ℕ)
read_ip n s = do (ip, rest) ← read_full n s; ok ([], ip, rest)

unfoldable pub read_fqdn : List ℕ → Outcome SocksError (List ℕ × List ℕ × List ℕ)
read_fqdn s = do
  (len, rest) ← read_full 1 s
  (domain, rest) ← read_full (get_or len 0 0) rest
  ok (domain, [], rest)

-- The `switch` on the type of the address: the domain, the IP, and what is left.
unfoldable pub read_address : ℕ → List ℕ → Outcome SocksError (List ℕ × List ℕ × List ℕ)
read_address atyp s =
    if atyp == addr_type_ipv4
    then read_ip 4 s
    else if atyp == addr_type_fqdn
    then read_fqdn s
    else if atyp == addr_type_ipv6
    then read_ip 16 s
    else err (unsupported_atyp atyp)

unfoldable pub big_endian16 : List ℕ → ℕ
big_endian16 b = get_or b 0 0 * 256 + get_or b 1 0

-- The request after its header.
unfoldable pub read_body : ℕ → ℕ → List ℕ → Outcome SocksError (Request × List ℕ)
read_body cmd atyp s = do
  (domain, ip, rest) ← read_address atyp s
  (port, rest) ← read_full 2 rest
  ok (record { cmd = cmd; atyp = atyp; fqdn = domain; ip = ip; port = big_endian16 port }, rest)

unfoldable pub read_socks5_request : List ℕ → Outcome SocksError (Request × List ℕ)
read_socks5_request s = do
  (header, rest) ← read_full 4 s
  if not (get_or header 0 0 == socks_version)
      then err (version_mismatch (get_or header 0 0))
      else read_body (get_or header 1 0) (get_or header 3 0) rest

-- `SOCKS5Reply`.
pub record Reply : Type 0 where
  pub rep : ℕ
  pub bind_ip : List ℕ
  pub bind_port : ℕ

-- `net.IPv4zero` has the 16 bytes of a mapped address.
abbrev pub ipv4_zero : List ℕ
ipv4_zero = replicate 10 0 ++ (255 ∷ 255 ∷ 0 ∷ 0 ∷ 0 ∷ 0 ∷ [])

unfoldable pub new_reply : ℕ → Reply
new_reply rep = record { rep = rep; bind_ip = ipv4_zero; bind_port = 0 }

-- A nil address is `none`.
unfoldable pub bind : Option (List ℕ) → Reply → Reply
bind none r = r
bind (some ip) r = record r { bind_ip = ip }

unfoldable pub with_port : ℕ → Reply → Reply
with_port port r = record r { bind_port = port }

-- An address without an IPv4 form is written as zeros.
abbrev pub or_zeros : Option (List ℕ) → List ℕ
or_zeros none = replicate 4 0
or_zeros (some ip4) = ip4

-- `to4` is To4 of `net.IP`.
unfoldable pub reply_bytes : (List ℕ → Option (List ℕ)) → Reply → List ℕ
reply_bytes to4 r =
    (socks_version ∷ Reply.rep r ∷ 0 ∷ addr_type_ipv4 ∷ [])
    ++ or_zeros (to4 (Reply.bind_ip r))
    ++ (Reply.bind_port r / 256 % 256 ∷ Reply.bind_port r % 256 ∷ [])
