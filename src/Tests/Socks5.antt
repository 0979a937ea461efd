-- ===== src/Tests/Socks5.antt =====
-- pkg/spoofdpi/internal/proto/socks5.go on a request for a domain and a reply.
use proksitool.Base.{
  ℕ, ◌≡◌, refl, List, [], ◌∷◌, Option, some, none, arith, ok, err, length, ◌==◌, if◌then◌else◌,
}
use proksitool.Proto.Socks5.{
  Reply, read_socks5_request, read_full, unsupported_atyp, read_body, read_address,
}
use proksitool.Proto.Socks5.Roundtrip.{fqdn, read_socks5_request-bytes}

unknown_type : read_socks5_request (5 ∷ 1 ∷ 0 ∷ 9 ∷ []) ≡ err (unsupported_atyp 9)
unfolding read_socks5_request read_full read_body read_address
unknown_type = refl

read_socks5_request-bytes_example :
    read_socks5_request (5 ∷ 1 ∷ 0 ∷ 3 ∷ 2 ∷ b't' ∷ b'r' ∷ 1 ∷ 187 ∷ 99 ∷ [])
    ≡ ok (record { cmd = 1; atyp = 3; fqdn = b't' ∷ b'r' ∷ []; ip = []; port = 443 }, 99 ∷ [])
read_socks5_request-bytes_example =
    read_socks5_request-bytes 1 0 443 (fqdn (b't' ∷ b'r' ∷ []) (omega arith)) (99 ∷ [])
      (omega arith)

-- To4 on addresses of four bytes.
abbrev four_bytes : List ℕ → Option (List ℕ)
four_bytes ip = if length ip == 4 then some ip else none

length-four_bytes : (ip ip4 : List ℕ) → four_bytes ip ≡ some ip4 → length ip4 ≡ 4
length-four_bytes ip ip4 e = ground arith

abbrev reply : Reply
reply = record { rep = 0; bind_ip = 10 ∷ 0 ∷ 0 ∷ 1 ∷ []; bind_port = 65616 }
