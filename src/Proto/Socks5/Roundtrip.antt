-- ===== src/Proto/Socks5/Roundtrip.antt =====
-- pkg/spoofdpi/internal/proto/socks5.go: requests are read as RFC 1928 writes them.
use proksitool.Base.{
  ℕ, ◌/◌, ◌%◌, ◌<◌, ◌≡◌, refl, sym, ap, List, [], ◌∷◌, ◌++◌, Option, none, some, length, ok, le→ltb,
  arith, length-append, take-append, drop-append,
}
use proksitool.Proto.Socks5.{
  read_full, read_address, big_endian16, read_socks5_request, Reply, reply_bytes, socks_version,
  or_zeros, read_body, read_ip, read_fqdn, addr_type_ipv4, addr_type_fqdn, addr_type_ipv6,
}

read_full-append : (xs ys : List ℕ) (n : ℕ) → length xs ≡ n → read_full n (xs ++ ys) ≡ ok (xs, ys)
unfolding read_full
read_full-append xs ys n e =
    rw
      (
        sym e,
        le→ltb (length (xs ++ ys)) (length xs) (omega (arith, length-append xs ys)),
        take-append xs ys,
        drop-append xs ys,
      )
      refl

-- An address as it stands in a request, by its type.
pub data Address : Type 0 where
  ipv4 : (ip : List ℕ) → length ip ≡ 4 → Address
  fqdn : (domain : List ℕ) → length domain < 256 → Address
  ipv6 : (ip : List ℕ) → length ip ≡ 16 → Address

abbrev pub address_type : Address → ℕ
address_type (ipv4 ip e) = addr_type_ipv4
address_type (fqdn domain e) = addr_type_fqdn
address_type (ipv6 ip e) = addr_type_ipv6

abbrev pub address_bytes : Address → List ℕ
address_bytes (ipv4 ip e) = ip
address_bytes (fqdn domain e) = length domain ∷ domain
address_bytes (ipv6 ip e) = ip

abbrev pub ip_of : Address → List ℕ
ip_of (ipv4 ip e) = ip
ip_of (fqdn domain e) = []
ip_of (ipv6 ip e) = ip

abbrev pub fqdn_of : Address → List ℕ
fqdn_of (ipv4 ip e) = []
fqdn_of (fqdn domain e) = domain
fqdn_of (ipv6 ip e) = []

read_address-bytes :
    (a : Address) (rest : List ℕ)
    → read_address (address_type a) (address_bytes a ++ rest) ≡ ok (fqdn_of a, ip_of a, rest)
unfolding read_address read_ip read_fqdn
read_address-bytes (ipv4 ip e) rest = rw (read_full-append ip rest 4 e) refl
read_address-bytes (fqdn domain e) rest =
    rw
      (
        read_full-append (length domain ∷ []) (domain ++ rest) 1 refl,
        read_full-append domain rest (length domain) refl,
      )
      refl
read_address-bytes (ipv6 ip e) rest = rw (read_full-append ip rest 16 e) refl

-- A request of any command, any address (a domain of less than 256 bytes) and a port below 65536,
-- written as RFC 1928 lays it out, is read back as it was written, and the reader stops where the
-- request ends.
pub read_socks5_request-bytes :
    (cmd reserved port : ℕ) (a : Address) (rest : List ℕ)
    → port < 65536
    → read_socks5_request (
        socks_version
        ∷ cmd
        ∷ reserved
        ∷ address_type a
        ∷ (address_bytes a ++ (port / 256 ∷ port % 256 ∷ rest)))
      ≡ ok (
        record { cmd = cmd; atyp = address_type a; fqdn = fqdn_of a; ip = ip_of a; port = port },
        rest,
      )
unfolding read_socks5_request read_body big_endian16
read_socks5_request-bytes cmd reserved port a rest h =
    rw
      (
        read_full-append (socks_version ∷ cmd ∷ reserved ∷ address_type a ∷ [])
            (address_bytes a ++ (port / 256 ∷ port % 256 ∷ rest)) 4 refl,
        read_address-bytes a (port / 256 ∷ port % 256 ∷ rest),
        read_full-append (port / 256 ∷ port % 256 ∷ []) rest 2 refl,
      )
      (ap
        (λ p. ok (
          record { cmd = cmd; atyp = address_type a; fqdn = fqdn_of a; ip = ip_of a; port = p },
          rest,
        ))
        (omega (arith, h)))

length-or_zeros :
    (o : Option (List ℕ))
    → ((ip4 : List ℕ) → o ≡ some ip4 → length ip4 ≡ 4)
    → length (or_zeros o) ≡ 4
length-or_zeros none h = refl
length-or_zeros (some ip4) h = h ip4 refl

-- If an IPv4 form has four bytes, then what Write sends for a reply is, read as a request, the
-- reply's code, its address if that has an IPv4 form and 0.0.0.0 if not, and its port modulo 65536.
pub reply_bytes-read :
    (to4 : List ℕ → Option (List ℕ))
    (to4_length : (ip ip4 : List ℕ) → to4 ip ≡ some ip4 → length ip4 ≡ 4) (r : Reply)
    → read_socks5_request (reply_bytes to4 r)
      ≡ ok (
        record {
          cmd = Reply.rep r;
          atyp = addr_type_ipv4;
          fqdn = [];
          ip = or_zeros (to4 (Reply.bind_ip r));
          port = Reply.bind_port r % 65536;
        },
        [],
      )
unfolding reply_bytes
reply_bytes-read to4 to4_length r =
    let hi : Reply.bind_port r / 256 % 256 ≡ Reply.bind_port r % 65536 / 256 = omega arith in
    let lo : Reply.bind_port r % 256 ≡ Reply.bind_port r % 65536 % 256 = omega arith in
    let four = length-or_zeros (to4 (Reply.bind_ip r)) (to4_length (Reply.bind_ip r)) in
    rw (hi, lo)
      (read_socks5_request-bytes (Reply.rep r) 0 (Reply.bind_port r % 65536)
        (ipv4 (or_zeros (to4 (Reply.bind_ip r))) four) [] (omega arith))
