-- ===== src/Tests/Hello.antt =====
-- pkg/spoofdpi/internal/proto/tls.go at a Client Hello for "a.io".
use proksitool.Base.{
  ℕ, ◌+◌, ◌≡◌, refl, [], ◌∷◌, ◌++◌, take, drop, replicate, arith, ok, err, Returns,
}
use proksitool.Proto.Tls.{
  TlsHeader, real, header_bytes, read_tls_message, extract_sni_offset, not_handshake,
}
use proksitool.Proto.Tls.Bounds.{InBounds, extract_sni_offset-Returns}
use proksitool.Proto.Tls.Hello.{ClientHello, IsWellFormed, layout, extract_sni_offset-layout}
use proksitool.Proto.Tls.Record.{read_tls_message-header_bytes, Reads, read_tls_message-Reads}

abbrev pub greeting : ClientHello
greeting = record {
  opening = 0x16 ∷ 3 ∷ 1 ∷ 0 ∷ 80 ∷ 0x01 ∷ replicate 37 7;
  session_id = 9 ∷ 9 ∷ [];
  cipher_suites = 0x13 ∷ 0x01 ∷ [];
  compression = 0 ∷ [];
  before = (10, 1 ∷ 2 ∷ []) ∷ [];
  name = b'a' ∷ b'.' ∷ b'i' ∷ b'o' ∷ [];
  after = (16, 5 ∷ []) ∷ [];
}

pub greeting-IsWellFormed : IsWellFormed greeting
greeting-IsWellFormed = record {
  opens = refl;
  handshake = refl;
  client_hello = refl;
  suites_fit = omega arith;
  others = omega arith;
  name_fits = omega arith;
  extensions_fit = omega arith;
}

greeting_offsets : extract_sni_offset (layout greeting) ≡ ok (69, 73)
unfolding extract_sni_offset
greeting_offsets = refl

no_handshake : extract_sni_offset (replicate 50 0) ≡ err not_handshake
unfolding extract_sni_offset
no_handshake = refl

extract_sni_offset-Returns_example :
    Returns (InBounds (layout greeting)) (extract_sni_offset (layout greeting))
extract_sni_offset-Returns_example = extract_sni_offset-Returns (layout greeting)

extract_sni_offset-layout_example :
    (s : ℕ) × (extract_sni_offset (layout greeting) ≡ ok (s, s + 4))
    × (take 4 (drop s (layout greeting)) ≡ greeting.name)
extract_sni_offset-layout_example = extract_sni_offset-layout greeting greeting-IsWellFormed

abbrev header : TlsHeader
header = record { kind = 0x16; proto_version = 0x0303; payload_len = 3 }

abbrev large : TlsHeader
large = record { kind = 0x16; proto_version = 0x0303; payload_len = 16385 }

read_tls_message-header_bytes_example :
    read_tls_message (header_bytes header ++ ((1 ∷ 2 ∷ 3 ∷ []) ++ (4 ∷ [])))
    ≡ ok (
      record { kind = real; header = header; raw = header_bytes header ++ (1 ∷ 2 ∷ 3 ∷ []) },
      4 ∷ [],
    )
read_tls_message-header_bytes_example =
    read_tls_message-header_bytes header (1 ∷ 2 ∷ 3 ∷ []) (4 ∷ []) (omega arith) refl (omega arith)

read_tls_message-Reads_example :
    Reads (header_bytes large ++ (4 ∷ [])) (read_tls_message (header_bytes large ++ (4 ∷ [])))
read_tls_message-Reads_example = read_tls_message-Reads (header_bytes large ++ (4 ∷ []))
