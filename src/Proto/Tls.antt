-- ===== src/Proto/Tls.antt =====
-- pkg/spoofdpi/internal/proto/tls.go: TLS records and the place of the server name in a Client
-- Hello. Bytes are numbers; an access out of range is the value `panic`, as it is in Go.
pub mod Bounds
pub mod Hello
pub mod Record
use proksitool.Base.{
  ℕ, zero, suc, ◌+◌, ◌*◌, ◌/◌, ◌%◌, Bool, not, ◌&&◌, List, [], ◌∷◌, ◌++◌, ltb, leb, ◌==◌,
  if◌then◌else◌, length, get_elem?, get_or, take, drop, Outcome, ok, err, out_of_fuel, ◌>>=◌,
  or_panic,
}

abbrev pub tls_max_payload_len : ℕ
tls_max_payload_len = 16384

abbrev pub tls_header_len : ℕ
tls_header_len = 5

abbrev pub tls_handshake : ℕ
tls_handshake = 0x16

pub record TlsHeader : Type 0 where
  pub kind : ℕ
  pub proto_version : ℕ
  pub payload_len : ℕ

-- `TLSMessage.kind`
pub data MessageKind : Type 0 where
  real fake : MessageKind

pub record TlsMessage : Type 0 where
  pub kind : MessageKind
  pub header : TlsHeader
  pub raw : List ℕ

-- What `errors.New` and `io.ReadFull` give.
pub data TlsError : Type 0 where
  eof unexpected_eof invalid_header : TlsError
  too_short not_handshake not_client_hello : TlsError
  too_short_after_random too_short_after_session_id : TlsError
  too_short_for_cipher_suites too_short_after_cipher_suites : TlsError
  too_short_for_compression too_short_after_compression : TlsError
  no_extensions extensions_overflow malformed_sni malformed_sni_length sni_not_found : TlsError

abbrev pub Read : Type 0 → Type 0
Read A = Outcome TlsError A

-- `binary.BigEndian.PutUint16`
abbrev pub put_uint16 : ℕ → List ℕ
put_uint16 n = (n / 256 % 256) ∷ (n % 256) ∷ []

-- `b[i]`
abbrev pub byte_at : List ℕ → ℕ → Read ℕ
byte_at raw i = or_panic (get_elem? raw i)

-- `binary.BigEndian.Uint16(b[i : i + 2])`
abbrev pub uint16_at : List ℕ → ℕ → Read ℕ
uint16_at raw i = do hi ← byte_at raw i; lo ← byte_at raw (i + 1); ok (hi * 256 + lo)

-- `TLSHeader.Bytes`
unfoldable pub header_bytes : TlsHeader → List ℕ
header_bytes h = (h.kind % 256) ∷ (put_uint16 h.proto_version ++ put_uint16 h.payload_len)

-- `io.ReadFull` for `n` bytes of a stream that ends: the bytes, and the stream after them.
unfoldable pub read_full : ℕ → List ℕ → Read (List ℕ × List ℕ)
read_full zero stream = ok ([], stream)
read_full (suc n) [] = err eof
read_full (suc n) (b ∷ stream) =
    if ltb (length stream) n then err unexpected_eof else ok (b ∷ take n stream, drop n stream)

unfoldable pub read_tls_message : List ℕ → Read (TlsMessage × List ℕ)
unfolding read_full
read_tls_message stream = do
  (raw_header, rest) ← read_full tls_header_len stream
  kind ← byte_at raw_header 0
  proto_version ← uint16_at raw_header 1
  payload_len ← uint16_at raw_header 3
  let header : TlsHeader = record {
    kind = kind;
    proto_version = proto_version;
    payload_len = payload_len;
  }
  if ltb tls_max_payload_len payload_len then err invalid_header else do
    (payload, after) ← read_full payload_len rest
    ok (record { kind = real; header = header; raw = raw_header ++ payload }, after)

-- Byte 5 is read only behind the test of the length, so its default is never taken.
unfoldable pub is_client_hello : TlsMessage → Bool
is_client_hello m =
    ltb tls_header_len (length m.raw)
    && (m.header.kind == tls_handshake && get_or m.raw 5 0 == 0x01)

-- `NewFakeTLSMessage`: the header keeps Go's zero value.
unfoldable pub new_fake_tls_message : List ℕ → TlsMessage
new_fake_tls_message raw = record {
  kind = fake;
  header = record { kind = 0; proto_version = 0; payload_len = 0 };
  raw = raw;
}

-- The branch for the SNI extension, whose body begins at `curr`.
unfoldable pub sni_at : List ℕ → ℕ → ℕ → Read (ℕ × ℕ)
sni_at raw curr ext_len = if ltb ext_len 5 then err malformed_sni else do
  name_len ← uint16_at raw (curr + 3)
  let real_start = curr + 5
  let real_end = real_start + name_len
  if ltb (curr + ext_len) real_end then err malformed_sni_length else ok (real_start, real_end)

-- What a round does with an extension whose body begins at `curr`; `next` goes on behind it.
unfoldable pub scan_extension : (ℕ → Read (ℕ × ℕ)) → List ℕ → ℕ → ℕ → ℕ → ℕ → Read (ℕ × ℕ)
unfolding sni_at
scan_extension next raw curr stop ext_type ext_len =
    if ltb stop (curr + ext_len)
    then err sni_not_found
    else if ext_type == 0
    then sni_at raw curr ext_len
    else next (curr + ext_len)

-- The loop over the extensions, from `curr` up to `stop`; a round goes four bytes on at least.
unfoldable pub find_sni : ℕ → List ℕ → ℕ → ℕ → Read (ℕ × ℕ)
unfolding scan_extension
find_sni zero raw curr stop = out_of_fuel
find_sni (suc fuel) raw curr stop =
    let round : Read (ℕ × ℕ) = do
      ext_type ← uint16_at raw curr
      ext_len ← uint16_at raw (curr + 2)
      scan_extension (λ c. find_sni fuel raw c stop) raw (curr + 4) stop ext_type ext_len
    in if ltb curr stop
      then if ltb stop (curr + 4) then err sni_not_found else round
      else err sni_not_found

-- The skips over compression methods, and the extensions: `curr` stands at the compression length.
unfoldable pub after_cipher_suites : List ℕ → ℕ → Read (ℕ × ℕ)
unfolding find_sni
after_cipher_suites raw curr =
    if ltb (length raw) (curr + 1) then err too_short_for_compression else do
      compression_len ← byte_at raw curr
      let at = curr + (1 + compression_len)
      if leb (length raw) at
          then err too_short_after_compression
          else if ltb (length raw) (at + 2)
          then err no_extensions
          else do
            extensions_len ← uint16_at raw at
            let stop = at + 2 + extensions_len
            if ltb (length raw) stop
                then err extensions_overflow
                else find_sni (length raw) raw (at + 2) stop

-- The skips over the session id and the cipher suites: `curr` stands at the session id's length.
unfoldable pub after_random : List ℕ → ℕ → Read (ℕ × ℕ)
unfolding after_cipher_suites
after_random raw curr = if leb (length raw) curr then err too_short_after_random else do
  session_id_len ← byte_at raw curr
  let at = curr + (1 + session_id_len)
  if leb (length raw) at
      then err too_short_after_session_id
      else if ltb (length raw) (at + 2)
      then err too_short_for_cipher_suites
      else do
        cipher_suites_len ← uint16_at raw at
        let next = at + (2 + cipher_suites_len)
        if leb (length raw) next
            then err too_short_after_cipher_suites
            else after_cipher_suites raw next

-- `ExtractSNIOffset`: 5 bytes of record header, 4 of handshake header, 34 of version and random.
unfoldable pub extract_sni_offset : List ℕ → Read (ℕ × ℕ)
unfolding after_random
extract_sni_offset raw = if ltb (length raw) 43 then err too_short else do
  content_type ← byte_at raw 0
  if not (content_type == 0x16) then err not_handshake else do
    handshake_type ← byte_at raw 5
    if not (handshake_type == 0x01) then err not_client_hello else after_random raw 43
