-- ===== src/Proto/Tls/Hello/Layout.antt =====
-- The layout of a Client Hello, as RFC 8446 and RFC 6066 give it, which pkg/spoofdpi/internal/proto/tls.go
-- reads.
use proksitool.Base.{ℕ, ◌+◌, ◌<◌, ◌≡◌, ◌≢◌, List, [], ◌∷◌, ◌++◌, length, get_elem?, All, some}
use proksitool.Proto.Tls.{put_uint16}

-- An extension is its type and its body.
abbrev pub Extension : Type 0
Extension = ℕ × List ℕ

abbrev pub encode_extension : Extension → List ℕ
encode_extension (t, body) = put_uint16 t ++ (put_uint16 (length body) ++ body)

abbrev pub encode_all : List Extension → List ℕ
encode_all [] = []
encode_all (x ∷ xs) = encode_extension x ++ encode_all xs

-- The body of the server name extension: a list with one name of type 0.
abbrev pub server_name : List ℕ → List ℕ
server_name name = put_uint16 (length name + 3) ++ (0 ∷ (put_uint16 (length name) ++ name))

pub record ClientHello : Type 0 where
  pub opening : List ℕ
  pub session_id : List ℕ
  pub cipher_suites : List ℕ
  pub compression : List ℕ
  pub before : List Extension
  pub name : List ℕ
  pub after : List Extension

abbrev pub extensions : ClientHello → List ℕ
extensions h =
    encode_all h.before ++ (encode_extension (0, server_name h.name) ++ encode_all h.after)

-- The parts of the message from the compression methods on, and from the cipher suites on.
abbrev pub from_compression : ClientHello → List ℕ
from_compression h =
    length h.compression ∷ (h.compression ++ (put_uint16 (length (extensions h)) ++ extensions h))

abbrev pub from_suites : ClientHello → List ℕ
from_suites h = put_uint16 (length h.cipher_suites) ++ (h.cipher_suites ++ from_compression h)

abbrev pub layout : ClientHello → List ℕ
layout h = h.opening ++ (length h.session_id ∷ (h.session_id ++ from_suites h))

-- An extension before the server name has another type, and lengths fit their fields.
abbrev pub IsOther : Extension → Type 0
IsOther (t, body) = (t ≢ 0) × (t < 65536) × (length body < 65536)

pub record IsWellFormed (h : ClientHello) : Type 0 where
  pub opens : length h.opening ≡ 43
  pub handshake : get_elem? h.opening 0 ≡ some 0x16
  pub client_hello : get_elem? h.opening 5 ≡ some 0x01
  pub suites_fit : length h.cipher_suites < 65536
  pub others : All IsOther h.before
  pub name_fits : length h.name < 65531
  pub extensions_fit : length (extensions h) < 65536
