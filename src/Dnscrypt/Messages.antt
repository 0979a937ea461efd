-- ===== src/Dnscrypt/Messages.antt =====
-- pkg/dnscrypt/crypto.go: Encrypt and Decrypt. A draw of crypto_rand is
-- `none` where it fails.
pub mod Queries
pub mod Parts
pub mod Control
pub mod Responses
use proksitool.Base.{
  ℕ, ◌+◌, ◌*◌, ◌/◌, ◌%◌, ◌-◌, Bool, true, false, not, ◌&&◌, ◌||◌, ◌==◌, List, [], ◌∷◌, ◌++◌, Option,
  none, some, ltb, leb, length, get_or, take, drop, replicate, if◌then◌else◌, Outcome, ok, err,
  panic, out_of_fuel, ◌>>=◌, max, min,
}
use proksitool.Trie.Domain.{name_eq}
use proksitool.Dnscrypt.Keys.{
  Construction, undefined, xsalsa20_poly1305, xchacha20_poly1305, xwing_pq, Exchange,
  compute_shared_key,
}
use proksitool.Dnscrypt.Padding.{PadError, pad, unpad}
use proksitool.Dnscrypt.Certs.{slice_at, is_pq}
use proksitool.Dnscrypt.Resumption.{
  Kdf, Resumption, ControlError, pq_strip_control, Sealing, PqServer, Query, encrypt_pq,
}

-- An authenticated cipher, by nonce, key and message; `open` gives `none` for a wrong tag.
pub record Box : Type 0 where
  pub seal : List ℕ → List ℕ → List ℕ → List ℕ
  pub open_box : List ℕ → List ℕ → List ℕ → Option (List ℕ)

-- `xsecretbox` and `secretbox`.
pub record Boxes : Type 0 where
  pub xchacha : Box
  pub xsalsa : Box

pub data Proto : Type 0 where
  udp : Proto
  tcp : Proto
  other_proto : Proto

pub data MessageError : Type 0 where
  no_random : MessageError
  not_encapsulated : MessageError
  question_too_large : MessageError
  invalid_size_or_prefix : MessageError
  unexpected_nonce : MessageError
  open_failed : MessageError
  bad_control : MessageError
  incorrect_padding : MessageError

-- ClientMagicLen + PublicKeySize + HalfNonceSize + TagSize
abbrev pub query_overhead : ℕ
query_overhead = 68

-- SHA-512/256 and the multiplication of the base point.
pub record KeyTools : Type 0 where
  pub hash : List ℕ → List ℕ
  pub base_mult : List ℕ → List ℕ
  pub exchange : Exchange

-- The fields of Proxy that Encrypt reads.
pub record Client : Type 0 where
  pub secret_key : List ℕ
  pub public_key : List ℕ
  pub ephemeral_keys : Bool
  pub min_question_size : ℕ

-- The fields of ServerInfo that Encrypt reads.
pub record Target : Type 0 where
  pub construction : Construction
  pub magic_query : List ℕ
  pub server_pk : List ℕ
  pub shared_key : List ℕ
  pub fragments_blocked : Bool
  pub has_relay : Bool

pub record KeyPair : Type 0 where
  pub public_key : List ℕ
  pub shared_key : List ℕ

-- The keys of a query: derived from its nonce, or those that are stored.
unfoldable pub query_keys : KeyTools → List ℕ → Client → Target → List ℕ → KeyPair
query_keys tools draw client target nonce =
    if client.ephemeral_keys
    then record {
      public_key = tools.base_mult (tools.hash (nonce ++ client.secret_key));
      shared_key =
          compute_shared_key tools.exchange draw target.construction
            (tools.hash (nonce ++ client.secret_key)) target.server_pk;
    }
    else record { public_key = client.public_key; shared_key = target.shared_key }

-- `minQuestionSize`
unfoldable pub question_size : Client → Proto → Option ℕ → ℕ → Outcome MessageError ℕ
question_size client udp xpad n = ok (max client.min_question_size (query_overhead + n))
question_size client tcp none n = err no_random
question_size client tcp (some x) n = ok (query_overhead + n + x)
question_size client other_proto none n = err no_random
question_size client other_proto (some x) n = ok (query_overhead + n + x)

unfoldable pub is_udp : Proto → Bool
is_udp udp = true
is_udp _ = false

unfoldable pub is_tcp : Proto → Bool
is_tcp tcp = true
is_tcp _ = false

unfoldable pub padded_length : Target → Proto → ℕ → ℕ
padded_length target proto size =
    if target.fragments_blocked && is_udp proto
    then 1252
    else if target.has_relay && is_tcp proto
    then 4096
    else min 4096 ((max size query_overhead + 1 + 63) / 64 * 64)

unfoldable pub box_of : Boxes → Construction → Box
box_of boxes xchacha20_poly1305 = boxes.xchacha
box_of boxes _ = boxes.xsalsa

-- The end of Encrypt.
unfoldable pub seal_query :
    Boxes → KeyPair → Target → List ℕ → List ℕ → ℕ → Outcome MessageError (List ℕ)
seal_query boxes keys target nonce packet total =
    if ltb total (query_overhead + length packet + 1)
    then err question_too_large
    else ok (
        target.magic_query
        ++ keys.public_key
        ++ nonce
        ++ (box_of boxes target.construction).seal (nonce ++ replicate 12 0) keys.shared_key
            (pad packet (total - query_overhead)))

unfoldable pub or_no_random : {A : Type 0} → Option A → Outcome MessageError A
or_no_random none = err no_random
or_no_random (some a) = ok a

-- Encrypt from the draw of the nonce on, with a classic construction.
unfoldable pub encrypt_classic :
    Boxes
    → KeyTools
    → List ℕ
    → Client
    → Target
    → Proto
    → Option (List ℕ)
    → Option ℕ
    → List ℕ
    → Outcome MessageError (List ℕ)
encrypt_classic boxes tools draw client target proto nonce_draw xpad packet = do
  nonce ← or_no_random nonce_draw
  size ← question_size client proto xpad (length packet)
  seal_query boxes (query_keys tools draw client target nonce) target nonce packet
      (padded_length target proto size)

unfoldable pub query_bytes : Resumption × Option Query → Resumption × Outcome MessageError (List ℕ)
query_bytes (s, none) = (s, err not_encapsulated)
query_bytes (s, some q) = (s, ok q.bytes)

-- What the construction XWingPQ needs beside the rest, and the time and the epoch of the network.
pub record PqTools : Type 0 where
  pub kdf : Kdf
  pub sealing : Sealing
  pub server : PqServer
  pub now : ℕ
  pub current : ℕ

-- The draw of the nonce, and encryptPQ.
unfoldable pub encrypt_resuming :
    PqTools → Option (List ℕ) → List ℕ → Resumption → Resumption × Outcome MessageError (List ℕ)
unfolding query_bytes
encrypt_resuming pq none packet s = (s, err no_random)
encrypt_resuming pq (some nonce) packet s =
    query_bytes (encrypt_pq pq.kdf pq.sealing pq.server nonce packet pq.now pq.current s)

unfoldable pub encrypt :
    Boxes
    → KeyTools
    → PqTools
    → List ℕ
    → Client
    → Target
    → Proto
    → Option (List ℕ)
    → Option ℕ
    → List ℕ
    → Resumption
    → Resumption × Outcome MessageError (List ℕ)
unfolding is_pq
encrypt boxes tools pq draw client target proto nonce_draw xpad packet s =
    if is_pq target.construction
    then encrypt_resuming pq nonce_draw packet s
    else (s, encrypt_classic boxes tools draw client target proto nonce_draw xpad packet)

abbrev pub server_magic : List ℕ
server_magic = 114 ∷ 54 ∷ 102 ∷ 110 ∷ 118 ∷ 87 ∷ 106 ∷ 56 ∷ []

-- XWingPQ opens with the cipher of XChacha20Poly1305.
unfoldable pub response_box : Boxes → Construction → Box
response_box boxes xchacha20_poly1305 = boxes.xchacha
response_box boxes xwing_pq = boxes.xchacha
response_box boxes _ = boxes.xsalsa

-- The end of Decrypt.
unfoldable pub from_unpad : Outcome PadError (List ℕ) → Outcome MessageError (List ℕ)
from_unpad (ok packet) = if ltb (length packet) 17 then err incorrect_padding else ok packet
from_unpad (err e) = err incorrect_padding
from_unpad panic = panic
from_unpad out_of_fuel = out_of_fuel

unfoldable pub unpad_response : List ℕ → Outcome MessageError (List ℕ)
unpad_response padded = from_unpad (unpad padded)

unfoldable pub after_control :
    Resumption × Outcome ControlError (List ℕ) → Resumption × Outcome MessageError (List ℕ)
after_control (s, ok body) = (s, unpad_response body)
after_control (s, err e) = (s, err bad_control)
after_control (s, panic) = (s, panic)
after_control (s, out_of_fuel) = (s, out_of_fuel)

-- What Decrypt does once the box is open.
unfoldable pub opened :
    (List ℕ → Resumption → Resumption × Outcome ControlError (List ℕ))
    → Construction
    → Option (List ℕ)
    → Resumption
    → Resumption × Outcome MessageError (List ℕ)
opened strip c none s = (s, err open_failed)
opened strip c (some plaintext) s =
    if is_pq c then after_control (strip plaintext s) else (s, unpad_response plaintext)

-- The test of the magic, and that of the nonce, which is given back.
unfoldable pub check_magic : List ℕ → Outcome MessageError (Unit {0})
check_magic magic = if name_eq magic server_magic then ok tt else err invalid_size_or_prefix

unfoldable pub check_nonce : List ℕ → List ℕ → Outcome MessageError (Unit {0})
check_nonce sent returned = if name_eq sent returned then ok tt else err unexpected_nonce

-- The tests of Decrypt, and the nonce and the box of the response.
unfoldable pub response_parts : List ℕ → List ℕ → Outcome MessageError (List ℕ × List ℕ)
unfolding check_magic check_nonce
response_parts nonce encrypted =
    if ltb (length encrypted) 65 || ltb 4144 (length encrypted)
    then err invalid_size_or_prefix
    else do
      magic ← slice_at 0 8 encrypted
      u ← check_magic magic
      server_nonce ← slice_at 8 32 encrypted
      sent ← slice_at 0 12 nonce
      returned ← slice_at 0 12 server_nonce
      v ← check_nonce sent returned
      boxed ← slice_at 32 (length encrypted) encrypted
      ok (server_nonce, boxed)

-- Decrypt after these tests.
unfoldable pub open_parts :
    Boxes
    → Kdf
    → Target
    → List ℕ
    → List ℕ
    → ℕ
    → ℕ
    → ℕ
    → Outcome MessageError (List ℕ × List ℕ)
    → Resumption
    → Resumption × Outcome MessageError (List ℕ)
open_parts boxes kdf target key nonce query_epoch current now (ok (server_nonce, boxed)) s =
    opened (pq_strip_control kdf target.magic_query key nonce query_epoch current now)
      target.construction ((response_box boxes target.construction).open_box server_nonce key boxed)
      s
open_parts boxes kdf target key nonce query_epoch current now (err e) s = (s, err e)
open_parts boxes kdf target key nonce query_epoch current now panic s = (s, panic)
open_parts boxes kdf target key nonce query_epoch current now out_of_fuel s = (s, out_of_fuel)

unfoldable pub decrypt :
    Boxes
    → Kdf
    → Target
    → List ℕ
    → List ℕ
    → ℕ
    → ℕ
    → ℕ
    → List ℕ
    → Resumption
    → Resumption × Outcome MessageError (List ℕ)
decrypt boxes kdf target key nonce query_epoch current now encrypted s =
    open_parts boxes kdf target key nonce query_epoch current now (response_parts nonce encrypted) s
