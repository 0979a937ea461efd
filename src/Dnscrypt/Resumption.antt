-- ===== src/Dnscrypt/Resumption.antt =====
-- pkg/dnscrypt/pq.go: padding, key derivation, and the resumption ticket of a server. A nil ticket is an
-- empty one, since store copies with append. HKDF and SHA-256 are parameters.
pub mod Tickets
use proksitool.Base.{
  ℕ, ◌+◌, ◌*◌, ◌/◌, ◌%◌, ◌-◌, Bool, true, false, not, ◌&&◌, ◌||◌, ◌==◌, List, [], ◌∷◌, ◌++◌, Option,
  none, some, ltb, leb, length, get_or, take, drop, replicate, if◌then◌else◌, Outcome, ok, err,
  panic, out_of_fuel, max, ◌>>=◌,
}
use proksitool.Trie.Domain.{name_eq}
use proksitool.Dnscrypt.Padding.{pad}
use proksitool.Dnscrypt.Framing.{size_bytes}
use proksitool.Dnscrypt.Certs.{slice, slice_at, uint16_of, uint32_of}

-- `hkdfSha256(salt, ikm, info, 32)`, and `sha256.Sum256`.
pub record Kdf : Type 0 where
  pub hkdf : List ℕ → List ℕ → List ℕ → List ℕ
  pub sha256 : List ℕ → List ℕ

abbrev pub pq_resume_magic : List ℕ
pq_resume_magic = b'P' ∷ b'Q' ∷ b'R' ∷ b'e' ∷ b's' ∷ b'u' ∷ b'm' ∷ b'e' ∷ []

abbrev pub pq_control_magic : List ℕ
pq_control_magic = b'P' ∷ b'Q' ∷ b'D' ∷ b'R' ∷ []

-- The labels of the derivations, as the libraries take them: their bytes.
abbrev pub resume_label : List ℕ
resume_label =
    b'D' ∷ b'N' ∷ b'S' ∷ b'C' ∷ b'r' ∷ b'y' ∷ b'p' ∷ b't' ∷ b'-' ∷ b'P' ∷ b'Q' ∷ b'-' ∷ b'r' ∷ b'e'
    ∷ b's' ∷ b'u' ∷ b'm' ∷ b'e' ∷ b'-' ∷ b's' ∷ b'e' ∷ b'c' ∷ b'r' ∷ b'e' ∷ b't' ∷ b'-' ∷ b'v'
    ∷ b'1' ∷ []

abbrev pub query_label : List ℕ
query_label =
    b'D' ∷ b'N' ∷ b'S' ∷ b'C' ∷ b'r' ∷ b'y' ∷ b'p' ∷ b't' ∷ b'-' ∷ b'P' ∷ b'Q' ∷ b'-' ∷ b'r' ∷ b'e'
    ∷ b's' ∷ b'u' ∷ b'm' ∷ b'e' ∷ b'd' ∷ b'-' ∷ b'q' ∷ b'u' ∷ b'e' ∷ b'r' ∷ b'y' ∷ b'-' ∷ b'v'
    ∷ b'1' ∷ []

unfoldable pub pq_derive_shared_key : Kdf → List ℕ → List ℕ → List ℕ → List ℕ → List ℕ
pq_derive_shared_key kdf kem_ss magic context ct = kdf.hkdf (0 ∷ 3 ∷ magic) kem_ss (context ++ ct)

unfoldable pub pq_resume_secret : Kdf → List ℕ → List ℕ → List ℕ → List ℕ
pq_resume_secret kdf key magic nonce = kdf.hkdf (magic ++ nonce) key resume_label

unfoldable pub pq_resumed_shared_key : Kdf → List ℕ → List ℕ → List ℕ → List ℕ → List ℕ
pq_resumed_shared_key kdf secret magic nonce ticket =
    kdf.hkdf (magic ++ nonce) secret (query_label ++ kdf.sha256 ticket)

-- `target` is the next multiple of 64, but at least the floor.
unfoldable pub pq_pad : List ℕ → ℕ → List ℕ
pq_pad packet floor = pad packet (max ((length packet + 1 + 63) / 64 * 64) floor)

-- `pqResumptionState`
pub record Resumption : Type 0 where
  pub ticket : List ℕ
  pub secret : List ℕ
  pub expiry : ℕ
  pub epoch : ℕ

unfoldable pub store : List ℕ → List ℕ → ℕ → ℕ → Resumption → Resumption
store ticket secret expiry epoch s = record {
  ticket = ticket;
  secret = secret;
  expiry = expiry;
  epoch = epoch;
}

unfoldable pub get : ℕ → ℕ → Resumption → Resumption × Option (List ℕ × List ℕ)
get now current s =
    if name_eq s.ticket [] || not (ltb now s.expiry)
    then (s, none)
    else if not (s.epoch == current)
    then (record s { ticket = []; secret = replicate 32 0; expiry = 0 }, none)
    else (s, some (s.ticket, s.secret))

pub data ControlError : Type 0 where
  response_too_short : ControlError
  control_overflows : ControlError

-- The control block of a response and its body.
unfoldable pub split_control : List ℕ → Outcome ControlError (List ℕ × List ℕ)
unfolding slice_at uint16_of
split_control plaintext =
    if ltb (length plaintext) 2
    then err response_too_short
    else if ltb (length plaintext) (2 + uint16_of plaintext)
    then err control_overflows
    else do
      control ← slice_at 2 (2 + uint16_of plaintext) plaintext
      body ← slice_at (2 + uint16_of plaintext) (length plaintext) plaintext
      ok (control, body)

-- pqProcessControl at time `now`, the network being in the epoch `current`.
unfoldable pub pq_process_control :
    Kdf → List ℕ → List ℕ → List ℕ → ℕ → ℕ → ℕ → List ℕ → Resumption → Resumption
unfolding slice uint16_of uint32_of store
pq_process_control kdf magic key nonce query_epoch current now control s =
    let ticket_len = uint16_of (slice 9 11 control) in
    if ltb (length control) 11
    then s
    else if not (name_eq (slice 0 4 control) pq_control_magic) || not (get_or control 4 0 == 1)
    then s
    else if ltb (length control) (11 + ticket_len)
    then s
    else if not (query_epoch == current)
    then s
    else store (slice 11 (11 + ticket_len) control) (pq_resume_secret kdf key magic nonce)
        (now + 1000000000 * uint32_of (slice 5 9 control)) query_epoch s

-- pqStripControl: the body, and the state after the control block, if there is one.
unfoldable pub pq_strip_control :
    Kdf
    → List ℕ
    → List ℕ
    → List ℕ
    → ℕ
    → ℕ
    → ℕ
    → List ℕ
    → Resumption
    → Resumption × Outcome ControlError (List ℕ)
pq_strip_control kdf magic key nonce query_epoch current now plaintext s =
    elim (split_control plaintext) [
      | ok (control, body) ↦
          if ltb 0 (length control)
          then (pq_process_control kdf magic key nonce query_epoch current now control s, ok body)
          else (s, ok body)
      | err e ↦ (s, err e)
      | panic ↦ (s, panic)
      | out_of_fuel ↦ (s, out_of_fuel)
    ]

-- `xwing.Encapsulate`, `none` for its error, and `xsecretbox.Seal` by nonce, key and message.
pub record Sealing : Type 0 where
  pub encapsulate : List ℕ → Option (List ℕ × List ℕ)
  pub seal : List ℕ → List ℕ → List ℕ → List ℕ

-- The fields of ServerInfo that a query to it needs.
pub record PqServer : Type 0 where
  pub magic_query : List ℕ
  pub public_key : List ℕ
  pub context : List ℕ

-- A query and its key.
pub record Query : Type 0 where
  pub key : List ℕ
  pub bytes : List ℕ

unfoldable pub resumed_query : Kdf → Sealing → PqServer → List ℕ → List ℕ → List ℕ × List ℕ → Query
resumed_query kdf box server nonce packet (ticket, secret) =
    let key = pq_resumed_shared_key kdf secret server.magic_query nonce ticket in
    record {
      key = key;
      bytes =
          pq_resume_magic
          ++ size_bytes (length ticket)
          ++ ticket
          ++ nonce
          ++ box.seal (nonce ++ replicate 12 0) key (pq_pad packet 256);
    }

unfoldable pub fresh_query : Kdf → Sealing → PqServer → List ℕ → List ℕ → Option Query
fresh_query kdf box server nonce packet = elim (box.encapsulate server.public_key) [
  | none ↦ none
  | some (kem_ss, ct) ↦
      let key = pq_derive_shared_key kdf kem_ss server.magic_query server.context ct in
      some (record {
        key = key;
        bytes =
            server.magic_query
            ++ ct
            ++ nonce
            ++ box.seal (nonce ++ replicate 12 0) key (pq_pad packet 64);
      })
]

-- encryptPQ with the client's nonce drawn, `none` for the error of Encapsulate.
unfoldable pub encrypt_pq :
    Kdf → Sealing → PqServer → List ℕ → List ℕ → ℕ → ℕ → Resumption → Resumption × Option Query
encrypt_pq kdf box server nonce packet now current s =
    let (after, held) = get now current s in
    elim held [
      | some t ↦ (after, some (resumed_query kdf box server nonce packet t))
      | none ↦ (after, fresh_query kdf box server nonce packet)
    ]
