-- ===== src/Dnscrypt/Certs.antt =====
-- pkg/dnscrypt/dnscrypt_certs.go: the certificate that FetchCurrentDNSCryptCert takes from the answers,
-- and the two functions of pq.go that it calls. An answer is the bytes of a TXT record, or `none` for
-- another record; `verify` is ed25519.Verify for the provider's key. The slices lie within the lengths
-- that the loop tests first.
pub mod Trust
pub mod Selected
use proksitool.Base.{
  ℕ, ◌+◌, ◌-◌, ◌*◌, ◌≤◌, ◌/◌, ◌%◌, ◌≡◌, Bool, true, false, not, ◌&&◌, ◌||◌, ◌==◌, List, [], ◌∷◌,
  ◌++◌, Option, none, some, ltb, leb, length, get_or, take, drop, replicate, if◌then◌else◌, Outcome,
  ok, err, panic, le→leb, refl,
}
use proksitool.Trie.Domain.{name_eq}
use proksitool.Dnscrypt.Keys.{
  Construction, undefined, xsalsa20_poly1305, xchacha20_poly1305, xwing_pq, rank, Exchange,
  compute_shared_key,
}

-- `s[from:to]`
unfoldable pub slice : ℕ → ℕ → List ℕ → List ℕ
slice from to s = take (to - from) (drop from s)

-- The same, with the panic out of range.
unfoldable pub slice_at : {E : Type 0} → ℕ → ℕ → List ℕ → Outcome E (List ℕ)
slice_at from to s = if leb from to && leb to (length s) then ok (slice from to s) else panic

pub slice_at-ok :
    {E : Type 0} (from to : ℕ) (s : List ℕ)
    → from ≤ to
    → to ≤ length s
    → slice_at {E = E} from to s ≡ ok (slice from to s)
unfolding slice_at
slice_at-ok from to s order inside = rw (le→leb from to order, le→leb to (length s) inside) refl

-- `binary.BigEndian.Uint16`, and Uint32.
unfoldable pub uint16_of : List ℕ → ℕ
uint16_of b = 256 * get_or b 0 0 + get_or b 1 0

unfoldable pub uint32_of : List ℕ → ℕ
unfolding uint16_of
uint32_of b = 65536 * uint16_of b + uint16_of (drop 2 b)

abbrev pub cert_magic : List ℕ
cert_magic = 68 ∷ 78 ∷ 83 ∷ 67 ∷ []

-- "PQD", the versions, and the sizes of a public key and a ciphertext.
abbrev pub pq_profile_extension : List ℕ
pq_profile_extension =
    b'P' ∷ b'Q' ∷ b'D' ∷ 1 ∷ 0 ∷ 3 ∷ 1 ∷ 1 ∷ 1216 / 256 ∷ 1216 % 256 ∷ 1120 / 256 ∷ 1120 % 256 ∷ []

-- "DNSCrypt-PQ-v1" and the parts of the certificate.
unfoldable pub pq_cert_context : List ℕ → List ℕ
unfolding slice
pq_cert_context cert =
    (b'D' ∷ b'N' ∷ b'S' ∷ b'C' ∷ b'r' ∷ b'y' ∷ b'p' ∷ b't' ∷ b'-' ∷ b'P' ∷ b'Q' ∷ b'-' ∷ b'v' ∷ b'1'
      ∷ [])
    ++ slice 4 6 cert
    ++ slice 6 8 cert
    ++ slice 72 1288 cert
    ++ slice 1288 1296 cert
    ++ slice 1296 1300 cert
    ++ slice 1300 1304 cert
    ++ slice 1304 1308 cert
    ++ slice 1308 1320 cert

pub record CertInfo : Type 0 where
  pub server_pk : List ℕ
  pub shared_key : List ℕ
  pub magic_query : List ℕ
  pub construction : Construction
  pub forward_security : Bool
  pub pq_public_key : List ℕ
  pub pq_context : List ℕ

-- What the loop reads from a certificate.
pub record Facts : Type 0 where
  pub construction : Construction
  pub serial : ℕ
  pub begins : ℕ
  pub ends : ℕ

-- The variables of the loop, `certInfo` and `highestSerial`.
pub record Selection : Type 0 where
  pub info : CertInfo
  pub highest_serial : ℕ

abbrev pub no_selection : Selection
no_selection = record {
  info = record {
    server_pk = replicate 32 0;
    shared_key = replicate 32 0;
    magic_query = replicate 8 0;
    construction = undefined;
    forward_security = false;
    pq_public_key = [];
    pq_context = [];
  };
  highest_serial = 0;
}

-- `esVersion`
unfoldable pub construction_of : ℕ → Option Construction
construction_of version =
    if version == 1
    then some xsalsa20_poly1305
    else if version == 2
    then some xchacha20_poly1305
    else if version == 3
    then some xwing_pq
    else none

unfoldable pub is_pq : Construction → Bool
is_pq xwing_pq = true
is_pq _ = false

-- The offsets of the serial number and of the two times.
unfoldable pub facts_at : Construction → List ℕ → Facts
unfolding slice uint32_of
facts_at xwing_pq cert = record {
  construction = xwing_pq;
  serial = uint32_of (slice 1296 1300 cert);
  begins = uint32_of (slice 1300 1304 cert);
  ends = uint32_of (slice 1304 1308 cert);
}
facts_at c cert = record {
  construction = c;
  serial = uint32_of (slice 112 116 cert);
  begins = uint32_of (slice 116 120 cert);
  ends = uint32_of (slice 120 124 cert);
}

-- The test of the extension of a PQ certificate.
unfoldable pub profile_ok : Construction → List ℕ → Bool
unfolding slice
profile_ok xwing_pq cert =
    name_eq (slice 1308 1320 cert) pq_profile_extension
    && name_eq (slice 4 6 cert) (slice 4 6 (slice 1308 1320 cert))
profile_ok c cert = true

-- How the construction compares with the one selected before.
unfoldable pub supersedes : Facts → Selection → Bool
supersedes f best =
    if ltb f.serial best.highest_serial
    then false
    else if f.serial == best.highest_serial
    then not (ltb (rank f.construction) (rank best.info.construction))
    else true

pub data CertError : Type 0 where
  no_usable_certificate : CertError

unfoldable pub cert_result : CertInfo → Outcome CertError CertInfo
cert_result info = if rank info.construction == 0 then err no_usable_certificate else ok info

module _ (verify : List ℕ → List ℕ → Bool) (ignore_timestamp : Bool) (now : ℕ) where
  -- The times of a certificate with a valid signature.
  unfoldable pub in_time : Facts → Option Facts
  in_time f =
      if leb f.ends f.begins
      then none
      else if not ignore_timestamp && (ltb f.ends now || ltb now f.begins)
      then none
      else some f

  unfoldable pub signed_facts : Construction → List ℕ → Option Facts
  unfolding slice is_pq
  signed_facts c cert =
      if is_pq c && ltb (length cert) 1320
      then none
      else if not (verify (drop 72 cert) (slice 8 72 cert))
      then none
      else if not (profile_ok c cert)
      then none
      else in_time (facts_at c cert)

  -- The tests of the loop up to that of the serial number, each failure of which goes on with the next
  -- answer.
  unfoldable pub usable : List ℕ → Option Facts
  unfolding slice uint16_of
  usable cert =
      if ltb (length cert) 124
      then none
      else if not (name_eq (take 4 cert) cert_magic)
      then none
      else elim (construction_of (uint16_of (slice 4 6 cert))) [
        | none ↦ none
        | some c ↦ signed_facts c cert
      ]

module _ (ex : Exchange) (draw secret : List ℕ) where
  unfoldable pub cert_info : Facts → List ℕ → CertInfo
  unfolding slice
  cert_info f cert =
      if is_pq f.construction
      then record {
        server_pk = replicate 32 0;
        shared_key = replicate 32 0;
        magic_query = slice 1288 1296 cert;
        construction = f.construction;
        forward_security = leb (f.ends - f.begins) 604800;
        pq_public_key = slice 72 1288 cert;
        pq_context = pq_cert_context cert;
      }
      else record {
        server_pk = slice 72 104 cert;
        shared_key = compute_shared_key ex draw f.construction secret (slice 72 104 cert);
        magic_query = slice 104 112 cert;
        construction = f.construction;
        forward_security = leb (f.ends - f.begins) 604800;
        pq_public_key = [];
        pq_context = [];
      }

module _ (ex : Exchange) (draw secret : List ℕ) (verify : List ℕ → List ℕ → Bool)
    (ignore_timestamp : Bool) (now : ℕ) where
  unfoldable pub consider : Option (List ℕ) → Selection → Selection
  consider none best = best
  consider (some cert) best = elim (usable verify ignore_timestamp now cert) [
    | none ↦ best
    | some f ↦
        if supersedes f best
        then record { info = cert_info ex draw secret f cert; highest_serial = f.serial }
        else best
  ]

  unfoldable pub select : List (Option (List ℕ)) → Selection → Selection
  select [] best = best
  select (answer ∷ answers) best = select answers (consider answer best)

  unfoldable pub fetch_current_dnscrypt_cert : List (Option (List ℕ)) → Outcome CertError CertInfo
  fetch_current_dnscrypt_cert answers = cert_result ((select answers no_selection).info)
