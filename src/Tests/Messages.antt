-- ===== src/Tests/Messages.antt =====
-- pkg/dnscrypt/crypto.go, pq.go, dnscrypt_certs.go and common.go: a cipher that adds sixteen bytes, keys
-- without secrets, and a provider whose signature is its own name.
use proksitool.Base.{
  ℕ, ◌-◌, ◌≡◌, refl, ap, Bool, true, false, List, [], ◌∷◌, ◌++◌, Option, none, some, length, take,
  replicate, ok, err, Returns, arith, take-append, length-append,
}
use proksitool.Trie.Domain.{name_eq}
use proksitool.Dnscrypt.Keys.{Exchange, xchacha20_poly1305, rank}
use proksitool.Dnscrypt.Framing.{
  prefix_with_size, size_bytes, read_prefixed, read_loop, packet_length, finish, size_at, too_short,
}
use proksitool.Dnscrypt.Framing.Streams.{
  concat, framed, read_prefixed-framed, read_prefixed-prefix_with_size,
}
use proksitool.Dnscrypt.Certs.{
  slice, fetch_current_dnscrypt_cert, no_usable_certificate, select, consider, usable,
  construction_of, signed_facts, in_time, facts_at, is_pq, profile_ok, cert_result, uint16_of,
  uint32_of,
}
use proksitool.Dnscrypt.Certs.Selected.{Taken, fetch_current_dnscrypt_cert-Taken}
use proksitool.Dnscrypt.Resumption.{Kdf, Resumption, get, pq_process_control, pq_resume_secret}
use proksitool.Dnscrypt.Resumption.Tickets.{control_block, process_control-get}
use proksitool.Dnscrypt.Messages.{
  Box, Boxes, KeyTools, Client, Target, PqTools, decrypt, server_magic,
}
use proksitool.Dnscrypt.Messages.Queries.{BoxLaws, BoxesLaws}
use proksitool.Dnscrypt.Messages.Responses.{Accepts, decrypt-Accepts, response_of, decrypt-response}

abbrev packet : List ℕ
packet = replicate 17 7

-- The size is cut in two, and one byte follows the packet.
abbrev arriving : List (List ℕ)
arriving = (0 ∷ []) ∷ (17 ∷ 7 ∷ []) ∷ (replicate 16 7 ++ (9 ∷ [])) ∷ []

arrived : read_prefixed arriving ≡ ok packet
unfolding read_prefixed read_loop packet_length finish size_at
arrived = refl

refused : read_prefixed ((0 ∷ 16 ∷ []) ∷ []) ≡ err too_short
unfolding read_prefixed read_loop packet_length finish size_at
refused = refl

read_prefixed-framed_example : read_prefixed arriving ≡ framed (concat arriving)
read_prefixed-framed_example = read_prefixed-framed arriving

sent : prefix_with_size packet ≡ ok (0 ∷ 17 ∷ packet)
unfolding prefix_with_size size_bytes
sent = refl

read_prefixed-prefix_with_size_example : read_prefixed arriving ≡ ok packet
read_prefixed-prefix_with_size_example =
    read_prefixed-prefix_with_size packet (0 ∷ 17 ∷ packet) (9 ∷ []) arriving (omega arith)
      (omega arith) sent refl

abbrev toy_exchange : Exchange
toy_exchange = record { shared_key = λ sk pk. some pk; precompute = λ pk sk. pk }

abbrev signed_by : List ℕ → List ℕ → Bool
signed_by signed signature = name_eq signature (replicate 64 3)

-- A certificate for XChaCha20Poly1305, of the given serial number, from 10 to 200.
abbrev cert_of : ℕ → ℕ → List ℕ
cert_of version serial =
    68
    ∷ 78
    ∷ 83
    ∷ 67
    ∷ 0
    ∷ version
    ∷ 0
    ∷ 0
    ∷ (replicate 64 3
        ++ replicate 32 5
        ++ replicate 8 9
        ++ (0 ∷ 0 ∷ 0 ∷ serial ∷ 0 ∷ 0 ∷ 0 ∷ 10 ∷ 0 ∷ 0 ∷ 0 ∷ 200 ∷ []))

abbrev answers : List (Option (List ℕ))
answers = some (cert_of 2 7) ∷ none ∷ some (cert_of 1 7) ∷ some (cert_of 2 6) ∷ []

fetch_current_dnscrypt_cert-Taken_example :
    Taken toy_exchange [] [] signed_by false 50 answers
      (fetch_current_dnscrypt_cert toy_exchange [] [] signed_by false 50 answers)
fetch_current_dnscrypt_cert-Taken_example =
    fetch_current_dnscrypt_cert-Taken toy_exchange [] [] signed_by false 50 answers

-- After its end the certificate is not taken.
expired :
    fetch_current_dnscrypt_cert toy_exchange [] [] signed_by false 201 (some (cert_of 2 7) ∷ [])
    ≡ err no_usable_certificate
unfolding fetch_current_dnscrypt_cert select consider usable construction_of signed_facts in_time
    facts_at is_pq profile_ok slice uint16_of uint32_of name_eq cert_result rank
expired = refl

abbrev toy_box : Box
toy_box = record {
  seal = λ n k m. m ++ replicate 16 0;
  open_box = λ n k c. some (take (length c - 16) c);
}

toy_box-Laws : BoxLaws toy_box
toy_box-Laws = record {
  open-seal = λ n k m.
      let e : length (m ++ replicate 16 0) - 16 ≡ length m =
        omega (arith, length-append m (replicate 16 0)) in
      rw e (ap some (take-append m (replicate 16 0)));
  length-seal = λ n k m. length-append m (replicate 16 0);
}

abbrev toy_boxes : Boxes
toy_boxes = record { xchacha = toy_box; xsalsa = toy_box }

toy_boxes-Laws : BoxesLaws toy_boxes
toy_boxes-Laws = record { xchacha_laws = toy_box-Laws; xsalsa_laws = toy_box-Laws }

abbrev toy_tools : KeyTools
toy_tools = record { hash = λ s. take 32 s; base_mult = λ s. s; exchange = toy_exchange }

abbrev client : Client
client = record {
  secret_key = replicate 32 1;
  public_key = replicate 32 2;
  ephemeral_keys = false;
  min_question_size = 512;
}

abbrev target : Target
target = record {
  construction = xchacha20_poly1305;
  magic_query = replicate 8 9;
  server_pk = replicate 32 5;
  shared_key = replicate 32 6;
  fragments_blocked = false;
  has_relay = true;
}

abbrev nonce : List ℕ
nonce = replicate 12 4

abbrev toy_kdf : Kdf
toy_kdf = record { hkdf = λ salt ikm info. salt ++ ikm; sha256 = λ s. s }

abbrev no_ticket : Resumption
no_ticket = record { ticket = []; secret = []; expiry = 0; epoch = 0 }

abbrev toy_pq : PqTools
toy_pq = record {
  kdf = toy_kdf;
  sealing = record { encapsulate = λ pk. some (pk, pk); seal = λ n k m. m };
  server = record { magic_query = replicate 10 1; public_key = []; context = [] };
  now = 5;
  current = 1;
}

-- The response of a server that answers with the packet.
abbrev response : List ℕ
response =
    server_magic
    ++ (nonce ++ replicate 12 8)
    ++ ((packet ++ (128 ∷ replicate 14 0)) ++ replicate 16 0)

decrypt-Accepts_example :
    Returns
      (Accepts toy_boxes target.construction (replicate 32 6) nonce response)
      ((decrypt toy_boxes toy_kdf target (replicate 32 6) nonce 1 1 5 response no_ticket).1)
decrypt-Accepts_example =
    decrypt-Accepts toy_boxes toy_kdf target (replicate 32 6) nonce 1 1 5 response no_ticket
      (omega arith)

decrypt-response_example :
    (decrypt toy_boxes toy_kdf target
      (replicate 32 6)
      nonce
      1
      1
      5
      (response_of toy_boxes target.construction
        (replicate 32 6)
        (nonce ++ replicate 12 8)
        packet
        64)
      no_ticket).1
    ≡ ok packet
unfolding is_pq
decrypt-response_example =
    decrypt-response toy_boxes toy_kdf target (replicate 32 6) nonce 1 1 5 (nonce ++ replicate 12 8)
      packet 64 no_ticket toy_boxes-Laws refl refl refl refl (omega arith) (omega arith)
      (omega arith)

process_control-get_example :
    let after =
      pq_process_control toy_kdf [] [] nonce 1 1 0 (control_block 60 (9 ∷ [])) no_ticket in
    ((get 5 1 after).1 ≡ some (9 ∷ [], pq_resume_secret toy_kdf [] [] nonce))
    × ((get 60000000000 1 after).1 ≡ none)
    × ((get 5 2 after).1 ≡ none)
    × ((get 6 1 ((get 5 2 after).0)).1 ≡ none)
process_control-get_example =
    process_control-get toy_kdf [] [] nonce 60 1 2 0 5 60000000000 6 (9 ∷ []) no_ticket
      (omega arith) (omega arith) (λ e. cc) (λ e. absurd (omega (arith, e))) (omega arith)
      (omega arith)
