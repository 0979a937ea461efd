-- ===== src/Dnscrypt/Messages/Queries.antt =====
-- pkg/dnscrypt/crypto.go, Encrypt: what the server reads, and the sizes of the queries.
use proksitool.Base.{
  ℕ, ◌+◌, ◌≤◌, ◌≡◌, refl, false, List, ◌++◌, some, length, take, drop, replicate, ok, max, arith,
  drop-append, take-append, le→ltb,
}
use mathlib.Core.Path.{subst}
use proksitool.Dnscrypt.Padding.{unpad}
use proksitool.Dnscrypt.Certs.{slice}
use proksitool.Dnscrypt.Resumption.{Resumption}
use proksitool.Dnscrypt.Messages.{
  Box, Boxes, Proto, udp, tcp, other_proto, KeyTools, Client, Target, KeyPair, question_size,
  padded_length, box_of, seal_query, or_no_random, encrypt_classic, query_overhead,
}

-- What a sealed message is: opened by its nonce and key, and sixteen bytes longer.
pub record BoxLaws (b : Box) : Type 0 where
  pub open-seal :
      (nonce key message : List ℕ) → b.open_box nonce key (b.seal nonce key message) ≡ some message
  pub length-seal :
      (nonce key message : List ℕ) → length (b.seal nonce key message) ≡ length message + 16

pub record BoxesLaws (boxes : Boxes) : Type 0 where
  pub xchacha_laws : BoxLaws boxes.xchacha
  pub xsalsa_laws : BoxLaws boxes.xsalsa

pub drop-prefix : (n : ℕ) (s t : List ℕ) → length s ≡ n → drop n (s ++ t) ≡ t
drop-prefix n s t e = subst (λ (k : ℕ). drop k (s ++ t) ≡ t) e (drop-append s t)

pub take-prefix : (n : ℕ) (s t : List ℕ) → length s ≡ n → take n (s ++ t) ≡ s
take-prefix n s t e = subst (λ (k : ℕ). take k (s ++ t) ≡ s) e (take-append s t)

padded_length-fits :
    (target : Target) (proto : Proto) (size n : ℕ)
    → target.fragments_blocked ≡ false
    → 68 + n ≤ size
    → n ≤ 4027
    → 69 + n ≤ padded_length target proto size
unfolding padded_length
padded_length-fits target proto size n blocked h small = rw blocked (ground arith)

question_size-enough :
    (client : Client) (proto : Proto) (x n : ℕ)
    → (size : ℕ) × (question_size client proto (some x) n ≡ ok size) × (68 + n ≤ size)
unfolding question_size
question_size-enough client udp x n =
    (max client.min_question_size (query_overhead + n), refl, omega arith)
question_size-enough client tcp x n = (query_overhead + n + x, refl, omega arith)
question_size-enough client other_proto x n = (query_overhead + n + x, refl, omega arith)

-- A packet of 4027 bytes at most is never too large, unless the server is known to lose fragments:
-- with the draws at hand, Encrypt gives a query.
pub encrypt-fits :
    (boxes : Boxes) (tools : KeyTools) (draw : List ℕ) (client : Client) (target : Target)
    (proto : Proto) (nonce : List ℕ) (x : ℕ) (packet : List ℕ)
    → target.fragments_blocked ≡ false
    → length packet ≤ 4027
    → (sent : List ℕ) × (encrypt_classic boxes tools draw client target proto
          (some nonce)
          (some x)
          packet
        ≡ ok sent)
unfolding encrypt_classic or_no_random seal_query
encrypt-fits boxes tools draw client target proto nonce x packet blocked h =
    let (size, e, enough) = question_size-enough client proto x (length packet) in
    let total = padded_length-fits target proto size (length packet) blocked enough h in
    rw
      (
        e,
        le→ltb (padded_length target proto size) (query_overhead + length packet + 1) (omega arith),
      )
      (_, refl)

module _ (boxes : Boxes) (laws : BoxesLaws boxes) where
  -- The server with the shared key reads the packet from a query of the length `total`.
  abbrev pub Reads : KeyPair → Target → List ℕ → ℕ → List ℕ → Type 0
  Reads keys target packet total sent =
      (length sent ≡ total)
      × (take 8 sent ≡ target.magic_query)
      × ((padded : List ℕ) × ((box_of boxes target.construction).open_box
              (slice 40 52 sent ++ replicate 12 0) keys.shared_key (drop 52 sent)
            ≡ some padded)
          × (unpad padded ≡ ok packet))
