-- ===== src/Dnscrypt/Messages/Parts.antt =====
-- pkg/dnscrypt/crypto.go, Decrypt: the tests of a response, and its nonce and box.
use proksitool.Base.{
  Bool-cases, take_long, length-take, length-drop, ◌-◌, ℕ, ◌≤◌, ◌≡◌, refl, ◌∙◌, ap, ◌||◌, List, ltb,
  length, take, drop, ok, arith, Returns, if_cases, inl, inr, le→ltb,
}
use proksitool.Trie.Domain.{name_eq}
use proksitool.Trie.Domain.Names.{name_eq_iff}
use proksitool.Dnscrypt.Certs.{slice, slice_at, slice_at-ok}
use proksitool.Dnscrypt.Messages.{
  MessageError, server_magic, check_magic, check_nonce, response_parts,
}

-- The parts of a response with the server's magic and the nonce of the query.
abbrev pub Parts : List ℕ → List ℕ → List ℕ × List ℕ → Type 0
Parts nonce encrypted (server_nonce, boxed) =
    (take 8 encrypted ≡ server_magic)
    × (take 12 nonce ≡ take 12 (slice 8 32 encrypted))
    × (server_nonce ≡ slice 8 32 encrypted)
    × (boxed ≡ drop 32 encrypted)

-- The slices of a response of a proper size.
record Sliced (nonce encrypted : List ℕ) : Type 0 where
  of_magic : slice_at {E = MessageError} 0 8 encrypted ≡ ok (take 8 encrypted)
  of_nonce : slice_at {E = MessageError} 8 32 encrypted ≡ ok (slice 8 32 encrypted)
  sent : slice_at {E = MessageError} 0 12 nonce ≡ ok (take 12 nonce)
  returned :
      slice_at {E = MessageError} 0 12 (slice 8 32 encrypted) ≡ ok (take 12 (slice 8 32 encrypted))
  of_box : slice_at {E = MessageError} 32 (length encrypted) encrypted ≡ ok (drop 32 encrypted)

sliced :
    (nonce encrypted : List ℕ) → 12 ≤ length nonce → 65 ≤ length encrypted → Sliced nonce encrypted
unfolding slice
sliced nonce encrypted enough low = record {
  of_magic = slice_at-ok 0 8 encrypted (omega arith) (omega arith);
  of_nonce = slice_at-ok 8 32 encrypted (omega arith) (omega arith);
  sent = slice_at-ok 0 12 nonce (omega arith) enough;
  returned =
      slice_at-ok 0 12 (slice 8 32 encrypted) (omega arith)
        (omega (arith, length-take 24 (drop 8 encrypted), length-drop 8 encrypted));
  of_box =
      slice_at-ok 32 (length encrypted) encrypted (omega arith) (omega arith)
      ∙ ap ok (
          take_long (drop 32 encrypted) (length encrypted - 32)
            (omega (arith, length-drop 32 encrypted)));
}

pub response_parts-Parts :
    (nonce encrypted : List ℕ)
    → 12 ≤ length nonce
    → Returns (Parts nonce encrypted) (response_parts nonce encrypted)
unfolding response_parts check_magic check_nonce
response_parts-Parts nonce encrypted enough =
    if_cases (Returns P) (ltb (length encrypted) 65 || ltb 4144 (length encrypted)) _ _ (λ _. tt)
      (λ e.
        let cuts = sliced nonce encrypted enough (ground (arith, e)) in
        rw (cuts.of_magic, cuts.of_nonce, cuts.sent, cuts.returned, cuts.of_box)
          (elim (Bool-cases (name_eq (take 8 encrypted) server_magic)) [
            | inr differs ↦ rw differs tt
            | inl m ↦
                rw m (elim (Bool-cases (name_eq (take 12 nonce) (take 12 (slice 8 32 encrypted)))) [
                  | inr differs ↦ rw differs tt
                  | inl n ↦ rw n (
                    (name_eq_iff (take 8 encrypted) server_magic).0 m,
                    (name_eq_iff (take 12 nonce) (take 12 (slice 8 32 encrypted))).0 n,
                    refl,
                    refl,
                  )
                ])
          ]))
  where
    P : List ℕ × List ℕ → Type 0
    P = Parts nonce encrypted

pub response_parts-ok :
    (nonce encrypted : List ℕ)
    → 12 ≤ length nonce
    → 65 ≤ length encrypted
    → length encrypted ≤ 4144
    → take 8 encrypted ≡ server_magic
    → take 12 nonce ≡ take 12 (slice 8 32 encrypted)
    → response_parts nonce encrypted ≡ ok (slice 8 32 encrypted, drop 32 encrypted)
unfolding response_parts check_magic check_nonce
response_parts-ok nonce encrypted enough low high m n =
    let cuts = sliced nonce encrypted enough low in
    rw
      (
        le→ltb (length encrypted) 65 low,
        le→ltb 4144 (length encrypted) high,
        cuts.of_magic,
        cuts.of_nonce,
        cuts.sent,
        cuts.returned,
        cuts.of_box,
        (name_eq_iff (take 8 encrypted) server_magic).1 m,
        (name_eq_iff (take 12 nonce) (take 12 (slice 8 32 encrypted))).1 n,
      )
      refl
