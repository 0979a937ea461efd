-- ===== src/Dnscrypt/Resumption/Tickets.antt =====
-- pkg/dnscrypt/pq.go: a ticket from its control block to its use.
use proksitool.Base.{
  ℕ, ◌+◌, ◌-◌, ◌*◌, ◌/◌, ◌%◌, ◌<◌, ◌≡◌, ◌≢◌, refl, sym, false, ◌==◌, List, [], ◌∷◌, none, some,
  length, arith, Bool-cases, inl, inr, lt→ltb, le→ltb, ◌≤◌, take_long, ≢→==,
}
use proksitool.Trie.Domain.{name_eq}
use proksitool.Trie.Domain.Names.{name_eq_iff, name_eq_refl}
use proksitool.Dnscrypt.Framing.{size_bytes}
use proksitool.Dnscrypt.Certs.{slice, uint16_of, uint32_of}
use proksitool.Dnscrypt.Resumption.{
  Kdf, Resumption, pq_resume_secret, store, get, pq_process_control,
}

-- A control block with a ticket and its lifetime in seconds.
unfoldable pub control_block : ℕ → List ℕ → List ℕ
unfolding size_bytes
control_block lifetime ticket =
    b'P'
    ∷ b'Q'
    ∷ b'D'
    ∷ b'R'
    ∷ 1
    ∷ lifetime / 16777216 % 256
    ∷ lifetime / 65536 % 256
    ∷ lifetime / 256 % 256
    ∷ lifetime % 256
    ∷ length ticket / 256 % 256
    ∷ length ticket % 256
    ∷ ticket

module _ (kdf : Kdf) (magic key nonce : List ℕ) where
  process-control_block :
      (lifetime epoch now : ℕ) (ticket : List ℕ) (s : Resumption)
      → lifetime < 4294967296
      → length ticket < 65536
      → pq_process_control kdf magic key nonce epoch epoch now (control_block lifetime ticket) s
        ≡ store ticket (pq_resume_secret kdf key magic nonce) (now + 1000000000 * lifetime) epoch s
  unfolding pq_process_control control_block slice uint16_of uint32_of name_eq
  process-control_block lifetime epoch now ticket s small short =
      let size : 256 * (length ticket / 256 % 256) + length ticket % 256 ≡ length ticket =
        omega arith in
      let life : 65536 * (256 * (lifetime / 16777216 % 256) + lifetime / 65536 % 256)
            + (256 * (lifetime / 256 % 256) + lifetime % 256)
          ≡ lifetime =
        omega arith in
      rw (size, life, take_long ticket (11 + length ticket - 11) (omega arith)) (ground arith)

  -- The ticket of a control block is given back, with the secret of its query, until its lifetime ends,
  -- as long as the network is the same, and not from then on; in another epoch it is dropped, and a
  -- later call does not bring it back, not even in the epoch that it belongs to.
  pub process_control-get :
      (lifetime epoch other now later ended last : ℕ) (ticket : List ℕ) (s : Resumption)
      → lifetime < 4294967296
      → length ticket < 65536
      → ticket ≢ []
      → other ≢ epoch
      → later < now + 1000000000 * lifetime
      → now + 1000000000 * lifetime ≤ ended
      → let after =
          pq_process_control kdf magic key nonce epoch epoch now
            (control_block lifetime ticket)
            s in
        ((get later epoch after).1 ≡ some (ticket, pq_resume_secret kdf key magic nonce))
        × ((get ended epoch after).1 ≡ none)
        × ((get later other after).1 ≡ none)
        × ((get last epoch ((get later other after).0)).1 ≡ none)
  unfolding get store
  process_control-get lifetime epoch other now later ended last ticket s small short nonempty moved
        alive over =
      rw
        (
          process-control_block lifetime epoch now ticket s small short,
          there,
          lt→ltb later (now + 1000000000 * lifetime) alive,
          le→ltb ended (now + 1000000000 * lifetime) over,
          apart,
        )
        (ground arith, refl, refl, rw (name_eq_refl []) refl)
    where
      there : name_eq ticket [] ≡ false
      there = elim (Bool-cases (name_eq ticket [])) [
        | inl e ↦ absurd (nonempty ((name_eq_iff ticket []).0 e))
        | inr e ↦ e
      ]

      apart : (epoch == other) ≡ false
      apart = ≢→== epoch other (λ e. moved (sym e))
