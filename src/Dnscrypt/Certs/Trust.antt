-- ===== src/Dnscrypt/Certs/Trust.antt =====
-- pkg/dnscrypt/dnscrypt_certs.go: what holds of the certificates that pass the tests.
use mathlib.Core.Path.{subst}
use proksitool.Base.{
  OnSome, ℕ, ◌+◌, ◌↔◌, false, ltb→le, le→ltb, ◌≤◌, ◌<◌, ◌≡◌, ◌⊎◌, inl, inr, refl, sym, ◌∙◌, Bool,
  true, not, ◌&&◌, ◌||◌, ◌==◌, List, Option, none, some, ltb, leb, length, take, drop, arith,
  if_cases, Option-cases,
}
use proksitool.Trie.Domain.{name_eq}
use proksitool.Trie.Domain.Names.{name_eq_iff}
use proksitool.Dnscrypt.Keys.{
  Construction, undefined, xsalsa20_poly1305, xchacha20_poly1305, xwing_pq, rank,
}
use proksitool.Dnscrypt.Certs.{
  slice, uint16_of, uint32_of, cert_magic, Facts, construction_of, is_pq, facts_at, profile_ok,
  in_time, signed_facts, usable,
}

not-false : (b : Bool) → not b ≡ false → b ≡ true
not-false true e = refl
not-false false e = cc

-- Where the serial number and the two times stand, in four bytes each.
abbrev pub times_at : Construction → ℕ
times_at xwing_pq = 1296
times_at _ = 112

abbrev pub facts_of_bytes : Construction → List ℕ → Facts
facts_of_bytes c cert = record {
  construction = c;
  serial = uint32_of (slice (times_at c) (times_at c + 4) cert);
  begins = uint32_of (slice (times_at c + 4) (times_at c + 8) cert);
  ends = uint32_of (slice (times_at c + 8) (times_at c + 12) cert);
}

facts_at_bytes : (c : Construction) (cert : List ℕ) → facts_at c cert ≡ facts_of_bytes c cert
unfolding facts_at
facts_at_bytes undefined cert = refl
facts_at_bytes xsalsa20_poly1305 cert = refl
facts_at_bytes xchacha20_poly1305 cert = refl
facts_at_bytes xwing_pq cert = refl

module _ (verify : List ℕ → List ℕ → Bool) (ignore_timestamp : Bool) (now : ℕ) where
  -- The certificate is whole, the provider signed it, its bytes say `f`, and its times hold now, unless
  -- they are to be ignored.
  pub record Acceptable (cert : List ℕ) (f : Facts) : Type 0 where
    pub construction : Construction
    pub version : construction_of (uint16_of (slice 4 6 cert)) ≡ some construction
    pub of_bytes : f ≡ facts_of_bytes construction cert
    pub long : 124 ≤ length cert
    pub long_pq : (is_pq construction && ltb (length cert) 1320) ≡ false
    pub magic : take 4 cert ≡ cert_magic
    pub signature : verify (drop 72 cert) (slice 8 72 cert) ≡ true
    pub profile : profile_ok construction cert ≡ true
    pub ordered : f.begins < f.ends
    pub current : (ignore_timestamp ≡ true) ⊎ ((f.begins ≤ now) × (now ≤ f.ends))

  in_time_self :
      (f : Facts)
      → f.begins < f.ends
      → (ignore_timestamp ≡ true) ⊎ ((f.begins ≤ now) × (now ≤ f.ends))
      → in_time verify ignore_timestamp now f ≡ some f
  unfolding in_time
  in_time_self f ordered current = ground (arith, ordered, current)

  in_time-Current :
      (f : Facts)
      → OnSome
          (λ g.
            (f ≡ g)
            × (g.begins < g.ends)
            × ((ignore_timestamp ≡ true) ⊎ ((g.begins ≤ now) × (now ≤ g.ends))))
          (in_time verify ignore_timestamp now f)
  unfolding in_time
  in_time-Current f =
      if_cases (OnSome P) (leb f.ends f.begins) _ _ (λ _. tt)
        (λ apart.
          if_cases (OnSome P) (not ignore_timestamp && (ltb f.ends now || ltb now f.begins)) _ _
            (λ _. tt) (λ valid. (refl, ground (arith, apart), ground (arith, valid))))
    where
      P : Facts → Type 0
      P g =
          (f ≡ g)
          × (g.begins < g.ends)
          × ((ignore_timestamp ≡ true) ⊎ ((g.begins ≤ now) × (now ≤ g.ends)))

  in_time-Acceptable :
      (c : Construction) (cert : List ℕ)
      → construction_of (uint16_of (slice 4 6 cert)) ≡ some c
      → 124 ≤ length cert
      → (is_pq c && ltb (length cert) 1320) ≡ false
      → take 4 cert ≡ cert_magic
      → verify (drop 72 cert) (slice 8 72 cert) ≡ true
      → profile_ok c cert ≡ true
      → OnSome (Acceptable cert) (in_time verify ignore_timestamp now (facts_at c cert))
  in_time-Acceptable c cert v l lp m sig p =
      go (in_time verify ignore_timestamp now (facts_at c cert)) (in_time-Current (facts_at c cert))
    where
      go :
          (o : Option Facts)
          → OnSome
              (λ g.
                (facts_at c cert ≡ g)
                × (g.begins < g.ends)
                × ((ignore_timestamp ≡ true) ⊎ ((g.begins ≤ now) × (now ≤ g.ends))))
              o
          → OnSome (Acceptable cert) o
      go none h = tt
      go (some g) (e, apart, valid) = record {
        construction = c;
        version = v;
        of_bytes = sym e ∙ facts_at_bytes c cert;
        long = l;
        long_pq = lp;
        magic = m;
        signature = sig;
        profile = p;
        ordered = apart;
        current = valid;
      }

  signed_facts-Acceptable :
      (c : Construction) (cert : List ℕ)
      → construction_of (uint16_of (slice 4 6 cert)) ≡ some c
      → 124 ≤ length cert
      → take 4 cert ≡ cert_magic
      → OnSome (Acceptable cert) (signed_facts verify ignore_timestamp now c cert)
  unfolding signed_facts
  signed_facts-Acceptable c cert v l m =
      if_cases (OnSome (Acceptable cert)) (is_pq c && ltb (length cert) 1320) _ _ (λ _. tt)
        (λ lp.
          if_cases (OnSome (Acceptable cert)) (not (verify (drop 72 cert) (slice 8 72 cert))) _ _
            (λ _. tt)
            (λ sig.
              if_cases (OnSome (Acceptable cert)) (not (profile_ok c cert)) _ _ (λ _. tt)
                (λ p. in_time-Acceptable c cert v l lp m (not-false _ sig) (not-false _ p))))

  construction_of-positive : (v : ℕ) → OnSome (λ c. 0 < rank c) (construction_of v)
  unfolding construction_of rank
  construction_of-positive v =
      if_cases (OnSome (λ c. 0 < rank c)) (v == 1) _ _ (λ _. omega arith)
        (λ _.
          if_cases (OnSome (λ c. 0 < rank c)) (v == 2) _ _ (λ _. omega arith)
            (λ _. if_cases (OnSome (λ c. 0 < rank c)) (v == 3) _ _ (λ _. omega arith) (λ _. tt)))

  usable-Acceptable :
      (cert : List ℕ) → OnSome (Acceptable cert) (usable verify ignore_timestamp now cert)
  unfolding usable
  usable-Acceptable cert =
      if_cases (OnSome (Acceptable cert)) (ltb (length cert) 124) _ _ (λ _. tt)
        (λ l.
          if_cases (OnSome (Acceptable cert)) (not (name_eq (take 4 cert) cert_magic)) _ _ (λ _. tt)
            (λ m. elim (Option-cases (construction_of (uint16_of (slice 4 6 cert)))) [
              | inl e ↦ rw (e) tt
              | inr (c, e) ↦ rw (e) (
                  signed_facts-Acceptable c cert e (ltb→le _ _ l)
                    ((name_eq_iff (take 4 cert) cert_magic).0 (not-false _ m)))
            ]))

  -- The tests of the loop take exactly the acceptable certificates.
  pub usable-exact :
      (cert : List ℕ) (f : Facts)
      → (usable verify ignore_timestamp now cert ≡ some f) ↔ Acceptable cert f
  unfolding usable signed_facts
  usable-exact cert f = (
    λ u. subst (OnSome (Acceptable cert)) u (usable-Acceptable cert),
    λ a.
        rw
          (
            le→ltb (length cert) 124 a.long,
            (name_eq_iff (take 4 cert) cert_magic).1 a.magic,
            a.version,
            a.long_pq,
            a.signature,
            a.profile,
            facts_at_bytes a.construction cert,
            sym a.of_bytes,
          )
          (in_time_self f a.ordered a.current),
  )

  pub Acceptable-rank : (cert : List ℕ) (f : Facts) → Acceptable cert f → 0 < rank f.construction
  Acceptable-rank cert f a = rw (a.of_bytes) (
      subst (OnSome (λ k. 0 < rank k)) a.version
        (construction_of-positive (uint16_of (slice 4 6 cert))))
