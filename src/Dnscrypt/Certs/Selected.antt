-- ===== src/Dnscrypt/Certs/Selected.antt =====
-- pkg/dnscrypt/dnscrypt_certs.go: which of the certificates is taken.
use mathlib.Core.List.{Memᴰ}
use mathlib.Core.List.Memᴰ.{head, tail}
use mathlib.Core.Path.{subst}
use proksitool.Base.{
  ℕ, ◌≤◌, ◌<◌, ◌≡◌, ◌⊎◌, inl, inr, refl, sym, ◌∙◌, Bool, true, false, List, [], ◌∷◌, Option, none,
  some, Outcome, ok, err, panic, out_of_fuel, arith, if_cases, Option-cases,
}
use proksitool.Dnscrypt.Keys.{Construction, undefined, rank, Exchange}
use proksitool.Dnscrypt.Certs.{
  CertInfo, Facts, Selection, no_selection, is_pq, supersedes, usable, cert_info, consider, select,
  CertError, no_usable_certificate, cert_result, fetch_current_dnscrypt_cert,
}
use proksitool.Dnscrypt.Certs.Trust.{Acceptable, usable-exact, Acceptable-rank}

-- A certificate of lower serial number, or of the same one and no better construction.
abbrev pub NotAbove : Facts → ℕ → Construction → Type 0
NotAbove f serial c = (f.serial < serial) ⊎ ((f.serial ≡ serial) × (rank f.construction ≤ rank c))

cert_info-construction :
    (ex : Exchange) (draw secret : List ℕ) (f : Facts) (cert : List ℕ)
    → (cert_info ex draw secret f cert).construction ≡ f.construction
unfolding cert_info
cert_info-construction ex draw secret f cert =
    if_cases (λ (i : CertInfo). i.construction ≡ f.construction) (is_pq f.construction) _ _
      (λ _. refl) (λ _. refl)

supersedes-above :
    (f : Facts) (best : Selection)
    → supersedes f best ≡ true
    → (best.highest_serial < f.serial)
      ⊎ ((best.highest_serial ≡ f.serial) × (rank best.info.construction ≤ rank f.construction))
unfolding supersedes
supersedes-above f best h = ground (arith, h)

supersedes-not :
    (f : Facts) (best : Selection)
    → supersedes f best ≡ false
    → NotAbove f best.highest_serial best.info.construction
unfolding supersedes
supersedes-not f best h = ground (arith, h)

no_selection-error : cert_result no_selection.info ≡ err no_usable_certificate
unfolding cert_result rank
no_selection-error = refl

not_below_none : (f : Facts) → 0 < rank f.construction → ¬ NotAbove f 0 undefined
unfolding rank
not_below_none f h (inl l) = absurd (omega arith)
not_below_none f h (inr (_, l)) = absurd (omega arith)

cert_result-ok : (info : CertInfo) → 0 < rank info.construction → cert_result info ≡ ok info
unfolding cert_result
cert_result-ok info h = ground (arith, h)

module _ (ex : Exchange) (draw secret : List ℕ) (verify : List ℕ → List ℕ → Bool)
    (ignore_timestamp : Bool) (now : ℕ) where
  -- The selection made for a certificate, whatever the one before was.
  abbrev selected : Facts → List ℕ → Selection
  selected f cert = record { info = cert_info ex draw secret f cert; highest_serial = f.serial }

  -- Neither the certificates nor the selection made before are above the one made.
  record Best (answers : List (Option (List ℕ))) (before after : Selection) : Type 0 where
    above :
        (cert : List ℕ) (f : Facts)
        → Memᴰ (some cert) answers
        → usable verify ignore_timestamp now cert ≡ some f
        → NotAbove f after.highest_serial after.info.construction
    kept :
        (f : Facts)
        → NotAbove f before.highest_serial before.info.construction
        → NotAbove f after.highest_serial after.info.construction
    from :
        (after ≡ before)
        ⊎ ((cert : List ℕ) × (f : Facts) × Memᴰ (some cert) answers
            × (usable verify ignore_timestamp now cert ≡ some f)
            × (after ≡ selected f cert))

  selected-kept :
      (f : Facts) (cert : List ℕ) (best : Selection)
      → supersedes f best ≡ true
      → (g : Facts) → NotAbove g best.highest_serial best.info.construction
      → NotAbove g f.serial ((cert_info ex draw secret f cert).construction)
  selected-kept f cert best h g below =
      rw (cert_info-construction ex draw secret f cert)
        (ground (arith, supersedes-above f best h, below))

  selected_self :
      (f : Facts) (cert : List ℕ)
      → NotAbove f f.serial ((cert_info ex draw secret f cert).construction)
  selected_self f cert = rw (cert_info-construction ex draw secret f cert) (inr (refl, omega arith))

  same_facts :
      (c d : List ℕ) (g f : Facts)
      → some c ≡ some d
      → usable verify ignore_timestamp now c ≡ some g
      → usable verify ignore_timestamp now d ≡ some f
      → f ≡ g
  same_facts c d g f q u e = cc

  consider-Best :
      (answer : Option (List ℕ)) (best : Selection)
      → Best (answer ∷ []) best (consider ex draw secret verify ignore_timestamp now answer best)
  unfolding consider
  consider-Best none best = record {
    above = λ cert f i u. elim i [ head e ↦ cc | tail j ↦ elim j [ ] ];
    kept = λ f h. h;
    from = inl refl;
  }
  consider-Best (some cert) best = elim (Option-cases (usable verify ignore_timestamp now cert)) [
    | inl e ↦
        rw (e, consider)
          (record {
            above = λ c f i u. elim i [ head q ↦ cc | tail j ↦ elim j [ ] ];
            kept = λ f h. h;
            from = inl refl;
          })
    | inr (f, e) ↦
        rw (e, consider)
          (if_cases (Best (some cert ∷ []) best) (supersedes f best) _ _
            (λ h. record {
              above = λ c g i u. elim i [
                | head q ↦
                    subst
                      (λ (x : Facts).
                        NotAbove x f.serial ((cert_info ex draw secret f cert).construction))
                      (same_facts c cert g f q u e) (selected_self f cert)
                | tail j ↦ elim j [ ]
              ];
              kept = selected-kept f cert best h;
              from = inr (cert, f, head refl, e, refl);
            })
            (λ h. record {
              above = λ c g i u. elim i [
                | head q ↦
                    subst (λ (x : Facts). NotAbove x best.highest_serial best.info.construction)
                      (same_facts c cert g f q u e) (supersedes-not f best h)
                | tail j ↦ elim j [ ]
              ];
              kept = λ g below. below;
              from = inl refl;
            }))
  ]

  Best-trans :
      (answer : Option (List ℕ)) (answers : List (Option (List ℕ))) (s t u : Selection)
      → Best (answer ∷ []) s t
      → Best answers t u
      → Best (answer ∷ answers) s u
  Best-trans answer answers s t u a b = record {
    above = λ cert f i e. elim i [
      | head q ↦ b.kept f (a.above cert f (head q) e)
      | tail j ↦ b.above cert f j e
    ];
    kept = λ f h. b.kept f (a.kept f h);
    from = elim b.from [
      | inl e ↦ elim a.from [
        | inl d ↦ inl (e ∙ d)
        | inr (cert, f, i, v, d) ↦
            inr (cert, f, elim i [ head q ↦ head q | tail j ↦ elim j [ ] ], v, e ∙ d)
      ]
      | inr (cert, f, i, v, d) ↦ inr (cert, f, tail i, v, d)
    ];
  }

  select-Best :
      (answers : List (Option (List ℕ))) (best : Selection)
      → Best answers best (select ex draw secret verify ignore_timestamp now answers best)
  unfolding select
  select-Best [] best = record {
    above = λ cert f i u. elim i [ ];
    kept = λ f h. h;
    from = inl refl;
  }
  select-Best (answer ∷ answers) best =
      Best-trans answer answers best
        (consider ex draw secret verify ignore_timestamp now answer best) _
        (consider-Best answer best)
        (select-Best answers (consider ex draw secret verify ignore_timestamp now answer best))

  -- What the outcome says of the answers.
  abbrev pub Taken : List (Option (List ℕ)) → Outcome CertError CertInfo → Type 0
  Taken answers (ok info) =
      (cert : List ℕ) × (f : Facts) × Memᴰ (some cert) answers
      × Acceptable verify ignore_timestamp now cert f
      × (info ≡ cert_info ex draw secret f cert)
      × ((other : List ℕ) (g : Facts)
          → Memᴰ (some other) answers
          → Acceptable verify ignore_timestamp now other g
          → NotAbove g f.serial f.construction)
  Taken answers (err e) =
      (cert : List ℕ) (f : Facts)
      → Memᴰ (some cert) answers
      → ¬ Acceptable verify ignore_timestamp now cert f
  Taken answers panic = ⊥
  Taken answers out_of_fuel = ⊥

  usable_as :
      (cert : List ℕ) (f : Facts)
      → Acceptable verify ignore_timestamp now cert f
      → usable verify ignore_timestamp now cert ≡ some f
  usable_as cert f a = (usable-exact verify ignore_timestamp now cert f).1 a

  -- The certificate that is taken is one of the answers: whole, signed by the provider and, by the times
  -- in its bytes, valid now; of every other such answer the serial number is lower, or the same one with
  -- no better construction. There is an error exactly when no answer is such a certificate. The times
  -- do not count where they are to be ignored.
  pub fetch_current_dnscrypt_cert-Taken :
      (answers : List (Option (List ℕ)))
      → Taken answers
          (fetch_current_dnscrypt_cert ex draw secret verify ignore_timestamp now answers)
  unfolding fetch_current_dnscrypt_cert
  fetch_current_dnscrypt_cert-Taken answers = elim (best.from) [
    | inl e ↦ subst (λ (s : Selection). Taken answers (cert_result s.info)) (sym e) (nothing e)
    | inr (cert, f, i, u, e) ↦
        let accepted = (usable-exact verify ignore_timestamp now cert f).0 u in
        let known = cert_info-construction ex draw secret f cert in
        let positive = Acceptable-rank verify ignore_timestamp now cert f accepted in
        subst (λ (s : Selection). Taken answers (cert_result s.info)) (sym e)
          (subst (Taken answers)
            (sym (cert_result-ok (cert_info ex draw secret f cert) (rw known positive)))
            (
              cert,
              f,
              i,
              accepted,
              refl,
              λ other g j v. subst (NotAbove g f.serial) known (
                  subst (λ (s : Selection). NotAbove g s.highest_serial s.info.construction) e
                    (best.above other g j (usable_as other g v))),
            ))
  ]
    where
      after : Selection
      after = select ex draw secret verify ignore_timestamp now answers no_selection

      best : Best answers no_selection after
      best = select-Best answers no_selection

      nothing : after ≡ no_selection → Taken answers (cert_result no_selection.info)
      nothing e = subst (Taken answers) (sym no_selection-error) (λ cert f i a.
          not_below_none f (Acceptable-rank verify ignore_timestamp now cert f a) (
            subst (λ (s : Selection). NotAbove f s.highest_serial s.info.construction) e
              (best.above cert f i (usable_as cert f a))))
