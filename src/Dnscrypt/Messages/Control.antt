-- ===== src/Dnscrypt/Messages/Control.antt =====
-- pkg/dnscrypt/crypto.go, the end of Decrypt, and pqStripControl of pq.go: what an opened box holds.
use proksitool.Base.{
  ltb→le, ℕ, ◌+◌, ◌≤◌, ◌≡◌, refl, sym, List, ltb, length, Outcome, ok, err, arith, Returns,
  Returns-map, Outcome-cases, if_cases, inl, inr,
}
use mathlib.Core.Path.{subst}
use proksitool.Dnscrypt.Padding.{unpad, unpad-Returns}
use proksitool.Dnscrypt.Certs.{slice_at-ok, uint16_of}
use proksitool.Dnscrypt.Resumption.{Kdf, Resumption, ControlError, pq_strip_control, split_control}
use proksitool.Dnscrypt.Messages.{from_unpad, unpad_response, after_control}

pub unpad_response-only :
    (body : List ℕ)
    → Returns (λ packet. (unpad body ≡ ok packet) × (17 ≤ length packet)) (unpad_response body)
unfolding unpad_response from_unpad
unpad_response-only body = elim (Outcome-cases (unpad body) (unpad-Returns body)) [
  | inl (packet, e) ↦ rw (e) (
      if_cases (Returns (λ p. (ok packet ≡ ok p) × (17 ≤ length p))) (ltb (length packet) 17) _ _
        (λ _. tt) (λ h. (refl, ground (arith, h))))
  | inr (x, e) ↦ rw (e) tt
]

split_control-Returns : (p : List ℕ) → Returns (λ r. Unit) (split_control p)
unfolding split_control
split_control-Returns p =
    if_cases (Returns (λ r. Unit)) (ltb (length p) 2) _ _ (λ _. tt)
      (λ _.
        if_cases (Returns (λ r. Unit)) (ltb (length p) (2 + uint16_of p)) _ _ (λ _. tt)
          (λ e.
            let inside : 2 + uint16_of p ≤ length p = ltb→le (length p) (2 + uint16_of p) e in
            rw
              (
                slice_at-ok {E = ControlError} 2 (2 + uint16_of p) p (omega arith) inside,
                slice_at-ok {E = ControlError} (2 + uint16_of p) (length p) p inside (omega arith),
              )
              tt))

module _ (kdf : Kdf) (magic key nonce : List ℕ) (query_epoch current now : ℕ) where
  pub stripped-ok :
      (p control body : List ℕ) (s : Resumption)
      → split_control p ≡ ok (control, body)
      → (t : Resumption) × (pq_strip_control kdf magic key nonce query_epoch current now p s
          ≡ (t, ok body))
  unfolding pq_strip_control
  stripped-ok p control body s e =
      rw (e, pq_strip_control)
        (if_cases
          (λ (r : Resumption × Outcome ControlError (List ℕ)).
            (t : Resumption) × (r ≡ (t, ok body)))
          (ltb 0 (length control)) _ _ (λ _. (_, refl)) (λ _. (s, refl)))

  stripped-err :
      (p : List ℕ) (x : ControlError) (s : Resumption)
      → split_control p ≡ err x
      → pq_strip_control kdf magic key nonce query_epoch current now p s ≡ (s, err x)
  unfolding pq_strip_control
  stripped-err p x s e = rw (e, pq_strip_control) refl

  pub after_control-only :
      (p : List ℕ) (s : Resumption)
      → Returns
          (λ packet.
            (body : List ℕ) × ((control : List ℕ) × (split_control p ≡ ok (control, body)))
            × (unpad body ≡ ok packet)
            × (17 ≤ length packet))
          ((after_control (pq_strip_control kdf magic key nonce query_epoch current now p s)).1)
  unfolding after_control
  after_control-only p s = elim (Outcome-cases (split_control p) (split_control-Returns p)) [
    | inl ((control, body), e) ↦
        let (t, q) = stripped-ok p control body s e in
        subst (λ (r : Resumption × Outcome ControlError (List ℕ)). Returns P ((after_control r).1))
          (sym q)
          (Returns-map _ P (unpad_response body) (λ packet (u, l). (body, (control, e), u, l))
            (unpad_response-only body))
    | inr (x, e) ↦
        subst (λ (r : Resumption × Outcome ControlError (List ℕ)). Returns P ((after_control r).1))
          (sym (stripped-err p x s e)) tt
  ]
    where
      P : List ℕ → Type 0
      P packet =
          (body : List ℕ) × ((control : List ℕ) × (split_control p ≡ ok (control, body)))
          × (unpad body ≡ ok packet)
          × (17 ≤ length packet)
