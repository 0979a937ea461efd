-- ===== src/Dnscrypt/Padding.antt =====
-- pkg/dnscrypt/crypto.go, pad and unpad, and estimators.go with its moving average as a parameter.
use mathlib.Core.List.{reverse, reverse-append, reverse-reverse}
use proksitool.Base.{
  ℕ, zero, suc, ◌+◌, ◌-◌, ◌<◌, ◌≤◌, ◌≡◌, ◌∙◌, refl, not, ◌==◌, List, [], ◌∷◌, ◌++◌, if◌then◌else◌,
  Outcome, ok, err, length, length-append, arith, ap, Returns, if_cases,
}

pub data PadError : Type 0 where
  short_packet : PadError
  no_delimiter : PadError

-- The loop of pad, for as many rounds as bytes are missing.
unfoldable pub pad_loop : ℕ → List ℕ → List ℕ
pad_loop zero packet = packet
pad_loop (suc missing) packet = pad_loop missing (packet ++ (0 ∷ []))

unfoldable pub pad : List ℕ → ℕ → List ℕ
pad packet min_size = pad_loop (min_size - length (packet ++ (128 ∷ []))) (packet ++ (128 ∷ []))

-- The loop of unpad goes back from the end: it runs over the packet in reverse.
unfoldable pub unpad_back : List ℕ → Outcome PadError (List ℕ)
unpad_back [] = err short_packet
unpad_back (b ∷ before) =
    let rest = unpad_back before in
    if b == 128 then ok (reverse before) else if not (b == 0) then err no_delimiter else rest

unfoldable pub unpad : List ℕ → Outcome PadError (List ℕ)
unpad packet = unpad_back (reverse packet)

reverse-snoc : (b : ℕ) (l : List ℕ) → reverse (l ++ (b ∷ [])) ≡ b ∷ reverse l
reverse-snoc b l = rw (reverse-append l (b ∷ [])) refl

unpad_zero : (p : List ℕ) → unpad (p ++ (0 ∷ [])) ≡ unpad p
unfolding unpad unpad_back
unpad_zero p = rw (reverse-snoc 0 p) refl

unpad-pad_loop : (n : ℕ) (p : List ℕ) → unpad (pad_loop n p) ≡ unpad p
unfolding pad_loop
unpad-pad_loop zero p = refl
unpad-pad_loop (suc n) p = unpad-pad_loop n (p ++ (0 ∷ [])) ∙ unpad_zero p

length-pad_loop : (n : ℕ) (p : List ℕ) → length (pad_loop n p) ≡ n + length p
unfolding pad_loop
length-pad_loop zero p = omega arith
length-pad_loop (suc n) p =
    omega (arith, length-pad_loop n (p ++ (0 ∷ [])), length-append p (0 ∷ []))

unpad_back-Returns : (l : List ℕ) → Returns (λ p. Unit {0}) (unpad_back l)
unfolding unpad_back
unpad_back-Returns [] = tt
unpad_back-Returns (b ∷ l) =
    if_cases (Returns (λ p. Unit {0})) (b == 128) _ _ (λ _. tt)
      (λ _.
        if_cases (Returns (λ p. Unit {0})) (not (b == 0)) _ _ (λ _. tt) (λ _. unpad_back-Returns l))

pub unpad-Returns : (l : List ℕ) → Returns (λ p. Unit {0}) (unpad l)
unfolding unpad
unpad-Returns l = unpad_back-Returns (reverse l)

pub length-pad :
    (packet : List ℕ) (min_size : ℕ)
    → length packet < min_size
    → length (pad packet min_size) ≡ min_size
unfolding pad
length-pad packet min_size h = omega (
  arith,
  length-pad_loop (min_size - length (packet ++ (128 ∷ []))) (packet ++ (128 ∷ [])),
  length-append packet (128 ∷ []),
)

-- Unpadding a padded packet gives the packet, whatever its bytes are, and the padded packet is
-- longer than the packet and at least as long as demanded.
pub unpad-pad :
    (packet : List ℕ) (min_size : ℕ)
    → (unpad (pad packet min_size) ≡ ok packet)
      × (length packet < length (pad packet min_size))
      × (min_size ≤ length (pad packet min_size))
unfolding pad unpad unpad_back
unpad-pad packet min_size = (
  unpad-pad_loop (min_size - length (packet ++ (128 ∷ []))) (packet ++ (128 ∷ []))
      ∙ rw (reverse-snoc 128 packet) (ap ok (reverse-reverse packet)),
  omega (
    arith,
    length-pad_loop (min_size - length (packet ++ (128 ∷ []))) (packet ++ (128 ∷ [])),
    length-append packet (128 ∷ []),
  ),
  omega (
    arith,
    length-pad_loop (min_size - length (packet ++ (128 ∷ []))) (packet ++ (128 ∷ [])),
    length-append packet (128 ∷ []),
  ),
)
