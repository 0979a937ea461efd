-- ===== src/Tests/Dnscrypt.antt =====
-- pkg/dnscrypt/time_ranges.go and crypto.go: a range over midnight, a time, and a padded packet.
use proksitool.Base.{
  ◌/◌, ◌+◌, ℕ, ◌-◌, ◌≡◌, ◌≤◌, ◌<◌, refl, List, [], ◌∷◌, Option, some, none, true, arith, ok, err,
  length,
}
use proksitool.Base.Int.{ℤ, pos}
use proksitool.Dnscrypt.Times.{
  in_range, new_range, in_range-new_range, day_secs_from_str, secs_from_parts, in_bounds,
  split_at_byte,
}
use proksitool.Dnscrypt.Estimator.{Estimator, doubled, blind_adjust}
use proksitool.Dnscrypt.Padding.{pad, unpad, unpad_back, unpad-pad, no_delimiter}

in_range-new_range_example : in_range 3600 (new_range 79200 18000) ≡ true
in_range-new_range_example =
    in_range-new_range 79200 18000 3600 (omega arith) (omega arith) (omega arith)

-- One digit.
abbrev digit : List ℕ → Option ℤ
digit (b ∷ []) = some (pos (b - b'0'))
digit s = none

nine_oh_five : day_secs_from_str digit (b'9' ∷ b':' ∷ b'5' ∷ []) ≡ ok 32700
unfolding day_secs_from_str secs_from_parts in_bounds split_at_byte
nine_oh_five = refl

not_padded : unpad (1 ∷ 128 ∷ 7 ∷ []) ≡ err no_delimiter
unfolding unpad unpad_back
not_padded = refl

unpad-pad_example :
    (unpad (pad (128 ∷ 0 ∷ []) 6) ≡ ok (128 ∷ 0 ∷ []))
    × (2 < length (pad (128 ∷ 0 ∷ []) 6))
    × (6 ≤ length (pad (128 ∷ 0 ∷ []) 6))
unpad-pad_example = unpad-pad (128 ∷ 0 ∷ []) 6

-- An average that forgets half of its value with each sample.
abbrev half : ℕ → ℕ → ℕ
half n a = (n + a) / 2

abbrev estimator : Estimator ℕ
estimator = record { min_question_size = 2049; average = 600 }

estimator_doubled : Estimator.min_question_size (blind_adjust (λ n a. n) estimator) ≡ 4096
unfolding blind_adjust doubled
estimator_doubled = refl
