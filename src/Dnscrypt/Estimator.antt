-- ===== src/Dnscrypt/Estimator.antt =====
-- pkg/dnscrypt/estimators.go. The moving average is the parameters `A`, `set_average`, `add_sample`
-- and `value`, the last cut to a whole number.
use proksitool.Base.{ℕ, ◌-◌, ◌*◌, ◌/◌, ◌≤◌, ◌&&◌, ltb, max, if◌then◌else◌, arith}

abbrev pub initial_min_question_size : ℕ
initial_min_question_size = 512

abbrev pub max_dns_udp_packet_size : ℕ
max_dns_udp_packet_size = 4096

-- `QuestionSizeEstimator`.
pub record Estimator (A : Type 0) : Type 0 where
  pub min_question_size : ℕ
  pub average : A

unfoldable pub new_estimator : {A : Type 0} → A → Estimator A
new_estimator empty = record { min_question_size = initial_min_question_size; average = empty }

-- A size below 0 is below every size here as well, where subtraction stops at 0.
unfoldable pub doubled : ℕ → ℕ
doubled size =
    if ltb (max_dns_udp_packet_size - size) size then max_dns_udp_packet_size else size * 2

unfoldable pub blind_adjust : {A : Type 0} → (ℕ → A → A) → Estimator A → Estimator A
blind_adjust set_average e = record {
  min_question_size = doubled (Estimator.min_question_size e);
  average = set_average (doubled (Estimator.min_question_size e)) (Estimator.average e);
}

-- The new size, from the average.
unfoldable pub lowered : ℕ → ℕ → ℕ
lowered ma size =
    if ltb initial_min_question_size ma && ltb ma (size / 2)
    then max initial_min_question_size (size / 2)
    else size

unfoldable pub adjust : {A : Type 0} → (ℕ → A → A) → (A → ℕ) → ℕ → Estimator A → Estimator A
adjust add_sample value packet_size e =
    let average = add_sample packet_size (Estimator.average e) in
    record {
      min_question_size = lowered (value average) (Estimator.min_question_size e);
      average = average;
    }

-- Between the initial size and the largest packet of DNS over UDP.
pub record InBounds {A : Type 0} (e : Estimator A) : Type 0 where
  pub low : initial_min_question_size ≤ Estimator.min_question_size e
  pub high : Estimator.min_question_size e ≤ max_dns_udp_packet_size

doubled-bounds : (n : ℕ) → 512 ≤ n → n ≤ 4096 → (512 ≤ doubled n) × (doubled n ≤ 4096)
unfolding doubled
doubled-bounds n l h = ground arith

lowered-bounds : (ma n : ℕ) → 512 ≤ n → n ≤ 4096 → (512 ≤ lowered ma n) × (lowered ma n ≤ 4096)
unfolding lowered
lowered-bounds ma n l h = ground arith

-- Whatever the moving average does, both adjustments keep the smallest question size between the
-- initial size and the largest packet.
pub adjustments-InBounds :
    {A : Type 0} (set_average add_sample : ℕ → A → A) (value : A → ℕ) (size : ℕ) (e : Estimator A)
    → InBounds e
    → InBounds (blind_adjust set_average e) × InBounds (adjust add_sample value size e)
unfolding blind_adjust adjust
adjustments-InBounds set_average add_sample value size e b =
    let (l, h) =
      doubled-bounds (Estimator.min_question_size e) (InBounds.low b) (InBounds.high b) in
    let ma = value (add_sample size (Estimator.average e)) in
    let (l', h') =
      lowered-bounds ma (Estimator.min_question_size e) (InBounds.low b) (InBounds.high b) in
    (record { low = l; high = h }, record { low = l'; high = h' })
