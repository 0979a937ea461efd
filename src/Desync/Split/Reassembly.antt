-- ===== src/Desync/Split/Reassembly.antt =====
-- pkg/spoofdpi/internal/desync/tls.go, applySegmentPlans and split: whatever the mode, the
-- segments are the message.
use mathlib.Core.List.{Permᴰ}
use proksitool.Base.{
  ℕ, zero, suc, ◌+◌, ◌*◌, ◌^◌, ◌<◌, ◌≤◌, min, ◌≡◌, refl, List, [], ◌∷◌, arith, length, All, Outcome,
  ok, err, panic, out_of_fuel, ◌>>=◌, Returns, append-nil, false,
}
use proksitool.Base.Int.{ℤ, pos, negsuc, pos_part, ◌+ℤ◌, clamp_low, wrap_int, wrap_int-small}
use proksitool.Proto.Tls.{TlsError, extract_sni_offset}
use proksitool.Proto.Tls.Bounds.{InBounds, extract_sni_offset-Returns}
use proksitool.Desync.Split.{
  Segment, segment, Segments, SplitPoint, SegmentPlan, Draws, Sorting, Chance, SplitOptions,
  SplitMode, from_tls, split_points, add_noise, int_n, plan_base, apply_segment_plans,
  split_by_mode, or_whole, split,
}
use proksitool.Desync.Split.Cuts.{
  Carries, Ascends, split_chunks-Carries, split_first_byte-Carries, split_sni-Carries,
  split_mask-Carries, cut-Carries,
}

-- What `slices.SortFunc` with the order of `at` promises; it need not be stable.
pub record Sorts (sort : Sorting) : Type 0 where
  pub permutes : (points : List SplitPoint) → Permᴰ points (sort points)
  pub ascends : (points : List SplitPoint) → Ascends 0 (sort points)

All-Permᴰ : (P : SplitPoint → Type 0) {xs ys : List SplitPoint} → Permᴰ xs ys → All P xs → All P ys
All-Permᴰ P Permᴰ.nil h = h
All-Permᴰ P (Permᴰ.cons e p) (x, h) = (rw e at x, All-Permᴰ P p h)
All-Permᴰ P (Permᴰ.swap e f) (x, (y, h)) = (rw f at y, (rw e at x, h))
All-Permᴰ P (Permᴰ.trans p q) h = All-Permᴰ P q (All-Permᴰ P p h)

-- The noise of each plan is below 2^62, so that twice the noise and one is an int.
abbrev pub NoiseFits : SegmentPlan → Type 0
NoiseFits p = pos_part p.noise < 2 ^ 62

add_noise-Returns :
    (rand : Draws) (i : ℕ) (noise at : ℤ)
    → pos_part noise < 2 ^ 62
    → (after : ℤ) × (add_noise rand i noise at ≡ ok after)
unfolding add_noise int_n
add_noise-Returns rand i (pos zero) at h = (at, refl)
add_noise-Returns rand i (pos (suc n)) at h =
    let e = wrap_int-small (suc n * 2 + 1) (omega arith) in
    let f : suc n * 2 + 1 ≡ suc (suc n * 2) = omega arith in rw (e, f) (_, refl)
add_noise-Returns rand i (negsuc n) at h = (at, refl)

-- Every cut point is held within the message, whatever the draws are.
split_points-All :
    (rand : Draws) (i : ℕ) (plans : List SegmentPlan) (sni_start len : ℕ)
    → All NoiseFits plans
    → (points : List SplitPoint) × (split_points rand i plans sni_start len ≡ ok points)
      × All (λ p. p.at ≤ len) points
unfolding split_points
split_points-All rand i [] sni_start len h = ([], refl, tt)
split_points-All rand i (p ∷ plans) sni_start len (small, h) =
    let (at, e) =
      add_noise-Returns rand i p.noise (wrap_int (pos (plan_base p.from sni_start) +ℤ p.at))
        small in
    let (points, f, inside) = split_points-All rand (i + 1) plans sni_start len h in
    (
      record { at = min (clamp_low at) len; lazy = p.lazy } ∷ points,
      rw (e, f) refl,
      (omega arith, inside),
    )

from_tls-bind :
    (P : List Segment → Type 0) (raw : List ℕ) (r : Outcome TlsError (ℕ × ℕ)) (f : ℕ × ℕ → Segments)
    → Returns (InBounds raw) r
    → ((offsets : ℕ × ℕ) → InBounds raw offsets → Returns P (f offsets))
    → Returns P (from_tls r >>= f)
from_tls-bind P raw (ok offsets) f h k = k offsets h
from_tls-bind P raw (err e) f h k = tt
from_tls-bind P raw panic f h k = h
from_tls-bind P raw out_of_fuel f h k = h

module _ (c : Chance) (sorts : Sorts c.sort) (raw : List ℕ) where
  apply_segment_plans-Carries :
      (plans : List SegmentPlan)
      → All NoiseFits plans
      → Returns (Carries raw) (apply_segment_plans c.rand c.sort raw plans)
  unfolding apply_segment_plans
  apply_segment_plans-Carries plans small =
      from_tls-bind (Carries raw) raw (extract_sni_offset raw) _ (extract_sni_offset-Returns raw)
        λ (start, _) _.
          let (points, e, inside) = split_points-All c.rand 0 plans start (length raw) small in
          rw e (
            cut-Carries raw 0 (c.sort points) (sorts.ascends points)
              (All-Permᴰ (λ p. p.at ≤ length raw) (sorts.permutes points) inside))

  split_by_mode-Carries :
      (o : SplitOptions) (mode : SplitMode)
      → All NoiseFits o.plans
      → Returns (Carries raw) (split_by_mode c raw o mode)
  unfolding split_by_mode
  split_by_mode-Carries o SplitMode.sni small =
      from_tls-bind (Carries raw) raw (extract_sni_offset raw) _ (extract_sni_offset-Returns raw)
        λ (start, stop) _. split_sni-Carries raw start stop o.disorder
  split_by_mode-Carries o SplitMode.random small = split_mask-Carries raw c.mask o.disorder
  split_by_mode-Carries o SplitMode.chunk small = split_chunks-Carries raw o.chunk_size o.disorder
  split_by_mode-Carries o SplitMode.first_byte small = split_first_byte-Carries raw o.disorder
  split_by_mode-Carries o SplitMode.custom small = apply_segment_plans-Carries o.plans small
  split_by_mode-Carries o SplitMode.none small = append-nil raw
  split_by_mode-Carries o SplitMode.unsupported small = append-nil raw

  or_whole-Carries :
      (r : Segments)
      → Returns (Carries raw) r
      → (segments : List Segment) × (or_whole raw r ≡ ok segments) × Carries raw segments
  or_whole-Carries (ok segments) h = (segments, refl, h)
  or_whole-Carries (err e) h = (segment raw false ∷ [], refl, append-nil raw)
  or_whole-Carries panic h = absurd h
  or_whole-Carries out_of_fuel h = absurd h

  -- For every message and every split mode, `split` returns segments (it neither panics nor fails)
  -- whose packets, put together in order, are the message, if the sorting function sorts and the noise
  -- of every plan is below 2^62.
  pub split-Carries :
      (o : SplitOptions)
      → All NoiseFits o.plans
      → (segments : List Segment) × (split c raw o ≡ ok segments) × Carries raw segments
  unfolding split
  split-Carries o small =
      or_whole-Carries (split_by_mode c raw o o.mode) (split_by_mode-Carries o o.mode small)
