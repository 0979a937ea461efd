-- ===== src/Desync/Split.antt =====
-- pkg/spoofdpi/internal/desync/tls.go: the functions that cut a message into segments. The mask of
-- `genPatternMask`, the draws of `rand.IntN` and `slices.SortFunc` are parameters.
pub mod Cuts
pub mod Reassembly
use proksitool.Base.{
  ℕ, zero, suc, ◌+◌, ◌-◌, ◌*◌, ◌/◌, ◌%◌, ◌^◌, min, max, bit_and, Bool, true, false, not, ◌&&◌, ◌||◌,
  List, [], ◌∷◌, ltb, leb, ◌==◌, if◌then◌else◌, length, get_elem?, take, drop, Outcome, ok, err,
  out_of_fuel, panic, ◌>>=◌, or_panic,
}
use proksitool.Base.Int.{ℤ, pos, negsuc, ◌+ℤ◌, ◌-ℤ◌, clamp_low, wrap_int}
use proksitool.Proto.Tls.{TlsMessage, TlsError, extract_sni_offset}

pub record Segment : Type 0 where
  pub packet : List ℕ
  pub lazy : Bool

abbrev pub segment : List ℕ → Bool → Segment
segment packet lazy = record { packet = packet; lazy = lazy }

pub data SplitError : Type 0 where
  empty_data zero_size too_short bad_order out_of_range : SplitError
  tls : TlsError → SplitError

abbrev pub Segments : Type 0
Segments = Outcome SplitError (List Segment)

-- `raw[a:b]`, with the panic out of range; Go would allow `b` up to the capacity of `raw`, which is
-- taken to be its length.
unfoldable pub slice : List ℕ → ℕ → ℕ → Outcome SplitError (List ℕ)
slice raw a b = if leb a b && leb b (length raw) then ok (take (b - a) (drop a raw)) else panic

-- A segment in front of those that the rest of a loop gives.
abbrev pub and_then : Segment → Segments → Segments
and_then s rest = do segments ← rest; ok (s ∷ segments)

-- The segment `raw[a:b]` in front of the others.
unfoldable pub piece : List ℕ → ℕ → ℕ → Bool → Segments → Segments
unfolding slice
piece raw a b lazy rest = do packet ← slice raw a b; and_then (segment packet lazy) rest

-- The loop of `splitChunks`: `raw` is what is left, and a round takes a byte of it at least.
unfoldable pub chunks : ℕ → List ℕ → ℕ → Bool → Bool → Segments
unfolding piece
chunks fuel [] size disorder cur_disorder = ok []
chunks zero (b ∷ raw) size disorder cur_disorder = out_of_fuel
chunks (suc fuel) (b ∷ raw) size disorder cur_disorder =
    let n = min (length (b ∷ raw)) size in
    piece (b ∷ raw) 0 n (cur_disorder && disorder)
      (chunks fuel (drop n (b ∷ raw)) size disorder (not cur_disorder))

unfoldable pub split_chunks : List ℕ → ℕ → Bool → Segments
unfolding chunks
split_chunks raw size disorder =
    if length raw == 0
    then err empty_data
    else if size == 0
    then err zero_size
    else chunks (length raw) raw size disorder true

unfoldable pub split_first_byte : List ℕ → Bool → Segments
unfolding piece
split_first_byte raw disorder =
    if ltb (length raw) 2
    then err too_short
    else piece raw 0 1 (disorder && true) (piece raw 1 (length raw) false (ok []))

-- The loop of `splitSNI` over `n` bytes from `i` on, one segment for each, and the segment after it.
unfoldable pub sni_bytes : ℕ → ℕ → List ℕ → Bool → Bool → Segments
unfolding piece
sni_bytes zero i raw disorder cur_disorder =
    piece raw i (length raw) (cur_disorder && disorder) (ok [])
sni_bytes (suc n) i raw disorder cur_disorder = do
  b ← or_panic (get_elem? raw i)
  and_then (segment (b ∷ []) (cur_disorder && disorder))
      (sni_bytes n (i + 1) raw disorder (not cur_disorder))

-- Offsets are numbers here, so the tests `start < 0` and `end < 0` have no counterpart.
unfoldable pub split_sni : List ℕ → ℕ → ℕ → Bool → Segments
unfolding sni_bytes
split_sni raw start stop disorder =
    if length raw == 0
    then err empty_data
    else if ltb stop start
    then err bad_order
    else if not (ltb start (length raw)) || not (ltb stop (length raw))
    then err out_of_range
    else piece raw 0 start false (sni_bytes (stop - start) start raw disorder true)

-- `bits.RotateLeft64(c, 1)`
abbrev pub rotate_left_one : ℕ → ℕ
rotate_left_one c = c * 2 % 2 ^ 64 + c / 2 ^ 63

-- The loop of `splitMask` for `n` more bytes, at `i`; the bytes from `start` on are not sent yet.
unfoldable pub mask_loop : ℕ → ℕ → ℕ → ℕ → List ℕ → ℕ → Bool → Bool → Segments
unfolding piece
mask_loop zero i start cur_bit raw mask disorder cur =
    if ltb start (length raw) then piece raw start (length raw) (cur && disorder) (ok []) else ok []
mask_loop (suc n) i start cur_bit raw mask disorder cur =
    let rest = λ (from : ℕ) (turn : Bool).
      mask_loop n (i + 1) from (rotate_left_one cur_bit) raw mask disorder turn in
    let here = λ (turn : Bool) (after : Segments). piece raw i (i + 1) (turn && disorder) after in
    elim (bit_and mask cur_bit == cur_bit) [
      | true ↦ elim (ltb start i) [
        | true ↦ piece raw start i (cur && disorder) (here (not cur) (rest (i + 1) cur))
        | false ↦ here cur (rest (i + 1) (not cur))
      ]
      | false ↦ rest start cur
    ]

unfoldable pub split_mask : List ℕ → ℕ → Bool → Segments
unfolding mask_loop
split_mask raw mask disorder =
    if length raw == 0 then err empty_data else mask_loop (length raw) 0 0 1 raw mask disorder true

-- `SegmentFromType` and `SegmentPlan` of config/types.go
pub data SegmentFrom : Type 0 where
  head sni : SegmentFrom

pub record SegmentPlan : Type 0 where
  pub from : SegmentFrom
  pub at : ℤ
  pub lazy : Bool
  pub noise : ℤ

pub record SplitPoint : Type 0 where
  pub at : ℕ
  pub lazy : Bool

-- `rand.IntN(n)`, for the plan at an index of the list.
abbrev pub Draws : Type 0
Draws = ℕ → ℕ → ℕ

-- A panic where its argument, an int, is not positive.
unfoldable pub int_n : Draws → ℕ → ℤ → Outcome SplitError ℕ
int_n rand i (pos zero) = panic
int_n rand i (pos (suc n)) = ok (rand i (suc n))
int_n rand i (negsuc n) = panic

unfoldable pub add_noise : Draws → ℕ → ℤ → ℤ → Outcome SplitError ℤ
unfolding int_n
add_noise rand i (pos zero) at = ok at
add_noise rand i (pos (suc n)) at = do
  draw ← int_n rand i (wrap_int (pos (suc n * 2 + 1)))
  ok (wrap_int (at +ℤ (pos draw -ℤ pos (suc n))))
add_noise rand i (negsuc n) at = ok at

unfoldable pub plan_base : SegmentFrom → ℕ → ℕ
plan_base head sni_start = 0
plan_base sni sni_start = sni_start

-- The first loop of `applySegmentPlans`: where each plan cuts, held within the message.
unfoldable pub split_points :
    Draws → ℕ → List SegmentPlan → ℕ → ℕ → Outcome SplitError (List SplitPoint)
unfolding add_noise plan_base
split_points rand i [] sni_start len = ok []
split_points rand i (p ∷ plans) sni_start len = do
  at ← add_noise rand i p.noise (wrap_int (pos (plan_base p.from sni_start) +ℤ p.at))
  points ← split_points rand (i + 1) plans sni_start len
  ok (record { at = min (clamp_low at) len; lazy = p.lazy } ∷ points)

-- The second loop of `applySegmentPlans`, and the segment after it.
unfoldable pub cut : List ℕ → ℕ → List SplitPoint → Segments
unfolding piece
cut raw prv [] = if ltb prv (length raw) then piece raw prv (length raw) false (ok []) else ok []
cut raw prv (p ∷ points) = elim (p.at == prv) [
  | true ↦ cut raw prv points
  | false ↦ piece raw prv p.at p.lazy (cut raw p.at points)
]

abbrev pub Sorting : Type 0
Sorting = List SplitPoint → List SplitPoint

abbrev pub from_tls {ℓ} : {A : Type ℓ} → Outcome TlsError A → Outcome SplitError A
from_tls (ok a) = ok a
from_tls (err e) = err (tls e)
from_tls panic = panic
from_tls out_of_fuel = out_of_fuel

unfoldable pub apply_segment_plans : Draws → Sorting → List ℕ → List SegmentPlan → Segments
unfolding split_points cut
apply_segment_plans rand sort raw plans = do
  (sni_start, _) ← from_tls (extract_sni_offset raw)
  points ← split_points rand 0 plans sni_start (length raw)
  cut raw 0 (sort points)

-- `HTTPSSplitModeType`; `unsupported` stands for a value outside its constants.
pub data SplitMode : Type 0 where
  sni random chunk first_byte custom none unsupported : SplitMode

-- The fields of `HTTPSOptions` but for `FakePacket`, which `Desync.Send` adds.
pub record SplitOptions : Type 0 where
  pub mode : SplitMode
  pub disorder : Bool
  pub chunk_size : ℕ
  pub plans : List SegmentPlan

-- What the program takes from outside: the mask, the draws and the sorting function.
pub record Chance : Type 0 where
  pub mask : ℕ
  pub rand : Draws
  pub sort : Sorting

unfoldable pub split_by_mode : Chance → List ℕ → SplitOptions → SplitMode → Segments
unfolding split_sni split_mask split_chunks split_first_byte apply_segment_plans
split_by_mode c raw o sni = do
  (start, stop) ← from_tls (extract_sni_offset raw)
  split_sni raw start stop o.disorder
split_by_mode c raw o random = split_mask raw c.mask o.disorder
split_by_mode c raw o chunk = split_chunks raw o.chunk_size o.disorder
split_by_mode c raw o first_byte = split_first_byte raw o.disorder
split_by_mode c raw o custom = apply_segment_plans c.rand c.sort raw o.plans
split_by_mode c raw o none = ok (segment raw false ∷ [])
split_by_mode c raw o unsupported = ok (segment raw false ∷ [])

-- An error of the chosen mode falls back to the whole message.
abbrev pub or_whole : List ℕ → Segments → Segments
or_whole raw (ok segments) = ok segments
or_whole raw (err e) = ok (segment raw false ∷ [])
or_whole raw panic = panic
or_whole raw out_of_fuel = out_of_fuel

unfoldable pub split : Chance → List ℕ → SplitOptions → Segments
unfolding split_by_mode
split c raw o = or_whole raw (split_by_mode c raw o o.mode)
