-- ===== src/Dnscrypt/Times.antt =====
-- pkg/dnscrypt/time_ranges.go. `atoi` is strconv.Atoi, and the local time is an argument of Match.
use proksitool.Base.{
  ℕ, ◌+◌, ◌-◌, ◌*◌, ◌%◌, ◌<◌, ◌≤◌, ◌≡◌, Bool, true, false, not, ◌&&◌, ◌||◌, ◌==◌, List, [], ◌∷◌,
  Option, none, some, ltb, leb, if◌then◌else◌, Outcome, ok, err, ◌>>=◌, get_or, Returns, arith,
  Bool-cases, Option-cases, inl, inr, leb→le,
}
use proksitool.Base.Int.{ℤ, pos, negsuc, leb_ℤ}

pub record TimeRange : Type 0 where
  pub after : ℤ
  pub before : ℤ

pub record TimeRangeStr : Type 0 where
  pub after_str : List ℕ
  pub before_str : List ℕ

-- Sunday first.
abbrev pub WeeklyRanges : Type 0
WeeklyRanges = List (List TimeRange)

pub data TimeError : Type 0 where
  syntax : List ℕ → TimeError

abbrev pub colon : ℕ
colon = b':'

-- `strings.Split` at one byte.
unfoldable pub split_at_byte : ℕ → List ℕ → List (List ℕ)
split_at_byte d [] = [] ∷ []
split_at_byte d (b ∷ s) =
    let parts = split_at_byte d s in
    if b == d then [] ∷ parts else elim parts [ [] ↦ (b ∷ []) ∷ [] | p ∷ rest ↦ (b ∷ p) ∷ rest ]

-- A number between 0 and `high`; what `Atoi` refuses is `none`.
unfoldable pub in_bounds : ℕ → Option ℤ → Option ℕ
in_bounds high none = none
in_bounds high (some (negsuc n)) = none
in_bounds high (some (pos n)) = if ltb high n then none else some n

module _ (atoi : List ℕ → Option ℤ) where
  unfoldable pub secs_from_parts : List ℕ → List (List ℕ) → Outcome TimeError ℕ
  secs_from_parts str (h ∷ m ∷ []) = elim (in_bounds 23 (atoi h)) [
    | none ↦ err (syntax str)
    | some hours ↦ elim (in_bounds 59 (atoi m)) [
      | none ↦ err (syntax str)
      | some minutes ↦ ok ((hours * 60 + minutes) * 60)
    ]
  ]
  secs_from_parts str parts = err (syntax str)

  unfoldable pub day_secs_from_str : List ℕ → Outcome TimeError ℕ
  day_secs_from_str str = secs_from_parts str (split_at_byte colon str)

-- Two equal times stand for the whole day.
unfoldable pub new_range : ℕ → ℕ → TimeRange
new_range after before =
    if after == before
    then record { after = negsuc 0; before = pos 86402 }
    else record { after = pos after; before = pos before }

module _ (atoi : List ℕ → Option ℤ) where
  unfoldable pub parse_time_ranges : List TimeRangeStr → Outcome TimeError (List TimeRange)
  parse_time_ranges [] = ok []
  parse_time_ranges (r ∷ l) = do
    after ← day_secs_from_str atoi (TimeRangeStr.after_str r)
    before ← day_secs_from_str atoi (TimeRangeStr.before_str r)
    rest ← parse_time_ranges l
    ok (new_range after before ∷ rest)

  -- The days in their order, from Sunday.
  unfoldable pub parse_weekly_ranges : List (List TimeRangeStr) → Outcome TimeError WeeklyRanges
  parse_weekly_ranges [] = ok []
  parse_weekly_ranges (day ∷ days) = do
    ranges ← parse_time_ranges day
    rest ← parse_weekly_ranges days
    ok (ranges ∷ rest)

-- One round of the loop of Match.
unfoldable pub in_range : ℕ → TimeRange → Bool
in_range now r =
    if not (leb_ℤ (TimeRange.after r) (TimeRange.before r))
    then leb_ℤ (TimeRange.after r) (pos now) || leb_ℤ (pos now) (TimeRange.before r)
    else leb_ℤ (TimeRange.after r) (pos now) && leb_ℤ (pos now) (TimeRange.before r)

unfoldable pub any_range : ℕ → List TimeRange → Bool
any_range now [] = false
any_range now (r ∷ l) = let rest = any_range now l in if in_range now r then true else rest

unfoldable pub match_time : ℕ → ℕ → ℕ → WeeklyRanges → Bool
match_time day hour min weekly = any_range ((hour * 60 + min) * 60) (get_or weekly day [])

since :
    (a n : ℕ)
    → a < 86400
    → n < 86400
    → (n + 86400 - a) % 86400 ≡ (if leb a n then n - a else n + 86400 - a)
since a n ha hn = elim (Bool-cases (leb a n)) [
  | inl e ↦ rw e (omega (arith, leb→le a n e))
  | inr e ↦ let lt : n < a = ground (arith, e) in rw e (omega arith)
]

-- A range between two different times of a day holds the times that are, counted round the clock
-- from its start, no farther than its end; between equal times it holds the whole day.
pub in_range-new_range :
    (after before now : ℕ)
    → after < 86400
    → before < 86400
    → now < 86400
    → in_range now (new_range after before) ≡ (
        if after == before
        then true
        else leb ((now + 86400 - after) % 86400) ((before + 86400 - after) % 86400))
unfolding in_range new_range leb_ℤ
in_range-new_range after before now ha hb hn =
    rw (since after now ha hn, since after before ha hb)
      (elim (Bool-cases (after == before)) [
        | inl e ↦ rw e (ground arith)
        | inr e ↦ rw e (ground (arith, e))
      ])

in_bounds-le : (high : ℕ) (o : Option ℤ) (n : ℕ) → in_bounds high o ≡ some n → n ≤ high
unfolding in_bounds
in_bounds-le high none n e = cc
in_bounds-le high (some (negsuc m)) n e = cc
in_bounds-le high (some (pos m)) n e = ground arith

-- A time that is accepted is a whole minute of the day, whatever Atoi reads.
pub day_secs_from_str-Returns :
    (atoi : List ℕ → Option ℤ) (str : List ℕ)
    → Returns (λ t. (t < 86400) × (t % 60 ≡ 0)) (day_secs_from_str atoi str)
unfolding day_secs_from_str secs_from_parts
day_secs_from_str-Returns atoi str = go (split_at_byte colon str)
  where
    go :
        (parts : List (List ℕ))
        → Returns (λ t. (t < 86400) × (t % 60 ≡ 0)) (secs_from_parts atoi str parts)
    go [] = tt
    go (h ∷ []) = tt
    go (h ∷ m ∷ x ∷ l) = tt
    go (h ∷ m ∷ []) = elim (Option-cases (in_bounds 23 (atoi h))) [
      | inl e ↦ rw (e, secs_from_parts) tt
      | inr (hours, e) ↦ elim (Option-cases (in_bounds 59 (atoi m))) [
        | inl f ↦ rw (e, f, secs_from_parts) tt
        | inr (minutes, f) ↦
            rw (e, f, secs_from_parts)
              (
                omega (arith, in_bounds-le 23 (atoi h) hours e, in_bounds-le 59 (atoi m) minutes f),
                omega arith,
              )
      ]
    ]
