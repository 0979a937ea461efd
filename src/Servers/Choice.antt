-- ===== src/Servers/Choice.antt =====
-- pkg/dnscrypt/serversInfo.go: choosing a server ends without a panic and loses no server.
use mathlib.Core.List.Perm
use native.Mathlib.Nat.{mod-lt}
use proksitool.Base.{
  ℕ, ◌+◌, ◌/◌, ◌%◌, ◌<◌, ◌≤◌, ◌≡◌, ◌≢◌, ◌⊎◌, inl, inr, refl, Bool, true, false, ◌==◌, List, [], ◌∷◌,
  some, leb, le→leb, Returns-bind, min, length, if◌then◌else◌, ok, get_elem?, if_cases, Bool-cases,
  arith, Returns, get_elem?-some,
}
use proksitool.Servers.{
  Floats, Average, Server, Strategy, p2, pn, ph, first, random, wp2, get_candidate, Draws,
  estimator_update, recover_dormant, server_score, draw_other, better, weigh,
  get_weighted_candidate, choose_plain, choose, get_one,
}
use proksitool.Servers.Order.{
  intn-ok, Same, estimator_update-Same, recover_dormant-Same, Same-length,
}

-- One of the draws names another server than `one`.
abbrev pub Another : ℕ → ℕ → List ℕ → Type 0
Another n one [] = ⊥
Another n one (d ∷ draws) = (d % n ≢ one) ⊎ Another n one draws

-- The draws that WP2 needs: with two servers at least, two that name different ones.
abbrev pub Settles : ℕ → List ℕ → Type 0
Settles n [] = ⊥
Settles n (d ∷ draws) = Another n (d % n) draws

-- What the strategy asks of its number and of the draws, for `n` servers.
abbrev pub Playable : Strategy → Draws → ℕ → Type 0
Playable p2 d n = Unit
Playable (pn k) d n = 0 < k
Playable ph d n = Unit
Playable first d n = Unit
Playable random d n = Unit
Playable wp2 d n = (n ≤ 1) ⊎ Settles n d.pair

draw_other-Returns :
    (n one : ℕ) (draws : List ℕ)
    → 0 < n
    → Another n one draws
    → Returns (λ j. (j < n) × (j ≢ one)) (draw_other n one draws)
unfolding draw_other
draw_other-Returns n one [] pos h = absurd h
draw_other-Returns n one (d ∷ draws) pos h = elim (Bool-cases (d % n == one)) [
  | inl e ↦ rw e (
      draw_other-Returns n one draws pos
        (elim h [ inl ne ↦ absurd (ne (ground (arith, e))) | inr later ↦ later ]))
  | inr e ↦ rw e (mod-lt d pos, ground (arith, e))
]

get_candidate-Returns :
    (strategy : Strategy) (d : Draws) (n : ℕ)
    → 0 < n
    → strategy ≢ wp2
    → Playable strategy d n
    → Returns (λ i. i < n) (get_candidate strategy d.candidate n)
unfolding get_candidate
get_candidate-Returns p2 d n h w p =
    let k : 0 < min n 2 = omega arith in
    rw (intn-ok d.candidate (min n 2) k) (omega (arith, mod-lt d.candidate k))
get_candidate-Returns (pn m) d n h w p =
    let k : 0 < min n m = omega arith in
    rw (intn-ok d.candidate (min n m) k) (omega (arith, mod-lt d.candidate k))
get_candidate-Returns ph d n h w p =
    let k : 0 < (n + 1) / 2 = omega arith in
    rw (intn-ok d.candidate ((n + 1) / 2) k) (omega (arith, mod-lt d.candidate k))
get_candidate-Returns first d n h w p = h
get_candidate-Returns random d n h w p = rw (intn-ok d.candidate n h) (mod-lt d.candidate h)
get_candidate-Returns wp2 d n h w p = absurd (w refl)

module _ {F A : Type 0} (fl : Floats F) (av : Average F A) where
  -- Of two servers the one with the lower score is never chosen.
  better-Returns :
      (i j : ℕ) (coin : Bool) (l : List (Server A))
      → i < length l
      → j < length l
      → Returns (λ k. k < length l) (better fl av i j coin l)
  unfolding better
  better-Returns i j coin l hi hj =
      let (s, es) = get_elem?-some l i hi in
      let (t, et) = get_elem?-some l j hj in
      rw (es, et)
        (if_cases (Returns (λ k. k < length l))
          (fl.lt (server_score fl av t) (server_score fl av s)) _ _ (λ _. hi)
          (λ _.
            if_cases (Returns (λ k. k < length l))
              (fl.lt (server_score fl av s) (server_score fl av t)) _ _ (λ _. hj)
              (λ _. if_cases (λ k. k < length l) coin _ _ (λ _. hi) (λ _. hj))))

  weigh-Returns :
      (draws : List ℕ) (coin : Bool) (l : List (Server A))
      → 0 < length l
      → Settles (length l) draws
      → Returns (λ i. i < length l) (weigh fl av draws coin l)
  unfolding weigh
  weigh-Returns [] coin l pos h = absurd h
  weigh-Returns (d ∷ draws) coin l pos h =
      Returns-bind _ _ (draw_other (length l) (d % length l) draws) _
        (draw_other-Returns (length l) (d % length l) draws pos h)
        (λ j (jn, ne). better-Returns (d % length l) j coin l (mod-lt d pos) jn)

  weighted-Returns :
      (d : Draws) (l : List (Server A))
      → 0 < length l
      → Playable wp2 d (length l)
      → Returns (λ i. i < length l) (get_weighted_candidate fl av d.pair d.coin l)
  unfolding get_weighted_candidate
  weighted-Returns d l pos (inl few) = rw (le→leb (length l) 1 few) pos
  weighted-Returns d l pos (inr s) =
      if_cases (Returns (λ i. i < length l)) (leb (length l) 1) _ _ (λ _. pos)
        (λ _. weigh-Returns d.pair d.coin l pos s)

  -- An index into the list, which has the same servers as before.
  abbrev Chosen : List (Server A) → ℕ × List (Server A) → Type 0
  Chosen l (i, m) = (i < length m) × Same m l

  estimated-Returns :
      (strategy : Strategy) (estimator : Bool) (draw i : ℕ) (l : List (Server A))
      → i < length l
      → Returns
          (λ m. Same m l)
          (if estimator then estimator_update fl av strategy draw i l else ok l)
  estimated-Returns strategy true draw i l h = estimator_update-Same fl av strategy draw i l h
  estimated-Returns strategy false draw i l h = Perm.refl _

  choose_plain-Returns :
      (strategy : Strategy) (estimator : Bool) (d : Draws) (l : List (Server A))
      → 0 < length l
      → strategy ≢ wp2
      → Playable strategy d (length l)
      → Returns (Chosen l) (choose_plain fl av strategy estimator d l)
  unfolding choose_plain
  choose_plain-Returns strategy estimator d l pos w p =
      Returns-bind (λ i. i < length l) (Chosen l) (get_candidate strategy d.candidate (length l)) _
        (get_candidate-Returns strategy d (length l) pos w p)
        (λ i h.
          Returns-bind (λ m. Same m l) (Chosen l)
            (if estimator then estimator_update fl av strategy d.estimator i l else ok l) _
            (estimated-Returns strategy estimator d.estimator i l h)
            (λ m same. (omega (arith, Same-length m l same), same)))

  choose-Returns :
      (strategy : Strategy) (estimator : Bool) (d : Draws) (l : List (Server A))
      → 0 < length l
      → Playable strategy d (length l)
      → Returns (Chosen l) (choose fl av strategy estimator d l)
  unfolding choose
  choose-Returns wp2 estimator d l pos p =
      Returns-bind (λ i. i < length l) (Chosen l) (get_weighted_candidate fl av d.pair d.coin l) _
        (weighted-Returns d l pos p) (λ i h. (h, Perm.refl _))
  choose-Returns p2 estimator d l pos p = choose_plain-Returns p2 estimator d l pos (cc) p
  choose-Returns (pn k) estimator d l pos p = choose_plain-Returns (pn k) estimator d l pos (cc) p
  choose-Returns ph estimator d l pos p = choose_plain-Returns ph estimator d l pos (cc) p
  choose-Returns first estimator d l pos p = choose_plain-Returns first estimator d l pos (cc) p
  choose-Returns random estimator d l pos p = choose_plain-Returns random estimator d l pos (cc) p

  -- With a server at least, getOne returns one: no index and no draw is out of range, WP2's loop ends
  -- as soon as a draw names a second server, and whatever order the servers are in afterwards, they
  -- are the same.
  pub get_one-Returns :
      (strategy : Strategy) (estimator : Bool) (d : Draws) (now : ℕ) (l : List (Server A))
      → 0 < length l
      → Playable strategy d (length l)
      → Returns
          (λ r.
            ((s : Server A) × (i : ℕ) × (r.1 ≡ some s) × (get_elem? (r.0) i ≡ some s))
            × Same (r.0) l)
          (get_one fl av strategy estimator d now l)
  unfolding get_one
  get_one-Returns strategy estimator d now [] pos p = absurd (omega arith)
  get_one-Returns strategy estimator d now (s ∷ l) pos p =
      let back = recover_dormant-Same fl av now (s ∷ l) in
      let len : length (recover_dormant fl av now (s ∷ l)) ≡ length (s ∷ l) =
        Same-length _ (s ∷ l) back in
      Returns-bind (Chosen (recover_dormant fl av now (s ∷ l))) _
        (choose fl av strategy estimator d (recover_dormant fl av now (s ∷ l))) _
        (choose-Returns strategy estimator d (recover_dormant fl av now (s ∷ l)) (rw len pos)
          (rw len p))
        (λ (i, m) (h, same).
          let (c, e) = get_elem?-some m i h in rw e ((c, i, refl, e), Perm.trans same back))

  -- Of the two servers that WP2 compares, the one chosen has no lower score than the other, if no two
  -- numbers are each less than the other.
  pub better-score :
      (asym : (x y : F) → fl.lt x y ≡ true → fl.lt y x ≡ false) (i j : ℕ) (coin : Bool)
      (l : List (Server A)) (s t : Server A)
      → get_elem? l i ≡ some s
      → get_elem? l j ≡ some t
      → Returns
          (λ k.
            ((k ≡ i) × (fl.lt (server_score fl av s) (server_score fl av t) ≡ false))
            ⊎ ((k ≡ j) × (fl.lt (server_score fl av t) (server_score fl av s) ≡ false)))
          (better fl av i j coin l)
  unfolding better
  better-score asym i j coin l s t es et =
      rw (es, et)
        (if_cases (Returns P) (fl.lt (server_score fl av t) (server_score fl av s)) _ _
          (λ e. inl (refl, asym _ _ e))
          (λ ts.
            if_cases (Returns P) (fl.lt (server_score fl av s) (server_score fl av t)) _ _
              (λ _. inr (refl, ts))
              (λ st. if_cases P coin _ _ (λ _. inl (refl, st)) (λ _. inr (refl, ts)))))
    where
      P : ℕ → Type 0
      P k =
          ((k ≡ i) × (fl.lt (server_score fl av s) (server_score fl av t) ≡ false))
          ⊎ ((k ≡ j) × (fl.lt (server_score fl av t) (server_score fl av s) ≡ false))
