-- ===== src/Servers/Order.antt =====
-- pkg/dnscrypt/serversInfo.go: what moves the servers about, or changes them, loses none.
use mathlib.Core.List.Perm
use native.Mathlib.Nat.{mod-lt}
use mathlib.Core.List.{Perm}
use proksitool.Base.{
  ℕ, zero, suc, ◌-◌, ◌%◌, ◌<◌, ◌≤◌, ◌≡◌, inl, inr, refl, sym, ◌∙◌, ap, ◌==◌, List, [], ◌∷◌, some,
  length, ok, get_elem?, set, map, if_cases, Bool-cases, arith, Returns, get_elem?-some,
  get_elem?-lt, get_elem?-set_self, get_elem?-set_ne, set-perm, length-perm, length-map,
}
use proksitool.Servers.{
  Floats, Average, Server, Strategy, p2, pn, ph, first, random, wp2, intn, get_active_count, rtt_of,
  carry, sort_by_rtt, swap, compare_with, estimator_update, best_rtt, recover_one, recover_all,
  recover_dormant,
}

swap-perm :
    {A : Type 0} (i j : ℕ) (s t : A) (l : List A)
    → get_elem? l i ≡ some s
    → get_elem? l j ≡ some t
    → Perm (swap i s j t l) l
unfolding swap
swap-perm i j s t l hi hj =
    Perm.cons_inv (Perm.trans (set-perm (set l i t) j t s at_j) (set-perm l i s t hi))
  where
    at_j : get_elem? (set l i t) j ≡ some t
    at_j = elim (Bool-cases (i == j)) [
      | inl e ↦
          let p : i ≡ j = ground (arith, e) in
          ap (get_elem? (set l i t)) (sym p) ∙ get_elem?-set_self l i t (get_elem?-lt l i hi)
      | inr e ↦ get_elem?-set_ne l i j t (ground (arith, e)) ∙ hj
    ]

pub active-le : (strategy : Strategy) (n : ℕ) → 0 < n → get_active_count strategy n ≤ n
unfolding get_active_count
active-le p2 n h = omega arith
active-le (pn k) n h = omega arith
active-le ph n h = omega arith
active-le first n h = omega arith
active-le random n h = omega arith
active-le wp2 n h = omega arith

pub intn-ok : (draw k : ℕ) → 0 < k → intn draw k ≡ ok (draw % k)
unfolding intn
intn-ok draw k h = ground arith

module _ {A : Type 0} where
  -- The same servers, whatever their numbers are by now.
  abbrev pub Same : List (Server A) → List (Server A) → Type 0
  Same l m = Perm (map (λ s. s.name) l) (map (λ s. s.name) m)

  Same-set :
      (l : List (Server A)) (i : ℕ) (s t : Server A)
      → get_elem? l i ≡ some s
      → t.name ≡ s.name
      → Same (set l i t) l
  Same-set [] i s t h e = cc
  Same-set (x ∷ l) zero s t h e = let p : x ≡ s = cc in rw (e, p) (Perm.refl _)
  Same-set (x ∷ l) (suc i) s t h e = Perm.cons x.name (Same-set l i s t h e)

  Same-perm : {l m : List (Server A)} → Perm l m → Same l m
  Same-perm p = Perm.map (λ s. s.name) p

  pub Same-length : (l m : List (Server A)) → Same l m → length l ≡ length m
  Same-length l m p =
      sym (length-map (λ (s : Server A). s.name) l)
      ∙ length-perm p
      ∙ length-map (λ (s : Server A). s.name) m

module _ {F A : Type 0} (fl : Floats F) (av : Average F A) where
  carry-perm : (s : Server A) (l : List (Server A)) → Perm (carry fl av s l) (s ∷ l)
  unfolding carry
  carry-perm s [] = Perm.refl (s ∷ [])
  carry-perm s (t ∷ l) =
      if_cases (λ r. Perm r (s ∷ t ∷ l)) (fl.lt (rtt_of fl av t) (rtt_of fl av s)) _ _
        (λ _. Perm.trans (Perm.cons t (carry-perm s l)) (Perm.swap s t l))
        (λ _. Perm.cons s (carry-perm t l))

  -- The pass over the list puts the servers into another order at most.
  pub sort_by_rtt-perm : (l : List (Server A)) → Perm (sort_by_rtt fl av l) l
  unfolding sort_by_rtt
  sort_by_rtt-perm [] = Perm.nil
  sort_by_rtt-perm (s ∷ l) = carry-perm s l

  compare_with-Same :
      (candidate current : ℕ) (l : List (Server A))
      → candidate < length l
      → current < length l
      → Returns (λ m. Same m l) (compare_with fl av candidate current l)
  unfolding compare_with
  compare_with-Same candidate current l hc ha =
      let (c, ec) = get_elem?-some l candidate hc in
      let (a, ea) = get_elem?-some l current ha in
      rw (ec, ea)
        (if_cases (Returns (λ m. Same m l)) (fl.lt (rtt_of fl av a) (fl.of_ℕ 0)) _ _
          (λ _. Same-set l current a _ ea refl)
          (λ _.
            if_cases (Returns (λ m. Same m l)) (fl.lt (rtt_of fl av c) (rtt_of fl av a)) _ _
              (λ _.
                Same-perm
                  (Perm.trans (sort_by_rtt-perm _) (swap-perm candidate current c a l ec ea)))
              (λ _. Perm.refl _)))

  pub estimator_update-Same :
      (strategy : Strategy) (draw current : ℕ) (l : List (Server A))
      → current < length l
      → Returns (λ m. Same m l) (estimator_update fl av strategy draw current l)
  unfolding estimator_update
  estimator_update-Same strategy draw current l h =
      if_cases (Returns (λ m. Same m l)) (get_active_count strategy (length l) == length l) _ _
        (λ _. Perm.refl _)
        (λ e.
          let few : get_active_count strategy (length l) < length l =
            ground (arith, e, active-le strategy (length l)) in
          let some_left : 0 < length l - get_active_count strategy (length l) = omega arith in
          rw (intn-ok draw (length l - get_active_count strategy (length l)) some_left)
            (compare_with-Same _ current l (omega (arith, mod-lt draw some_left)) h))

  recover_one-name :
      (best : F) (now : ℕ) (s : Server A) → (recover_one fl av best now s).0.name ≡ s.name
  unfolding recover_one
  recover_one-name best now s = ground arith

  recover_all-Same :
      (best : F) (now : ℕ) (l : List (Server A)) → Same ((recover_all fl av best now l).0) l
  unfolding recover_all
  recover_all-Same best now [] = Perm.nil
  recover_all-Same best now (s ∷ l) =
      rw (recover_one-name best now s) (Perm.cons s.name (recover_all-Same best now l))

  pub recover_dormant-Same : (now : ℕ) (l : List (Server A)) → Same (recover_dormant fl av now l) l
  unfolding recover_dormant
  recover_dormant-Same now [] = Perm.nil
  recover_dormant-Same now (s ∷ []) = Perm.refl _
  recover_dormant-Same now (s ∷ t ∷ l) =
      let best = best_rtt fl av (rtt_of fl av s) (s ∷ t ∷ l) in
      if_cases (λ m. Same m (s ∷ t ∷ l)) (fl.le best (fl.of_ℕ 0)) _ _ (λ _. Perm.refl _)
        (λ _.
          if_cases (λ m. Same m (s ∷ t ∷ l)) ((recover_all fl av best now (s ∷ t ∷ l)).1) _ _
            (λ _.
              Perm.trans (Same-perm (sort_by_rtt-perm _)) (recover_all-Same best now (s ∷ t ∷ l)))
            (λ _. recover_all-Same best now (s ∷ t ∷ l)))
