-- ===== src/Base/Perms.antt =====
-- Orders of a list: what they keep of its length, and a write as an exchange.
use Prim.Native.Nat.{ℕ, zero, suc}
use mathlib.Core.Path.{◌≡◌, refl, ap, sym, ◌∙◌}
use mathlib.Core.List.{List, [], ◌∷◌, Perm, foldr}
use mathlib.Core.List.Perm
use mathlib.Core.Option.{some}
use proksitool.Base.Lists.{length, get_elem?, set}

module _ {A : Type 0} where
  length-foldr : (l : List A) → length l ≡ foldr (λ (x : A) (k : ℕ). suc k) 0 l
  length-foldr [] = refl
  length-foldr (x ∷ l) = ap suc (length-foldr l)

  pub length-perm : {l m : List A} → Perm l m → length l ≡ length m
  length-perm {l} {m} p =
      length-foldr l
      ∙ Perm.foldr-eq (hlevel) (λ (x : A) (k : ℕ). suc k) (λ a b k. refl) p 0
      ∙ sym (length-foldr m)

  -- Writing `b` over `a`, seen with the other of the two at hand.
  pub set-perm :
      (l : List A) (i : ℕ) (a b : A) → get_elem? l i ≡ some a → Perm (a ∷ set l i b) (b ∷ l)
  set-perm [] i a b h = cc
  set-perm (x ∷ l) zero a b h = let e : x ≡ a = cc in rw e (Perm.swap b a l)
  set-perm (x ∷ l) (suc i) a b h =
      Perm.trans (Perm.swap x a (set l i b))
        (Perm.trans (Perm.cons x (set-perm l i a b h)) (Perm.swap b x l))
