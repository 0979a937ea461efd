-- ===== src/Tests/Sorting.antt =====
-- A sorting function for cut points that keeps the promises of `slices.SortFunc`.
use mathlib.Core.List.{Permᴰ}
use proksitool.Base.{
  ℕ, ◌≤◌, refl, List, [], ◌∷◌, arith, leb, Bool-cases, inl, inr, leb→le, if◌then◌else◌,
}
use proksitool.Desync.Split.{SplitPoint}
use proksitool.Desync.Split.Cuts.{Ascends}
use proksitool.Desync.Split.Reassembly.{Sorts}

insert : SplitPoint → List SplitPoint → List SplitPoint
insert p [] = p ∷ []
insert p (q ∷ points) = if leb p.at q.at then p ∷ q ∷ points else q ∷ insert p points

unfoldable pub insertion_sort : List SplitPoint → List SplitPoint
unfolding insert
insertion_sort [] = []
insertion_sort (p ∷ points) = insert p (insertion_sort points)

Perm-refl : (points : List SplitPoint) → Permᴰ points points
Perm-refl [] = Permᴰ.nil
Perm-refl (p ∷ points) = Permᴰ.cons refl (Perm-refl points)

insert-Perm : (p : SplitPoint) (points : List SplitPoint) → Permᴰ (p ∷ points) (insert p points)
unfolding insert
insert-Perm p [] = Perm-refl (p ∷ [])
insert-Perm p (q ∷ points) = elim (Bool-cases (leb p.at q.at)) [
  | inl first ↦ rw first (Perm-refl (p ∷ q ∷ points))
  | inr later ↦
      rw later (Permᴰ.trans (Permᴰ.swap refl refl) (Permᴰ.cons refl (insert-Perm p points)))
]

insertion_sort-Perm : (points : List SplitPoint) → Permᴰ points (insertion_sort points)
unfolding insertion_sort
insertion_sort-Perm [] = Permᴰ.nil
insertion_sort-Perm (p ∷ points) =
    Permᴰ.trans (Permᴰ.cons refl (insertion_sort-Perm points))
      (insert-Perm p (insertion_sort points))

insert-Ascends :
    (k : ℕ) (p : SplitPoint) (points : List SplitPoint)
    → k ≤ p.at
    → Ascends k points
    → Ascends k (insert p points)
unfolding insert
insert-Ascends k p [] h a = (h, tt)
insert-Ascends k p (q ∷ points) h (low, a) = elim (Bool-cases (leb p.at q.at)) [
  | inl first ↦ rw first (h, (leb→le p.at q.at first, a))
  | inr later ↦ rw later (low, insert-Ascends q.at p points (ground arith) a)
]

insertion_sort-Ascends : (points : List SplitPoint) → Ascends 0 (insertion_sort points)
unfolding insertion_sort
insertion_sort-Ascends [] = tt
insertion_sort-Ascends (p ∷ points) =
    insert-Ascends 0 p (insertion_sort points) (omega arith) (insertion_sort-Ascends points)

pub insertion_sort-Sorts : Sorts insertion_sort
insertion_sort-Sorts = record { permutes = insertion_sort-Perm; ascends = insertion_sort-Ascends }
