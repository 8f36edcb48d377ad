-- ===== src/Common/Sort.antt =====
-- Python's `sorted` of pairs whose first components are different texts, and the order of `str`.
pub mod Order
use thunder_sandbox.Prelude.{
  ℕ, Bool, true, false, ◌&&◌, ◌||◌, List, [], ◌∷◌, Text, ltb, ◌==◌, if◌then◌else◌,
}

abbrev pub comes_before : Text → Text → Bool
comes_before [] ys = true
comes_before (x ∷ xs) [] = false
comes_before (x ∷ xs) (y ∷ ys) = ltb x y || (x == y && comes_before xs ys)

abbrev pub insert : {A : Type 0} → Text × A → List (Text × A) → List (Text × A)
insert f [] = f ∷ []
insert f (g ∷ gs) =
    let rest = insert f gs in if comes_before f.0 g.0 then f ∷ (g ∷ gs) else g ∷ rest

abbrev pub sorted : {A : Type 0} → List (Text × A) → List (Text × A)
sorted [] = []
sorted (f ∷ fs) = insert f (sorted fs)
