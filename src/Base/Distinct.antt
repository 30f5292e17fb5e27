-- ===== src/Base/Distinct.antt =====
-- Lists of numbers as queues without repeats.
use Prim.Native.Nat.{ℕ}
use mathlib.Core.Bool.{Bool, true, false, ◌&&◌, ◌||◌}
use mathlib.Core.Logic.{inl, inr}
use mathlib.Core.List.{List, [], ◌∷◌, ◌++◌}
use mathlib.Core.Path.{◌≡◌, refl, subst}
use native.Mathlib.Omega.{arith}
use paqus_node.Base.Lists.{any, filter}
use paqus_node.Base.Tests.{◌==◌, Bool-cases}

abbrev pub elem : ℕ → List ℕ → Bool
elem v l = any (λ x. v == x) l

abbrev pub IsDistinct : List ℕ → Type 0
IsDistinct [] = Unit
IsDistinct (x ∷ xs) = (elem x xs ≡ false) × IsDistinct xs

pub elem-append : (v x : ℕ) (l : List ℕ) → elem v (l ++ x ∷ []) ≡ (elem v l || v == x)
elem-append v x [] = ground arith
elem-append v x (y ∷ ys) = ground (arith, elem-append v x ys)

pub IsDistinct-append :
    (x : ℕ) (l : List ℕ) → elem x l ≡ false → IsDistinct l → IsDistinct (l ++ x ∷ [])
IsDistinct-append x [] n d = (refl, tt)
IsDistinct-append x (y ∷ ys) n d = ground (arith, IsDistinct-append x ys, elem-append y x ys)

pub elem-filter : (p : ℕ → Bool) (v : ℕ) (l : List ℕ) → elem v (filter p l) ≡ (elem v l && p v)
elem-filter p v [] = refl
elem-filter p v (x ∷ xs) = elim (Bool-cases (v == x)) [
  | inl same ↦
      let e : v ≡ x = ground arith in
      subst (λ (u : ℕ). elem v (filter p (u ∷ xs)) ≡ (elem v (u ∷ xs) && p v)) e
        (ground (arith, elem-filter p v xs))
  | inr other ↦ ground (arith, elem-filter p v xs)
]

pub IsDistinct-filter : (p : ℕ → Bool) (l : List ℕ) → IsDistinct l → IsDistinct (filter p l)
IsDistinct-filter p [] d = tt
IsDistinct-filter p (x ∷ xs) d = ground (arith, IsDistinct-filter p xs, elem-filter p x xs)

-- Filters by tests that agree on the list.
pub filter-same :
    (p q : ℕ → Bool) (l : List ℕ)
    → ((v : ℕ) → elem v l ≡ true → p v ≡ q v)
    → filter p l ≡ filter q l
filter-same p q [] h = refl
filter-same p q (x ∷ xs) h =
    let rest = filter-same p q xs (λ v e. h v (ground arith)) in
    let first = h x (ground arith) in rw (rest, first) refl
