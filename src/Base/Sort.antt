-- ===== src/Base/Sort.antt =====
-- `slice::sort_by`: a stable sort by a Boolean order. Which stable algorithm Rust runs cannot be
-- observed, so this is insertion sort.
use Prim.Native.Nat.{ℕ, suc, ◌+◌}
use mathlib.Core.Bool.{Bool, true, false, ◌||◌}
use mathlib.Core.List.{List, [], ◌∷◌, Perm}
use mathlib.Core.List.Perm
use mathlib.Core.Path.{◌≡◌, refl}
use mathlib.Core.Logic.{inl, inr}
use native.Mathlib.Omega.{arith}
use paqus_node.Base.Lists.{any, All, All-imp, length, sum_by}
use paqus_node.Base.Tests.{if◌then◌else◌, Bool-cases}

module _ {ℓ} {A : Type ℓ} (le : A → A → Bool) where
  insert_by : A → List A → List A
  insert_by x [] = x ∷ []
  insert_by x (y ∷ ys) = if le x y then x ∷ y ∷ ys else y ∷ insert_by x ys

  unfoldable pub sort_by : List A → List A
  unfolding insert_by
  sort_by [] = []
  sort_by (x ∷ xs) = insert_by x (sort_by xs)

  sum_by-insert_by : (f : A → ℕ) (x : A) (l : List A) → sum_by f (insert_by x l) ≡ f x + sum_by f l
  unfolding insert_by
  sum_by-insert_by f x [] = refl
  sum_by-insert_by f x (y ∷ ys) = ground (arith, sum_by-insert_by f x ys)

  -- Sorting keeps the sum of every weight, so it loses nothing and adds nothing.
  pub sum_by-sort_by : (f : A → ℕ) (l : List A) → sum_by f (sort_by l) ≡ sum_by f l
  unfolding sort_by
  sum_by-sort_by f [] = refl
  sum_by-sort_by f (x ∷ xs) = omega (arith, sum_by-insert_by f x (sort_by xs), sum_by-sort_by f xs)

  length-insert_by : (x : A) (l : List A) → length (insert_by x l) ≡ suc (length l)
  unfolding insert_by
  length-insert_by x [] = refl
  length-insert_by x (y ∷ ys) = ground (arith, length-insert_by x ys)

  pub length-sort_by : (l : List A) → length (sort_by l) ≡ length l
  unfolding sort_by
  length-sort_by [] = refl
  length-sort_by (x ∷ xs) = omega (arith, length-insert_by x (sort_by xs), length-sort_by xs)

  any-insert_by : (p : A → Bool) (x : A) (l : List A) → any p (insert_by x l) ≡ (p x || any p l)
  unfolding insert_by
  any-insert_by p x [] = refl
  any-insert_by p x (y ∷ ys) = ground (arith, any-insert_by p x ys)

  pub any-sort_by : (p : A → Bool) (l : List A) → any p (sort_by l) ≡ any p l
  unfolding sort_by
  any-sort_by p [] = refl
  any-sort_by p (x ∷ xs) = ground (arith, any-insert_by p x (sort_by xs), any-sort_by p xs)

  insert_by-perm : (x : A) (l : List A) → Perm (insert_by x l) (x ∷ l)
  unfolding insert_by
  insert_by-perm x [] = Perm.rfl
  insert_by-perm x (y ∷ ys) = elim (Bool-cases (le x y)) [
    | inl before ↦ rw before Perm.rfl
    | inr after ↦ rw after (Perm.trans (Perm.cons y (insert_by-perm x ys)) (Perm.swap x y ys))
  ]

  -- The sorted list is the list in another order.
  pub sort_by-perm : (l : List A) → Perm (sort_by l) l
  unfolding sort_by
  sort_by-perm [] = Perm.rfl
  sort_by-perm (x ∷ xs) = Perm.trans (insert_by-perm x (sort_by xs)) (Perm.cons x (sort_by-perm xs))

  module _ {κ} (P : A → Type κ) where
    All-insert_by : (x : A) (l : List A) → P x → All P l → All P (insert_by x l)
    unfolding insert_by
    All-insert_by x [] p a = (p, tt)
    All-insert_by x (y ∷ ys) p a = ground (arith, All-insert_by x ys p a.1)

    pub All-sort_by : (l : List A) → All P l → All P (sort_by l)
    unfolding sort_by
    All-sort_by [] a = tt
    All-sort_by (x ∷ xs) a = All-insert_by x (sort_by xs) a.0 (All-sort_by xs a.1)

    All-insert_by_inv : (x : A) (l : List A) → All P (insert_by x l) → P x × All P l
    unfolding insert_by
    All-insert_by_inv x [] a = a
    All-insert_by_inv x (y ∷ ys) a = ground (arith, All-insert_by_inv x ys)

    -- What holds of every element of the sorted list holds of every element of the list.
    pub All-sort_by_inv : (l : List A) → All P (sort_by l) → All P l
    unfolding sort_by
    All-sort_by_inv [] a = tt
    All-sort_by_inv (x ∷ xs) a =
        let (p, rest) = All-insert_by_inv x (sort_by xs) a in (p, All-sort_by_inv xs rest)

module _ {ℓ κ} {A : Type ℓ} (R : A → A → Type κ) where
  -- Every element is related to all that follow it.
  abbrev pub IsAscending : List A → Type κ
  IsAscending [] = Unit
  IsAscending (x ∷ xs) = All (R x) xs × IsAscending xs

  module _ (le : A → A → Bool) (of_le : (x y : A) → le x y ≡ true → R x y)
      (of_gt : (x y : A) → le x y ≡ false → R y x)
      (trans : (x y z : A) → R x y → R y z → R x z) where
    insert_by-IsAscending : (x : A) (l : List A) → IsAscending l → IsAscending (insert_by le x l)
    unfolding insert_by
    insert_by-IsAscending x [] s = (tt, tt)
    insert_by-IsAscending x (y ∷ ys) s = elim (Bool-cases (le x y)) [
      | inl e ↦ rw e ((of_le x y e, All-imp (λ z r. trans x y z (of_le x y e) r) ys s.0), s)
      | inr e ↦ rw e (All-insert_by le (R y) x ys (of_gt x y e) s.0, insert_by-IsAscending x ys s.1)
    ]

    pub sort_by-IsAscending : (l : List A) → IsAscending (sort_by le l)
    unfolding sort_by
    sort_by-IsAscending [] = tt
    sort_by-IsAscending (x ∷ xs) = insert_by-IsAscending x (sort_by le xs) (sort_by-IsAscending xs)
