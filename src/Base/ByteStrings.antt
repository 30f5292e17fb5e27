-- ===== src/Base/ByteStrings.antt =====
-- Byte strings as lists: their comparison, and numbers of a fixed width, most significant byte first.
use Prim.Native.Nat.{ℕ, zero, suc, ◌+◌, ◌*◌, ◌/◌, ◌%◌, ◌^◌, ◌<◌}
use mathlib.Core.Bool.{Bool, true, false, ◌&&◌}
use mathlib.Core.List.{List, [], ◌∷◌, ◌++◌, foldl, foldl-append}
use mathlib.Core.Logic.{inl, inr}
use mathlib.Core.Path.{◌≡◌, refl, sym, ap, ◌∙◌}
use native.Mathlib.Omega.{arith}
use paqus_node.Base.Lists.{length, length-append}
use paqus_node.Base.Tests.{◌==◌, Bool-cases}

abbrev pub Bytes : Type 0
Bytes = List ℕ

abbrev pub same_bytes : Bytes → Bytes → Bool
same_bytes [] [] = true
same_bytes [] (y ∷ ys) = false
same_bytes (x ∷ xs) [] = false
same_bytes (x ∷ xs) (y ∷ ys) = x == y && same_bytes xs ys

-- `starts_with`, on slices.
abbrev pub starts_with : Bytes → Bytes → Bool
starts_with xs [] = true
starts_with [] (y ∷ ys) = false
starts_with (x ∷ xs) (y ∷ ys) = x == y && starts_with xs ys

-- `to_be_bytes` of a number of so many bytes, and `from_be_bytes`.
unfoldable pub be_bytes : ℕ → ℕ → Bytes
be_bytes zero n = []
be_bytes (suc width) n = be_bytes width (n / 256) ++ (n % 256) ∷ []

unfoldable pub of_bytes : Bytes → ℕ
of_bytes = foldl (λ n b. n * 256 + b) 0

pub same_bytes_refl : (xs : Bytes) → same_bytes xs xs ≡ true
same_bytes_refl [] = refl
same_bytes_refl (x ∷ xs) = ground (arith, same_bytes_refl xs)

pub same_bytes-eq : (xs ys : Bytes) → same_bytes xs ys ≡ true → xs ≡ ys
same_bytes-eq [] [] e = refl
same_bytes-eq [] (y ∷ ys) e = absurd (ground arith)
same_bytes-eq (x ∷ xs) [] e = absurd (ground arith)
same_bytes-eq (x ∷ xs) (y ∷ ys) e =
    let first : x ≡ y = ground arith in
    let rest = same_bytes-eq xs ys (ground arith) in rw (first, rest) refl

pub length-be_bytes : (width n : ℕ) → length (be_bytes width n) ≡ width
unfolding be_bytes
length-be_bytes zero n = refl
length-be_bytes (suc width) n = omega (
  arith,
  length-append (be_bytes width (n / 256)) ((n % 256) ∷ []),
  length-be_bytes width (n / 256),
)

-- Reading back what was written, for a number that fits.
pub of_bytes-be_bytes : (width n : ℕ) → n < 256 ^ width → of_bytes (be_bytes width n) ≡ n
unfolding of_bytes be_bytes
of_bytes-be_bytes zero n fits = omega arith
of_bytes-be_bytes (suc width) n fits =
    let back = of_bytes-be_bytes width (n / 256) (omega arith) in
    rw (foldl-append, back) (omega arith)

pub same_bytes-be_bytes :
    (width m n : ℕ)
    → m < 256 ^ width
    → n < 256 ^ width
    → same_bytes (be_bytes width m) (be_bytes width n) ≡ (m == n)
same_bytes-be_bytes width m n fits fits' =
    elim (Bool-cases (same_bytes (be_bytes width m) (be_bytes width n))) [
      | inl e ↦
          let same : m ≡ n =
            sym (of_bytes-be_bytes width m fits)
            ∙ ap of_bytes (same_bytes-eq (be_bytes width m) (be_bytes width n) e)
            ∙ of_bytes-be_bytes width n fits' in
          rw e (ground arith)
      | inr e ↦ elim (Bool-cases (m == n)) [
        | inr other ↦ rw (e, other) refl
        | inl same ↦
            let eq : m ≡ n = ground arith in
            absurd (
              cc (
                e,
                same_bytes_refl (be_bytes width m),
                ap (same_bytes (be_bytes width m)) (ap (be_bytes width) eq),
              ))
      ]
    ]
