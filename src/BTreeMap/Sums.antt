-- ===== src/BTreeMap/Sums.antt =====
-- Sums over the entries of a map, and predicates on all of them.
use paqus_node.Base.{
  ℕ, suc, ◌+◌, ◌≡◌, ◌≤◌, refl, Bool, [], ◌∷◌, none, some, ◌==◌, arith, length, sym, Bool-cases,
  ==_iff, inl, inr,
}
use mathlib.Core.Path.{subst₂}
use paqus_node.BTreeMap.Laws.{get-cons_of_get, get-Above}
use paqus_node.BTreeMap.{BTreeMap, get, insert, remove, retain, IsSorted}

module _ {ℓ} {V : Type ℓ} where
  abbrev pub total : (V → ℕ) → BTreeMap V → ℕ
  total f [] = 0
  total f ((k, v) ∷ m) = f v + total f m

  abbrev pub AllEntries {κ} : (ℕ → V → Type κ) → BTreeMap V → Type κ
  AllEntries P [] = Unit
  AllEntries P ((k, v) ∷ m) = P k v × AllEntries P m

  pub total-insert :
      (f : V → ℕ) (k : ℕ) (v : V) (m : BTreeMap V)
      → get k m ≡ none
      → total f (insert k v m) ≡ f v + total f m
  unfolding get insert
  total-insert f k v [] e = refl
  total-insert f k v ((j, w) ∷ m) e = ground (arith, total-insert f k v m)

  pub length-insert :
      (k : ℕ) (v : V) (m : BTreeMap V) → get k m ≡ none → length (insert k v m) ≡ suc (length m)
  unfolding get insert
  length-insert k v [] e = refl
  length-insert k v ((j, w) ∷ m) e = ground (arith, length-insert k v m)

  pub length-insert_present :
      (k : ℕ) (v w : V) (m : BTreeMap V)
      → IsSorted m
      → get k m ≡ some w
      → length (insert k v m) ≡ length m
  unfolding get insert
  length-insert_present k v w [] s e = absurd (ground arith)
  length-insert_present k v w ((j, u) ∷ m) s e =
      ground (arith, length-insert_present k v w m s.1, get-Above k j m)

  pub total-remove :
      (f : V → ℕ) (k : ℕ) (v : V) (m : BTreeMap V)
      → get k m ≡ some v
      → total f (remove k m) + f v ≡ total f m
  unfolding get remove
  total-remove f k v [] e = ground arith
  total-remove f k v ((j, w) ∷ m) e = ground (arith, total-remove f k v m)

  pub length-remove :
      (k : ℕ) (v : V) (m : BTreeMap V) → get k m ≡ some v → suc (length (remove k m)) ≡ length m
  unfolding get remove
  length-remove k v [] e = ground arith
  length-remove k v ((j, w) ∷ m) e = ground (arith, length-remove k v m)

  pub remove_absent : (k : ℕ) (m : BTreeMap V) → get k m ≡ none → remove k m ≡ m
  unfolding get remove
  remove_absent k [] e = refl
  remove_absent k ((j, w) ∷ m) e = ground (arith, remove_absent k m)

  pub total-retain-le :
      (f : V → ℕ) (p : ℕ → V → Bool) (m : BTreeMap V) → total f (retain p m) ≤ total f m
  unfolding retain
  total-retain-le f p [] = omega arith
  total-retain-le f p ((j, w) ∷ m) = ground (arith, total-retain-le f p m)

  pub length-retain-le : (p : ℕ → V → Bool) (m : BTreeMap V) → length (retain p m) ≤ length m
  unfolding retain
  length-retain-le p [] = omega arith
  length-retain-le p ((j, w) ∷ m) = ground (arith, length-retain-le p m)

  module _ {κ} (P : ℕ → V → Type κ) where
    pub AllEntries-insert :
        (k : ℕ) (v : V) (m : BTreeMap V) → P k v → AllEntries P m → AllEntries P (insert k v m)
    unfolding insert
    AllEntries-insert k v [] p a = (p, tt)
    AllEntries-insert k v ((j, w) ∷ m) p a = ground (arith, AllEntries-insert k v m p a.1)

    pub AllEntries-remove : (k : ℕ) (m : BTreeMap V) → AllEntries P m → AllEntries P (remove k m)
    unfolding remove
    AllEntries-remove k [] a = tt
    AllEntries-remove k ((j, w) ∷ m) a = ground (arith, AllEntries-remove k m a.1)

    pub AllEntries-retain :
        (p : ℕ → V → Bool) (m : BTreeMap V) → AllEntries P m → AllEntries P (retain p m)
    unfolding retain
    AllEntries-retain p [] a = tt
    AllEntries-retain p ((j, w) ∷ m) a = ground (arith, AllEntries-retain p m a.1)

    pub AllEntries-get :
        (k : ℕ) (v : V) (m : BTreeMap V) → AllEntries P m → get k m ≡ some v → P k v
    unfolding get
    AllEntries-get k v [] a e = absurd (ground arith)
    AllEntries-get k v ((j, w) ∷ m) a e = elim (Bool-cases (k == j)) [
      | inl same ↦
          let value : w ≡ v = ground arith in subst₂ P (sym ((==_iff k j).0 same)) value a.0
      | inr other ↦ AllEntries-get k v m a.1 (rw (other, get) at e)
    ]

    -- A predicate holds of all entries if it holds of all that can be read.
    pub AllEntries-of_get :
        (m : BTreeMap V)
        → IsSorted m
        → ((k : ℕ) (v : V) → get k m ≡ some v → P k v)
        → AllEntries P m
    unfolding get
    AllEntries-of_get [] s h = tt
    AllEntries-of_get ((j, w) ∷ m) s h = (
      h j w (ground arith),
      AllEntries-of_get m s.1 λ k v e. h k v (get-cons_of_get k j v w m s.0 e),
    )
